-- ===== src/Redis/Table.antt =====
-- A server as a list of keys and values, which shows that the laws can be met. Tests run on it.
use fbapy.Base.{◌≡◌, true, Option, none, some, List, [], ◌∷◌, arith, if◌then◌else◌}
use fbapy.Base.Text.{Text, text_eq, text_eq_iff, starts_with}
use fbapy.Redis.{Server, contains}

abbrev pub Table : Type 0
Table = List (Text × Text)

abbrev pub get : Table → Text → Option Text
get [] j = none
get ((k, v) ∷ t) j = if text_eq k j then some v else get t j

abbrev pub delete : Text → Table → Table
delete k [] = []
delete k (e ∷ t) = let rest = delete k t in if text_eq e.0 k then rest else e ∷ rest

abbrev pub set : Text → Text → Table → Table
set k v t = (k, v) ∷ delete k t

abbrev pub scan_iter : Text → Table → List Text
scan_iter p [] = []
scan_iter p (e ∷ t) = let rest = scan_iter p t in if starts_with p e.0 then e.0 ∷ rest else rest

pub get-delete :
    (k : Text) (t : Table) (j : Text) → get (delete k t) j ≡ (if text_eq k j then none else get t j)
get-delete k [] j = ground arith
get-delete k ((i, v) ∷ t) j =
    ground (arith, get-delete k t j, text_eq_iff i k, text_eq_iff i j, text_eq_iff k j)

pub get-set :
    (k v : Text) (t : Table) (j : Text)
    → get (set k v t) j ≡ (if text_eq k j then some v else get t j)
get-set k v t j = ground (arith, get-delete k t j)

pub scan_iter-prefix :
    (p : Text) (t : Table) (k : Text) → contains (scan_iter p t) k ≡ true → starts_with p k ≡ true
scan_iter-prefix p [] k h = cc
scan_iter-prefix p ((i, v) ∷ t) k h = ground (arith, scan_iter-prefix p t k, text_eq_iff k i)

pub scan_iter-present :
    (p : Text) (t : Table) (k v : Text)
    → get t k ≡ some v
    → starts_with p k ≡ true
    → contains (scan_iter p t) k ≡ true
scan_iter-present p [] k v h q = cc
scan_iter-present p ((i, w) ∷ t) k v h q =
    ground (arith, scan_iter-present p t k v, text_eq_iff k i, text_eq_iff i k)

abbrev pub table_server : Server
table_server = record {
  State = Table;
  get = get;
  set = set;
  setex = λ k ttl v t. set k v t;
  delete = delete;
  scan_iter = scan_iter;
  get-set = get-set;
  get-setex = λ k ttl v t j. get-set k v t j;
  get-delete = get-delete;
  scan_iter-prefix = scan_iter-prefix;
  scan_iter-present = scan_iter-present;
}
