-- ===== src/MemoryCache.antt =====
-- `MemoryCache` of backend/common/openai/llm/cache/memory.py: the last turns of a conversation in a deque
-- with a maximal length.
pub mod History
use fbapy.Base.{
  ℕ, zero, suc, ◌-◌, Bool, Option, none, some, List, [], ◌∷◌, ◌++◌, ◌==◌, leb, if◌then◌else◌,
  is_empty, length,
}
use fbapy.Base.Text.{Text}

-- The keys of a record's dict; the metadata as keys and values, `{}` where none are given.
pub record Interaction : Type 0 where
  pub datetime : ℕ
  pub user : Text
  pub assistant : Text
  pub metadata : List (Text × Text)
  pub last_accessed : ℕ

abbrev pub Cache : Type 0
Cache = List Interaction

pub drop : {A : Type 0} → ℕ → List A → List A
drop zero xs = xs
drop (suc n) [] = []
drop (suc n) (x ∷ xs) = drop n xs

-- `deque.append`: a full deque loses its first element, and one of length 0 keeps nothing.
unfoldable pub append : ℕ → Interaction → Cache → Cache
unfolding drop
append max_size x cache =
    if max_size == 0
    then []
    else if length cache == max_size
    then drop 1 cache ++ x ∷ []
    else cache ++ x ∷ []

abbrev pub or_empty : Option (List (Text × Text)) → List (Text × Text)
or_empty none = []
or_empty (some metadata) = metadata

-- `add`, at the wall clock `now` and the loop's clock `time`
pub record Turn : Type 0 where
  pub now : ℕ
  pub time : ℕ
  pub query : Text
  pub response : Text
  pub metadata : Option (List (Text × Text))

abbrev pub interaction : Turn → Interaction
interaction turn = record {
  datetime = turn.now;
  user = turn.query;
  assistant = turn.response;
  metadata = or_empty turn.metadata;
  last_accessed = turn.time;
}

unfoldable pub add : ℕ → Turn → Cache → Cache
unfolding append
add max_size turn cache = append max_size (interaction turn) cache

-- `sorted` by `last_accessed`, which keeps the order of equal keys
pub insert_sorted : Interaction → Cache → Cache
insert_sorted x [] = x ∷ []
insert_sorted x (y ∷ ys) =
    let rest = insert_sorted x ys in
    if leb x.last_accessed y.last_accessed then x ∷ y ∷ ys else y ∷ rest

pub sort_accessed : Cache → Cache
sort_accessed [] = []
sort_accessed (x ∷ xs) = insert_sorted x (sort_accessed xs)

-- `xs[-limit:]`, which for 0 is the whole list
abbrev pub slice_last : ℕ → Cache → Cache
slice_last limit cache = if limit == 0 then cache else drop (length cache - limit) cache

unfoldable pub retrieve_recent : ℕ → Cache → List Interaction
unfolding drop sort_accessed insert_sorted
retrieve_recent limit cache = sort_accessed (slice_last limit cache)

abbrev pub retrieve_related : Text → ℕ → Cache → List Interaction
retrieve_related query limit cache = retrieve_recent limit cache

abbrev pub size : Cache → ℕ
size cache = length cache

abbrev pub clear : Cache → Cache
clear cache = []

-- A call that changes the cache, and a sequence of them.
pub data Call : Type 0 where
  add_call : Turn → Call
  clear_call : Call

unfoldable pub run : ℕ → Cache → List Call → Cache
run max_size cache [] = cache
run max_size cache (add_call turn ∷ calls) = run max_size (add max_size turn cache) calls
run max_size cache (clear_call ∷ calls) = run max_size (clear cache) calls
