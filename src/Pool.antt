-- ===== src/Pool.antt =====
-- `ConnectionPool` of backend/common/wscore/pool.py: the open connections by user, up to a capacity. The
-- map holds its values weakly, so an entry may also vanish between two calls.
pub mod Reach
pub mod Lookup
use fbapy.Base.{
  ℕ, suc, ◌≡◌, Bool, true, false, not, Option, none, some, List, [], ◌∷◌, ◌++◌, ◌==◌, ltb, leb,
  if◌then◌else◌, length, any, keep,
}
use fbapy.Base.Text.{Text, text_eq}
use fbapy.Base.Exec.{Result, ok, err, value_error, key_error}

-- A `ClientConnection`, told apart by its handle.
pub record Connection : Type 0 where
  pub uid : Text
  pub handle : ℕ

-- The map in the order of insertion, and the two counters.
pub record Pool : Type 0 where
  pub capacity : ℕ
  pub connection_map : List Connection
  pub max_connections : ℕ
  pub current_connections : ℕ

pub data Added : Type 0 where
  added already_exists capacity_exceeded : Added

abbrev pub empty : ℕ → Pool
empty capacity = record {
  capacity = capacity;
  connection_map = [];
  max_connections = 0;
  current_connections = 0;
}

unfoldable pub init : ℕ → Result Pool
init capacity = if capacity == 0 then err value_error else ok (empty capacity)

-- The property `current_connections`, which also keeps the peak.
unfoldable pub read_current_connections : Pool → ℕ × Pool
read_current_connections p =
    let n = length p.connection_map in
    (
      n,
      record p {
        current_connections = n;
        max_connections = if ltb p.max_connections n then n else p.max_connections;
      },
    )

-- `uid in self._connection_map`
abbrev pub contains : List Connection → Text → Bool
contains cs uid = any (λ (c : Connection). text_eq c.uid uid) cs

abbrev pub without : Text → List Connection → List Connection
without uid cs = keep (λ (c : Connection). not (text_eq c.uid uid)) cs

abbrev pub find : Text → List Connection → Option Connection
find uid [] = none
find uid (c ∷ cs) = if text_eq c.uid uid then some c else find uid cs

unfoldable pub add_connection : Connection → Pool → Added × Pool
add_connection c p =
    if contains p.connection_map c.uid
    then (already_exists, p)
    else if leb p.capacity (length p.connection_map)
    then (capacity_exceeded, p)
    else (
      added,
      record p {
        connection_map = p.connection_map ++ c ∷ [];
        current_connections = length (p.connection_map ++ c ∷ []);
      },
    )

unfoldable pub remove_connection : Text → Pool → Result (Option Connection) × Pool
remove_connection [] p = (err value_error, p)
remove_connection (x ∷ uid) p =
    let rest = without (x ∷ uid) p.connection_map in
    (
      ok (find (x ∷ uid) p.connection_map),
      record p { connection_map = rest; current_connections = length rest },
    )

unfoldable pub get_connection : Text → Pool → Result (Option Connection)
get_connection [] p = err value_error
get_connection (x ∷ uid) p = ok (find (x ∷ uid) p.connection_map)

-- `clear` gives the connections that it then closes, one by one.
unfoldable pub clear : Pool → List Connection × Pool
clear p = (p.connection_map, record p { connection_map = []; current_connections = 0 })

-- The garbage collector drops an entry whose connection nothing else holds.
unfoldable pub reclaim : Text → Pool → Pool
reclaim uid p = record p { connection_map = without uid p.connection_map }

-- One step of the pool's life.
pub data Step : Pool → Pool → Type 0 where
  read_step : (p : Pool) → Step p (read_current_connections p).1
  add_step : (c : Connection) (p : Pool) → Step p (add_connection c p).1
  remove_step : (uid : Text) (p : Pool) → Step p (remove_connection uid p).1
  clear_step : (p : Pool) → Step p (clear p).1
  reclaim_step : (uid : Text) (p : Pool) → Step p (reclaim uid p)

pub data Reachable (capacity : ℕ) : Pool → Type 0 where
  start : (p : Pool) → init capacity ≡ ok p → Reachable capacity p
  step : (p q : Pool) → Reachable capacity p → Step p q → Reachable capacity q
