-- ===== src/Redis.antt =====
-- The Redis server behind backend/database/redis.py, as an interface with the documented behaviour
-- of its commands, and `RedisCli.delete_prefix` and `get_prefix`, which the source defines over it.
pub mod Prefix
pub mod Table
use fbapy.Base.{
  ℕ, ◌≡◌, Bool, true, false, not, ◌&&◌, Option, none, some, List, [], ◌∷◌, ◌++◌, leb, if◌then◌else◌,
  length, is_empty, any,
}
use fbapy.Base.Text.{Text, text_eq, starts_with}

-- `key in keys`
abbrev pub contains : List Text → Text → Bool
contains keys key = any (text_eq key) keys

-- A server: GET, SET, SETEX, SET NX, DEL, and SCAN with the pattern `prefix*` (for a prefix without
-- glob characters). Keys that run out between two requests are outside of these laws.
pub record Server : Type 1 where
  pub State : Type 0
  pub get : State → Text → Option Text
  pub set : Text → Text → State → State
  pub setex : Text → ℕ → Text → State → State
  pub delete : Text → State → State
  pub scan_iter : Text → State → List Text
  pub get-set :
      (k v : Text) (s : State) (j : Text)
      → get (set k v s) j ≡ (if text_eq k j then some v else get s j)
  pub get-setex :
      (k : Text) (ttl : ℕ) (v : Text) (s : State) (j : Text)
      → get (setex k ttl v s) j ≡ (if text_eq k j then some v else get s j)
  pub get-delete :
      (k : Text) (s : State) (j : Text)
      → get (delete k s) j ≡ (if text_eq k j then none else get s j)
  pub scan_iter-prefix :
      (p : Text) (s : State) (k : Text) → contains (scan_iter p s) k ≡ true → starts_with p k ≡ true
  pub scan_iter-present :
      (p : Text) (s : State) (k v : Text)
      → get s k ≡ some v
      → starts_with p k ≡ true
      → contains (scan_iter p s) k ≡ true

module _ (r : Server) where
  open r use {State, delete, scan_iter}

  -- `redis.delete(*keys)`
  unfoldable pub delete_all : List Text → State → State
  delete_all [] s = s
  delete_all (k ∷ ks) s = delete_all ks (delete k s)

  -- The loop of `delete_prefix` over the keys that SCAN gives, with the batch that is being filled.
  delete_batches : List Text → ℕ → List Text → List Text → State → State
  delete_batches exclude size [] batch s = if is_empty batch then s else delete_all batch s
  delete_batches exclude size (key ∷ keys) batch s =
      let grown = batch ++ key ∷ [] in
      let skip = delete_batches exclude size keys batch s in
      let flush = delete_batches exclude size keys [] (delete_all grown s) in
      let grow = delete_batches exclude size keys grown s in
      if not (contains exclude key) then if leb size (length grown) then flush else grow else skip

  unfoldable pub delete_prefix : Text → List Text → ℕ → State → State
  unfolding delete_batches delete_all
  delete_prefix prefix exclude batch_size s =
      delete_batches exclude batch_size (scan_iter prefix s) [] s

  unfoldable pub get_prefix : Text → State → List Text
  get_prefix prefix s = scan_iter prefix s
