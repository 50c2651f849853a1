-- ===== src/Redis/Prefix.antt =====
-- Which keys are left after `delete_prefix`.
use fbapy.Base.{
  ℕ, ◌≡◌, refl, inl, inr, not, ◌&&◌, ◌||◌, none, List, [], ◌∷◌, ◌++◌, arith, if◌then◌else◌,
  Option-cases,
}
use fbapy.Base.Text.{Text, text_eq_iff, starts_with}
use fbapy.Redis.{Server, contains, delete_all, delete_batches, delete_prefix}

contains-append :
    (xs ys : List Text) (j : Text) → contains (xs ++ ys) j ≡ (contains xs j || contains ys j)
contains-append [] ys j = refl
contains-append (x ∷ xs) ys j = ground (arith, contains-append xs ys j)

module _ (r : Server) where
  open r use {State, get, scan_iter}

  pub get-delete_all :
      (ks : List Text) (s : State) (j : Text)
      → get (delete_all r ks s) j ≡ (if contains ks j then none else get s j)
  unfolding delete_all
  get-delete_all [] s j = refl
  get-delete_all (k ∷ ks) s j = ground (
    arith,
    get-delete_all ks (r.delete k s) j,
    r.get-delete k s j,
    text_eq_iff k j,
    text_eq_iff j k,
  )

  get-delete_batches :
      (exclude : List Text) (size : ℕ) (keys batch : List Text) (s : State) (j : Text)
      → get (delete_batches r exclude size keys batch s) j ≡ (
          if contains batch j || contains keys j && not (contains exclude j) then none else get s j)
  unfolding delete_batches
  get-delete_batches exclude size [] [] s j = refl
  get-delete_batches exclude size [] (k ∷ batch) s j =
      ground (arith, get-delete_all (k ∷ batch) s j)
  get-delete_batches exclude size (k ∷ keys) batch s j = ground (
    arith,
    get-delete_batches exclude size keys batch s j,
    get-delete_batches exclude size keys [] (delete_all r (batch ++ k ∷ []) s) j,
    get-delete_batches exclude size keys (batch ++ k ∷ []) s j,
    get-delete_all (batch ++ k ∷ []) s j,
    contains-append batch (k ∷ []) j,
    text_eq_iff j k,
  )

  -- After `delete_prefix`, for every batch size, the keys that begin with the prefix and are not
  -- excluded are gone, and every other key has its value.
  pub get-delete_prefix :
      (prefix : Text) (exclude : List Text) (size : ℕ) (s : State) (j : Text)
      → get (delete_prefix r prefix exclude size s) j
        ≡ (if starts_with prefix j && not (contains exclude j) then none else get s j)
  unfolding delete_prefix
  get-delete_prefix prefix exclude size s j = elim (Option-cases (get s j)) [
    | inl absent ↦ ground (arith, get-delete_batches exclude size (scan_iter prefix s) [] s j)
    | inr (v, e) ↦ ground (
      arith,
      get-delete_batches exclude size (scan_iter prefix s) [] s j,
      r.scan_iter-prefix prefix s j,
      r.scan_iter-present prefix s j v e,
    )
  ]
