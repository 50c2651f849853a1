-- ===== src/Table.antt =====
-- One table behind a data access object of backend/app/admin/crud, as an interface with what a relational
-- database promises for a query, an insertion, an update and a deletion. In which order a query without
-- one gives the rows is left open.
pub mod Rows
use fbapy.Base.{
  ℕ, ◌≡◌, ◌≢◌, ◌⊎◌, inl, inr, ◌↔◌, refl, Bool, true, false, Option, none, some, List, In, any,
  if◌then◌else◌, Bool-cases,
}
use fbapy.Base.Text.{Text, text_eq}

-- `update_model` writes the fields that a request sets, `model_fields_set`; of the others the row keeps its
-- own. A field without a default is always set.
abbrev pub sent : {A : Type 0} → List Text → Text → A → A → A
sent fields_set field new old = if any (text_eq field) fields_set then new else old

pub sent-cases :
    {A : Type 0} (fields_set : List Text) (field : Text) (new old : A)
    → (sent fields_set field new old ≡ new) ⊎ (sent fields_set field new old ≡ old)
sent-cases fields_set field new old = elim (Bool-cases (any (text_eq field) fields_set)) [
  | inl given ↦ inl (rw given refl)
  | inr absent ↦ inr (rw absent refl)
]

-- The truth of an optional row, as `if row` reads it.
abbrev pub found : {A : Type 0} → Option A → Bool
found none = false
found (some a) = true

pub found-false : {A : Type 0} (o : Option A) → found o ≡ false → o ≡ none
found-false none h = refl
found-false (some a) h = absurd (cc)

pub found-true : {A : Type 0} (o : Option A) → found o ≡ true → (a : A) × (o ≡ some a)
found-true none h = absurd (cc)
found-true (some a) h = (a, refl)

-- `first` is `select_model_by_column`, `insert` is `create_model` (the database chooses the primary key),
-- `update` and `delete` are statements on the rows that pass a test.
pub record Table (Row : Type 0) (id_of : Row → ℕ) : Type 1 where
  pub State : Type 0
  pub rows : State → List Row
  pub first : (Row → Bool) → State → Option Row
  pub insert : (ℕ → Row) → State → State
  pub update : (Row → Bool) → (Row → Row) → State → State
  pub delete : (Row → Bool) → State → State
  pub first-some :
      (p : Row → Bool) (s : State) (x : Row) → first p s ≡ some x → In x (rows s) × (p x ≡ true)
  pub first-none :
      (p : Row → Bool) (s : State) (x : Row) → first p s ≡ none → In x (rows s) → p x ≡ false
  pub key : State → ℕ
  pub key-fresh : (s : State) (x : Row) → In x (rows s) → id_of x ≢ key s
  pub rows-insert :
      (make : ℕ → Row) (s : State) (x : Row)
      → In x (rows (insert make s)) ↔ ((x ≡ make (key s)) ⊎ In x (rows s))
  pub rows-update :
      (p : Row → Bool) (f : Row → Row) (s : State) (x : Row)
      → In x (rows (update p f s)) ↔ ((y : Row) × In y (rows s) × (x ≡ (if p y then f y else y)))
  pub rows-delete :
      (p : Row → Bool) (s : State) (x : Row)
      → In x (rows (delete p s)) ↔ (In x (rows s) × (p x ≡ false))
