-- ===== src/Accounts/Valid.antt =====
-- The invariant of the table of users, and an insertion and an update of a row.
use fbapy.Base.{
  List, ℕ, ◌≡◌, sym, ap, subst, ◌∙◌, ◌≢◌, ◌⊎◌, inl, inr, true, false, not, ◌&&◌, some, In, arith,
  Bool-cases,
}
use fbapy.Base.Text.{codes, Text, text_eq, text_eq_self, text_eq→eq}
use fbapy.Table.{sent-cases, Table, found, found-false}
use fbapy.Dept.{Dept, dept_id}
use fbapy.Dept.Valid.{Live}
use fbapy.Accounts.{
  Account, account_id, AddUserParam, UpdateUserParam, new_account, updated, has_username, has_id,
}

module _ (depts : Table Dept dept_id) (users : Table Account account_id) where
  open users use {rows, first, insert}

  abbrev pub Inhabited : depts.State → ℕ → Type 0
  Inhabited ds p = (e : Dept) × Live depts ds e × (e.id ≡ p)

  -- No two users have one username; and the department of a user, unless it is 0, is a live one.
  pub record IsValid (ds : depts.State) (s : users.State) : Type 0 where
    pub names :
        (a b : Account) → In a (rows s) → In b (rows s) → a.username ≡ b.username → a.id ≡ b.id
    pub placed : (a : Account) → In a (rows s) → (p : ℕ) → a.dept ≡ some p → p ≢ 0 → Inhabited ds p

  unnamed :
      (s : users.State) (name : Text)
      → found (first (has_username name) s) ≡ false
      → (a : Account) → In a (rows s)
      → a.username ≢ name
  unnamed s name free a p same =
      let missed : has_username name a ≡ false =
        users.first-none (has_username name) s a (found-false _ free) p in
      let lit : text_eq a.username name ≡ true = rw same (text_eq_self name) in
      absurd (ground arith)

  pub IsValid-insert :
      (obj : AddUserParam) (hashed : Text) (random : ℕ) (ds : depts.State) (s : users.State)
      → found (first (has_username obj.username) s) ≡ false
      → Inhabited ds obj.dept
      → IsValid ds s
      → IsValid ds (insert (new_account obj hashed random) s)
  IsValid-insert obj hashed random ds s free there v =
      let row = users.rows-insert (new_account obj hashed random) s in
      record {
        names = λ a b p q same. (elim ((row a).0 p) [
          | inl new ↦ (elim ((row b).0 q) [
            | inl new' ↦ ap account_id (new ∙ sym new')
            | inr old ↦ absurd (
                unnamed s obj.username free b old (sym same ∙ ap (λ (x : Account). x.username) new))
          ])
          | inr old ↦ (elim ((row b).0 q) [
            | inl new ↦
                absurd
                  (unnamed s obj.username free a old (same ∙ ap (λ (x : Account). x.username) new))
            | inr old' ↦ v.names a b old old' same
          ])
        ]);
        placed = λ a p d e nonzero. (elim ((row a).0 p) [
          | inl new ↦
              (let same : obj.dept ≡ d =
                  (let x = sym (ap (λ (x : Account). x.dept) new) ∙ e in cc) in
                subst (Inhabited ds) same there)
          | inr old ↦ v.placed a old d e nonzero
        ]);
      }

  module _ (pk : ℕ) (fields_set : List Text) (obj : UpdateUserParam) (s : users.State) where
    abbrev after : users.State
    after = users.update (has_id pk) (updated fields_set obj) s

    came :
        (x : Account)
        → In x (rows after)
        → (y : Account) × In y (rows s)
          × (((y.id ≡ pk) × (x ≡ updated fields_set obj y)) ⊎ ((y.id ≢ pk) × (x ≡ y)))
    came x p =
        let (y, q, e) = (users.rows-update (has_id pk) (updated fields_set obj) s x).0 p in
        elim (Bool-cases (has_id pk y)) [
          | inl same ↦ (y, q, inl (ground arith, rw same at e))
          | inr other ↦ (y, q, inr (ground arith, rw other at e))
        ]

    pub IsValid-update :
        (user : Account) (ds : depts.State)
        → In user (rows s)
        → user.id ≡ pk
        → (not (text_eq obj.username user.username) && found (first (has_username obj.username) s))
          ≡ false
        → ((p : ℕ) → obj.dept ≡ some p → p ≢ 0 → Inhabited ds p)
        → IsValid ds s
        → IsValid ds after
    IsValid-update user ds among key free there v =
        let apart : (y : Account) → In y (rows s) → y.id ≢ pk → y.username ≢ obj.username =
          λ y p other same. (elim (Bool-cases (text_eq obj.username user.username)) [
            | inl kept ↦
                other
                  (v.names y user p among (same ∙ text_eq→eq obj.username user.username kept) ∙ key)
            | inr renamed ↦ unnamed s obj.username (rw renamed at free) y p same
          ]) in
        record {
          names = λ a b p q same.
              (let (y, old, how) = came a p in
                let (z, old', how') = came b q in
                elim how [
                  | inl (key₁, e₁) ↦ elim how' [
                    | inl (key₂, e₂) ↦ ap account_id e₁ ∙ key₁ ∙ sym (ap account_id e₂ ∙ key₂)
                    | inr (other₂, e₂) ↦ absurd (
                        apart z old' other₂ (
                          sym (ap (λ (x : Account). x.username) e₂)
                          ∙ sym same
                          ∙ ap (λ (x : Account). x.username) e₁))
                  ]
                  | inr (other₁, e₁) ↦ elim how' [
                    | inl (key₂, e₂) ↦ absurd (
                        apart y old other₁ (
                          sym (ap (λ (x : Account). x.username) e₁)
                          ∙ same
                          ∙ ap (λ (x : Account). x.username) e₂))
                    | inr (other₂, e₂) ↦
                        ap account_id e₁
                        ∙ v.names y z old old' (
                            sym (ap (λ (x : Account). x.username) e₁)
                            ∙ same
                            ∙ ap (λ (x : Account). x.username) e₂)
                        ∙ sym (ap account_id e₂)
                  ]
                ]);
          placed = λ a p d e nonzero.
              (let (y, old, how) = came a p in
                elim how [
                  | inl (same, e₁) ↦
                      let named = sym (ap (λ (x : Account). x.dept) e₁) ∙ e in
                      (elim (sent-cases fields_set (codes "dept_id") obj.dept y.dept) [
                        | inl given ↦ there d (sym given ∙ named) nonzero
                        | inr absent ↦ v.placed y old d (sym absent ∙ named) nonzero
                      ])
                  | inr (other, e₁) ↦
                      v.placed y old d (sym (ap (λ (x : Account). x.dept) e₁) ∙ e) nonzero
                ]);
        }
