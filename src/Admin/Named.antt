-- ===== src/Admin/Named.antt =====
-- Tables whose rows have names that a service keeps apart.
use fbapy.Base.{
  ℕ, ◌≡◌, sym, ap, subst, ◌∙◌, ◌≢◌, ◌⊎◌, inl, inr, Bool, true, false, not, ◌&&◌, some, [], In,
  arith, Bool-cases,
}
use fbapy.Base.Text.{Text, text_eq, text_eq_self, text_eq→eq}
use fbapy.Table.{found, found-false}
use fbapy.Admin.{Keyed, KeyedTable, new_row, with_columns, is_key}

module _ {C : Type 0} (name : C → Text) (t : KeyedTable C) where
  open t use {State, rows, first, insert, update, delete}

  abbrev named : Text → Keyed C → Bool
  named n row = text_eq (name row.columns) n

  -- No two rows have one name.
  abbrev pub Unique : State → Type 0
  Unique s =
      (x y : Keyed C)
      → In x (rows s)
      → In y (rows s)
      → name x.columns ≡ name y.columns
      → x.id ≡ y.id

  unnamed :
      (s : State) (n : Text)
      → found (first (named n) s) ≡ false
      → (x : Keyed C) → In x (rows s)
      → name x.columns ≢ n
  unnamed s n free x p same =
      let missed : named n x ≡ false = t.first-none (named n) s x (found-false _ free) p in
      let lit : text_eq (name x.columns) n ≡ true = rw same (text_eq_self n) in absurd (cc)

  pub Unique-start : (s : State) → rows s ≡ [] → Unique s
  Unique-start s e x y p q same = absurd (subst (In x) e p)

  pub Unique-delete : (p : Keyed C → Bool) (s : State) → Unique s → Unique (delete p s)
  Unique-delete p s u x y at_x at_y same =
      u x y ((t.rows-delete p s x).0 at_x).0 ((t.rows-delete p s y).0 at_y).0 same

  module _ (obj : C) (s : State) where
    pub Unique-insert :
        found (first (named (name obj)) s) ≡ false → Unique s → Unique (insert (new_row obj) s)
    Unique-insert free u x y at_x at_y same = elim ((t.rows-insert (new_row obj) s x).0 at_x) [
      | inl e₁ ↦ (elim ((t.rows-insert (new_row obj) s y).0 at_y) [
        | inl e₂ ↦ ap (λ (z : Keyed C). z.id) (e₁ ∙ sym e₂)
        | inr q₂ ↦
            absurd
              (unnamed s (name obj) free y q₂ (sym same ∙ ap (λ (z : Keyed C). name z.columns) e₁))
      ])
      | inr q₁ ↦ (elim ((t.rows-insert (new_row obj) s y).0 at_y) [
        | inl e₂ ↦
            absurd (unnamed s (name obj) free x q₁ (same ∙ ap (λ (z : Keyed C). name z.columns) e₂))
        | inr q₂ ↦ u x y q₁ q₂ same
      ])
    ]

    module _ (pk : ℕ) (write : C → C) (kept : (c : C) → name (write c) ≡ name obj) where
      -- Where a row of the updated table comes from.
      origin :
          (x : Keyed C)
          → In x (rows (update (is_key pk) (with_columns write) s))
          → (y : Keyed C) × In y (rows s)
            × (x.id ≡ y.id)
            × (((y.id ≡ pk) × (name x.columns ≡ name obj))
                ⊎ ((y.id ≢ pk) × (name x.columns ≡ name y.columns)))
      origin x p =
          let (y, q, e) = (t.rows-update (is_key pk) (with_columns write) s x).0 p in
          elim (Bool-cases (is_key pk y)) [
            | inl same ↦
                let e' : x ≡ with_columns write y = rw same at e in
                (
                  y,
                  q,
                  ap (λ (z : Keyed C). z.id) e',
                  inl (ground arith, ap (λ (z : Keyed C). name z.columns) e' ∙ kept y.columns),
                )
            | inr other ↦
                let e' : x ≡ y = rw other at e in
                (
                  y,
                  q,
                  ap (λ (z : Keyed C). z.id) e',
                  inr (ground arith, ap (λ (z : Keyed C). name z.columns) e'),
                )
          ]

      pub Unique-update :
          (row : Keyed C)
          → first (is_key pk) s ≡ some row
          → (not (text_eq (name row.columns) (name obj)) && found (first (named (name obj)) s))
            ≡ false
          → Unique s
          → Unique (update (is_key pk) (with_columns write) s)
      Unique-update row got free u x y at_x at_y same =
          let (among, keyed) = t.first-some (is_key pk) s row got in
          let key : row.id ≡ pk = ground arith in
          let apart : (z : Keyed C) → In z (rows s) → z.id ≢ pk → name z.columns ≢ name obj =
            λ z p far e. (elim (Bool-cases (text_eq (name row.columns) (name obj))) [
              | inl unchanged ↦ far (
                  u z row p among (e ∙ sym (text_eq→eq (name row.columns) (name obj) unchanged))
                  ∙ key)
              | inr renamed ↦ unnamed s (name obj) (rw renamed at free) z p e
            ]) in
          let (x', p, i, how) = origin x at_x in
          let (y', q, j, how') = origin y at_y in
          elim how [
            | inl (k₁, n₁) ↦ elim how' [
              | inl (k₂, n₂) ↦ i ∙ k₁ ∙ sym (j ∙ k₂)
              | inr (far₂, n₂) ↦ absurd (apart y' q far₂ (sym n₂ ∙ sym same ∙ n₁))
            ]
            | inr (far₁, n₁) ↦ elim how' [
              | inl (k₂, n₂) ↦ absurd (apart x' p far₁ (sym n₁ ∙ same ∙ n₂))
              | inr (far₂, n₂) ↦ i ∙ u x' y' p q (sym n₁ ∙ same ∙ n₂) ∙ sym j
            ]
          ]
