-- ===== src/Table/Rows.antt =====
-- A table as a list of rows, which shows that the laws can be met. Tests run on it.
use fbapy.Base.{
  ℕ, suc, ◌≡◌, refl, inl, inr, ◌↔◌, ◌<◌, Bool, true, false, not, Option, none, some, List, [], ◌∷◌,
  In, if◌then◌else◌, arith, Bool-cases, map, keep, ltb, ap,
}
use fbapy.Table.{Table}

module _ {Row : Type 0} (id_of : Row → ℕ) where
  abbrev pub first : (Row → Bool) → List Row → Option Row
  first p [] = none
  first p (x ∷ xs) = let rest = first p xs in if p x then some x else rest

  -- Greater than every key.
  abbrev pub key : List Row → ℕ
  key [] = 1
  key (x ∷ xs) = let rest = key xs in if ltb (id_of x) rest then rest else suc (id_of x)

  pub first-some :
      (p : Row → Bool) (s : List Row) (x : Row) → first p s ≡ some x → In x s × (p x ≡ true)
  first-some p [] x h = absurd (cc)
  first-some p (y ∷ ys) x h = elim (Bool-cases (p y)) [
    | inl lit ↦
        (let same : some y ≡ some x = rw lit at h in let e : x ≡ y = cc in (inl e, rw e lit))
    | inr dark ↦ (let (q, r) = first-some p ys x (rw dark at h) in (inr q, r))
  ]

  pub first-none :
      (p : Row → Bool) (s : List Row) (x : Row) → first p s ≡ none → In x s → p x ≡ false
  first-none p [] x h q = absurd q
  first-none p (y ∷ ys) x h q = elim (Bool-cases (p y)) [
    | inl lit ↦ (let wrong : some y ≡ none = rw lit at h in absurd (cc))
    | inr dark ↦ (elim q [ inl e ↦ rw e dark | inr r ↦ first-none p ys x (rw dark at h) r ])
  ]

  pub key-above : (s : List Row) (x : Row) → In x s → id_of x < key s
  key-above [] x h = absurd h
  key-above (y ∷ ys) x (inl e) = let same : id_of x ≡ id_of y = ap id_of e in ground arith
  key-above (y ∷ ys) x (inr p) = let above = key-above ys x p in ground arith

  pub In-map :
      (g : Row → Row) (s : List Row) (x : Row) → In x (map g s) ↔ ((y : Row) × In y s × (x ≡ g y))
  In-map g [] x = (λ h. absurd h, λ p. absurd p.1)
  In-map g (y ∷ ys) x =
      let ih = In-map g ys x in
      (
        λ h. (elim h [
          | inl e ↦ (y, inl refl, e)
          | inr p ↦ (let (z, q, e) = ih.0 p in (z, inr q, e))
        ]),
        λ (z, p, e). (elim p [ inl same ↦ inl (cc) | inr q ↦ inr (ih.1 (z, q, e)) ]),
      )

  pub In-keep_iff :
      (p : Row → Bool) (s : List Row) (x : Row)
      → In x (keep (λ y. not (p y)) s) ↔ (In x s × (p x ≡ false))
  In-keep_iff p [] x = (λ h. absurd h, λ q. absurd q.0)
  In-keep_iff p (y ∷ ys) x =
      let ih = In-keep_iff p ys x in
      elim (Bool-cases (p y)) [
        | inl lit ↦ (
          λ h. (let (q, r) = ih.0 (rw lit at h) in (inr q, r)),
          λ (q, r). (elim q [ inl e ↦ absurd (cc) | inr t ↦ rw lit (ih.1 (t, r)) ]),
        )
        | inr dark ↦ (
          λ h. (elim (rw dark at h) [
            | inl e ↦ (inl e, rw e dark)
            | inr t ↦ (let (q, r) = ih.0 t in (inr q, r))
          ]),
          λ (q, r). (elim q [ inl e ↦ rw dark (inl e) | inr t ↦ rw dark (inr (ih.1 (t, r))) ]),
        )
      ]

  abbrev pub list_table : Table Row id_of
  list_table = record {
    State = List Row;
    rows = λ s. s;
    first = first;
    insert = λ make s. make (key s) ∷ s;
    update = λ p f s. map (λ y. if p y then f y else y) s;
    delete = λ p s. keep (λ y. not (p y)) s;
    first-some = first-some;
    first-none = first-none;
    key = key;
    key-fresh = λ s x h e. (let above = key-above s x h in absurd (omega arith));
    rows-insert = λ make s x. (λ h. h, λ h. h);
    rows-update = λ p f s x. In-map (λ y. if p y then f y else y) s x;
    rows-delete = λ p s x. In-keep_iff p s x;
  }
