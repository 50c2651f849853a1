-- ===== src/Pagination/Links.antt =====
-- The links of a page, against the rows that its queries select.
use fbapy.Base.{
  ℕ, ◌+◌, ◌-◌, ◌*◌, ◌≤◌, ◌<◌, ◌≡◌, refl, subst, ◌⊎◌, ◌↔◌, true, none, some, List, leb,
  if◌then◌else◌, arith, lt→ltb, Bool-cases, inl, inr,
}
use native.Mathlib.Nat.{le-div_iff_mul-le, mul_comm}
use fbapy.Pagination.{PageParams, IsParams, to_raw_params, ceil_div, create}

-- A page begins before the end of the rows exactly if its number is at most the number of pages.
ceil_div_iff : (total size k : ℕ) → 0 < size → (k + 1 ≤ ceil_div total size) ↔ (size * k < total)
ceil_div_iff total size k h =
    let (down, up) = le-div_iff_mul-le {k = size} {x = k + 1} {y = total + (size - 1)} h in
    (λ p. omega (arith, down p, mul_comm size k), λ p. up (omega (arith, mul_comm size k)))

le→leb : (a b : ℕ) → a ≤ b → leb a b ≡ true
le→leb a b h = ground arith

linked : {a b n : ℕ} → (if leb a b then some n else none) ≡ some n → a ≤ b
linked h = ground arith

past_end : (n k : ℕ) → n < k → k - 1 + 1 ≤ n → ⊥
past_end n k above h = omega arith

compare_cases : (a b : ℕ) → (a ≤ b) ⊎ (b < a)
compare_cases a b = elim (Bool-cases (leb a b)) [
  | inl p ↦ inl (ground arith)
  | inr p ↦ inr (ground arith)
]

not_below : (a b : ℕ) → (b < a → ⊥) → a ≤ b
not_below a b h = elim (compare_cases a b) [ inl p ↦ p | inr p ↦ absurd (h p) ]

module _ {A : Type 0} (items : List A) (q : PageParams) (total : ℕ) where
  -- For valid parameters there is a link to the next page exactly if the next page selects a row.
  next_iff :
      IsParams q
      → ((create items q total).links.next ≡ some (q.page + 1))
        ↔ ((to_raw_params (record q { page = q.page + 1 })).offset < total)
  unfolding create to_raw_params
  next_iff v =
      let (down, up) = ceil_div_iff total q.size q.page v.size_positive in
      (
        λ p. subst (λ k. q.size * k < total) (omega arith) (down (linked p)),
        λ p.
            let below : q.size * q.page < total = subst (λ k. q.size * k < total) (omega arith) p in
            rw (le→leb _ _ (up below)) refl,
      )

  -- For valid parameters and at least one row, the last page selects a row, and no page with a higher
  -- number selects one.
  pub last_page :
      IsParams q
      → 0 < total
      → (k : ℕ) → (create items q total).links.last < k
      → ((to_raw_params (record q { page = (create items q total).links.last })).offset < total)
        × (total ≤ (to_raw_params (record q { page = k })).offset)
  unfolding create to_raw_params
  last_page v some_rows k above =
      let n = ceil_div total q.size in
      let (down, up) = ceil_div_iff total q.size (n - 1) v.size_positive in
      let (down', up') = ceil_div_iff total q.size (k - 1) v.size_positive in
      let (none_below, first) = ceil_div_iff total q.size 0 v.size_positive in
      let positive : 1 ≤ n = first (omega arith) in
      let last_is = lt→ltb 0 total some_rows in
      let beyond : n < k = rw last_is at above in
      rw last_is (
        down (omega arith),
        not_below total (q.size * (k - 1)) (λ p. absurd (past_end n k beyond (up' p))),
      )
