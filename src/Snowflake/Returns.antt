-- ===== src/Snowflake/Returns.antt =====
-- When a call of `generate` returns.
use Prim.Native.Nat.{bit_and}
use fbapy.Base.{ℕ, ◌+◌, ◌≡◌, refl, true, inl, inr, List, [], ◌∷◌, arith, In, some, ◌==◌, Bool-cases}
use fbapy.Base.Int.{ℤ, pos, ◌<ℤ◌, ◌≤ℤ◌, ◌-ℤ◌, leb_ℤ, eqb_ℤ, ltb_ℤ}
use fbapy.Snowflake.Config.{sequence_mask, clock_backward_tolerance_ms}
use fbapy.Snowflake.{
  Snowflake, Outcome, generated, generate, generate_at, number, finish, till_next_ms,
}
use fbapy.Snowflake.Compose.{IsValid, generate-ready}

till_next_ms_returns :
    (last : ℤ) (clock : List ℕ) (later : ℕ)
    → In later clock
    → last <ℤ pos later
    → (r : ℕ × List ℕ) × (till_next_ms last clock ≡ some r) × (last <ℤ pos r.0)
unfolding till_next_ms
till_next_ms_returns last [] later h l = absurd h
till_next_ms_returns last (t ∷ clock) later h l = elim (Bool-cases (leb_ℤ (pos t) last)) [
  | inl early ↦ rw early (till_next_ms_returns last clock later (ground arith) l)
  | inr passed ↦ ((t, clock), rw passed, ground arith)
]

-- `generate` has returned an identifier.
abbrev Returns : Outcome → Type 0
Returns r = (id : ℤ) × (s : Snowflake) × (rest : List ℕ) × (r ≡ generated id s rest)

module _ (d w : ℕ) (s : Snowflake) (v : IsValid d w s) where
  finish-Returns : (n t : ℕ) (clock : List ℕ) → Returns (finish (record s { sequence = n }) t clock)
  unfolding finish
  finish-Returns n t clock = rw (v.datacenter, v.worker) (_, _, _, refl)

  number-Returns :
      (t : ℕ) (clock : List ℕ) (later : ℕ)
      → (pos t ≡ s.last_timestamp → In later clock)
      → s.last_timestamp <ℤ pos later
      → Returns (number s t clock)
  unfolding number
  number-Returns t clock later h l = elim (Bool-cases (eqb_ℤ (pos t) s.last_timestamp)) [
    | inl same ↦ elim (Bool-cases (bit_and (s.sequence + 1) sequence_mask == 0)) [
      | inl spent ↦
          let (r, found, after) =
            till_next_ms_returns s.last_timestamp clock later (h (ground arith)) l in
          rw (same, spent, found) (finish-Returns _ r.0 r.1)
      | inr free ↦ rw (same, free) (finish-Returns _ t clock)
    ]
    | inr other ↦ rw other (finish-Returns 0 t clock)
  ]

  within_tolerance :
      (t : ℕ)
      → s.last_timestamp ≤ℤ pos (t + clock_backward_tolerance_ms)
      → leb_ℤ (s.last_timestamp -ℤ pos t) (pos clock_backward_tolerance_ms) ≡ true
  unfolding ◌-ℤ◌
  within_tolerance t h = ground arith

  generate_at-Returns :
      (t : ℕ) (clock : List ℕ) (later : ℕ)
      → s.last_timestamp ≤ℤ pos (t + clock_backward_tolerance_ms)
      → In later clock
      → s.last_timestamp <ℤ pos later
      → Returns (generate_at s (t ∷ clock))
  unfolding generate_at
  generate_at-Returns t clock later near h l = elim (Bool-cases (ltb_ℤ (pos t) s.last_timestamp)) [
    | inl back ↦
        let (r, found, after) = till_next_ms_returns s.last_timestamp clock later h l in
        rw (back, within_tolerance t near, found)
          (number-Returns r.0 r.1 later (λ same. absurd (ground arith)) l)
    | inr forward ↦ rw forward (number-Returns t clock later (λ _. h) l)
  ]

  -- In a valid state a call returns an identifier, if the clock is not more than the tolerance
  -- behind the last timestamp and later shows a time after it.
  pub generate_returns :
      (t : ℕ) (clock : List ℕ) (later : ℕ)
      → s.last_timestamp ≤ℤ pos (t + clock_backward_tolerance_ms)
      → In later clock
      → s.last_timestamp <ℤ pos later
      → (id : ℤ) × (s' : Snowflake) × (rest : List ℕ) × (generate s (t ∷ clock)
          ≡ generated id s' rest)
  generate_returns t clock later near h l =
      rw (generate-ready d w s v) (generate_at-Returns t clock later near h l)
