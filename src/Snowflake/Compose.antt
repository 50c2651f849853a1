-- ===== src/Snowflake/Compose.antt =====
-- What one call of `generate` does to a valid state, and the number that it returns.
use Prim.Native.Nat.{bit_and}
use fbapy.Base.{
  ℕ, ◌+◌, ◌-◌, ◌*◌, ◌%◌, ◌^◌, ◌≤◌, ◌<◌, ◌≡◌, refl, ap, ◌⊎◌, inl, inr, true, false, some, List, [],
  ◌∷◌, arith, ◌==◌, if◌then◌else◌, not, Bool-cases, Option-cases, All,
}
use fbapy.Base.Bits.{or_shifted, and_mask}
use fbapy.Base.Int.{ℤ, pos, negsuc, ◌-ℤ◌, ◌<ℤ◌, eqb_ℤ, leb_ℤ, ltb_ℤ, shl, int_or, sub_ℕ_ge}
use fbapy.Base.Exec.{server_error}
use fbapy.Snowflake.Config.{epoch, sequence_mask, clock_backward_tolerance_ms}
use fbapy.Snowflake.{
  Snowflake, Outcome, generated, waiting, raised, till_next_ms, compose, finish, number,
  generate_at, generate,
}

-- The number that the parts stand for.
abbrev pub id_number : ℕ → ℕ → ℕ → ℕ → ℕ
id_number t d w n = (t - epoch) * 2 ^ 22 + d * 2 ^ 17 + w * 2 ^ 12 + n

pub compose-eq :
    (t d w n : ℕ)
    → epoch ≤ t
    → d < 32
    → w < 32
    → n < 4096
    → compose t (pos d) (pos w) n ≡ pos (id_number t d w n)
unfolding compose shl int_or
compose-eq t d w n ht hd hw hn =
    let a = t - epoch in
    let e1 = or_shifted 22 a (d * 2 ^ 17) (omega arith) in
    let e2 : a * 2 ^ 22 + d * 2 ^ 17 ≡ (a * 2 ^ 5 + d) * 2 ^ 17 = omega arith in
    let e3 = or_shifted 17 (a * 2 ^ 5 + d) (w * 2 ^ 12) (omega arith) in
    let e4 : (a * 2 ^ 5 + d) * 2 ^ 17 + w * 2 ^ 12 ≡ ((a * 2 ^ 5 + d) * 2 ^ 5 + w) * 2 ^ 12 =
      omega arith in
    let e5 = or_shifted 12 ((a * 2 ^ 5 + d) * 2 ^ 5 + w) n hn in
    rw (sub_ℕ_ge t epoch ht, e1, e2, e3, e4, e5) (ap pos (omega arith))

-- The clock has not been read yet, or was read after the epoch.
abbrev pub SinceEpoch : ℤ → Type 0
SinceEpoch (pos t) = epoch ≤ t
SinceEpoch (negsuc n) = n ≡ 0

pub record IsValid (d w : ℕ) (s : Snowflake) : Type 0 where
  pub ready : s.initialized ≡ true
  pub datacenter : s.datacenter_id ≡ some (pos d)
  pub worker : s.worker_id ≡ some (pos w)
  pub datacenter_fits : d < 32
  pub worker_fits : w < 32
  pub sequence_fits : s.sequence < 4096
  pub since_epoch : SinceEpoch s.last_timestamp

-- The reading is later than the last timestamp, or equal to it with a higher sequence.
abbrev pub Later : Snowflake → Snowflake → ℕ → Type 0
Later s s' t =
    (s.last_timestamp <ℤ pos t) ⊎ ((s.last_timestamp ≡ pos t) × (s.sequence < s'.sequence))

-- What an identifier that `generate` returns from the state `s` is, and the state that it leaves.
pub record Issued (d w : ℕ) (s : Snowflake) (id : ℤ) (s' : Snowflake) (rest : List ℕ) : Type 0 where
  pub time : ℕ
  pub stamped : s'.last_timestamp ≡ pos time
  pub value : id ≡ pos (id_number time d w s'.sequence)
  pub valid : IsValid d w s'
  pub later : Later s s' time
  pub unread : All (λ t. epoch ≤ t) rest

abbrev pub Ends : ℕ → ℕ → Snowflake → Outcome → Type 0
Ends d w s (generated id s' rest) = Issued d w s id s' rest
Ends d w s (raised e s' rest) = (s' ≡ s) × All (λ t. epoch ≤ t) rest
Ends d w s waiting = Unit

eqb_ℤ→eq : (t : ℕ) (a : ℤ) → eqb_ℤ (pos t) a ≡ true → a ≡ pos t
eqb_ℤ→eq t a h = ground arith

pub till_next_ms-later :
    (last : ℤ) (clock : List ℕ) {t : ℕ} {rest : List ℕ}
    → All (λ t. epoch ≤ t) clock
    → till_next_ms last clock ≡ some (t, rest)
    → (last <ℤ pos t) × (epoch ≤ t) × All (λ t. epoch ≤ t) rest
unfolding till_next_ms
till_next_ms-later last [] h e = cc
till_next_ms-later last (x ∷ clock) {t} {rest} h e =
    ground (arith, till_next_ms-later last clock {t = t} {rest = rest} h.1)

module _ (d w : ℕ) (s : Snowflake) (v : IsValid d w s) where
  IsValid-stamp :
      (n t : ℕ)
      → n < 4096
      → epoch ≤ t
      → IsValid d w (record s {
        datacenter_id = some (pos d);
        worker_id = some (pos w);
        sequence = n;
        last_timestamp = pos t;
      })
  IsValid-stamp n t hn ht = ground arith

  finish-Ends :
      (n t : ℕ) (clock : List ℕ)
      → n < 4096
      → epoch ≤ t
      → (s.last_timestamp <ℤ pos t) ⊎ ((s.last_timestamp ≡ pos t) × (s.sequence < n))
      → All (λ t. epoch ≤ t) clock
      → Ends d w s (finish (record s { sequence = n }) t clock)
  unfolding finish
  finish-Ends n t clock hn ht l h =
      rw (v.datacenter, v.worker, compose-eq t d w n ht v.datacenter_fits v.worker_fits hn)
        (record {
          time = t;
          stamped = refl;
          value = refl;
          valid = IsValid-stamp n t hn ht;
          later = l;
          unread = h;
        })

  next_sequence : bit_and (s.sequence + 1) sequence_mask ≡ (s.sequence + 1) % 4096
  next_sequence = and_mask 12 (s.sequence + 1)

  number-Ends :
      (t : ℕ) (clock : List ℕ)
      → epoch ≤ t
      → ltb_ℤ (pos t) s.last_timestamp ≡ false
      → All (λ t. epoch ≤ t) clock
      → Ends d w s (number s t clock)
  unfolding number
  number-Ends t clock ht h c = elim (Bool-cases (eqb_ℤ (pos t) s.last_timestamp)) [
    | inl same ↦ elim (Bool-cases (bit_and (s.sequence + 1) sequence_mask == 0)) [
      | inl spent ↦ elim (Option-cases (till_next_ms s.last_timestamp clock)) [
        | inl more ↦ rw (same, spent, more) tt
        | inr ((later, rest), found) ↦
            let (after, since, unread) = till_next_ms-later s.last_timestamp clock c found in
            rw (same, spent, found)
              (finish-Ends _ later rest (omega (arith, next_sequence)) since (inl after) unread)
      ]
      | inr free ↦
          rw (same, free)
            (finish-Ends _ t clock (omega (arith, next_sequence)) ht
              (inr
                (eqb_ℤ→eq t s.last_timestamp same, ground (arith, next_sequence, v.sequence_fits)))
              c)
    ]
    | inr other ↦ rw other (finish-Ends 0 t clock (omega arith) ht (inl (ground arith)) c)
  ]

  generate_at-Ends :
      (clock : List ℕ) → All (λ t. epoch ≤ t) clock → Ends d w s (generate_at s clock)
  unfolding generate_at
  generate_at-Ends [] c = tt
  generate_at-Ends (t ∷ clock) c = elim (Bool-cases (ltb_ℤ (pos t) s.last_timestamp)) [
    | inl back ↦
        elim (Bool-cases (leb_ℤ (s.last_timestamp -ℤ pos t) (pos clock_backward_tolerance_ms))) [
          | inl tolerated ↦ elim (Option-cases (till_next_ms s.last_timestamp clock)) [
            | inl more ↦ rw (back, tolerated, more) tt
            | inr ((later, rest), found) ↦
                let (after, since, unread) = till_next_ms-later s.last_timestamp clock c.1 found in
                rw (back, tolerated, found) (number-Ends later rest since (ground arith) unread)
          ]
          | inr refused ↦ rw (back, refused) (refl, c.1)
        ]
    | inr forward ↦ rw forward (number-Ends t clock c.0 forward c.1)
  ]

  -- Once `init` has run, `generate` goes on to the clock.
  pub generate-ready : (clock : List ℕ) → generate s clock ≡ generate_at s clock
  unfolding generate
  generate-ready clock =
      ap
        (λ b.
          if not b
          then raised (server_error "雪花 ID 生成失败，雪花算法未初始化") s clock
          else generate_at s clock)
        v.ready

  pub generate-Ends : (clock : List ℕ) → All (λ t. epoch ≤ t) clock → Ends d w s (generate s clock)
  generate-Ends clock c = rw generate-ready (generate_at-Ends clock c)
