-- ===== src/Snowflake/Issue.antt =====
-- The identifiers of one generator, in the order in which they are issued.
use fbapy.Base.{ℕ, zero, suc, ◌≤◌, ◌≡◌, sym, subst, List, [], ◌∷◌, arith, All}
use fbapy.Base.Int.{ℤ, pos, ◌<ℤ◌, ◌≤ℤ◌}
use fbapy.Snowflake.Config.{epoch}
use fbapy.Snowflake.{Snowflake, Outcome, generated, raised, waiting, generate, issue, issue_rest}
use fbapy.Snowflake.Compose.{id_number, IsValid, Issued, Ends, generate-Ends}

abbrev pub Increasing : List ℤ → Type 0
Increasing [] = Unit
Increasing (x ∷ xs) = All (λ y. x <ℤ y) xs × Increasing xs

-- From here on every identifier of the state `s` is above `x`.
abbrev Over : ℕ → ℕ → ℤ → Snowflake → Type 0
Over d w x s = (t : ℕ) × (s.last_timestamp ≡ pos t) × (x ≤ℤ pos (id_number t d w s.sequence))

-- The states from which only identifiers above `x` are issued.
abbrev Ahead : ℕ → ℕ → ℤ → Snowflake → List ℕ → Type 0
Ahead d w x s clock = IsValid d w s × Over d w x s × All (λ t. epoch ≤ t) clock

module _ (d w : ℕ) where
  above :
      (x : ℤ) {s s' : Snowflake} {id : ℤ} {rest : List ℕ}
      → IsValid d w s
      → Over d w x s
      → Issued d w s id s' rest
      → x <ℤ id
  above x v (t, e, le) i = ground arith

  Issued-Ahead :
      {s s' : Snowflake} {id : ℤ} {rest : List ℕ} → Issued d w s id s' rest → Ahead d w id s' rest
  Issued-Ahead i = (i.valid, (i.time, i.stamped, ground arith), i.unread)

  Over-weaken : (x y : ℤ) (s : Snowflake) → x <ℤ y → Over d w y s → Over d w x s
  Over-weaken x y s h (t, e, le) = (t, e, omega arith)

  rest-above :
      (x : ℤ) (s : Snowflake) (clock : List ℕ) (r : Outcome) (more : Snowflake → List ℕ → List ℤ)
      → Ahead d w x s clock
      → Ends d w s r
      → ((s' : Snowflake) (rest : List ℕ) → Ahead d w x s' rest → All (λ y. x <ℤ y) (more s' rest))
      → All (λ y. x <ℤ y) (issue_rest r more)
  unfolding issue_rest
  rest-above x s clock (generated id s' rest) more a i h =
      let higher = above x a.0 a.1 i in
      let (valid, over, unread) = Issued-Ahead i in
      (higher, h s' rest (valid, Over-weaken x id s' higher over, unread))
  rest-above x s clock (raised e s' rest) more a i h =
      h s' rest
        (subst (λ u. IsValid d w u) (sym i.0) a.0, subst (λ u. Over d w x u) (sym i.0) a.1, i.1)
  rest-above x s clock waiting more a i h = tt

  issue-above :
      (n : ℕ) (x : ℤ) (s : Snowflake) (clock : List ℕ)
      → Ahead d w x s clock
      → All (λ y. x <ℤ y) (issue n s clock)
  unfolding issue
  issue-above zero x s clock a = tt
  issue-above (suc n) x s clock a =
      rest-above x s clock (generate s clock) (issue n) a (generate-Ends d w s a.0 clock a.2)
        (issue-above n x)

  rest-Increasing :
      (n : ℕ) (s : Snowflake) (r : Outcome)
      → IsValid d w s
      → Ends d w s r
      → ((s' : Snowflake) (rest : List ℕ)
          → IsValid d w s'
          → All (λ t. epoch ≤ t) rest
          → Increasing (issue n s' rest))
      → Increasing (issue_rest r (issue n))
  unfolding issue_rest
  rest-Increasing n s (generated id s' rest) v i h =
      (issue-above n id s' rest (Issued-Ahead i), h s' rest i.valid i.unread)
  rest-Increasing n s (raised e s' rest) v i h =
      h s' rest (subst (λ u. IsValid d w u) (sym i.0) v) i.1
  rest-Increasing n s waiting v i h = tt

  -- From a valid state, with clock readings after the epoch, whatever their order, the identifiers
  -- that one generator issues strictly increase, so no two of them are equal.
  pub issue-Increasing :
      (n : ℕ) (s : Snowflake) (clock : List ℕ)
      → IsValid d w s
      → All (λ t. epoch ≤ t) clock
      → Increasing (issue n s clock)
  unfolding issue
  issue-Increasing zero s clock v c = tt
  issue-Increasing (suc n) s clock v c =
      rest-Increasing n s (generate s clock) v (generate-Ends d w s v clock c) (issue-Increasing n)
