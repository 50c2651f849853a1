-- ===== src/Pool/Reach.antt =====
-- The invariant of every pool that can come to be.
use fbapy.Base.{
  ℕ, ◌≤◌, ◌≡◌, refl, subst, false, not, List, [], ◌∷◌, ◌++◌, ◌==◌, leb, length, arith,
  length-append, length-keep-le, Bool-cases, inl, inr,
}
use fbapy.Base.Text.{Text, text_eq, text_eq_iff}
use fbapy.Base.Exec.{Result, ok, err, value_error}
use fbapy.Pool.{
  Connection, Pool, empty, init, read_current_connections, contains, without, add_connection,
  remove_connection, clear, reclaim, Step, read_step, add_step, remove_step, clear_step,
  reclaim_step, Reachable, start, step,
}

-- No two connections of one user.
abbrev pub Unique : List Connection → Type 0
Unique [] = Unit
Unique (c ∷ cs) = (contains cs c.uid ≡ false) × Unique cs

pub record IsValid (capacity : ℕ) (p : Pool) : Type 0 where
  pub capacity_same : p.capacity ≡ capacity
  pub unique : Unique p.connection_map
  pub bounded : length p.connection_map ≤ capacity
  pub peak_bounded : p.max_connections ≤ capacity
  pub current_bounded : p.current_connections ≤ capacity

contains-append :
    (cs : List Connection) (d : Connection) (uid : Text)
    → contains cs uid ≡ false
    → text_eq d.uid uid ≡ false
    → contains (cs ++ d ∷ []) uid ≡ false
contains-append [] d uid p q = ground arith
contains-append (c ∷ cs) d uid p q = ground (arith, contains-append cs d uid)

Unique-append :
    (cs : List Connection) (c : Connection)
    → Unique cs
    → contains cs c.uid ≡ false
    → Unique (cs ++ c ∷ [])
Unique-append [] c u p = (refl, tt)
Unique-append (d ∷ cs) c (fresh, u) p = (
  contains-append cs c d.uid fresh
      (ground (arith, text_eq_iff c.uid d.uid, text_eq_iff d.uid c.uid)),
  Unique-append cs c u (ground arith),
)

contains-without :
    (uid v : Text) (cs : List Connection)
    → contains cs v ≡ false
    → contains (without uid cs) v ≡ false
contains-without uid v [] p = refl
contains-without uid v (c ∷ cs) p = ground (arith, contains-without uid v cs)

Unique-without : (uid : Text) (cs : List Connection) → Unique cs → Unique (without uid cs)
Unique-without uid [] u = tt
Unique-without uid (c ∷ cs) (fresh, u) = elim (Bool-cases (text_eq c.uid uid)) [
  | inl same ↦ rw same (Unique-without uid cs u)
  | inr other ↦ rw other (contains-without uid c.uid cs fresh, Unique-without uid cs u)
]

module _ (capacity : ℕ) where
  IsValid-add :
      (c : Connection) (p : Pool) → IsValid capacity p → IsValid capacity (add_connection c p).1
  unfolding add_connection
  IsValid-add c p v = elim (Bool-cases (contains p.connection_map c.uid)) [
    | inl known ↦ rw known v
    | inr fresh ↦ elim (Bool-cases (leb p.capacity (length p.connection_map))) [
      | inl full ↦ rw (fresh, full) v
      | inr free ↦
          let room : length (p.connection_map ++ c ∷ []) ≤ capacity =
            ground (arith, v.capacity_same, length-append p.connection_map (c ∷ [])) in
          rw (fresh, free)
            (record {
              capacity_same = v.capacity_same;
              unique = Unique-append p.connection_map c v.unique fresh;
              bounded = room;
              peak_bounded = v.peak_bounded;
              current_bounded = room;
            })
    ]
  ]

  without-bounded :
      (uid : Text) (p : Pool)
      → IsValid capacity p
      → length (without uid p.connection_map) ≤ capacity
  without-bounded uid p v = omega (
    arith,
    v.bounded,
    length-keep-le (λ (c : Connection). not (text_eq c.uid uid)) p.connection_map,
  )

  Step-IsValid : (p q : Pool) → Step p q → IsValid capacity p → IsValid capacity q
  unfolding read_current_connections remove_connection clear reclaim
  Step-IsValid _ _ (read_step p) v = record {
    capacity_same = v.capacity_same;
    unique = v.unique;
    bounded = v.bounded;
    peak_bounded = ground (arith, v.bounded, v.peak_bounded);
    current_bounded = v.bounded;
  }
  Step-IsValid _ _ (add_step c p) v = IsValid-add c p v
  Step-IsValid _ _ (remove_step [] p) v = v
  Step-IsValid _ _ (remove_step (x ∷ uid) p) v = record {
    capacity_same = v.capacity_same;
    unique = Unique-without (x ∷ uid) p.connection_map v.unique;
    bounded = without-bounded (x ∷ uid) p v;
    peak_bounded = v.peak_bounded;
    current_bounded = without-bounded (x ∷ uid) p v;
  }
  Step-IsValid _ _ (clear_step p) v = record {
    capacity_same = v.capacity_same;
    unique = tt;
    bounded = omega arith;
    peak_bounded = v.peak_bounded;
    current_bounded = omega arith;
  }
  Step-IsValid _ _ (reclaim_step uid p) v = record {
    capacity_same = v.capacity_same;
    unique = Unique-without uid p.connection_map v.unique;
    bounded = without-bounded uid p v;
    peak_bounded = v.peak_bounded;
    current_bounded = v.current_bounded;
  }

  abbrev refused : Result Pool
  refused = err value_error

  abbrev opening : Pool → Result Pool
  opening p = ok p

  refused-empty : {p : Pool} → refused ≡ ok p → ⊥
  refused-empty h = cc

  opened : {p q : Pool} → opening p ≡ ok q → p ≡ q
  opened h = cc

  init-IsValid : (p : Pool) → init capacity ≡ ok p → IsValid capacity p
  unfolding init
  init-IsValid p h = elim (Bool-cases (capacity == 0)) [
    | inl none_left ↦ absurd (refused-empty (rw none_left at h))
    | inr positive ↦
        let same : empty capacity ≡ p = opened (rw positive at h) in
        subst (IsValid capacity) same (record {
          capacity_same = refl;
          unique = tt;
          bounded = omega arith;
          peak_bounded = omega arith;
          current_bounded = omega arith;
        })
  ]

  -- A pool that calls and vanishing entries lead to from the start keeps one connection for each user at
  -- most, and neither the map nor a counter ever exceeds the capacity.
  pub Reachable-IsValid : (p : Pool) → Reachable capacity p → IsValid capacity p
  Reachable-IsValid _ (start p e) = init-IsValid p e
  Reachable-IsValid _ (step p q h s) = Step-IsValid p q s (Reachable-IsValid p h)
