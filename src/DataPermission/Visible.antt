-- ===== src/DataPermission/Visible.antt =====
-- The rows that a filter admits, as the database reads it.
use fbapy.Base.{
  ◌≡◌, refl, sym, ◌⊎◌, inl, inr, ◌↔◌, Bool, true, false, not, none, some, List, [], ◌∷◌,
  if◌then◌else◌, any, all, is_empty, In, arith, Bool-cases,
}
use fbapy.DataPermission.{
  Operator, DataRule, ScopedRole, Model, Test, Clause, and_of, or_of, Filter, everything,
  or_clauses, condition, conditions, where_list, or_all, data_rules, SetOrder, Scoped, model_map,
  filter_data_permission,
}
use fbapy.DataPermission.Collected.{
  Granted, Wants, condition-Wants, condition-none, data_rules-Granted, conditions-In,
  conditions-none,
}

module _ {V : Type 0} (holds : Test V → Bool) where
  -- Whether a row passes, given which tests hold of it.
  abbrev pub clause_admits : Clause V → Bool
  clause_admits (and_of tests) = all holds tests
  clause_admits (or_of tests) = any holds tests

  abbrev pub admits : Filter V → Bool
  admits everything = true
  admits (or_clauses clauses) = any clause_admits clauses

  any_iff :
      (ts : List (Test V)) → (any holds ts ≡ true) ↔ ((t : Test V) × In t ts × (holds t ≡ true))
  any_iff [] = (λ h. absurd (cc), λ p. absurd p.1)
  any_iff (t ∷ ts) =
      let ih = any_iff ts in
      elim (Bool-cases (holds t)) [
        | inl lit ↦ (λ h. (t, inl refl, lit), λ h. rw lit refl)
        | inr dark ↦ (
          λ h. (let (u, p, q) = ih.0 (rw dark at h) in (u, inr p, q)),
          λ (u, p, q). (elim p [ inl e ↦ absurd (cc) | inr p' ↦ rw dark (ih.1 (u, p', q)) ]),
        )
      ]

  all_iff : (ts : List (Test V)) → (all holds ts ≡ true) ↔ ((t : Test V) → In t ts → holds t ≡ true)
  all_iff [] = (λ h t p. absurd p, λ h. refl)
  all_iff (t ∷ ts) =
      let ih = all_iff ts in
      elim (Bool-cases (holds t)) [
        | inl lit ↦ (
          λ h u p. (elim p [ inl e ↦ cc | inr q ↦ ih.0 (rw lit at h) u q ]),
          λ h. rw lit (ih.1 (λ u p. h u (inr p))),
        )
        | inr dark ↦ (
          λ h u p. (let impossible : false ≡ true = rw dark at h in absurd (cc)),
          λ h. absurd (cc (h t (inl refl), dark)),
        )
      ]

module _ {V : Type 0} (holds : Test V → Bool) where
  -- The combination of the two lists, as the database reads it.
  where_list-admits :
      (ands ors : List (Test V))
      → (admits holds (or_all (where_list ands ors)) ≡ true) ↔ (
          ((ands ≡ []) × (ors ≡ []))
          ⊎ (((t : Test V) × In t ands) × (all holds ands ≡ true))
          ⊎ (any holds ors ≡ true))
  where_list-admits [] [] = (λ h. inl (refl, refl), λ h. refl)
  where_list-admits [] (o ∷ os) = (
    λ h. inr (inr (ground arith)),
    λ h. (elim h [ inl e ↦ absurd (cc) | inr (inl p) ↦ absurd p.0.1 | inr (inr q) ↦ rw q refl ]),
  )
  where_list-admits (a ∷ rest) [] = (
    λ h. inr (inl ((a, inl refl), ground arith)),
    λ h. (elim h [ inl e ↦ absurd (cc) | inr (inl p) ↦ rw p.1 refl | inr (inr q) ↦ absurd (cc) ]),
  )
  where_list-admits (a ∷ rest) (o ∷ os) = (
    λ h. (elim (Bool-cases (all holds (a ∷ rest))) [
      | inl lit ↦ inr (inl ((a, inl refl), lit))
      | inr dark ↦ inr (inr (ground arith))
    ]),
    λ h. (elim h [ inl e ↦ absurd (cc) | inr (inl p) ↦ rw p.1 refl | inr (inr q) ↦ ground arith ]),
  )

Bool-iff : (a b : Bool) → ((a ≡ true) ↔ (b ≡ true)) → a ≡ b
Bool-iff true b h = sym (h.0 refl)
Bool-iff false true h = h.1 refl
Bool-iff false false h = refl

module _ {V : Type 0} (holds : Test V → Bool) (settings : Scoped V) (roles : List ScopedRole)
    (models : List (Model V)) where
  abbrev pub WantedBy : DataRule → Test V → Type 0
  WantedBy rule t = Wants settings.excluded (model_map settings models) rule t

  abbrev pub AskedBy : Operator → Test V → Type 0
  AskedBy operator t =
      (rule : DataRule) × Granted roles rule × (rule.operator ≡ operator) × WantedBy rule t

  -- No granted rule asks for anything; or there are tests to be met together and the row meets all of
  -- them; or it meets one of the others.
  abbrev pub Shown : Type 0
  Shown =
      ((rule : DataRule) → Granted roles rule → (t : Test V) → WantedBy rule t → ⊥)
      ⊎ (((t : Test V) × AskedBy Operator.conjunction t)
          × ((t : Test V) → AskedBy Operator.conjunction t → holds t ≡ true))
      ⊎ ((t : Test V) × AskedBy Operator.disjunction t × (holds t ≡ true))

  -- Returning early on an empty set changes nothing.
  empty_rules :
      (rules : List DataRule)
      → (if is_empty rules
          then everything
          else (let (ands, ors) = conditions settings.excluded (model_map settings models) rules in
              or_all (where_list ands ors)))
        ≡ or_all (
            where_list
              (conditions settings.excluded (model_map settings models) rules).0
              (conditions settings.excluded (model_map settings models) rules).1)
  unfolding conditions
  empty_rules [] = refl
  empty_rules (rule ∷ rules) = refl

  module _ (order : SetOrder) where
    abbrev members : List DataRule
    members = order.members (data_rules roles)

    member_iff : (rule : DataRule) → In rule members ↔ Granted roles rule
    member_iff rule =
        let inside = order.In-members rule (data_rules roles) in
        let granted = data_rules-Granted rule roles in
        (λ h. granted.0 (inside.0 h), λ h. inside.1 (granted.1 h))

    wants :
        (rule : DataRule) (t : Test V)
        → (condition settings.excluded (model_map settings models) rule ≡ some t) ↔ WantedBy rule t
    wants rule t = condition-Wants settings.excluded (model_map settings models) rule t

    silent :
        (rule : DataRule)
        → (condition settings.excluded (model_map settings models) rule ≡ none)
          ↔ ((t : Test V) → WantedBy rule t → ⊥)
    silent rule = condition-none settings.excluded (model_map settings models) rule

    conjunction_iff :
        (t : Test V)
        → In t (conditions settings.excluded (model_map settings models) members).0
          ↔ AskedBy Operator.conjunction t
    conjunction_iff t =
        let found = (conditions-In settings.excluded (model_map settings models) t members).0 in
        (
          λ h.
              (let (rule, p, q, r) = found.0 h in
                (rule, (member_iff rule).0 p, q, (wants rule t).0 r)),
          λ (rule, p, q, r). found.1 (rule, (member_iff rule).1 p, q, (wants rule t).1 r),
        )

    disjunction_iff :
        (t : Test V)
        → In t (conditions settings.excluded (model_map settings models) members).1
          ↔ AskedBy Operator.disjunction t
    disjunction_iff t =
        let found = (conditions-In settings.excluded (model_map settings models) t members).1 in
        (
          λ h.
              (let (rule, p, q, r) = found.0 h in
                (rule, (member_iff rule).0 p, q, (wants rule t).0 r)),
          λ (rule, p, q, r). found.1 (rule, (member_iff rule).1 p, q, (wants rule t).1 r),
        )

    collected_iff :
        (admits holds (
            or_all (
              where_list
                (conditions settings.excluded (model_map settings models) members).0
                (conditions settings.excluded (model_map settings models) members).1))
          ≡ true)
        ↔ Shown
    collected_iff =
        let ands = (conditions settings.excluded (model_map settings models) members).0 in
        let ors = (conditions settings.excluded (model_map settings models) members).1 in
        let read = where_list-admits holds ands ors in
        let nothing = conditions-none settings.excluded (model_map settings models) members in
        (
          λ h. (elim (read.0 h) [
            | inl e ↦ inl (λ rule g. (silent rule).0 (nothing.0 e rule ((member_iff rule).1 g)))
            | inr (inl ((t, p), every)) ↦ inr (
                inl (
                  (t, (conjunction_iff t).0 p),
                  λ u q. (all_iff holds ands).0 every u ((conjunction_iff u).1 q),
                ))
            | inr (inr some_holds) ↦
                (let (t, p, lit) = (any_iff holds ors).0 some_holds in
                  inr (inr (t, (disjunction_iff t).0 p, lit)))
          ]),
          λ h. (elim h [
            | inl e ↦
                read.1
                  (inl (nothing.1 (λ rule p. (silent rule).1 (e rule ((member_iff rule).0 p)))))
            | inr (inl ((t, p), every)) ↦ read.1 (
                inr (
                  inl (
                    (t, (conjunction_iff t).1 p),
                    (all_iff holds ands).1 (λ u q. every u ((conjunction_iff u).0 q)),
                  )))
            | inr (inr (t, p, lit)) ↦
                read.1 (inr (inr ((any_iff holds ors).1 (t, (disjunction_iff t).1 p, lit))))
          ]),
        )

    -- For a user that is no superuser, all of whose roles filter, whatever order the set of rules
    -- has: a row is admitted exactly if no enabled scope of a role has a rule that asks for
    -- anything; or some rules join their tests by AND and the row meets all of those; or it meets a
    -- test that a rule joins by OR.
    pub filter_data_permission_lem :
        any (λ (role : ScopedRole). not role.is_filter_scopes) roles ≡ false
        → (admits holds (filter_data_permission order settings false roles models) ≡ true) ↔ Shown
    unfolding filter_data_permission
    filter_data_permission_lem filtering = rw (filtering, empty_rules members) collected_iff

  -- The order in which the set gives its rules has no part in what is admitted.
  pub filter_data_permission_order :
      (order other : SetOrder) (is_superuser : Bool)
      → admits holds (filter_data_permission order settings is_superuser roles models)
        ≡ admits holds (filter_data_permission other settings is_superuser roles models)
  unfolding filter_data_permission
  filter_data_permission_order order other true = refl
  filter_data_permission_order order other false =
      elim (Bool-cases (any (λ (role : ScopedRole). not role.is_filter_scopes) roles)) [
        | inl open_to_all ↦ rw open_to_all refl
        | inr filtering ↦
            let a = filter_data_permission_lem order filtering in
            let b = filter_data_permission_lem other filtering in
            Bool-iff _ _ (λ h. b.1 (a.0 h), λ h. a.1 (b.0 h))
      ]
