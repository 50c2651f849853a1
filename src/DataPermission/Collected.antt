-- ===== src/DataPermission/Collected.antt =====
-- Which rules the loops of `filter_data_permission` collect, and what they ask for.
use fbapy.Base.{
  ◌≡◌, refl, sym, ◌∙◌, ap, subst, ◌⊎◌, inl, inr, ◌↔◌, false, Option, none, some, List, [], ◌∷◌,
  ◌==◌, In, In-left, In-right, In-append, Bool-cases, Option-cases, any,
}
use fbapy.Base.Text.{Text, text_eq}
use fbapy.DataPermission.{
  Column, find_model, find_column, rule_values, Operator, DataRule, DataScope, ScopedRole, Model,
  Test, condition, append_condition, conditions, scope_rules, data_rules,
}

-- The rule is one of an enabled scope of a role.
abbrev pub Granted : List ScopedRole → DataRule → Type 0
Granted roles rule =
    (role : ScopedRole) × In role roles
    × ((scope : DataScope) × In scope role.scopes
        × ((scope.status == 0) ≡ false)
        × In rule scope.rules)

scope_rules-In :
    (rule : DataRule) (scopes : List DataScope)
    → In rule (scope_rules scopes) ↔ (
        (scope : DataScope) × In scope scopes × ((scope.status == 0) ≡ false) × In rule scope.rules)
unfolding scope_rules
scope_rules-In rule [] = (λ h. absurd h, λ p. p.1)
scope_rules-In rule (s ∷ ss) =
    let ih = scope_rules-In rule ss in
    elim (Bool-cases (s.status == 0)) [
      | inl off ↦ (
        λ h. (let (scope, p, on, q) = ih.0 (rw off at h) in (scope, inr p, on, q)),
        λ (scope, p, on, q). (elim p [
          | inl e ↦ absurd (cc)
          | inr p' ↦ rw off (ih.1 (scope, p', on, q))
        ]),
      )
      | inr on ↦ (
        λ h. (elim (In-append rule s.rules (scope_rules ss) (rw on at h)) [
          | inl q ↦ (s, inl refl, on, q)
          | inr q ↦ (let (scope, p, lit, r) = ih.0 q in (scope, inr p, lit, r))
        ]),
        λ (scope, p, lit, q). (elim p [
          | inl e ↦ rw on (In-left rule s.rules _ (subst (λ (x : DataScope). In rule x.rules) e q))
          | inr p' ↦ rw on (In-right rule s.rules _ (ih.1 (scope, p', lit, q)))
        ]),
      )
    ]

pub data_rules-Granted :
    (rule : DataRule) (roles : List ScopedRole) → In rule (data_rules roles) ↔ Granted roles rule
unfolding data_rules
data_rules-Granted rule [] = (λ h. absurd h, λ p. p.1)
data_rules-Granted rule (r ∷ rs) =
    let ih = data_rules-Granted rule rs in
    let here = scope_rules-In rule r.scopes in
    (
      λ h. (elim (In-append rule (scope_rules r.scopes) (data_rules rs) h) [
        | inl q ↦ (r, inl refl, here.0 q)
        | inr q ↦ (let (role, p, s) = ih.0 q in (role, inr p, s))
      ]),
      λ (role, p, s). (elim p [
        | inl e ↦ In-left rule (scope_rules r.scopes) _ (
            here.1 (
              subst
                (λ (x : ScopedRole).
                  (scope : DataScope) × In scope x.scopes
                  × ((scope.status == 0) ≡ false)
                  × In rule scope.rules)
                e s))
        | inr p' ↦ In-right rule (scope_rules r.scopes) _ (ih.1 (role, p', s))
      ]),
    )

none-some : {A : Type 0} {a : A} → none ≡ some a → ⊥
none-some h = cc

some-same : {A : Type 0} {a b : A} → some a ≡ some b → a ≡ b
some-same h = cc

module _ {V : Type 0} (excluded : List Text) (models : List (Model V)) where
  -- What a rule asks for: its test, of a column of the model that it names, which is not excluded, with
  -- its values as the type of that column makes them.
  abbrev pub Wants : DataRule → Test V → Type 0
  Wants rule t =
      (find_model rule.model models ≡ some t.target)
      × (find_column rule.column t.target.columns ≡ some t.column)
      × (any (text_eq rule.column) excluded ≡ false)
      × (t.expression ≡ rule.expression)
      × (t.values ≡ rule_values t.column rule.expression rule.value)

  abbrev tested : DataRule → Model V → Column V → Test V
  tested rule target column = record {
    target = target;
    column = column;
    expression = rule.expression;
    values = rule_values column rule.expression rule.value;
  }

  condition-some :
      (rule : DataRule) (target : Model V) (column : Column V)
      → find_model rule.model models ≡ some target
      → find_column rule.column target.columns ≡ some column
      → any (text_eq rule.column) excluded ≡ false
      → condition excluded models rule ≡ some (tested rule target column)
  unfolding condition
  condition-some rule target column at_model at_column free = rw (at_model, at_column, free) refl

  pub condition-Wants :
      (rule : DataRule) (t : Test V) → (condition excluded models rule ≡ some t) ↔ Wants rule t
  unfolding condition
  condition-Wants rule t = (
    λ h. (elim (Option-cases (find_model rule.model models)) [
      | inl missing ↦ absurd (none-some (rw missing at h))
      | inr (m, at_m) ↦ (elim (Option-cases (find_column rule.column m.columns)) [
        | inl missing ↦ absurd (none-some (rw (at_m, missing) at h))
        | inr (c, at_c) ↦ (elim (Bool-cases (any (text_eq rule.column) excluded)) [
          | inl off ↦ absurd (none-some (rw (at_m, at_c, off) at h))
          | inr free ↦
              let e : tested rule m c ≡ t =
                some-same (sym (condition-some rule m c at_m at_c free) ∙ h) in
              subst (Wants rule) e (at_m, at_c, free, refl, refl)
        ])
      ])
    ]),
    λ (at_m, at_c, free, same, given).
        (condition-some rule t.target t.column at_m at_c free
          ∙ ap (λ v. some (record t { expression = rule.expression; values = v })) (sym given)
          ∙ ap (λ x. some (record t { expression = x })) (sym same)),
  )

  pub condition-none :
      (rule : DataRule)
      → (condition excluded models rule ≡ none) ↔ ((t : Test V) → Wants rule t → ⊥)
  condition-none rule = (
    λ h t w. none-some (sym h ∙ (condition-Wants rule t).1 w),
    λ h. (elim (Option-cases (condition excluded models rule)) [
      | inl nothing ↦ nothing
      | inr (t, asks) ↦ absurd (h t ((condition-Wants rule t).0 asks))
    ]),
  )

  -- The test is what one of the rules, with this operator, asks for.
  abbrev pub Asked : (DataRule → Type 0) → Operator → Test V → Type 0
  Asked Of operator test =
      (rule : DataRule) × Of rule
      × (rule.operator ≡ operator)
      × (condition excluded models rule ≡ some test)

  conjunction-append :
      (operator : Operator) (o : Option (Test V)) (lists : List (Test V) × List (Test V))
      (t : Test V)
      → In t (append_condition operator o lists).0
        ↔ (((operator ≡ Operator.conjunction) × (o ≡ some t)) ⊎ In t lists.0)
  conjunction-append operator none lists t =
      (inr, λ h. (elim h [ inl p ↦ absurd (cc) | inr p ↦ p ]))
  conjunction-append Operator.conjunction (some test) lists t = (
    λ h. (elim h [ inl e ↦ inl (refl, cc) | inr p ↦ inr p ]),
    λ h. (elim h [ inl p ↦ inl (cc) | inr p ↦ inr p ]),
  )
  conjunction-append Operator.disjunction (some test) lists t =
      (inr, λ h. (elim h [ inl p ↦ absurd (cc) | inr p ↦ p ]))

  disjunction-append :
      (operator : Operator) (o : Option (Test V)) (lists : List (Test V) × List (Test V))
      (t : Test V)
      → In t (append_condition operator o lists).1
        ↔ (((operator ≡ Operator.disjunction) × (o ≡ some t)) ⊎ In t lists.1)
  disjunction-append operator none lists t =
      (inr, λ h. (elim h [ inl p ↦ absurd (cc) | inr p ↦ p ]))
  disjunction-append Operator.disjunction (some test) lists t = (
    λ h. (elim h [ inl e ↦ inl (refl, cc) | inr p ↦ inr p ]),
    λ h. (elim h [ inl p ↦ inl (cc) | inr p ↦ inr p ]),
  )
  disjunction-append Operator.conjunction (some test) lists t =
      (inr, λ h. (elim h [ inl p ↦ absurd (cc) | inr p ↦ p ]))

  collected_step :
      (operator : Operator) (t : Test V) (r : DataRule) (rs : List DataRule) (P Q : Type 0)
      → (P ↔ (((r.operator ≡ operator) × (condition excluded models r ≡ some t)) ⊎ Q))
      → (Q ↔ Asked (λ rule. In rule rs) operator t)
      → (P ↔ Asked (λ rule. In rule (r ∷ rs)) operator t)
  collected_step operator t r rs P Q first later = (
    λ h. (elim (first.0 h) [
      | inl (same, asks) ↦ (r, inl refl, same, asks)
      | inr q ↦ (let (rule, p, same, asks) = later.0 q in (rule, inr p, same, asks))
    ]),
    λ (rule, p, same, asks). (elim p [
      | inl e ↦ first.1 (
          inl (
            subst
              (λ (x : DataRule). (x.operator ≡ operator) × (condition excluded models x ≡ some t)) e
              (same, asks)))
      | inr q ↦ first.1 (inr (later.1 (rule, q, same, asks)))
    ]),
  )

  pub conditions-In :
      (t : Test V) (rules : List DataRule)
      → (In t (conditions excluded models rules).0
          ↔ Asked (λ rule. In rule rules) Operator.conjunction t)
        × (In t (conditions excluded models rules).1
            ↔ Asked (λ rule. In rule rules) Operator.disjunction t)
  unfolding conditions
  conditions-In t [] = ((λ h. absurd h, λ p. absurd p.1), (λ h. absurd h, λ p. absurd p.1))
  conditions-In t (r ∷ rs) =
      let (ands, ors) = conditions-In t rs in
      let lists = conditions excluded models rs in
      let o = condition excluded models r in
      (
        collected_step Operator.conjunction t r rs _ _ (conjunction-append r.operator o lists t)
            ands,
        collected_step Operator.disjunction t r rs _ _ (disjunction-append r.operator o lists t)
            ors,
      )

  appended :
      (operator : Operator) (test : Test V) (lists : List (Test V) × List (Test V))
      → ((append_condition operator (some test) lists).0 ≡ [])
        × ((append_condition operator (some test) lists).1 ≡ [])
      → ⊥
  appended Operator.conjunction test lists h = let e = h.0 in cc
  appended Operator.disjunction test lists h = let e = h.1 in cc

  -- Both lists are empty exactly if no rule asks for anything.
  pub conditions-none :
      (rules : List DataRule)
      → (((conditions excluded models rules).0 ≡ []) × ((conditions excluded models rules).1 ≡ []))
        ↔ ((rule : DataRule) → In rule rules → condition excluded models rule ≡ none)
  unfolding conditions
  conditions-none [] = (λ h rule p. absurd p, λ h. (refl, refl))
  conditions-none (r ∷ rs) =
      let ih = conditions-none rs in
      elim (Option-cases (condition excluded models r)) [
        | inl nothing ↦ (
          λ h rule p. (elim p [
            | inl e ↦ ap (condition excluded models) e ∙ nothing
            | inr q ↦ ih.0 (rw nothing at h) rule q
          ]),
          λ h. rw nothing (ih.1 (λ rule p. h rule (inr p))),
        )
        | inr (test, asks) ↦ (
          λ h. absurd (appended r.operator test (conditions excluded models rs) (rw asks at h)),
          λ h. (let wrong = h r (inl refl) in absurd (cc)),
        )
      ]
