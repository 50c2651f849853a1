-- ===== src/Dept/Valid.antt =====
-- The invariant of the departments under the calls of the service.
use fbapy.Base.{
  List, not-true, both, ℕ, ◌≡◌, refl, sym, ap, subst, ◌∙◌, ◌≢◌, ◌⊎◌, inl, inr, ◌↔◌, true, false,
  not, ◌&&◌, some, ◌==◌, In, if◌then◌else◌, arith, Bool-cases,
}
use fbapy.Base.Text.{codes, Text, text_eq, text_eq_self, text_eq→eq}
use fbapy.Table.{sent-cases, Table, found, found-false, found-true}
use fbapy.Dept.{
  Dept, DeptParam, dept_id, new_dept, updated, live_key, live_name, is_key, names_parent,
  live_child,
}

module _ (t : Table Dept dept_id) where
  open t use {State, rows, first, insert}

  -- A department that is not deleted.
  abbrev pub Live : State → Dept → Type 0
  Live s d = In d (rows s) × (d.del_flag ≡ false)

  -- The parent of a department, unless it is 0, is a department; and no two have one name.
  pub record IsValid (s : State) : Type 0 where
    pub parents :
        (d : Dept)
        → Live s d
        → (p : ℕ) → d.parent_id ≡ some p
        → p ≢ 0
        → (e : Dept) × Live s e × (e.id ≡ p)
    pub names : (d e : Dept) → Live s d → Live s e → d.name ≡ e.name → d.id ≡ e.id

  unnamed :
      (s : State) (name : Text)
      → found (first (live_name name) s) ≡ false
      → (d : Dept) → Live s d
      → d.name ≢ name
  unnamed s name free d (p, live) same =
      let missed : live_name name d ≡ false =
        t.first-none (live_name name) s d (found-false _ free) p in
      let lit : text_eq d.name name ≡ true = rw same (text_eq_self name) in absurd (ground arith)

  pub keyed_found :
      (s : State) (p : ℕ) (e : Dept) → first (live_key p) s ≡ some e → Live s e × (e.id ≡ p)
  keyed_found s p e got =
      let (among, lit) = t.first-some (live_key p) s e got in
      let (same, alive) = both (e.id == p) (not e.del_flag) lit in
      ((among, not-true e.del_flag alive), ground arith)

  parent_there :
      (s : State) (p : ℕ) → found (first (live_key p) s) ≡ true → (e : Dept) × Live s e × (e.id ≡ p)
  parent_there s p h =
      let (e, got) = found-true (first (live_key p) s) h in
      let (live, same) = keyed_found s p e got in (e, live, same)

  childless :
      (s : State) (pk : ℕ)
      → found (first (live_child pk) s) ≡ false
      → (d : Dept) → Live s d
      → d.parent_id ≢ some pk
  childless s pk none_left d (p, live) names =
      let missed : live_child pk d ≡ false =
        t.first-none (live_child pk) s d (found-false _ none_left) p in
      let parent : names_parent pk d.parent_id ≡ true = rw names (ground arith) in
      absurd (ground arith)

  module _ (obj : DeptParam) (s : State) where
    Live-insert :
        (d : Dept) → Live (insert (new_dept obj) s) d ↔ ((d ≡ new_dept obj (t.key s)) ⊎ Live s d)
    Live-insert d =
        let there = t.rows-insert (new_dept obj) s d in
        (
          λ (p, live). (elim (there.0 p) [ inl e ↦ inl e | inr q ↦ inr (q, live) ]),
          λ h. (elim h [
            | inl e ↦ (there.1 (inl e), ap (λ (x : Dept). x.del_flag) e)
            | inr (q, live) ↦ (there.1 (inr q), live)
          ]),
        )

    pub IsValid-insert :
        found (first (live_name obj.name) s) ≡ false
        → ((p : ℕ) → obj.parent_id ≡ some p → found (first (live_key p) s) ≡ true)
        → IsValid s
        → IsValid (insert (new_dept obj) s)
    IsValid-insert free parent v =
        let kept : (e : Dept) → Live s e → Live (insert (new_dept obj) s) e =
          λ e live. (Live-insert e).1 (inr live) in
        record {
          parents = λ d live p names nonzero. (elim ((Live-insert d).0 live) [
            | inl new ↦
                (let (e, alive, same) =
                    parent_there s p
                      (parent p (sym (ap (λ (x : Dept). x.parent_id) new) ∙ names)) in
                  (e, kept e alive, same))
            | inr old ↦
                (let (e, alive, same) = v.parents d old p names nonzero in (e, kept e alive, same))
          ]);
          names = λ d e live live' same. (elim ((Live-insert d).0 live) [
            | inl new ↦ (elim ((Live-insert e).0 live') [
              | inl new' ↦ ap (λ (x : Dept). x.id) (new ∙ sym new')
              | inr old ↦
                  absurd (unnamed s obj.name free e old (sym same ∙ ap (λ (x : Dept). x.name) new))
            ])
            | inr old ↦ (elim ((Live-insert e).0 live') [
              | inl new ↦
                  absurd (unnamed s obj.name free d old (same ∙ ap (λ (x : Dept). x.name) new))
              | inr old' ↦ v.names d e old old' same
            ])
          ]);
        }

  module _ (pk : ℕ) (fields_set : List Text) (obj : DeptParam) (s : State) where
    abbrev after : State
    after = t.update (is_key pk) (updated fields_set obj) s

    -- Where a department comes from, and where it goes.
    pub Live-update :
        (x : Dept)
        → Live after x
        → (y : Dept) × Live s y
          × (((y.id ≡ pk) × (x ≡ updated fields_set obj y)) ⊎ ((y.id ≢ pk) × (x ≡ y)))
    Live-update x (p, live) =
        let (y, q, e) = (t.rows-update (is_key pk) (updated fields_set obj) s x).0 p in
        elim (Bool-cases (is_key pk y)) [
          | inl same ↦
              let e' : x ≡ updated fields_set obj y = rw same at e in
              (y, (q, sym (ap (λ (x : Dept). x.del_flag) e') ∙ live), inl (ground arith, e'))
          | inr other ↦
              let e' : x ≡ y = rw other at e in
              (y, (q, sym (ap (λ (x : Dept). x.del_flag) e') ∙ live), inr (ground arith, e'))
        ]

    pub Live-after : (y : Dept) → Live s y → (x : Dept) × Live after x × (x.id ≡ y.id)
    Live-after y (p, live) =
        let there : (x : Dept)
            → ((z : Dept) × In z (rows s)
                × (x ≡ (if is_key pk z then updated fields_set obj z else z)))
            → In x (rows after) =
          λ x. (t.rows-update (is_key pk) (updated fields_set obj) s x).1 in
        elim (Bool-cases (is_key pk y)) [
          | inl same ↦ (
            updated fields_set obj y,
            (there (updated fields_set obj y) (y, p, rw same refl), live),
            refl,
          )
          | inr other ↦ (y, (there y (y, p, rw other refl), live), refl)
        ]

    pub IsValid-update :
        (dept : Dept)
        → Live s dept
        → dept.id ≡ pk
        → (not (text_eq dept.name obj.name) && found (first (live_name obj.name) s)) ≡ false
        → ((p : ℕ) → obj.parent_id ≡ some p → p ≢ 0 → found (first (live_key p) s) ≡ true)
        → IsValid s
        → IsValid after
    IsValid-update dept alive key free parent v =
        let kept : (p : ℕ)
            → ((e : Dept) × Live s e × (e.id ≡ p))
            → (e : Dept) × Live after e × (e.id ≡ p) =
          λ p (e, live, same).
            (let (x, live', same') = Live-after e live in (x, live', same' ∙ same)) in
        let apart : (y : Dept) → Live s y → y.id ≢ pk → y.name ≢ obj.name = λ y live other same.
          (elim (Bool-cases (text_eq dept.name obj.name)) [
            | inl named ↦
                other (
                  v.names y dept live alive (same ∙ sym (text_eq→eq dept.name obj.name named))
                  ∙ key)
            | inr renamed ↦ unnamed s obj.name (rw renamed at free) y live same
          ]) in
        record {
          parents = λ d live p names nonzero.
              (let (y, old, how) = Live-update d live in
                elim how [
                  | inl (same, e) ↦
                      let named = sym (ap (λ (x : Dept). x.parent_id) e) ∙ names in
                      kept p
                        (elim (sent-cases fields_set (codes "parent_id") obj.parent_id
                          y.parent_id) [
                            | inl given ↦ parent_there s p (parent p (sym given ∙ named) nonzero)
                            | inr absent ↦ v.parents y old p (sym absent ∙ named) nonzero
                          ])
                  | inr (other, e) ↦
                      kept p
                        (v.parents y old p (sym (ap (λ (x : Dept). x.parent_id) e) ∙ names) nonzero)
                ]);
          names = λ d e live live' same.
              (let (y, old, how) = Live-update d live in
                let (z, old', how') = Live-update e live' in
                elim how [
                  | inl (key₁, e₁) ↦ elim how' [
                    | inl (key₂, e₂) ↦
                        ap (λ (x : Dept). x.id) e₁ ∙ key₁ ∙ sym (ap (λ (x : Dept). x.id) e₂ ∙ key₂)
                    | inr (other₂, e₂) ↦ absurd (
                        apart z old' other₂ (
                          sym (ap (λ (x : Dept). x.name) e₂)
                          ∙ sym same
                          ∙ ap (λ (x : Dept). x.name) e₁))
                  ]
                  | inr (other₁, e₁) ↦ elim how' [
                    | inl (key₂, e₂) ↦ absurd (
                        apart y old other₁ (
                          sym (ap (λ (x : Dept). x.name) e₁) ∙ same ∙ ap (λ (x : Dept). x.name) e₂))
                    | inr (other₂, e₂) ↦
                        ap (λ (x : Dept). x.id) e₁
                        ∙ v.names y z old old' (
                            sym (ap (λ (x : Dept). x.name) e₁)
                            ∙ same
                            ∙ ap (λ (x : Dept). x.name) e₂)
                        ∙ sym (ap (λ (x : Dept). x.id) e₂)
                  ]
                ]);
        }

  module _ (pk : ℕ) (s : State) where
    abbrev deleted : State
    deleted = t.update (is_key pk) (λ d. record d { del_flag = true }) s

    pub Live-deleted : (x : Dept) → Live deleted x ↔ (Live s x × (x.id ≢ pk))
    Live-deleted x =
        let there = t.rows-update (is_key pk) (λ d. record d { del_flag = true }) s x in
        (
          λ (p, live).
              (let (y, q, e) = there.0 p in
                elim (Bool-cases (is_key pk y)) [
                  | inl same ↦
                      let e' : x ≡ record y { del_flag = true } = rw same at e in
                      let dead : x.del_flag ≡ true = ap (λ (x : Dept). x.del_flag) e' in absurd (cc)
                  | inr other ↦
                      let e' : x ≡ y = rw other at e in
                      let far : y.id ≢ pk = ground arith in
                      (
                        (subst (λ x. In x (rows s)) (sym e') q, live),
                        subst (λ (x : Dept). x.id ≢ pk) (sym e') far,
                      )
                ]),
          λ ((p, live), far).
              (let other : is_key pk x ≡ false = ground arith in
                (there.1 (x, p, rw other refl), live)),
        )

    pub IsValid-delete : found (first (live_child pk) s) ≡ false → IsValid s → IsValid deleted
    IsValid-delete none_left v = record {
      parents = λ d live p names nonzero.
          (let (old, far) = (Live-deleted d).0 live in
            let (e, alive, same) = v.parents d old p names nonzero in
            let not_gone : e.id ≢ pk =
              λ gone. childless s pk none_left d old (names ∙ ap some (sym same ∙ gone)) in
            (e, (Live-deleted e).1 (alive, not_gone), same));
      names = λ d e live live' same.
          v.names d e ((Live-deleted d).0 live).0 ((Live-deleted e).0 live').0 same;
    }
