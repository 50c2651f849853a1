-- ===== src/Dept/Steps.antt =====
-- The invariant of the departments, call by call, and after any sequence of them.
use fbapy.Base.{
  List, not-false, ℕ, ◌≡◌, subst, ◌≢◌, inl, inr, true, false, not, ◌&&◌, Option, none, some, ◌==◌,
  is_empty, In, arith, Bool-cases, Option-cases,
}
use fbapy.Base.Text.{Text, text_eq}
use fbapy.Redis.{Server}
use fbapy.Table.{Table, found}
use fbapy.Dept.{
  Dept, DeptParam, dept_id, live_key, live_name, is_key, names_parent, live_child, users_of, Store,
  get_by, new_parent_missing, parent_missing, get, create, update, delete, Step, create_step,
  update_step, delete_step, elsewhere_step, Reachable, start, step,
}
use fbapy.Dept.Valid.{IsValid, keyed_found, IsValid-insert, IsValid-update, IsValid-delete}

module _ (r : Server) (t : Table Dept dept_id) where
  abbrev Valid : Store r t → Type 0
  Valid w = IsValid t w.depts

  new_parent_found :
      (parent : Option ℕ) (w : Store r t)
      → new_parent_missing r t parent w ≡ false
      → (p : ℕ) → parent ≡ some p
      → found (t.first (live_key p) w.depts) ≡ true
  new_parent_found none w h p e = absurd (cc)
  new_parent_found (some q) w h p e =
      let same : q ≡ p = cc in
      subst (λ x. found (t.first (live_key x) w.depts) ≡ true) same (not-false _ h)

  parent_found :
      (parent : Option ℕ) (w : Store r t)
      → parent_missing r t parent w ≡ false
      → (p : ℕ) → parent ≡ some p
      → p ≢ 0
      → found (t.first (live_key p) w.depts) ≡ true
  parent_found none w h p e nonzero = absurd (cc)
  parent_found (some q) w h p e nonzero =
      let same : q ≡ p = cc in
      let counted : (q == 0) ≡ false = ground arith in
      subst (λ x. found (t.first (live_key x) w.depts) ≡ true) same (not-false _ (rw counted at h))

  create-IsValid : (obj : DeptParam) (w : Store r t) → Valid w → Valid (create r t obj w).1
  unfolding create
  create-IsValid obj w v = elim (Bool-cases (found (get_by r t (live_name obj.name) w))) [
    | inl taken ↦ rw taken v
    | inr free ↦ elim (Bool-cases (new_parent_missing r t obj.parent_id w)) [
      | inl missing ↦ rw (free, missing) v
      | inr present ↦
          rw (free, present)
            (IsValid-insert t obj w.depts free (new_parent_found obj.parent_id w present) v)
    ]
  ]

  update-IsValid :
      (pk : ℕ) (fields_set : List Text) (obj : DeptParam) (w : Store r t)
      → Valid w
      → Valid (update r t pk fields_set obj w).1
  unfolding update get
  update-IsValid pk fields_set obj w v = elim (Option-cases (get_by r t (live_key pk) w)) [
    | inl nobody ↦ rw nobody v
    | inr (dept, got) ↦
        elim (Bool-cases
          (not (text_eq dept.name obj.name) && found (get_by r t (live_name obj.name) w))) [
            | inl taken ↦ rw (got, taken) v
            | inr free ↦ elim (Bool-cases (parent_missing r t obj.parent_id w)) [
              | inl missing ↦ rw (got, free, missing) v
              | inr present ↦ elim (Bool-cases (names_parent dept.id obj.parent_id)) [
                | inl itself ↦ rw (got, free, present, itself) v
                | inr other ↦
                    rw (got, free, present, other)
                      (let (live, same) = keyed_found t w.depts pk dept got in
                        IsValid-update t pk fields_set obj w.depts dept live same free
                          (parent_found obj.parent_id w present) v)
              ]
            ]
          ]
  ]

  delete-IsValid : (pk : ℕ) (w : Store r t) → Valid w → Valid (delete r t pk w).1
  unfolding delete
  delete-IsValid pk w v = elim (Option-cases (get_by r t (is_key pk) w)) [
    | inl nobody ↦ rw nobody v
    | inr (dept, got) ↦ elim (Bool-cases (not (is_empty (users_of pk w.users)))) [
      | inl inhabited ↦ rw (got, inhabited) v
      | inr deserted ↦ elim (Bool-cases (found (get_by r t (live_child pk) w))) [
        | inl parent ↦ rw (got, deserted, parent) v
        | inr leaf ↦ rw (got, deserted, leaf) (IsValid-delete t pk w.depts leaf v)
      ]
    ]
  ]

  Step-IsValid : (w v : Store r t) → Step r t w v → Valid w → Valid v
  Step-IsValid _ _ (create_step obj w) = create-IsValid obj w
  Step-IsValid _ _ (update_step pk fields_set obj w) = update-IsValid pk fields_set obj w
  Step-IsValid _ _ (delete_step pk w) = delete-IsValid pk w
  Step-IsValid _ _ (elsewhere_step redis users w) = λ v. v

  -- Whatever calls have been made since the table was empty, also refused ones: no two departments that
  -- are not deleted share a name, and the parent of each is such a department, unless it is 0.
  pub departments-IsValid : (w : Store r t) → Reachable r t w → IsValid t w.depts
  departments-IsValid w (start _ e) = record {
    parents = λ d (p, live). absurd (subst (In d) e p);
    names = λ d e' (p, live). absurd (subst (In d) e p);
  }
  departments-IsValid _ (step w v h s) = Step-IsValid w v s (departments-IsValid w h)
