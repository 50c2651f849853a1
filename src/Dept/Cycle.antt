-- ===== src/Dept/Cycle.antt =====
-- A department below one of its own children.
use fbapy.Base.{
  List, any, if_true, ◌∙◌, ◌≡◌, refl, ◌≢◌, inl, inr, true, false, some, ◌==◌, arith, Option-cases,
}
use fbapy.Base.Text.{Text, codes, text_eq, text_eq_self}
use fbapy.Base.Exec.{ok}
use fbapy.Redis.{Server}
use fbapy.Table.{Table, found}
use fbapy.Dept.{
  Dept, DeptParam, dept_id, live_key, is_key, names_parent, parent_missing, updated, Store, get,
  update,
}
use fbapy.Dept.Valid.{Live, keyed_found}

module _ (r : Server) (t : Table Dept dept_id) where
  child_found : (s : t.State) (d : Dept) → Live t s d → found (t.first (live_key d.id) s) ≡ true
  child_found s d (p, live) = elim (Option-cases (t.first (live_key d.id) s)) [
    | inl nothing ↦
        let missed : live_key d.id d ≡ false = t.first-none (live_key d.id) s d nothing p in
        absurd (ground arith)
    | inr (e, got) ↦ rw got refl
  ]

  -- If a department is given one of its own children as its parent, with no change of its name, and the
  -- child's key is not 0, then the update succeeds, and each of the two is the other's parent.
  update-Cycle :
      (w : Store r t) (dept child : Dept) (fields_set : List Text) (obj : DeptParam)
      → t.first (live_key dept.id) w.depts ≡ some dept
      → Live t w.depts child
      → child.parent_id ≡ some dept.id
      → child.id ≢ dept.id
      → child.id ≢ 0
      → obj.name ≡ dept.name
      → any (text_eq (codes "parent_id")) fields_set ≡ true
      → obj.parent_id ≡ some child.id
      → let (result, after) = update r t dept.id fields_set obj w in
        (result ≡ ok tt)
        × Live t after.depts (updated fields_set obj dept)
        × Live t after.depts child
        × ((updated fields_set obj dept).parent_id ≡ some child.id)
        × (child.parent_id ≡ some (updated fields_set obj dept).id)
  unfolding update get
  update-Cycle w dept child fields_set obj got (p, live) below apart nonzero name given parent =
      let (there, alive) = (keyed_found t w.depts dept.id dept got).0 in
      let same : text_eq dept.name obj.name ≡ true = rw name (text_eq_self dept.name) in
      let child_there = child_found w.depts child (p, live) in
      let counted : (child.id == 0) ≡ false = ground arith in
      let present : parent_missing r t obj.parent_id w ≡ false =
        rw (parent, counted, child_there) refl in
      let other : names_parent dept.id obj.parent_id ≡ false = rw parent (ground arith) in
      let itself : is_key dept.id dept ≡ true = ground arith in
      let not_it : is_key dept.id child ≡ false = ground arith in
      rw (got, same, present, other)
        (
          refl,
          (
            (t.rows-update (is_key dept.id) (updated fields_set obj) w.depts
                  (updated fields_set obj dept)).1
                (dept, there, rw itself refl),
            alive,
          ),
          (
            (t.rows-update (is_key dept.id) (updated fields_set obj) w.depts child).1
                (child, p, rw not_it refl),
            live,
          ),
          if_true obj.parent_id dept.parent_id given ∙ parent,
          below,
        )
