-- ===== src/Admin/Valid.antt =====
-- The invariant of the tables of menus, roles, data scopes and data rules, and the calls of `MenuService`.
use fbapy.Base.{
  not-false, ℕ, ◌≡◌, refl, subst, ◌≢◌, ◌⊎◌, inl, inr, false, not, ◌&&◌, Option, none, some, List,
  [], ◌∷◌, ◌==◌, arith, Bool-cases, Option-cases,
}
use fbapy.Base.Text.{Text, text_eq}
use fbapy.Base.Exec.{Result, Error, ok, err, ◌>>◌}
use fbapy.Redis.{Server}
use fbapy.Table.{found}
use fbapy.UserCache.{Associations}
use fbapy.Admin.{
  sent_menu, MenuParam, RoleParam, ScopeParam, RuleParam, Database, Store, is_key, on_redis,
  insert_pairs,
}
use fbapy.Admin.Menus.{
  menu_titled, names_parent, child_of, get_menu, parent_missing, create_menu, update_menu,
  delete_menu,
}
use fbapy.Admin.Named.{Unique}
use fbapy.Admin.MenuRows.{
  Exists, Parents, Granted, found-Exists, Parents-insert, Parents-update, Parents-delete,
  Granted-insert, Granted-update, Granted-delete,
}

-- The names that the services keep apart.
abbrev pub role_name : RoleParam → List ℕ
role_name c = c.name

abbrev pub scope_name : ScopeParam → List ℕ
scope_name c = c.name

abbrev pub rule_name : RuleParam → List ℕ
rule_name c = c.name

Result-cases : (m : Result (Unit {0})) → (m ≡ ok tt) ⊎ ((e : Error) × (m ≡ err e))
Result-cases (ok tt) = inl refl
Result-cases (err e) = inr (e, refl)

module _ (r : Server) (d : Database) where
  -- A menu's parent, unless it is 0, is a menu, and so is each that a role is given; and no two roles, data
  -- scopes or data rules have one name.
  pub record IsValid (w : Store r d) : Type 0 where
    pub parents : Parents d.menu_table w.menus
    pub granted : Granted d.menu_table w.menus w.pairs.role_menu
    pub roles : Unique role_name d.role_table w.roles
    pub scopes : Unique scope_name d.scope_table w.scopes
    pub rules : Unique rule_name d.rule_table w.rules

  parent_Exists :
      (parent : Option ℕ) (w : Store r d)
      → parent_missing r d parent w ≡ false
      → (p : ℕ) → parent ≡ some p
      → p ≢ 0
      → Exists d.menu_table w.menus p
  parent_Exists none w h p e nonzero = absurd (cc)
  parent_Exists (some q) w h p e nonzero =
      let same : q ≡ p = cc in
      let counted : (q == 0) ≡ false = ground arith in
      subst (Exists d.menu_table w.menus) same
        (found-Exists d.menu_table w.menus q (not-false _ (rw counted at h)))

  -- What holds whether the pairs were inserted or not holds after the insertion and the clearing.
  pub after_insert :
      (P : Store r d → Type 0) (ids : List ℕ) (f : Associations → Associations)
      (g : Associations → r.State → r.State) (w : Store r d)
      → ((redis : r.State) → P (record w { redis = redis }))
      → ((redis : r.State) → P (record w { redis = redis; pairs = f w.pairs }))
      → P ((insert_pairs r d ids f >> on_redis r d g) w).1
  after_insert P [] f g w kept grown = elim (Result-cases d.insert_no_rows) [
    | inl fine ↦ rw fine (kept (g w.pairs w.redis))
    | inr (e, raised) ↦ rw raised (kept w.redis)
  ]
  after_insert P (id ∷ ids) f g w kept grown = grown (g (f w.pairs) w.redis)

  pub create_menu-IsValid :
      (obj : MenuParam) (w : Store r d) → IsValid w → IsValid (create_menu r d obj w).1
  unfolding create_menu
  create_menu-IsValid obj w v = elim (Bool-cases (found (get_menu r d (menu_titled obj.title) w))) [
    | inl taken ↦ rw taken v
    | inr free ↦ elim (Bool-cases (parent_missing r d obj.parent_id w)) [
      | inl missing ↦ rw (free, missing) v
      | inr present ↦
          rw (free, present)
            (record {
              parents =
                  Parents-insert d.menu_table obj w.menus (parent_Exists obj.parent_id w present)
                    v.parents;
              granted = Granted-insert d.menu_table obj w.menus w.pairs.role_menu v.granted;
              roles = v.roles;
              scopes = v.scopes;
              rules = v.rules;
            })
    ]
  ]

  pub update_menu-IsValid :
      (pk : ℕ) (fields_set : List Text) (obj : MenuParam) (w : Store r d)
      → IsValid w
      → IsValid (update_menu r d pk fields_set obj w).1
  unfolding update_menu
  update_menu-IsValid pk fields_set obj w v = elim (Option-cases (get_menu r d (is_key pk) w)) [
    | inl nobody ↦ rw nobody v
    | inr (menu, got) ↦
        elim (Bool-cases (
          not (text_eq menu.columns.title obj.title)
          && found (get_menu r d (menu_titled obj.title) w))) [
            | inl taken ↦ rw (got, taken) v
            | inr free ↦ elim (Bool-cases (parent_missing r d obj.parent_id w)) [
              | inl missing ↦ rw (got, free, missing) v
              | inr present ↦ elim (Bool-cases (names_parent menu.id obj.parent_id)) [
                | inl itself ↦ rw (got, free, present, itself) v
                | inr other ↦
                    rw (got, free, present, other)
                      (record {
                        parents =
                            Parents-update d.menu_table pk fields_set obj w.menus
                              (parent_Exists obj.parent_id w present) v.parents;
                        granted =
                            Granted-update d.menu_table pk (sent_menu fields_set obj) w.menus
                              w.pairs.role_menu v.granted;
                        roles = v.roles;
                        scopes = v.scopes;
                        rules = v.rules;
                      })
              ]
            ]
          ]
  ]

  pub delete_menu-IsValid : (pk : ℕ) (w : Store r d) → IsValid w → IsValid (delete_menu r d pk w).1
  unfolding delete_menu
  delete_menu-IsValid pk w v = elim (Bool-cases (found (get_menu r d (child_of pk) w))) [
    | inl parent ↦ rw parent v
    | inr leaf ↦
        let parents = Parents-delete d.menu_table pk w.menus leaf v.parents in
        let granted = Granted-delete d.menu_table pk w.menus w.pairs.role_menu v.granted in
        elim (Bool-cases (found (get_menu r d (is_key pk) w))) [
          | inl there ↦
              rw (leaf, there)
                (record {
                  parents = parents;
                  granted = granted;
                  roles = v.roles;
                  scopes = v.scopes;
                  rules = v.rules;
                })
          | inr gone ↦
              rw (leaf, gone)
                (record {
                  parents = parents;
                  granted = granted;
                  roles = v.roles;
                  scopes = v.scopes;
                  rules = v.rules;
                })
        ]
  ]
