-- ===== src/Admin/Kept.antt =====
-- The invariant under the calls that replace the pairs of a role or of a data scope.
use fbapy.Base.{not-false, ℕ, inl, inr, not, List, [], ◌∷◌, ◌++◌, all, Bool-cases, Option-cases}
use fbapy.Redis.{Server}
use fbapy.Table.{found}
use fbapy.UserCache.{clear_by_role_id, clear_by_data_scope_id}
use fbapy.Admin.{Database, Store, is_key, without_left, pairs_of}
use fbapy.Admin.Roles.{get_role, update_role_menu, update_role_scope}
use fbapy.Admin.Scopes.{update_data_scope_rule}
use fbapy.Admin.MenuRows.{Granted-without, Granted-replace}
use fbapy.Admin.Valid.{IsValid, after_insert}

module _ (r : Server) (d : Database) where
  pub update_role_menu-IsValid :
      (pk : ℕ) (menus : List ℕ) (w : Store r d)
      → IsValid r d w
      → IsValid r d (update_role_menu r d pk menus w).1
  unfolding update_role_menu
  update_role_menu-IsValid pk menus w v = elim (Option-cases (get_role r d (is_key pk) w)) [
    | inl nobody ↦ rw nobody v
    | inr (role, got) ↦
        elim (Bool-cases
          (not (all (λ (id : ℕ). found (d.menu_table.first (is_key id) w.menus)) menus))) [
            | inl missing ↦ rw (got, missing) v
            | inr present ↦
                rw (got, present)
                  (after_insert r d (IsValid r d) menus
                    (λ pairs. record pairs { role_menu = pairs.role_menu ++ pairs_of pk menus })
                    (λ pairs. clear_by_role_id r pairs (pk ∷ []))
                    (record w {
                      pairs = record w.pairs { role_menu = without_left pk w.pairs.role_menu };
                    })
                    (λ redis. record {
                      parents = v.parents;
                      granted = Granted-without d.menu_table pk w.menus w.pairs.role_menu v.granted;
                      roles = v.roles;
                      scopes = v.scopes;
                      rules = v.rules;
                    })
                    (λ redis. record {
                      parents = v.parents;
                      granted =
                          Granted-replace d.menu_table pk menus w.menus w.pairs.role_menu
                            (not-false _ present) v.granted;
                      roles = v.roles;
                      scopes = v.scopes;
                      rules = v.rules;
                    }))
          ]
  ]

  pub update_role_scope-IsValid :
      (pk : ℕ) (scopes : List ℕ) (w : Store r d)
      → IsValid r d w
      → IsValid r d (update_role_scope r d pk scopes w).1
  unfolding update_role_scope
  update_role_scope-IsValid pk scopes w v = elim (Option-cases (get_role r d (is_key pk) w)) [
    | inl nobody ↦ rw nobody v
    | inr (role, got) ↦
        elim (Bool-cases
          (not (all (λ (id : ℕ). found (d.scope_table.first (is_key id) w.scopes)) scopes))) [
            | inl missing ↦ rw (got, missing) v
            | inr present ↦
                rw (got, present)
                  (after_insert r d (IsValid r d) scopes
                    (λ pairs. record pairs {
                      role_data_scope = pairs.role_data_scope ++ pairs_of pk scopes;
                    })
                    (λ pairs. clear_by_role_id r pairs (pk ∷ []))
                    (record w {
                      pairs = record w.pairs {
                        role_data_scope = without_left pk w.pairs.role_data_scope;
                      };
                    })
                    (λ redis. record {
                      parents = v.parents;
                      granted = v.granted;
                      roles = v.roles;
                      scopes = v.scopes;
                      rules = v.rules;
                    })
                    (λ redis. record {
                      parents = v.parents;
                      granted = v.granted;
                      roles = v.roles;
                      scopes = v.scopes;
                      rules = v.rules;
                    }))
          ]
  ]

  pub update_data_scope_rule-IsValid :
      (pk : ℕ) (rules : List ℕ) (w : Store r d)
      → IsValid r d w
      → IsValid r d (update_data_scope_rule r d pk rules w).1
  unfolding update_data_scope_rule
  update_data_scope_rule-IsValid pk rules w v =
      after_insert r d (IsValid r d) rules
        (λ pairs. record pairs { data_scope_rule = pairs.data_scope_rule ++ pairs_of pk rules })
        (λ pairs. clear_by_data_scope_id r pairs (pk ∷ []))
        (record w {
          pairs = record w.pairs { data_scope_rule = without_left pk w.pairs.data_scope_rule };
        })
        (λ redis. record {
          parents = v.parents;
          granted = v.granted;
          roles = v.roles;
          scopes = v.scopes;
          rules = v.rules;
        })
        (λ redis. record {
          parents = v.parents;
          granted = v.granted;
          roles = v.roles;
          scopes = v.scopes;
          rules = v.rules;
        })
