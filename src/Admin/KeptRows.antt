-- ===== src/Admin/KeptRows.antt =====
-- The invariant under the calls that add, change and remove roles, data scopes and data rules.
use fbapy.Base.{refl, ℕ, inl, inr, not, ◌&&◌, List, Bool-cases, Option-cases}
use fbapy.Base.Text.{Text, text_eq}
use fbapy.Redis.{Server}
use fbapy.Table.{found}
use fbapy.UserCache.{contains}
use fbapy.Admin.{sent_role, RoleParam, ScopeParam, RuleParam, Database, Store, is_key}
use fbapy.Admin.Roles.{role_named, get_role, create_role, update_role, delete_role}
use fbapy.Admin.Scopes.{
  scope_named, rule_named, get_scope, get_rule, create_scope, update_scope, delete_scope,
  create_rule, update_rule, delete_rule,
}
use fbapy.Admin.Named.{Unique-insert, Unique-update, Unique-delete}
use fbapy.Admin.Valid.{role_name, scope_name, rule_name, IsValid}

module _ (r : Server) (d : Database) where
  pub create_role-IsValid :
      (obj : RoleParam) (w : Store r d) → IsValid r d w → IsValid r d (create_role r d obj w).1
  unfolding create_role
  create_role-IsValid obj w v = elim (Bool-cases (found (get_role r d (role_named obj.name) w))) [
    | inl taken ↦ rw taken v
    | inr free ↦ rw free (record {
      parents = v.parents;
      granted = v.granted;
      roles = Unique-insert role_name d.role_table obj w.roles free v.roles;
      scopes = v.scopes;
      rules = v.rules;
    })
  ]

  pub update_role-IsValid :
      (pk : ℕ) (fields_set : List Text) (obj : RoleParam) (w : Store r d)
      → IsValid r d w
      → IsValid r d (update_role r d pk fields_set obj w).1
  unfolding update_role
  update_role-IsValid pk fields_set obj w v = elim (Option-cases (get_role r d (is_key pk) w)) [
    | inl nobody ↦ rw nobody v
    | inr (row, got) ↦
        elim (Bool-cases (
          not (text_eq row.columns.name obj.name)
          && found (get_role r d (role_named obj.name) w))) [
            | inl taken ↦ rw (got, taken) v
            | inr free ↦
                rw (got, free)
                  (record {
                    parents = v.parents;
                    granted = v.granted;
                    roles =
                        Unique-update role_name d.role_table obj w.roles pk
                          (sent_role fields_set obj) (λ _. refl) row got free v.roles;
                    scopes = v.scopes;
                    rules = v.rules;
                  })
          ]
  ]

  pub delete_role-IsValid :
      (pks : List ℕ) (w : Store r d) → IsValid r d w → IsValid r d (delete_role r d pks w).1
  unfolding delete_role
  delete_role-IsValid pks w v = record {
    parents = v.parents;
    granted = v.granted;
    roles = Unique-delete role_name d.role_table (λ row. contains pks row.id) w.roles v.roles;
    scopes = v.scopes;
    rules = v.rules;
  }

  pub create_scope-IsValid :
      (obj : ScopeParam) (w : Store r d) → IsValid r d w → IsValid r d (create_scope r d obj w).1
  unfolding create_scope
  create_scope-IsValid obj w v =
      elim (Bool-cases (found (get_scope r d (scope_named obj.name) w))) [
        | inl taken ↦ rw taken v
        | inr free ↦ rw free (record {
          parents = v.parents;
          granted = v.granted;
          roles = v.roles;
          scopes = Unique-insert scope_name d.scope_table obj w.scopes free v.scopes;
          rules = v.rules;
        })
      ]

  pub update_scope-IsValid :
      (pk : ℕ) (obj : ScopeParam) (w : Store r d)
      → IsValid r d w
      → IsValid r d (update_scope r d pk obj w).1
  unfolding update_scope
  update_scope-IsValid pk obj w v = elim (Option-cases (get_scope r d (is_key pk) w)) [
    | inl nobody ↦ rw nobody v
    | inr (row, got) ↦
        elim (Bool-cases (
          not (text_eq row.columns.name obj.name)
          && found (get_scope r d (scope_named obj.name) w))) [
            | inl taken ↦ rw (got, taken) v
            | inr free ↦
                rw (got, free)
                  (record {
                    parents = v.parents;
                    granted = v.granted;
                    roles = v.roles;
                    scopes =
                        Unique-update scope_name d.scope_table obj w.scopes pk (λ _. obj)
                          (λ _. refl) row got free v.scopes;
                    rules = v.rules;
                  })
          ]
  ]

  pub delete_scope-IsValid :
      (pks : List ℕ) (w : Store r d) → IsValid r d w → IsValid r d (delete_scope r d pks w).1
  unfolding delete_scope
  delete_scope-IsValid pks w v = record {
    parents = v.parents;
    granted = v.granted;
    roles = v.roles;
    scopes = Unique-delete scope_name d.scope_table (λ row. contains pks row.id) w.scopes v.scopes;
    rules = v.rules;
  }

  pub create_rule-IsValid :
      (obj : RuleParam) (w : Store r d) → IsValid r d w → IsValid r d (create_rule r d obj w).1
  unfolding create_rule
  create_rule-IsValid obj w v = elim (Bool-cases (found (get_rule r d (rule_named obj.name) w))) [
    | inl taken ↦ rw taken v
    | inr free ↦ rw free (record {
      parents = v.parents;
      granted = v.granted;
      roles = v.roles;
      scopes = v.scopes;
      rules = Unique-insert rule_name d.rule_table obj w.rules free v.rules;
    })
  ]

  pub update_rule-IsValid :
      (pk : ℕ) (obj : RuleParam) (w : Store r d)
      → IsValid r d w
      → IsValid r d (update_rule r d pk obj w).1
  unfolding update_rule
  update_rule-IsValid pk obj w v = elim (Option-cases (get_rule r d (is_key pk) w)) [
    | inl nobody ↦ rw nobody v
    | inr (row, got) ↦
        elim (Bool-cases (
          not (text_eq row.columns.name obj.name)
          && found (get_rule r d (rule_named obj.name) w))) [
            | inl taken ↦ rw (got, taken) v
            | inr free ↦
                rw (got, free)
                  (record {
                    parents = v.parents;
                    granted = v.granted;
                    roles = v.roles;
                    scopes = v.scopes;
                    rules =
                        Unique-update rule_name d.rule_table obj w.rules pk (λ _. obj) (λ _. refl)
                          row got free v.rules;
                  })
          ]
  ]

  pub delete_rule-IsValid :
      (pks : List ℕ) (w : Store r d) → IsValid r d w → IsValid r d (delete_rule r d pks w).1
  unfolding delete_rule
  delete_rule-IsValid pks w v = record {
    parents = v.parents;
    granted = v.granted;
    roles = v.roles;
    scopes = v.scopes;
    rules = Unique-delete rule_name d.rule_table (λ row. contains pks row.id) w.rules v.rules;
  }
