-- ===== src/Admin/Steps.antt =====
-- The calls of the services of menus, roles, data scopes and data rules in any order.
use fbapy.Base.{ℕ, ◌≡◌, List, []}
use fbapy.Base.Text.{Text}
use fbapy.Redis.{Server}
use fbapy.UserCache.{Pairs}
use fbapy.Admin.{MenuParam, RoleParam, ScopeParam, RuleParam, Database, Store}
use fbapy.Admin.Menus.{create_menu, update_menu, delete_menu}
use fbapy.Admin.Roles.{create_role, update_role, update_role_menu, update_role_scope, delete_role}
use fbapy.Admin.Scopes.{
  create_scope, update_scope, update_data_scope_rule, delete_scope, create_rule, update_rule,
  delete_rule,
}

module _ (r : Server) (d : Database) where
  -- One call, or a change of Redis and of the roles of the users elsewhere.
  pub data Step : Store r d → Store r d → Type 0 where
    create_menu_step : (obj : MenuParam) (w : Store r d) → Step w (create_menu r d obj w).1
    update_menu_step :
        (pk : ℕ) (fields_set : List Text) (obj : MenuParam) (w : Store r d)
        → Step w (update_menu r d pk fields_set obj w).1
    delete_menu_step : (pk : ℕ) (w : Store r d) → Step w (delete_menu r d pk w).1
    create_role_step : (obj : RoleParam) (w : Store r d) → Step w (create_role r d obj w).1
    update_role_step :
        (pk : ℕ) (fields_set : List Text) (obj : RoleParam) (w : Store r d)
        → Step w (update_role r d pk fields_set obj w).1
    role_menu_step :
        (pk : ℕ) (menus : List ℕ) (w : Store r d) → Step w (update_role_menu r d pk menus w).1
    role_scope_step :
        (pk : ℕ) (scopes : List ℕ) (w : Store r d) → Step w (update_role_scope r d pk scopes w).1
    delete_role_step : (pks : List ℕ) (w : Store r d) → Step w (delete_role r d pks w).1
    create_scope_step : (obj : ScopeParam) (w : Store r d) → Step w (create_scope r d obj w).1
    update_scope_step :
        (pk : ℕ) (obj : ScopeParam) (w : Store r d) → Step w (update_scope r d pk obj w).1
    scope_rule_step :
        (pk : ℕ) (rules : List ℕ) (w : Store r d) → Step w (update_data_scope_rule r d pk rules w).1
    delete_scope_step : (pks : List ℕ) (w : Store r d) → Step w (delete_scope r d pks w).1
    create_rule_step : (obj : RuleParam) (w : Store r d) → Step w (create_rule r d obj w).1
    update_rule_step :
        (pk : ℕ) (obj : RuleParam) (w : Store r d) → Step w (update_rule r d pk obj w).1
    delete_rule_step : (pks : List ℕ) (w : Store r d) → Step w (delete_rule r d pks w).1
    elsewhere_step :
        (redis : r.State) (user_role : Pairs) (w : Store r d)
        → Step w (record w { redis = redis; pairs = record w.pairs { user_role = user_role } })

  -- From tables without rows.
  pub data Reachable : Store r d → Type 0 where
    start :
        (w : Store r d)
        → d.menu_table.rows w.menus ≡ []
        → d.role_table.rows w.roles ≡ []
        → d.scope_table.rows w.scopes ≡ []
        → d.rule_table.rows w.rules ≡ []
        → w.pairs.role_menu ≡ []
        → Reachable w
    step : (w v : Store r d) → Reachable w → Step w v → Reachable v
