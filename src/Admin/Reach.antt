-- ===== src/Admin/Reach.antt =====
-- The invariant of every state that the calls lead to.
use fbapy.Base.{subst, In}
use fbapy.Redis.{Server}
use fbapy.Admin.{Database, Store}
use fbapy.Admin.Steps.{
  Step, create_menu_step, update_menu_step, delete_menu_step, create_role_step, update_role_step,
  role_menu_step, role_scope_step, delete_role_step, create_scope_step, update_scope_step,
  scope_rule_step, delete_scope_step, create_rule_step, update_rule_step, delete_rule_step,
  elsewhere_step, Reachable, start, step,
}
use fbapy.Admin.Named.{Unique-start}
use fbapy.Admin.Valid.{
  role_name, scope_name, rule_name, IsValid, create_menu-IsValid, update_menu-IsValid,
  delete_menu-IsValid,
}
use fbapy.Admin.Kept.{
  update_role_menu-IsValid, update_role_scope-IsValid, update_data_scope_rule-IsValid,
}
use fbapy.Admin.KeptRows.{
  create_role-IsValid, update_role-IsValid, delete_role-IsValid, create_scope-IsValid,
  update_scope-IsValid, delete_scope-IsValid, create_rule-IsValid, update_rule-IsValid,
  delete_rule-IsValid,
}

module _ (r : Server) (d : Database) where
  Step-IsValid : (w v : Store r d) → Step r d w v → IsValid r d w → IsValid r d v
  Step-IsValid _ _ (create_menu_step obj w) v = create_menu-IsValid r d obj w v
  Step-IsValid _ _ (update_menu_step pk fields_set obj w) v =
      update_menu-IsValid r d pk fields_set obj w v
  Step-IsValid _ _ (delete_menu_step pk w) v = delete_menu-IsValid r d pk w v
  Step-IsValid _ _ (create_role_step obj w) v = create_role-IsValid r d obj w v
  Step-IsValid _ _ (update_role_step pk fields_set obj w) v =
      update_role-IsValid r d pk fields_set obj w v
  Step-IsValid _ _ (role_menu_step pk menus w) v = update_role_menu-IsValid r d pk menus w v
  Step-IsValid _ _ (role_scope_step pk scopes w) v = update_role_scope-IsValid r d pk scopes w v
  Step-IsValid _ _ (delete_role_step pks w) v = delete_role-IsValid r d pks w v
  Step-IsValid _ _ (create_scope_step obj w) v = create_scope-IsValid r d obj w v
  Step-IsValid _ _ (update_scope_step pk obj w) v = update_scope-IsValid r d pk obj w v
  Step-IsValid _ _ (scope_rule_step pk rules w) v = update_data_scope_rule-IsValid r d pk rules w v
  Step-IsValid _ _ (delete_scope_step pks w) v = delete_scope-IsValid r d pks w v
  Step-IsValid _ _ (create_rule_step obj w) v = create_rule-IsValid r d obj w v
  Step-IsValid _ _ (update_rule_step pk obj w) v = update_rule-IsValid r d pk obj w v
  Step-IsValid _ _ (delete_rule_step pks w) v = delete_rule-IsValid r d pks w v
  Step-IsValid _ _ (elsewhere_step redis user_role w) v = record {
    parents = v.parents;
    granted = v.granted;
    roles = v.roles;
    scopes = v.scopes;
    rules = v.rules;
  }

  -- Whatever calls have been made since the tables were empty, also refused ones: the parent of a menu,
  -- unless it is 0, is a menu; each menu that a role is given is a menu; and no two roles, data scopes or
  -- data rules have one name.
  pub administration-IsValid : (w : Store r d) → Reachable r d w → IsValid r d w
  administration-IsValid w (start _ no_menus no_roles no_scopes no_rules no_pairs) = record {
    parents = λ m p. absurd (subst (In m) no_menus p);
    granted = λ role menu p. absurd (subst (In (role, menu)) no_pairs p);
    roles = Unique-start role_name d.role_table w.roles no_roles;
    scopes = Unique-start scope_name d.scope_table w.scopes no_scopes;
    rules = Unique-start rule_name d.rule_table w.rules no_rules;
  }
  administration-IsValid _ (step w v h s) = Step-IsValid w v s (administration-IsValid w h)
