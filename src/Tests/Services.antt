-- ===== src/Tests/Services.antt =====
-- Tests of the menus, roles, data scopes and data rules.
use fbapy.Base.{ℕ, ◌≡◌, refl, ◌≢◌, ◌⊎◌, ◌↔◌, true, false, none, some, [], ◌∷◌, In}
use fbapy.Base.Text.{codes}
use fbapy.Base.Exec.{ok}
use fbapy.Conf.{jwt_user_redis_prefix}
use fbapy.Redis.Table.{table_server}
use fbapy.Token.{user_key}
use fbapy.Table.Rows.{list_table}
use fbapy.UserCache.{Associations}
use fbapy.Admin.{Keyed, key_of, MenuParam, RoleParam, ScopeParam, RuleParam, Database, Store}
use fbapy.Admin.Steps.{
  start, step, create_menu_step, create_role_step, role_menu_step, update_menu_step,
}
use fbapy.Admin.Valid.{IsValid}
use fbapy.Admin.Menus.{menu_ids, get_sidebar, create_menu, update_menu, delete_menu}
use fbapy.Admin.Roles.{create_role, update_role_menu}
use fbapy.Admin.Reach.{administration-IsValid}
use fbapy.Admin.Cleared.{update_role_menu_lem}
use fbapy.Admin.Stale.{delete_menu-redis}
use fbapy.Admin.Sidebar.{Candidate, Held, get_sidebar_lem}

abbrev database : Database
database = record {
  menu_table = list_table (key_of {C = MenuParam});
  role_table = list_table (key_of {C = RoleParam});
  scope_table = list_table (key_of {C = ScopeParam});
  rule_table = list_table (key_of {C = RuleParam});
  insert_no_rows = ok tt;
}

abbrev menu_param : MenuParam
menu_param = record {
  title = codes "t";
  name = codes "n";
  path = none;
  parent_id = none;
  sort = 0;
  icon = none;
  type_of = 1;
  component = none;
  perms = some (codes "p");
  status = 1;
  display = 1;
  cache = 1;
  link = none;
  remark = none;
}

abbrev menu : Keyed MenuParam
menu = record { id = 5; columns = menu_param }

abbrev role_param : RoleParam
role_param = record { name = codes "r"; status = 1; is_filter_scopes = true; remark = none }

abbrev no_pairs : Associations
no_pairs = record {
  user_role = (9, 3) ∷ [];
  role_menu = [];
  role_data_scope = [];
  data_scope_rule = [];
}

-- A menu, a role and a user with the role, who is cached.
abbrev store : Store table_server database
store = record {
  redis = (user_key jwt_user_redis_prefix 9, codes "x") ∷ [];
  menus = menu ∷ [];
  roles = record { id = 3; columns = role_param } ∷ [];
  scopes = [];
  rules = [];
  pairs = no_pairs;
}

abbrev empty_store : Store table_server database
empty_store = record {
  redis = [];
  menus = [];
  roles = [];
  scopes = [];
  rules = [];
  pairs = no_pairs;
}

-- A menu, one below it, a role and a grant; then the lower menu gets a new title, in a request that does not
-- set its parent.
abbrev with_menu : Store table_server database
with_menu = (create_menu table_server database menu_param empty_store).1

abbrev lower_param : MenuParam
lower_param = record menu_param { title = codes "u"; parent_id = some 1 }

abbrev with_menus : Store table_server database
with_menus = (create_menu table_server database lower_param with_menu).1

abbrev with_role : Store table_server database
with_role = (create_role table_server database role_param with_menus).1

abbrev with_grant : Store table_server database
with_grant = (update_role_menu table_server database 1 (2 ∷ []) with_role).1

abbrev retitled_param : MenuParam
retitled_param = record menu_param { title = codes "v" }

abbrev retitled : Store table_server database
retitled = (update_menu table_server database 2 [] retitled_param with_grant).1

retitled_rows :
    (retitled.menus
      ≡ record { id = 2; columns = record lower_param { title = codes "v" } }
        ∷ record { id = 1; columns = menu_param }
        ∷ [])
    × (retitled.roles ≡ record { id = 1; columns = role_param } ∷ [])
    × (retitled.pairs.role_menu ≡ (1, 2) ∷ [])
unfolding create_menu create_role update_role_menu update_menu
retitled_rows = (refl, refl, refl)

administration-IsValid_example : IsValid table_server database retitled
administration-IsValid_example = administration-IsValid table_server database retitled (
    step with_grant _
      (step with_role _
        (step with_menus _
          (step with_menu _
            (step empty_store _ (start empty_store refl refl refl refl refl)
              (create_menu_step menu_param empty_store))
            (create_menu_step lower_param with_menu))
          (create_role_step role_param with_menus))
        (role_menu_step 1 (2 ∷ []) with_role))
      (update_menu_step 2 [] retitled_param with_grant))

abbrev granted : Store table_server database
granted = (update_role_menu table_server database 3 (5 ∷ []) store).1

granted_result : (update_role_menu table_server database 3 (5 ∷ []) store) ≡ (ok tt, granted)
unfolding update_role_menu
granted_result = refl

update_role_menu_lem_example :
    ((role menu : ℕ)
      → In (role, menu) granted.pairs.role_menu
        ↔ (((role ≡ 3) × In menu (5 ∷ [])) ⊎ ((role ≢ 3) × In (role, menu) no_pairs.role_menu)))
    × ((user : ℕ)
        → In (user, 3) no_pairs.user_role
        → table_server.get granted.redis (user_key jwt_user_redis_prefix user) ≡ none)
update_role_menu_lem_example =
    update_role_menu_lem table_server database 3 (5 ∷ []) store granted granted_result

delete_menu-redis_example : (delete_menu table_server database 5 store).1.redis ≡ store.redis
delete_menu-redis_example = delete_menu-redis table_server database 5 store

get_sidebar_lem_example :
    In menu (get_sidebar table_server database false ([] ∷ []) store)
    ↔ (Candidate table_server database store menu × (Held 5 ([] ∷ []) ⊎ (menu_ids ([] ∷ []) ≡ [])))
get_sidebar_lem_example = get_sidebar_lem table_server database store [] [] menu
