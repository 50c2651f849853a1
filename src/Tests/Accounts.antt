-- ===== src/Tests/Accounts.antt =====
-- Tests of the users' service.
use fbapy.Base.{ℕ, ◌≡◌, refl, true, false, none, [], ◌∷◌, ◌↔◌, ◌⊎◌, ◌≢◌, In}
use fbapy.Base.Text.{codes}
use fbapy.Base.Exec.{ok}
use fbapy.Conf.{jwt_user_redis_prefix}
use fbapy.Redis.Table.{table_server}
use fbapy.Token.{user_key}
use fbapy.Table.Rows.{list_table}
use fbapy.Dept.{Dept, dept_id}
use fbapy.Admin.{Keyed, key_of, MenuParam, RoleParam, ScopeParam, RuleParam, Database}
use fbapy.Accounts.{
  Account, account_id, AddUserParam, UpdateUserParam, Store, insert_roles, create, update, start,
  step, create_step,
}
use fbapy.Accounts.Steps.{IsSound, accounts-IsSound}
use fbapy.Accounts.Roles.{update_roles}

abbrev database : Database
database = record {
  menu_table = list_table (key_of {C = MenuParam});
  role_table = list_table (key_of {C = RoleParam});
  scope_table = list_table (key_of {C = ScopeParam});
  rule_table = list_table (key_of {C = RuleParam});
  insert_no_rows = ok tt;
}

abbrev account : Account
account = record {
  id = 4;
  username = codes "a";
  nickname = codes "b";
  password = none;
  email = none;
  phone = none;
  avatar = none;
  status = 1;
  is_superuser = false;
  is_staff = false;
  is_multi_login = false;
  dept = none;
}

abbrev some_role : ℕ → Keyed RoleParam
some_role i = record {
  id = i;
  columns = record { name = codes "r"; status = 1; is_filter_scopes = true; remark = none };
}

abbrev accounts_before : Store table_server database (list_table dept_id) (list_table account_id)
accounts_before = record {
  redis = (user_key jwt_user_redis_prefix 4, codes "{}") ∷ [];
  accounts = account ∷ [];
  departments = [];
  roles = some_role 7 ∷ some_role 8 ∷ [];
  user_role = (4, 7) ∷ (5, 7) ∷ [];
}

abbrev change : UpdateUserParam
change = record {
  dept = none;
  username = codes "c";
  nickname = codes "b";
  avatar = none;
  email = none;
  phone = none;
  roles = 8 ∷ [];
}

abbrev accounts_after : Store table_server database (list_table dept_id) (list_table account_id)
accounts_after =
    (update table_server database (list_table dept_id) (list_table account_id) 4
      (codes "email" ∷ []) change accounts_before).1

update_result :
    update table_server database
      (list_table dept_id)
      (list_table account_id)
      4
      (codes "email" ∷ [])
      change
      accounts_before
    ≡ (ok tt, accounts_after)
unfolding update insert_roles
update_result = refl

update_roles_example :
    ((user role : ℕ)
      → In (user, role) accounts_after.user_role ↔ (
          ((user ≡ 4) × In role (8 ∷ []))
          ⊎ ((user ≢ 4) × In {A = ℕ × ℕ} (user, role) ((4, 7) ∷ (5, 7) ∷ []))))
    × (table_server.get accounts_after.redis (user_key jwt_user_redis_prefix 4) ≡ none)
update_roles_example =
    update_roles table_server database (list_table dept_id) (list_table account_id) 4
      (codes "email" ∷ []) change accounts_before accounts_after update_result

abbrev live_dept : Dept
live_dept = record {
  id = 2;
  name = codes "d";
  sort = 0;
  leader = none;
  phone = none;
  email = none;
  status = 1;
  del_flag = false;
  parent_id = none;
}

abbrev no_accounts : Store table_server database (list_table dept_id) (list_table account_id)
no_accounts = record accounts_before { accounts = []; departments = live_dept ∷ []; user_role = [] }

abbrev new_user : AddUserParam
new_user = record {
  username = codes "a";
  password = codes "p";
  nickname = none;
  email = none;
  phone = none;
  dept = 2;
  roles = 7 ∷ [];
}

accounts-IsSound_example :
    IsSound table_server database
      (list_table dept_id)
      (list_table account_id)
      (create table_server database
        (list_table dept_id)
        (list_table account_id)
        (λ t. t)
        90000
        new_user
        no_accounts).1
accounts-IsSound_example =
    accounts-IsSound table_server database (list_table dept_id) (list_table account_id)
      (create table_server database (list_table dept_id) (list_table account_id) (λ t. t) 90000
        new_user no_accounts).1
      (step no_accounts _ (start no_accounts refl refl)
        (create_step (λ t. t) 90000 new_user no_accounts))

-- The new user is written, with the role.
created_role :
    (create table_server database
      (list_table dept_id)
      (list_table account_id)
      (λ t. t)
      90000
      new_user
      no_accounts).1.user_role
    ≡ (1, 7) ∷ []
unfolding create insert_roles
created_role = refl
