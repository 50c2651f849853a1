-- ===== src/Accounts.antt =====
-- `UserService.create` and `update` of backend/app/admin/service/user_service.py over `user_dao`
-- (backend/app/admin/crud/crud_user.py), with the tables of the users, the departments and the roles.
pub mod Roles
pub mod Valid
pub mod Steps
use fbapy.Base.{
  ℕ, ◌≡◌, Bool, true, false, not, ◌&&◌, Option, none, some, List, [], ◌∷◌, ◌++◌, ◌==◌, all,
  is_empty, keep, map, if◌then◌else◌,
}
use fbapy.Base.Text.{Text, text_eq, codes, str}
use fbapy.Base.Exec.{
  Exec, request_error, not_found_error, conflict_error, lift, modify, raise_if, or_raise, ◌>>=◌,
  ◌>>◌,
}
use fbapy.Conf.{jwt_user_redis_prefix}
use fbapy.Redis.{Server}
use fbapy.Token.{user_key}
use fbapy.Table.{sent, Table, found}
use fbapy.UserCache.{Pairs, contains}
use fbapy.Dept.{Dept, dept_id, live_key}
use fbapy.Admin.{Keyed, RoleParam, Database, is_key, without_left, pairs_of}

-- The columns of `sys_user`, without its times and its salt
pub record Account : Type 0 where
  pub id : ℕ
  pub username : Text
  pub nickname : Text
  pub password : Option Text
  pub email : Option Text
  pub phone : Option Text
  pub avatar : Option Text
  pub status : ℕ
  pub is_superuser : Bool
  pub is_staff : Bool
  pub is_multi_login : Bool
  pub dept : Option ℕ

abbrev pub account_id : Account → ℕ
account_id a = a.id

pub record AddUserParam : Type 0 where
  pub username : Text
  pub password : Text
  pub nickname : Option Text
  pub email : Option Text
  pub phone : Option Text
  pub dept : ℕ
  pub roles : List ℕ

pub record UpdateUserParam : Type 0 where
  pub dept : Option ℕ
  pub username : Text
  pub nickname : Text
  pub avatar : Option Text
  pub email : Option Text
  pub phone : Option Text
  pub roles : List ℕ

-- `obj.nickname or f'#{random.randrange(88888, 99999)}'`
abbrev pub nickname_or : Option Text → ℕ → Text
nickname_or none random = codes "#" ++ str random
nickname_or (some []) random = codes "#" ++ str random
nickname_or (some (c ∷ t)) random = c ∷ t

-- The row of a new user, with the hash of the password, and what an update makes of a row.
abbrev pub new_account : AddUserParam → Text → ℕ → ℕ → Account
new_account obj hashed random id = record {
  id = id;
  username = obj.username;
  nickname = nickname_or obj.nickname random;
  password = some hashed;
  email = obj.email;
  phone = obj.phone;
  avatar = none;
  status = 1;
  is_superuser = false;
  is_staff = false;
  is_multi_login = false;
  dept = some obj.dept;
}

abbrev pub updated : List Text → UpdateUserParam → Account → Account
updated fields_set obj a = record a {
  dept = sent fields_set (codes "dept_id") obj.dept a.dept;
  username = obj.username;
  nickname = obj.nickname;
  avatar = sent fields_set (codes "avatar") obj.avatar a.avatar;
  email = sent fields_set (codes "email") obj.email a.email;
  phone = sent fields_set (codes "phone") obj.phone a.phone;
}

abbrev pub has_username : Text → Account → Bool
has_username username a = text_eq a.username username

abbrev pub has_id : ℕ → Account → Bool
has_id pk a = a.id == pk

abbrev pub same_dept : ℕ → Option ℕ → Bool
same_dept p none = false
same_dept p (some q) = p == q

module _ (r : Server) (d : Database) (depts : Table Dept dept_id)
    (users : Table Account account_id) where
  pub record Store : Type 0 where
    pub redis : r.State
    pub accounts : users.State
    pub departments : depts.State
    pub roles : d.role_table.State
    pub user_role : Pairs

  abbrev pub get_user : (Account → Bool) → Store → Option Account
  get_user p w = users.first p w.accounts

  abbrev pub dept_missing : ℕ → Store → Bool
  dept_missing p w = not (found (depts.first (live_key p) w.departments))

  -- `if not await role_dao.get(db, role_id)` for one of the roles
  abbrev pub role_missing : List ℕ → Store → Bool
  role_missing ids w = not (all (λ (id : ℕ). found (d.role_table.first (is_key id) w.roles)) ids)

  -- `select(Role).where(Role.id.in_(ids))`
  abbrev pub selected : List ℕ → Store → List ℕ
  selected ids w =
      map (λ (row : Keyed RoleParam). row.id)
        (keep (λ (row : Keyed RoleParam). contains ids row.id) (d.role_table.rows w.roles))

  -- The INSERT of the roles of a user
  unfoldable pub insert_roles : ℕ → List ℕ → Exec Store (Unit {0})
  insert_roles user_id [] = lift d.insert_no_rows
  insert_roles user_id (id ∷ ids) =
      modify (λ w. record w { user_role = w.user_role ++ pairs_of user_id (id ∷ ids) })

  unfoldable pub create : (Text → Text) → ℕ → AddUserParam → Exec Store (Unit {0})
  create get_hash_password random obj w =
      (do
        raise_if (found (get_user (has_username obj.username) w)) (conflict_error "用户名已注册")
        raise_if (is_empty obj.password) (request_error "密码不允许为空")
        raise_if (dept_missing obj.dept w) (not_found_error "部门不存在")
        raise_if (role_missing obj.roles w) (not_found_error "角色不存在")
        modify (λ s. record s {
          accounts =
              users.insert (new_account obj (get_hash_password obj.password) random) s.accounts;
        })
        insert_roles (users.key w.accounts) (selected obj.roles w))
        w

  -- A department that is 0, or that the user is in already, is not looked up.
  abbrev pub new_dept_missing : Option ℕ → Account → Store → Bool
  new_dept_missing none user w = false
  new_dept_missing (some p) user w =
      if p == 0 then false else not (same_dept p user.dept) && dept_missing p w

  -- The identifiers of users start at 1.
  unfoldable pub update : ℕ → List Text → UpdateUserParam → Exec Store (Unit {0})
  update pk fields_set obj w =
      (do
        user ← or_raise (get_user (has_id pk) w) (not_found_error "用户不存在")
        raise_if
            (not (text_eq obj.username user.username)
              && found (get_user (has_username obj.username) w))
            (conflict_error "用户名已注册")
        raise_if (new_dept_missing obj.dept user w) (not_found_error "部门不存在")
        raise_if (role_missing obj.roles w) (not_found_error "角色不存在")
        modify (λ s. record s {
          accounts = users.update (has_id user.id) (updated fields_set obj) s.accounts;
          user_role = without_left user.id s.user_role;
        })
        insert_roles user.id (selected obj.roles w)
        modify
            (λ s. record s { redis = r.delete (user_key jwt_user_redis_prefix user.id) s.redis }))
        w

  -- One call of these, or a change of Redis elsewhere.
  pub data Step : Store → Store → Type 0 where
    create_step :
        (get_hash_password : Text → Text) (random : ℕ) (obj : AddUserParam) (w : Store)
        → Step w (create get_hash_password random obj w).1
    update_step :
        (pk : ℕ) (fields_set : List Text) (obj : UpdateUserParam) (w : Store)
        → Step w (update pk fields_set obj w).1
    elsewhere_step : (redis : r.State) (w : Store) → Step w (record w { redis = redis })

  -- From a table without users.
  pub data Reachable : Store → Type 0 where
    start : (w : Store) → users.rows w.accounts ≡ [] → w.user_role ≡ [] → Reachable w
    step : (w v : Store) → Reachable w → Step w v → Reachable v
