-- ===== src/Rbac.antt =====
-- `rbac_verify` of backend/common/security/rbac.py. The patterns of the white list and the plugin
-- `casbin_rbac` are parameters.
pub mod Grants
use fbapy.Base.{
  ℕ, ◌≡◌, Bool, true, false, not, ◌&&◌, ◌||◌, Option, none, some, List, [], ◌∷◌, ◌++◌, ◌==◌,
  if◌then◌else◌, any, all, is_empty, ltb, length,
}
use fbapy.Base.Text.{Text, text_eq, codes, split_on}
use fbapy.Base.Exec.{Result, ok, err, token_error, authorization_error, server_error}

pub record Menu : Type 0 where
  pub id : ℕ
  pub perms : Option Text
  pub status : ℕ

pub record Role : Type 0 where
  pub status : ℕ
  pub menus : List Menu

pub record RequestUser : Type 0 where
  pub is_superuser : Bool
  pub is_staff : Bool
  pub roles : List Role

pub record Request : Type 0 where
  pub path : Text
  pub method : Text
  pub scopes : List Text
  pub user : RequestUser
  -- `ctx.permission`
  pub permission : Option Text

-- The settings that are read; `casbin_verify` is `none` where the plugin is missing.
pub record RbacSettings : Type 0 where
  pub token_request_path_exclude : List Text
  pub token_request_path_exclude_pattern : List (Text → Bool)
  pub rbac_role_menu_mode : Bool
  pub rbac_role_menu_exclude : List Text
  pub casbin_verify : Option (Request → Result (Unit {0}))

-- `x in xs`
abbrev pub contains : List Text → Text → Bool
contains xs x = any (text_eq x) xs

-- `unique_menus[menu.id] = menu`: a known key keeps its place and takes the new value.
unfoldable pub put : Menu → List Menu → List Menu
put menu [] = menu ∷ []
put menu (m ∷ ms) = let rest = put menu ms in if m.id == menu.id then menu ∷ ms else m ∷ rest

unfoldable pub put_all : List Menu → List Menu → List Menu
put_all [] dict = dict
put_all (menu ∷ menus) dict = put_all menus (put menu dict)

unfoldable pub unique_menus : List Role → List Menu → List Menu
unique_menus [] dict = dict
unique_menus (role ∷ roles) dict = unique_menus roles (put_all role.menus dict)

-- `if menu.perms and menu.status == StatusType.enable: allow_perms.extend(menu.perms.split(','))`
abbrev pub menu_perms : Menu → List Text
menu_perms menu = elim menu.perms [
  | none ↦ []
  | some [] ↦ []
  | some (c ∷ t) ↦ if menu.status == 1 then split_on 44 (c ∷ t) else []
]

unfoldable pub allow_perms : List Menu → List Text
allow_perms [] = []
allow_perms (menu ∷ menus) = menu_perms menu ++ allow_perms menus

unfoldable pub permission_check : RbacSettings → List Role → Option Text → Result (Unit {0})
permission_check settings roles (some (c ∷ perm)) =
    if contains settings.rbac_role_menu_exclude (c ∷ perm)
    then ok tt
    else if contains (allow_perms (unique_menus roles [])) (c ∷ perm)
    then ok tt
    else err (authorization_error "Permission Denied")
permission_check settings roles _ = ok tt

abbrev pub menu_check : RbacSettings → Request → Result (Unit {0})
menu_check settings request = permission_check settings request.user.roles request.permission

pub plugin_check : RbacSettings → Request → Result (Unit {0})
plugin_check settings request = elim settings.casbin_verify [
  | none ↦ err (server_error "权限校验失败，请联系系统管理员")
  | some verify ↦ verify request
]

-- `all(status == 0 for status in user_roles)` compares the roles themselves with zero, which no
-- role equals.
abbrev pub role_is_zero : Role → Bool
role_is_zero role = false

unfoldable pub user_check : RbacSettings → Request → Result (Unit {0})
user_check settings request =
    let user_roles = request.user.roles in
    if is_empty user_roles || all role_is_zero user_roles
    then err (authorization_error "用户未分配角色，请联系系统管理员")
    else if not (any (λ (role : Role). ltb 0 (length role.menus)) user_roles)
    then err (authorization_error "用户未分配菜单，请联系系统管理员")
    else if (not (text_eq request.method (codes "GET"))
          || not (text_eq request.method (codes "OPTIONS")))
        && not request.user.is_staff
    then err (authorization_error "用户已被禁止后台管理操作，请联系系统管理员")
    else if settings.rbac_role_menu_mode
    then menu_check settings request
    else plugin_check settings request

abbrev pub is_excluded : RbacSettings → Text → Bool
is_excluded settings path =
    contains settings.token_request_path_exclude path
    || any (λ matches. matches path) settings.token_request_path_exclude_pattern

unfoldable pub rbac_verify : RbacSettings → Request → Result (Unit {0})
rbac_verify settings request =
    if is_excluded settings request.path
    then ok tt
    else if is_empty request.scopes
    then err (token_error "Not Authenticated")
    else if request.user.is_superuser
    then ok tt
    else user_check settings request
