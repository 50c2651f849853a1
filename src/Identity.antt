-- ===== src/Identity.antt =====
-- Who a request comes from: `get_token`, `get_current_user`, `jwt_authentication` and
-- `superuser_verify` of backend/common/security/jwt.py. The tables behind `user_dao`, and the
-- serialisation of the cached users, are parameters.
pub mod Active
pub mod Accept
use fbapy.Base.{
  ℕ, ◌+◌, ◌≡◌, leb, Bool, true, false, not, ◌&&◌, ◌||◌, Option, none, some, List, [], ◌∷◌, ◌++◌,
  ◌==◌, if◌then◌else◌, all, map,
}
use fbapy.Base.Text.{Text, text_eq, codes, str}
use fbapy.Base.Exec.{
  Result, ok, err, Exec, Error, token_error, authorization_error, type_error, pure, raise, gets,
  lift, or_raise, modify, raise_if, ◌>>=◌, ◌>>◌,
}
use fbapy.Conf.{
  token_expire_seconds, token_redis_prefix, token_extra_info_redis_prefix, jwt_user_redis_prefix,
}
use fbapy.Redis.{Server}
use fbapy.Token.{Jose, TokenPayload, jwt_decode, user_key, session_key}

pub record Role : Type 0 where
  pub status : ℕ

pub record UserDept : Type 0 where
  pub status : ℕ
  pub del_flag : Bool

-- The row of an administrator with the joined department and roles.
pub record User : Type 0 where
  pub id : ℕ
  pub status : ℕ
  pub is_superuser : Bool
  pub is_staff : Bool
  pub dept_id : Option ℕ
  pub dept : Option UserDept
  pub roles : List Role

-- `if user.dept_id:` holds for a number other than zero.
abbrev pub truthy : Option ℕ → Bool
truthy none = false
truthy (some n) = not (n == 0)

dept_check : Option UserDept → Result (Unit {0})
dept_check none = err type_error
dept_check (some dept) =
    if dept.status == 0
    then err (authorization_error "用户所属部门已被锁定，请联系系统管理员")
    else if dept.del_flag
    then err (authorization_error "用户所属部门已被删除，请联系系统管理员")
    else ok tt

-- `if user.roles:` and `all(status == 0 …)`
roles_check : List Role → Result (Unit {0})
roles_check [] = ok tt
roles_check (role ∷ roles) =
    if all (λ (status : ℕ). status == 0) (map (λ (x : Role). x.status) (role ∷ roles))
    then err (authorization_error "用户所属角色已被锁定，请联系系统管理员")
    else ok tt

infixl 5 ◌then_check◌
abbrev ◌then_check◌ : {A : Type 0} → Result (Unit {0}) → Result A → Result A
ok _ then_check m = m
err e then_check m = err e

user_check : User → Result User
unfolding dept_check roles_check
user_check user =
    if user.status == 0
    then err (authorization_error "用户已被锁定，请联系系统管理员")
    else (if truthy user.dept_id then dept_check user.dept else ok tt)
      then_check roles_check user.roles
      then_check ok user

-- `if text:` holds for a text that is there and not empty.
abbrev pub is_filled : Option Text → Bool
is_filled (some (c ∷ t)) = true
is_filled _ = false

-- The argument is the row that `user_dao.get_join` finds.
unfoldable pub get_current_user : Option User → Result User
unfolding user_check
get_current_user none = err (token_error "Token 无效")
get_current_user (some user) = user_check user

-- `superuser_verify`: the flag, if the user is a superuser and a member of the staff.
unfoldable pub superuser_verify : User → Result Bool
superuser_verify user =
    if not user.is_superuser || not user.is_staff
    then err (authorization_error "")
    else ok user.is_superuser

-- `str.lower` on ASCII. No other character becomes a letter of "bearer".
abbrev lower : ℕ → ℕ
lower c = if leb 65 c && leb c 90 then c + 32 else c

-- `split` is `get_authorization_scheme_param`: the scheme of the header, and its parameter.
unfoldable pub get_token : (Option Text → Text × Text) → Option Text → Result Text
get_token split authorization =
    let (scheme, token) = split authorization in
    if not (is_filled authorization) || not (text_eq (map lower scheme) (codes "bearer"))
    then err (token_error "Token 无效")
    else ok token

pub record DomainUser : Type 0 where
  pub id : ℕ

pub data Identity : Type 0 where
  test_user : Identity
  admin : User → Identity
  domain : DomainUser → Identity

-- What `jwt_authentication` uses of other code: the rows that the two `user_dao` find, and the JSON
-- of the extra information and of the cached users.
pub record Directory : Type 0 where
  pub select_user : ℕ → Option User
  pub select_domain_user : ℕ → Option DomainUser
  pub is_domain : Text → Bool
  pub dump_user : User → Text
  pub load_user : Text → User
  pub dump_domain_user : DomainUser → Text
  pub load_domain_user : Text → DomainUser
  pub load-dump_user : (u : User) → load_user (dump_user u) ≡ u
  pub load-dump_domain_user : (u : DomainUser) → load_domain_user (dump_domain_user u) ≡ u

-- The token that is accepted without being decoded.
abbrev pub test_token : Text
test_token = codes "jiqid_001"

-- `f'{JWT_USER_REDIS_PREFIX}:domain:{user_id}'`
abbrev pub domain_user_key : ℕ → Text
domain_user_key user_id = jwt_user_redis_prefix ++ codes ":domain:" ++ str user_id

module _ (r : Server) (j : Jose) (d : Directory) where
  open r use {State, get, setex}

  unfoldable pub stored_check : Text → Option Text → Result (Unit {0})
  stored_check token none = err (token_error "Token 已过期")
  stored_check token (some []) = err (token_error "Token 已过期")
  stored_check token (some (c ∷ stored)) =
      if text_eq token (c ∷ stored) then ok tt else err (token_error "Token 已失效")

  pub fetch_admin : ℕ → Exec State Identity
  fetch_admin user_id = do
    user ← lift (get_current_user (d.select_user user_id))
    modify (setex (user_key jwt_user_redis_prefix user_id) token_expire_seconds (d.dump_user user))
    pure (admin user)

  unfoldable pub admin_identity : ℕ → Option Text → Exec State Identity
  admin_identity user_id (some (c ∷ cached)) = pure (admin (d.load_user (c ∷ cached)))
  admin_identity user_id _ = fetch_admin user_id

  pub fetch_domain : ℕ → Exec State Identity
  fetch_domain user_id = do
    user ← or_raise (d.select_domain_user user_id) (token_error "Token 无效")
    modify (setex (domain_user_key user_id) token_expire_seconds (d.dump_domain_user user))
    pure (domain user)

  pub domain_identity : ℕ → Option Text → Exec State Identity
  domain_identity user_id (some (c ∷ cached)) = pure (domain (d.load_domain_user (c ∷ cached)))
  domain_identity user_id _ = fetch_domain user_id

  unfoldable pub identify : ℕ → Text → Exec State Identity
  identify user_id extra_info =
      if d.is_domain extra_info
      then (do cached ← gets (λ s. get s (domain_user_key user_id)); domain_identity user_id cached)
      else (do
        cached ← gets (λ s. get s (user_key jwt_user_redis_prefix user_id))
        admin_identity user_id cached)

  unfoldable pub session_identity : Text → TokenPayload → Exec State Identity
  session_identity token p = do
    stored ← gets (λ s. get s (session_key token_redis_prefix p.id p.session_uuid))
    lift (stored_check token stored)
    extra ← gets (λ s. get s (session_key token_extra_info_redis_prefix p.id p.session_uuid))
    extra_info ← or_raise extra type_error
    identify p.id extra_info

  unfoldable pub jwt_authentication : ℕ → Text → Exec State Identity
  jwt_authentication now token =
      if text_eq token test_token
      then pure test_user
      else (do p ← lift (jwt_decode j now token); session_identity token p)
