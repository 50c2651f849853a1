-- ===== src/Auth.antt =====
-- `AuthService` of backend/app/admin/service/auth_service.py: login, refresh and logout over the lock,
-- the settings and the token store. The tables of users are given by the rows that they return; the
-- login log and the time of the last login are not kept.
pub mod Login
pub mod Logout
pub mod Codes
use fbapy.Base.{
  ℕ, ◌≡◌, Bool, true, false, not, ◌&&◌, Option, none, some, List, [], ◌∷◌, ◌++◌, ◌==◌, is_empty,
  if◌then◌else◌,
}
use fbapy.Base.Text.{Text, text_eq, str}
use fbapy.Base.Exec.{
  Result, ok, err, Exec, Error, request_error, forbidden_error, not_found_error,
  authorization_error, captcha_error, token_error, pure, raise, gets, lift, modify, or_raise,
  raise_if, ◌>>=◌, ◌>>◌,
}
use fbapy.Conf.{
  Settings, login_captcha_redis_prefix, token_redis_prefix, token_extra_info_redis_prefix,
  token_refresh_redis_prefix,
}
use fbapy.DynamicConfig.{Rows, load_login_config}
use fbapy.Redis.{Server, get_prefix}
use fbapy.Token.{
  Jose, AccessToken, RefreshToken, NewToken, TokenPayload, jwt_decode, user_key, session_key,
  create_access_token, create_refresh_token, create_new_token,
}
use fbapy.Identity.{is_filled}
use fbapy.Lockout.{
  TimeFormat, World, on_redis, on_settings, check_status, handle_login_failure,
  handle_login_success, check_password_expiry_status,
}

-- The columns of a user that a login reads.
pub record Account : Type 0 where
  pub id : ℕ
  pub username : Text
  pub password : Option Text
  pub status : ℕ
  pub is_multi_login : Bool
  pub last_password_changed_time : Option ℕ

-- `password_verify` of the library `pwdlib`, and `str.lower`.
pub record Library : Type 0 where
  pub password_verify : Text → Text → Bool
  pub lower : Text → Text

pub record LoginParam : Type 0 where
  pub password : Text
  pub uuid : Option Text
  pub captcha : Option Text

-- The reply of a login and the cookie that it sets.
pub record LoginToken : Type 0 where
  pub access : AccessToken
  pub password_expire_days_remaining : Option ℕ
  pub user : Account
  pub cookie : RefreshToken

module _ (r : Server) (f : TimeFormat) (j : Jose) (l : Library) where
  open r use {State, get, delete}

  -- `user.password is not None and password_verify(password, user.password)`
  abbrev pub password_matches : Text → Option Text → Bool
  password_matches password none = false
  password_matches password (some hashed) = l.password_verify password hashed

  -- A wrong password is counted before the call ends.
  pub password_check : Option Rows → ℕ → Text → Account → Exec (World r) (Unit {0})
  password_check configs now password user =
      if password_matches password user.password
      then pure tt
      else (do handle_login_failure r f configs now user.id; raise (authorization_error "用户名或密码有误"))

  pub verify_account : Option Rows → ℕ → Text → Account → Exec (World r) (Account × Option ℕ)
  verify_account configs now password user = do
    on_redis r f (check_status r f now user.id user.status)
    password_check configs now password user
    days_remaining ← check_password_expiry_status r f configs now user.last_password_changed_time
    on_redis r f (handle_login_success r f user.id)
    pure (user, days_remaining)

  -- The row is what `user_dao.get_by_username` finds.
  unfoldable pub user_verify :
      Option Rows → ℕ → Text → Option Account → Exec (World r) (Account × Option ℕ)
  user_verify configs now password none = raise (not_found_error "用户名或密码有误")
  user_verify configs now password (some user) = verify_account configs now password user

  -- `f'{LOGIN_CAPTCHA_REDIS_PREFIX}:{uuid}'`
  abbrev pub captcha_key : Text → Text
  captcha_key uuid = login_captcha_redis_prefix ++ 58 ∷ uuid

  captcha_compare : Text → Text → Option Text → Exec State (Unit {0})
  captcha_compare uuid captcha (some (c ∷ code)) =
      if text_eq (l.lower (c ∷ code)) (l.lower captcha)
      then modify (delete (captcha_key uuid))
      else raise captcha_error
  captcha_compare uuid captcha _ = raise (request_error "error.captcha.expired")

  pub captcha_check : Option Text → Option Text → Exec State (Unit {0})
  captcha_check (some (u ∷ uuid)) (some (c ∷ captcha)) = do
    captcha_code ← gets (λ s. get s (captcha_key (u ∷ uuid)))
    captcha_compare (u ∷ uuid) (c ∷ captcha) captcha_code
  captcha_check _ _ = raise (request_error "error.captcha.invalid")

  login_captcha : Bool → LoginParam → Exec (World r) (Unit {0})
  login_captcha enabled obj =
      if enabled then on_redis r f (captcha_check obj.uuid obj.captcha) else pure tt

  -- The body of the `try`; `session_uuid` is drawn and `extra` is dumped by `create_access_token`.
  pub login_steps :
      Option Rows
      → Option Rows
      → ℕ
      → Text
      → Text
      → LoginParam
      → Option Account
      → Exec (World r) LoginToken
  login_steps configs login_configs now session_uuid extra obj row = do
    (user, days_remaining) ← user_verify configs now obj.password row
    on_settings r f (load_login_config login_configs)
    settings ← gets (λ w. w.settings)
    login_captcha settings.login_captcha_enabled obj
    access ←
        on_redis r f
          (create_access_token r j now session_uuid user.id user.is_multi_login (some extra))
    refresh ←
        on_redis r f (create_refresh_token r j now access.session_uuid user.id user.is_multi_login)
    pure (record {
      access = access;
      password_expire_days_remaining = days_remaining;
      user = user;
      cookie = refresh;
    })

  -- A wrong captcha leaves as a `RequestError`; the other exceptions leave as they are.
  abbrev pub login_error : {A : Type 0} → Result A → Result A
  login_error (ok a) = ok a
  login_error (err captcha_error) = err (request_error "CAPTCHA_ERROR")
  login_error (err e) = err e

  unfoldable pub login :
      Option Rows
      → Option Rows
      → ℕ
      → Text
      → Text
      → LoginParam
      → Option Account
      → Exec (World r) LoginToken
  login configs login_configs now session_uuid extra obj row w =
      let (result, w') = login_steps configs login_configs now session_uuid extra obj row w in
      (login_error result, w')

  -- `user_dao.get` is the first argument. The prefix of the session keys ends in a colon.
  unfoldable pub refresh_token :
      (ℕ → Option Account) → ℕ → Text → Text → Option Text → Exec State NewToken
  refresh_token select_user now new_uuid extra none =
      raise (request_error "Refresh Token 已过期，请重新登录")
  refresh_token select_user now new_uuid extra (some []) =
      raise (request_error "Refresh Token 已过期，请重新登录")
  refresh_token select_user now new_uuid extra (some (c ∷ cookie)) = do
    token_payload ← lift (jwt_decode j now (c ∷ cookie))
    user ← or_raise (select_user token_payload.id) (not_found_error "用户不存在")
    raise_if (user.status == 0) (authorization_error "用户已被锁定, 请联系统管理员")
    sessions ← gets (get_prefix r (user_key token_redis_prefix user.id ++ 58 ∷ []))
    raise_if (not user.is_multi_login && not (is_empty sessions))
        (forbidden_error "此用户已在异地登录，请重新登录并及时修改密码")
    create_new_token r j now new_uuid (c ∷ cookie) token_payload.session_uuid user.id
        user.is_multi_login (some extra)

  pub drop_session : Text → TokenPayload → Option Text → State → State
  drop_session token p cookie s =
      let s' =
        delete (session_key token_extra_info_redis_prefix p.id p.session_uuid)
          (delete (session_key token_redis_prefix p.id p.session_uuid) s) in
      elim cookie [
        | none ↦ s'
        | some [] ↦ s'
        | some (c ∷ refresh) ↦ delete (session_key token_refresh_redis_prefix p.id (c ∷ refresh)) s'
      ]

  -- A token error ends the call before the keys are deleted.
  pub logout_steps : Result TokenPayload → Text → Option Text → Exec State (Unit {0})
  logout_steps (ok p) token cookie s = (ok tt, drop_session token p cookie s)
  logout_steps (err (token_error m)) token cookie s = (ok tt, s)
  logout_steps (err e) token cookie s = (err e, s)

  -- `token` is what `get_token` found in the header.
  unfoldable pub logout : ℕ → Result Text → Option Text → Exec State (Unit {0})
  logout now (ok token) cookie s = logout_steps (jwt_decode j now token) token cookie s
  logout now (err (token_error m)) cookie s = (ok tt, s)
  logout now (err e) cookie s = (err e, s)
