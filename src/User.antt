-- ===== src/User.antt =====
-- `UserService` of backend/app/admin/service/user_service.py: the operations that change a user, the
-- password history and the sessions in Redis. `create` and `update`, which also read departments and
-- roles, are not here.
pub mod Sessions
pub mod Permission
use fbapy.Base.{
  ℕ, ◌≡◌, Bool, true, false, not, ◌&&◌, Option, none, some, List, [], ◌∷◌, ◌++◌, ◌==◌,
  if◌then◌else◌,
}
use fbapy.Base.Text.{Text, text_eq, codes, str}
use fbapy.Base.Exec.{
  value_error, Result, ok, err, Exec, request_error, forbidden_error, not_found_error,
  captcha_error, type_error, pure, raise, gets, lift, modify, or_raise, raise_if, ◌>>=◌, ◌>>◌,
}
use fbapy.Conf.{
  Settings, token_redis_prefix, token_refresh_redis_prefix, jwt_user_redis_prefix,
  email_captcha_redis_prefix,
}
use fbapy.DynamicConfig.{Rows, load_user_security_config}
use fbapy.Redis.{Server, delete_prefix}
use fbapy.Token.{Jose, TokenPayload, jwt_decode, user_key, session_key}
use fbapy.UserTable.{Member, HistoryRow, Tables}
use fbapy.Password.{Passwords, validate_rules}

-- Redis, the settings of the process, and the tables. The rows of a call that raises are rolled back
-- by its session, which is not part of a call.
pub record Store (r : Server) (t : Tables) : Type 0 where
  pub redis : r.State
  pub settings : Settings
  pub tables : t.State

pub data UserPermissionType : Type 0 where
  superuser staff status multi_login : UserPermissionType

pub record ResetPasswordParam : Type 0 where
  pub old_password : Text
  pub new_password : Text
  pub confirm_password : Text

-- What `bcrypt.gensalt` and `get_hash_password` make of a password, and whether the session writes
-- the values of an UPDATE into the rows that it has loaded.
pub record Hashing : Type 0 where
  pub hash : Text → Text
  pub synchronized : Bool

module _ (r : Server) (t : Tables) where
  abbrev pub on_redis : (r.State → r.State) → Exec (Store r t) (Unit {0})
  on_redis f w = (ok tt, record w { redis = f w.redis })

  abbrev pub on_tables : (t.State → t.State) → Exec (Store r t) (Unit {0})
  on_tables f w = (ok tt, record w { tables = f w.tables })

  abbrev pub on_settings : Exec Settings (Unit {0}) → Exec (Store r t) (Unit {0})
  on_settings m w = let (a, s) = m w.settings in (a, record w { settings = s })

  -- `user_dao.get(db, pk)`, and the error on a missing user
  abbrev pub get_user : ℕ → Exec (Store r t) Member
  get_user pk w = or_raise (t.get pk w.tables) (not_found_error "用户不存在") w

  -- `redis_client.delete(f'{settings.JWT_USER_REDIS_PREFIX}:{user_id}')`
  abbrev pub drop_cache : ℕ → Exec (Store r t) (Unit {0})
  drop_cache user_id = on_redis (r.delete (user_key jwt_user_redis_prefix user_id))

  unfoldable pub update_nickname : ℕ → Text → Exec (Store r t) (Unit {0})
  update_nickname user_id nickname = do
    on_tables (t.update_model user_id (λ m. record m { nickname = nickname }))
    drop_cache user_id

  unfoldable pub update_avatar : ℕ → Text → Exec (Store r t) (Unit {0})
  update_avatar user_id avatar = do
    on_tables (t.update_model user_id (λ m. record m { avatar = avatar }))
    drop_cache user_id

  -- `f'{settings.EMAIL_CAPTCHA_REDIS_PREFIX}:{ctx.ip}'`
  abbrev pub email_captcha_key : Text → Text
  email_captcha_key ip = email_captcha_redis_prefix ++ 58 ∷ ip

  pub email_captcha : Text → Option Text → Result (Unit {0})
  email_captcha captcha (some (c ∷ code)) =
      if text_eq captcha (c ∷ code) then ok tt else err captcha_error
  email_captcha captcha _ = err (request_error "验证码已失效，请重新获取")

  unfoldable pub update_email : Text → ℕ → Text → Text → Exec (Store r t) (Unit {0})
  update_email ip user_id captcha email = do
    code ← gets (λ w. r.get w.redis (email_captcha_key ip))
    lift (email_captcha captcha code)
    on_redis (r.delete (email_captcha_key ip))
    on_tables (t.update_model user_id (λ m. record m { email = email }))
    drop_cache user_id

  module _ (l : Passwords) (h : Hashing) where
    unfoldable pub validate_new_password : Option Rows → ℕ → Text → Exec (Store r t) (Unit {0})
    validate_new_password configs user_id new_password = do
      on_settings (load_user_security_config configs)
      settings ← gets (λ w. w.settings)
      history ← gets (λ w. t.get_by_user_id user_id w.tables)
      lift (validate_rules l settings history new_password)

    -- `user.password` after the UPDATE of `user_dao.reset_password`
    abbrev pub history_password : Text → Option Text → Option Text
    history_password new_password old = if h.synchronized then some (h.hash new_password) else old

    -- The three statements on the tables that both operations on a password make. Without a password to
    -- record, `CreateUserPasswordHistoryParam` raises a `ValidationError`, which is a `ValueError`.
    pub write_password : ℕ → ℕ → Text → Option Text → Exec (Store r t) (Unit {0})
    write_password now user_id new_password old = do
      on_tables (t.update_model user_id (λ m. record m { password = some (h.hash new_password) }))
      recorded ← or_raise (history_password new_password old) value_error
      on_tables (t.create_model (record { user_id = user_id; password = some recorded }))
      on_tables (t.update_model user_id (λ m. record m { last_password_changed_time = some now }))

    unfoldable pub reset_password : Option Rows → ℕ → ℕ → Text → Exec (Store r t) (Unit {0})
    reset_password configs now pk password = do
      user ← get_user pk
      validate_new_password configs pk password
      write_password now pk password user.password
      on_redis (r.delete (user_key token_redis_prefix pk))
      on_redis (r.delete (user_key token_refresh_redis_prefix pk))
      on_redis (r.delete (user_key jwt_user_redis_prefix pk))

    -- `if user.password and not password_verify(obj.old_password, user.password)`
    abbrev pub old_password_wrong : Text → Option Text → Bool
    old_password_wrong old (some (c ∷ hashed)) = not (l.password_verify old (c ∷ hashed))
    old_password_wrong old _ = false

    abbrev pub clear_prefix : Text → List Text → Exec (Store r t) (Unit {0})
    clear_prefix prefix exclude = on_redis (λ s. delete_prefix r prefix exclude 1000 s)

    -- A user that is not found is `None`, whose attributes raise an `AttributeError`.
    unfoldable pub update_password :
        Option Rows → ℕ → ℕ → ResetPasswordParam → Exec (Store r t) (Unit {0})
    update_password configs now user_id obj = do
      found ← gets (λ w. t.get user_id w.tables)
      user ← or_raise found type_error
      raise_if (old_password_wrong obj.old_password user.password) (request_error "原密码错误")
      raise_if (not (text_eq obj.new_password obj.confirm_password)) (request_error "两次密码输入不一致")
      validate_new_password configs user_id obj.new_password
      write_password now user_id obj.new_password user.password
      clear_prefix (user_key token_redis_prefix user_id) []
      clear_prefix (user_key token_refresh_redis_prefix user_id) []
      clear_prefix (user_key jwt_user_redis_prefix user_id) []

    unfoldable pub delete : ℕ → Exec (Store r t) (Unit {0})
    delete pk = do
      get_user pk
      on_tables (t.delete_model pk)
      clear_prefix (user_key token_redis_prefix pk) []
      clear_prefix (user_key token_refresh_redis_prefix pk) []

  module _ (j : Jose) where
    -- What all three flags have in common: the user is another one, and one column changes.
    pub change_other : ℕ → ℕ → (Member → Member) → Exec (Store r t) (Unit {0})
    change_other request_id pk f = do
      get_user pk
      raise_if (pk == request_id) (forbidden_error "禁止修改自身权限")
      on_tables (t.update_model pk f)
      drop_cache pk

    abbrev pub switch_super : Member → Member
    switch_super m = record m { is_superuser = not m.is_superuser }

    abbrev pub switch_staff : Member → Member
    switch_staff m = record m { is_staff = not m.is_staff }

    -- `0 if user.status == 1 else 1`
    abbrev pub switch_status : Member → Member
    switch_status m = record m { status = if m.status == 1 then 0 else 1 }

    -- The sessions of the user are cleared when the flag is switched off; `exclude` is used only for
    -- the session of the caller.
    pub clear_sessions : ℕ → Bool → List Text → Exec (Store r t) (Unit {0})
    clear_sessions pk new_multi_login exclude =
        if new_multi_login
        then pure tt
        else on_redis (λ s. delete_prefix r (user_key token_redis_prefix pk) exclude 1000 s)

    -- The column is set from the flag of the request's user, since `pk` is the `id` of the row.
    pub change_multi_login : ℕ → Member → Result Text → ℕ → Exec (Store r t) (Unit {0})
    change_multi_login now request_user token pk = do
      user ← get_user pk
      let multi_login = if pk == user.id then request_user.is_multi_login else user.is_multi_login
      let new_multi_login = not multi_login
      on_tables (t.update_model pk (λ m. record m { is_multi_login = new_multi_login }))
      found ← lift token
      token_payload ← lift (jwt_decode j now found)
      clear_sessions user.id new_multi_login (
          if pk == user.id
          then session_key token_redis_prefix user.id token_payload.session_uuid ∷ []
          else [])
      drop_cache user.id

    -- `token` is what `get_token` found in the header of the request.
    unfoldable pub update_permission :
        ℕ → Member → Result Text → ℕ → UserPermissionType → Exec (Store r t) (Unit {0})
    update_permission now request_user token pk superuser =
        change_other request_user.id pk switch_super
    update_permission now request_user token pk staff = change_other request_user.id pk switch_staff
    update_permission now request_user token pk status =
        change_other request_user.id pk switch_status
    update_permission now request_user token pk multi_login =
        change_multi_login now request_user token pk
