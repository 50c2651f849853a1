-- ===== src/Lockout.antt =====
-- backend/app/admin/service/user_password_history_service.py: the lock after failed logins, and the
-- expiry of passwords. Times are microseconds since 1970.
pub mod Threshold
pub mod Status
use fbapy.Base.{
  ℕ, ◌+◌, ◌-◌, ◌*◌, ◌/◌, ◌≡◌, ◌≢◌, Bool, true, false, not, Option, none, some, List, [], ◌∷◌, ◌==◌,
  ltb, leb, if◌then◌else◌,
}
use fbapy.Base.Int.{ℤ, pos, negsuc, ◌-ℤ◌, ltb_ℤ, leb_ℤ}
use fbapy.Base.Text.{Text, str}
use fbapy.Base.Numerals.{int_of}
use fbapy.Base.Exec.{
  Result, ok, err, Exec, Error, authorization_error, locked_error, value_error, pure, raise, gets,
  lift, or_raise, modify, raise_if, ◌>>=◌, ◌>>◌,
}
use fbapy.Conf.{Settings, user_lock_redis_prefix, login_failure_prefix}
use fbapy.DynamicConfig.{Rows, load_user_security_config}
use fbapy.Redis.{Server}
use fbapy.Token.{user_key}

abbrev pub second : ℕ
second = 1_000_000

abbrev pub day : ℕ
day = 24 * 60 * 60 * second

-- `timezone.to_str` and `from_str` with the format `%Y-%m-%d %H:%M:%S`, which keeps whole seconds.
pub record TimeFormat : Type 0 where
  pub to_str : ℕ → Text
  pub from_str : Text → ℕ
  pub from_str-to_str : (t : ℕ) → from_str (to_str t) ≡ t / second * second
  pub to_str-filled : (t : ℕ) → to_str t ≢ []

-- What a login reads and writes besides the tables: Redis and the settings of the process.
pub record World (r : Server) : Type 0 where
  pub redis : r.State
  pub settings : Settings

-- `math.ceil(seconds / 60)`
abbrev pub remaining_minutes : ℕ → ℕ
remaining_minutes duration = (duration + (60 * second - 1)) / (60 * second)

-- `timedelta.days`, rounded down, also below zero
abbrev pub days : ℤ → ℤ
days (pos n) = pos (n / day)
days (negsuc n) = negsuc (n / day)

module _ (r : Server) (f : TimeFormat) where
  open r use {State, get, set, delete}
  open f use {to_str, from_str}

  -- An action on Redis alone.
  abbrev pub on_redis : {A : Type 0} → Exec State A → Exec (World r) A
  on_redis m w = let (a, s) = m w.redis in (a, record w { redis = s })

  abbrev pub on_settings : {A : Type 0} → Exec Settings A → Exec (World r) A
  on_settings m w = let (a, s) = m w.settings in (a, record w { settings = s })

  abbrev pub lock_key : ℕ → Text
  lock_key user_id = user_key user_lock_redis_prefix user_id

  abbrev pub failure_key : ℕ → Text
  failure_key user_id = user_key login_failure_prefix user_id

  unfoldable pub handle_login_success : ℕ → Exec State (Unit {0})
  handle_login_success user_id = do
    modify (delete (lock_key user_id))
    modify (delete (failure_key user_id))

  -- The lock that Redis holds, against the clock.
  pub check_lock : ℕ → ℕ → Option Text → Exec State (Unit {0})
  check_lock user_id now (some (c ∷ stored)) =
      let locked_until = from_str (c ∷ stored) in
      if ltb now locked_until
      then raise (locked_error (remaining_minutes (locked_until - now)))
      else (do modify (delete (lock_key user_id)); modify (delete (failure_key user_id)))
  check_lock user_id now _ = pure tt

  unfoldable pub check_status : ℕ → ℕ → ℕ → Exec State (Unit {0})
  check_status now user_id user_status = do
    raise_if (user_status == 0) (authorization_error "用户已被锁定, 请联系统管理员")
    stored ← gets (λ s. get s (lock_key user_id))
    check_lock user_id now stored

  -- `int(failure_count) if failure_count else 0`
  unfoldable pub count_of : Option Text → Result ℕ
  count_of (some (c ∷ t)) = elim (int_of (c ∷ t)) [ none ↦ err value_error | some n ↦ ok n ]
  count_of _ = ok 0

  pub record_failure : Settings → ℕ → ℕ → Exec State (Unit {0})
  record_failure settings now user_id = do
    stored ← gets (λ s. get s (failure_key user_id))
    count ← lift (count_of stored)
    modify (set (failure_key user_id) (str (count + 1)))
    if leb settings.user_lock_threshold (count + 1)
        then (do
          modify (set (lock_key user_id) (to_str (now + settings.user_lock_seconds * second)))
          raise (authorization_error "登录失败次数过多，账号已被锁定"))
        else pure tt

  unfoldable pub handle_login_failure : Option Rows → ℕ → ℕ → Exec (World r) (Unit {0})
  handle_login_failure configs now user_id = do
    on_settings (load_user_security_config configs)
    settings ← gets (λ w. w.settings)
    if settings.user_lock_threshold == 0
        then pure tt
        else on_redis (record_failure settings now user_id)

  pub days_left : Settings → ℕ → Option ℕ → Result (Option ℕ)
  days_left settings now none = err (authorization_error "密码已过期，请修改密码后重新登录")
  days_left settings now (some changed) =
      let expiry_time = changed + settings.user_password_expiry_days * day in
      elim (days (pos expiry_time -ℤ pos now)) [
        | negsuc n ↦ err (authorization_error "密码已过期，请修改密码后重新登录")
        | pos remaining ↦
            ok (if leb remaining settings.user_password_reminder_days then some remaining else none)
      ]

  unfoldable pub check_password_expiry_status :
      Option Rows → ℕ → Option ℕ → Exec (World r) (Option ℕ)
  check_password_expiry_status configs now password_changed_time = do
    on_settings (load_user_security_config configs)
    settings ← gets (λ w. w.settings)
    if settings.user_password_expiry_days == 0
        then pure none
        else lift (days_left settings now password_changed_time)
