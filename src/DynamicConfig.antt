-- ===== src/DynamicConfig.antt =====
-- `load_user_security_config` and `load_login_config` of backend/utils/dynamic_config.py: the rows of `sys_config` override
-- the settings of the process, key by key. What was written before a bad value stays written.
pub mod Email
use fbapy.Base.{ℕ, ◌==◌, Option, none, some, List, [], ◌∷◌, if◌then◌else◌}
use fbapy.Base.Text.{Text, text_eq, codes}
use fbapy.Base.Numerals.{int_of}
use fbapy.Base.Exec.{Exec, value_error, type_error, pure, or_raise, modify, ◌>>=◌, ◌>>◌}
use fbapy.Conf.{Settings}

-- The rows of one configuration type, each a key and a value.
abbrev pub Rows : Type 0
Rows = List (Text × Text)

-- The dictionary built from the rows: of two rows with one key the later counts.
unfoldable pub config_get : Text → Rows → Option Text
config_get key [] = none
config_get key ((k, v) ∷ rows) = elim (config_get key rows) [
  | some w ↦ some w
  | none ↦ if text_eq k key then some v else none
]

-- `if key in configs: setting = int(configs[key])`
pub override : Option Text → (ℕ → Settings → Settings) → Exec Settings (Unit {0})
override none write = pure tt
override (some v) write = do n ← or_raise (int_of v) value_error; modify (write n)

override_flag : Option Text → Exec Settings (Unit {0})
override_flag none = pure tt
override_flag (some v) =
    modify (λ s. record s { user_password_require_special_char = text_eq v (codes "true") })

-- The assignments once the configuration is switched on.
pub override_all : Rows → Exec Settings (Unit {0})
override_all c = do
  override (config_get (codes "USER_LOCK_THRESHOLD") c)
      (λ n s. record s { user_lock_threshold = n })
  override (config_get (codes "USER_LOCK_SECONDS") c) (λ n s. record s { user_lock_seconds = n })
  override (config_get (codes "USER_PASSWORD_EXPIRY_DAYS") c)
      (λ n s. record s { user_password_expiry_days = n })
  override (config_get (codes "USER_PASSWORD_REMINDER_DAYS") c)
      (λ n s. record s { user_password_reminder_days = n })
  override (config_get (codes "USER_PASSWORD_HISTORY_CHECK_COUNT") c)
      (λ n s. record s { user_password_history_check_count = n })
  override (config_get (codes "USER_PASSWORD_MIN_LENGTH") c)
      (λ n s. record s { user_password_min_length = n })
  override (config_get (codes "USER_PASSWORD_MAX_LENGTH") c)
      (λ n s. record s { user_password_max_length = n })
  override_flag (config_get (codes "USER_PASSWORD_REQUIRE_SPECIAL_CHAR") c)

-- `none` is a database without the table `sys_config`.
unfoldable pub load_user_security_config : Option Rows → Exec Settings (Unit {0})
unfolding override override_flag override_all config_get
load_user_security_config none = pure tt
load_user_security_config (some []) = pure tt
load_user_security_config (some (row ∷ rows)) = do
  status ← or_raise (config_get (codes "USER_SECURITY_CONFIG_STATUS") (row ∷ rows)) type_error
  enabled ← or_raise (int_of status) value_error
  if enabled == 0 then pure tt else override_all (row ∷ rows)

-- `if int(configs.get(status)) and 'LOGIN_CAPTCHA_ENABLED' in configs`
override_captcha : ℕ → Option Text → Exec Settings (Unit {0})
override_captcha enabled none = pure tt
override_captcha enabled (some v) =
    if enabled == 0
    then pure tt
    else modify (λ s. record s { login_captcha_enabled = text_eq v (codes "true") })

unfoldable pub load_login_config : Option Rows → Exec Settings (Unit {0})
unfolding override_captcha config_get
load_login_config none = pure tt
load_login_config (some []) = pure tt
load_login_config (some (row ∷ rows)) = do
  status ← or_raise (config_get (codes "LOGIN_CONFIG_STATUS") (row ∷ rows)) type_error
  enabled ← or_raise (int_of status) value_error
  override_captcha enabled (config_get (codes "LOGIN_CAPTCHA_ENABLED") (row ∷ rows))
