-- ===== src/Conf.antt =====
-- backend/core/conf.py: the settings that the modelled parts read, with their defaults. The key
-- prefixes are constants; what `load_user_security_config` changes at run time is a record.
use fbapy.Base.{ℕ, ◌*◌, Bool, true, false}
use fbapy.Base.Text.{Text, codes}

abbrev pub token_expire_seconds : ℕ
token_expire_seconds = 60 * 60 * 24

abbrev pub token_refresh_expire_seconds : ℕ
token_refresh_expire_seconds = 60 * 60 * 24 * 7

abbrev pub token_redis_prefix : Text
token_redis_prefix = codes "fba:token"

abbrev pub token_extra_info_redis_prefix : Text
token_extra_info_redis_prefix = codes "fba:token_extra_info"

abbrev pub token_refresh_redis_prefix : Text
token_refresh_redis_prefix = codes "fba:refresh_token"

abbrev pub jwt_user_redis_prefix : Text
jwt_user_redis_prefix = codes "fba:user"

abbrev pub user_lock_redis_prefix : Text
user_lock_redis_prefix = codes "fba:user:lock"

abbrev pub login_failure_prefix : Text
login_failure_prefix = codes "fba:login:failure"

abbrev pub login_captcha_redis_prefix : Text
login_captcha_redis_prefix = codes "fba:login:captcha"

abbrev pub email_captcha_redis_prefix : Text
email_captcha_redis_prefix = codes "fba:email:captcha"

abbrev pub snowflake_redis_prefix : Text
snowflake_redis_prefix = codes "fba:snowflake"

abbrev pub snowflake_node_ttl_seconds : ℕ
snowflake_node_ttl_seconds = 60

-- The fields of `Settings` that the security and the login configuration override.
pub record Settings : Type 0 where
  pub user_lock_threshold : ℕ
  pub user_lock_seconds : ℕ
  pub user_password_expiry_days : ℕ
  pub user_password_reminder_days : ℕ
  pub user_password_history_check_count : ℕ
  pub user_password_min_length : ℕ
  pub user_password_max_length : ℕ
  pub user_password_require_special_char : Bool
  pub login_captcha_enabled : Bool

abbrev pub default_settings : Settings
default_settings = record {
  user_lock_threshold = 5;
  user_lock_seconds = 60 * 5;
  user_password_expiry_days = 365;
  user_password_reminder_days = 7;
  user_password_history_check_count = 3;
  user_password_min_length = 6;
  user_password_max_length = 32;
  user_password_require_special_char = false;
  login_captcha_enabled = true;
}
