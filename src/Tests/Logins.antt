-- ===== src/Tests/Logins.antt =====
-- Tests of the logins, the lock and the passwords.
use fbapy.Base.{true, ℕ, ◌+◌, ◌*◌, ◌≡◌, refl, ◌↔◌, false, none, some, List, [], ◌∷◌, arith}
use fbapy.Base.Text.{codes, text_eq}
use fbapy.Base.Exec.{ok, err, authorization_error}
use fbapy.Conf.{default_settings}
use fbapy.DynamicConfig.{Rows, load_user_security_config}
use fbapy.DynamicConfig.Email.{EmailSettings}
use fbapy.Redis.Table.{table_server, Table}
use fbapy.Password.{validate_rules}
use fbapy.Password.Rules.{IsAcceptable, validate_rules_iff}
use fbapy.UserTable.{HistoryRow}
use fbapy.Lockout.{World, handle_login_failure, lock_key, count_of, second}
use fbapy.Lockout.Threshold.{IsArmed, Counted, fail_at, handle_login_failure_locks}
use fbapy.Auth.{Account, Library, LoginParam, login}
use fbapy.Auth.Login.{login_wrong_password}
use fbapy.Tests.{written_jose, whole_seconds, plain_passwords}

-- Nothing is stored, and the settings are the defaults.
abbrev fresh : World table_server
fresh = record { redis = []; settings = default_settings }

fresh-IsArmed : IsArmed table_server whole_seconds none 7 fresh
unfolding load_user_security_config
fresh-IsArmed = record { loaded = refl; armed = λ e. cc }

abbrev failed : List ℕ → World table_server
failed times = fail_at table_server whole_seconds none 7 times fresh

-- Five failures at the second 3.
abbrev at : ℕ
at = 3 * second

handle_login_failure_locks_example :
    let w' = failed (at ∷ at ∷ at ∷ at ∷ []) in
    let (result, w'') = handle_login_failure table_server whole_seconds none at 7 w' in
    (table_server.get w'.redis (lock_key table_server whole_seconds 7) ≡ none)
    × (result ≡ err (authorization_error "登录失败次数过多，账号已被锁定"))
    × (table_server.get w''.redis (lock_key table_server whole_seconds 7)
        ≡ some (whole_seconds.to_str (at + 300 * second)))
unfolding count_of
handle_login_failure_locks_example =
    handle_login_failure_locks table_server whole_seconds none 7 (at ∷ at ∷ at ∷ at ∷ []) at 0 fresh
      fresh-IsArmed refl refl

abbrev locked : Table
locked = (codes "fba:user:lock:7", whole_seconds.to_str (300 * second)) ∷ []

abbrev user_7 : Account
user_7 = record {
  id = 7;
  username = codes "root";
  password = some (codes "secret1");
  status = 1;
  is_multi_login = false;
  last_password_changed_time = none;
}

abbrev library : Library
library = record { password_verify = text_eq; lower = λ t. t }

abbrev wrong : LoginParam
wrong = record { password = codes "guess"; uuid = none; captcha = none }

login_wrong_password_example :
    let (result, w') =
      login table_server whole_seconds written_jose library none none at
        (codes "n")
        (codes "{}")
        wrong
        (some user_7)
        fresh in
    (result ≡ err (authorization_error "用户名或密码有误"))
    × Counted table_server whole_seconds 7 w' 1
    × (table_server.get w'.redis (lock_key table_server whole_seconds 7) ≡ none)
unfolding count_of
login_wrong_password_example =
    login_wrong_password table_server whole_seconds written_jose library none none at (codes "n")
      (codes "{}") wrong user_7 fresh 0 (λ e. cc) refl refl fresh-IsArmed refl (omega arith)

abbrev old_row : HistoryRow
old_row = record { user_id = 7; password = some (codes "secret1") }

validate_rules_iff_example :
    (validate_rules plain_passwords default_settings (old_row ∷ []) (codes "secret2") ≡ ok tt)
    ↔ IsAcceptable plain_passwords default_settings (old_row ∷ []) (codes "secret2")
validate_rules_iff_example =
    validate_rules_iff plain_passwords (codes "secret2") default_settings (old_row ∷ [])

abbrev email : EmailSettings
email = record {
  email_host = codes "h";
  email_port = 25;
  email_ssl = true;
  email_username = codes "u";
  email_password = codes "p";
}

-- The configuration is off, and names a user and a password.
abbrev email_rows : Rows
email_rows = (codes "EMAIL_USERNAME", codes "v") ∷ (codes "EMAIL_PASSWORD", codes "q") ∷ []
