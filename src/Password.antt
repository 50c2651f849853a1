-- ===== src/Password.antt =====
-- `validate_new_password` of backend/app/admin/utils/password_security.py, with the character tests of
-- backend/utils/re_verify.py.
pub mod Rules
use fbapy.Base.{
  ℕ, Bool, true, false, not, ◌&&◌, ◌||◌, Option, none, some, List, [], ◌∷◌, ltb, leb, length, take,
  any, if◌then◌else◌,
}
use fbapy.Base.Text.{Text, codes}
use fbapy.Base.Exec.{Result, ok, err, request_error, type_error}
use fbapy.Conf.{Settings}
use fbapy.UserTable.{HistoryRow}

-- The libraries: `password_verify` of `pwdlib`, and what `\d` matches in a string.
pub record Passwords : Type 0 where
  pub password_verify : Text → Text → Bool
  pub is_decimal : ℕ → Bool

abbrev pub is_has_number : Passwords → Text → Bool
is_has_number l value = any l.is_decimal value

-- `[a-zA-Z]`
abbrev pub is_letter : ℕ → Bool
is_letter c = leb 97 c && leb c 122 || leb 65 c && leb c 90

abbrev pub is_has_letter : Text → Bool
is_has_letter value = any is_letter value

abbrev pub special_chars : Text
special_chars = codes "!@#$%^&*()_+-=[]{};:'\",.<>?/\\|`~"

abbrev pub is_has_special_char : Text → Bool
is_has_special_char value = any (λ c. any (λ d. leb c d && leb d c) special_chars) value

-- The loop over the last passwords. A row without a password makes `pwdlib` raise.
unfoldable pub history_check : Passwords → Text → List HistoryRow → Result (Unit {0})
history_check l new [] = ok tt
history_check l new (row ∷ rows) = elim row.password [
  | none ↦ err type_error
  | some hashed ↦
      if l.password_verify new hashed
      then err (request_error "新密码不能与最近使用的密码相同")
      else history_check l new rows
]

-- The checks once the configuration is loaded, in their order.
unfoldable pub validate_rules : Passwords → Settings → List HistoryRow → Text → Result (Unit {0})
validate_rules l settings history new =
    if ltb (length new) settings.user_password_min_length
    then err (request_error "密码长度不能少于 USER_PASSWORD_MIN_LENGTH 个字符")
    else if ltb settings.user_password_max_length (length new)
    then err (request_error "密码长度不能超过 USER_PASSWORD_MAX_LENGTH 个字符")
    else if not (is_has_number l new)
    then err (request_error "密码必须包含数字")
    else if not (is_has_letter new)
    then err (request_error "密码必须包含字母")
    else if settings.user_password_require_special_char && not (is_has_special_char new)
    then err (request_error "密码必须包含特殊字符（如：!@#$%）")
    else history_check l new (take settings.user_password_history_check_count history)
