-- ===== src/DynamicConfig/Email.antt =====
-- `load_email_config` of backend/utils/dynamic_config.py. Only the host waits for the status.
use fbapy.Base.{ℕ, ◌≡◌, refl, ◌==◌, Bool, true, false, Option, none, some, [], ◌∷◌, if◌then◌else◌}
use fbapy.Base.Text.{Text, text_eq, codes}
use fbapy.Base.Numerals.{int_of}
use fbapy.Base.Exec.{
  Exec, ok, value_error, type_error, key_error, pure, raise, or_raise, modify, ◌>>=◌, ◌>>◌,
}
use fbapy.DynamicConfig.{Rows, config_get}

pub record EmailSettings : Type 0 where
  pub email_host : Text
  pub email_port : ℕ
  pub email_ssl : Bool
  pub email_username : Text
  pub email_password : Text

-- `settings.EMAIL_HOST = str(configs[host_key])` under the status
pub override_host : Bool → Option Text → Exec EmailSettings (Unit {0})
override_host false host = pure tt
override_host true none = raise key_error
override_host true (some v) = modify (λ s. record s { email_host = v })

-- `if configs.get(key): setting = int(value)`
pub override_port : Option Text → Exec EmailSettings (Unit {0})
override_port (some (c ∷ v)) = do
  n ← or_raise (int_of (c ∷ v)) value_error
  modify (λ s. record s { email_port = n })
override_port _ = pure tt

-- `if configs.get(key): setting = value`
pub override_text :
    Option Text → (Text → EmailSettings → EmailSettings) → Exec EmailSettings (Unit {0})
override_text (some (c ∷ v)) write = modify (write (c ∷ v))
override_text _ write = pure tt

pub override_email : Bool → Rows → Exec EmailSettings (Unit {0})
override_email enabled c = do
  override_host enabled (config_get (codes "EMAIL_HOST") c)
  override_port (config_get (codes "EMAIL_PORT") c)
  override_text (config_get (codes "EMAIL_SSL") c)
      (λ v s. record s { email_ssl = text_eq v (codes "true") })
  override_text (config_get (codes "EMAIL_USERNAME") c) (λ v s. record s { email_username = v })
  override_text (config_get (codes "EMAIL_PASSWORD") c) (λ v s. record s { email_password = v })

unfoldable pub load_email_config : Option Rows → Exec EmailSettings (Unit {0})
load_email_config none = pure tt
load_email_config (some []) = pure tt
load_email_config (some (row ∷ rows)) = do
  status ← or_raise (config_get (codes "EMAIL_CONFIG_STATUS") (row ∷ rows)) type_error
  enabled ← or_raise (int_of status) value_error
  override_email (if enabled == 0 then false else true) (row ∷ rows)

-- With the e-mail configuration switched off and neither a port nor SSL in the table, a user and a
-- password of the table replace those of the settings all the same, while the host stays.
load_email_config_off :
    (row : Text × Text) (rows : Rows) (status user word : Text) (c d : ℕ) (s : EmailSettings)
    → config_get (codes "EMAIL_CONFIG_STATUS") (row ∷ rows) ≡ some status
    → int_of status ≡ some 0
    → config_get (codes "EMAIL_PORT") (row ∷ rows) ≡ none
    → config_get (codes "EMAIL_SSL") (row ∷ rows) ≡ none
    → config_get (codes "EMAIL_USERNAME") (row ∷ rows) ≡ some (c ∷ user)
    → config_get (codes "EMAIL_PASSWORD") (row ∷ rows) ≡ some (d ∷ word)
    → load_email_config (some (row ∷ rows)) s
      ≡ (ok tt, record s { email_username = c ∷ user; email_password = d ∷ word })
unfolding load_email_config override_email override_host override_port override_text
load_email_config_off row rows status user word c d s off zero_ no_port no_ssl named word_ =
    rw (off, zero_, no_port, no_ssl, named, word_) refl
