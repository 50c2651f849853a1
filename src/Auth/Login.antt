-- ===== src/Auth/Login.antt =====
-- What `login` does with a wrong password.
use fbapy.Base.{ℕ, ◌+◌, ◌<◌, ◌≡◌, refl, ◌≢◌, ◌∙◌, false, Option, none, some}
use fbapy.Base.Text.{Text}
use fbapy.Base.Exec.{err, authorization_error}
use fbapy.DynamicConfig.{Rows}
use fbapy.Redis.{Server}
use fbapy.Token.{Jose}
use fbapy.Lockout.{TimeFormat, World, lock_key}
use fbapy.Lockout.Threshold.{IsArmed, Counted, failure_below}
use fbapy.Lockout.Status.{check_status_open}
use fbapy.Auth.{
  Account, Library, LoginParam, password_matches, password_check, verify_account, user_verify,
  login_steps, login,
}

module _ (r : Server) (f : TimeFormat) (j : Jose) (l : Library)
    (configs login_configs : Option Rows) (now : ℕ) (session_uuid extra : Text) (obj : LoginParam)
    (user : Account) (w : World r) where
  open r use {get}

  -- A login of an enabled user without a lock, with a wrong password, the configuration loaded and
  -- locking switched on, below the threshold: it is refused, the failure is counted, and the user
  -- is not locked.
  pub login_wrong_password :
      (n : ℕ)
      → user.status ≢ 0
      → get w.redis (lock_key r f user.id) ≡ none
      → password_matches r f j l obj.password user.password ≡ false
      → IsArmed r f configs user.id w
      → Counted r f user.id w n
      → n + 1 < w.settings.user_lock_threshold
      → let (result, w') =
          login r f j l configs login_configs now session_uuid extra obj (some user) w in
        (result ≡ err (authorization_error "用户名或密码有误"))
        × Counted r f user.id w' (n + 1)
        × (get w'.redis (lock_key r f user.id) ≡ none)
  unfolding login login_steps user_verify verify_account password_check
  login_wrong_password n enabled unlocked wrong armed count below =
      let (done, count', kept, same) =
        failure_below r f configs user.id now n w armed count below in
      let opened = check_status_open r f now user.id user.status w.redis enabled unlocked in
      rw (opened, wrong, done) (refl, count', kept ∙ unlocked)
