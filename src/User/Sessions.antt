-- ===== src/User/Sessions.antt =====
-- What a change of the password, and the removal of a user, do to the sessions in Redis.
use fbapy.Base.{
  ℕ, ◌≡◌, refl, sym, ap, ◌∙◌, true, false, ◌&&◌, Option, none, some, [], ◌==◌, if◌then◌else◌,
  if_same,
}
use fbapy.Base.Text.{Text, text_eq, starts_with, starts_with_self, str}
use fbapy.Base.Exec.{Result, ok, err}
use fbapy.Conf.{Settings, token_redis_prefix, token_refresh_redis_prefix, jwt_user_redis_prefix}
use fbapy.DynamicConfig.{Rows, load_user_security_config}
use fbapy.Redis.{Server, delete_prefix}
use fbapy.Redis.Prefix.{get-delete_prefix}
use fbapy.Token.{user_key, session_key}
use fbapy.Token.Keys.{user_key-session_key, user_key-ne}
use fbapy.UserTable.{Member, Tables}
use fbapy.Password.{Passwords}
use fbapy.User.{
  Store, Hashing, ResetPasswordParam, validate_new_password, history_password, write_password,
  reset_password, old_password_wrong, update_password, delete,
}

module _ (r : Server) (t : Tables) (l : Passwords) (h : Hashing) where
  -- The checks of a new password change the settings at most.
  validate-redis :
      (configs : Option Rows) (u : ℕ) (new : Text) (w : Store r t)
      → ((validate_new_password r t l h configs u new w).1.redis ≡ w.redis)
        × ((validate_new_password r t l h configs u new w).1.tables ≡ w.tables)
  unfolding validate_new_password
  validate-redis configs u new w = loaded (load_user_security_config configs w.settings) refl
    where
      loaded :
          (x : Result (Unit {0}) × Settings)
          → load_user_security_config configs w.settings ≡ x
          → ((validate_new_password r t l h configs u new w).1.redis ≡ w.redis)
            × ((validate_new_password r t l h configs u new w).1.tables ≡ w.tables)
      loaded (ok a, s) e = rw e (refl, refl)
      loaded (err x, s) e = rw e (refl, refl)

  -- Redis after a reset: the three keys are deleted under their bare names.
  reset_redis :
      (configs : Option Rows) (now pk : ℕ) (password recorded : Text) (user : Member)
      (w w' : Store r t)
      → t.get pk w.tables ≡ some user
      → history_password r t l h password user.password ≡ some recorded
      → validate_new_password r t l h configs pk password w ≡ (ok tt, w')
      → let (result, w'') = reset_password r t l h configs now pk password w in
        (result ≡ ok tt)
        × (w''.redis
            ≡ r.delete (user_key jwt_user_redis_prefix pk) (
                r.delete
                  (user_key token_refresh_redis_prefix pk)
                  (r.delete (user_key token_redis_prefix pk) w'.redis)))
  unfolding reset_password write_password
  reset_redis configs now pk password recorded user w w' found old valid =
      rw (found, valid, old) (refl, refl)

  -- A reset of a password that passes the checks, with a password for the history, returns and leaves every session as it was: the
  -- access token and the refresh token of each session of each user stay in Redis.
  pub reset_password_sessions :
      (configs : Option Rows) (now pk : ℕ) (password recorded : Text) (user : Member)
      (w w' : Store r t)
      → t.get pk w.tables ≡ some user
      → history_password r t l h password user.password ≡ some recorded
      → validate_new_password r t l h configs pk password w ≡ (ok tt, w')
      → let (result, w'') = reset_password r t l h configs now pk password w in
        (result ≡ ok tt)
        × ((v : ℕ) (session_uuid : Text)
            → (r.get w''.redis (session_key token_redis_prefix v session_uuid)
                ≡ r.get w.redis (session_key token_redis_prefix v session_uuid))
              × (r.get w''.redis (session_key token_refresh_redis_prefix v session_uuid)
                  ≡ r.get w.redis (session_key token_refresh_redis_prefix v session_uuid)))
  reset_password_sessions configs now pk password recorded user w w' found old valid =
      let (done, redis) = reset_redis configs now pk password recorded user w w' found old valid in
      let same : w'.redis ≡ w.redis =
        sym (ap (λ (x : Result (Unit {0}) × Store r t). x.1.redis) valid)
        ∙ (validate-redis configs pk password w).0 in
      (
        done,
        λ v s.
            let a = session_key token_redis_prefix v s in
            let b = session_key token_refresh_redis_prefix v s in
            (
              ap (λ (x : r.State). r.get x a) redis
                  ∙ rw
                      (
                        r.get-delete _ _ a,
                        r.get-delete _ _ a,
                        r.get-delete _ _ a,
                        user_key-ne token_redis_prefix pk v s,
                      )
                      (ap (λ (x : r.State). r.get x a) same),
              ap (λ (x : r.State). r.get x b) redis
                  ∙ rw
                      (
                        r.get-delete _ _ b,
                        r.get-delete _ _ b,
                        r.get-delete _ _ b,
                        user_key-ne token_refresh_redis_prefix pk v s,
                      )
                      (ap (λ (x : r.State). r.get x b) same),
            ),
      )

  -- A session key of the user after its prefix is cleared, and after another prefix is.
  cleared_own :
      (p : Text) (u : ℕ) (s : r.State) (sid : Text)
      → r.get (delete_prefix r (user_key p u) [] 1000 s) (session_key p u sid) ≡ none
  cleared_own p u s sid = rw (
    get-delete_prefix r (user_key p u) [] 1000 s (session_key p u sid),
    user_key-session_key p u u sid,
    starts_with_self (str u),
  )

  cleared_stays :
      (p key : Text) (s : r.State)
      → r.get s key ≡ none
      → r.get (delete_prefix r p [] 1000 s) key ≡ none
  cleared_stays p key s gone = rw (
    get-delete_prefix r p [] 1000 s key,
    gone,
    if_same {A = Option Text} (starts_with p key && true) none,
  )

  update_redis :
      (configs : Option Rows) (now u : ℕ) (obj : ResetPasswordParam) (recorded : Text)
      (user : Member) (w w' : Store r t)
      → t.get u w.tables ≡ some user
      → history_password r t l h obj.new_password user.password ≡ some recorded
      → old_password_wrong r t l h obj.old_password user.password ≡ false
      → text_eq obj.new_password obj.confirm_password ≡ true
      → validate_new_password r t l h configs u obj.new_password w ≡ (ok tt, w')
      → let (result, w'') = update_password r t l h configs now u obj w in
        (result ≡ ok tt)
        × (w''.redis
            ≡ delete_prefix r (user_key jwt_user_redis_prefix u) [] 1000 (
                delete_prefix r
                  (user_key token_refresh_redis_prefix u)
                  []
                  1000
                  (delete_prefix r (user_key token_redis_prefix u) [] 1000 w'.redis)))
  unfolding update_password write_password
  update_redis configs now u obj recorded user w w' found before old same valid =
      rw (found, old, same, valid, before) (refl, refl)

  -- A change of the own password with the right old one, a repeated new one that passes the checks, and
  -- a password for the history, returns, and no session of the user keeps an access token or a refresh token.
  pub update_password_sessions :
      (configs : Option Rows) (now u : ℕ) (obj : ResetPasswordParam) (recorded : Text)
      (user : Member) (w w' : Store r t)
      → t.get u w.tables ≡ some user
      → history_password r t l h obj.new_password user.password ≡ some recorded
      → old_password_wrong r t l h obj.old_password user.password ≡ false
      → text_eq obj.new_password obj.confirm_password ≡ true
      → validate_new_password r t l h configs u obj.new_password w ≡ (ok tt, w')
      → let (result, w'') = update_password r t l h configs now u obj w in
        (result ≡ ok tt)
        × ((session_uuid : Text)
            → (r.get w''.redis (session_key token_redis_prefix u session_uuid) ≡ none)
              × (r.get w''.redis (session_key token_refresh_redis_prefix u session_uuid) ≡ none))
  update_password_sessions configs now u obj recorded user w w' found before old same valid =
      let (done, redis) =
        update_redis configs now u obj recorded user w w' found before old same valid in
      (
        done,
        λ sid.
            let a = session_key token_redis_prefix u sid in
            let b = session_key token_refresh_redis_prefix u sid in
            (
              ap (λ (x : r.State). r.get x a) redis
                  ∙ cleared_stays (user_key jwt_user_redis_prefix u) a _ (
                      cleared_stays (user_key token_refresh_redis_prefix u) a _
                        (cleared_own token_redis_prefix u _ sid)),
              ap (λ (x : r.State). r.get x b) redis
                  ∙ cleared_stays (user_key jwt_user_redis_prefix u) b _
                      (cleared_own token_refresh_redis_prefix u _ sid),
            ),
      )

  -- The removal of a user that exists returns; the row is gone, every other row is as it was, and no
  -- session of the user keeps an access token or a refresh token.
  delete_sessions :
      (pk : ℕ) (user : Member) (w : Store r t)
      → t.get pk w.tables ≡ some user
      → let (result, w') = delete r t l h pk w in
        (result ≡ ok tt)
        × ((i : ℕ) → t.get i w'.tables ≡ (if pk == i then none else t.get i w.tables))
        × ((session_uuid : Text)
            → (r.get w'.redis (session_key token_redis_prefix pk session_uuid) ≡ none)
              × (r.get w'.redis (session_key token_refresh_redis_prefix pk session_uuid) ≡ none))
  unfolding delete
  delete_sessions pk user w found = rw found (
    refl,
    λ i. t.get-delete_model pk w.tables i,
    λ sid. (
      cleared_stays (user_key token_refresh_redis_prefix pk) (session_key token_redis_prefix pk sid)
          _ (cleared_own token_redis_prefix pk _ sid),
      cleared_own token_refresh_redis_prefix pk _ sid,
    ),
  )
