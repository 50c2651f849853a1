-- ===== src/Lockout/Threshold.antt =====
-- The count of failed logins, and the lock at the threshold.
use fbapy.Base.{
  ℕ, ◌+◌, ◌*◌, ◌≤◌, ◌<◌, ◌≡◌, refl, ◌≢◌, sym, subst, ap, ◌∙◌, true, false, Option, some, List, [],
  ◌∷◌, arith, leb, length, ne→==,
}
use fbapy.Base.Text.{Text, str, text_eq_self}
use fbapy.Base.Numerals.{int_of, int_of-str, str-cons}
use fbapy.Base.Exec.{ok, err, authorization_error}
use fbapy.Conf.{Settings}
use fbapy.DynamicConfig.{Rows, load_user_security_config}
use fbapy.Redis.{Server}
use fbapy.Lockout.{
  TimeFormat, World, count_of, handle_login_failure, record_failure, lock_key, failure_key, second,
}

module _ (r : Server) (f : TimeFormat) where
  open r use {get}

  count_of-numeral :
      (n c : ℕ) (t : Text) → int_of (c ∷ t) ≡ some n → count_of r f (some (c ∷ t)) ≡ ok n
  unfolding count_of
  count_of-numeral n c t h = rw (h, count_of)

  count_of-str : (n : ℕ) → count_of r f (some (str n)) ≡ ok n
  count_of-str n =
      let (c, t, cons) = str-cons n in
      subst (λ x. count_of r f (some x) ≡ ok n) (sym cons)
        (count_of-numeral n c t (subst (λ x. int_of x ≡ some n) cons (int_of-str n)))

  -- The failures that Redis has counted for the user.
  abbrev pub Counted : ℕ → World r → ℕ → Type 0
  Counted u w n = count_of r f (get w.redis (failure_key r f u)) ≡ ok n

  module _ (configs : Option Rows) (u : ℕ) where
    -- The configuration is loaded, and locking is switched on.
    pub record IsArmed (w : World r) : Type 0 where
      pub loaded : load_user_security_config configs w.settings ≡ (ok tt, w.settings)
      pub armed : w.settings.user_lock_threshold ≢ 0

    handled :
        (now : ℕ) (w : World r)
        → IsArmed w
        → handle_login_failure r f configs now u w ≡ (
          (record_failure r f w.settings now u w.redis).0,
          record w { redis = (record_failure r f w.settings now u w.redis).1 },
        )
    handled now w a =
        unfold handle_login_failure in rw (a.loaded, ne→== w.settings.user_lock_threshold 0 a.armed)

    recorded_below :
        (settings : Settings) (now n : ℕ) (s : r.State)
        → count_of r f (get s (failure_key r f u)) ≡ ok n
        → n + 1 < settings.user_lock_threshold
        → let (result, s') = record_failure r f settings now u s in
          (result ≡ ok tt)
          × (count_of r f (get s' (failure_key r f u)) ≡ ok (n + 1))
          × (get s' (lock_key r f u) ≡ get s (lock_key r f u))
    unfolding record_failure
    recorded_below settings now n s c h =
        let below : leb settings.user_lock_threshold (n + 1) ≡ false = ground arith in
        rw (c, below)
          (
            refl,
            rw (r.get-set (failure_key r f u) _ _ _, text_eq_self (failure_key r f u))
                (count_of-str (n + 1)),
            r.get-set _ _ _ _,
          )

    recorded_at :
        (settings : Settings) (now n : ℕ) (s : r.State)
        → count_of r f (get s (failure_key r f u)) ≡ ok n
        → settings.user_lock_threshold ≤ n + 1
        → let (result, s') = record_failure r f settings now u s in
          (result ≡ err (authorization_error "登录失败次数过多，账号已被锁定"))
          × (get s' (lock_key r f u) ≡ some (f.to_str (now + settings.user_lock_seconds * second)))
    unfolding record_failure
    recorded_at settings now n s c h =
        let at : leb settings.user_lock_threshold (n + 1) ≡ true = ground arith in
        rw (c, at) (refl, rw (r.get-set (lock_key r f u) _ _ _, text_eq_self (lock_key r f u)))

    -- One more failure below the threshold is counted, and nothing is locked.
    pub failure_below :
        (now n : ℕ) (w : World r)
        → IsArmed w
        → Counted u w n
        → n + 1 < w.settings.user_lock_threshold
        → let (result, w') = handle_login_failure r f configs now u w in
          (result ≡ ok tt)
          × Counted u w' (n + 1)
          × (get w'.redis (lock_key r f u) ≡ get w.redis (lock_key r f u))
          × (w'.settings ≡ w.settings)
    failure_below now n w a c h =
        let (done, count, kept) = recorded_below w.settings now n w.redis c h in
        rw (handled now w a) (done, count, kept, refl)

    -- Failed logins at the given times, one after the other.
    abbrev pub fail_at : List ℕ → World r → World r
    fail_at [] w = w
    fail_at (now ∷ times) w = fail_at times (handle_login_failure r f configs now u w).1

    IsArmed-same : {w w' : World r} → w'.settings ≡ w.settings → IsArmed w → IsArmed w'
    IsArmed-same e a = record {
      loaded = subst (λ s. load_user_security_config configs s ≡ (ok tt, s)) (sym e) a.loaded;
      armed = subst (λ (s : Settings). s.user_lock_threshold ≢ 0) (sym e) a.armed;
    }

    failures_below :
        (times : List ℕ) (n : ℕ) (w : World r)
        → IsArmed w
        → Counted u w n
        → n + length times < w.settings.user_lock_threshold
        → let w' = fail_at times w in
          Counted u w' (n + length times)
          × (get w'.redis (lock_key r f u) ≡ get w.redis (lock_key r f u))
          × (w'.settings ≡ w.settings)
    failures_below [] n w a c h = (subst (λ m. Counted u w m) (omega arith) c, refl, refl)
    failures_below (now ∷ times) n w a c h =
        let w₁ = (handle_login_failure r f configs now u w).1 in
        let (done, count, kept, same) = failure_below now n w a c (omega arith) in
        let limit = ap (λ (s : Settings). s.user_lock_threshold) same in
        let (count', kept', same') =
          failures_below times (n + 1) w₁ (IsArmed-same same a) count (omega (arith, limit)) in
        (
          subst (λ m. Counted u (fail_at times w₁) m) (omega arith) count',
          kept' ∙ kept,
          same' ∙ same,
        )

    -- With the configuration loaded and a threshold other than zero: while fewer failures than the
    -- threshold have been counted, the lock of the user stays as it was, and the failure that reaches
    -- the threshold raises and locks the user for the configured time.
    pub handle_login_failure_locks :
        (times : List ℕ) (now n : ℕ) (w : World r)
        → IsArmed w
        → Counted u w n
        → n + length times + 1 ≡ w.settings.user_lock_threshold
        → let w' = fail_at times w in
          let (result, w'') = handle_login_failure r f configs now u w' in
          (get w'.redis (lock_key r f u) ≡ get w.redis (lock_key r f u))
          × (result ≡ err (authorization_error "登录失败次数过多，账号已被锁定"))
          × (get w''.redis (lock_key r f u)
              ≡ some (f.to_str (now + w.settings.user_lock_seconds * second)))
    handle_login_failure_locks times now n w a c h =
        let w' = fail_at times w in
        let (count, kept, same) = failures_below times n w a c (omega arith) in
        let limit = ap (λ (s : Settings). s.user_lock_threshold) same in
        let (raised, locked) =
          recorded_at w'.settings now (n + length times) w'.redis count (omega (arith, limit)) in
        rw (handled now w' (IsArmed-same same a)) (
          kept,
          raised,
          locked ∙ ap (λ (s : Settings). some (f.to_str (now + s.user_lock_seconds * second))) same,
        )
