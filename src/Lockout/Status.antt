-- ===== src/Lockout/Status.antt =====
-- How long a lock and a password hold.
use fbapy.Base.{
  ℕ, ◌+◌, ◌-◌, ◌*◌, ◌/◌, ◌≡◌, refl, ◌≢◌, sym, inl, inr, none, some, [], ◌∷◌, leb, ltb,
  if◌then◌else◌, Bool-cases, ne→==,
}
use fbapy.Base.Int.{pos-sub}
use fbapy.Base.Text.{Text}
use fbapy.Base.Exec.{ok, err, authorization_error, locked_error}
use fbapy.Conf.{Settings}
use fbapy.Redis.{Server}
use fbapy.Lockout.{
  TimeFormat, check_status, check_lock, lock_key, failure_key, days_left, remaining_minutes, second,
  day,
}

module _ (r : Server) (f : TimeFormat) (now u status : ℕ) (s : r.State) where
  open r use {get, delete}

  check_lock-to_str :
      (t : ℕ) (text : Text)
      → f.to_str t ≡ text
      → check_lock r f u now (some text) s ≡ (
          if ltb now (t / second * second)
          then (err (locked_error (remaining_minutes (t / second * second - now))), s)
          else (ok tt, delete (failure_key r f u) (delete (lock_key r f u) s)))
  unfolding check_lock
  check_lock-to_str t [] e = absurd (f.to_str-filled t e)
  check_lock-to_str t (c ∷ text) e =
      rw (sym e, f.from_str-to_str t)
        (elim (Bool-cases (ltb now (t / second * second))) [
          | inl early ↦ rw early
          | inr late ↦ rw late
        ])

  -- A lock until `t` refuses an enabled user before the whole second of `t`, with the minutes that are
  -- left, rounded up; from then on the user passes, and the lock and the count are removed.
  check_status-locked :
      (t : ℕ)
      → status ≢ 0
      → get s (lock_key r f u) ≡ some (f.to_str t)
      → check_status r f now u status s ≡ (
          if ltb now (t / second * second)
          then (err (locked_error (remaining_minutes (t / second * second - now))), s)
          else (ok tt, delete (failure_key r f u) (delete (lock_key r f u) s)))
  unfolding check_status
  check_status-locked t enabled stored =
      rw (ne→== status 0 enabled, stored) (check_lock-to_str t (f.to_str t) refl)

  pub check_status_open :
      status ≢ 0 → get s (lock_key r f u) ≡ none → check_status r f now u status s ≡ (ok tt, s)
  unfolding check_status check_lock
  check_status_open enabled stored = rw (ne→== status 0 enabled, stored)

module _ (r : Server) (f : TimeFormat) (settings : Settings) (now changed : ℕ) where
  -- A password with a time of change has expired if that time plus the days of validity is in the
  -- past; otherwise the number of whole days that remain is given if it is at most that of the
  -- reminder, and no number if it is more.
  days_left_lem :
      let expiry = changed + settings.user_password_expiry_days * day in
      days_left r f settings now (some changed) ≡ (
        if ltb expiry now
        then err (authorization_error "密码已过期，请修改密码后重新登录")
        else ok (
            if leb ((expiry - now) / day) settings.user_password_reminder_days
            then some ((expiry - now) / day)
            else none))
  unfolding days_left
  days_left_lem =
      let expiry = changed + settings.user_password_expiry_days * day in
      rw (pos-sub expiry now, days_left)
        (elim (Bool-cases (ltb expiry now)) [
          | inl late ↦ rw (late, days_left)
          | inr early ↦ rw (early, days_left)
        ])
