-- ===== src/Token/Rotate.antt =====
-- `create_new_token` and the session that it replaces.
use fbapy.Base.{
  ℕ, ◌+◌, ◌≡◌, refl, ap, ◌≢◌, Bool, true, false, not, ◌&&◌, Option, none, some, ◌==◌, [], ◌∷◌,
  if◌then◌else◌, ==_self, and_false, if_same,
}
use fbapy.Base.Text.{Text, text_eq, text_eq_self, str, starts_with}
use fbapy.Base.Exec.{ok, err, token_error}
use fbapy.Conf.{
  token_expire_seconds, token_refresh_expire_seconds, token_redis_prefix,
  token_refresh_redis_prefix,
}
use fbapy.Redis.{Server}
use fbapy.Token.{
  Jose, NewToken, session_key, create_access_token, create_refresh_token, create_new_token,
  is_current,
}
use fbapy.Token.Keys.{session_key-eq, user_key-session_key}
use fbapy.Token.Create.{
  signed, get-create_access_token, get-create_refresh_token, create_access_token_sessions,
}

is_current_self : (r : Server) (j : Jose) (t : Text) → t ≢ [] → is_current r j t (some t) ≡ true
unfolding is_current
is_current_self r j [] h = absurd (h refl)
is_current_self r j (c ∷ t) h = text_eq_self (c ∷ t)

module _ (r : Server) (j : Jose) (now : ℕ) (new_uuid token uuid : Text) (u : ℕ) (multi : Bool)
    (kwargs : Option Text) (s : r.State) where
  open r use {State, get, delete}

  -- The state in which the two old keys are gone.
  abbrev dropped : State
  dropped =
      delete (session_key token_redis_prefix u uuid)
        (delete (session_key token_refresh_redis_prefix u uuid) s)

  abbrev logged_in : State
  logged_in = (create_access_token r j now new_uuid u multi kwargs dropped).1

  create_new_token_runs :
      is_current r j token (get s (session_key token_refresh_redis_prefix u uuid)) ≡ true
      → create_new_token r j now new_uuid token uuid u multi kwargs s ≡ (
        ok (record {
          new_access_token = signed j (now + token_expire_seconds) new_uuid u;
          new_access_token_expire_time = now + token_expire_seconds;
          new_refresh_token = signed j (now + token_refresh_expire_seconds) new_uuid u;
          new_refresh_token_expire_time = now + token_refresh_expire_seconds;
          session_uuid = new_uuid;
        }),
        (create_refresh_token r j now new_uuid u multi logged_in).1,
      )
  create_new_token_runs h = unfold create_new_token create_access_token create_refresh_token in rw h

  get-dropped_refresh : get dropped (session_key token_refresh_redis_prefix u uuid) ≡ none
  get-dropped_refresh = rw (
    r.get-delete _ _ _,
    r.get-delete _ _ (session_key token_refresh_redis_prefix u uuid),
    text_eq_self (session_key token_refresh_redis_prefix u uuid),
  )

  get-dropped_token : get dropped (session_key token_redis_prefix u uuid) ≡ none
  get-dropped_token = rw (r.get-delete _ _ _, text_eq_self (session_key token_redis_prefix u uuid))

  -- The refresh keys of the user once the old pair is dropped and a new pair is stored.
  rotated : State
  rotated = (create_refresh_token r j now new_uuid u multi logged_in).1

  rotated_refresh :
      (v : ℕ) (t : Text)
      → get rotated (session_key token_refresh_redis_prefix v t) ≡ (
          if u == v && text_eq new_uuid t
          then some (signed j (now + token_refresh_expire_seconds) new_uuid u)
          else if not multi && starts_with (str u) (str v)
          then none
          else get dropped (session_key token_refresh_redis_prefix v t))
  unfolding rotated
  rotated_refresh v t =
      let key = session_key token_refresh_redis_prefix v t in
      rw (
        get-create_refresh_token r j now new_uuid u multi logged_in key,
        session_key-eq token_refresh_redis_prefix u v new_uuid t,
        user_key-session_key token_refresh_redis_prefix u v t,
        get-create_access_token r j now new_uuid u multi kwargs dropped key refl,
        and_false (not multi),
      )

  rotated_token :
      (v : ℕ) (t : Text)
      → get rotated (session_key token_redis_prefix v t) ≡ (
          if u == v && text_eq new_uuid t
          then some (signed j (now + token_expire_seconds) new_uuid u)
          else if not multi && starts_with (str u) (str v)
          then none
          else get dropped (session_key token_redis_prefix v t))
  unfolding rotated
  rotated_token v t =
      let key = session_key token_redis_prefix v t in
      rw (get-create_refresh_token r j now new_uuid u multi logged_in key, and_false (not multi))
        (create_access_token_sessions r j now new_uuid u multi kwargs dropped v t)

  -- What a refresh with another token than the stored one does: it raises and changes nothing.
  pub create_new_token_refused :
      is_current r j token (get s (session_key token_refresh_redis_prefix u uuid)) ≡ false
      → create_new_token r j now new_uuid token uuid u multi kwargs s
        ≡ (err (token_error "Refresh Token 已过期，请重新登录"), s)
  create_new_token_refused h = unfold create_new_token in rw h

  -- A refresh with the stored token, under a fresh session identifier, returns and stores a new
  -- pair, and removes the access token and the refresh token of the old session.
  pub create_new_token_rotates :
      token ≢ []
      → text_eq new_uuid uuid ≡ false
      → get s (session_key token_refresh_redis_prefix u uuid) ≡ some token
      → let (result, s') = create_new_token r j now new_uuid token uuid u multi kwargs s in
        (result
          ≡ ok (record {
            new_access_token = signed j (now + token_expire_seconds) new_uuid u;
            new_access_token_expire_time = now + token_expire_seconds;
            new_refresh_token = signed j (now + token_refresh_expire_seconds) new_uuid u;
            new_refresh_token_expire_time = now + token_refresh_expire_seconds;
            session_uuid = new_uuid;
          }))
        × (get s' (session_key token_redis_prefix u new_uuid)
            ≡ some (signed j (now + token_expire_seconds) new_uuid u))
        × (get s' (session_key token_refresh_redis_prefix u new_uuid)
            ≡ some (signed j (now + token_refresh_expire_seconds) new_uuid u))
        × (get s' (session_key token_redis_prefix u uuid) ≡ none)
        × (get s' (session_key token_refresh_redis_prefix u uuid) ≡ none)
  unfolding rotated
  create_new_token_rotates filled fresh stored =
      let current : is_current r j token (get s (session_key token_refresh_redis_prefix u uuid))
          ≡ true =
        rw stored (is_current_self r j token filled) in
      rw (create_new_token_runs current) (
        refl,
        rw (rotated_token u new_uuid, ==_self u, text_eq_self new_uuid),
        rw (rotated_refresh u new_uuid, ==_self u, text_eq_self new_uuid),
        rw (
          rotated_token u uuid,
          ==_self u,
          fresh,
          get-dropped_token,
          if_same {A = Option Text} (not multi && starts_with (str u) (str u)) none,
        ),
        rw (
          rotated_refresh u uuid,
          ==_self u,
          fresh,
          get-dropped_refresh,
          if_same {A = Option Text} (not multi && starts_with (str u) (str u)) none,
        ),
      )

  pub create_new_token_returns :
      token ≢ []
      → get s (session_key token_refresh_redis_prefix u uuid) ≡ some token
      → let (result, s') = create_new_token r j now new_uuid token uuid u multi kwargs s in
        (new : NewToken) × (result ≡ ok new)
        × (new.session_uuid ≡ new_uuid)
        × (get s' (session_key token_redis_prefix u new_uuid) ≡ some new.new_access_token)
  unfolding rotated
  create_new_token_returns filled stored =
      let current : is_current r j token (get s (session_key token_refresh_redis_prefix u uuid))
          ≡ true =
        rw stored (is_current_self r j token filled) in
      rw (create_new_token_runs current)
        (_, refl, refl, rw (rotated_token u new_uuid, ==_self u, text_eq_self new_uuid))

-- A refresh with the stored token under a fresh session identifier uses the token up: the next
-- call with the same token and session, at any time, raises and changes nothing.
pub create_new_token_once :
    (r : Server) (j : Jose) (now later : ℕ) (new_uuid other_uuid token uuid : Text) (u : ℕ)
    (multi multi' : Bool) (kwargs kwargs' : Option Text) (s : r.State)
    → token ≢ []
    → text_eq new_uuid uuid ≡ false
    → r.get s (session_key token_refresh_redis_prefix u uuid) ≡ some token
    → let s' = (create_new_token r j now new_uuid token uuid u multi kwargs s).1 in
      create_new_token r j later other_uuid token uuid u multi' kwargs' s'
      ≡ (err (token_error "Refresh Token 已过期，请重新登录"), s')
create_new_token_once r j now later new_uuid other_uuid token uuid u multi multi' kwargs kwargs' s
      filled fresh stored =
    let gone =
      (create_new_token_rotates r j now new_uuid token uuid u multi kwargs s filled fresh
        stored).4 in
    create_new_token_refused r j later other_uuid token uuid u multi' kwargs' _
      (unfold is_current in ap (is_current r j token) gone)
