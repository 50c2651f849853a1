-- ===== src/Auth/Logout.antt =====
-- What `logout` and `refresh_token` leave of a session.
use fbapy.Base.{ℕ, ◌≡◌, refl, ◌≢◌, ◌∙◌, Bool, false, Option, none, some, [], ◌∷◌, ◌==◌, and_false}
use fbapy.Base.Text.{Text, text_eq, text_eq_self}
use fbapy.Base.Exec.{ok, err, token_error}
use fbapy.Conf.{token_redis_prefix, token_refresh_redis_prefix}
use fbapy.Redis.{Server}
use fbapy.Token.{Jose, NewToken, TokenPayload, jwt_decode, session_key, create_new_token}
use fbapy.Token.Keys.{session_key-eq}
use fbapy.Token.Rotate.{create_new_token_returns}
use fbapy.Identity.{Directory, test_token, jwt_authentication}
use fbapy.Identity.Accept.{jwt_authentication_gone}
use fbapy.Lockout.{TimeFormat}
use fbapy.Auth.{Library, logout, logout_steps, drop_session}

module _ (r : Server) (f : TimeFormat) (j : Jose) (l : Library) (now : ℕ) (token : Text)
    (p : TokenPayload) where
  open r use {State, get, delete}

  logout_runs :
      (cookie : Option Text) (s : State)
      → jwt_decode j now token ≡ ok p
      → logout r f j l now (ok token) cookie s ≡ (ok tt, drop_session r f j l token p cookie s)
  logout_runs cookie s decoded = unfold logout logout_steps in rw decoded refl

  get-drop_session :
      (cookie : Option Text) (s : State)
      → get
          (drop_session r f j l token p cookie s)
          (session_key token_redis_prefix p.id p.session_uuid)
        ≡ none
  unfolding drop_session
  get-drop_session none s =
      let k = session_key token_redis_prefix p.id p.session_uuid in
      rw (r.get-delete _ _ k, r.get-delete k _ k, text_eq_self k)
  get-drop_session (some []) s =
      let k = session_key token_redis_prefix p.id p.session_uuid in
      rw (r.get-delete _ _ k, r.get-delete k _ k, text_eq_self k)
  get-drop_session (some (c ∷ t)) s =
      let k = session_key token_redis_prefix p.id p.session_uuid in
      rw (r.get-delete _ _ k, r.get-delete _ _ k, r.get-delete k _ k, text_eq_self k)

  -- A logout with a token that decodes and is not the test token returns, and in the state that it
  -- leaves the token is refused.
  pub logout-jwt_authentication :
      (d : Directory) (cookie : Option Text) (s : State)
      → token ≢ test_token
      → jwt_decode j now token ≡ ok p
      → let (result, s') = logout r f j l now (ok token) cookie s in
        (result ≡ ok tt)
        × (jwt_authentication r j d now token s' ≡ (err (token_error "Token 已过期"), s'))
  logout-jwt_authentication d cookie s other decoded =
      rw (logout_runs cookie s decoded) (
        refl,
        jwt_authentication_gone r j d now token _ p other decoded (get-drop_session cookie s),
      )

  refresh_kept :
      (c : ℕ) (t : Text) (s : State)
      → text_eq (c ∷ t) p.session_uuid ≡ false
      → get
          (drop_session r f j l token p (some (c ∷ t)) s)
          (session_key token_refresh_redis_prefix p.id p.session_uuid)
        ≡ get s (session_key token_refresh_redis_prefix p.id p.session_uuid)
  unfolding drop_session
  refresh_kept c t s h =
      let k = session_key token_refresh_redis_prefix p.id p.session_uuid in
      rw (
        r.get-delete _ _ k,
        session_key-eq token_refresh_redis_prefix p.id p.id (c ∷ t) p.session_uuid,
        h,
        and_false (p.id == p.id),
        r.get-delete _ _ k,
        r.get-delete _ _ k,
      )

  -- A logout with the refresh token of the session in its cookie does not revoke the refresh token,
  -- when that token differs from the session identifier: a call of `create_new_token` with it still
  -- returns a new pair of tokens.
  pub logout-create_new_token :
      (c : ℕ) (t : Text) (later : ℕ) (new_uuid : Text) (multi : Bool) (kwargs : Option Text)
      (s : State)
      → jwt_decode j now token ≡ ok p
      → text_eq (c ∷ t) p.session_uuid ≡ false
      → get s (session_key token_refresh_redis_prefix p.id p.session_uuid) ≡ some (c ∷ t)
      → let s' = (logout r f j l now (ok token) (some (c ∷ t)) s).1 in
        let (result, s'') =
          create_new_token r j later new_uuid (c ∷ t) p.session_uuid p.id multi kwargs s' in
        (new : NewToken) × (result ≡ ok new)
        × (new.session_uuid ≡ new_uuid)
        × (get s'' (session_key token_redis_prefix p.id new_uuid) ≡ some new.new_access_token)
  logout-create_new_token c t later new_uuid multi kwargs s decoded other stored =
      rw (logout_runs (some (c ∷ t)) s decoded) (
        create_new_token_returns r j later new_uuid (c ∷ t) p.session_uuid p.id multi kwargs _
          (λ e. cc) (refresh_kept c t s other ∙ stored))
