-- ===== src/Identity/Accept.antt =====
-- Which tokens `jwt_authentication` accepts.
use fbapy.Base.{
  ℕ, ◌+◌, ◌≡◌, refl, ◌≢◌, ◌⊎◌, inl, inr, Bool, false, Option, none, some, [], ◌∷◌, arith, ◌≤◌,
  Bool-cases, ◌∙◌, sym, ap, subst, if_true,
}
use fbapy.Base.Text.{Text, text_eq, text_eq→eq, text_eq_self, text_ne}
use fbapy.Base.Exec.{Result, lift-bind-ok, ok, err, token_error}
use fbapy.Conf.{
  jwt_user_redis_prefix, token_redis_prefix, token_extra_info_redis_prefix, token_expire_seconds,
}
use fbapy.Redis.{Server}
use fbapy.Token.{
  Jose, TokenPayload, jwt_decode, session_key, user_key, revoke_token, create_access_token,
}
use fbapy.Token.Create.{
  signed, create_access_token_own, get-create_access_token, get-create_access_token_extra,
}
use fbapy.Token.Decode.{jwt_decode_fresh}
use fbapy.Identity.{
  User, Directory, Identity, admin, get_current_user, fetch_admin, admin_identity, test_token,
  stored_check, identify, session_identity, jwt_authentication,
}

module _ (r : Server) (j : Jose) (d : Directory) where
  open r use {State, get}

  stored_check-ok :
      (token : Text) (stored : Option Text) (a : Unit {0})
      → stored_check r j d token stored ≡ ok a
      → stored ≡ some token
  unfolding stored_check
  stored_check-ok token none a h = cc
  stored_check-ok token (some []) a h = cc
  stored_check-ok token (some (c ∷ stored)) a h = ground (arith, text_eq→eq token (c ∷ stored))

  session_identity-stored :
      (token : Text) (p : TokenPayload) (s s' : State) (who : Identity)
      → session_identity r j d token p s ≡ (ok who, s')
      → get s (session_key token_redis_prefix p.id p.session_uuid) ≡ some token
  unfolding session_identity
  session_identity-stored token p s s' who h =
      let stored = get s (session_key token_redis_prefix p.id p.session_uuid) in
      let passed = lift-bind-ok (stored_check r j d token stored) _ s h in
      stored_check-ok token stored passed.0 passed.1

  -- A token that is accepted in the state `s` is the test token, or it decodes to a payload whose
  -- session has this very token in Redis.
  pub jwt_authentication_stored :
      (now : ℕ) (token : Text) (s s' : State) (who : Identity)
      → jwt_authentication r j d now token s ≡ (ok who, s')
      → (token ≡ test_token)
        ⊎ ((p : TokenPayload) × (jwt_decode j now token ≡ ok p)
            × (get s (session_key token_redis_prefix p.id p.session_uuid) ≡ some token))
  unfolding jwt_authentication
  jwt_authentication_stored now token s s' who h = elim (Bool-cases (text_eq token test_token)) [
    | inl test ↦ inl (text_eq→eq token test_token test)
    | inr other ↦
        let (p, decoded, rest) =
          lift-bind-ok (jwt_decode j now token) (session_identity r j d token) s (rw other at h) in
        inr (p, decoded, session_identity-stored token p s s' who rest)
  ]

  pub jwt_authentication_gone :
      (now : ℕ) (token : Text) (s : State) (p : TokenPayload)
      → token ≢ test_token
      → jwt_decode j now token ≡ ok p
      → get s (session_key token_redis_prefix p.id p.session_uuid) ≡ none
      → jwt_authentication r j d now token s ≡ (err (token_error "Token 已过期"), s)
  unfolding jwt_authentication session_identity stored_check
  jwt_authentication_gone now token s p other decoded gone =
      rw (text_ne token test_token other, decoded, gone)

  -- A token other than the test token that decodes is refused once its session is revoked, and the
  -- refusal changes nothing.
  jwt_authentication-revoke_token :
      (now : ℕ) (token : Text) (s : State) (p : TokenPayload)
      → token ≢ test_token
      → jwt_decode j now token ≡ ok p
      → let s' = (revoke_token r j p.id p.session_uuid s).1 in
        jwt_authentication r j d now token s' ≡ (err (token_error "Token 已过期"), s')
  unfolding revoke_token
  jwt_authentication-revoke_token now token s p other decoded =
      let k = session_key token_redis_prefix p.id p.session_uuid in
      let e = session_key token_extra_info_redis_prefix p.id p.session_uuid in
      let gone : get (r.delete e (r.delete k s)) k ≡ none =
        rw (r.get-delete e _ k, r.get-delete k s k, text_eq_self k) in
      jwt_authentication_gone now token _ p other decoded gone

  stored_check_self : (token : Text) → token ≢ [] → stored_check r j d token (some token) ≡ ok tt
  unfolding stored_check
  stored_check_self [] h = absurd (h refl)
  stored_check_self (c ∷ t) h = rw (text_eq_self (c ∷ t))

  session_identity-known :
      (token extra : Text) (p : TokenPayload) (s : State)
      → token ≢ []
      → get s (session_key token_redis_prefix p.id p.session_uuid) ≡ some token
      → get s (session_key token_extra_info_redis_prefix p.id p.session_uuid) ≡ some extra
      → session_identity r j d token p s ≡ identify r j d p.id extra s
  unfolding session_identity
  session_identity-known token extra p s filled stored known =
      rw (stored, stored_check_self token filled, known)

  accepted_step :
      (token : Text) (p : TokenPayload) (s : State)
      → text_eq token test_token ≡ false
      → (now : ℕ) → jwt_decode j now token ≡ ok p
      → jwt_authentication r j d now token s ≡ session_identity r j d token p s
  unfolding jwt_authentication
  accepted_step token p s other now decoded = rw (other, decoded)

  -- The identification that a request with the token of a login reaches.
  identified :
      (now at u c : ℕ) (t : Text) (multi : Bool) (extra : Text) (s : State)
      → at ≤ now + token_expire_seconds
      → signed j (now + token_expire_seconds) (c ∷ t) u ≢ test_token
      → signed j (now + token_expire_seconds) (c ∷ t) u ≢ []
      → let (login, s') = create_access_token r j now (c ∷ t) u multi (some extra) s in
        (login
          ≡ ok (record {
            access_token = signed j (now + token_expire_seconds) (c ∷ t) u;
            access_token_expire_time = now + token_expire_seconds;
            session_uuid = c ∷ t;
          }))
        × (jwt_authentication r j d at (signed j (now + token_expire_seconds) (c ∷ t) u) s'
            ≡ identify r j d u extra s')
  unfolding jwt_authentication
  identified now at u c t multi extra s fresh other filled =
      let token = signed j (now + token_expire_seconds) (c ∷ t) u in
      let s' = (create_access_token r j now (c ∷ t) u multi (some extra) s).1 in
      let p : TokenPayload = record {
        id = u;
        session_uuid = c ∷ t;
        expire_time = now + token_expire_seconds;
      } in
      let decoded = jwt_decode_fresh j at (now + token_expire_seconds) u c t (omega arith) fresh in
      let stored = create_access_token_own r j now (c ∷ t) u multi (some extra) s in
      let accepted =
        session_identity-known token extra p s' filled stored
          (get-create_access_token_extra r j now (c ∷ t) u multi extra s) in
      let step = accepted_step token p s' (text_ne token test_token other) at decoded in
      ((unfold create_access_token in refl), step ∙ accepted)

  -- What an administrator's cache may hold when a request comes: nothing, or the row itself.
  abbrev pub Cached : ℕ → User → State → Type 0
  Cached u user s =
      (get s (user_key jwt_user_redis_prefix u) ≡ none)
      ⊎ (get s (user_key jwt_user_redis_prefix u) ≡ some (d.dump_user user))

  abbrev Answered : ℕ → User → Result Identity × State → Type 0
  Answered u user (result, after) =
      (result ≡ ok (admin user))
      × (get after (user_key jwt_user_redis_prefix u) ≡ some (d.dump_user user))

  fetch_admin-Answered :
      (u : ℕ) (user : User) (s : State)
      → get_current_user (d.select_user u) ≡ ok user
      → Answered u user (fetch_admin r j d u s)
  unfolding fetch_admin
  fetch_admin-Answered u user s active =
      let key = user_key jwt_user_redis_prefix u in
      rw active (
        refl,
        r.get-setex key token_expire_seconds (d.dump_user user) s key
            ∙ if_true (some (d.dump_user user)) (get s key) (text_eq_self key),
      )

  admin_identity-Answered :
      (u : ℕ) (user : User) (o : Option Text) (s : State)
      → get_current_user (d.select_user u) ≡ ok user
      → (o ≡ none) ⊎ (o ≡ some (d.dump_user user))
      → get s (user_key jwt_user_redis_prefix u) ≡ o
      → Answered u user (admin_identity r j d u o s)
  unfolding admin_identity
  admin_identity-Answered u user none s active h e = fetch_admin-Answered u user s active
  admin_identity-Answered u user (some []) s active h e = fetch_admin-Answered u user s active
  admin_identity-Answered u user (some (c ∷ t)) s active h e = elim h [
    | inl gone ↦ absurd (cc)
    | inr kept ↦
        let same : c ∷ t ≡ d.dump_user user = cc in
        (
          ap (λ x. ok (admin (d.load_user x))) same
              ∙ ap (λ x. ok (admin x)) (d.load-dump_user user),
          e ∙ kept,
        )
  ]

  identify-Answered :
      (u : ℕ) (user : User) (extra : Text) (s : State)
      → d.is_domain extra ≡ false
      → get_current_user (d.select_user u) ≡ ok user
      → Cached u user s
      → Answered u user (identify r j d u extra s)
  unfolding identify
  identify-Answered u user extra s staff active cached = rw staff (
      admin_identity-Answered u user (get s (user_key jwt_user_redis_prefix u)) s active cached
        refl)

  -- Where the login leaves the cached row of the user alone.
  login_keeps :
      (now u c : ℕ) (t : Text) (multi : Bool) (extra : Text) (s : State)
      → get
          (create_access_token r j now (c ∷ t) u multi (some extra) s).1
          (user_key jwt_user_redis_prefix u)
        ≡ get s (user_key jwt_user_redis_prefix u)
  login_keeps now u c t multi extra s =
      get-create_access_token r j now (c ∷ t) u multi (some extra) s
        (user_key jwt_user_redis_prefix u) refl
      ∙ ground arith

  -- Let a login of an administrator store extra information, let the row of the user pass the checks
  -- on users, and let the cache hold nothing for the user or this row. Then the new access token, if
  -- it is neither empty nor the test token, is accepted until it expires, the caller is identified as
  -- the user with this row, and the row is cached.
  pub jwt_authentication-create_access_token :
      (now at u c : ℕ) (t : Text) (multi : Bool) (extra : Text) (s : State) (user : User)
      → at ≤ now + token_expire_seconds
      → signed j (now + token_expire_seconds) (c ∷ t) u ≢ test_token
      → signed j (now + token_expire_seconds) (c ∷ t) u ≢ []
      → d.is_domain extra ≡ false
      → get_current_user (d.select_user u) ≡ ok user
      → Cached u user s
      → let (login, s') = create_access_token r j now (c ∷ t) u multi (some extra) s in
        let token = signed j (now + token_expire_seconds) (c ∷ t) u in
        let (result, after) = jwt_authentication r j d at token s' in
        (login
          ≡ ok (record {
            access_token = token;
            access_token_expire_time = now + token_expire_seconds;
            session_uuid = c ∷ t;
          }))
        × (result ≡ ok (admin user))
        × (get after (user_key jwt_user_redis_prefix u) ≡ some (d.dump_user user))
  jwt_authentication-create_access_token now at u c t multi extra s user fresh other filled staff
        active cached =
      let (login, reached) = identified now at u c t multi extra s fresh other filled in
      let s' = (create_access_token r j now (c ∷ t) u multi (some extra) s).1 in
      let kept : Cached u user s' =
        subst (λ o. (o ≡ none) ⊎ (o ≡ some (d.dump_user user)))
          (sym (login_keeps now u c t multi extra s)) cached in
      let (result, stored) =
        subst (Answered u user) (sym reached)
          (identify-Answered u user extra s' staff active kept) in
      (login, result, stored)
