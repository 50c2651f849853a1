-- ===== src/Token/Create.antt =====
-- What `create_access_token` and `create_refresh_token` leave in Redis, key by key.
use fbapy.Base.{
  ℕ, ◌+◌, ◌≡◌, refl, Bool, false, not, ◌&&◌, Option, none, some, [], arith, ◌==◌, if◌then◌else◌,
  ==_self,
}
use fbapy.Base.Text.{Text, text_eq, text_eq_self, str, starts_with}
use fbapy.Conf.{
  token_expire_seconds, token_refresh_expire_seconds, token_redis_prefix,
  token_extra_info_redis_prefix, token_refresh_redis_prefix,
}
use fbapy.Redis.{Server}
use fbapy.Redis.Prefix.{get-delete_prefix}
use fbapy.Token.{
  Jose, user_key, session_key, create_access_token, create_refresh_token, store_extra,
  delete_prefix_default,
}
use fbapy.Token.Keys.{session_key-eq, user_key-session_key}

-- The token that is signed for a session.
abbrev pub signed : Jose → ℕ → Text → ℕ → Text
signed j exp session_uuid user_id =
    j.encode (record { session_uuid = some session_uuid; exp = some exp; sub = some (str user_id) })

module _ (r : Server) (j : Jose) (now : ℕ) (uuid : Text) (u : ℕ) (multi : Bool) where
  open r use {State, get}

  get-store_extra :
      (kwargs : Option Text) (s : State) (key : Text)
      → text_eq (session_key token_extra_info_redis_prefix u uuid) key ≡ false
      → get (store_extra r j u uuid kwargs s) key ≡ get s key
  unfolding store_extra
  get-store_extra none s key h = refl
  get-store_extra (some d) s key h = ground (
    arith,
    r.get-setex (session_key token_extra_info_redis_prefix u uuid) token_expire_seconds d s key,
  )

  -- A call with one device only clears the user's keys first.
  get-single :
      (p : Text) (s : State) (key : Text)
      → get (if multi then s else delete_prefix_default r j p [] s) key
        ≡ (if not multi && starts_with p key then none else get s key)
  get-single p s key = ground (arith, get-delete_prefix r p [] 1000 s key)

  -- Every key but that of the extra information.
  pub get-create_access_token :
      (kwargs : Option Text) (s : State) (key : Text)
      → text_eq (session_key token_extra_info_redis_prefix u uuid) key ≡ false
      → get (create_access_token r j now uuid u multi kwargs s).1 key ≡ (
          if text_eq (session_key token_redis_prefix u uuid) key
          then some (signed j (now + token_expire_seconds) uuid u)
          else if not multi && starts_with (user_key token_redis_prefix u) key
          then none
          else get s key)
  unfolding create_access_token
  get-create_access_token kwargs s key h = rw (
    get-store_extra kwargs _ key h,
    r.get-setex _ _ _ _ key,
    get-single (user_key token_redis_prefix u) s key,
  )

  pub get-create_access_token_extra :
      (d : Text) (s : State)
      → get
          (create_access_token r j now uuid u multi (some d) s).1
          (session_key token_extra_info_redis_prefix u uuid)
        ≡ some d
  unfolding create_access_token store_extra
  get-create_access_token_extra d s = rw (
    r.get-setex _ _ _ _ (session_key token_extra_info_redis_prefix u uuid),
    text_eq_self (session_key token_extra_info_redis_prefix u uuid),
  )

  pub get-create_refresh_token :
      (s : State) (key : Text)
      → get (create_refresh_token r j now uuid u multi s).1 key ≡ (
          if text_eq (session_key token_refresh_redis_prefix u uuid) key
          then some (signed j (now + token_refresh_expire_seconds) uuid u)
          else if not multi && starts_with (user_key token_refresh_redis_prefix u) key
          then none
          else get s key)
  unfolding create_refresh_token
  get-create_refresh_token s key =
      rw (r.get-setex _ _ _ _ key, get-single (user_key token_refresh_redis_prefix u) s key)

  -- The access token of a session of `v` after `u` has logged in as `uuid`: the new token for the
  -- session itself; nothing, with one device only, if the decimal `u` is a prefix of the decimal `v`;
  -- and what was stored, otherwise.
  pub create_access_token_sessions :
      (kwargs : Option Text) (s : State) (v : ℕ) (t : Text)
      → get
          (create_access_token r j now uuid u multi kwargs s).1
          (session_key token_redis_prefix v t)
        ≡ (if u == v && text_eq uuid t
            then some (signed j (now + token_expire_seconds) uuid u)
            else if not multi && starts_with (str u) (str v)
            then none
            else get s (session_key token_redis_prefix v t))
  create_access_token_sessions kwargs s v t = rw (
    get-create_access_token kwargs s (session_key token_redis_prefix v t) refl,
    session_key-eq token_redis_prefix u v uuid t,
    user_key-session_key token_redis_prefix u v t,
  )

  -- A single session key, right after the login that made it.
  pub create_access_token_own :
      (kwargs : Option Text) (s : State)
      → get
          (create_access_token r j now uuid u multi kwargs s).1
          (session_key token_redis_prefix u uuid)
        ≡ some (signed j (now + token_expire_seconds) uuid u)
  create_access_token_own kwargs s =
      rw (create_access_token_sessions kwargs s u uuid, ==_self u, text_eq_self uuid)
