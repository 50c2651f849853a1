-- ===== src/Token.antt =====
-- The token store of backend/common/security/jwt.py: JSON web tokens, and the Redis keys under which
-- a session's access token, extra information and refresh token are kept.
pub mod Keys
pub mod Create
pub mod Decode
pub mod Rotate
use fbapy.Base.{
  ℕ, suc, ◌+◌, ◌≡◌, Bool, true, false, not, Option, none, some, List, [], ◌∷◌, ◌++◌, ltb,
  if◌then◌else◌,
}
use fbapy.Base.Text.{Text, text_eq, str}
use fbapy.Base.Numerals.{int_of}
use fbapy.Base.Exec.{
  Result, ok, err, Exec, token_error, value_error, pure, raise, gets, modify, raise_if, ◌>>=◌, ◌>>◌,
}
use fbapy.Conf.{
  token_expire_seconds, token_refresh_expire_seconds, token_redis_prefix,
  token_extra_info_redis_prefix, token_refresh_redis_prefix,
}
use fbapy.Redis.{Server, delete_prefix}

-- The payload of a token: each claim may be missing in a token that others have made.
pub record Claims : Type 0 where
  pub session_uuid : Option Text
  pub exp : Option ℕ
  pub sub : Option Text

pub data Decoded : Type 0 where
  claims : Claims → Decoded
  expired : Decoded
  invalid : Decoded

-- The library `jose`, with the key and the algorithm of the settings: what it has signed, it decodes
-- until the time `exp`, and refuses as expired after it.
pub record Jose : Type 0 where
  pub encode : Claims → Text
  pub decode : ℕ → Text → Decoded
  pub decode-encode :
      (now e : ℕ) (c : Claims)
      → c.exp ≡ some e
      → decode now (encode c) ≡ (if ltb e now then expired else claims c)

pub record TokenPayload : Type 0 where
  pub id : ℕ
  pub session_uuid : Text
  pub expire_time : ℕ

-- `if not session_uuid or not user_id or not expire`, and the conversion after the `try`
pub payload : Option Text → Option Text → Option ℕ → Result TokenPayload
payload (some (u ∷ us)) (some (i ∷ is)) (some (suc e)) = elim (int_of (i ∷ is)) [
  | none ↦ err value_error
  | some id ↦ ok (record { id = id; session_uuid = u ∷ us; expire_time = suc e })
]
payload _ _ _ = err (token_error "Token 无效")

pub read_decoded : Decoded → Result TokenPayload
read_decoded (claims c) = payload c.session_uuid c.sub c.exp
read_decoded expired = err (token_error "Token 已过期")
read_decoded invalid = err (token_error "Token 无效")

unfoldable pub jwt_decode : Jose → ℕ → Text → Result TokenPayload
unfolding read_decoded payload
jwt_decode j now token = read_decoded (j.decode now token)

-- `f'{prefix}:{user_id}'` and `f'{prefix}:{user_id}:{name}'`
abbrev pub user_key : Text → ℕ → Text
user_key prefix user_id = prefix ++ 58 ∷ str user_id

abbrev pub session_key : Text → ℕ → Text → Text
session_key prefix user_id name = prefix ++ 58 ∷ (str user_id ++ 58 ∷ name)

pub record AccessToken : Type 0 where
  pub access_token : Text
  pub access_token_expire_time : ℕ
  pub session_uuid : Text

pub record RefreshToken : Type 0 where
  pub refresh_token : Text
  pub refresh_token_expire_time : ℕ

pub record NewToken : Type 0 where
  pub new_access_token : Text
  pub new_access_token_expire_time : ℕ
  pub new_refresh_token : Text
  pub new_refresh_token_expire_time : ℕ
  pub session_uuid : Text

module _ (r : Server) (j : Jose) where
  open r use {State, get, setex, delete}
  open j use {encode}

  -- The default `batch_size` of `delete_prefix`.
  abbrev pub delete_prefix_default : Text → List Text → State → State
  delete_prefix_default prefix exclude = delete_prefix r prefix exclude 1000

  pub store_extra : ℕ → Text → Option Text → State → State
  store_extra user_id session_uuid none s = s
  store_extra user_id session_uuid (some dumped) s =
      setex (session_key token_extra_info_redis_prefix user_id session_uuid) token_expire_seconds
        dumped s

  -- `session_uuid` is the value of `uuid4()`, `kwargs` the dumped extra information, if any is given.
  unfoldable pub create_access_token : ℕ → Text → ℕ → Bool → Option Text → Exec State AccessToken
  unfolding store_extra
  create_access_token now session_uuid user_id multi_login kwargs = do
    let expire = now + token_expire_seconds
    let access_token =
        encode
          (record { session_uuid = some session_uuid; exp = some expire; sub = some (str user_id) })
    modify (λ s.
        if multi_login then s else delete_prefix_default (user_key token_redis_prefix user_id) [] s)
    modify (
        setex (session_key token_redis_prefix user_id session_uuid) token_expire_seconds
          access_token)
    modify (store_extra user_id session_uuid kwargs)
    pure (record {
      access_token = access_token;
      access_token_expire_time = expire;
      session_uuid = session_uuid;
    })

  unfoldable pub create_refresh_token : ℕ → Text → ℕ → Bool → Exec State RefreshToken
  create_refresh_token now session_uuid user_id multi_login = do
    let expire = now + token_refresh_expire_seconds
    let refresh_token =
        encode
          (record { session_uuid = some session_uuid; exp = some expire; sub = some (str user_id) })
    modify (λ s.
        if multi_login
        then s
        else delete_prefix_default (user_key token_refresh_redis_prefix user_id) [] s)
    modify (
        setex (session_key token_refresh_redis_prefix user_id session_uuid)
          token_refresh_expire_seconds refresh_token)
    pure (record { refresh_token = refresh_token; refresh_token_expire_time = expire })

  -- `not redis_refresh_token or redis_refresh_token != refresh_token`
  pub is_current : Text → Option Text → Bool
  is_current token none = false
  is_current token (some []) = false
  is_current token (some (c ∷ stored)) = text_eq (c ∷ stored) token

  -- `new_uuid` is the session identifier that `create_access_token` draws.
  unfoldable pub create_new_token :
      ℕ → Text → Text → Text → ℕ → Bool → Option Text → Exec State NewToken
  unfolding is_current
  create_new_token now new_uuid refresh_token session_uuid user_id multi_login kwargs = do
    stored ← gets (λ s. get s (session_key token_refresh_redis_prefix user_id session_uuid))
    raise_if (not (is_current refresh_token stored)) (token_error "Refresh Token 已过期，请重新登录")
    modify (delete (session_key token_refresh_redis_prefix user_id session_uuid))
    modify (delete (session_key token_redis_prefix user_id session_uuid))
    access ← create_access_token now new_uuid user_id multi_login kwargs
    refresh ← create_refresh_token now access.session_uuid user_id multi_login
    pure (record {
      new_access_token = access.access_token;
      new_access_token_expire_time = access.access_token_expire_time;
      new_refresh_token = refresh.refresh_token;
      new_refresh_token_expire_time = refresh.refresh_token_expire_time;
      session_uuid = access.session_uuid;
    })

  unfoldable pub revoke_token : ℕ → Text → Exec State (Unit {0})
  revoke_token user_id session_uuid = do
    modify (delete (session_key token_redis_prefix user_id session_uuid))
    modify (delete (session_key token_extra_info_redis_prefix user_id session_uuid))
