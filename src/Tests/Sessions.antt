-- ===== src/Tests/Sessions.antt =====
-- Tests of the tokens and of the sessions in Redis.
use fbapy.Base.{◌+◌, ◌≡◌, refl, inl, ◌⊎◌, false, none, some, [], ◌∷◌, arith, ◌↔◌}
use fbapy.Base.Text.{strip, Text, str, codes, text_eq}
use fbapy.Base.Exec.{ok, err, token_error}
use fbapy.Conf.{
  token_expire_seconds, token_refresh_expire_seconds, token_redis_prefix,
  token_refresh_redis_prefix, jwt_user_redis_prefix,
}
use fbapy.Base.Numerals.{int_of}
use fbapy.Redis.Table.{table_server, Table}
use fbapy.Token.{
  TokenPayload, NewToken, jwt_decode, user_key, session_key, create_access_token, create_new_token,
}
use fbapy.Token.Create.{signed, create_access_token_sessions}
use fbapy.Token.Decode.{jwt_decode-signed}
use fbapy.Token.Rotate.{create_new_token_rotates, create_new_token_once}
use fbapy.Identity.{
  admin, test_token, get_current_user, identify, session_identity, stored_check, admin_identity,
  jwt_authentication,
}
use fbapy.Identity.Active.{IsActive, get_current_user_lem}
use fbapy.Identity.Accept.{jwt_authentication_stored, jwt_authentication-create_access_token}
use fbapy.Auth.{Library, logout}
use fbapy.Auth.Logout.{logout-jwt_authentication, logout-create_new_token}
use fbapy.Tests.{written_jose, whole_seconds, root_user, root_directory}

-- A session of the user 1 and one of the user 10.
abbrev two_users : Table
two_users = (codes "fba:token:1:s", codes "x") ∷ (codes "fba:token:10:t", codes "y") ∷ []

create_access_token_sessions_example :
    table_server.get
      (create_access_token table_server written_jose 100 (codes "n") 1 false none two_users).1
      (session_key token_redis_prefix 10 (codes "t"))
    ≡ none
unfolding str
create_access_token_sessions_example =
    create_access_token_sessions table_server written_jose 100 (codes "n") 1 false none two_users 10
      (codes "t")

jwt_decode-signed_example :
    jwt_decode written_jose 50 (signed written_jose 100 (codes "s") 7)
    ≡ ok (record { id = 7; session_uuid = codes "s"; expire_time = 100 })
jwt_decode-signed_example = jwt_decode-signed written_jose 50 99 7 115 []

-- The session `s` of the user 7, with a refresh token.
abbrev refresh : Text
refresh = signed written_jose 1000 (codes "s") 7

abbrev token : Text
token = signed written_jose 900 (codes "s") 7

abbrev logged_in : Table
logged_in = (codes "fba:token:7:s", token) ∷ (codes "fba:refresh_token:7:s", refresh) ∷ []

create_new_token_rotates_example :
    let (result, s') =
      create_new_token table_server written_jose 100
        (codes "n")
        refresh
        (codes "s")
        7
        false
        none
        logged_in in
    (result
      ≡ ok (record {
        new_access_token = signed written_jose (100 + token_expire_seconds) (codes "n") 7;
        new_access_token_expire_time = 100 + token_expire_seconds;
        new_refresh_token = signed written_jose (100 + token_refresh_expire_seconds) (codes "n") 7;
        new_refresh_token_expire_time = 100 + token_refresh_expire_seconds;
        session_uuid = codes "n";
      }))
    × (table_server.get s' (session_key token_redis_prefix 7 (codes "n"))
        ≡ some (signed written_jose (100 + token_expire_seconds) (codes "n") 7))
    × (table_server.get s' (session_key token_refresh_redis_prefix 7 (codes "n"))
        ≡ some (signed written_jose (100 + token_refresh_expire_seconds) (codes "n") 7))
    × (table_server.get s' (session_key token_redis_prefix 7 (codes "s")) ≡ none)
    × (table_server.get s' (session_key token_refresh_redis_prefix 7 (codes "s")) ≡ none)
unfolding str
create_new_token_rotates_example =
    create_new_token_rotates table_server written_jose 100 (codes "n") refresh (codes "s") 7 false
      none logged_in (λ e. cc) refl refl

create_new_token_once_example :
    let s' =
      (create_new_token table_server written_jose 100
        (codes "n")
        refresh
        (codes "s")
        7
        false
        none
        logged_in).1 in
    create_new_token table_server written_jose 200 (codes "m") refresh (codes "s") 7 false none s'
    ≡ (err (token_error "Refresh Token 已过期，请重新登录"), s')
unfolding str
create_new_token_once_example =
    create_new_token_once table_server written_jose 100 200 (codes "n") (codes "m") refresh
      (codes "s") 7 false false none none logged_in (λ e. cc) refl refl

get_current_user_lem_example :
    (get_current_user (some root_user) ≡ ok root_user)
    ↔ ((some root_user ≡ some root_user) × IsActive root_user)
get_current_user_lem_example = get_current_user_lem (some root_user) root_user

abbrev payload_7 : TokenPayload
payload_7 = record { id = 7; session_uuid = codes "s"; expire_time = 900 }

decoded_7 : jwt_decode written_jose 100 token ≡ ok payload_7
decoded_7 = jwt_decode-signed written_jose 100 899 7 115 []

active_root : get_current_user (root_directory.select_user 7) ≡ ok root_user
unfolding get_current_user
active_root = refl

jwt_authentication-create_access_token_example :
    let (login, s') =
      create_access_token table_server written_jose 100
        (codes "n")
        7
        false
        (some (codes "{}"))
        [] in
    let token = signed written_jose (100 + token_expire_seconds) (codes "n") 7 in
    let (result, after) =
      jwt_authentication table_server written_jose root_directory 200 token s' in
    (login
      ≡ ok (record {
        access_token = token;
        access_token_expire_time = 100 + token_expire_seconds;
        session_uuid = codes "n";
      }))
    × (result ≡ ok (admin root_user))
    × (table_server.get after (user_key jwt_user_redis_prefix 7)
        ≡ some (root_directory.dump_user root_user))
jwt_authentication-create_access_token_example =
    jwt_authentication-create_access_token table_server written_jose root_directory 100 200 7 110 []
      false (codes "{}") [] root_user (omega arith) (λ e. cc) (λ e. cc) refl active_root (inl refl)

abbrev library : Library
library = record { password_verify = text_eq; lower = λ t. t }

logout-jwt_authentication_example :
    let (result, s') =
      logout table_server whole_seconds written_jose library 100
        (ok token)
        (some refresh)
        logged_in in
    (result ≡ ok tt)
    × (jwt_authentication table_server written_jose root_directory 100 token s'
        ≡ (err (token_error "Token 已过期"), s'))
logout-jwt_authentication_example =
    logout-jwt_authentication table_server whole_seconds written_jose library 100 token payload_7
      root_directory (some refresh) logged_in (λ e. cc) decoded_7

-- The user 7 is cached, so that an authentication succeeds.
abbrev cached_session : Table
cached_session =
    (codes "fba:token_extra_info:7:s", codes "{}")
    ∷ (codes "fba:user:7", root_directory.dump_user root_user)
    ∷ logged_in

accepted :
    jwt_authentication table_server written_jose root_directory 100 token cached_session
    ≡ (ok (admin root_user), cached_session)
unfolding jwt_authentication jwt_decode str int_of session_identity stored_check identify strip
    admin_identity
accepted = refl

jwt_authentication_stored_example :
    (token ≡ test_token)
    ⊎ ((p : TokenPayload) × (jwt_decode written_jose 100 token ≡ ok p)
        × (table_server.get cached_session (session_key token_redis_prefix p.id p.session_uuid)
            ≡ some token))
jwt_authentication_stored_example =
    jwt_authentication_stored table_server written_jose root_directory 100 token cached_session
      cached_session (admin root_user) accepted

logout-create_new_token_example :
    let s' =
      (logout table_server whole_seconds written_jose library 100
        (ok token)
        (some refresh)
        logged_in).1 in
    let (result, s'') =
      create_new_token table_server written_jose 150
        (codes "n")
        refresh
        (codes "s")
        7
        false
        none
        s' in
    (new : NewToken) × (result ≡ ok new)
    × (new.session_uuid ≡ codes "n")
    × (table_server.get s'' (session_key token_redis_prefix 7 (codes "n"))
        ≡ some new.new_access_token)
unfolding str
logout-create_new_token_example =
    logout-create_new_token table_server whole_seconds written_jose library 100 token payload_7 1 _
      150 (codes "n") false none logged_in decoded_7 refl refl
