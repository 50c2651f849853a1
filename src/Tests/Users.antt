-- ===== src/Tests/Users.antt =====
-- Tests of the user service, and of the cache of users.
use fbapy.Base.{ℕ, ◌≡◌, refl, true, false, none, some, [], ◌∷◌}
use fbapy.Base.Text.{Text, codes}
use fbapy.Base.Exec.{ok}
use fbapy.Conf.{default_settings, token_redis_prefix, token_refresh_redis_prefix}
use fbapy.DynamicConfig.{load_user_security_config}
use fbapy.Redis.Table.{table_server, Table}
use fbapy.Token.{session_key, TokenPayload, jwt_decode}
use fbapy.Token.Create.{signed}
use fbapy.Token.Decode.{jwt_decode-signed}
use fbapy.UserTable.{Member, map_tables, MapState}
use fbapy.Password.{validate_rules, history_check}
use fbapy.User.{Store, ResetPasswordParam, validate_new_password, reset_password, update_password}
use fbapy.User.Sessions.{reset_password_sessions, update_password_sessions}
use fbapy.UserCache.{Associations}
use fbapy.Tests.{written_jose, plain_passwords, plain_hashing}

abbrev member : ℕ → Member
member i = record {
  id = i;
  nickname = codes "n";
  avatar = codes "a";
  email = codes "e";
  password = some (codes "secret1");
  status = 1;
  is_superuser = false;
  is_staff = true;
  is_multi_login = false;
  last_password_changed_time = none;
}

abbrev rows : MapState
rows = ((λ i. some (member i)), [])

-- One session of the user 7, and the defaults.
abbrev store : Store table_server map_tables
store = record {
  redis = (codes "fba:token:7:s", codes "x") ∷ (codes "fba:refresh_token:7:s", codes "y") ∷ [];
  settings = default_settings;
  tables = rows;
}

new_is_valid :
    validate_new_password table_server map_tables plain_passwords plain_hashing none 7
      (codes "secret2")
      store
    ≡ (ok tt, store)
unfolding validate_new_password load_user_security_config validate_rules history_check
new_is_valid = refl

reset_password_sessions_example :
    let (result, w') =
      reset_password table_server map_tables plain_passwords plain_hashing none 5 7
        (codes "secret2")
        store in
    (result ≡ ok tt)
    × ((v : ℕ) (session_uuid : Text)
        → (table_server.get w'.redis (session_key token_redis_prefix v session_uuid)
            ≡ table_server.get store.redis (session_key token_redis_prefix v session_uuid))
          × (table_server.get w'.redis (session_key token_refresh_redis_prefix v session_uuid)
              ≡ table_server.get store.redis
                  (session_key token_refresh_redis_prefix v session_uuid)))
reset_password_sessions_example =
    reset_password_sessions table_server map_tables plain_passwords plain_hashing none 5 7
      (codes "secret2") (codes "secret1") (member 7) store store refl refl new_is_valid

abbrev change : ResetPasswordParam
change = record {
  old_password = codes "secret1";
  new_password = codes "secret2";
  confirm_password = codes "secret2";
}

update_password_sessions_example :
    let (result, w') =
      update_password table_server map_tables plain_passwords plain_hashing none 5 7 change store in
    (result ≡ ok tt)
    × ((session_uuid : Text)
        → (table_server.get w'.redis (session_key token_redis_prefix 7 session_uuid) ≡ none)
          × (table_server.get w'.redis (session_key token_refresh_redis_prefix 7 session_uuid)
              ≡ none))
update_password_sessions_example =
    update_password_sessions table_server map_tables plain_passwords plain_hashing none 5 7 change
      (codes "secret1") (member 7) store store refl refl refl refl new_is_valid

-- The request of the user 1.
abbrev token : Text
token = signed written_jose 900 (codes "s") 1

abbrev payload_1 : TokenPayload
payload_1 = record { id = 1; session_uuid = codes "s"; expire_time = 900 }

decoded_1 : jwt_decode written_jose 100 token ≡ ok payload_1
decoded_1 = jwt_decode-signed written_jose 100 899 1 115 []

abbrev tables : Associations
tables = record {
  user_role = (7, 2) ∷ [];
  role_menu = (2, 30) ∷ [];
  role_data_scope = (2, 40) ∷ [];
  data_scope_rule = (40, 50) ∷ [];
}

abbrev cached : Table
cached = (codes "fba:user:7", codes "{}") ∷ []
