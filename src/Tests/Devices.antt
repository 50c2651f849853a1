-- ===== src/Tests/Devices.antt =====
-- Tests of the repository of devices.
use fbapy.Base.{inl, ◌++◌, ◌≡◌, refl, Option, none, some, [], ◌∷◌}
use fbapy.Base.Text.{Text, codes, strip, split_from}
use fbapy.Base.Exec.{ok}
use fbapy.Redis.Table.{table_server}
use fbapy.Device.{
  View, none_view, str_view, member_view, redis_individual, Dict, get, field_config, redis_json,
  updates_of, Json, Repository, set_fields, loads_dict, load_cache, write_json, set_individual,
  update, put,
}
use fbapy.Device.Stored.{loads_dict_drops}
use fbapy.Device.Fields.{
  connection_enum, repeat_enum, enum_type, field_types, parse_field, member_named, get_field,
}
use fbapy.Device.Read.{get_field-set_fields}

-- Values are texts, members of enums and `None`, and the JSON of a device is the text of its alarms.
data Item : Type 0 where
  none_item : Item
  str_item : Text → Item
  member_item : Text → Text → Item

abbrev seen : Item → View Item
seen none_item = none_view
seen (str_item t) = str_view t
seen (member_item c n) = member_view c n

abbrev str_of_item : Item → Text
str_of_item none_item = codes "None"
str_of_item (str_item t) = t
str_of_item (member_item c n) = c ++ codes "." ++ n

abbrev alarms_of : Option Item → Text
alarms_of none = codes "0"
alarms_of (some v) = str_of_item v

abbrev alarms_json : Json
alarms_json = record {
  Value = Item;
  view = seen;
  none_value = none_item;
  str_value = str_item;
  int_value = λ n. none_item;
  bool_value = λ b. none_item;
  member_value = member_item;
  list_value = λ vs. none_item;
  str_of = str_of_item;
  int_of = λ v. none;
  upper = λ t. t;
  number_of = λ v. none;
  dumps = λ d. alarms_of (get (codes "alarms") d);
  loads = λ t. some ((codes "alarms", str_item t) ∷ []);
  view-str_value = λ t. refl;
  str_of-str_value = λ t. refl;
  upper-capitals = λ t h. refl;
}

abbrev device : Repository table_server alarms_json
device = record {
  prefix = codes "device:d:";
  redis = (codes "device:d:_state_json", codes "a") ∷ [];
  memory_cache = [];
  json_cache = [];
}

abbrev repeat_all : Item
repeat_all = member_item (codes "RepeatMode") (codes "ALL")

abbrev repeat : Dict Item
repeat = (codes "repeat_mode", repeat_all) ∷ []

only_json : updates_of redis_json repeat ≡ repeat
unfolding get
only_json = refl

loads_dict_drops_example :
    let (result, after) = loads_dict table_server alarms_json repeat device in
    (result ≡ ok tt)
    × ((cache : Dict Item) × (table_server.get after.redis (codes "device:d:_state_json")
          ≡ some (alarms_json.dumps cache))
        × ((field : Text)
            → get field (updates_of redis_json repeat) ≡ none
            → get field cache ≡ none))
loads_dict_drops_example =
    loads_dict_drops table_server alarms_json repeat (codes "repeat_mode", repeat_all) [] device
      refl only_json

-- The connection type is kept as the text `ConnectionType.WIFI`.
abbrev wifi : Item
wifi = member_item (codes "ConnectionType") (codes "WIFI")

abbrev after : Repository table_server alarms_json
after = (set_fields table_server alarms_json ((codes "connection_type", wifi) ∷ []) device).1

set_result :
    set_fields table_server alarms_json ((codes "connection_type", wifi) ∷ []) device
    ≡ (ok tt, after)
unfolding set_fields get load_cache write_json set_individual update put
set_result = refl

configured : get (codes "connection_type") field_config ≡ some redis_individual
unfolding get
configured = refl

typed : get (codes "connection_type") field_types ≡ some (enum_type connection_enum)
unfolding get
typed = refl

get_field-set_fields_example :
    (get_field table_server alarms_json (λ v. none) (codes "connection_type") after).0 ≡ ok wifi
get_field-set_fields_example =
    get_field-set_fields table_server alarms_json (λ v. none) redis_individual
      (codes "connection_type") wifi device after configured
      (enum_type connection_enum, typed, (refl, (codes "WIFI", inl refl, refl, refl))) set_result

-- A text that is no member is read as `None`; the name of one, as the member.
read_text :
    (parse_field alarms_json (λ v. none) (enum_type repeat_enum) (str_item (codes "none such"))
      ≡ none_item)
    × (parse_field alarms_json (λ v. none) (enum_type repeat_enum) (str_item (codes " ALL"))
        ≡ repeat_all)
unfolding parse_field member_named strip split_from
read_text = (refl, refl)
