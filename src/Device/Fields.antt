-- ===== src/Device/Fields.antt =====
-- `get_field` of backend/common/device/repository.py with `_parse_field`, `_parse_enum` and `_parse_model`. What
-- the last makes of a dict, field by field, is a parameter.
use fbapy.Base.{
  ℕ, zero, suc, false, Option, none, some, List, [], ◌∷◌, any, map, ◌++◌, if◌then◌else◌,
}
use fbapy.Base.Text.{Text, text_eq, codes, strip, split_on}
use fbapy.Base.Exec.{Result, ok, err, Exec, value_error, ◌>>=◌}
use fbapy.Redis.{Server}
use fbapy.Device.{
  View, none_view, str_view, member_view, list_view, alarm_view, StorageStrategy, memory,
  redis_individual, redis_json, field_config, Dict, get, Json, Repository, load_cache,
}

-- An `Enum`, whose members have the values 1, 2, … of `auto()`
pub record EnumClass : Type 0 where
  pub name : Text
  pub members : List Text

abbrev pub connection_enum : EnumClass
connection_enum = record {
  name = codes "ConnectionType";
  members = codes "WIFI" ∷ codes "ETHERNET" ∷ codes "CELLULAR" ∷ [];
}

abbrev pub repeat_enum : EnumClass
repeat_enum = record {
  name = codes "RepeatMode";
  members = codes "NONE" ∷ codes "ONE" ∷ codes "ALL" ∷ [];
}

pub data FieldType : Type 0 where
  str_type int_type alarm_type : FieldType
  enum_type : EnumClass → FieldType
  list_of : FieldType → FieldType

-- The types of `FIELD_CONFIG` for the fields that are kept in Redis; the others are read as they are.
abbrev pub field_types : List (Text × FieldType)
field_types =
    (codes "ip", str_type)
    ∷ (codes "firmware_version", str_type)
    ∷ (codes "connection_type", enum_type connection_enum)
    ∷ (codes "playlist", list_of int_type)
    ∷ (codes "repeat_mode", enum_type repeat_enum)
    ∷ (codes "alarms", list_of alarm_type)
    ∷ []

-- `parts[-1]` of a list that is not empty
abbrev pub last_of : Text → List Text → Text
last_of part [] = part
last_of part (next ∷ parts) = last_of next parts

abbrev pub last_part : List Text → Text
last_part [] = []
last_part (part ∷ parts) = last_of part parts

-- The member at a place, counted from 1
abbrev pub member_at : ℕ → List Text → Option Text
member_at n [] = none
member_at zero names = none
member_at (suc zero) (name ∷ names) = some name
member_at (suc (suc n)) (name ∷ names) = member_at (suc n) names

module _ (j : Json) where
  open j use {Value, view, none_value, str_value, member_value, list_value}

  abbrev pub or_none : Option Value → Value
  or_none none = none_value
  or_none (some v) = v

  -- `enum_type[value]`
  unfoldable pub member_named : EnumClass → Text → Value
  member_named e name =
      if any (text_eq name) e.members then member_value e.name name else none_value

  -- `enum_type(value)`
  abbrev pub member_numbered : EnumClass → Option ℕ → Value
  member_numbered e none = none_value
  member_numbered e (some n) = elim (member_at n e.members) [
    | none ↦ none_value
    | some name ↦ member_value e.name name
  ]

  abbrev pub enum_seen : EnumClass → Value → View Value → Value
  enum_seen e v none_view = none_value
  enum_seen e v (member_view c name) = if text_eq c e.name then v else none_value
  enum_seen e v (str_view t) = member_named e (j.upper (last_part (split_on 46 (strip t))))
  enum_seen e v _ = member_numbered e (j.number_of v)

  abbrev pub parse_enum : EnumClass → Value → Value
  parse_enum e v = enum_seen e v (view v)

  abbrev pub str_seen : Value → View Value → Value
  str_seen v none_view = none_value
  str_seen v _ = str_value (j.str_of v)

  abbrev pub int_seen : Value → View Value → Value
  int_seen v none_view = none_value
  int_seen v _ = or_none (j.int_of v)

  abbrev pub list_seen : (Value → Value) → Value → View Value → Value
  list_seen parse v none_view = none_value
  list_seen parse v (list_view vs) = list_value (map parse vs)
  list_seen parse v _ = list_value (parse v ∷ [])

  module _ (alarm_of_dict : Value → Option Value) where
    -- `_parse_model` for `Alarm`
    abbrev pub alarm_seen : Value → View Value → Value
    alarm_seen v none_view = none_value
    alarm_seen v alarm_view = v
    alarm_seen v _ = or_none (alarm_of_dict v)

    unfoldable pub parse_field : FieldType → Value → Value
    parse_field str_type v = str_seen v (view v)
    parse_field int_type v = int_seen v (view v)
    parse_field (enum_type e) v = parse_enum e v
    parse_field alarm_type v = alarm_seen v (view v)
    parse_field (list_of t) v = list_seen (parse_field t) v (view v)

    abbrev pub parsed : Option FieldType → Value → Value
    parsed none v = v
    parsed (some t) v = parse_field t v

  -- The defaults of `FIELD_CONFIG`, but for the two of the individual fields that nothing reads.
  abbrev pub defaults : Dict Value
  defaults =
      (codes "conversation_id", none_value)
      ∷ (codes "volume", j.int_value 50)
      ∷ (codes "is_muted", j.bool_value false)
      ∷ (codes "playback_state", member_value (codes "PlaybackState") (codes "STOPPED"))
      ∷ (codes "current_track", none_value)
      ∷ (codes "shuffle_on", j.bool_value false)
      ∷ (codes "battery", j.int_value 100)
      ∷ (codes "is_charging", j.bool_value false)
      ∷ (codes "wifi_signal", j.int_value 0)
      ∷ (codes "playlist", list_value [])
      ∷ (codes "repeat_mode", member_value (codes "RepeatMode") (codes "NONE"))
      ∷ (codes "alarms", list_value [])
      ∷ []

  -- `cache.get(field, default)`
  abbrev pub get_or : Option Value → Option Value → Value
  get_or none default = or_none default
  get_or (some v) default = v

  -- What MGET gives for a key: a missing one is `None`.
  abbrev pub redis_value : Option Text → Value
  redis_value none = none_value
  redis_value (some t) = str_value t

module _ (r : Server) (j : Json) (alarm_of_dict : j.Value → Option j.Value) where
  -- A field without a configuration is a `ValueError`.
  abbrev pub get_by :
      Text → Option StorageStrategy → Repository r j → Result j.Value × Repository r j
  get_by field none w = (err value_error, w)
  get_by field (some memory) w =
      (ok (get_or j (get field w.memory_cache) (get field (defaults j))), w)
  get_by field (some redis_individual) w = (
    ok (
        parsed j alarm_of_dict (get field field_types)
          (redis_value j (r.get w.redis (w.prefix ++ field)))),
    w,
  )
  get_by field (some redis_json) w =
      (load_cache r j >>= λ _ v. (
        ok (
            parsed j alarm_of_dict (get field field_types)
              (get_or j (get field v.json_cache) (get field (defaults j)))),
        v,
      ))
        w

  unfoldable pub get_field : Text → Exec (Repository r j) j.Value
  get_field field w = get_by field (get field field_config) w
