-- ===== src/Device.antt =====
-- `DeviceStateRepository` of backend/common/device/repository.py: where the fields of a device are kept, and
-- the lists of its alarms. Python's values and their JSON are a parameter. Fields is what reads them.
pub mod Fields
pub mod Parsed
pub mod Stored
pub mod Alarms
pub mod Read
use fbapy.Base.{
  ℕ, ◌≡◌, ◌⊎◌, inl, inr, Bool, true, false, not, ◌||◌, Option, none, some, List, [], ◌∷◌, ◌++◌, ltb,
  any, all, keep, map, is_empty, leb, ◌&&◌, if◌then◌else◌,
}
use fbapy.Base.Text.{Text, text_eq, codes}
use fbapy.Base.Exec.{Result, ok, err, Exec, value_error, pure, raise, ◌>>=◌, ◌>>◌}
use fbapy.Redis.{Server}

pub data StorageStrategy : Type 0 where
  memory redis_individual redis_json : StorageStrategy

-- The names and the strategies of `FIELD_CONFIG`
abbrev pub field_config : List (Text × StorageStrategy)
field_config =
    (codes "conversation_id", memory)
    ∷ (codes "volume", memory)
    ∷ (codes "is_muted", memory)
    ∷ (codes "playback_state", memory)
    ∷ (codes "current_track", memory)
    ∷ (codes "shuffle_on", memory)
    ∷ (codes "battery", memory)
    ∷ (codes "is_charging", memory)
    ∷ (codes "wifi_signal", memory)
    ∷ (codes "ip", redis_individual)
    ∷ (codes "firmware_version", redis_individual)
    ∷ (codes "connection_type", redis_individual)
    ∷ (codes "playlist", redis_json)
    ∷ (codes "repeat_mode", redis_json)
    ∷ (codes "alarms", redis_json)
    ∷ []

-- A dict, and `dict.get` without a default
abbrev pub Dict : Type 0 → Type 0
Dict V = List (Text × V)

module _ {V : Type 0} where
  unfoldable pub get : Text → Dict V → Option V
  get key [] = none
  get key (entry ∷ dict) =
      let rest = get key dict in if text_eq entry.0 key then some entry.1 else rest

  -- `dict[key] = value`
  unfoldable pub put : Text → V → Dict V → Dict V
  put key value [] = (key, value) ∷ []
  put key value (entry ∷ dict) =
      let rest = put key value dict in
      if text_eq entry.0 key then (entry.0, value) ∷ dict else entry ∷ rest

  -- `dict.update(updates)`
  unfoldable pub update : Dict V → Dict V → Dict V
  update dict [] = dict
  update dict (entry ∷ updates) = update (put entry.0 entry.1 dict) updates

abbrev pub same_strategy : StorageStrategy → StorageStrategy → Bool
same_strategy memory other = elim other [ memory ↦ true | _ ↦ false ]
same_strategy redis_individual other = elim other [ redis_individual ↦ true | _ ↦ false ]
same_strategy redis_json other = elim other [ redis_json ↦ true | _ ↦ false ]

abbrev pub has_strategy : StorageStrategy → Option StorageStrategy → Bool
has_strategy strategy none = false
has_strategy strategy (some s) = same_strategy strategy s

-- The updates whose field has the strategy; a field without a configuration has none.
abbrev pub updates_of : {V : Type 0} → StorageStrategy → Dict V → Dict V
updates_of strategy kwargs = keep (λ entry. has_strategy strategy (get entry.0 field_config)) kwargs

-- What `isinstance` tells of a value: `None`, a `str`, a member of an `Enum` with the names of both, a list
-- or a tuple, an `Alarm`, or another value.
pub data View (V : Type 0) : Type 0 where
  none_view alarm_view other_view : View V
  str_view : Text → View V
  member_view : Text → Text → View V
  list_view : List V → View V

abbrev pub is_capital : ℕ → Bool
is_capital c = leb 65 c && leb c 90

-- Python's values: `str`, `int` (`none` for an error), `str.upper`, the number that a value equals, and
-- `json.dumps` and `json.loads`, which fails on what is no JSON.
pub record Json : Type 1 where
  pub Value : Type 0
  pub view : Value → View Value
  pub none_value : Value
  pub str_value : Text → Value
  pub int_value : ℕ → Value
  pub bool_value : Bool → Value
  pub member_value : Text → Text → Value
  pub list_value : List Value → Value
  pub str_of : Value → Text
  pub int_of : Value → Option Value
  pub upper : Text → Text
  pub number_of : Value → Option ℕ
  pub dumps : Dict Value → Text
  pub loads : Text → Option (Dict Value)
  pub view-str_value : (t : Text) → view (str_value t) ≡ str_view t
  pub str_of-str_value : (t : Text) → str_of (str_value t) ≡ t
  pub upper-capitals : (t : Text) → all is_capital t ≡ true → upper t ≡ t

module _ (r : Server) (j : Json) where
  open j use {Value, dumps, loads}

  pub record Repository : Type 0 where
    pub prefix : Text
    pub redis : r.State
    pub memory_cache : Dict Value
    pub json_cache : Dict Value

  abbrev pub state_json_key : Repository → Text
  state_json_key w = w.prefix ++ codes "_state_json"

  -- `json.loads(json_data) if json_data else {}`
  abbrev pub loads_or_empty : Option Text → Result (Dict Value)
  loads_or_empty none = ok []
  loads_or_empty (some []) = ok []
  loads_or_empty (some (c ∷ t)) = elim (loads (c ∷ t)) [
    | none ↦ err value_error
    | some dict ↦ ok dict
  ]

  -- `if not self._json_cache`: the cache is filled from Redis.
  unfoldable pub load_cache : Exec Repository (Unit {0})
  load_cache w =
      if is_empty w.json_cache
      then elim (loads_or_empty (r.get w.redis (state_json_key w))) [
        | ok dict ↦ (ok tt, record w { json_cache = dict })
        | err e ↦ (err e, w)
      ]
      else (ok tt, w)

  -- The commands SET of the individual fields
  unfoldable pub set_individual : Text → Dict Value → r.State → r.State
  set_individual prefix [] s = s
  set_individual prefix (entry ∷ updates) s =
      set_individual prefix updates (r.set (prefix ++ entry.0) (j.str_of entry.1) s)

  -- What follows once the cache is loaded: it takes the updates and is written, if there are any.
  unfoldable pub write_json : Dict Value → Exec Repository (Unit {0})
  write_json [] w = (ok tt, w)
  write_json (u ∷ updates) w =
      let cache = update w.json_cache (u ∷ updates) in
      (
        ok tt,
        record w { json_cache = cache; redis = r.set (state_json_key w) (dumps cache) w.redis },
      )

  abbrev pub write_individual : Dict Value → Exec Repository (Unit {0})
  write_individual updates w = (ok tt, record w { redis = set_individual w.prefix updates w.redis })

  abbrev pub remember : Dict Value → Exec Repository (Unit {0})
  remember kwargs w =
      (ok tt, record w { memory_cache = update w.memory_cache (updates_of memory kwargs) })

  abbrev pub load_for : Dict Value → Exec Repository (Unit {0})
  load_for [] = pure tt
  load_for (u ∷ updates) = load_cache

  -- The pipeline is sent at its end, so the cache is read before anything is written.
  unfoldable pub set_fields : Dict Value → Exec Repository (Unit {0})
  set_fields kwargs = do
    remember kwargs
    load_for (updates_of redis_json kwargs)
    write_individual (updates_of redis_individual kwargs)
    write_json (updates_of redis_json kwargs)

  -- `loads_dict` is the same but for the cache, which it does not load.
  unfoldable pub loads_dict : Dict Value → Exec Repository (Unit {0})
  loads_dict state_dict = do
    remember state_dict
    write_individual (updates_of redis_individual state_dict)
    write_json (updates_of redis_json state_dict)

-- An alarm, with the time of its trigger if it is not periodic.
pub record Alarm : Type 0 where
  pub id : Text
  pub is_periodic : Bool
  pub trigger : ℕ

-- `get_valid_alarms` on the list of the alarms
unfoldable pub valid_alarms : ℕ → List Alarm → List Alarm
valid_alarms now alarms = keep (λ (a : Alarm). a.is_periodic || ltb now a.trigger) alarms

-- The lists that `add_alarm`, `update_alarm` and `del_alarm` store, and what the last one gives back.
unfoldable pub add_alarm : ℕ → Alarm → List Alarm → List Alarm
add_alarm now alarm alarms = valid_alarms now alarms ++ alarm ∷ []

unfoldable pub update_alarm : ℕ → Alarm → List Alarm → Result (List Alarm)
update_alarm now alarm alarms =
    if not (any (λ (a : Alarm). text_eq a.id alarm.id) (valid_alarms now alarms))
    then err value_error
    else ok
        (map (λ (a : Alarm). if text_eq a.id alarm.id then alarm else a) (valid_alarms now alarms))

-- Without identifiers nothing is stored.
unfoldable pub del_alarm : ℕ → List Text → List Alarm → List Alarm × List Alarm
del_alarm now [] alarms = (alarms, [])
del_alarm now (i ∷ ids) alarms = (
  keep (λ (a : Alarm). not (any (text_eq a.id) (i ∷ ids))) (valid_alarms now alarms),
  keep (λ (a : Alarm). any (text_eq a.id) (i ∷ ids)) (valid_alarms now alarms),
)
