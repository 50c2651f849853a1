-- ===== src/Device/Read.antt =====
-- Reading a field after it is set.
use fbapy.Base.{
  ◌≡◌, refl, sym, ap, ◌∙◌, true, false, Option, some, [], ◌∷◌, ◌++◌, is_empty, if◌then◌else◌, arith,
  if_true,
}
use fbapy.Base.Text.{Text, text_eq_self}
use fbapy.Base.Exec.{ok, bind-ok}
use fbapy.Redis.{Server}
use fbapy.Device.{
  StorageStrategy, memory, redis_json, redis_individual, field_config, same_strategy, Dict, get,
  put, update, updates_of, Json, Repository, load_cache, load_for, remember, write_individual,
  write_json, set_individual, set_fields,
}
use fbapy.Device.Fields.{field_types, defaults, parsed, get_or, redis_value, get_by, get_field}
use fbapy.Device.Parsed.{HasType, parse_field-IsOf, parse_field-IsText}
use fbapy.Device.Stored.{get-put}

module _ {V : Type 0} where
  put_some : (k : Text) (v : V) (d : Dict V) → is_empty (put k v d) ≡ false
  unfolding put
  put_some k v [] = refl
  put_some k v ((n, x) ∷ d) = ground arith

  single :
      (s strategy : StorageStrategy) (field : Text) (v : V)
      → get field field_config ≡ some strategy
      → updates_of s ((field, v) ∷ []) ≡ (if same_strategy s strategy then (field, v) ∷ [] else [])
  single s strategy field v h = rw h refl

module _ (r : Server) (j : Json) where
  open j use {Value, dumps, loads}

  set_fields-ok :
      (kwargs : Dict Value) (w after : Repository r j)
      → set_fields r j kwargs w ≡ (ok tt, after)
      → (w' : Repository r j) × (load_for r j
            (updates_of redis_json kwargs)
            (remember r j kwargs w).1
          ≡ (ok tt, w'))
        × (after
            ≡ (write_json r j
                (updates_of redis_json kwargs)
                (write_individual r j (updates_of redis_individual kwargs) w').1).1)
  unfolding set_fields
  set_fields-ok kwargs w after h =
      let (_, w', loads_it, rest) =
        bind-ok (load_for r j (updates_of redis_json kwargs)) _ (remember r j kwargs w).1 h in
      (w', loads_it, sym (ap (λ x. x.1) rest))

  abbrev wrote : StorageStrategy → Text → Value → Repository r j → Repository r j
  wrote strategy field v w' =
      (write_json r j (if same_strategy redis_json strategy then (field, v) ∷ [] else [])
        (write_individual r j
          (if same_strategy redis_individual strategy then (field, v) ∷ [] else []) w').1).1

  read_after :
      (alarm_of_dict : Value → Option Value) (strategy : StorageStrategy) (field : Text) (v : Value)
      (w' : Repository r j)
      → HasType j strategy field v
      → (same_strategy memory strategy ≡ true → get field w'.memory_cache ≡ some v)
      → (get_by r j alarm_of_dict field (some strategy) (wrote strategy field v w')).0 ≡ ok v
  unfolding write_json set_individual load_cache update
  read_after alarm_of_dict memory field v w' typed h =
      ap (λ o. ok (get_or j o (get field (defaults j)))) (h refl)
  read_after alarm_of_dict redis_individual field v w' (t, named, typed) h =
      ap (λ o. ok (parsed j alarm_of_dict (get field field_types) (redis_value j o)))
        (r.get-set (w'.prefix ++ field) (j.str_of v) w'.redis (w'.prefix ++ field)
          ∙ if_true _ (r.get w'.redis (w'.prefix ++ field)) (text_eq_self (w'.prefix ++ field)))
      ∙ ap (λ o. ok (parsed j alarm_of_dict o (j.str_value (j.str_of v)))) named
      ∙ ap ok (parse_field-IsText j alarm_of_dict t v typed)
  read_after alarm_of_dict redis_json field v w' (t, named, typed) h =
      rw (put_some field v w'.json_cache) (
        ap
          (λ o.
            ok (
              parsed j alarm_of_dict (get field field_types) (get_or j o (get field (defaults j)))))
          (get-put field v w'.json_cache field
            ∙ if_true _ (get field w'.json_cache) (text_eq_self field))
        ∙ ap (λ o. ok (parsed j alarm_of_dict o v)) named
        ∙ ap ok (parse_field-IsOf j alarm_of_dict t v typed))

  load_keeps :
      (updates : Dict Value) (w w' : Repository r j)
      → updates ≡ []
      → load_for r j updates w ≡ (ok tt, w')
      → w ≡ w'
  load_keeps [] w w' e h = ap (λ x. x.1) h
  load_keeps (u ∷ ups) w w' e h = absurd (cc)

  remembered :
      (strategy : StorageStrategy) (field : Text) (v : Value) (w w' : Repository r j)
      → get field field_config ≡ some strategy
      → load_for r j (updates_of redis_json ((field, v) ∷ [])) (remember r j ((field, v) ∷ []) w).1
        ≡ (ok tt, w')
      → same_strategy memory strategy ≡ true
      → get field w'.memory_cache ≡ some v
  unfolding update
  remembered redis_individual field v w w' known h e = absurd (cc)
  remembered redis_json field v w w' known h e = absurd (cc)
  remembered memory field v w w' known h e =
      let kept =
        load_keeps (updates_of redis_json ((field, v) ∷ [])) (remember r j ((field, v) ∷ []) w).1 w'
          (single redis_json memory field v known) h in
      sym (ap (λ (x : Repository r j). get field x.memory_cache) kept)
      ∙ ap (λ u. get field (update w.memory_cache u)) (single memory memory field v known)
      ∙ get-put field v w.memory_cache field
      ∙ if_true _ (get field w.memory_cache) (text_eq_self field)

  -- If a field that has a configuration is set with success to a value of its declared type, then
  -- `get_field` gives this value, wherever the field is kept and whatever becomes of an alarm that is a
  -- dict: what is stored as a text is parsed back to it.
  pub get_field-set_fields :
      (alarm_of_dict : Value → Option Value) (strategy : StorageStrategy) (field : Text) (v : Value)
      (w after : Repository r j)
      → get field field_config ≡ some strategy
      → HasType j strategy field v
      → set_fields r j ((field, v) ∷ []) w ≡ (ok tt, after)
      → (get_field r j alarm_of_dict field after).0 ≡ ok v
  unfolding get_field
  get_field-set_fields alarm_of_dict strategy field v w after known typed h =
      let (w', loads_it, ends) = set_fields-ok ((field, v) ∷ []) w after h in
      let exactly : after ≡ wrote strategy field v w' =
        ends
        ∙ ap
            (λ u.
              (write_json r j u
                (write_individual r j (updates_of redis_individual ((field, v) ∷ [])) w').1).1)
            (single redis_json strategy field v known)
        ∙ ap
            (λ u.
              (write_json r j (if same_strategy redis_json strategy then (field, v) ∷ [] else [])
                (write_individual r j u w').1).1)
            (single redis_individual strategy field v known) in
      ap (λ o. (get_by r j alarm_of_dict field o after).0) known
      ∙ ap (λ x. (get_by r j alarm_of_dict field (some strategy) x).0) exactly
      ∙ read_after alarm_of_dict strategy field v w' typed
          (remembered strategy field v w w' known loads_it)
