-- ===== src/Device/Parsed.antt =====
-- What `_parse_field` makes of values that are of the declared type already, and of their texts.
use fbapy.Base.{
  ◌≡◌, refl, sym, ap, subst, ◌∙◌, inl, inr, Option, some, List, [], ◌∷◌, ◌++◌, All, In, map,
  if_true,
}
use fbapy.Base.Text.{Text, text_eq_self, codes, strip, split_on, split_from}
use fbapy.Device.{
  str_view, member_view, list_view, alarm_view, other_view, StorageStrategy, memory,
  redis_individual, redis_json, get, Json,
}
use fbapy.Device.Fields.{
  connection_enum, FieldType, str_type, int_type, alarm_type, enum_type, list_of, field_types,
  last_part, member_named, parse_enum, enum_seen, parse_field,
}

module _ (j : Json) where
  open j use {Value, view, str_value, member_value, list_value}

  -- The value is of the type.
  abbrev pub IsOf : FieldType → Value → Type 0
  IsOf str_type v = (t : Text) × (v ≡ str_value t)
  IsOf int_type v = (view v ≡ other_view) × (j.int_of v ≡ some v)
  IsOf alarm_type v = view v ≡ alarm_view
  IsOf (enum_type e) v = (name : Text) × (view v ≡ member_view e.name name)
  IsOf (list_of t) v =
      (vs : List Value) × (view v ≡ list_view vs) × (v ≡ list_value vs) × All (IsOf t) vs

  -- The value is a `str`, or a connection type with the text that Python gives it.
  abbrev pub IsText : FieldType → Value → Type 0
  IsText str_type v = (t : Text) × (v ≡ str_value t)
  IsText (enum_type e) v =
      (e ≡ connection_enum)
      × ((name : Text) × In name connection_enum.members
          × (v ≡ member_value connection_enum.name name)
          × (j.str_of v ≡ connection_enum.name ++ codes "." ++ name))
  IsText _ v = ⊥

  abbrev pub HasType : StorageStrategy → Text → Value → Type 0
  HasType memory field v = Unit {0}
  HasType redis_individual field v = (t : FieldType) × (get field field_types ≡ some t) × IsText t v
  HasType redis_json field v = (t : FieldType) × (get field field_types ≡ some t) × IsOf t v

  module _ (alarm_of_dict : Value → Option Value) where
    map_same :
        (f : Value → Value) (P : Value → Type 0)
        → ((v : Value) → P v → f v ≡ v)
        → (vs : List Value) → All P vs
        → map f vs ≡ vs
    map_same f P keeps [] p = refl
    map_same f P keeps (v ∷ vs) (p, q) = rw (keeps v p, map_same f P keeps vs q) refl

    pub parse_field-IsOf :
        (t : FieldType) (v : Value) → IsOf t v → parse_field j alarm_of_dict t v ≡ v
    unfolding parse_field
    parse_field-IsOf str_type v (t, e) =
        let seen : view v ≡ str_view t = ap view e ∙ j.view-str_value t in
        rw seen (ap (λ x. str_value (j.str_of x)) e ∙ ap str_value (j.str_of-str_value t) ∙ sym e)
    parse_field-IsOf int_type v (seen, e) = rw (seen, e) refl
    parse_field-IsOf alarm_type v seen = rw seen refl
    parse_field-IsOf (enum_type e) v (name, seen) = rw seen (if_true v _ (text_eq_self e.name))
    parse_field-IsOf (list_of t) v (vs, seen, e, typed) = rw seen (
        ap list_value
          (map_same (parse_field j alarm_of_dict t) (IsOf t) (parse_field-IsOf t) vs typed)
        ∙ sym e)

    -- The text of a member, as `_parse_enum` reads it.
    abbrev Named : Text → Type 0
    Named name =
        member_named j connection_enum
          (j.upper (last_part (split_on 46 (strip (connection_enum.name ++ codes "." ++ name)))))
        ≡ member_value connection_enum.name name

    connection_text : (name : Text) → In name connection_enum.members → Named name
    unfolding member_named strip split_from
    connection_text name (inl e) =
        subst Named (sym e) (rw (j.upper-capitals (codes "WIFI") refl) refl)
    connection_text name (inr (inl e)) =
        subst Named (sym e) (rw (j.upper-capitals (codes "ETHERNET") refl) refl)
    connection_text name (inr (inr (inl e))) =
        subst Named (sym e) (rw (j.upper-capitals (codes "CELLULAR") refl) refl)
    connection_text name (inr (inr (inr h))) = absurd h

    pub parse_field-IsText :
        (t : FieldType) (v : Value)
        → IsText t v
        → parse_field j alarm_of_dict t (str_value (j.str_of v)) ≡ v
    unfolding parse_field
    parse_field-IsText str_type v (t, e) = rw (j.view-str_value (j.str_of v)) (
        ap str_value (j.str_of-str_value (j.str_of v) ∙ ap j.str_of e ∙ j.str_of-str_value t)
        ∙ sym e)
    parse_field-IsText (enum_type e) v (same, (name, here, is, text)) =
        ap (λ x. parse_enum j x (str_value (j.str_of v))) same
        ∙ ap (λ x. enum_seen j connection_enum (str_value (j.str_of v)) x)
            (j.view-str_value (j.str_of v))
        ∙ ap (λ x. member_named j connection_enum (j.upper (last_part (split_on 46 (strip x)))))
            text
        ∙ connection_text name here
        ∙ sym is
    parse_field-IsText int_type v typed = absurd typed
    parse_field-IsText alarm_type v typed = absurd typed
    parse_field-IsText (list_of t) v typed = absurd typed
