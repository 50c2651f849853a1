-- ===== src/Device/Stored.antt =====
-- What the JSON of a device holds after its fields are set.
use fbapy.Base.{
  ℕ, ◌≡◌, refl, ap, ◌∙◌, inl, inr, none, some, [], ◌∷◌, if◌then◌else◌, arith, Bool-cases, if_true,
  if_false,
}
use fbapy.Base.Text.{Text, text_eq, text_eq_self, text_eq_iff}
use fbapy.Base.Exec.{ok, bind-pure}
use fbapy.Redis.{Server}
use fbapy.Device.{
  Dict, get, put, update, updates_of, redis_json, redis_individual, Json, Repository,
  state_json_key, load_cache, load_for, remember, write_individual, write_json, set_fields,
  loads_dict,
}

module _ {V : Type 0} where
  pub get-put :
      (k : Text) (v : V) (d : Dict V) (i : Text)
      → get i (put k v d) ≡ (if text_eq k i then some v else get i d)
  unfolding get put
  get-put k v [] i = refl
  get-put k v ((n, x) ∷ d) i =
      ground (arith, get-put k v d i, text_eq_iff n k, text_eq_iff n i, text_eq_iff k i)

  some_not : {v : V} → some v ≡ none → ⊥
  some_not h = cc

  -- A key without an update keeps its value.
  pub get-update : (d ups : Dict V) (i : Text) → get i ups ≡ none → get i (update d ups) ≡ get i d
  unfolding get update
  get-update d [] i h = refl
  get-update d ((k, v) ∷ ups) i h = elim (Bool-cases (text_eq k i)) [
    | inl same ↦ absurd (some_not (rw same at h))
    | inr other ↦
        get-update (put k v d) ups i (rw other at h) ∙ get-put k v d i ∙ if_false _ _ other
  ]

module _ (r : Server) (j : Json) where
  open j use {Value, dumps, loads}

  loaded :
      (w : Repository r j) (c : ℕ) (t : Text) (dict : Dict Value)
      → w.json_cache ≡ []
      → r.get w.redis (state_json_key r j w) ≡ some (c ∷ t)
      → loads (c ∷ t) ≡ some dict
      → load_cache r j w ≡ (ok tt, record w { json_cache = dict })
  unfolding load_cache
  loaded w c t dict empty stored read = rw (empty, stored, read) refl

  written :
      (updates : Dict Value) (u : Text × Value) (ups : Dict Value) (w : Repository r j)
      → updates ≡ u ∷ ups
      → ((write_json r j updates w).0 ≡ ok tt)
        × (r.get (write_json r j updates w).1.redis (state_json_key r j w)
            ≡ some (dumps (update w.json_cache updates)))
  unfolding write_json
  written [] u ups w h = absurd (cc)
  written (x ∷ updates) u ups w h = (
    refl,
    r.get-set (state_json_key r j w) _ w.redis (state_json_key r j w)
        ∙ if_true _ (r.get w.redis (state_json_key r j w)) (text_eq_self (state_json_key r j w)),
  )

  set_fields_runs :
      (kwargs : Dict Value) (w w' : Repository r j)
      → load_for r j (updates_of redis_json kwargs) (remember r j kwargs w).1 ≡ (ok tt, w')
      → set_fields r j kwargs w
        ≡ write_json r j
            (updates_of redis_json kwargs)
            (write_individual r j (updates_of redis_individual kwargs) w').1
  unfolding set_fields
  set_fields_runs kwargs w w' h = bind-pure (load_for r j (updates_of redis_json kwargs)) _ _ h

  load_needed :
      (updates : Dict Value) (u : Text × Value) (ups : Dict Value) (w : Repository r j)
      → updates ≡ u ∷ ups
      → load_for r j updates w ≡ load_cache r j w
  load_needed [] u ups w h = absurd (cc)
  load_needed (x ∷ updates) u ups w h = refl

  module _ (kwargs : Dict Value) (u : Text × Value) (ups : Dict Value) (w : Repository r j) where
    -- If the repository has not loaded the JSON of the device yet, Redis holds one that can be read, and
    -- some field of it is set: what is stored then keeps the value of each field that is not set.
    set_fields_keeps :
        (c : ℕ) (t : Text) (dict : Dict Value)
        → w.json_cache ≡ []
        → r.get w.redis (state_json_key r j w) ≡ some (c ∷ t)
        → loads (c ∷ t) ≡ some dict
        → updates_of redis_json kwargs ≡ u ∷ ups
        → let (result, after) = set_fields r j kwargs w in
          (result ≡ ok tt)
          × ((cache : Dict Value) × (r.get after.redis (state_json_key r j w) ≡ some (dumps cache))
              × ((field : Text)
                  → get field (updates_of redis_json kwargs) ≡ none
                  → get field cache ≡ get field dict))
    set_fields_keeps c t dict empty stored read given =
        let loads_it =
          load_needed (updates_of redis_json kwargs) u ups (remember r j kwargs w).1 given
          ∙ loaded (remember r j kwargs w).1 c t dict empty stored read in
        let runs = set_fields_runs kwargs w _ loads_it in
        let (fine, holds) = written (updates_of redis_json kwargs) u ups _ given in
        (
          ap (λ x. x.0) runs ∙ fine,
          (
            update dict (updates_of redis_json kwargs),
            ap (λ x. r.get x.1.redis (state_json_key r j w)) runs ∙ holds,
            λ field other. get-update dict (updates_of redis_json kwargs) field other,
          ),
        )

    -- If the repository has not loaded the JSON of the device yet and `loads_dict` is given some field of it,
    -- then whatever Redis held, what is stored has no other field.
    pub loads_dict_drops :
        w.json_cache ≡ []
        → updates_of redis_json kwargs ≡ u ∷ ups
        → let (result, after) = loads_dict r j kwargs w in
          (result ≡ ok tt)
          × ((cache : Dict Value) × (r.get after.redis (state_json_key r j w) ≡ some (dumps cache))
              × ((field : Text)
                  → get field (updates_of redis_json kwargs) ≡ none
                  → get field cache ≡ none))
    unfolding loads_dict get
    loads_dict_drops empty given =
        let (fine, holds) =
          written (updates_of redis_json kwargs) u ups
            (write_individual r j (updates_of redis_individual kwargs) (remember r j kwargs w).1).1
            given in
        (
          fine,
          (
            update [] (updates_of redis_json kwargs),
            holds ∙ ap (λ d. some (dumps (update d (updates_of redis_json kwargs)))) empty,
            λ field other. get-update [] (updates_of redis_json kwargs) field other,
          ),
        )
