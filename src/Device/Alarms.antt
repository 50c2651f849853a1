-- ===== src/Device/Alarms.antt =====
-- What the calls on alarms store.
use fbapy.Base.{
  ℕ, ◌≡◌, refl, sym, ◌∙◌, inl, inr, ◌↔◌, Bool, true, false, not, ◌||◌, List, [], ◌∷◌, any, In,
  In-keep, keep-In, Bool-cases, ltb, not-true,
}
use fbapy.Base.Text.{Text, text_eq, text_eq_iff}
use fbapy.Device.{Alarm, valid_alarms, del_alarm}

-- An alarm that is periodic or still to come.
abbrev pub Valid : ℕ → Alarm → Type 0
Valid now a = (a.is_periodic || ltb now a.trigger) ≡ true

true_not : true ≡ false → ⊥
true_not h = cc

unnamed : (b : Bool) → (b ≡ true → ⊥) → not b ≡ true
unnamed true h = absurd (h refl)
unnamed false h = refl

any_text_iff : (t : Text) (ts : List Text) → (any (text_eq t) ts ≡ true) ↔ In t ts
any_text_iff t [] = (λ h. absurd (cc), λ h. absurd h)
any_text_iff t (u ∷ ts) =
    let ih = any_text_iff t ts in
    elim (Bool-cases (text_eq t u)) [
      | inl same ↦ (λ h. inl ((text_eq_iff t u).0 same), λ h. rw same refl)
      | inr other ↦ (
        λ h. inr (ih.0 (rw other at h)),
        λ h. (elim h [
          | inl e ↦ absurd (true_not (sym ((text_eq_iff t u).1 e) ∙ other))
          | inr p ↦ rw other (ih.1 p)
        ]),
      )
    ]

-- Of the alarms, those that are valid stay if they are not named, and are given back if they are; the
-- others are gone.
del_alarm_lem :
    (now : ℕ) (i : Text) (ids : List Text) (alarms : List Alarm) (a : Alarm)
    → (In a (del_alarm now (i ∷ ids) alarms).0
        ↔ (In a alarms × Valid now a × (In a.id (i ∷ ids) → ⊥)))
      × (In a (del_alarm now (i ∷ ids) alarms).1 ↔ (In a alarms × Valid now a × In a.id (i ∷ ids)))
unfolding del_alarm valid_alarms
del_alarm_lem now i ids alarms a =
    let named = any_text_iff a.id (i ∷ ids) in
    (
      (
        λ h.
            (let (p, off) = keep-In (λ (x : Alarm). not (any (text_eq x.id) (i ∷ ids))) a _ h in
              let (q, valid) =
                keep-In (λ (x : Alarm). x.is_periodic || ltb now x.trigger) a alarms p in
              (q, valid, λ m. true_not (sym (named.1 m) ∙ not-true _ off))),
        λ (q, valid, off).
            In-keep (λ (x : Alarm). not (any (text_eq x.id) (i ∷ ids))) a (valid_alarms now alarms)
              (In-keep (λ (x : Alarm). x.is_periodic || ltb now x.trigger) a alarms q valid)
              (unnamed _ (λ e. off (named.0 e))),
      ),
      (
        λ h.
            (let (p, on) = keep-In (λ (x : Alarm). any (text_eq x.id) (i ∷ ids)) a _ h in
              let (q, valid) =
                keep-In (λ (x : Alarm). x.is_periodic || ltb now x.trigger) a alarms p in
              (q, valid, named.0 on)),
        λ (q, valid, on).
            In-keep (λ (x : Alarm). any (text_eq x.id) (i ∷ ids)) a (valid_alarms now alarms)
              (In-keep (λ (x : Alarm). x.is_periodic || ltb now x.trigger) a alarms q valid)
              (named.1 on),
      ),
    )
