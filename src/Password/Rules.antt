-- ===== src/Password/Rules.antt =====
-- Which new passwords are accepted.
use fbapy.Base.{
  ◌≡◌, refl, ◌≤◌, ◌↔◌, Bool, true, false, not, ◌&&◌, some, List, [], ◌∷◌, ltb, length, take,
  if◌then◌else◌, arith, All, Bool-cases, ge→ltb, Option-cases, inl, inr,
}
use fbapy.Base.Text.{Text}
use fbapy.Base.Exec.{Result, Error, ok, err}
use fbapy.Conf.{Settings}
use fbapy.UserTable.{HistoryRow}
use fbapy.Password.{
  Passwords, is_has_number, is_has_letter, is_has_special_char, history_check, validate_rules,
}

-- The row holds a password that the new one does not match.
abbrev pub Differs : Passwords → Text → HistoryRow → Type 0
Differs l new row =
    (hashed : Text) × (row.password ≡ some hashed) × (l.password_verify new hashed ≡ false)

pub record IsAcceptable (l : Passwords) (settings : Settings) (history : List HistoryRow)
    (new : Text) : Type 0 where
  pub not_short : settings.user_password_min_length ≤ length new
  pub not_long : length new ≤ settings.user_password_max_length
  pub number : is_has_number l new ≡ true
  pub letter : is_has_letter new ≡ true
  pub special : settings.user_password_require_special_char ≡ true → is_has_special_char new ≡ true
  pub unused : All (Differs l new) (take settings.user_password_history_check_count history)

abbrev refused : Error → Result (Unit {0})
refused e = err e

differ_none : {e : Error} → refused e ≡ ok tt → ⊥
differ_none h = cc

-- A chain of refusals that is passed: no condition holds.
passed :
    (c : Bool) (e : Error) (m : Result (Unit {0}))
    → (if c then err e else m) ≡ ok tt
    → (c ≡ false) × (m ≡ ok tt)
passed true e m h = absurd (differ_none h)
passed false e m h = (refl, h)

not-false : (b : Bool) → not b ≡ false → b ≡ true
not-false true h = refl
not-false false h = cc

special_passes : (b c : Bool) → (b ≡ true → c ≡ true) → (b && not c) ≡ false
special_passes false c h = refl
special_passes true c h = rw (h refl) refl

special_passed : (b c : Bool) → (b && not c) ≡ false → b ≡ true → c ≡ true
special_passed true c h e = ground arith
special_passed false c h e = cc

module _ (l : Passwords) (new : Text) where
  history_check-All :
      (rows : List HistoryRow) → history_check l new rows ≡ ok tt → All (Differs l new) rows
  unfolding history_check
  history_check-All [] h = tt
  history_check-All (row ∷ rows) h = elim (Option-cases row.password) [
    | inl missing ↦ absurd (differ_none (rw missing at h))
    | inr (hashed, stored) ↦ elim (Bool-cases (l.password_verify new hashed)) [
      | inl same ↦ absurd (differ_none (rw (stored, same) at h))
      | inr differs ↦
          ((hashed, stored, differs), history_check-All rows (rw (stored, differs) at h))
    ]
  ]

  All-history_check :
      (rows : List HistoryRow) → All (Differs l new) rows → history_check l new rows ≡ ok tt
  unfolding history_check
  All-history_check [] h = refl
  All-history_check (row ∷ rows) ((hashed, stored, differs), rest) =
      rw (stored, differs) (All-history_check rows rest)

  -- A new password is accepted exactly when its length is within the bounds, it has a digit, a
  -- letter and, if that is required, a special character, and it matches none of the last
  -- passwords that are compared, each of which is present.
  pub validate_rules_iff :
      (settings : Settings) (history : List HistoryRow)
      → (validate_rules l settings history new ≡ ok tt) ↔ IsAcceptable l settings history new
  unfolding validate_rules
  validate_rules_iff settings history =
      let recent = take settings.user_password_history_check_count history in
      (
        λ h.
            let (short, h₁) = passed (ltb (length new) settings.user_password_min_length) _ _ h in
            let (long, h₂) = passed (ltb settings.user_password_max_length (length new)) _ _ h₁ in
            let (number, h₃) = passed (not (is_has_number l new)) _ _ h₂ in
            let (letter, h₄) = passed (not (is_has_letter new)) _ _ h₃ in
            let (special, h₅) =
              passed (settings.user_password_require_special_char && not (is_has_special_char new))
                _ _ h₄ in
            record {
              not_short = ground (arith, short);
              not_long = ground (arith, long);
              number = not-false _ number;
              letter = not-false _ letter;
              special = special_passed _ _ special;
              unused = history_check-All recent h₅;
            },
        λ a.
            let short : ltb (length new) settings.user_password_min_length ≡ false =
              ge→ltb _ _ a.not_short in
            let long : ltb settings.user_password_max_length (length new) ≡ false =
              ge→ltb _ _ a.not_long in
            rw (short, long, a.number, a.letter, special_passes _ _ a.special)
              (All-history_check recent a.unused),
      )
