-- ===== src/Base/Numerals.antt =====
-- `int` of a text, and the text of a natural number.
use fbapy.Base.{
  ℕ, zero, suc, ◌+◌, ◌-◌, ◌*◌, ◌/◌, ◌%◌, ◌≤◌, ◌<◌, ◌≡◌, refl, ap, sym, subst, ◌∙◌, Bool, true, not,
  ◌||◌, keep, false, ◌&&◌, Option, none, some, [], ◌∷◌, ◌++◌, arith, ltb, ◌==◌, if◌then◌else◌, All,
  Bool-cases, inl, inr,
}
use fbapy.Base.Text.{
  strip, strip_same, is_space, Text, text_eq, text_eq_iff, decimal, str, starts_with,
}

abbrev Digit : ℕ → Type 0
Digit c = (48 ≤ c) × (c < 58)

Digits-append : (a b : Text) → All Digit a → All Digit b → All Digit (a ++ b)
Digits-append [] b p q = q
Digits-append (x ∷ a) b p q = (p.0, Digits-append a b p.1 q)

decimal-Digits : (f n : ℕ) → All Digit (decimal f n)
unfolding decimal
decimal-Digits zero n = tt
decimal-Digits (suc f) n = elim (Bool-cases (ltb n 10)) [
  | inl small ↦ rw small (ground arith)
  | inr large ↦ rw large (Digits-append _ _ (decimal-Digits f (n / 10)) (ground arith))
]

str-Digits : (n : ℕ) → All Digit (str n)
unfolding str
str-Digits n = decimal-Digits (suc n) n

-- The value of a numeral, most significant digit first.
value : ℕ → Text → ℕ
value acc [] = acc
value acc (c ∷ t) = value (acc * 10 + (c - 48)) t

value-append : (acc : ℕ) (a b : Text) → value acc (a ++ b) ≡ value (value acc a) b
unfolding value
value-append acc [] b = refl
value-append acc (c ∷ a) b = value-append (acc * 10 + (c - 48)) a b

value-decimal : (f n : ℕ) → n < f → value 0 (decimal f n) ≡ n
unfolding decimal value
value-decimal zero n h = absurd (omega arith)
value-decimal (suc f) n h = elim (Bool-cases (ltb n 10)) [
  | inl small ↦ rw small (omega arith)
  | inr large ↦
      rw
        (
          large,
          value-append 0 (decimal f (n / 10)) ((48 + n % 10) ∷ []),
          value-decimal f (n / 10) (ground arith),
        )
        (omega arith)
]

pub str-injective : (m n : ℕ) → str m ≡ str n → m ≡ n
unfolding str
str-injective m n h = omega (
  arith,
  ap (value 0) h,
  value-decimal (suc m) m (omega arith),
  value-decimal (suc n) n (omega arith),
)

-- A field of digits ends at the first colon.
digits-field :
    (a b s t : Text)
    → All Digit a
    → All Digit b
    → text_eq (a ++ 58 ∷ s) (b ++ 58 ∷ t) ≡ (text_eq a b && text_eq s t)
digits-field [] [] s t p q = refl
digits-field [] (y ∷ b) s t p q = ground arith
digits-field (x ∷ a) [] s t p q = ground arith
digits-field (x ∷ a) (y ∷ b) s t p q = ground (arith, digits-field a b s t p.1 q.1)

-- Two keys `<number>:<rest>` are equal exactly if the numbers and the rests are.
pub str-field :
    (m n : ℕ) (s t : Text) → text_eq (str m ++ 58 ∷ s) (str n ++ 58 ∷ t) ≡ (m == n && text_eq s t)
str-field m n s t = ground (
  arith,
  digits-field (str m) (str n) s t (str-Digits m) (str-Digits n),
  text_eq_iff (str m) (str n),
  str-injective m n,
)

-- `int(text)` of a numeral in ASCII: spaces around it, a plus and single underscores between the digits are
-- allowed. Any other text raises a `ValueError`; so does a minus here, as no caller has a use for a negative
-- number.
int_digits : ℕ → Text → Option ℕ
int_digits acc [] = some acc
int_digits acc (c ∷ t) =
    let rest = int_digits (acc * 10 + (c - 48)) t in
    if ltb c 48 then none else if ltb c 58 then rest else none

-- Each underscore follows a digit, and the last character is one.
well_placed : Bool → Text → Bool
well_placed after_digit [] = after_digit
well_placed after_digit (c ∷ t) =
    let rest = well_placed (not (c == 95)) t in (not (c == 95) || after_digit) && rest

abbrev numeral : Text → Option ℕ
numeral t = if well_placed false t then int_digits 0 (keep (λ c. not (c == 95)) t) else none

abbrev unsigned : Text → Option ℕ
unsigned [] = none
unsigned (c ∷ t) = numeral (if c == 43 then t else c ∷ t)

unfoldable pub int_of : Text → Option ℕ
unfolding int_digits well_placed
int_of t = unsigned (strip t)

int_digits-value : (acc : ℕ) (t : Text) → All Digit t → int_digits acc t ≡ some (value acc t)
unfolding int_digits value
int_digits-value acc [] p = refl
int_digits-value acc (c ∷ t) p = ground (arith, int_digits-value (acc * 10 + (c - 48)) t p.1)

append-ne-nil : (a : Text) (c : ℕ) → (x : ℕ) × (t : Text) × (a ++ c ∷ [] ≡ x ∷ t)
append-ne-nil [] c = (c, [], refl)
append-ne-nil (x ∷ a) c = (x, a ++ c ∷ [], refl)

pub str-cons : (n : ℕ) → (x : ℕ) × (t : Text) × (str n ≡ x ∷ t)
unfolding str decimal
str-cons n = elim (Bool-cases (ltb n 10)) [
  | inl small ↦ rw small (48 + n, [], refl)
  | inr large ↦ rw large (append-ne-nil (decimal n (n / 10)) (48 + n % 10))
]

well_placed-digits : (t : Text) → All Digit t → well_placed true t ≡ true
unfolding well_placed
well_placed-digits [] p = refl
well_placed-digits (c ∷ t) p = ground (arith, well_placed-digits t p.1)

keep-digits : (t : Text) → All Digit t → keep (λ c. not (c == 95)) t ≡ t
keep-digits [] p = refl
keep-digits (c ∷ t) p = ground (arith, keep-digits t p.1)

not_a_space : (c : ℕ) → Digit c → is_space c ≡ false
not_a_space c p = ground arith

no_spaces : (t : Text) → All Digit t → All (λ c. is_space c ≡ false) t
no_spaces [] p = tt
no_spaces (c ∷ t) p = (not_a_space c p.0, no_spaces t p.1)

int_of-digits : (c : ℕ) (t : Text) → All Digit (c ∷ t) → int_of (c ∷ t) ≡ some (value 0 (c ∷ t))
unfolding int_of well_placed
int_of-digits c t p =
    let unsigned_c : (c == 43) ≡ false = ground arith in
    let plain : (c == 95) ≡ false = ground arith in
    rw
      (
        strip_same (c ∷ t) (no_spaces (c ∷ t) p),
        unsigned_c,
        plain,
        well_placed-digits t p.1,
        keep-digits t p.1,
      )
      (int_digits-value 0 (c ∷ t) p)

pub int_of-str : (n : ℕ) → int_of (str n) ≡ some n
unfolding str
int_of-str n =
    let (x, t, e) = str-cons n in
    ap int_of e
    ∙ int_of-digits x t (subst (All Digit) e (str-Digits n))
    ∙ ap (λ x. some (value 0 x)) (sym e)
    ∙ ap some (value-decimal (suc n) n (omega arith))

digits-prefix : (a b t : Text) → All Digit a → starts_with a (b ++ 58 ∷ t) ≡ starts_with a b
digits-prefix [] b t p = refl
digits-prefix (x ∷ a) [] t p = ground arith
digits-prefix (x ∷ a) (y ∷ b) t p = ground (arith, digits-prefix a b t p.1)

-- A number is a prefix of a field exactly if it is one of the number in the field.
pub str-prefix :
    (m n : ℕ) (t : Text) → starts_with (str m) (str n ++ 58 ∷ t) ≡ starts_with (str m) (str n)
str-prefix m n t = digits-prefix (str m) (str n) t (str-Digits m)

digits-ne-field : (a b t : Text) → All Digit a → text_eq a (b ++ 58 ∷ t) ≡ false
digits-ne-field [] [] t p = refl
digits-ne-field [] (y ∷ b) t p = refl
digits-ne-field (x ∷ a) [] t p = ground arith
digits-ne-field (x ∷ a) (y ∷ b) t p = ground (arith, digits-ne-field a b t p.1)

-- A number is no field that ends in a colon.
pub str-ne-field : (m n : ℕ) (t : Text) → text_eq (str m) (str n ++ 58 ∷ t) ≡ false
str-ne-field m n t = digits-ne-field (str m) (str n) t (str-Digits m)
