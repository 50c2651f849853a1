-- ===== src/Base/Text.antt =====
-- Python's `str` as a list of code points: equality, prefixes, splitting, decimal numerals.
use Prim.Native.Char.{code}
use Prim.Native.Nat.{ℕ, zero, suc, ◌+◌, ◌-◌, ◌/◌, ◌%◌}
use Prim.Native.String.{String}
use mathlib.Core.Path.{◌≡◌, refl}
use mathlib.Core.Logic.{◌≢◌, ◌↔◌}
use mathlib.Core.Bool.{Bool, true, false, ◌&&◌, ◌||◌}
use mathlib.Core.List.{List, [], ◌∷◌, ◌++◌}
use native.Mathlib.Omega.{arith}
use fbapy.Base.Lists.{length, is_empty, All}
use fbapy.Base.Tests.{ltb, leb, ◌==◌, if◌then◌else◌}

abbrev pub Text : Type 0
Text = List ℕ

-- The code points of a literal.
abbrev pub codes : String → Text
codes String.[] = []
codes (String.◌∷◌ c s) = code c ∷ codes s

abbrev pub text_eq : Text → Text → Bool
text_eq [] [] = true
text_eq [] (y ∷ ys) = false
text_eq (x ∷ xs) [] = false
text_eq (x ∷ xs) (y ∷ ys) = x == y && text_eq xs ys

pub text_eq→eq : (a b : Text) → text_eq a b ≡ true → a ≡ b
text_eq→eq [] [] h = refl
text_eq→eq [] (y ∷ ys) h = cc
text_eq→eq (x ∷ xs) [] h = cc
text_eq→eq (x ∷ xs) (y ∷ ys) h = ground (arith, text_eq→eq xs ys)

pub text_eq_self : (a : Text) → text_eq a a ≡ true
text_eq_self [] = refl
text_eq_self (x ∷ xs) = ground (arith, text_eq_self xs)

pub text_eq_iff : (a b : Text) → (text_eq a b ≡ true) ↔ (a ≡ b)
text_eq_iff a b = (text_eq→eq a b, λ e. ground (arith, text_eq_self a))

pub text_ne : (a b : Text) → a ≢ b → text_eq a b ≡ false
text_ne a b h = ground (arith, text_eq→eq a b)

-- A common beginning does not matter to a comparison.
pub text_eq-append : (p a b : Text) → text_eq (p ++ a) (p ++ b) ≡ text_eq a b
text_eq-append [] a b = refl
text_eq-append (x ∷ p) a b = ground (arith, text_eq-append p a b)

-- `a.startswith(p)`
abbrev pub starts_with : Text → Text → Bool
starts_with [] a = true
starts_with (x ∷ p) [] = false
starts_with (x ∷ p) (y ∷ a) = x == y && starts_with p a

pub starts_with-append : (p a : Text) → starts_with p (p ++ a) ≡ true
starts_with-append [] a = refl
starts_with-append (x ∷ p) a = ground (arith, starts_with-append p a)

pub starts_with-append_both : (p a b : Text) → starts_with (p ++ a) (p ++ b) ≡ starts_with a b
starts_with-append_both [] a b = refl
starts_with-append_both (x ∷ p) a b = ground (arith, starts_with-append_both p a b)

pub starts_with_self : (a : Text) → starts_with a a ≡ true
starts_with_self [] = refl
starts_with_self (x ∷ a) = ground (arith, starts_with_self a)

-- `str(n)` on fuel: the decimal digits, the highest first.
unfoldable pub decimal : ℕ → ℕ → Text
decimal zero n = []
decimal (suc f) n =
    let rest = decimal f (n / 10) in if ltb n 10 then (48 + n) ∷ [] else rest ++ (48 + n % 10) ∷ []

-- More fuel than the number has digits.
unfoldable pub str : ℕ → Text
unfolding decimal
str n = decimal (suc n) n

-- `text.split(sep)` for one character, with the field that is being read
unfoldable pub split_from : ℕ → Text → Text → List Text
split_from sep field [] = field ∷ []
split_from sep field (c ∷ t) =
    let next = split_from sep [] t in
    let more = split_from sep (field ++ c ∷ []) t in if c == sep then field ∷ next else more

abbrev pub split_on : ℕ → Text → List Text
split_on sep t = split_from sep [] t

-- The characters that `str.strip` removes.
abbrev pub is_space : ℕ → Bool
is_space c =
    c == 32
    || (leb 9 c && leb c 13)
    || (leb 28 c && leb c 31)
    || c == 133
    || c == 160
    || c == 5760
    || (leb 8192 c && leb c 8202)
    || c == 8232
    || c == 8233
    || c == 8239
    || c == 8287
    || c == 12288

pub lstrip : Text → Text
lstrip [] = []
lstrip (c ∷ t) = let rest = lstrip t in if is_space c then rest else c ∷ t

pub rstrip : Text → Text
rstrip [] = []
rstrip (c ∷ t) = let rest = rstrip t in if is_space c && is_empty rest then [] else c ∷ rest

unfoldable pub strip : Text → Text
unfolding lstrip rstrip
strip t = rstrip (lstrip t)

rstrip_same : (t : Text) → All (λ c. is_space c ≡ false) t → rstrip t ≡ t
unfolding rstrip
rstrip_same [] p = refl
rstrip_same (c ∷ t) p = rw (p.0, rstrip_same t p.1) refl

pub strip_same : (t : Text) → All (λ c. is_space c ≡ false) t → strip t ≡ t
unfolding strip lstrip rstrip
strip_same [] p = refl
strip_same (c ∷ t) p = rw p.0 (rstrip_same (c ∷ t) p)

-- `text.replace(sub, "")` for a text that is not empty: an occurrence is passed over, with `skip` characters
-- of it to go.
unfoldable pub remove_from : Text → ℕ → Text → Text
remove_from sub skip [] = []
remove_from sub zero (c ∷ t) =
    let passed = remove_from sub (length sub - 1) t in
    let kept = c ∷ remove_from sub 0 t in if starts_with sub (c ∷ t) then passed else kept
remove_from sub (suc skip) (c ∷ t) = remove_from sub skip t

abbrev pub remove_all : Text → Text → Text
remove_all sub t = remove_from sub 0 t
