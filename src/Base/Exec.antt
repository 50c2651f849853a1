-- ===== src/Base/Exec.antt =====
-- Coroutines that read and write shared state and may raise: what was written before a raise stays
-- written, so the state comes back beside the error too (backend/common/exception/errors.py).
use Prim.Native.Nat.{ℕ}
use Prim.Native.String.{String}
use mathlib.Core.Path.{◌≡◌, refl, ap}
use mathlib.Core.Bool.{Bool, true, false}
use mathlib.Core.Option.{Option, none, some}
use fbapy.Base.Tests.{if◌then◌else◌}

-- The exception classes of the project, with their messages, and Python's own.
pub data Error : Type 0 where
  request_error : String → Error
  forbidden_error : String → Error
  not_found_error : String → Error
  server_error : String → Error
  authorization_error : String → Error
  token_error : String → Error
  conflict_error : String → Error
  captcha_error : Error
  -- The authorization error that tells a locked user the minutes left.
  locked_error : ℕ → Error
  value_error key_error type_error : Error
  -- `CapacityExceededError` of the connection pool, and an error of the Redis client.
  capacity_error redis_error : Error

pub data Result {ℓ} (A : Type ℓ) : Type ℓ where
  ok : A → Result A
  err : Error → Result A

abbrev pub Exec {ℓ κ} : Type ℓ → Type κ → Type (ℓ ⊔ κ)
Exec S A = S → Result A × S

module _ {ℓ κ} {S : Type ℓ} {A : Type κ} where
  abbrev pub pure : A → Exec S A
  pure a s = (ok a, s)

  abbrev pub raise : Error → Exec S A
  raise e s = (err e, s)

  abbrev pub gets : (S → A) → Exec S A
  gets f s = (ok (f s), s)

  abbrev pub lift : Result A → Exec S A
  lift r s = (r, s)

  abbrev pub or_raise : Option A → Error → Exec S A
  or_raise none e = raise e
  or_raise (some a) _ = pure a

module _ {ℓ} {S : Type ℓ} where
  abbrev pub modify : (S → S) → Exec S (Unit {0})
  modify f s = (ok tt, f s)

  abbrev pub raise_if : Bool → Error → Exec S (Unit {0})
  raise_if b e s = (if b then err e else ok tt, s)

module _ {ℓ κ μ} {S : Type ℓ} {A : Type κ} {B : Type μ} where
  abbrev continue : Result A → (A → Exec S B) → Exec S B
  continue (ok a) f s = f a s
  continue (err e) f s = (err e, s)

  infixl 5 ◌>>=◌ ◌>>◌
  abbrev pub ◌>>=◌ : Exec S A → (A → Exec S B) → Exec S B
  ◌>>=◌ m f s = let (r, s') = m s in continue r f s'

  abbrev pub ◌>>◌ : Exec S A → Exec S B → Exec S B
  m >> k = m >>= λ _. k

module _ {ℓ κ μ} {S : Type ℓ} {A : Type κ} {B : Type μ} where
  continue-ok :
      (x : Result A × S) (f : A → Exec S B) {b : B} {s' : S}
      → continue x.0 f x.1 ≡ (ok b, s')
      → (a : A) × (s₁ : S) × (x ≡ (ok a, s₁)) × (f a s₁ ≡ (ok b, s'))
  continue-ok (ok a, s) f h = (a, s, refl, h)
  continue-ok (err e, s) f h = absurd (cc)

  pub bind-raise :
      (m : Exec S A) (f : A → Exec S B) (s : S) {e : Error} {s' : S}
      → m s ≡ (err e, s')
      → (m >>= f) s ≡ (err e, s')
  bind-raise m f s h = ap (λ (x : Result A × S). continue x.0 f x.1) h

  pub bind-pure :
      (m : Exec S A) (f : A → Exec S B) (s : S) {a : A} {s' : S}
      → m s ≡ (ok a, s')
      → (m >>= f) s ≡ f a s'
  bind-pure m f s h = ap (λ (x : Result A × S). continue x.0 f x.1) h

  pub bind-ok :
      (m : Exec S A) (f : A → Exec S B) (s : S) {b : B} {s' : S}
      → (m >>= f) s ≡ (ok b, s')
      → (a : A) × (s₁ : S) × (m s ≡ (ok a, s₁)) × (f a s₁ ≡ (ok b, s'))
  bind-ok m f s h = continue-ok (m s) f h

module _ {ℓ κ μ} {S : Type ℓ} {A : Type κ} {B : Type μ} where
  -- A block that returns has passed each of its steps.
  pub lift-bind-ok :
      (m : Result A) (f : A → Exec S B) (s : S) {b : B} {s' : S}
      → (lift m >>= f) s ≡ (ok b, s')
      → (a : A) × (m ≡ ok a) × (f a s ≡ (ok b, s'))
  lift-bind-ok (ok a) f s h = (a, refl, h)
  lift-bind-ok (err e) f s h = cc

  pub or_raise-bind-ok :
      (m : Option A) (e : Error) (f : A → Exec S B) (s : S) {b : B} {s' : S}
      → (or_raise m e >>= f) s ≡ (ok b, s')
      → (a : A) × (m ≡ some a) × (f a s ≡ (ok b, s'))
  or_raise-bind-ok none e f s h = cc
  or_raise-bind-ok (some a) e f s h = (a, refl, h)

module _ {ℓ κ} {S : Type ℓ} {B : Type κ} where
  pub raise_if-bind-ok :
      (c : Bool) (e : Error) (m : Exec S B) (s : S) {b : B} {s' : S}
      → (raise_if c e >> m) s ≡ (ok b, s')
      → (c ≡ false) × (m s ≡ (ok b, s'))
  raise_if-bind-ok true e m s h = cc
  raise_if-bind-ok false e m s h = (refl, h)

-- What holds of the state after a block, also one that raises.
module _ {ℓ κ μ ν} {S : Type ℓ} {A : Type κ} {B : Type μ} (P : S → Type ν) where
  continue-keeps :
      (x : Result A × S) (f : A → Exec S B)
      → P x.1
      → ((a : A) (s : S) → P s → P (f a s).1)
      → P (continue x.0 f x.1).1
  continue-keeps (ok a, s) f p next = next a s p
  continue-keeps (err e, s) f p next = p

  pub bind-keeps :
      (m : Exec S A) (f : A → Exec S B) (s : S)
      → P (m s).1
      → ((a : A) (t : S) → P t → P (f a t).1)
      → P ((m >>= f) s).1
  bind-keeps m f s p next = continue-keeps (m s) f p next

  pub or_raise-keeps :
      (m : Option A) (e : Error) (f : A → Exec S B) (s : S)
      → P s
      → ((a : A) → m ≡ some a → P (f a s).1)
      → P ((or_raise m e >>= f) s).1
  or_raise-keeps none e f s p next = p
  or_raise-keeps (some a) e f s p next = next a refl

module _ {ℓ κ ν} {S : Type ℓ} {B : Type κ} (P : S → Type ν) where
  pub raise_if-keeps :
      (c : Bool) (e : Error) (m : Exec S B) (s : S)
      → P s
      → (c ≡ false → P (m s).1)
      → P ((raise_if c e >> m) s).1
  raise_if-keeps true e m s p next = p
  raise_if-keeps false e m s p next = next refl
