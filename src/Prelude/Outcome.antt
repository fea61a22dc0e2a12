-- ===== src/Prelude/Outcome.antt =====
-- What a call of a codec returns, as a value.
use mathlib.Core.Path.{◌≡◌, refl, subst}
use mathlib.Core.Logic.{◌≢◌}
use mathlib.Core.Bool.{Bool, true, false}
use librtmp_client.Prelude.Tests.{if◌then◌else◌}
use Prim.Native.Nat.{ℕ}

-- `err n` is the return value -n. `fault` is what C++ leaves undefined: an access outside the buffer,
-- or through a null or deleted pointer, or a second delete. `out_of_fuel` has no counterpart in the program: a bounded recursion was cut short.
pub data Result {ℓ} (A : Type ℓ) : Type ℓ where
  ok : A → Result A
  err : ℕ → Result A
  fault : Result A
  out_of_fuel : Result A

infixl 5 ◌>>=◌
abbrev pub ◌>>=◌ {ℓ κ} : {A : Type ℓ} {B : Type κ} → Result A → (A → Result B) → Result B
ok a >>= f = f a
err n >>= f = err n
fault >>= f = fault
out_of_fuel >>= f = out_of_fuel

-- The call comes back, within its buffers and its fuel: with a value of which `P` holds, or with an
-- error.
pub data Returns {ℓ κ} {A : Type ℓ} (P : A → Type κ) : Result A → Type (ℓ ⊔ κ) where
  gives : {a : A} → P a → Returns P (ok a)
  refuses : (n : ℕ) → Returns P (err n)

module _ {ℓ κ ℓ' κ'} {A : Type ℓ} {P : A → Type κ} {B : Type ℓ'} {Q : B → Type κ'} where
  pub Returns->>= :
      {m : Result A} {f : A → Result B}
      → Returns P m
      → ((a : A) → P a → Returns Q (f a))
      → Returns Q (m >>= f)
  Returns->>= (gives {a} h) k = k a h
  Returns->>= (refuses n) k = refuses n

module _ {ℓ κ} {A : Type ℓ} {P : A → Type κ} where
  pub Returns-if :
      (b : Bool) {x y : Result A}
      → (b ≡ true → Returns P x)
      → (b ≡ false → Returns P y)
      → Returns P (if b then x else y)
  Returns-if true hx hy = hx refl
  Returns-if false hx hy = hy refl

  pub Returns-ne-fault : {r : Result A} → Returns P r → (r ≢ fault) × (r ≢ out_of_fuel)
  Returns-ne-fault (gives h) = ((λ e. cc), λ e. cc)
  Returns-ne-fault (refuses n) = ((λ e. cc), λ e. cc)

  pub Returns-ok : {r : Result A} {a : A} → Returns P r → r ≡ ok a → P a
  Returns-ok (gives h) e = subst P (cc) h
  Returns-ok (refuses n) e = cc

  pub Returns-map {κ'} :
      {Q : A → Type κ'} {r : Result A} → Returns P r → ((a : A) → P a → Q a) → Returns Q r
  Returns-map (gives {a} h) k = gives (k a h)
  Returns-map (refuses n) k = refuses n

-- The same, but that `B` may come in between, and the behaviour is then undefined.
pub data ReturnsUnless {ℓ κ ι} {A : Type ℓ} (B : Type ι) (P : A → Type κ)
    : Result A → Type (ℓ ⊔ κ ⊔ ι) where
  yields : {a : A} → P a → ReturnsUnless B P (ok a)
  declines : (n : ℕ) → ReturnsUnless B P (err n)
  breaks : B → ReturnsUnless B P fault

module _ {ℓ κ ι ℓ' κ'} {A : Type ℓ} {P : A → Type κ} {B : Type ι} {C : Type ℓ'}
    {Q : C → Type κ'} where
  pub Unless->>= :
      {m : Result A} {f : A → Result C}
      → ReturnsUnless B P m
      → ((a : A) → P a → ReturnsUnless B Q (f a))
      → ReturnsUnless B Q (m >>= f)
  Unless->>= (yields {a} h) k = k a h
  Unless->>= (declines n) k = declines n
  Unless->>= (breaks b) k = breaks b

module _ {ℓ κ ι} {A : Type ℓ} {P : A → Type κ} {B : Type ι} where
  pub Unless-of : {r : Result A} → Returns P r → ReturnsUnless B P r
  Unless-of (gives h) = yields h
  Unless-of (refuses n) = declines n

  pub Unless-if :
      (b : Bool) {x y : Result A}
      → (b ≡ true → ReturnsUnless B P x)
      → (b ≡ false → ReturnsUnless B P y)
      → ReturnsUnless B P (if b then x else y)
  Unless-if true hx hy = hx refl
  Unless-if false hx hy = hy refl

  pub Unless-map {κ' ι'} :
      {Q : A → Type κ'} {B' : Type ι'} {r : Result A}
      → ReturnsUnless B P r
      → (B → B')
      → ((a : A) → P a → Q a)
      → ReturnsUnless B' Q r
  Unless-map (yields {a} h) w k = yields (k a h)
  Unless-map (declines n) w k = declines n
  Unless-map (breaks b) w k = breaks (w b)
