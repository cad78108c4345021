-- ===== src/Prelude/Results.antt =====
-- Results with an error of any type, for code that returns early or throws.
use mathlib.Core.Path.{◌≡◌, refl}
use mathlib.Core.Logic.{◌⊎◌, inl, inr}
use mathlib.Core.Bool.{Bool, true, false}
use mathlib.Core.Option.{Option, none, some}
use spectro.Prelude.Tests.{if◌then◌else◌}

pub data Either {ℓ κ} (E : Type ℓ) (A : Type κ) : Type (ℓ ⊔ κ) where
  err : E → Either E A
  ok : A → Either E A

module _ {ℓ κ μ} {E : Type ℓ} {A : Type κ} {B : Type μ} where
  infixl 5 ◌>>=◌
  abbrev pub ◌>>=◌ : Either E A → (A → Either E B) → Either E B
  err e >>= next = err e
  ok x >>= next = next x

  infixl 5 ◌>>◌
  abbrev pub ◌>>◌ : Either E A → Either E B → Either E B
  ok a >> r = r
  err e >> r = err e

  -- What a chain that succeeds has passed through.
  pub >>=-eq-ok :
      (first : Either E A) (next : A → Either E B) {y : B}
      → (first >>= next) ≡ ok y
      → (x : A) × (first ≡ ok x) × (next x ≡ ok y)
  >>=-eq-ok (err e) next h = cc
  >>=-eq-ok (ok x) next h = (x, refl, h)

  pub >>-eq-ok :
      (m : Either E A) (r : Either E B) {b : B}
      → (m >> r) ≡ ok b
      → ((a : A) × (m ≡ ok a)) × (r ≡ ok b)
  >>-eq-ok (ok a) r h = ((a, refl), h)
  >>-eq-ok (err e) r h = cc

module _ {ℓ} {E : Type ℓ} where
  -- An early return of `e` unless the test holds.
  abbrev pub require : Bool → E → Either E (Unit {0})
  require true e = ok tt
  require false e = err e

  abbrev pub required {κ} : {A : Type κ} → Option A → E → Either E A
  required (some a) e = ok a
  required none e = err e

  pub require-then {κ} :
      {B : Type κ} (b : Bool) (e : E) (r : Either E B) {d : B}
      → (require b e >> r) ≡ ok d
      → (b ≡ true) × (r ≡ ok d)
  require-then true e r h = (refl, h)
  require-then false e r h = cc

  pub required-eq-ok {κ} :
      {A : Type κ} (o : Option A) (e : E) {a : A} → required o e ≡ ok a → o ≡ some a
  required-eq-ok (some b) e h = cc
  required-eq-ok none e h = cc

  pub required-then {κ μ} :
      {A : Type κ} {B : Type μ} (o : Option A) (e : E) (f : A → Either E B) {b : B}
      → (required o e >>= f) ≡ ok b
      → (a : A) × (o ≡ some a) × (f a ≡ ok b)
  required-then (some a) e f h = (a, refl, h)
  required-then none e f h = cc

module _ {ℓ κ} {E : Type ℓ} {A : Type κ} where
  pub ok_injective : (a b : A) → ◌≡◌ {A = Either E A} (ok a) (ok b) → a ≡ b
  ok_injective a b h = cc

  pub Either-cases : (r : Either E A) → ((a : A) × (r ≡ ok a)) ⊎ ((e : E) × (r ≡ err e))
  Either-cases (ok a) = inl (a, refl)
  Either-cases (err e) = inr (e, refl)

  -- A test that refuses with an error, beside the state that it leaves, has not done so.
  pub if-refused {μ} :
      {S : Type μ} (b : Bool) (e : E) (s : S) (r : Either E A × S) {a : A} {t : S}
      → (if b then (err e, s) else r) ≡ (ok a, t)
      → (b ≡ false) × (r ≡ (ok a, t))
  if-refused true e s r h = cc
  if-refused false e s r h = (refl, h)

  pub if-accepted {μ} :
      {S : Type μ} (b : Bool) (e : E) (s : S) (r : Either E A × S) {a : A} {t : S}
      → (if b then r else (err e, s)) ≡ (ok a, t)
      → (b ≡ true) × (r ≡ (ok a, t))
  if-accepted true e s r h = (refl, h)
  if-accepted false e s r h = cc
