-- ===== src/Prelude/Failure.antt =====
-- The outcome of a call: a value, a C++ exception, or a failed contract, after which util::raise
-- (src/util/dbc.cpp) ends the process. `out_of_fuel` has no counterpart in the program.
use mathlib.Core.Path.{◌≡◌, refl, subst}
use mathlib.Core.Option.{some}
use mathlib.Core.Bool.{Bool, true, false}
use firestr.Prelude.Tests.{if◌then◌else◌}

pub data Outcome {ℓ} (A : Type ℓ) : Type ℓ where
  ok : A → Outcome A
  thrown aborted out_of_fuel : Outcome A

infixl 5 ◌>>=◌
infixl 5 ◌>>◌
abbrev pub ◌>>=◌ {κ ℓ} : {A : Type κ} {B : Type ℓ} → Outcome A → (A → Outcome B) → Outcome B
ok a >>= f = f a
thrown >>= f = thrown
aborted >>= f = aborted
out_of_fuel >>= f = out_of_fuel

abbrev pub ◌>>◌ {ℓ} : {B : Type ℓ} → Outcome (Unit {0}) → Outcome B → Outcome B
m >> k = m >>= λ _. k

-- REQUIRE, ENSURE, CHECK and INVARIANT of src/util/dbc.hpp.
abbrev pub require : Bool → Outcome (Unit {0})
require true = ok tt
require false = aborted

-- What holds of a value holds of what equals it.
pub of_some {ℓ κ} : {A : Type ℓ} (P : A → Type κ) {a b : A} → (some a ≡ some b) → P a → P b
of_some P {a} {b} e h = let q : a ≡ b = cc in subst P q h

-- What a call ensures when it returns.
pub record Ensures {ℓ κ} {A : Type ℓ} (P : A → Type κ) (m : Outcome A) : Type (ℓ ⊔ κ) where
  pub ensured : (a : A) → m ≡ ok a → P a

module _ {ℓ κ} {A : Type ℓ} (P : A → Type κ) where
  pub Ensures-ok : {a : A} → P a → Ensures P (ok a)
  Ensures-ok {a} h = record { ensured = λ b e. let q : a ≡ b = cc in subst P q h }

  pub Ensures-aborted : Ensures P aborted
  Ensures-aborted = record { ensured = λ b e. cc }

  pub Ensures-out_of_fuel : Ensures P out_of_fuel
  Ensures-out_of_fuel = record { ensured = λ b e. cc }

  pub Ensures-if :
      (b : Bool) {x y : Outcome A}
      → (b ≡ true → Ensures P x)
      → (b ≡ false → Ensures P y)
      → Ensures P (if b then x else y)
  Ensures-if true f g = f refl
  Ensures-if false f g = g refl

  pub Ensures-require :
      (b : Bool) {m : Outcome A} → (b ≡ true → Ensures P m) → Ensures P (require b >> m)
  Ensures-require true h = h refl
  Ensures-require false h = Ensures-aborted

  pub Ensures-bind :
      {B : Type ℓ} (m : Outcome B) {f : B → Outcome A}
      → ((b : B) → m ≡ ok b → Ensures P (f b))
      → Ensures P (m >>= f)
  Ensures-bind (ok a) g = g a refl
  Ensures-bind thrown g = record { ensured = λ b e. cc }
  Ensures-bind aborted g = Ensures-aborted
  Ensures-bind out_of_fuel g = Ensures-out_of_fuel

pub Ensures-imp {ℓ κ ι} :
    {A : Type ℓ} (P : A → Type κ) (Q : A → Type ι) (m : Outcome A)
    → ((a : A) → P a → Q a)
    → Ensures P m
    → Ensures Q m
Ensures-imp P Q m i h = record { ensured = λ a e. i a (h.ensured a e) }
