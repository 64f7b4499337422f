-- ===== src/Mencode/Within.antt =====
-- How much of its stream a decoder of util/mencode.cpp leaves: rules for each way to build one.
use firestr.Prelude.{
  ℕ, zero, suc, ◌+◌, ◌-◌, ◌*◌, ◌<◌, ◌≤◌, ◌≡◌, ◌≢◌, refl, ap, Bool, true, false, not, ◌&&◌, [], ◌∷◌,
  ◌++◌, ℤ, Bytes, Option, none, some, Outcome, ok, thrown, aborted, out_of_fuel, arith, length,
  drop, length-drop, if◌then◌else◌, ◌==◌, Bool-cases, inl, inr, Option-cases,
}
use firestr.Prelude
use firestr.Mencode.Stream.{State, Decoder, ◌>>=◌, pure, throw, or_stop, or_bad_cast}

abbrev pub state : Bool → Bytes → Bytes → Bytes → State
state g r s b = record { rest = r; good = g; s = s; b = b }

-- The bytes of a good stream, and one for its end; a stream that is not good has nothing left.
abbrev pub left : State → ℕ
left st = if st.good then suc (length st.rest) else 0

-- The call did not run out of fuel, and left `n` at most.
pub data Ends {ℓ} {A : Type ℓ} (n : ℕ) : Outcome (A × State) → Type ℓ where
  ends : {a : A} {st : State} → left st ≤ n → Ends n (ok (a, st))
  throws : Ends n thrown
  aborts : Ends n aborted

-- From `m` left, the decoder ends with `n` left at most.
pub record Within {ℓ} {A : Type ℓ} (m n : ℕ) (p : Decoder A) : Type ℓ where
  pub run : (g : Bool) (r s b : Bytes) → left (state g r s b) ≤ m → Ends n (p (state g r s b))

Ends-weaken {ℓ} : {A : Type ℓ} {n n' : ℕ} {r : Outcome (A × State)} → n ≤ n' → Ends n r → Ends n' r
Ends-weaken le (ends h) = ends (omega arith)
Ends-weaken le throws = throws
Ends-weaken le aborts = aborts

pub Within-weaken {ℓ} :
    {A : Type ℓ} {m n n' : ℕ} {p : Decoder A} → n ≤ n' → Within m n p → Within m n' p
Within-weaken le h = record { run = λ g r s b fits. Ends-weaken le (h.run g r s b fits) }

module _ {ℓ κ} {A : Type ℓ} {B : Type κ} {k n : ℕ} where
  outcome_bind :
      (r : Outcome (A × State)) (f : A → Decoder B)
      → Ends k r
      → ((a : A) → Within k n (f a))
      → Ends n (Prelude.◌>>=◌ r (λ (a, st). f a st))
  outcome_bind (ok (a, st)) f (ends h) rule = (rule a).run st.good st.rest st.s st.b h
  outcome_bind thrown f throws rule = throws
  outcome_bind aborted f aborts rule = aborts
  outcome_bind out_of_fuel f h rule = elim h [ ]

  pub Within-bind :
      {m : ℕ} (p : Decoder A) (f : A → Decoder B)
      → Within m k p
      → ((a : A) → Within k n (f a))
      → Within m n (p >>= f)
  Within-bind p f h rule = record {
    run = λ g r s b le. outcome_bind (p (state g r s b)) f (h.run g r s b le) rule;
  }

module _ {ℓ} {A : Type ℓ} {m n : ℕ} where
  pub Within-if :
      (c : Bool) (p q : Decoder A) → Within m n p → Within m n q → Within m n (if c then p else q)
  Within-if true p q hp hq = hp
  Within-if false p q hp hq = hq

  or_stop_run :
      (x : A) (p : Decoder A)
      → (1 ≤ m → Within m n p)
      → (g : Bool) (r s b : Bytes) → left (state g r s b) ≤ m
      → Ends n (or_stop x p (state g r s b))
  or_stop_run x p h true r s b fits = (h (omega arith)).run true r s b fits
  or_stop_run x p h false r s b fits = ends (omega arith)

  -- What follows `if(!i.good()) return …` runs on a good stream, which has something left.
  pub Within-or_stop : (x : A) (p : Decoder A) → (1 ≤ m → Within m n p) → Within m n (or_stop x p)
  Within-or_stop x p h = record { run = or_stop_run x p h }

  pub Within-pure : (x : A) → m ≤ n → Within m n (pure x)
  Within-pure x le = record { run = λ g r s b h. ends (omega arith) }

  pub Within-throw : Within m n (throw {A = A})
  Within-throw = record { run = λ g r s b h. throws }

  cast_run : (o : Option A) → m ≤ n → (st : State) → left st ≤ m → Ends n (or_bad_cast o st)
  cast_run none le st h = throws
  cast_run (some a) le st h = ends (omega arith)

  pub Within-or_bad_cast : (o : Option A) → m ≤ n → Within m n (or_bad_cast o)
  Within-or_bad_cast o le = record { run = λ g r s b h. cast_run o le (state g r s b) h }
