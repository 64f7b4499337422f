-- ===== src/Mencode/Stream.antt =====
-- util/mencode.cpp: the input stream and the work space that the decoders share, and `check`,
-- `get_until` and the reads of a counted string.
-- Of std::istream the code uses the bytes that are left and `good()`. A `get` or `peek` at the end
-- of the bytes gives EOF (`none`) and leaves the stream not good, for good.
use firestr.Prelude.{
  ℕ, ◌+◌, ◌-◌, Bool, true, false, ◌&&◌, not, [], ◌∷◌, ◌++◌, Bytes, Option, none, some, Outcome, ok,
  thrown, aborted, out_of_fuel, length, take, drop, replicate, leb, ◌==◌, if◌then◌else◌,
}
use firestr.Prelude

pub record State : Type 0 where
  pub rest : Bytes
  pub good : Bool
  -- `work_space`: its string and its bytes.
  pub s : Bytes
  pub b : Bytes

abbrev pub Decoder {ℓ} : Type ℓ → Type ℓ
Decoder A = State → Outcome (A × State)

module _ {ℓ κ} {A : Type ℓ} {B : Type κ} where
  infixl 5 ◌>>=◌ ◌>>◌
  abbrev pub ◌>>=◌ : Decoder A → (A → Decoder B) → Decoder B
  p >>= f = λ st. Prelude.◌>>=◌ (p st) (λ (a, st'). f a st')

  abbrev pub ◌>>◌ : Decoder A → Decoder B → Decoder B
  p >> q = p >>= λ _. q

abbrev pub pure {ℓ} : {A : Type ℓ} → A → Decoder A
pure a st = ok (a, st)

abbrev pub throw {ℓ} : {A : Type ℓ} → Decoder A
throw st = thrown

-- `i.get()`.
unfoldable pub get : Decoder (Option ℕ)
get st =
    if st.good
    then (elim st.rest [
      | [] ↦ ok (none, record st { good = false })
      | c ∷ r ↦ ok (some c, record st { rest = r })
    ])
    else ok (none, st)

-- `i.peek()`.
unfoldable pub peek : Decoder (Option ℕ)
peek st =
    if st.good
    then (elim st.rest [ [] ↦ ok (none, record st { good = false }) | c ∷ r ↦ ok (some c, st) ])
    else ok (none, st)

-- `c == x`, for a `c` that may be EOF.
abbrev pub is_char : Option ℕ → ℕ → Bool
is_char none x = false
is_char (some c) x = c == x

-- `c >= '0' && c <= '9'`.
abbrev pub is_digit : Option ℕ → Bool
is_digit none = false
is_digit (some c) = leb b'0' c && leb c b'9'

-- The loop of `get_until` over the bytes of a good stream: what it has pushed, and what is left.
-- Without the end mark it runs into the end of the bytes, and `check` throws.
unfoldable pub until_loop : ℕ → Bytes → Bytes → Option (Bytes × Bytes)
until_loop e acc [] = none
until_loop e acc (c ∷ r) = if c == e then some (acc, r) else until_loop e (acc ++ (c ∷ [])) r

-- `get_until`. Its CHECK_EQUAL(c, e) cannot fail: the loop of a good stream ends at `e` alone.
unfoldable pub get_until : ℕ → Decoder (Unit {0})
unfolding until_loop
get_until e st =
    if st.good
    then (elim (until_loop e [] st.rest) [
      | none ↦ thrown
      | some (w, r) ↦ ok (tt, record st { rest = r; s = w })
    ])
    else thrown

-- `x.resize(size); i.read(&x[0], size)`, for an empty `x`: what the stream lacks stays zero, and
-- leaves it not good.
unfoldable pub read_padded : ℕ → Decoder Bytes
read_padded n st =
    if st.good
    then ok (
      take n st.rest ++ replicate (n - length st.rest) 0,
      record st { rest = drop n st.rest; good = leb n (length st.rest) },
    )
    else ok (replicate n 0, st)

abbrev pub set_s : Bytes → Decoder (Unit {0})
set_s w st = ok (tt, record st { s = w })

abbrev pub set_b : Bytes → Decoder (Unit {0})
set_b w st = ok (tt, record st { b = w })

abbrev pub get_s : Decoder Bytes
get_s st = ok (st.s, st)

abbrev pub get_b : Decoder Bytes
get_b st = ok (st.b, st)

-- `if(!i.good()) return x;`, before what follows.
abbrev pub or_stop {ℓ} : {A : Type ℓ} → A → Decoder A → Decoder A
or_stop x p st = let next = p st in if st.good then next else ok (x, st)

-- lexical_cast of what `get_until` has read.
abbrev pub or_bad_cast {ℓ} : {A : Type ℓ} → Option A → Decoder A
or_bad_cast none st = thrown
or_bad_cast (some a) st = ok (a, st)
