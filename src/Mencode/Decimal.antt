-- ===== src/Mencode/Decimal.antt =====
-- A lexical_cast that prints in decimal and reads it back, for the runs of the model on concrete
-- values. It prints a double by its bits, which stands in for boost's decimal fractions.
use native.Mathlib.Nat.{pow-suc}
use firestr.Prelude.{
  ℕ, zero, suc, ◌+◌, ◌-◌, ◌*◌, ◌/◌, ◌%◌, ◌^◌, ◌<◌, ◌≤◌, ◌≡◌, ◌≢◌, ◌⊎◌, refl, ◌&&◌, ℤ, pos, negsuc,
  [], ◌∷◌, Bytes, Option, none, some, arith, All, ltb, leb, ◌==◌, if◌then◌else◌,
}
use firestr.Mencode.Lexical.{Lexical, IsFaithful, IsDigit, IsInt64}

digits : ℕ → ℕ → Bytes → Bytes
digits zero n out = (b'0' + n % 10) ∷ out
digits (suc f) n out =
    let more = digits f (n / 10) ((b'0' + n % 10) ∷ out) in
    if ltb n 10 then (b'0' + n) ∷ out else more

scan : ℕ → Bytes → Option ℕ
scan acc [] = some acc
scan acc (c ∷ r) = if leb b'0' c && leb c b'9' then scan (acc * 10 + (c - b'0')) r else none

below : ℕ → Option ℕ → Option ℕ
below bound none = none
below bound (some n) = if ltb n bound then some n else none

unfoldable pub read : ℕ → Bytes → Option ℕ
unfolding scan below
read bound [] = none
read bound (c ∷ r) = below bound (scan 0 (c ∷ r))

negate : Option ℕ → Option ℤ
negate none = none
negate (some zero) = some (pos zero)
negate (some (suc n)) = some (negsuc n)

positive : Option ℕ → Option ℤ
positive none = none
positive (some n) = some (pos n)

unfoldable pub read_int : Bytes → Option ℤ
unfolding read negate positive
read_int [] = none
read_int (c ∷ r) =
    if c == b'-' then negate (read (2 ^ 63 + 1) r) else positive (read (2 ^ 63) (c ∷ r))

unfoldable pub print : ℕ → Bytes
unfolding digits
print n = digits 19 n []

unfoldable pub print_int : ℤ → Bytes
unfolding print
print_int (pos n) = print n
print_int (negsuc n) = b'-' ∷ print (n + 1)

scan-digits : (f n : ℕ) (out : Bytes) → n < 10 ^ suc f → scan 0 (digits f n out) ≡ scan n out
unfolding digits scan
scan-digits zero n out h = ground arith
scan-digits (suc f) n out h =
    let p = pow-suc 10 (suc f) in
    ground (arith, scan-digits f (n / 10) ((b'0' + n % 10) ∷ out) (omega (arith, p)))

digits-IsDigit : (f n : ℕ) (out : Bytes) → All IsDigit out → All IsDigit (digits f n out)
unfolding digits
digits-IsDigit zero n out h = (omega arith, h)
digits-IsDigit (suc f) n out h =
    ground (arith, digits-IsDigit f (n / 10) ((b'0' + n % 10) ∷ out) (omega arith, h))

digits-ne-nil : (f n : ℕ) (out : Bytes) → digits f n out ≢ []
unfolding digits
digits-ne-nil zero n out = λ e. cc
digits-ne-nil (suc f) n out = ground (arith, digits-ne-nil f (n / 10) ((b'0' + n % 10) ∷ out))

read-scan : (bound : ℕ) (s : Bytes) → s ≢ [] → read bound s ≡ below bound (scan 0 s)
unfolding read
read-scan bound [] h = absurd (h refl)
read-scan bound (c ∷ r) h = refl

read-print : (bound n : ℕ) → n < bound → bound ≤ 2 ^ 64 → read bound (print n) ≡ some n
unfolding print below scan
read-print bound n h k =
    rw (read-scan bound (digits 19 n []) (digits-ne-nil 19 n []), scan-digits 19 n [] (omega arith))
      (ground arith)

digits-clean : (x : ℕ) (s : Bytes) → (x < b'0') ⊎ (b'9' < x) → All IsDigit s → All (λ c. c ≢ x) s
digits-clean x [] h a = tt
digits-clean x (c ∷ s) h a = (omega arith, digits-clean x s h a.1)

read_int-digits : (s : Bytes) → All IsDigit s → s ≢ [] → read_int s ≡ positive (read (2 ^ 63) s)
unfolding read_int
read_int-digits [] h n = absurd (n refl)
read_int-digits (c ∷ s) h n = ground arith

int_round_lem : (n : ℤ) → IsInt64 n → read_int (print_int n) ≡ some n
unfolding print_int read_int negate positive
int_round_lem (pos n) h = rw (
  read_int-digits (digits 19 n []) (digits-IsDigit 19 n [] tt) (digits-ne-nil 19 n []),
  read-print (2 ^ 63) n h.0 (omega arith),
)
int_round_lem (negsuc n) h =
    rw (read-print (2 ^ 63 + 1) (n + 1) (omega arith) (omega arith)) (ground arith)

abbrev pub decimal : Lexical
decimal = record {
  int_str = print_int;
  str_int = read_int;
  size_str = print;
  str_size = read (2 ^ 64);
  real_str = print;
  str_real = read (2 ^ 64);
}

pub decimal-IsFaithful : IsFaithful decimal
unfolding print print_int
decimal-IsFaithful = record {
  int_round = int_round_lem;
  size_round = λ n h. read-print (2 ^ 64) n h (omega arith);
  real_round = λ x h. read-print (2 ^ 64) x h.0 (omega arith);
  int_clean = clean;
  real_clean = λ x h. digits-clean b';' (digits 19 x []) (omega arith) (digits-IsDigit 19 x [] tt);
  size_digits = λ n h. digits-IsDigit 19 n [] tt;
  size_nonempty = λ n h. digits-ne-nil 19 n [];
}
  where
    clean : (n : ℤ) → IsInt64 n → All (λ c. c ≢ b';') (print_int n)
    clean (pos n) h = digits-clean b';' (digits 19 n []) (omega arith) (digits-IsDigit 19 n [] tt)
    clean (negsuc n) h = (
      omega arith,
      digits-clean b';' (digits 19 (n + 1) []) (omega arith) (digits-IsDigit 19 (n + 1) [] tt),
    )
