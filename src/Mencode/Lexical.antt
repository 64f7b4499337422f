-- ===== src/Mencode/Lexical.antt =====
-- boost::lexical_cast, as util/mencode.cpp uses it: a parameter, with what its documentation says.
-- `none` is the exception bad_lexical_cast.
use firestr.Prelude.{
  ℕ, ◌%◌, ◌^◌, ◌≤◌, ◌<◌, ◌≡◌, ◌≢◌, ℤ, neg_part, pos_part, Option, some, [], Bytes, All,
}

pub record Lexical : Type 0 where
  pub int_str : ℤ → Bytes
  pub str_int : Bytes → Option ℤ
  pub size_str : ℕ → Bytes
  pub str_size : Bytes → Option ℕ
  pub real_str : ℕ → Bytes
  pub str_real : Bytes → Option ℕ

-- The values of int64_t and size_t.
abbrev pub IsInt64 : ℤ → Type 0
IsInt64 n = (pos_part n < 2 ^ 63) × (neg_part n ≤ 2 ^ 63)

abbrev pub IsSize : ℕ → Type 0
IsSize n = n < 2 ^ 64

-- The bits of a double that is no NaN (a NaN is printed without its payload).
abbrev pub IsReal : ℕ → Type 0
IsReal x = (x < 2 ^ 64) × (x % 2 ^ 63 ≤ 0x7ff0_0000_0000_0000)

abbrev pub IsDigit : ℕ → Type 0
IsDigit c = (b'0' ≤ c) × (c ≤ b'9')

-- A number is printed so that it reads back, in characters that are no `;`; a size in digits.
pub record IsFaithful (l : Lexical) : Type 0 where
  pub int_round : (n : ℤ) → IsInt64 n → l.str_int (l.int_str n) ≡ some n
  pub size_round : (n : ℕ) → IsSize n → l.str_size (l.size_str n) ≡ some n
  pub real_round : (x : ℕ) → IsReal x → l.str_real (l.real_str x) ≡ some x
  pub int_clean : (n : ℤ) → IsInt64 n → All (λ c. c ≢ b';') (l.int_str n)
  pub real_clean : (x : ℕ) → IsReal x → All (λ c. c ≢ b';') (l.real_str x)
  pub size_digits : (n : ℕ) → IsSize n → All IsDigit (l.size_str n)
  pub size_nonempty : (n : ℕ) → IsSize n → l.size_str n ≢ []
