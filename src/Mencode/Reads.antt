-- ===== src/Mencode/Reads.antt =====
-- What the decoders of util/mencode.cpp do at the front of a good stream.
use firestr.Prelude.{
  ℕ, suc, ◌-◌, ◌<◌, ◌≡◌, ◌≢◌, refl, true, false, [], ◌∷◌, ◌++◌, append_assoc, append-nil, Bytes,
  Option, none, some, ok, arith, length, leb, ◌==◌, ==_iff, All, length-append, take-append,
  drop-append, if◌then◌else◌,
}
use firestr.Mencode.Lexical.{Lexical, IsFaithful, IsSize, IsDigit}
use firestr.Mencode.Encode.{encode_b, enc}
use firestr.Mencode.Stream.{
  State, get, peek, is_digit, until_loop, get_until, read_padded, ◌>>=◌, pure, set_s, set_b,
}
use firestr.Mencode.Decode.{dec, decode_bytes, decode_key}

-- A good stream with these bytes left.
abbrev pub on : Bytes → Bytes → Bytes → State
on rest s b = record { rest = rest; good = true; s = s; b = b }

-- What `peek` sees.
abbrev pub front : Bytes → Option ℕ
front [] = none
front (c ∷ r) = some c

pub peek-on : (xs s b : Bytes) → xs ≢ [] → peek (on xs s b) ≡ ok (front xs, on xs s b)
unfolding peek
peek-on [] s b h = absurd (h refl)
peek-on (x ∷ xs) s b h = refl

pub until_loop-append :
    (e : ℕ) (acc xs rest : Bytes)
    → All (λ c. c ≢ e) xs
    → until_loop e acc (xs ++ (e ∷ rest)) ≡ some (acc ++ xs, rest)
unfolding until_loop
until_loop-append e acc [] rest h = ground (arith, append-nil acc)
until_loop-append e acc (x ∷ xs) rest h =
    ground (arith, until_loop-append e (acc ++ (x ∷ [])) xs rest h.1, append_assoc acc (x ∷ []) xs)

pub get_until-on :
    (e : ℕ) (xs rest s b : Bytes)
    → All (λ c. c ≢ e) xs
    → get_until e (on (xs ++ (e ∷ rest)) s b) ≡ ok (tt, on rest xs b)
unfolding get_until
get_until-on e xs rest s b h = rw (until_loop-append e [] xs rest h, get_until)

leb-length : (xs rest : Bytes) → leb (length xs) (length (xs ++ rest)) ≡ true
leb-length xs rest = ground (arith, length-append xs rest)

sub-length : (xs rest : Bytes) → length xs - length (xs ++ rest) ≡ 0
sub-length xs rest = ground (arith, length-append xs rest)

pub read_padded-on :
    (xs rest s b : Bytes) → read_padded (length xs) (on (xs ++ rest) s b) ≡ ok (xs, on rest s b)
unfolding read_padded
read_padded-on xs rest s b =
    rw
      (leb-length xs rest, sub-length xs rest, take-append xs rest, drop-append xs rest, append-nil)

pub suc-ne-zero : (n : ℕ) → (suc n == 0) ≡ false
suc-ne-zero n = ground arith

-- A marked number reads back.
pub dec-on {ℓ} :
    {A : Type ℓ} (z : A) (cast : Bytes → Option A) (c e : ℕ) (xs rest s b : Bytes) {a : A}
    → All (λ x. x ≢ e) xs
    → cast xs ≡ some a
    → dec z cast c e (on (enc c e xs ++ rest) s b) ≡ ok (a, on rest xs b)
unfolding dec enc get
dec-on z cast c e xs rest s b clean h =
    rw ((==_iff c c).1 refl, append_assoc xs (e ∷ []) rest, get_until-on e xs rest s b clean, h)
      refl

pub digit-front : (x : ℕ) → IsDigit x → is_digit (some x) ≡ true
digit-front x h = ground arith

module _ (l : Lexical) where
  digits-clean : (xs : Bytes) → All IsDigit xs → All (λ c. c ≢ b':') xs
  digits-clean [] h = tt
  digits-clean (x ∷ xs) h = (omega arith, digits-clean xs h.1)

  -- Both read a size up to `:` first, into `w.s`.
  pub decode_key-digits :
      (ds r s b : Bytes) {n : ℕ}
      → ds ≢ []
      → All IsDigit ds
      → l.str_size ds ≡ some n
      → decode_key l (on (ds ++ (b':' ∷ r)) s b)
        ≡ (if n == 0 then pure tt else (read_padded n >>= set_s)) (on r ds b)
  unfolding decode_key peek
  decode_key-digits [] r s b ne h e = absurd (ne refl)
  decode_key-digits (d ∷ ds) r s b ne h e =
      rw (digit-front d h.0, get_until-on b':' (d ∷ ds) r s b (digits-clean (d ∷ ds) h), e) refl

  pub decode_bytes-digits :
      (ds r s b : Bytes) {n : ℕ}
      → ds ≢ []
      → All IsDigit ds
      → l.str_size ds ≡ some n
      → decode_bytes l (on (ds ++ (b':' ∷ r)) s b)
        ≡ (if n == 0 then pure tt else (read_padded n >>= set_b)) (on r ds [])
  unfolding decode_bytes peek
  decode_bytes-digits [] r s b ne h e = absurd (ne refl)
  decode_bytes-digits (d ∷ ds) r s b ne h e =
      rw (digit-front d h.0, get_until-on b':' (d ∷ ds) r s [] (digits-clean (d ∷ ds) h), e) refl

module _ (l : Lexical) (w : IsFaithful l) where
  encode_b_assoc :
      (x rest : Bytes) → encode_b l x ++ rest ≡ l.size_str (length x) ++ (b':' ∷ (x ++ rest))
  unfolding encode_b
  encode_b_assoc x rest = append_assoc (l.size_str (length x)) (b':' ∷ x) rest

  pub decode_bytes-on :
      (x rest s b : Bytes)
      → IsSize (length x)
      → decode_bytes l (on (encode_b l x ++ rest) s b) ≡ ok (tt, on rest (l.size_str (length x)) x)
  decode_bytes-on [] rest s b h =
      rw
        (
          encode_b_assoc [] rest,
          decode_bytes-digits l (l.size_str 0) rest s b (w.size_nonempty 0 h) (w.size_digits 0 h)
              (w.size_round 0 h),
        )
        refl
  decode_bytes-on (c ∷ x) rest s b h =
      let n = length (c ∷ x) in
      rw
        (
          encode_b_assoc (c ∷ x) rest,
          decode_bytes-digits l (l.size_str n) (c ∷ x ++ rest) s b (w.size_nonempty n h)
              (w.size_digits n h) (w.size_round n h),
          suc-ne-zero (length x),
          read_padded-on (c ∷ x) rest (l.size_str n) [],
        )
        refl

  -- A key that is not empty reads back.
  pub decode_key-on :
      (x rest s b : Bytes)
      → IsSize (length x)
      → 0 < length x
      → decode_key l (on (encode_b l x ++ rest) s b) ≡ ok (tt, on rest x b)
  decode_key-on [] rest s b h p = absurd (omega arith)
  decode_key-on (c ∷ x) rest s b h p =
      let n = length (c ∷ x) in
      rw
        (
          encode_b_assoc (c ∷ x) rest,
          decode_key-digits l (l.size_str n) (c ∷ x ++ rest) s b (w.size_nonempty n h)
              (w.size_digits n h) (w.size_round n h),
          suc-ne-zero (length x),
          read_padded-on (c ∷ x) rest (l.size_str n) b,
        )
        refl
