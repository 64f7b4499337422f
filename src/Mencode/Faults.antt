-- ===== src/Mencode/Faults.antt =====
-- util/mencode.cpp: where the decoders do not give back what was written, and what they make of a
-- byte string that is cut off.
use firestr.Prelude.{
  ℕ, zero, suc, ◌+◌, ◌-◌, ◌*◌, ◌<◌, ◌≡◌, ◌≢◌, refl, ap, false, [], ◌∷◌, ◌++◌, append_assoc, Bytes,
  ok, arith, length, take, drop, replicate, leb, ◌==◌, ◌≤◌, All,
}
use firestr.Mencode.Value.{Value, Entries, blob, no_entries, entry, assign}
use firestr.Mencode.Lexical.{Lexical, IsFaithful, IsSize, IsDigit}
use firestr.Mencode.Encode.{encode_entries, encode_b}
use firestr.Mencode.Stream.{read_padded}
use firestr.Mencode.Decode.{decode_key, decode_value, decode_dict}
use firestr.Mencode.Reads.{on, decode_key-digits, decode_bytes-digits}
use firestr.Mencode.Encodable.{IsEncodable, AreEntries, extend}
use firestr.Mencode.Rounds.{
  decode_value-Reads, decode_value-digit, read_dict_as, loop_entry_as, dict_loop-Loops,
}

take_all : (n : ℕ) (xs : Bytes) → length xs ≤ n → take n xs ≡ xs
take_all zero [] h = refl
take_all zero (x ∷ xs) h = absurd (omega arith)
take_all (suc n) [] h = refl
take_all (suc n) (x ∷ xs) h = ap (◌∷◌ x) (take_all n xs (omega arith))

drop_all : (n : ℕ) (xs : Bytes) → length xs ≤ n → drop n xs ≡ []
drop_all zero [] h = refl
drop_all zero (x ∷ xs) h = absurd (omega arith)
drop_all (suc n) [] h = refl
drop_all (suc n) (x ∷ xs) h = drop_all n xs (omega arith)

not_leb : (n m : ℕ) → m < n → leb n m ≡ false
not_leb n m h = ground arith

module _ (l : Lexical) (w : IsFaithful l) where
  -- The key that `decode_key` leaves behind for an empty string is the text of the number zero.
  decode_key-empty :
      (rest s b : Bytes)
      → decode_key l (on (encode_b l [] ++ rest) s b) ≡ ok (tt, on rest (l.size_str 0) b)
  unfolding encode_b
  decode_key-empty rest s b = rw (
    append_assoc (l.size_str 0) (b':' ∷ []) rest,
    decode_key-digits l (l.size_str 0) rest s b (w.size_nonempty 0 (omega arith))
        (w.size_digits 0 (omega arith)) (w.size_round 0 (omega arith)),
  )

  -- With a faithful lexical_cast, a dictionary that encode writes with an empty key in front of
  -- encodable entries, read with fuel above three times its length and 2, comes back with the text
  -- of the number 0 as that key, and the other entries added to it.
  pub decode_dict-empty_key :
      (v : Value) (d : Entries) (rest s b : Bytes) (f : ℕ)
      → IsEncodable v
      → AreEntries d
      → 3 * length (encode_entries l (entry [] v d)) + 2 < f
      → (s' : Bytes) × (b' : Bytes) × (decode_dict l f
            (on ((b'd' ∷ encode_entries l (entry [] v d)) ++ rest) s b)
          ≡ ok (extend (entry (l.size_str 0) v no_entries) d, on rest s' b'))
  unfolding assign
  decode_dict-empty_key v d rest s b f hv hd h =
      read_dict_as l w (entry [] v d) (extend (entry (l.size_str 0) v no_entries) d)
        (loop_entry_as l w [] (l.size_str 0) v d decode_key-empty (omega arith)
          (decode_value-Reads l w v hv) (dict_loop-Loops l w d hd) no_entries)
        rest s b f h

  IsDigit-front :
      (n : ℕ) (part : Bytes)
      → IsSize n
      → (c : ℕ) × (r : Bytes) × (l.size_str n ++ (b':' ∷ part) ≡ c ∷ r) × IsDigit c
  IsDigit-front n part h = go (l.size_str n) (w.size_nonempty n h) (w.size_digits n h)
    where
      go :
          (ds : Bytes)
          → ds ≢ []
          → All IsDigit ds
          → (c : ℕ) × (r : Bytes) × (ds ++ (b':' ∷ part) ≡ c ∷ r) × IsDigit c
      go [] ne _ = absurd (ne refl)
      go (d ∷ ds) ne a = (d, ds ++ (b':' ∷ part), refl, a.0)

  read_padded-short :
      (n : ℕ) (part s b : Bytes)
      → length part < n
      → read_padded n (on part s b)
        ≡ ok (
          part ++ replicate (n - length part) 0,
          record { rest = []; good = false; s = s; b = b },
        )
  unfolding read_padded
  read_padded-short n part s b h =
      rw (take_all n part (omega arith), drop_all n part (omega arith), not_leb n (length part) h)

  -- With a faithful lexical_cast, a byte string of which fewer bytes follow than its count says,
  -- at the end of the stream, is read without an error as if zeros had followed.
  pub decode_value-truncated :
      (n : ℕ) (part s b : Bytes) (f : ℕ)
      → IsSize n
      → length part < n
      → decode_value l (suc f) (on (l.size_str n ++ (b':' ∷ part)) s b)
        ≡ ok (
          blob (part ++ replicate (n - length part) 0),
          record {
            rest = [];
            good = false;
            s = l.size_str n;
            b = part ++ replicate (n - length part) 0;
          },
        )
  decode_value-truncated n part s b f h cut =
      let (c, r, e, d) = IsDigit-front n part h in
      let start = decode_value-digit l w c r s b f d in
      let nonzero : (n == 0) ≡ false = ground arith in
      let bytes =
        decode_bytes-digits l (l.size_str n) part s b (w.size_nonempty n h) (w.size_digits n h)
          (w.size_round n h) in
      rw e
        (rw start (rw (← e) (rw (bytes, nonzero, read_padded-short n part (l.size_str n) [] cut))))
