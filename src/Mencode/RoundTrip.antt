-- ===== src/Mencode/RoundTrip.antt =====
-- util/mencode.cpp: what `encode` writes, `decode_value` reads back.
use firestr.Prelude.{
  ℕ, ◌<◌, ◌+◌, ◌*◌, ◌≡◌, ap, sym, ◌∙◌, [], ◌++◌, Bytes, Option, none, some, Outcome, ok, arith,
  length,
}
use firestr.Mencode.Value.{Value, Items, Entries, dict, array, no_entries}
use firestr.Mencode.Lexical.{Lexical, IsFaithful}
use firestr.Mencode.Encode.{encode}
use firestr.Mencode.Stream.{State}
use firestr.Mencode.Decode.{decode_value, decode_dict, decode_array}
use firestr.Mencode.Reads.{on}
use firestr.Mencode.Encodable.{IsEncodable, AreItems, AreEntries, extend, extend-nil}
use firestr.Mencode.Rounds.{
  Reads, decode_value-Reads, read_array, read_dict_as, array_loop-Loops, dict_loop-Loops,
}

module _ (l : Lexical) (w : IsFaithful l) where
  -- With a faithful lexical_cast, an encodable value that encode writes is read back by
  -- decode_value off the front of any good stream, whatever the work space holds, with fuel above
  -- three times the length of the text, and what follows it is left in a good stream.
  pub decode_value-encode :
      (v : Value) (rest s b : Bytes) (f : ℕ)
      → IsEncodable v
      → 3 * length (encode l v) < f
      → (s' : Bytes) × (b' : Bytes) × (decode_value l f (on (encode l v ++ rest) s b)
          ≡ ok (v, on rest s' b'))
  decode_value-encode v rest s b f h p = decode_value-Reads l w v h rest s b f p

  -- The same of the operators that read an array or a dictionary.
  pub decode_array-encode :
      (a : Items)
      → AreItems a
      → Reads (decode_array l) (3 * length (encode l (array a))) (encode l (array a)) a
  unfolding encode
  decode_array-encode a h rest s b f p =
      read_array l w a (array_loop-Loops l w a) h rest s b f (omega (arith, p))

  pub decode_dict-encode :
      (d : Entries)
      → AreEntries d
      → Reads (decode_dict l) (3 * length (encode l (dict d))) (encode l (dict d)) d
  unfolding encode
  decode_dict-encode d h rest s b f p =
      let (s', b', e) =
        read_dict_as l w d (extend no_entries d) (dict_loop-Loops l w d h no_entries) rest s b f
          (omega (arith, p)) in
      (s', b', rw e (ap (λ x. ok (x, on rest s' b')) (extend-nil d h)))

abbrev read_back : Outcome (Value × State) → Option (Value × Bytes)
read_back (ok (v, st)) = some (v, st.rest)
read_back _ = none

module _ (l : Lexical) (w : IsFaithful l) where
  -- With a faithful lexical_cast, the format is self-delimiting: if the texts of two encodable
  -- values, each with anything behind it, are equal, then so are the values and what stands behind
  -- them.
  pub encode-prefix_free :
      (v x : Value) (r q : Bytes)
      → IsEncodable v
      → IsEncodable x
      → encode l v ++ r ≡ encode l x ++ q
      → (v ≡ x) × (r ≡ q)
  encode-prefix_free v x r q hv hx e =
      let f = 3 * length (encode l v) + 3 * length (encode l x) + 1 in
      let (s₁, b₁, e₁) = decode_value-encode l w v r [] [] f hv (omega arith) in
      let (s₂, b₂, e₂) = decode_value-encode l w x q [] [] f hx (omega arith) in
      let same : some (v, r) ≡ some (x, q) =
        ap read_back (sym e₁)
        ∙ ap (λ t. read_back (decode_value l f (on t [] []))) e
        ∙ ap read_back e₂ in
      (cc same, cc same)
