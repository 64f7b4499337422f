-- ===== src/Mencode/Encode.antt =====
-- util/mencode.cpp: the functions `encode`. What is written to the stream is the list of its bytes.
use firestr.Prelude.{ℕ, Bool, ℤ, [], ◌∷◌, ◌++◌, Bytes, length, if◌then◌else◌}
use firestr.Mencode.Value.{
  Value, Items, Entries, empty, boolean, int, size, real, blob, dict, array, no_items, item,
  no_entries, entry,
}
use firestr.Mencode.Lexical.{Lexical}

unfoldable pub enc : ℕ → ℕ → Bytes → Bytes
enc s e v = s ∷ (v ++ e ∷ [])

unfoldable pub encode_bool : Bool → Bytes
encode_bool v = (if v then b'T' else b'F') ∷ []

unfoldable pub encode_empty : Bytes
encode_empty = b'n' ∷ []

module _ (l : Lexical) where
  -- lexical_cast<std::string>(v) between two characters.
  unfoldable pub encode_int : ℤ → Bytes
  encode_int v = enc b'i' b';' (l.int_str v)

  unfoldable pub encode_size : ℕ → Bytes
  encode_size v = enc b's' b';' (l.size_str v)

  unfoldable pub encode_double : ℕ → Bytes
  encode_double v = enc b'r' b';' (l.real_str v)

  -- Bytes and strings.
  unfoldable pub encode_b : Bytes → Bytes
  encode_b v = l.size_str (length v) ++ (b':' ∷ v)

  unfoldable mutual
    pub encode : Value → Bytes
    encode empty = encode_empty
    encode (boolean v) = encode_bool v
    encode (int v) = encode_int v
    encode (size v) = encode_size v
    encode (real v) = encode_double v
    encode (blob v) = encode_b v
    encode (dict d) = b'd' ∷ encode_entries d
    encode (array a) = b'a' ∷ encode_items a

    -- The loop of `encode(std::ostream&, const array&)`, and its last `;`.
    pub encode_items : Items → Bytes
    encode_items no_items = b';' ∷ []
    encode_items (item v a) = encode v ++ encode_items a

    -- The loop of `encode(std::ostream&, const dict&)`, and its last `;`.
    pub encode_entries : Entries → Bytes
    encode_entries no_entries = b';' ∷ []
    encode_entries (entry k v d) = encode_b k ++ (encode v ++ encode_entries d)
