-- ===== src/Envelope/Carried.antt =====
-- message/message.cpp: what a written message carries to its reader.
use firestr.Prelude.{
  ℕ, ◌*◌, ◌<◌, ◌≡◌, refl, true, List, [], ◌∷◌, ◌++◌, append_assoc, append-nil, Bytes, ok, arith,
  length, length-append, All,
}
use firestr.Mencode.Value.{Items, Entries, blob, dict, array, as_string}
use firestr.Mencode.Lexical.{Lexical, IsFaithful, IsSize}
use firestr.Mencode.Encode.{encode, encode_b}
use firestr.Mencode.Stream.{State}
use firestr.Mencode.Reads.{on}
use firestr.Mencode.Encodable.{IsEncodable, AreItems, AreEntries}
use firestr.Mencode.RoundTrip.{decode_value-encode, decode_array-encode, decode_dict-encode}
use firestr.Mencode.Rounds.{Reads}
use firestr.Envelope.{
  Message, local, conversation, stream_of, items_of, strings_of, encode_metadata, encode_message,
  read_bytes, read_array, read_dict, decode_message,
}

-- The reader's defaults stand where the writer writes nothing.
abbrev pub carried : Message → Message
carried m = record m {
  meta = record m.meta { source = local; encryption = conversation; robust = true };
}

strings_of-items_of : (ss : List Bytes) → strings_of (items_of ss) ≡ ok ss
unfolding strings_of items_of as_string
strings_of-items_of [] = refl
strings_of-items_of (s ∷ ss) = rw (strings_of-items_of ss) refl

items_of-AreItems : (ss : List Bytes) → All (λ s. IsSize (length s)) ss → AreItems (items_of ss)
unfolding items_of IsEncodable
items_of-AreItems [] h = tt
items_of-AreItems (s ∷ ss) h = (h.0, items_of-AreItems ss h.1)

module _ (l : Lexical) (w : IsFaithful l) where
  -- Byte strings of a size_t's length, and a dictionary that the format carries.
  pub record IsMessage (m : Message) : Type 0 where
    pub type : IsSize (length m.meta.type)
    pub inner : IsSize (length (encode_metadata l m.meta))
    pub content : IsSize (length m.content)
    pub to : All (λ s. IsSize (length s)) m.meta.to
    pub from : All (λ s. IsSize (length s)) m.meta.from
    pub extra : AreEntries m.meta.extra

  pub read_bytes-encode :
      (x : Bytes)
      → IsSize (length x)
      → Reads (read_bytes l) (3 * length (encode_b l x)) (encode_b l x) x
  unfolding read_bytes encode IsEncodable
  read_bytes-encode x h rest s b f p =
      let (s', b', e) = decode_value-encode l w (blob x) rest [] [] f h p in (s', b', rw e refl)

  read_array-encode :
      (a : Items)
      → AreItems a
      → Reads (read_array l) (3 * length (encode l (array a))) (encode l (array a)) a
  unfolding read_array
  read_array-encode a h rest s b f p = decode_array-encode l w a h rest [] [] f p

  read_dict-encode :
      (d : Entries)
      → AreEntries d
      → Reads (read_dict l) (3 * length (encode l (dict d))) (encode l (dict d)) d
  unfolding read_dict
  read_dict-encode d h rest s b f p = decode_dict-encode l w d h rest [] [] f p

  pub length-encode_b_lt : (x : Bytes) → length x < length (encode_b l x)
  unfolding encode_b
  length-encode_b_lt x = omega (arith, length-append (l.size_str (length x)) (b':' ∷ x))

  -- The three parts of the metadata, read in turn from a stream of their own.
  metadata-encode :
      (m : Message) (f : ℕ)
      → IsMessage m
      → 3 * length (encode_metadata l m.meta) < f
      → (st₁ st₂ st₃ : State) × (read_array l f (stream_of (encode_metadata l m.meta))
          ≡ ok (items_of m.meta.to, st₁))
        × (read_array l f st₁ ≡ ok (items_of m.meta.from, st₂))
        × (read_dict l f st₂ ≡ ok (m.meta.extra, st₃))
  unfolding encode_metadata
  metadata-encode m f h p =
      let to = encode l (array (items_of m.meta.to)) in
      let from = encode l (array (items_of m.meta.from)) in
      let extra = encode l (dict m.meta.extra) in
      let n₁ = length-append to (from ++ extra) in
      let n₂ = length-append from extra in
      let (s₁, b₁, r₁) =
        read_array-encode (items_of m.meta.to) (items_of-AreItems m.meta.to h.to) (from ++ extra) []
          [] f (omega (arith, p)) in
      let (s₂, b₂, r₂) =
        read_array-encode (items_of m.meta.from) (items_of-AreItems m.meta.from h.from) extra s₁ b₁
          f (omega (arith, p)) in
      let (s₃, b₃, r₃) = read_dict-encode m.meta.extra h.extra [] s₂ b₂ f (omega (arith, p)) in
      (on (from ++ extra) s₁ b₁, on extra s₂ b₂, on [] s₃ b₃, r₁, r₂, rw (append-nil extra) at r₃)

  -- With a faithful lexical_cast, a message whose byte strings have sizes of a size_t and whose
  -- extra metadata is encodable, written by <<, is read back by >> off the front of any good
  -- stream, with fuel above three times the length of the text: type, addresses, extra metadata
  -- and data as they were, the reader's defaults in place of source, encryption and robustness,
  -- and what follows it left in a good stream.
  pub decode_message-encode :
      (m : Message) (rest s b : Bytes) (f : ℕ)
      → IsMessage m
      → 3 * length (encode_message l m) < f
      → (s' : Bytes) × (b' : Bytes) × (decode_message l f (on (encode_message l m ++ rest) s b)
          ≡ ok (carried m, on rest s' b'))
  unfolding decode_message encode_message
  decode_message-encode m rest s b f h p =
      let type = encode_b l m.meta.type in
      let inner = encode_b l (encode_metadata l m.meta) in
      let content = encode_b l m.content in
      let n₁ = length-append type (inner ++ content) in
      let n₂ = length-append inner content in
      let n₃ = length-encode_b_lt (encode_metadata l m.meta) in
      let (s₁, b₁, r₁) =
        read_bytes-encode m.meta.type h.type (inner ++ (content ++ rest)) s b f
          (omega (arith, p)) in
      let (s₂, b₂, r₂) =
        read_bytes-encode (encode_metadata l m.meta) h.inner (content ++ rest) s₁ b₁ f
          (omega (arith, p)) in
      let (s₃, b₃, r₃) = read_bytes-encode m.content h.content rest s₂ b₂ f (omega (arith, p)) in
      let (st₁, st₂, st₃, q₁, q₂, q₃) = metadata-encode m f h (omega (arith, p)) in
      (
        s₃,
        b₃,
        rw
            (
              append_assoc type (inner ++ content) rest,
              append_assoc inner content rest,
              r₁,
              r₂,
              q₁,
              q₂,
              q₃,
              strings_of-items_of m.meta.to,
              strings_of-items_of m.meta.from,
              r₃,
            )
            refl,
      )
