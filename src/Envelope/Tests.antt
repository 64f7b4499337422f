-- ===== src/Envelope/Tests.antt =====
-- A message written and read.
use firestr.Prelude.{◌≡◌, refl, false, [], ◌∷◌, ◌++◌, Bytes, ok, arith, length}
use firestr.Mencode.Value.{size, no_entries, entry, has}
use firestr.Mencode.Encode.{encode, encode_b, encode_size, enc}
use firestr.Mencode.Reads.{on}
use firestr.Mencode.Encodable.{IsEncodable}
use firestr.Mencode.Decimal.{decimal, decimal-IsFaithful, print}
use firestr.Envelope.{
  Message, symmetric, remote, items_of, encode_metadata, encode_message, decode_message,
}
use firestr.Envelope.Carried.{IsMessage, carried, decode_message-encode}

-- A text for 65 in reply to 66, with one extra entry.
abbrev note : Message
note = record {
  meta = record {
    type = 116 ∷ 120 ∷ [];
    to = (65 ∷ []) ∷ (67 ∷ []) ∷ [];
    from = (66 ∷ []) ∷ [];
    extra = entry (107 ∷ []) (size 12) no_entries;
    source = remote;
    encryption = symmetric;
    robust = false;
  };
  content = 104 ∷ 105 ∷ [];
}

note-IsMessage : IsMessage decimal decimal-IsFaithful note
unfolding encode_metadata encode encode_b encode_size enc items_of print IsEncodable has
note-IsMessage = record {
  type = omega arith;
  inner = omega arith;
  content = omega arith;
  to = (omega arith, (omega arith, tt));
  from = (omega arith, tt);
  extra = (omega arith, omega arith, refl, omega arith, tt);
}

note_text : length (encode_message decimal note) ≡ 33
unfolding encode_message encode_metadata encode encode_b encode_size enc items_of print
note_text = refl

decode_message-encode_example :
    (s' : Bytes) × (b' : Bytes) × (decode_message decimal 200
        (on (encode_message decimal note ++ (7 ∷ [])) [] [])
      ≡ ok (carried note, on (7 ∷ []) s' b'))
decode_message-encode_example =
    decode_message-encode decimal decimal-IsFaithful note (7 ∷ []) [] [] 200 note-IsMessage
      (omega (arith, note_text))
