-- ===== src/Mencode/Tests.antt =====
-- Runs of the format of util/mencode.cpp, and its theorems at concrete values.
use firestr.Prelude.{
  ◌-◌, ◌≡◌, refl, true, false, [], ◌∷◌, ◌++◌, Bytes, ok, thrown, arith, negsuc, codes,
}
use firestr.Mencode.Value.{
  Value, empty, boolean, int, size, blob, dict, array, no_items, item, no_entries, entry, has,
}
use firestr.Mencode.Encode.{
  encode, encode_entries, encode_bool, encode_empty, encode_int, encode_size, encode_b, enc,
}
use firestr.Mencode.Stream.{get, peek, get_until, read_padded}
use firestr.Mencode.Decode.{
  decode_value, decode_dict, decode_key, decode_bool, decode_int, dec, finish,
}
use firestr.Mencode.Reads.{on}
use firestr.Mencode.Encodable.{IsEncodable, extend}
use firestr.Mencode.RoundTrip.{decode_value-encode}
use firestr.Mencode.Decimal.{decimal, decimal-IsFaithful, print, read, print_int, read_int}
use firestr.Mencode.Within.{Ends, left}
use firestr.Mencode.Fuel.{decode_value-Ends}
use firestr.Mencode.Faults.{decode_dict-empty_key}

-- {"id": -7, "tags": ["a", null, true, 3]}
abbrev sample : Value
sample = dict (
    entry (codes "id") (int (negsuc 6)) (
      entry (codes "tags")
        (array
          (item (blob (codes "a")) (item empty (item (boolean true) (item (size 3) no_items)))))
        no_entries))

sample_text : encode decimal sample ≡ codes "d2:idi-7;4:tagsa1:anTs3;;;"
unfolding encode encode_bool encode_empty encode_int encode_size encode_b enc print print_int
sample_text = refl

-- A number that is no number.
bad_number : decode_value decimal 9 (on (codes "i1x;") [] []) ≡ thrown
unfolding decode_value decode_int dec get peek get_until read_int read
bad_number = refl

-- A dictionary that is cut off.
cut_dict : decode_value decimal 9 (on (codes "d2:idT") [] []) ≡ thrown
unfolding decode_value decode_key decode_bool finish get peek get_until read read_padded
cut_dict = refl

sample-IsEncodable : IsEncodable sample
unfolding IsEncodable has
sample-IsEncodable = ground arith

decode_value-encode_example :
    (s' : Bytes) × (b' : Bytes) × (decode_value decimal 200
        (on (encode decimal sample ++ codes "xyz") [] [])
      ≡ ok (sample, on (codes "xyz") s' b'))
decode_value-encode_example =
    decode_value-encode decimal decimal-IsFaithful sample (codes "xyz") [] [] 200 sample-IsEncodable
      (unfold encode encode_bool encode_empty encode_int encode_size encode_b enc print print_int in
        omega arith)

decode_value-Ends_example :
    Ends
      (left (on (codes "d1:ad1:b") [] []) - 1)
      (decode_value decimal 40 (on (codes "d1:ad1:b") [] []))
decode_value-Ends_example = decode_value-Ends decimal 40 (on (codes "d1:ad1:b") [] []) (omega arith)

-- {"": true, "k": false}
decode_dict-empty_key_example :
    (s' : Bytes) × (b' : Bytes) × (decode_dict decimal 60 (
        on
          ((b'd'
              ∷ encode_entries decimal
                  (entry [] (boolean true) (entry (codes "k") (boolean false) no_entries)))
            ++ [])
          []
          [])
      ≡ ok (
        extend
            (entry (codes "0") (boolean true) no_entries)
            (entry (codes "k") (boolean false) no_entries),
        on [] s' b',
      ))
unfolding print
decode_dict-empty_key_example =
    decode_dict-empty_key decimal decimal-IsFaithful (boolean true)
      (entry (codes "k") (boolean false) no_entries) [] [] [] 60 (unfold IsEncodable in tt)
      (unfold IsEncodable has in ground arith)
      (unfold encode encode_bool encode_b print in omega arith)
