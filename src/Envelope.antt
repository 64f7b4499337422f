-- ===== src/Envelope.antt =====
-- message/message.hpp and message/message.cpp: a message, as it is written and read.
use firestr.Prelude.{
  ℕ, ◌+◌, Bool, true, false, List, [], ◌∷◌, ◌++◌, Bytes, Outcome, ok, thrown, ◌>>=◌, if◌then◌else◌,
}
use firestr.Mencode.Value.{
  Value, Items, Entries, empty, boolean, int, size, real, blob, dict, array, no_items, item,
  no_entries, as_string,
}
use firestr.Mencode.Lexical.{Lexical}
use firestr.Mencode.Encode.{encode, encode_b}
use firestr.Mencode.Stream.{State}
use firestr.Mencode.Decode.{decode_value, decode_dict, decode_array}
pub mod Carried
mod Tests

pub data EncryptionType : Type 0 where
  conversation asymmetric symmetric plaintext : EncryptionType

pub data SourceType : Type 0 where
  local remote : SourceType

pub record Metadata : Type 0 where
  pub type : Bytes
  pub to : List Bytes
  pub from : List Bytes
  pub extra : Entries
  pub source : SourceType
  pub encryption : EncryptionType
  pub robust : Bool

pub record Message : Type 0 where
  pub meta : Metadata
  pub content : Bytes

-- A `std::stringstream` on these bytes.
abbrev pub stream_of : Bytes → State
stream_of bytes = record { rest = bytes; good = true; s = []; b = [] }

-- `for(auto s : to) a.add(s)`, from the empty array.
unfoldable pub items_of : List Bytes → Items
items_of [] = no_items
items_of (s ∷ ss) = item (blob s) (items_of ss)

-- `for(auto s : a) to.push_back(s.as_string())`
unfoldable pub strings_of : Items → Outcome (List Bytes)
strings_of no_items = ok []
strings_of (item v a) = do s ← as_string v; ss ← strings_of a; ok (s ∷ ss)

-- `operator>>(std::istream&, bytes&)`, once a value is read.
abbrev pub bytes_of : Value → Bytes
bytes_of (blob b) = b
bytes_of _ = []

module _ (l : Lexical) where
  -- The byte string that a reader may skip.
  unfoldable pub encode_metadata : Metadata → Bytes
  encode_metadata m =
      encode l (array (items_of m.to))
      ++ (encode l (array (items_of m.from)) ++ encode l (dict m.extra))

  -- `operator<<(std::ostream&, const message&)`
  unfoldable pub encode_message : Message → Bytes
  encode_message m =
      encode_b l m.meta.type ++ (encode_b l (encode_metadata m.meta) ++ encode_b l m.content)

  -- The operators `>>` of util/mencode.cpp, each with a work space of its own.
  unfoldable pub read_bytes : ℕ → State → Outcome (Bytes × State)
  read_bytes f st =
      if st.good
      then (decode_value l f (record st { s = []; b = [] }) >>= λ (v, st'). ok (bytes_of v, st'))
      else ok ([], st)

  unfoldable pub read_array : ℕ → State → Outcome (Items × State)
  read_array f st = decode_array l f (record st { s = []; b = [] })

  unfoldable pub read_dict : ℕ → State → Outcome (Entries × State)
  read_dict f st = decode_dict l f (record st { s = []; b = [] })

  -- `operator>>(std::istream&, message&)`, into a new message.
  unfoldable pub decode_message : ℕ → State → Outcome (Message × State)
  decode_message f st = do
    type ← read_bytes f st
    inner ← read_bytes f type.1
    to ← read_array f (stream_of inner.0)
    from ← read_array f to.1
    extra ← read_dict f from.1
    to_strings ← strings_of to.0
    from_strings ← strings_of from.0
    content ← read_bytes f inner.1
    ok (
      record {
        meta = record {
          type = type.0;
          to = to_strings;
          from = from_strings;
          extra = extra.0;
          source = local;
          encryption = conversation;
          robust = true;
        };
        content = content.0;
      },
      content.1,
    )
