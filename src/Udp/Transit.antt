-- ===== src/Udp/Transit.antt =====
-- network/udp_queue.cpp: a chunk from its sender, over the wire, to its receiver.
use firestr.Prelude.{
  ℕ, zero, suc, ap, ◌∷◌, length-drop, ◌+◌, ◌-◌, ◌*◌, ◌%◌, ◌^◌, ◌<◌, ◌≤◌, ◌≡◌, refl, min, Bool, true,
  false, [], Bytes, ok, ◌>>=◌, arith, length, take, drop, ltb, if◌then◌else◌,
}
use firestr.Udp.Chunk.{
  MessageChunk, EndpointMessage, MsgType, msg, qmsg, create_prototype, nth_chunk,
}
use firestr.Udp.Wire.{encode_udp_wire, decode_udp_wire}
use firestr.Udp.WireLayout.{IsChunk, received, decode_udp_wire-encode}
use firestr.Udp.Cut.{chunks, slice, length-slice, max_cut, total_chunks-ok}
use firestr.Udp.Assemble.{is_data}
use firestr.Udp.Deliver.{From}

take_same : (k j : ℕ) (xs : Bytes) → min k (length xs) ≡ min j (length xs) → take k xs ≡ take j xs
take_same zero zero xs e = refl
take_same zero (suc j) [] e = refl
take_same (suc k) zero [] e = refl
take_same (suc k) (suc j) [] e = refl
take_same zero (suc j) (x ∷ xs) e = absurd (omega arith)
take_same (suc k) zero (x ∷ xs) e = absurd (omega arith)
take_same (suc k) (suc j) (x ∷ xs) e = ap (◌∷◌ x) (take_same k j xs (omega arith))

ltb-true : (a b : ℕ) → a < b → ltb a b ≡ true
ltb-true a b h = ground arith

module _ (s : ℕ) (m : EndpointMessage) (p : 0 < length m.content)
    (b : length m.content ≤ max_cut) where
  abbrev kind_of : MsgType
  kind_of = if m.robust then msg else qmsg

  -- The prototype that `create_prototype` returns.
  abbrev pub proto : MessageChunk
  proto = record {
    valid = true;
    host = m.address;
    port = m.port;
    sequence = s;
    total_chunks = chunks (length m.content);
    chunk = 0;
    content = [];
    resent = false;
    type = kind_of;
    write = [];
  }

  pub create_prototype-ok : create_prototype s m ≡ ok proto
  unfolding create_prototype
  create_prototype-ok = rw (total_chunks-ok (length m.content) p b) refl

  module _ (i : ℕ) (l : i < chunks (length m.content)) where
    abbrev pub cut : MessageChunk
    cut = record proto { chunk = i; write = slice i m.content }

    nth_chunk-ok : nth_chunk i proto m.content ≡ ok cut
    unfolding nth_chunk
    nth_chunk-ok =
        let size : ℕ = (min (length m.content) (i * 499 + 499) + 2 ^ 64 - i * 499) % 2 ^ 64 in
        let some_left : 0 < size = omega arith in
        let same : take size (drop (i * 499) m.content) ≡ slice i m.content =
          take_same size 499 (drop (i * 499) m.content)
            (omega (arith, length-drop (i * 499) m.content)) in
        rw (ltb-true i (chunks (length m.content)) l, ltb-true 0 size some_left, same) refl

    cut-IsChunk : s < 2 ^ 64 → IsChunk cut
    cut-IsChunk h = record {
      sequence = h;
      total = omega arith;
      chunk = omega arith;
      payload = omega (arith, length-slice i m.content);
    }

is_data-kind : (b : Bool) → is_data (if b then msg else qmsg) ≡ true
is_data-kind true = refl
is_data-kind false = refl

-- Of a message of 1 to 65535 * 499 bytes under a 64-bit sequence number, each chunk that nth_chunk
-- cuts, written by encode_udp_wire into any buffer and read by decode_udp_wire, is a chunk of that
-- message with its number, and no contract fails on the way.
pub cut-From :
    (s : ℕ) (m : EndpointMessage) (i : ℕ) (r : Bytes)
    → 0 < length m.content
    → length m.content ≤ max_cut
    → s < 2 ^ 64
    → i < chunks (length m.content)
    → (c : MessageChunk) × ((create_prototype s m >>= λ proto.
          nth_chunk i proto m.content >>= λ ch. encode_udp_wire r ch >>= decode_udp_wire)
        ≡ ok c)
      × From s m.content c
      × (c.chunk ≡ i)
cut-From s m i r p b h l = (
  received (cut s m p b i l),
  rw (create_prototype-ok s m p b, nth_chunk-ok s m p b i l)
      (decode_udp_wire-encode r (cut s m p b i l) (cut-IsChunk s m p b i l h)),
  (refl, record { kind = is_data-kind m.robust; total = refl; chunk = l; content = refl }),
  refl,
)
