-- ===== src/Udp/WireLayout.antt =====
-- network/udp_queue.cpp: the bytes of a chunk on the wire, and the way back.
use firestr.Prelude.{
  Outcome, ◌>>=◌, ℕ, zero, ◌+◌, ◌-◌, ◌*◌, ◌%◌, ◌^◌, ◌<◌, ◌≤◌, ◌≡◌, refl, ap, true, false, [], ◌∷◌,
  Bytes, ok, arith, length, take, replicate, leb, ltb, length-append, length-take, length-replicate,
  ◌∙◌,
}
use firestr.Udp.Chunk.{max_udp_buff_size, MsgType, qmsg, msg, ack, MessageChunk}
use firestr.Udp.Wire.{
  read_be_u64, read_be_u16, resize, write_at, write_be_u64, write_be_u16, byte_at, mark,
  encode_udp_wire, blank, decode_fields, decode_udp_wire,
}

-- The header of a chunk, most significant bytes first.
abbrev pub be_u64 : ℕ → Bytes → Bytes
be_u64 v rest =
    byte_at v 56
    ∷ byte_at v 48
    ∷ byte_at v 40
    ∷ byte_at v 32
    ∷ byte_at v 24
    ∷ byte_at v 16
    ∷ byte_at v 8
    ∷ (v % 256)
    ∷ rest

abbrev pub be_u16 : ℕ → Bytes → Bytes
be_u16 v rest = byte_at v 8 ∷ (v % 256) ∷ rest

abbrev pub wire : MessageChunk → Bytes
wire ch = mark ch.type ∷ be_u64 ch.sequence (be_u16 ch.total_chunks (be_u16 ch.chunk ch.write))

write_at-all : (xs b : Bytes) → length xs ≡ length b → write_at 0 xs b ≡ xs
unfolding write_at
write_at-all [] [] h = refl
write_at-all [] (y ∷ b) h = absurd (omega arith)
write_at-all (x ∷ xs) [] h = absurd (omega arith)
write_at-all (x ∷ xs) (y ∷ b) h = ap (◌∷◌ x) (write_at-all xs b (omega arith))

length-resize : (n : ℕ) (b : Bytes) → length (resize n b) ≡ n
unfolding resize
length-resize n b = omega (
  arith,
  length-append (take n b) (replicate (n - length b) 0),
  length-take n b,
  length-replicate (n - length b) (zero),
)

leb-true : (a b : ℕ) → a ≤ b → leb a b ≡ true
leb-true a b h = ground arith

-- The size_t difference of the contracts does not wrap within a buffer.
room-true :
    (n m offset : ℕ) → offset + n ≤ m → m < 2 ^ 64 → leb n ((m + 2 ^ 64 - offset) % 2 ^ 64) ≡ true
room-true n m offset h l = leb-true n ((m + 2 ^ 64 - offset) % 2 ^ 64) (omega arith)

-- The writes of `encode_udp_wire` into any buffer with room for a header.
abbrev fill : MessageChunk → Bytes → Outcome Bytes
fill ch r₀ = do
  let r₁ = write_at 0 (mark ch.type ∷ []) r₀
  r₂ ← write_be_u64 r₁ 1 ch.sequence
  r₃ ← write_be_u16 r₂ 9 ch.total_chunks
  r₄ ← write_be_u16 r₃ 11 ch.chunk
  ok (write_at 13 ch.write r₄)

fill-wire :
    (ch : MessageChunk) (b : Bytes)
    → length b ≡ 13 + length ch.write
    → length b < 2 ^ 64
    → fill ch b ≡ ok (wire ch)
unfolding write_at write_be_u64 write_be_u16
fill-wire ch (a ∷ b ∷ c ∷ d ∷ e ∷ f ∷ g ∷ h ∷ i ∷ j ∷ k ∷ l ∷ m ∷ rest) p q =
    let size = length (a ∷ b ∷ c ∷ d ∷ e ∷ f ∷ g ∷ h ∷ i ∷ j ∷ k ∷ l ∷ m ∷ rest) in
    rw
      (
        room-true 8 size 1 (omega arith) q,
        room-true 2 size 9 (omega arith) q,
        room-true 2 size 11 (omega arith) q,
        write_at-all ch.write rest (omega arith),
      )
      refl
fill-wire ch _ p q = absurd (omega arith)

-- For a payload that fits the UDP buffer, whatever the buffer held before, the contracts of
-- encode_udp_wire hold, and it leaves in the buffer the mark of the type, the sequence number in
-- eight bytes and the total and the chunk number in two, most significant byte first, and the
-- payload, and nothing else.
pub encode_udp_wire-wire :
    (r : Bytes) (ch : MessageChunk)
    → length ch.write ≤ max_udp_buff_size
    → encode_udp_wire r ch ≡ ok (wire ch)
unfolding encode_udp_wire
encode_udp_wire-wire r ch h =
    let size = length-resize (13 + length ch.write) r in
    fill-wire ch (resize (13 + length ch.write) r) size (omega (arith, size, h))

u64_parts :
    (v : ℕ)
    → v < 2 ^ 64
    → byte_at v 56 * 2 ^ 56
        + byte_at v 48 * 2 ^ 48
        + byte_at v 40 * 2 ^ 40
        + byte_at v 32 * 2 ^ 32
        + byte_at v 24 * 2 ^ 24
        + byte_at v 16 * 2 ^ 16
        + byte_at v 8 * 2 ^ 8
        + v % 256
      ≡ v
u64_parts v h = omega arith

u16_parts : (v : ℕ) → v < 2 ^ 16 → byte_at v 8 * 2 ^ 8 + v % 256 ≡ v
u16_parts v h = omega arith

-- A chunk whose numbers fit their types and whose payload fits the buffer.
pub record IsChunk (ch : MessageChunk) : Type 0 where
  pub sequence : ch.sequence < 2 ^ 64
  pub total : ch.total_chunks < 2 ^ 16
  pub chunk : ch.chunk < 2 ^ 16
  pub payload : length ch.write ≤ max_udp_buff_size

-- The chunk as its receiver has it.
abbrev pub received : MessageChunk → MessageChunk
received ch = record blank {
  valid = true;
  type = ch.type;
  sequence = ch.sequence;
  total_chunks = ch.total_chunks;
  chunk = ch.chunk;
  content = ch.write;
}

ltb-false : (a b : ℕ) → b ≤ a → ltb a b ≡ false
ltb-false a b h = ground arith

decode_fields-wire :
    (ch : MessageChunk) → IsChunk ch → decode_fields (wire ch) ch.type ≡ ok (received ch)
unfolding decode_fields read_be_u64 read_be_u16
decode_fields-wire ch h = rw (
  room-true 8 (length (wire ch)) 1 (omega arith) (omega (arith, h.payload)),
  room-true 2 (length (wire ch)) 9 (omega arith) (omega (arith, h.payload)),
  room-true 2 (length (wire ch)) 11 (omega arith) (omega (arith, h.payload)),
  u64_parts ch.sequence h.sequence,
  u16_parts ch.total_chunks h.total,
  u16_parts ch.chunk h.chunk,
  leb-true ch.total_chunks 65536 (omega (arith, h.total)),
  ltb-false 1024 (length (wire ch) - 13) (omega (arith, h.payload)),
)

by_mark :
    (ch : MessageChunk) (t : MsgType)
    → ch.type ≡ t
    → decode_udp_wire (wire ch) ≡ decode_fields (wire ch) t
unfolding decode_udp_wire
by_mark ch qmsg e = rw (e, leb-true 13 (length (wire ch)) (omega arith))
by_mark ch msg e = rw (e, leb-true 13 (length (wire ch)) (omega arith))
by_mark ch ack e = rw (e, leb-true 13 (length (wire ch)) (omega arith))

-- A chunk whose numbers fit their types and whose payload fits the UDP buffer, written by
-- encode_udp_wire into any buffer, is read by decode_udp_wire as a valid chunk with the same type,
-- numbers and payload.
pub decode_udp_wire-encode :
    (r : Bytes) (ch : MessageChunk)
    → IsChunk ch
    → (encode_udp_wire r ch >>= decode_udp_wire) ≡ ok (received ch)
unfolding decode_udp_wire
decode_udp_wire-encode r ch h =
    rw (encode_udp_wire-wire r ch h.payload) (by_mark ch ch.type refl ∙ decode_fields-wire ch h)
