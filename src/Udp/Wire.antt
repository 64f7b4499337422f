-- ===== src/Udp/Wire.antt =====
-- network/udp_queue.cpp: the wire format of a chunk.
-- A byte is a number below 256. The reads join bytes by `|` over distinct bits, which is their sum.
use firestr.Prelude.{
  Bool, ◌-◌, ◌>>=◌, ℕ, zero, suc, ◌+◌, ◌-◌, ◌*◌, ◌/◌, ◌%◌, ◌^◌, true, false, [], ◌∷◌, ◌++◌, Bytes,
  Outcome, ok, require, ◌>>◌, length, take, drop, replicate, get_or, ltb, leb, ◌==◌, if◌then◌else◌,
}
use firestr.Udp.Chunk.{
  sequence_base, chunk_total_base, chunk_base, message_base, header_size, max_udp_buff_size,
  max_chunks, MsgType, qmsg, msg, ack, MessageChunk,
}

-- `b.resize(n)`.
unfoldable pub resize : ℕ → Bytes → Bytes
resize n b = take n b ++ replicate (n - length b) 0

-- Assignments to `b[offset]`, `b[offset + 1]`, …; what lies past the end is not written.
unfoldable pub write_at : ℕ → Bytes → Bytes → Bytes
write_at zero [] b = b
write_at zero (x ∷ xs) [] = []
write_at zero (x ∷ xs) (y ∷ b) = x ∷ write_at zero xs b
write_at (suc n) xs [] = []
write_at (suc n) xs (y ∷ b) = y ∷ write_at n xs b

-- `(v >> k) & 0xFF`
abbrev pub byte_at : ℕ → ℕ → ℕ
byte_at v k = (v / 2 ^ k) % 256

-- `b.size() - offset >= n`, of size_t.
abbrev pub has_room : ℕ → Bytes → ℕ → Bool
has_room n b offset = leb n ((length b + 2 ^ 64 - offset) % 2 ^ 64)

unfoldable pub write_be_u64 : Bytes → ℕ → ℕ → Outcome Bytes
unfolding write_at
write_be_u64 b offset v = do
  require (has_room 8 b offset)
  ok (
      write_at offset
        (byte_at v 56
          ∷ byte_at v 48
          ∷ byte_at v 40
          ∷ byte_at v 32
          ∷ byte_at v 24
          ∷ byte_at v 16
          ∷ byte_at v 8
          ∷ (v % 256)
          ∷ [])
        b)

unfoldable pub write_be_u16 : Bytes → ℕ → ℕ → Outcome Bytes
unfolding write_at
write_be_u16 b offset v = do
  require (has_room 2 b offset)
  ok (write_at offset (byte_at v 8 ∷ (v % 256) ∷ []) b)

unfoldable pub read_be_u64 : Bytes → ℕ → Outcome ℕ
read_be_u64 b offset = do
  require (has_room 8 b offset)
  ok (
      get_or b offset 0 * 2 ^ 56
      + get_or b (offset + 1) 0 * 2 ^ 48
      + get_or b (offset + 2) 0 * 2 ^ 40
      + get_or b (offset + 3) 0 * 2 ^ 32
      + get_or b (offset + 4) 0 * 2 ^ 24
      + get_or b (offset + 5) 0 * 2 ^ 16
      + get_or b (offset + 6) 0 * 2 ^ 8
      + get_or b (offset + 7) 0)

unfoldable pub read_be_u16 : Bytes → ℕ → Outcome ℕ
read_be_u16 b offset = do
  require (has_room 2 b offset)
  ok (get_or b offset 0 * 2 ^ 8 + get_or b (offset + 1) 0)

abbrev pub mark : MsgType → ℕ
mark msg = b'!'
mark qmsg = b'='
mark ack = b'@'

-- Into the buffer `r`, which may hold an earlier chunk.
unfoldable pub encode_udp_wire : Bytes → MessageChunk → Outcome Bytes
unfolding write_be_u64 write_be_u16
encode_udp_wire r ch = do
  let r₀ = resize (header_size + length ch.write) r
  let r₁ = write_at 0 (mark ch.type ∷ []) r₀
  r₂ ← write_be_u64 r₁ sequence_base ch.sequence
  r₃ ← write_be_u16 r₂ chunk_total_base ch.total_chunks
  r₄ ← write_be_u16 r₃ chunk_base ch.chunk
  ok (write_at message_base ch.write r₄)

-- A chunk as its declaration leaves it. `type` has no initial value; nothing reads it of a chunk
-- that is not valid.
abbrev pub blank : MessageChunk
blank = record {
  valid = false;
  host = [];
  port = 0;
  sequence = 0;
  total_chunks = 0;
  chunk = 0;
  content = [];
  resent = false;
  type = qmsg;
  write = [];
}

-- `decode_udp_wire` past the mark; the size tests before each read hold by its first contract.
unfoldable pub decode_fields : Bytes → MsgType → Outcome MessageChunk
unfolding read_be_u64 read_be_u16
decode_fields b t = do
  sequence ← read_be_u64 b sequence_base
  total ← read_be_u16 b chunk_total_base
  require (leb total max_chunks)
  chunk ← read_be_u16 b chunk_base
  let head = record blank { type = t; sequence = sequence; total_chunks = total; chunk = chunk }
  let data_size = length b - header_size
  ok (
      if ltb max_udp_buff_size data_size
      then head
      else record head { content = drop message_base b; valid = true })

unfoldable pub decode_udp_wire : Bytes → Outcome MessageChunk
decode_udp_wire b = do
  require (leb header_size (length b))
  let m = get_or b 0 0
  (if m == b'!'
      then decode_fields b msg
      else if m == b'='
      then decode_fields b qmsg
      else if m == b'@'
      then decode_fields b ack
      else ok blank)
