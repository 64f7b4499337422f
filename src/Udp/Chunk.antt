-- ===== src/Udp/Chunk.antt =====
-- network/udp_queue.hpp and network/udp_queue.cpp: the constants, `message_chunk`, and how a message
-- is cut into chunks.
use firestr.Prelude.{
  ℕ, ◌+◌, ◌-◌, ◌*◌, ◌/◌, ◌%◌, ◌^◌, min, Bool, true, false, [], Bytes, Outcome, ok, require, ◌>>=◌,
  ◌>>◌, length, take, drop, ltb, ◌==◌, if◌then◌else◌,
}

abbrev pub max_flight : ℕ
max_flight = 4

abbrev pub resend_tick_threshold : ℕ
resend_tick_threshold = 1

abbrev pub resend_threshold : ℕ
resend_threshold = 5

abbrev pub udp_packet_size : ℕ
udp_packet_size = 512

abbrev pub max_udp_buff_size : ℕ
max_udp_buff_size = udp_packet_size * 2

-- The offsets of the header's fields: a mark, a uint64_t and two uint16_t.
abbrev pub sequence_base : ℕ
sequence_base = 1

abbrev pub chunk_total_base : ℕ
chunk_total_base = sequence_base + 8

abbrev pub chunk_base : ℕ
chunk_base = chunk_total_base + 2

abbrev pub message_base : ℕ
message_base = chunk_base + 2

abbrev pub header_size : ℕ
header_size = message_base

abbrev pub udp_chunk_size : ℕ
udp_chunk_size = udp_packet_size - header_size

abbrev pub max_chunks : ℕ
max_chunks = 2 ^ 16

abbrev pub max_message_size : ℕ
max_message_size = max_chunks * udp_chunk_size

pub data MsgType : Type 0 where
  qmsg msg ack : MsgType

-- `write` is what `write_data` and `write_size` point at.
pub record MessageChunk : Type 0 where
  pub valid : Bool
  pub host : Bytes
  pub port : ℕ
  pub sequence : ℕ
  pub total_chunks : ℕ
  pub chunk : ℕ
  pub content : Bytes
  pub resent : Bool
  pub type : MsgType
  pub write : Bytes

pub record EndpointMessage : Type 0 where
  pub address : Bytes
  pub port : ℕ
  pub content : Bytes
  pub robust : Bool

-- `total_chunks`: the quotient and the increment are uint16_t.
unfoldable pub total_chunks : ℕ → Outcome ℕ
total_chunks data_size = do
  require (ltb 0 data_size)
  let q = (data_size / udp_chunk_size) % 2 ^ 16
  let r = if data_size % udp_chunk_size == 0 then q else (q + 1) % 2 ^ 16
  require (ltb 0 r)
  ok r

-- `create_prototype`.
unfoldable pub create_prototype : ℕ → EndpointMessage → Outcome MessageChunk
create_prototype sequence m = do
  total ← total_chunks (length m.content)
  ok (record {
    valid = true;
    host = m.address;
    port = m.port;
    sequence = sequence;
    total_chunks = total;
    chunk = 0;
    content = [];
    resent = false;
    type = if m.robust then msg else qmsg;
    write = [];
  })

-- `nth_chunk`: `end - start` is a size_t.
unfoldable pub nth_chunk : ℕ → MessageChunk → Bytes → Outcome MessageChunk
nth_chunk n prototype content = do
  require (ltb n prototype.total_chunks)
  let start = n * udp_chunk_size
  let end = min (length content) (start + udp_chunk_size)
  let size = (end + 2 ^ 64 - start) % 2 ^ 64
  require (ltb 0 size)
  ok (record prototype { chunk = n; write = take size (drop start content) })
