-- ===== src/Udp/Assemble.antt =====
-- network/udp_queue.hpp and network/udp_queue.cpp: `working_message` and `insert_chunk`, which puts
-- the chunks of a message together.
use firestr.Prelude.{
  ℕ, ◌+◌, ◌-◌, ◌*◌, ◌%◌, ◌^◌, Bool, true, false, not, List, [], ◌++◌, Bytes, Option, none, some,
  Outcome, ok, require, ◌>>◌, length, take, replicate, get_or, set, ltb, leb, ◌==◌, if◌then◌else◌,
  nat_eq,
}
use firestr.Prelude.Maps.{find, assign, erase}
use firestr.Udp.Chunk.{MessageChunk, MsgType, ack, udp_chunk_size, max_message_size}
use firestr.Udp.Wire.{blank, resize, write_at}
use firestr.Udp.Buffers.{count}

pub record WorkingMessage : Type 0 where
  pub proto : MessageChunk
  pub content : Bytes
  pub set_bits : List Bool
  pub sent : List Bool
  pub ticks : ℕ
  pub in_flight : ℕ
  pub queued : ℕ
  pub next_send : ℕ

abbrev pub WorkingMessages : Type 0
WorkingMessages = List (ℕ × WorkingMessage)

-- What `w[sequence]` makes of a missing entry.
abbrev pub fresh : WorkingMessage
fresh = record {
  proto = blank;
  content = [];
  set_bits = [];
  sent = [];
  ticks = 0;
  in_flight = 0;
  queued = 0;
  next_send = 0;
}

abbrev pub or_fresh : Option WorkingMessage → WorkingMessage
or_fresh none = fresh
or_fresh (some wm) = wm

-- `set.resize(n)`.
unfoldable pub resize_bits : ℕ → List Bool → List Bool
resize_bits n bs = take n bs ++ replicate (n - length bs) false

abbrev pub is_data : MsgType → Bool
is_data ack = false
is_data _ = true

-- The first chunk of a message makes room for all of them.
unfoldable pub begin : MessageChunk → WorkingMessage → WorkingMessage
begin c wm = record wm {
  proto = record c { content = [] };
  content = resize (c.total_chunks * udp_chunk_size) wm.content;
  set_bits = resize_bits c.total_chunks wm.set_bits;
}

-- The copy into place, and the answer: the message, once every chunk is there.
unfoldable pub place :
    MessageChunk → WorkingMessage → WorkingMessages → Option Bytes × WorkingMessages
place c wm w =
    let content = write_at (c.chunk * udp_chunk_size) c.content wm.content in
    let bits = set wm.set_bits c.chunk true in
    if count bits == wm.proto.total_chunks
    then (some content, erase c.sequence w)
    else (none, assign c.sequence (record wm { content = content; set_bits = bits }) w)

-- The tests on a chunk of a message that is under way. `extra` is a size_t, and so is the new size.
unfoldable pub accept :
    MessageChunk → WorkingMessage → WorkingMessages → Option Bytes × WorkingMessages
accept c wm w =
    let refused : Option Bytes × WorkingMessages = (none, assign c.sequence wm w) in
    if leb wm.proto.total_chunks c.chunk
    then refused
    else if not (c.total_chunks == wm.proto.total_chunks)
    then refused
    else if get_or wm.set_bits c.chunk false
    then refused
    else if c.chunk == wm.proto.total_chunks - 1
    then (let extra = (udp_chunk_size + 2 ^ 64 - length c.content) % 2 ^ 64 in
        let size = (length wm.content + 2 ^ 64 - extra) % 2 ^ 64 in
        place c (record wm { content = resize size wm.content }) w)
    else if not (length c.content == udp_chunk_size)
    then refused
    else place c wm w

unfoldable pub insert_chunk :
    MessageChunk → WorkingMessages → Outcome (Option Bytes × WorkingMessages)
insert_chunk c w = do
  require (is_data c.type)
  (if c.total_chunks == 0
      then ok (none, w)
      else (let wm = or_fresh (find c.sequence w) in
          if wm.proto.total_chunks == 0
          then (if ltb max_message_size (c.total_chunks * udp_chunk_size)
              then ok (none, assign c.sequence wm w)
              else ok (accept c (begin c wm) w))
          else ok (accept c wm w)))
