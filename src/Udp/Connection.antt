-- ===== src/Udp/Connection.antt =====
-- network/udp_queue.hpp and network/udp_queue.cpp: the state of a `udp_connection`, the messages that it is sending,
-- and their acknowledgements. A ring item's pointer to its working message is the message's sequence
-- number, under which `init_working` enters it: an unordered_map never moves its entries.
use firestr.Prelude.{
  ℕ, ◌+◌, ◌-◌, Bool, true, false, not, List, [], ◌∷◌, ◌++◌, Bytes, Option, none, some, Outcome, ok,
  aborted, require, ◌>>=◌, ◌>>◌, get_or, set, ltb, leb, ◌==◌, if◌then◌else◌, nat_eq,
}
use firestr.Prelude.Maps.{find, assign, erase}
use firestr.Udp.Chunk.{MessageChunk, EndpointMessage, MsgType, msg, max_flight, nth_chunk}
use firestr.Udp.Assemble.{WorkingMessage, WorkingMessages, or_fresh, resize_bits, is_data}
use firestr.Udp.Buffers.{count}

pub record RingItem : Type 0 where
  pub wm : ℕ
  pub resends : List ℕ

-- A datagram handed to the socket.
pub record Datagram : Type 0 where
  pub host : Bytes
  pub port : ℕ
  pub content : Bytes

-- `posted` counts the calls of `do_send` that wait in the io_service, and `socket` is what
-- `async_send_to` was given, the latest last.
pub record Connection : Type 0 where
  pub out_buffer : Bytes
  pub in_working : WorkingMessages
  pub out_working : WorkingMessages
  pub in_queue : List EndpointMessage
  pub next_message : ℕ
  pub message_ring : List RingItem
  pub out_queue : List MessageChunk
  pub sequence : ℕ
  pub dropped : ℕ
  pub bytes_sent : ℕ
  pub bytes_recv : ℕ
  pub posted : ℕ
  pub socket : List Datagram

abbrev pub created : Connection
created = record {
  out_buffer = [];
  in_working = [];
  out_working = [];
  in_queue = [];
  next_message = 0;
  message_ring = [];
  out_queue = [];
  sequence = 0;
  dropped = 0;
  bytes_sent = 0;
  bytes_recv = 0;
  posted = 0;
  socket = [];
}

abbrev pub is_robust : MsgType → Bool
is_robust msg = true
is_robust _ = false

unfoldable pub post_send : Connection → Connection
post_send k = record k { posted = k.posted + 1 }

abbrev pub work : MessageChunk → Bytes → WorkingMessage → WorkingMessage
work proto content wm = record wm {
  proto = proto;
  content = content;
  set_bits = resize_bits proto.total_chunks wm.set_bits;
  sent = resize_bits proto.total_chunks wm.sent;
}

unfoldable pub init_working : MessageChunk → Bytes → Connection → Outcome Connection
init_working proto content k = do
  require (ltb 0 proto.total_chunks)
  let wm = or_fresh (find proto.sequence k.out_working)
  let wm' = work proto content wm
  ok (record k {
    out_working = assign proto.sequence wm' k.out_working;
    message_ring = k.message_ring ++ (record { wm = proto.sequence; resends = [] } ∷ []);
  })

-- `std::find_if` and `erase`: the first item of message `s` goes.
abbrev pub erase_item : ℕ → List RingItem → Option (List RingItem)
erase_item s [] = none
erase_item s (r ∷ rs) =
    let rest = erase_item s rs in
    if r.wm == s then some rs else elim rest [ none ↦ none | some rs' ↦ some (r ∷ rs') ]

unfoldable pub cleanup_message : ℕ → Connection → Outcome Connection
cleanup_message s k = elim (erase_item s k.message_ring) [
  | none ↦ aborted
  | some ring ↦ ok (record k { message_ring = ring; out_working = erase s k.out_working })
]

unfoldable pub all_sent : WorkingMessage → Bool
all_sent wm = count wm.sent == wm.proto.total_chunks

-- What `sent_chunk` and `validate_chunk` change in the message.
abbrev pub mark_sent : MessageChunk → WorkingMessage → WorkingMessage
mark_sent c wm = record wm {
  sent = set wm.sent c.chunk true;
  queued = wm.queued - 1;
  in_flight = if is_robust wm.proto.type then wm.in_flight + 1 else wm.in_flight;
}

abbrev pub acknowledge : MessageChunk → WorkingMessage → WorkingMessage
acknowledge c wm = record wm {
  set_bits = set wm.set_bits c.chunk true;
  ticks = 0;
  in_flight = wm.in_flight - 1;
}

-- `w[sequence]` enters an empty message where there is none; a bit beyond the end is not written.
unfoldable pub sent_chunk : MessageChunk → Connection → Outcome Connection
sent_chunk c k = do
  require (is_data c.type)
  require (not c.resent)
  let wm = or_fresh (find c.sequence k.out_working)
  let wm' = mark_sent c wm
  let k' = record k { out_working = assign c.sequence wm' k.out_working }
  (if is_robust wm.proto.type
      then ok k'
      else if all_sent wm'
      then cleanup_message c.sequence k'
      else ok k')

-- `validate_chunk`, once the message is found.
unfoldable pub validate_in : MessageChunk → WorkingMessage → Connection → Outcome Connection
validate_in c wm k =
    if leb wm.proto.total_chunks c.chunk
    then ok k
    else if not (c.total_chunks == wm.proto.total_chunks)
    then ok k
    else if get_or wm.set_bits c.chunk false
    then ok k
    else (let wm' = acknowledge c wm in
        let k' = record k { out_working = assign c.sequence wm' k.out_working } in
        if not (count wm'.set_bits == wm'.proto.total_chunks)
        then ok k'
        else (require (count wm'.sent == wm'.proto.total_chunks)
            >> (require (wm'.in_flight == 0)
                >> (require (wm'.queued == 0) >> cleanup_message c.sequence k'))))

unfoldable pub validate_chunk : MessageChunk → Connection → Outcome Connection
validate_chunk c k = do
  require (not (is_data c.type))
  (elim (find c.sequence k.out_working) [ none ↦ ok k | some wm ↦ validate_in c wm k ])

-- The chunk to queue, and the message that remembers it.
unfoldable pub get_next_chunk : WorkingMessage → Outcome (Option (MessageChunk × WorkingMessage))
get_next_chunk wm = do
  require (ltb 0 wm.proto.total_chunks)
  let in_flight = if is_robust wm.proto.type then wm.in_flight else 0
  (if ltb max_flight (in_flight + wm.queued)
      then ok none
      else if (max_flight - (in_flight + wm.queued)) == 0
      then ok none
      else if leb wm.proto.total_chunks wm.next_send
      then ok none
      else (nth_chunk wm.next_send wm.proto wm.content >>= λ c.
          ok (some (c, record wm { next_send = wm.next_send + 1; queued = wm.queued + 1 }))))
