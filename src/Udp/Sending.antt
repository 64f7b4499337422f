-- ===== src/Udp/Sending.antt =====
-- network/udp_queue.cpp: what `udp_connection` sends next, round robin, and when it sends again.
use firestr.Prelude.{
  ℕ, zero, suc, ◌+◌, ◌%◌, ◌^◌, Bool, true, false, not, ◌&&◌, ◌||◌, List, [], Bytes, ◌∷◌, ◌++◌,
  Option, none, some, Outcome, ok, aborted, out_of_fuel, require, ◌>>=◌, ◌>>◌, length, get_or,
  get_elem?, set, ltb, leb, ◌==◌, if◌then◌else◌, nat_eq,
}
use firestr.Prelude.Maps.{find, assign}
use firestr.Udp.Chunk.{
  MessageChunk, EndpointMessage, max_flight, resend_tick_threshold, resend_threshold,
  max_message_size, create_prototype, nth_chunk,
}
use firestr.Udp.Wire.{encode_udp_wire}
use firestr.Udp.Assemble.{WorkingMessage, is_data}
use firestr.Udp.Buffers.{count}
use firestr.Udp.Connection.{
  Connection, RingItem, is_robust, post_send, init_working, cleanup_message, all_sent, sent_chunk,
  get_next_chunk,
}

-- `incr_next_message`: whether there is a message, and the connection.
unfoldable pub incr_next_message : Connection → Bool × Connection
incr_next_message k =
    if length k.message_ring == 0
    then (false, record k { next_message = 0 })
    else (true, record k { next_message = (k.next_message + 1) % length k.message_ring })

-- One turn of the loop of `queue_next_chunk`: a new chunk, a chunk to send again, or nothing.
unfoldable pub queue_again : RingItem → WorkingMessage → Connection → Outcome (Option Connection)
queue_again r wm k = elim r.resends [
  | [] ↦ ok none
  | i ∷ is ↦ nth_chunk i wm.proto wm.content >>= λ c. ok (
      some (record k {
        message_ring = set k.message_ring k.next_message (record r { resends = is });
        out_queue = k.out_queue ++ (record c { resent = true } ∷ []);
      }))
]

unfoldable pub queue_got :
    RingItem
    → WorkingMessage
    → Connection
    → Option (MessageChunk × WorkingMessage)
    → Outcome (Option Connection)
queue_got r wm k (some (c, wm')) = ok (
    some (record k {
      out_working = assign r.wm wm' k.out_working;
      out_queue = k.out_queue ++ (c ∷ []);
    }))
queue_got r wm k none = queue_again r wm k

unfoldable pub queue_from : RingItem → WorkingMessage → Connection → Outcome (Option Connection)
queue_from r wm k = get_next_chunk wm >>= queue_got r wm k

-- `_message_ring[_next_message]` with its working message.
unfoldable pub at_next : Connection → Option (RingItem × WorkingMessage)
at_next k = elim (get_elem? k.message_ring k.next_message) [
  | none ↦ none
  | some r ↦ elim (find r.wm k.out_working) [ none ↦ none | some wm ↦ some (r, wm) ]
]

-- What follows a turn: `break`, or the next turn unless the loop has come round.
unfoldable pub next_turn :
    ℕ → Connection → Outcome Connection → Option Connection → Outcome Connection
next_turn end next rest (some k) = ok k
next_turn end next rest none = if next.next_message == end then ok next else rest

-- The loop, on fuel. An index out of range would be undefined behaviour.
unfoldable pub queue_loop : ℕ → ℕ → Connection → Outcome Connection
queue_loop zero end k = out_of_fuel
queue_loop (suc n) end k =
    let next = (incr_next_message k).1 in
    let rest = queue_loop n end next in
    elim (at_next k) [
      | none ↦ aborted
      | some (r, wm) ↦ queue_from r wm k >>= next_turn end next rest
    ]

-- The loop comes round after as many turns as the ring has messages.
unfoldable pub queue_next_chunk : Connection → Outcome Connection
queue_next_chunk k =
    let (some_left, k') = incr_next_message k in
    if some_left then queue_loop (length k'.message_ring) k'.next_message k' else ok k'

-- `do_send`, once the queue has a chunk and it is in wire format: it goes to the socket.
abbrev pub write_chunk : MessageChunk → Bytes → List MessageChunk → Connection → Connection
write_chunk c wire cs k = record k {
  out_queue = cs;
  out_buffer = wire;
  bytes_sent = (k.bytes_sent + length wire) % 2 ^ 64;
  socket = k.socket ++ (record { host = c.host; port = c.port; content = wire } ∷ []);
}

unfoldable pub send_next : List MessageChunk → Connection → Outcome Connection
send_next [] k = ok k
send_next (c ∷ cs) k = do
  wire ← encode_udp_wire k.out_buffer c
  (if not c.resent && is_data c.type
      then sent_chunk c (write_chunk c wire cs k)
      else ok (write_chunk c wire cs k))

unfoldable pub do_send : Connection → Outcome Connection
do_send k = (if length k.out_queue == 0 then queue_next_chunk k else ok k) >>= λ k'.
    send_next k'.out_queue k'

-- The sequence number is a uint64_t.
unfoldable pub add_to_working_set : EndpointMessage → Connection → Outcome Connection
add_to_working_set m k = do
  require (not (length m.content == 0))
  let s = (k.sequence + 1) % 2 ^ 64
  proto ← create_prototype s m
  init_working proto m.content (record k { sequence = s })

-- `send`, and whether it took the message.
abbrev pub takes : EndpointMessage → Bool
takes m = not (length m.content == 0) && leb (length m.content) max_message_size

-- The loop of `resend(r)`: from chunk `c`, with `n` chunks left and `resent_m` sent again so far. The
-- answer is `resent_m` and the chunks that were queued.
unfoldable pub resend_loop : WorkingMessage → ℕ → ℕ → ℕ → ℕ × List ℕ
resend_loop wm zero c resent_m = (resent_m, [])
resend_loop wm (suc n) c resent_m =
    let skip = resend_loop wm n (c + 1) resent_m in
    let go = resend_loop wm n (c + 1) (resent_m + 1) in
    if leb wm.next_send c
    then (resent_m, [])
    else if get_or wm.set_bits c false || not (get_or wm.sent c false)
    then skip
    else if ltb max_flight (resent_m + 1)
    then (resent_m + 1, [])
    else (go.0, c ∷ go.1)

unfoldable pub resend_item : WorkingMessage → Outcome (ℕ × List ℕ)
resend_item wm = do
  require (ltb 0 wm.proto.total_chunks)
  require (ltb 0 (length wm.content))
  (if count wm.set_bits == wm.proto.total_chunks
      then ok (0, [])
      else ok (resend_loop wm wm.proto.total_chunks 0 0))

-- What the loop of `resend` gathers: whether anything is sent again, and the messages to give up.
pub record Tick : Type 0 where
  pub resent : Bool
  pub exhausted : List ℕ
  pub connection : Connection

unfoldable pub tick_item : RingItem → WorkingMessage → Tick → Outcome (RingItem × Tick)
tick_item r wm t = do
  require (ltb 0 wm.proto.total_chunks)
  let wm' = record wm { ticks = wm.ticks + 1 }
  let robust = is_robust wm.proto.type
  let skip = leb wm'.ticks resend_tick_threshold
  again ← (if robust && not skip then resend_item wm' else ok (0, []))
  let k = t.connection
  let gone = if robust then leb resend_threshold wm'.ticks else all_sent wm'
  ok (
    record r { resends = r.resends ++ again.1 },
    record {
      resent = t.resent || ltb 0 again.0;
      exhausted = if gone then t.exhausted ++ (wm'.proto.sequence ∷ []) else t.exhausted;
      connection = record k {
        out_working = assign r.wm wm' k.out_working;
        dropped = (k.dropped + length again.1) % 2 ^ 64;
        posted = k.posted + length again.1;
      };
    },
  )

unfoldable pub tick_ring : List RingItem → Tick → Outcome (List RingItem × Tick)
tick_ring [] t = ok ([], t)
tick_ring (r ∷ rs) t = elim (find r.wm t.connection.out_working) [
  | none ↦ aborted
  | some wm ↦ tick_item r wm t >>= λ q. tick_ring rs q.1 >>= λ q'. ok (q.0 ∷ q'.0, q'.1)
]

unfoldable pub cleanup_all : List ℕ → Connection → Outcome Connection
cleanup_all [] k = ok k
cleanup_all (s ∷ ss) k = cleanup_message s k >>= cleanup_all ss

unfoldable pub resend : Connection → Outcome Connection
resend k = do
  q ← tick_ring k.message_ring (record { resent = false; exhausted = []; connection = k })
  let t = q.1
  k' ← cleanup_all t.exhausted (record t.connection { message_ring = q.0 })
  ok (if t.resent then post_send k' else k')
