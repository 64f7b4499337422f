-- ===== src/Udp/Tests.antt =====
-- Runs of network/udp_queue.cpp, and its theorems at concrete values.
use firestr.Prelude.{
  ℕ, ◌+◌, ◌<◌, ◌≤◌, ◌≡◌, ◌≢◌, refl, subst, true, [], ◌∷◌, ◌++◌, Bytes, Option, none, some, Outcome,
  ok, aborted, ◌>>=◌, arith, replicate, nat_eq,
}
use firestr.Prelude.Maps.{find, assign}
use firestr.Udp.Chunk.{
  ack, MessageChunk, EndpointMessage, msg, qmsg, total_chunks, create_prototype, nth_chunk,
  max_flight,
}
use firestr.Udp.Wire.{resize, write_be_u64, write_be_u16, blank, encode_udp_wire, decode_udp_wire}
use firestr.Udp.Cut.{slice, total_chunks_lem}
use firestr.Udp.Assemble.{WorkingMessage, WorkingMessages, resize_bits}
use firestr.Udp.Deliver.{
  insert_chunks, arrived, From, insert_chunks_complete, insert_chunks-missing,
}
use firestr.Udp.Transit.{cut-From}
use firestr.Udp.Connection.{
  validate_chunk, Connection, created, init_working, sent_chunk, get_next_chunk,
}
use firestr.Udp.Sending.{
  do_send, add_to_working_set, queue_next_chunk, queue_loop, queue_from, queue_got, at_next,
  next_turn, incr_next_message, send_next,
}
use firestr.Udp.Reach.{adds, sends, start, step, Reachable-window}
use firestr.Udp.EarlyAck.{validate_chunk_early}

-- A message of two chunks.
abbrev long : Bytes
long = replicate 499 7 ++ (9 ∷ [])

abbrev chunk_of_long : ℕ → MessageChunk
chunk_of_long i = record blank {
  valid = true;
  type = msg;
  sequence = 5;
  total_chunks = 2;
  chunk = i;
  content = slice i long;
}

first-From : From 5 long (chunk_of_long 0)
first-From = (refl, record { kind = refl; total = refl; chunk = omega arith; content = refl })

last-From : From 5 long (chunk_of_long 1)
last-From = (refl, record { kind = refl; total = refl; chunk = omega arith; content = refl })

abbrev nothing_yet : WorkingMessages
nothing_yet = []

no_message : find 5 nothing_yet ≡ none
unfolding find
no_message = refl

others_arrived : (k : ℕ) → k < 2 → k ≢ 0 → arrived k (chunk_of_long 1 ∷ chunk_of_long 1 ∷ []) ≡ true
others_arrived k l n =
    let e : 1 ≡ k = omega (arith, n) in
    subst (λ i. arrived i (chunk_of_long 1 ∷ chunk_of_long 1 ∷ []) ≡ true) e refl

-- The last chunk twice, then the first.
insert_chunks_complete_example :
    (w' : WorkingMessages) × (insert_chunks
        (chunk_of_long 1 ∷ chunk_of_long 1 ∷ chunk_of_long 0 ∷ [])
        nothing_yet
      ≡ ok (long ∷ [], w'))
    × ((t : ℕ) → find t w' ≡ find t nothing_yet)
insert_chunks_complete_example =
    insert_chunks_complete 5 long (chunk_of_long 1 ∷ chunk_of_long 1 ∷ []) (chunk_of_long 0)
      nothing_yet (omega arith) (omega arith) no_message (last-From, (last-From, tt)) first-From
      refl others_arrived

insert_chunks-missing_example :
    (w' : WorkingMessages) × (insert_chunks (chunk_of_long 1 ∷ chunk_of_long 1 ∷ []) nothing_yet
      ≡ ok ([], w'))
    × (find 8 w' ≡ find 8 nothing_yet)
insert_chunks-missing_example =
    insert_chunks-missing 5 long (chunk_of_long 1 ∷ chunk_of_long 1 ∷ []) nothing_yet 0 8
      (omega arith) (omega arith) no_message (last-From, (last-From, tt)) (omega arith) refl
      (omega arith)

abbrev long_message : EndpointMessage
long_message = record { address = 49 ∷ []; port = 6060; content = long; robust = true }

cut-From_example :
    (c : MessageChunk) × ((create_prototype 5 long_message >>= λ proto.
    nth_chunk 1 proto long >>= λ ch. encode_udp_wire [] ch >>= decode_udp_wire)
      ≡ ok c)
    × From 5 long c
    × (c.chunk ≡ 1)
cut-From_example =
    cut-From 5 long_message 1 [] (omega arith) (omega arith) (omega arith) (omega arith)

-- The buffer holds an older, longer datagram.
abbrev small_chunk : MessageChunk
small_chunk = record blank {
  valid = true;
  type = qmsg;
  sequence = 258;
  total_chunks = 515;
  chunk = 3;
  write = 1 ∷ 2 ∷ [];
}

-- One byte more than 65535 chunks hold, which `send` takes.
total_chunks_lem_example : total_chunks 32701966 ≡ aborted
total_chunks_lem_example = total_chunks_lem 32701966 (omega arith) (omega arith)

abbrev or_created : Outcome Connection → Connection
or_created (ok k) = k
or_created _ = created

unfoldable with_long : Connection
with_long = or_created (add_to_working_set long_message created)

unfoldable with_sent : Connection
with_sent = or_created (do_send with_long)

with_long-adds : add_to_working_set long_message created ≡ ok with_long
unfolding with_long add_to_working_set create_prototype total_chunks init_working find assign
    resize_bits
with_long-adds = refl

sent_first : do_send with_long ≡ ok with_sent
unfolding with_sent with_long add_to_working_set create_prototype total_chunks init_working find
    assign resize_bits do_send queue_next_chunk queue_loop queue_from queue_got at_next next_turn
    incr_next_message send_next sent_chunk encode_udp_wire resize write_be_u64 write_be_u16
    get_next_chunk nth_chunk
sent_first = refl

abbrev working_5 : Option WorkingMessage → WorkingMessage
working_5 (some wm) = wm
working_5 none = record {
  proto = blank;
  content = [];
  set_bits = [];
  sent = [];
  ticks = 0;
  in_flight = 0;
  queued = 0;
  next_send = 0;
}

unfoldable under_way : WorkingMessage
under_way = working_5 (find 1 with_sent.out_working)

under_way_found : find 1 with_sent.out_working ≡ some under_way
unfolding under_way resize with_sent with_long add_to_working_set create_prototype total_chunks
    init_working find assign resize_bits do_send queue_next_chunk queue_loop queue_from queue_got
    at_next next_turn incr_next_message send_next sent_chunk encode_udp_wire write_be_u64
    write_be_u16 get_next_chunk nth_chunk
under_way_found = refl

-- One of the two chunks is in flight.
under_way_flying : under_way.in_flight ≡ 1
unfolding under_way resize with_sent with_long add_to_working_set create_prototype total_chunks
    init_working find assign resize_bits do_send queue_next_chunk queue_loop queue_from queue_got
    at_next next_turn incr_next_message send_next sent_chunk encode_udp_wire write_be_u64
    write_be_u16 get_next_chunk nth_chunk
under_way_flying = refl

Reachable-window_example :
    (under_way.in_flight + under_way.queued ≤ max_flight) × (under_way.proto.sequence ≡ 1)
Reachable-window_example =
    Reachable-window with_sent 1 under_way
      (step (step start (adds long_message with_long-adds)) (sends sent_first)) under_way_found

abbrev short_message : EndpointMessage
short_message = record { address = 49 ∷ []; port = 6060; content = 1 ∷ 2 ∷ []; robust = true }

abbrev early : MessageChunk
early = record blank { valid = true; type = ack; sequence = 1; total_chunks = 1; chunk = 0 }

validate_chunk_early_example :
    (add_to_working_set short_message created >>= validate_chunk early) ≡ aborted
unfolding find
validate_chunk_early_example =
    validate_chunk_early short_message created early (omega arith) (omega arith) refl refl refl refl
      refl
