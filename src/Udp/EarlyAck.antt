-- ===== src/Udp/EarlyAck.antt =====
-- network/udp_queue.cpp: an acknowledgement that comes before its chunk was sent.
use firestr.Prelude.{
  ℕ, ◌+◌, ◌%◌, ◌^◌, ◌<◌, ◌≤◌, ◌≡◌, refl, sym, subst, ◌∙◌, true, false, [], ◌∷◌, ◌++◌, none, some,
  ok, aborted, ◌>>=◌, arith, length, ltb, ◌==◌, nat_eq,
}
use firestr.Prelude.Maps.{find, assign, find-assign_same}
use firestr.Udp.Chunk.{MessageChunk, EndpointMessage, ack}
use firestr.Udp.Cut.{chunks}
use firestr.Udp.Transit.{proto, create_prototype-ok}
use firestr.Udp.Assemble.{WorkingMessage, fresh, resize_bits, is_data}
use firestr.Udp.Buffers.{count}
use firestr.Udp.Connection.{Connection, work, init_working, validate_in, validate_chunk}
use firestr.Udp.Sending.{add_to_working_set}

-- The message in the works, before a chunk of it is sent.
module _ (s : ℕ) (m : EndpointMessage) (p : 0 < length m.content) (b : length m.content ≤ 499) where
  one_chunk : chunks (length m.content) ≡ 1
  one_chunk = omega arith

  abbrev start : WorkingMessage
  start = work (proto s m p (omega arith)) m.content fresh

  validate_in-aborts :
      (c : MessageChunk) (k : Connection)
      → c.total_chunks ≡ 1
      → c.chunk ≡ 0
      → validate_in c start k ≡ aborted
  unfolding validate_in resize_bits count
  validate_in-aborts c k t n = rw (one_chunk, t, n) refl

  some_bytes : (length m.content == 0) ≡ false
  some_bytes = ground arith

  some_chunks : ltb 0 (chunks (length m.content)) ≡ true
  some_chunks = rw one_chunk refl

validate_chunk-found :
    (c : MessageChunk) (k : Connection) (wm : WorkingMessage)
    → is_data c.type ≡ false
    → find c.sequence k.out_working ≡ some wm
    → validate_chunk c k ≡ validate_in c wm k
unfolding validate_chunk
validate_chunk-found c k wm a f = rw (a, f, validate_chunk) refl

-- Where a message of 1 to 499 bytes has been added under a sequence number that had no entry, and
-- an acknowledgement of its one chunk comes before the chunk is sent, a contract of validate_chunk
-- fails.
pub validate_chunk_early :
    (m : EndpointMessage) (k : Connection) (c : MessageChunk)
    → 0 < length m.content
    → length m.content ≤ 499
    → find ((k.sequence + 1) % 2 ^ 64) k.out_working ≡ none
    → c.type ≡ ack
    → c.sequence ≡ (k.sequence + 1) % 2 ^ 64
    → c.total_chunks ≡ 1
    → c.chunk ≡ 0
    → (add_to_working_set m k >>= validate_chunk c) ≡ aborted
unfolding add_to_working_set init_working
validate_chunk_early m k c p b e a q t n =
    let s : ℕ = (k.sequence + 1) % 2 ^ 64 in
    let wm : WorkingMessage = start s m p b in
    let k' : Connection = record k {
      sequence = s;
      out_working = assign s wm k.out_working;
      message_ring = k.message_ring ++ (record { wm = s; resends = [] } ∷ []);
    } in
    let found : find c.sequence k'.out_working ≡ some wm =
      subst (λ t. find t k'.out_working ≡ some wm) (sym q) (find-assign_same s wm k.out_working) in
    let no_data : is_data c.type ≡ false = rw a refl in
    let added : add_to_working_set m k ≡ ok k' =
      rw (some_bytes s m p b, create_prototype-ok s m p (omega arith), some_chunks s m p b, e)
        refl in
    rw added (validate_chunk-found c k' wm no_data found ∙ validate_in-aborts s m p b c k' t n)
