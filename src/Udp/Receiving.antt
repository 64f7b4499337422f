-- ===== src/Udp/Receiving.antt =====
-- network/udp_queue.cpp: `handle_read`, what a datagram does to a `udp_connection`.
use firestr.Prelude.{
  ◌+◌, ◌%◌, ◌^◌, [], ◌∷◌, ◌++◌, none, some, Outcome, ok, require, ◌>>=◌, ◌>>◌, length, leb,
  if◌then◌else◌,
}
use firestr.Udp.Chunk.{MessageChunk, ack, header_size, max_udp_buff_size}
use firestr.Udp.Wire.{decode_udp_wire, blank}
use firestr.Udp.Assemble.{insert_chunk, is_data}
use firestr.Udp.Connection.{Connection, Datagram, is_robust, post_send, validate_chunk}

-- The acknowledgement of a chunk from `host` and `port`.
abbrev pub ack_of : Datagram → MessageChunk → MessageChunk
ack_of g c = record blank {
  type = ack;
  host = g.host;
  port = g.port;
  sequence = c.sequence;
  total_chunks = c.total_chunks;
  chunk = c.chunk;
}

unfoldable pub send_right_away : MessageChunk → Connection → Connection
send_right_away c k = post_send (record k { out_queue = k.out_queue ++ (c ∷ []) })

-- A valid chunk.
unfoldable pub handle_chunk : Datagram → MessageChunk → Connection → Outcome Connection
handle_chunk g c k =
    if is_data c.type
    then (let robust = is_robust c.type in
        let k' = if robust then send_right_away (ack_of g c) k else k in
        insert_chunk c k'.in_working >>= λ r. ok (record k' {
          in_working = r.1;
          in_queue = elim r.0 [
            | none ↦ k'.in_queue
            | some content ↦
                k'.in_queue
                ++ (record { address = g.host; port = g.port; content = content; robust = robust }
                    ∷ [])
          ];
        }))
    else (validate_chunk c k >>= λ k'. ok (post_send k'))

-- A datagram without an error.
unfoldable pub handle_read : Datagram → Connection → Outcome Connection
handle_read g k = do
  require (leb (length g.content) max_udp_buff_size)
  let k' = record k { bytes_recv = (k.bytes_recv + length g.content) % 2 ^ 64 }
  (if leb header_size (length g.content)
      then (decode_udp_wire g.content >>= λ c. if c.valid then handle_chunk g c k' else ok k')
      else ok k')
