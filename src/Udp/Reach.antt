-- ===== src/Udp/Reach.antt =====
-- network/udp_queue.cpp: the connections that a run of the handlers reaches, and what holds of all of
-- them.
use firestr.Prelude.{
  ℕ, ◌+◌, ◌≤◌, ◌≡◌, inl, inr, refl, ◌∙◌, Bool, true, false, not, ◌&&◌, List, [], ◌∷◌, ◌++◌, some,
  ◌%◌, ◌^◌, ok, Ensures, Ensures-ok, Ensures-aborted, Ensures-if, Ensures-require, Ensures-bind,
  Ensures-imp, arith, length, ltb, leb, ◌==◌, if◌then◌else◌, nat_eq, All, Option-cases,
}
use firestr.Prelude.Maps.{find, assign}
use firestr.Udp.Chunk.{
  MessageChunk, EndpointMessage, msg, qmsg, max_flight, header_size, max_udp_buff_size,
  total_chunks, create_prototype, resend_tick_threshold,
}
use firestr.Udp.Wire.{decode_udp_wire}
use firestr.Udp.Assemble.{WorkingMessage, is_data, insert_chunk}
use firestr.Udp.Connection.{
  Connection, RingItem, Datagram, created, is_robust, post_send, cleanup_message, init_working,
  validate_chunk,
}
use firestr.Udp.Sending.{
  do_send, add_to_working_set, resend_item, tick_item, tick_ring, cleanup_all, resend, Tick,
}
use firestr.Udp.Receiving.{ack_of, send_right_away, handle_chunk, handle_read}
use firestr.Udp.Window.{
  InWindow, Windows, Windows-assign, Kept, init_working-Kept, cleanup_message-Kept,
  validate_chunk-Kept,
}
use firestr.Udp.WindowSend.{IsCalm, Harmless, do_send-IsCalm}

-- One handler that returns.
pub data Step (k k' : Connection) : Type 0 where
  adds : (m : EndpointMessage) → add_to_working_set m k ≡ ok k' → Step k k'
  sends : do_send k ≡ ok k' → Step k k'
  reads : (g : Datagram) → handle_read g k ≡ ok k' → Step k k'
  ticks : resend k ≡ ok k' → Step k k'

pub data Reachable : Connection → Type 0 where
  start : Reachable created
  step : {k k' : Connection} → Reachable k → Step k k' → Reachable k'

append-Harmless :
    (cs : List MessageChunk) (c : MessageChunk)
    → All Harmless cs
    → Harmless c
    → All Harmless (cs ++ (c ∷ []))
append-Harmless [] c h i = (i, tt)
append-Harmless (d ∷ cs) c h i = (h.0, append-Harmless cs c h.1 i)

from_Kept : (k k' : Connection) → IsCalm k → Kept k k' → IsCalm k'
from_Kept k k' h (w, q) = record { windows = w; harmless = rw q h.harmless }

created-IsCalm : IsCalm created
unfolding find
created-IsCalm = record { windows = λ s wm e. cc; harmless = tt }

kind : (b : Bool) → is_data (if b then msg else qmsg) ≡ true
kind true = refl
kind false = refl

prototype_sends :
    (s : ℕ) (m : EndpointMessage)
    → Ensures (λ c. (not c.resent && is_data c.type) ≡ true) (create_prototype s m)
unfolding create_prototype
prototype_sends s m =
    Ensures-bind (λ c. (not c.resent && is_data c.type) ≡ true) (total_chunks (length m.content))
      (λ n _. Ensures-ok (λ c. (not c.resent && is_data c.type) ≡ true) (kind m.robust))

add_to_working_set-IsCalm :
    (m : EndpointMessage) (k : Connection) → IsCalm k → Ensures IsCalm (add_to_working_set m k)
unfolding add_to_working_set
add_to_working_set-IsCalm m k h =
    let s : ℕ = (k.sequence + 1) % 2 ^ 64 in
    let k' : Connection = record k { sequence = s } in
    Ensures-require IsCalm (not (length m.content == 0)) (λ _.
      Ensures-bind IsCalm (create_prototype s m) (λ c e.
        Ensures-imp (Kept k') IsCalm (init_working c m.content k') (λ k'' q. from_Kept k k'' h q)
          (init_working-Kept c m.content k' h.windows ((prototype_sends s m).ensured c e))))

post_send-IsCalm : (k : Connection) → IsCalm k → IsCalm (post_send k)
unfolding post_send
post_send-IsCalm k h = record { windows = h.windows; harmless = h.harmless }

acked-IsCalm :
    (g : Datagram) (c : MessageChunk) (k : Connection)
    → IsCalm k
    → (b : Bool) → IsCalm (if b then send_right_away (ack_of g c) k else k)
unfolding send_right_away post_send
acked-IsCalm g c k h true = record {
  windows = h.windows;
  harmless = append-Harmless k.out_queue (ack_of g c) h.harmless refl;
}
acked-IsCalm g c k h false = h

handle_chunk-IsCalm :
    (g : Datagram) (c : MessageChunk) (k : Connection)
    → IsCalm k
    → Ensures IsCalm (handle_chunk g c k)
unfolding handle_chunk
handle_chunk-IsCalm g c k h =
    Ensures-if IsCalm (is_data c.type)
      (λ _.
        let k' : Connection = if is_robust c.type then send_right_away (ack_of g c) k else k in
        Ensures-bind IsCalm (insert_chunk c k'.in_working) (λ r _. Ensures-ok IsCalm (record {
          windows = (acked-IsCalm g c k h (is_robust c.type)).windows;
          harmless = (acked-IsCalm g c k h (is_robust c.type)).harmless;
        })))
      (λ _. Ensures-bind IsCalm (validate_chunk c k) (λ k' e. Ensures-ok IsCalm (
        post_send-IsCalm k' (from_Kept k k' h ((validate_chunk-Kept c k h.windows).ensured k' e)))))

handle_read-IsCalm : (g : Datagram) (k : Connection) → IsCalm k → Ensures IsCalm (handle_read g k)
unfolding handle_read
handle_read-IsCalm g k h =
    let k' : Connection = record k { bytes_recv = (k.bytes_recv + length g.content) % 2 ^ 64 } in
    let h' : IsCalm k' = record { windows = h.windows; harmless = h.harmless } in
    Ensures-require IsCalm (leb (length g.content) max_udp_buff_size) (λ _.
      Ensures-if IsCalm (leb header_size (length g.content))
        (λ _. Ensures-bind IsCalm (decode_udp_wire g.content) (λ c _.
          Ensures-if IsCalm c.valid (λ _. handle_chunk-IsCalm g c k' h')
            (λ _. Ensures-ok IsCalm h')))
        (λ _. Ensures-ok IsCalm h'))

-- The connection that the loop of `resend` has reached is within its windows.
abbrev Ticking : Connection → Tick → Type 0
Ticking k t = Windows t.connection.out_working × (t.connection.out_queue ≡ k.out_queue)

tick_item-Ticking :
    (k : Connection) (r : RingItem) (wm : WorkingMessage) (t : Tick)
    → Ticking k t
    → InWindow r.wm wm
    → Ensures (λ q. Ticking k q.1) (tick_item r wm t)
unfolding tick_item
tick_item-Ticking k r wm t (w, q) i =
    let wm' : WorkingMessage = record wm { ticks = wm.ticks + 1 } in
    let w' : Windows (assign r.wm wm' t.connection.out_working) =
      Windows-assign r.wm wm' t.connection.out_working
        (record {
          sequence = i.sequence;
          sends = i.sends;
          queued = i.queued;
          in_flight = i.in_flight;
        })
        (λ s v _. w s v) in
    Ensures-require (λ q. Ticking k q.1) (ltb 0 wm.proto.total_chunks)
      (λ _.
        Ensures-bind (λ q. Ticking k q.1)
          (if is_robust wm.proto.type && not (leb wm'.ticks resend_tick_threshold)
            then resend_item wm'
            else ok (0, []))
          (λ again _. Ensures-ok (λ q. Ticking k q.1) (w', q)))

tick_ring-Ticking :
    (k : Connection) (rs : List RingItem) (t : Tick)
    → Ticking k t
    → Ensures (λ q. Ticking k q.1) (tick_ring rs t)
unfolding tick_ring
tick_ring-Ticking k [] t h = Ensures-ok (λ q. Ticking k q.1) h
tick_ring-Ticking k (r ∷ rs) t h = elim (Option-cases (find r.wm t.connection.out_working)) [
  | inl e ↦ rw (e, tick_ring) (Ensures-aborted (λ q. Ticking k q.1))
  | inr (wm, e) ↦
      rw (e, tick_ring)
        (Ensures-bind (λ q. Ticking k q.1) (tick_item r wm t)
          (λ q f.
            Ensures-bind (λ q. Ticking k q.1) (tick_ring rs q.1)
              (λ q' f'.
                Ensures-ok (λ q. Ticking k q.1)
                  ((tick_ring-Ticking k rs q.1
                      ((tick_item-Ticking k r wm t h (h.0 r.wm wm e)).ensured q f)).ensured
                    q' f'))))
]

cleanup_all-Kept :
    (ss : List ℕ) (k : Connection) → Windows k.out_working → Ensures (Kept k) (cleanup_all ss k)
unfolding cleanup_all
cleanup_all-Kept [] k h = Ensures-ok (Kept k) (h, refl)
cleanup_all-Kept (s ∷ ss) k h = Ensures-bind (Kept k) (cleanup_message s k) (λ k' e.
    let (w, q) = (cleanup_message-Kept s k h).ensured k' e in
    Ensures-imp (Kept k') (Kept k) (cleanup_all ss k') (λ k'' (w', q'). (w', q' ∙ q))
      (cleanup_all-Kept ss k' w))

if_IsCalm : (b : Bool) (k : Connection) → IsCalm k → IsCalm (if b then post_send k else k)
if_IsCalm true k h = post_send-IsCalm k h
if_IsCalm false k h = h

resend-IsCalm : (k : Connection) → IsCalm k → Ensures IsCalm (resend k)
unfolding resend
resend-IsCalm k h =
    let t₀ : Tick = record { resent = false; exhausted = []; connection = k } in
    Ensures-bind IsCalm (tick_ring k.message_ring t₀) (λ q e.
      let (w, f) = (tick_ring-Ticking k k.message_ring t₀ (h.windows, refl)).ensured q e in
      let k₁ : Connection = record q.1.connection { message_ring = q.0 } in
      Ensures-bind IsCalm (cleanup_all q.1.exhausted k₁) (λ k₂ e'.
        let (w', f') = (cleanup_all-Kept q.1.exhausted k₁ w).ensured k₂ e' in
        let calm : IsCalm k₂ = from_Kept k k₂ h (w', f' ∙ f) in
        Ensures-ok IsCalm (if_IsCalm q.1.resent k₂ calm)))

Step-IsCalm : (k k' : Connection) → IsCalm k → Step k k' → IsCalm k'
Step-IsCalm k k' h (adds m e) = (add_to_working_set-IsCalm m k h).ensured k' e
Step-IsCalm k k' h (sends e) = (do_send-IsCalm k h).ensured k' e
Step-IsCalm k k' h (reads g e) = (handle_read-IsCalm g k h).ensured k' e
Step-IsCalm k k' h (ticks e) = (resend-IsCalm k h).ensured k' e

Reachable-IsCalm : (k : Connection) → Reachable k → IsCalm k
Reachable-IsCalm k start = created-IsCalm
Reachable-IsCalm k' (step {k} r s) = Step-IsCalm k k' (Reachable-IsCalm k r) s

-- In every connection that the handlers add_to_working_set, do_send, handle_read and resend reach
-- from a new one, in any order, an outgoing message has at most MAX_FLIGHT chunks queued or in
-- flight, and stands under its own sequence number.
pub Reachable-window :
    (k : Connection) (s : ℕ) (wm : WorkingMessage)
    → Reachable k
    → find s k.out_working ≡ some wm
    → (wm.in_flight + wm.queued ≤ max_flight) × (wm.proto.sequence ≡ s)
Reachable-window k s wm r e =
    let i : InWindow s wm = (Reachable-IsCalm k r).windows s wm e in
    (omega (arith, i.queued, i.in_flight), i.sequence)
