-- ===== src/Post/Delivery.antt =====
-- message/master_post.cpp and message/post_office.cpp: from the queue to the outside of one peer to
-- a mailbox of another.
mod Tests
use firestr.Prelude.{
  ℕ, suc, ◌+◌, ◌*◌, ◌<◌, ◌≡◌, refl, ◌∙◌, ap, true, List, [], ◌∷◌, Bytes, Option, some, Outcome, ok,
  arith, length, nat_eq, bytes_key, subst,
}
use firestr.Prelude.Maps.{find}
use firestr.Mencode.Lexical.{Lexical, IsFaithful}
use firestr.Envelope.{Message, conversation, encode_message}
use firestr.Envelope.Carried.{IsMessage}
use firestr.Mail.Mailbox.{Mailbox}
use firestr.Security.Botan.{Botan, IsRsa, IsAes}
use firestr.Security.Channels.{Cipher, Channels}
use firestr.Security.Paired.{IsPaired, chosen}
use firestr.Post.Office.{World}
use firestr.Post.Send.{answered, address_as, send}
use firestr.Post.Steps.{with_letter}
use firestr.Post.Routes.{IsTree, Route, send-Route}
use firestr.Post.Master.{
  Endpoint, Wiring, make_address_str, out_message, in_message, in_pushed, in_counted, in_round,
}
use firestr.Post.Exchange.{IsWiring, arrived, type_of, in_message-out_message}

module _ (l : Lexical) (b : Botan) (w : Wiring) where
  in_round_sent :
      (f : ℕ) (cs : Channels b) (world : World) (o : ℕ) (ep : Endpoint) (bs : Bytes) (et : Cipher)
      (m : Message) (world' : World)
      → in_message l b w f cs ep bs et ≡ ok (some m)
      → send f (in_pushed world o) [] o m ≡ answered world' true
      → in_round l b w f cs world o ep bs et ≡ answered (in_counted world' o) true
  unfolding in_round
  in_round_sent f cs world o ep bs et m world' e s = rw (e, in_round) (rw (s, in_round) refl)

  module _ (faithful : IsFaithful l) (rsa : IsRsa b) (aes : IsAes b) (wiring : IsWiring w) where
    -- With a faithful lexical_cast, and RSA, AES and snappy that read back what they wrote, let
    -- one master post have a channel to a peer that is paired with the peer's channel for the
    -- endpoint its datagrams come from. Then a message of a carried form with an address to send
    -- from, the encryption of the conversation, and the peer's name in front of a route down the
    -- peer's offices to a mailbox, gives one call of the connections, with the peer's name and the
    -- message's robustness, and a round of the peer's in_thread on these bytes puts the message
    -- into that mailbox: signed by the offices passed, with protocol, address and port of the
    -- endpoint in its extra metadata, remote, and with the kind of encryption that the channel
    -- chose. The fuel is above the sizes of the texts, and no office stands below itself.
    pub in_round_delivers :
        (a z : Channels b) (x : Bytes) (ep : Endpoint) (m : Message) (y : Bytes)
        (from to : List Bytes) (n f g : ℕ) (et : Cipher) (rank : ℕ → ℕ) (world : World) (o p : ℕ)
        (name : Bytes) (box : Mailbox Message) (from' : List Bytes)
        → IsPaired l b a z x (make_address_str w ep)
        → IsMessage l faithful m
        → m.meta.from ≡ y ∷ from
        → m.meta.to ≡ x ∷ to
        → m.meta.encryption ≡ conversation
        → length (w.compress (encode_message l m)) < f
        → IsTree rank (in_pushed world o)
        → find p (in_pushed world o).mailboxes ≡ some box
        → Route (in_pushed world o) p name o to m.meta.from from'
        → let e = type_of (chosen l b (find x a.s)) in
          (c : Bytes) × (out_message l b w f n a m ≡ ok (x, c, m.meta.robust))
          × (in_round l b w
                (3 * length c + 1 + (3 * length (encode_message l m) + (length to + g)))
                z
                world
                o
                ep
                c
                et
              ≡ answered
                  (in_counted
                    (with_letter p box
                      (address_as (name ∷ []) from' (arrived ep e to m))
                      (in_pushed world o))
                    o)
                  true)
    in_round_delivers a z x ep m y from to n f g et rank world o p name box from' paired ok_m fr t
          en h tree there route =
        let e = type_of (chosen l b (find x a.s)) in
        let (c, out, into) =
          in_message-out_message l b w faithful rsa aes wiring a z x ep m y from to n f
            (length to + g) et paired ok_m fr t en h in
        let fuel = 3 * length c + 1 + (3 * length (encode_message l m) + (length to + g)) in
        (
          c,
          out,
          in_round_sent fuel z world o ep c et (arrived ep e to m)
              (with_letter p box (address_as (name ∷ []) from' (arrived ep e to m))
                (in_pushed world o))
              into
              (send-Route rank (in_pushed world o) p name box fuel o (arrived ep e to m) from' tree
                there route (omega arith)),
        )
