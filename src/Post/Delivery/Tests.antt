-- ===== src/Post/Delivery/Tests.antt =====
-- A letter from one peer to a mailbox of another, with the parameters of Security.Toy.
use firestr.Prelude.{
  ℕ, ◌+◌, ◌*◌, ◌≡◌, refl, true, [], ◌∷◌, Bytes, Option, none, some, ok, arith, length, codes,
  bytes_key, nat_eq,
}
use firestr.Prelude.Maps.{find, assign}
use firestr.Mencode.Encode.{encode, encode_b, encode_size, enc}
use firestr.Mencode.Encodable.{IsEncodable}
use firestr.Mencode.Value.{has}
use firestr.Mencode.Decimal.{decimal, decimal-IsFaithful, print}
use firestr.Envelope.{Message, items_of, encode_metadata, encode_message}
use firestr.Envelope.Carried.{IsMessage}
use firestr.Security.Toy.{toy, toy-IsRsa, toy-IsAes}
use firestr.Security.Secret.{PublicKey}
use firestr.Security.Handshake.{paired}
use firestr.Security.Channels.{plain, Channels, Channel}
use firestr.Security.Paired.{IsPaired, chosen}
use firestr.Post.Send.{answered, address_as, pop_own, live_child}
use firestr.Post.Steps.{with_letter}
use firestr.Post.Routes.{IsTree, Route, arrive, descend}
use firestr.Post.Master.{
  Endpoint, Wiring, make_address_str, out_message, in_pushed, in_counted, in_round,
}
use firestr.Post.Exchange.{IsWiring, arrived, type_of}
use firestr.Post.Delivery.{in_round_delivers}
use firestr.Post.Tests.{box, master, chat, world, letter, rank, world-IsTree}

abbrev unmark : Bytes → Option Bytes
unmark [] = none
unmark (c ∷ x) = some x

abbrev wires : Wiring
wires = record { compress = λ x. 3 ∷ x; uncompress = unmark; port_str = λ n. n ∷ [] }

wires-IsWiring : IsWiring wires
wires-IsWiring = record { round = λ x. refl; nonempty = λ x e. cc }

-- Where the datagrams of the sender come from, and what the receiver calls it.
abbrev source : Endpoint
source = record { protocol = codes "udp"; address = codes "10.0.0.7"; port = 80 }

abbrev sender_name : Bytes
sender_name = codes "udp://10.0.0.7:P"

abbrev key : ℕ → PublicKey toy
key n = record { ks = n ∷ []; k = some n }

abbrev channel : ℕ → ℕ → Channel toy
channel n k = record {
  shared_secret = record {
    pkey = n;
    skey = some (9 ∷ []);
    pub_value = n ∷ [];
    other_pub_value = 1 ∷ [];
  };
  key = key k;
}

abbrev sender : Channels toy
sender = record { s = (codes "peer", channel 7 6) ∷ []; pk = 5 }

abbrev receiver : Channels toy
receiver = record { s = (sender_name, channel 8 5) ∷ []; pk = 6 }

sender-IsPaired :
    IsPaired decimal toy sender receiver (codes "peer") (make_address_str wires source)
unfolding find assign make_address_str
sender-IsPaired =
    paired toy decimal sender receiver (codes "peer") sender_name (channel 7 6) (channel 8 5)
      (9 ∷ []) (record { held = refl; loads = refl; nonempty = refl }) refl refl

abbrev greeting : Message
greeting = letter (codes "peer" ∷ codes "chat" ∷ codes "ann" ∷ []) (codes "bob" ∷ [])

greeting-IsMessage : IsMessage decimal decimal-IsFaithful greeting
unfolding encode_metadata encode encode_b encode_size enc items_of print IsEncodable has
greeting-IsMessage = record {
  type = omega arith;
  inner = omega arith;
  content = omega arith;
  to = (omega arith, (omega arith, (omega arith, tt)));
  from = (omega arith, tt);
  extra = tt;
}

greeting_text : length (encode_message decimal greeting) ≡ 44
unfolding encode_message encode_metadata encode encode_b encode_size enc items_of print
greeting_text = refl

greeting-Route :
    Route
      (in_pushed world 0)
      5
      (codes "ann")
      0
      (codes "chat" ∷ codes "ann" ∷ [])
      (codes "bob" ∷ [])
      (codes "master" ∷ codes "bob" ∷ [])
unfolding find pop_own live_child
greeting-Route =
    descend master (codes "chat") (codes "ann") [] refl refl refl (arrive chat refl refl)

pushed-IsTree : IsTree rank (in_pushed world 0)
unfolding find
pushed-IsTree = world-IsTree

in_round_delivers_example :
    (c : Bytes) × (out_message decimal toy wires 50 0 sender greeting ≡ ok (codes "peer", c, true))
    × (in_round decimal toy wires
          (3 * length c + 1 + (3 * length (encode_message decimal greeting) + (2 + 0)))
          receiver
          world
          0
          source
          c
          plain
        ≡ answered
            (in_counted
              (with_letter 5
                (box (codes "ann"))
                (address_as (codes "ann" ∷ []) (codes "master" ∷ codes "bob" ∷ []) (
                  arrived source
                    (type_of (chosen decimal toy (find (codes "peer") sender.s)))
                    (codes "chat" ∷ codes "ann" ∷ [])
                    greeting))
                (in_pushed world 0))
              0)
            true)
in_round_delivers_example =
    in_round_delivers decimal toy wires decimal-IsFaithful toy-IsRsa toy-IsAes wires-IsWiring sender
      receiver (codes "peer") source greeting (codes "bob") [] (codes "chat" ∷ codes "ann" ∷ []) 0
      50 0 plain rank world 0 5 (codes "ann") (box (codes "ann"))
      (codes "master" ∷ codes "bob" ∷ []) sender-IsPaired greeting-IsMessage refl refl refl
      (omega (arith, greeting_text)) pushed-IsTree (unfold find in refl) greeting-Route
