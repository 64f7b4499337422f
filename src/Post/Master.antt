-- ===== src/Post/Master.antt =====
-- message/master_post.hpp and message/master_post.cpp: the office that exchanges messages with other
-- peers. A round of `out_thread` and of `in_thread`, from the message or the datagram that they
-- wait for. What is handed to the connections is the result; an exception ends the round and is
-- logged.
use firestr.Prelude.{
  ℕ, ◌+◌, ◌%◌, ◌^◌, Bool, true, false, pos, List, [], ◌∷◌, ◌++◌, Bytes, Option, none, some, Outcome,
  ok, thrown, aborted, ◌>>=◌, nat_eq, bytes_key, if◌then◌else◌, codes,
}
use firestr.Prelude.Maps.{find}
use firestr.Mencode.Value.{Entries, blob, int, assign}
use firestr.Mencode.Lexical.{Lexical}
use firestr.Envelope.{
  Message, EncryptionType, conversation, asymmetric, symmetric, plaintext, remote, stream_of,
  encode_message, decode_message,
}
use firestr.Mail.Queue.{pop, taken, refused, waits}
use firestr.Mail.Mailbox.{MailboxStats}
use firestr.Security.Botan.{Botan}
use firestr.Security.Channels.{
  Cipher, plain, unknown, Channels, encrypt_plaintext, encrypt_symmetric, encrypt_asymmetric,
  encrypt_for, decrypt_from,
}
use firestr.Security.Channels
use firestr.Post.Office.{World, with_office, on_office, is_empty}
use firestr.Post.Send.{Posted, answered, relocked, dangling, aborted, out_of_fuel, address_as, send}
use firestr.Post.Send

-- network/endpoint.hpp
pub record Endpoint : Type 0 where
  pub protocol : Bytes
  pub address : Bytes
  pub port : ℕ

-- snappy, and the operator that prints a port to a stream.
pub record Wiring : Type 0 where
  pub compress : Bytes → Bytes
  pub uncompress : Bytes → Option Bytes
  pub port_str : ℕ → Bytes

-- `make_address_str` of network/connection.cpp.
unfoldable pub make_address_str : Wiring → Endpoint → Bytes
make_address_str w e =
    e.protocol ++ (codes "://" ++ (e.address ++ (codes ":" ++ w.port_str e.port)))

-- util/compress.cpp: `uncompress` gives nothing where snappy fails.
unfoldable pub uncompress_bytes : Wiring → Bytes → Bytes
uncompress_bytes w bs = elim (w.uncompress bs) [ none ↦ [] | some o ↦ o ]

unfoldable pub to_message_encryption_type : Cipher → Outcome EncryptionType
to_message_encryption_type plain = ok plaintext
to_message_encryption_type Channels.symmetric = ok symmetric
to_message_encryption_type Channels.asymmetric = ok asymmetric
to_message_encryption_type unknown = aborted

-- What `in_thread` writes into the extra metadata.
unfoldable pub origin : Endpoint → Entries → Entries
origin ep d = assign (codes "from_port") (int (pos ep.port)) (
    assign (codes "from_ip") (blob ep.address)
      (assign (codes "from_protocol") (blob ep.protocol) d))

-- `if(o->_outside_stats.on) o->_outside_stats.in_pop_count++`, and the same of `in_push_count`.
abbrev pub in_counted : World → ℕ → World
in_counted world o =
    on_office world
      (λ office.
        if office.outside_stats.on
        then with_office o
            (record office {
              outside_stats = record office.outside_stats {
                in_pop_count = (office.outside_stats.in_pop_count + 1) % 2 ^ 64;
              };
            })
            world
        else world)
      (find o world.posts)

abbrev pub in_pushed : World → ℕ → World
in_pushed world o =
    on_office world
      (λ office.
        if office.outside_stats.on
        then with_office o
            (record office {
              outside_stats = record office.outside_stats {
                in_push_count = (office.outside_stats.in_push_count + 1) % 2 ^ 64;
              };
            })
            world
        else world)
      (find o world.posts)

abbrev out_sent : MailboxStats → MailboxStats
out_sent s = if s.on then record s { out_pop_count = (s.out_pop_count + 1) % 2 ^ 64 } else s

-- The two REQUIREs of `out_thread`, and `m.meta.to.front()`.
unfoldable pub outside_address : List Bytes → List Bytes → Outcome Bytes
outside_address [] to = Outcome.aborted
outside_address (_ ∷ _) [] = Outcome.aborted
outside_address (_ ∷ _) (x ∷ _) = ok x

module _ (l : Lexical) (b : Botan) (w : Wiring) where
  -- `encrypt_message`, which switches on `m.meta.encryption`.
  unfoldable pub encrypt_message :
      EncryptionType → ℕ → ℕ → Channels b → Bytes → Bytes → Outcome Bytes
  encrypt_message plaintext f n cs i bs = ok (encrypt_plaintext b bs)
  encrypt_message symmetric f n cs i bs = encrypt_symmetric b (find i cs.s) bs
  encrypt_message asymmetric f n cs i bs = encrypt_asymmetric b l f n (find i cs.s) bs
  encrypt_message conversation f n cs i bs = encrypt_for b l f n cs i bs

  -- `out_thread`, with a message from the queue: the arguments of `_connections.send`.
  unfoldable pub out_message : ℕ → ℕ → Channels b → Message → Outcome (Bytes × Bytes × Bool)
  unfolding encrypt_message outside_address
  out_message f n cs m = do
    to ← outside_address m.meta.from m.meta.to
    bs ← encrypt_message m.meta.encryption f n cs to (w.compress (encode_message l m))
    ok (to, bs, m.meta.robust)

  -- A round of `out_thread`: the world after it, and the calls of `_connections.send`.
  unfoldable pub out_round :
      ℕ → ℕ → Channels b → World → ℕ → Outcome (World × List (Bytes × Bytes × Bool))
  unfolding out_message
  out_round f n cs world o = elim (find o world.posts) [
    | none ↦ ok (world, [])
    | some office ↦ elim office.out [
      | none ↦ ok (world, [])
      | some q ↦ elim (pop true q) [
        | refused ↦ ok (world, [])
        | waits ↦ ok (world, [])
        | taken m q' ↦ elim (out_message f n cs m) [
          | ok call ↦ ok (
            with_office o
                (record office { out = some q'; outside_stats = out_sent office.outside_stats })
                world,
            call ∷ [],
          )
          | thrown ↦ ok (with_office o (record office { out = some q' }) world, [])
          | Outcome.aborted ↦ Outcome.aborted
          | Outcome.out_of_fuel ↦ Outcome.out_of_fuel
        ]
      ]
    ]
  ]

  -- `in_thread`, with data from the connections: the message for `o->send`, or none. `et` is the
  -- variable of that name, which nothing has set.
  unfoldable pub in_message : ℕ → Channels b → Endpoint → Bytes → Cipher → Outcome (Option Message)
  unfolding make_address_str uncompress_bytes to_message_encryption_type origin
  in_message f cs ep bs et = do
    clear ← decrypt_from b l f cs (make_address_str w ep) bs et
    if is_empty clear.0
        then ok none
        else let text = uncompress_bytes w clear.0 in
          if is_empty text then ok none else do
            read ← decode_message l f (stream_of text)
            let m = read.0
            elim m.meta.to [
              | [] ↦ ok none
              | _ ∷ to ↦ do
                e ← to_message_encryption_type clear.1
                ok (
                    some (record m {
                      meta = record m.meta {
                        extra = origin ep m.meta.extra;
                        encryption = e;
                        source = remote;
                        to = to;
                      };
                    }))
            ]

  -- The rest of the round: `o->send(m)`, whose answer is not used. The answer here is whether
  -- there was a message to send.
  unfoldable pub in_round : ℕ → Channels b → World → ℕ → Endpoint → Bytes → Cipher → Posted
  unfolding in_message
  in_round f cs world o ep bs et =
      let world' = in_pushed world o in
      elim (in_message f cs ep bs et) [
        | thrown ↦ answered world' false
        | Outcome.aborted ↦ Send.aborted
        | Outcome.out_of_fuel ↦ Send.out_of_fuel
        | ok none ↦ answered world' false
        | ok (some m) ↦ elim (send f world' [] o m) [
          | answered world'' sent ↦ answered (in_counted world'' o) true
          | relocked ↦ relocked
          | dangling ↦ dangling
          | Send.aborted ↦ Send.aborted
          | Send.out_of_fuel ↦ Send.out_of_fuel
        ]
      ]
