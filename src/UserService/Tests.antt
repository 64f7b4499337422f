-- ===== src/UserService/Tests.antt =====
-- Two contacts of a user: ann, who is connected, and bob, who is offline.
use firestr.Prelude.{
  ℕ, true, sym, ◌⊎◌, inl, inr, Bool-cases, bytes_eq, bytes_eq_iff, if◌then◌else◌, subst, ok, Bytes,
  ◌≡◌, ◌≢◌, ap, ◌∙◌, refl, false, List, [], ◌∷◌, bytes_key, Option, none, some, aborted, codes,
  arith, pos,
}
use firestr.Prelude.Maps.{find, assign}
use firestr.Mail.Mailbox.{create}
use firestr.Security.Toy.{toy}
use firestr.User.Contacts.{UserInfo, by_id}
use firestr.User.Listed.{listed, lookup}
use firestr.User.Refines.{by_id-id, by_id-listed}
use firestr.UserService.State.{
  ContactState, ContactData, UserService, offline, connecting, connected, ping_thresh, with_data,
  connecting_contact, fire_contact_connected_event, connected_contact, connect_from, available,
}
use firestr.UserService.Pings.{Ping, read_ping}
use firestr.Conversation.Answers.{among}
use firestr.UserService.Timed.{
  IsTimedData, IsTimed, IsTimedBut-of, with_data-IsTimed, IsReady, AreUsers,
}
use firestr.UserService.Runs.{Goes, Act, pinged, ticked, asked, run, AreFair, run-Goes}
use firestr.Envelope.{Message}
use firestr.Mail.Mailbox.{push_outbox}
use firestr.Security.Channels.{Channel, get_channel}
use firestr.Security.Secret.{ready}
use firestr.UserService.Turns.{ping_message, send_ping_to, address_of}
use firestr.UserService.Pings.{received_ping}
use firestr.UserService.Sending.{arrived, read_ping-arrived, ping_keeps}
use firestr.UserService.Farewell.{run_farewell}
use firestr.UserService.Aging.{turns, turns_silent}

abbrev ann : UserInfo
ann = record {
  addresses = codes "udp://1.2.3.4:70" ∷ [];
  name = codes "Ann";
  id = codes "ann";
  pkey = codes "key";
}

abbrev bob : UserInfo
bob = record ann { addresses = codes "udp://1.2.3.5:70" ∷ []; name = codes "Bob"; id = codes "bob" }

abbrev data_of : ContactState → UserInfo → ContactData
data_of q u = record {
  state = q;
  contact = some u;
  last_ping = ping_thresh;
  client_version = pos 0;
  protocol_version = pos 0;
  idle = false;
}

abbrev users : List UserInfo
users = ann ∷ bob ∷ []

-- A channel with a key that is agreed.
abbrev agreed_channel : Channel toy
agreed_channel = record {
  shared_secret = record {
    pkey = 5;
    skey = some (9 ∷ []);
    pub_value = 5 ∷ [];
    other_pub_value = 4 ∷ [];
  };
  key = record { k = some 3; ks = codes "key" };
}

abbrev alone : UserService toy
alone = record {
  user_contacts = listed users;
  my_id = codes "me";
  contacts = [];
  channels = record {
    s =
        (codes "udp://1.2.3.4:70", agreed_channel)
        ∷ (codes "udp://1.2.3.5:70", agreed_channel)
        ∷ [];
    pk = 7;
  };
  mail = create (codes "user_service");
  events = [];
}

abbrev start : UserService toy
start =
    with_data toy (codes "bob") (data_of offline bob)
      (with_data toy (codes "ann") (data_of connected ann) alone)

lookup-cases :
    (k : Bytes) (u : UserInfo)
    → lookup k users ≡ some u
    → ((bytes_eq (codes "ann") k ≡ true) × (ann ≡ u))
      ⊎ ((bytes_eq (codes "bob") k ≡ true) × (bob ≡ u))
lookup-cases k u e = elim (Bool-cases (bytes_eq (codes "ann") k)) [
  | inl h ↦ let f : some ann ≡ some u = rw h at e in inl (h, cc)
  | inr h ↦
      let f : (if bytes_eq (codes "bob") k then some bob else none) ≡ some u = rw h at e in
      elim (Bool-cases (bytes_eq (codes "bob") k)) [
        | inl i ↦ let g : some bob ≡ some u = rw i at f in inr (i, cc)
        | inr i ↦ let g : none ≡ some u = rw i at f in cc g
      ]
]

one_id : (i j k : Bytes) → bytes_eq i j ≡ true → bytes_eq i k ≡ true → bytes_eq j k ≢ false
one_id i j k h g n =
    let a : i ≡ j = (bytes_eq_iff i j).0 h in
    let c : i ≡ k = (bytes_eq_iff i k).0 g in
    let e : bytes_eq j k ≡ true = (bytes_eq_iff j k).1 (sym a ∙ c) in cc (sym e ∙ n)

two_addresses :
    (x y u v : UserInfo)
    → x ≡ u
    → y ≡ v
    → among (address_of y) x.addresses ≡ false
    → among (address_of v) u.addresses ≡ false
two_addresses x y u v a c e =
    subst (λ (w : UserInfo). among (address_of w) u.addresses ≡ false) c
      (subst (λ (w : UserInfo). among (address_of y) w.addresses ≡ false) a e)

users-AreUsers : AreUsers toy (listed users)
unfolding address_of
users-AreUsers = record {
  names = λ j c. by_id-id j users c;
  apart = λ j k u v l l' n. elim (lookup-cases j u (sym (by_id-listed j users) ∙ l)) [
    | inl (h, a) ↦ elim (lookup-cases k v (sym (by_id-listed k users) ∙ l')) [
      | inl (i, c) ↦ absurd (one_id (codes "ann") j k h i n)
      | inr (i, c) ↦ two_addresses ann bob u v a c refl
    ]
    | inr (h, a) ↦ elim (lookup-cases k v (sym (by_id-listed k users) ∙ l')) [
      | inl (i, c) ↦ two_addresses bob ann u v a c refl
      | inr (i, c) ↦ absurd (one_id (codes "bob") j k h i n)
    ]
  ];
}

IsReady-at :
    (u : UserInfo)
    → find (address_of u) alone.channels.s ≡ some agreed_channel
    → IsReady toy alone.channels (address_of u)
unfolding ready
IsReady-at u e = record { channel = agreed_channel; there = e; agreed = refl }

alone-IsTimed : IsTimed toy alone
unfolding find
alone-IsTimed = record { each = λ j cd e. cc e; users = users-AreUsers }

data_of-IsTimedData :
    (q : ContactState) (u : UserInfo)
    → by_id u.id (listed users) ≡ some u
    → find (address_of u) alone.channels.s ≡ some agreed_channel
    → IsTimedData toy (listed users) alone.channels u.id (data_of q u)
data_of-IsTimedData q u e a = record {
  recent = omega arith;
  held = λ n. (u, (refl, (e, IsReady-at u a)));
}

start-IsTimed : IsTimed toy start
unfolding find by_id address_of
start-IsTimed =
    let one =
      with_data-IsTimed toy (codes "ann") (data_of connected ann) alone
        (IsTimedBut-of toy (codes "ann") alone alone-IsTimed)
        (data_of-IsTimedData connected ann refl refl) in
    with_data-IsTimed toy (codes "bob") (data_of offline bob)
      (with_data toy (codes "ann") (data_of connected ann) alone)
      (IsTimedBut-of toy (codes "bob") _ one) (data_of-IsTimedData offline bob refl refl)

abbrev from_bob : ℕ → Message
from_bob st =
    arrived toy (codes "udp://1.2.3.5:70" ∷ codes "user_service" ∷ [])
      (ping_message (codes "udp://5.6.7.8:70") (record { from_id = codes "bob"; state = st }))

from_bob-read :
    (st : ℕ) → read_ping (from_bob st) ≡ ok (record { from_id = codes "bob"; state = st })
from_bob-read st =
    read_ping-arrived toy (codes "udp://1.2.3.5:70" ∷ codes "user_service" ∷ [])
      (codes "udp://5.6.7.8:70") (record { from_id = codes "bob"; state = st }) (omega arith)

from_bob-ping :
    (st : ℕ) (p : Ping)
    → read_ping (from_bob st) ≡ ok p
    → (let q : Ping = record { from_id = codes "bob"; state = st } in q ≡ p)
from_bob-ping st p e =
    let q : Ping = record { from_id = codes "bob"; state = st } in
    let f : ok q ≡ ok p = sym (from_bob-read st) ∙ e in cc

from_bob-id : (st : ℕ) (p : Ping) → read_ping (from_bob st) ≡ ok p → codes "bob" ≡ p.from_id
from_bob-id st p e = ap (λ (q : Ping). q.from_id) (from_bob-ping st p e)

no_farewell : (p : Ping) → read_ping (from_bob b'c') ≡ ok p → p.state ≢ b'd'
no_farewell p e d =
    let f : b'c' ≡ p.state = ap (λ (q : Ping). q.state) (from_bob-ping b'c' p e) in
    absurd (omega arith)

abbrev acts : List (Act toy)
acts =
    asked (codes "bob")
    ∷ pinged (from_bob b'd')
    ∷ ticked false
    ∷ pinged (from_bob b'c')
    ∷ ticked true
    ∷ []

-- After the first of them.
abbrev begun : UserService toy
begun = (run toy (asked (codes "bob") ∷ []) 13 start).1

abbrev state_or : Option ContactData → ContactState
state_or none = offline
state_or (some cd) = cd.state

connecting-offline : connecting ≢ offline
connecting-offline = λ e. cc e

acts-AreFair : AreFair toy acts 13 start
unfolding find assign by_id connecting_contact fire_contact_connected_event connected_contact
    connect_from available address_of ping_message
acts-AreFair = (
  λ c l.
      let q : bob ≡ c = cc in
      subst (λ (w : UserInfo). IsReady toy alone.channels (address_of w)) q (IsReady-at bob refl),
  (
    (
      refl,
      (
        omega arith,
        λ p cd r e d o. connecting-offline (
            ap state_or
              (subst (λ i. find i begun.contacts ≡ some cd) (sym (from_bob-id b'd' p r)) e)
            ∙ o),
      ),
    ),
    (tt, ((refl, (omega arith, λ p cd r e d o. no_farewell p r d)), (tt, tt))),
  ),
)

run-Goes_example : Goes toy (run toy acts 13 start)
run-Goes_example = run-Goes toy acts 13 start start-IsTimed acts-AreFair

run_farewell_example :
    (run toy (pinged (from_bob b'd') ∷ pinged (from_bob b'c') ∷ []) 0 start).0 ≡ aborted
unfolding find assign by_id
run_farewell_example =
    run_farewell toy (from_bob b'd') (from_bob b'c') 0 (codes "bob") (data_of offline bob) start bob
      bob (from_bob-read b'd') (from_bob-read b'c') refl refl refl (omega arith) refl refl

turns_silent_example :
    ((m : ℕ) × ((turns toy (false ∷ true ∷ []) 13 start).0 ≡ ok m))
    × (find (codes "ann") (turns toy (false ∷ true ∷ []) 13 start).1.contacts
        ≡ some (record (data_of connected ann) { state = offline; last_ping = ping_thresh }))
unfolding find assign
turns_silent_example =
    turns_silent toy (false ∷ true ∷ []) 13 (codes "ann") (data_of connected ann) start
      start-IsTimed (refl, (refl, tt)) refl (λ e. cc)

abbrev sender : UserService toy
sender = start

abbrev me : UserInfo
me = record ann { name = codes "Me"; id = codes "me" }

-- The service of ann.
abbrev receiver : UserService toy
receiver = with_data toy (codes "me") (data_of connected me) alone

abbrev origin_of_me : List Bytes
origin_of_me = codes "udp://5.6.7.8:70" ∷ codes "user_service" ∷ []

ping_keeps_example :
    (m : Message) × ((send_ping_to toy b'c' (codes "ann") false sender
        ≡ (ok tt, record sender { mail = push_outbox m sender.mail }))
      × (((received_ping toy (arrived toy origin_of_me m) receiver).0 ≡ ok tt)
          × (find (codes "me") (received_ping toy (arrived toy origin_of_me m) receiver).1.contacts
              ≡ some (record (data_of connected me) { last_ping = 0; idle = false }))))
unfolding find assign by_id get_channel address_of ready
ping_keeps_example =
    ping_keeps toy b'c' (codes "ann") (data_of connected ann) (data_of connected me) ann ann me
      agreed_channel sender receiver origin_of_me refl refl refl refl refl refl refl refl refl
      (omega arith) (λ e. absurd (omega arith)) (omega arith)
