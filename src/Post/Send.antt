-- ===== src/Post/Send.antt =====
-- message/post_office.cpp: `send` and a round of `send_thread`, and `send_outside` of
-- message/master_post.cpp.
-- The caller's chain of locks is an argument: the offices whose `_post_m` the calling thread holds.
-- A std::mutex that is locked again by its own thread is undefined behaviour (`relocked`; in
-- practice the thread never wakes), and so is a call through the pointer of an office that is gone
-- (`dangling`).
use firestr.Prelude.{
  ℕ, zero, suc, ◌+◌, ◌%◌, ◌^◌, Bool, true, false, List, [], ◌∷◌, Option, none, some, Bytes,
  bytes_eq, bytes_key, nat_eq, ◌==◌, if◌then◌else◌, length,
}
use firestr.Prelude.Maps.{find, assign}
use firestr.Envelope.{Message}
use firestr.Mail.Queue.{push}
use firestr.Mail.Mailbox.{MailboxStats, push_inbox, pop_outbox, received, nothing, waiting}
use firestr.Post.Office.{Office, World, with_office}

-- The answer of `send`, with the world after it.
pub data Posted : Type 0 where
  answered : World → Bool → Posted
  relocked dangling aborted out_of_fuel : Posted

abbrev pub address_as : List Bytes → List Bytes → Message → Message
address_as to from m = record m { meta = record m.meta { to = to; from = from } }

-- `m.meta.from.push_front(a)`.
abbrev pub push_from : Bytes → Message → Message
push_from a m = address_as m.meta.to (a ∷ m.meta.from) m

-- `if(meta.to.size() > 1 && meta.to.front() == _address) meta.to.pop_front();`
unfoldable pub pop_own : Bytes → List Bytes → List Bytes
pop_own a [] = []
pop_own a (x ∷ []) = x ∷ []
pop_own a (x ∷ y ∷ to) = if bytes_eq x a then y ∷ to else x ∷ y ∷ to

abbrev pub holds : ℕ → List ℕ → Bool
holds o [] = false
holds o (h ∷ held) = if h == o then true else holds o held

-- A child office that is still there.
unfoldable pub live_child : World → Office → Bytes → Option ℕ
live_child w office x = elim (find x office.offices) [
  | none ↦ none
  | some c ↦ elim (find c w.posts) [ none ↦ none | some _ ↦ some c ]
]

-- The last part of `send`: to the mailbox.
unfoldable pub deliver : World → Office → Bytes → Message → Posted
deliver w office x m = elim (find x office.boxes) [
  | none ↦ answered w false
  | some p ↦ elim (find p w.mailboxes) [
    | none ↦ answered w false
    | some box ↦ answered (record w { mailboxes = assign p (push_inbox m box) w.mailboxes }) true
  ]
]

abbrev pub out_counted : MailboxStats → MailboxStats
out_counted s = if s.on then record s { out_push_count = (s.out_push_count + 1) % 2 ^ 64 } else s

-- `send_outside` of the two classes.
unfoldable pub send_outside : World → ℕ → Office → Message → Posted
send_outside w o office m = elim office.out [
  | none ↦ answered w false
  | some q ↦
      answered
        (with_office o
          (record office {
            out = some (push m q);
            outside_stats = out_counted office.outside_stats;
          })
          w)
        true
]

-- `send` of another office, under the locks that are held.
abbrev pub Sender : Type 0
Sender = World → List ℕ → ℕ → Message → Posted

-- The part of `send` after the lookup of a child: to the parent, or outside.
unfoldable pub send_up : Sender → World → List ℕ → ℕ → Message → Posted
unfolding send_outside
send_up again w held o m = elim (find o w.posts) [
  | none ↦ dangling
  | some office ↦ elim office.parent [
    | none ↦ send_outside w o office (push_from office.address m)
    | some p ↦ again w held p (push_from office.address m)
  ]
]

-- `if(sp->send(cp)) return true;`
unfoldable pub unless_sent : Posted → (World → Posted) → Posted
unless_sent (answered w true) up = answered w true
unless_sent (answered w false) up = up w
unless_sent r up = r

-- The branch of `send` for more than one address, which are x, y and the rest.
unfoldable pub send_on :
    Sender → World → List ℕ → ℕ → Office → Message → Bytes → List Bytes → Posted
unfolding send_up unless_sent live_child
send_on again w held o office m x rest =
    let m' = address_as (x ∷ rest) m.meta.from m in
    if holds o held then relocked else elim (live_child w office x) [
      | none ↦ send_up again w held o m'
      | some c ↦
          unless_sent (again w (o ∷ held) c (address_as rest (office.address ∷ m.meta.from) m))
            (λ w'. send_up again w' held o m')
    ]

unfoldable pub send : ℕ → Sender
unfolding pop_own deliver send_on
send zero w held o m = out_of_fuel
send (suc f) w held o m = elim (find o w.posts) [
  | none ↦ dangling
  | some office ↦ elim (pop_own office.address m.meta.to) [
    | [] ↦ answered w false
    | x ∷ rest ↦ elim rest [
      | [] ↦ deliver w office x (address_as (x ∷ []) m.meta.from m)
      | y ∷ to ↦ send_on (send f) w held o office m x (y ∷ to)
    ]
  ]
]

-- The `for` loop of `send_thread` over the copy of `_boxes`, and whether it sent anything.
unfoldable pub send_boxes : ℕ → World → ℕ → List (Bytes × ℕ) → Bool → Posted
unfolding send
send_boxes f w o [] sent = answered w sent
send_boxes f w o ((a, p) ∷ boxes) sent = elim (find p w.mailboxes) [
  | none ↦ send_boxes f w o boxes sent
  | some box ↦ elim (pop_outbox false box) [
    | nothing ↦ send_boxes f w o boxes sent
    | waiting ↦ send_boxes f w o boxes sent
    | received m box' ↦
        let m' = push_from box.address m in
        let w' : World = record w { mailboxes = assign p box' w.mailboxes } in
        if length m'.meta.from == 1
        then (elim (send f w' [] o m') [
          | answered w'' b ↦ send_boxes f w'' o boxes true
          | relocked ↦ relocked
          | dangling ↦ dangling
          | aborted ↦ aborted
          | out_of_fuel ↦ out_of_fuel
        ])
        else aborted
  ]
]
