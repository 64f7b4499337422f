-- ===== src/Post/Tests.antt =====
-- A master office with two child offices, and messages between them and from another peer.
use firestr.Prelude.{
  ℕ, min, ◌≡◌, refl, true, List, [], ◌∷◌, Bytes, some, arith, codes, bytes_key, nat_eq,
  if◌then◌else◌,
}
use firestr.Prelude.Maps.{find}
use firestr.Mencode.Value.{no_entries}
use firestr.Envelope.{Message, conversation, local}
use firestr.Mail.Queue.{empty_queue, push}
use firestr.Mail.Mailbox.{Mailbox, no_stats}
use firestr.Post.Office.{Office, World, new_office, with_office}
use firestr.Post.Send.{
  answered, relocked, address_as, push_from, live_child, out_counted, pop_own, send,
}
use firestr.Post.Effect.{Stored, send_stores}
use firestr.Post.Fuel.{IsRanked, Settled, send_terminates}
use firestr.Post.Steps.{with_letter}
use firestr.Post.Routes.{IsTree, Route, arrive, descend, send-Route}
use firestr.Post.Replies.{Siblings, reply_arrives}
use firestr.Post.Misrouted.{Below, send_relocks, send_missing}

abbrev pub box : Bytes → Mailbox Message
box a = record { address = a; inbox = empty_queue; outbox = empty_queue; stats = no_stats }

abbrev pub master : Office
master = record (new_office (codes "master")) {
  offices = (codes "chat", 1) ∷ (codes "files", 2) ∷ [];
  out = some empty_queue;
}

abbrev pub chat : Office
chat = record (new_office (codes "chat")) { boxes = (codes "ann", 5) ∷ []; parent = some 0 }

abbrev files : Office
files = record (new_office (codes "files")) { boxes = (codes "zoe", 6) ∷ []; parent = some 0 }

abbrev pub world : World
world = record {
  mailboxes = (5, box (codes "ann")) ∷ (6, box (codes "zoe")) ∷ [];
  posts = (0, master) ∷ (1, chat) ∷ (2, files) ∷ [];
}

abbrev pub letter : List Bytes → List Bytes → Message
letter to from = record {
  meta = record {
    type = codes "text";
    to = to;
    from = from;
    extra = no_entries;
    source = local;
    encryption = conversation;
    robust = true;
  };
  content = codes "hello";
}

abbrev pub rank : ℕ → ℕ
rank o = min o 1

pub world-IsTree : IsTree rank world
unfolding find live_child
world-IsTree = record { below = λ o c office a e g. ground arith }

world-IsRanked : IsRanked rank 1 world
unfolding find
world-IsRanked = record {
  bounded = λ o. omega arith;
  above = λ o p office e f. (ground arith, (master, ground arith));
}

abbrev to_ann : Message
to_ann = letter (codes "ann" ∷ []) []

send_stores_example :
    if true
    then Stored world to_ann (with_letter 5 (box (codes "ann")) to_ann world)
    else (world ≡ world)
unfolding find send pop_own
send_stores_example =
    send_stores 2 world [] 1 to_ann (with_letter 5 (box (codes "ann")) to_ann world) true refl

send_terminates_example : Settled (send 9 world [] 1 to_ann)
unfolding find
send_terminates_example =
    send_terminates rank 1 world world-IsRanked 9 [] 1 chat to_ann refl (omega arith)

-- From the outside, for a mailbox of the office `chat`.
abbrev incoming : Message
incoming = letter (codes "chat" ∷ codes "ann" ∷ []) (codes "bob" ∷ [])

incoming-Route :
    Route world 5
      (codes "ann")
      0
      incoming.meta.to
      incoming.meta.from
      (codes "master" ∷ codes "bob" ∷ [])
unfolding find pop_own live_child
incoming-Route =
    descend master (codes "chat") (codes "ann") [] refl refl refl (arrive chat refl refl)

send-Route_example :
    send 3 world [] 0 incoming
    ≡ answered
        (with_letter 5
          (box (codes "ann"))
          (address_as (codes "ann" ∷ []) (codes "master" ∷ codes "bob" ∷ []) incoming)
          world)
        true
unfolding find
send-Route_example =
    send-Route rank world 5 (codes "ann") (box (codes "ann")) 3 0 incoming
      (codes "master" ∷ codes "bob" ∷ []) world-IsTree refl incoming-Route (omega arith)

world-Siblings : Siblings world 0 1 2 master chat files
unfolding find live_child
world-Siblings = record {
  top_there = refl;
  first_there = refl;
  second_there = refl;
  first_up = refl;
  second_up = refl;
  first_child = refl;
  second_child = refl;
  second_stranger = refl;
  top_stranger = refl;
  second_not_first = refl;
  second_not_top = refl;
  top_not_second = refl;
}

abbrev question : Message
question = letter (codes "files" ∷ codes "zoe" ∷ []) (codes "ann" ∷ [])

abbrev answer : Message
answer = letter (codes "master" ∷ codes "chat" ∷ codes "ann" ∷ []) (codes "zoe" ∷ [])

reply_arrives_example :
    let got =
      address_as (codes "zoe" ∷ []) (codes "master" ∷ codes "chat" ∷ codes "ann" ∷ []) question in
    let world' = with_letter 6 (box (codes "zoe")) got world in
    (send 3 world [] 1 question ≡ answered world' true)
    × ((b : Mailbox Message) × (find 5 world'.mailboxes ≡ some b)
        × (send 3 world' [] 2 answer
            ≡ answered
                (with_letter 5 b
                  (address_as
                    (codes "ann" ∷ [])
                    (codes "master" ∷ codes "files" ∷ codes "zoe" ∷ [])
                    answer)
                  world')
                true))
unfolding find
reply_arrives_example =
    reply_arrives world 0 1 2 master chat files 0 5 6 (codes "ann") (codes "zoe")
      (box (codes "ann")) (box (codes "zoe")) question answer world-Siblings refl refl refl refl
      refl refl refl

chat-Below : Below world 0 1 master chat (codes "chat")
unfolding find live_child
chat-Below = record {
  there = refl;
  child_there = refl;
  known = refl;
  up = refl;
  not_own = refl;
  apart = refl;
}

abbrev lost : Message
lost = letter (codes "chat" ∷ codes "nobody" ∷ codes "ann" ∷ []) (codes "bob" ∷ [])

send_relocks_example : send 3 world [] 0 lost ≡ relocked
unfolding find live_child
send_relocks_example =
    send_relocks world 0 1 master chat (codes "chat") chat-Below 0 lost (codes "nobody")
      (codes "ann") [] refl refl refl refl

abbrev stray : Message
stray = letter (codes "chat" ∷ codes "nobody" ∷ []) (codes "bob" ∷ [])

send_missing_example :
    send 2 world [] 0 stray
    ≡ answered
        (with_office 0
          (record master {
            out = some (push (push_from (codes "master") stray) empty_queue);
            outside_stats = out_counted no_stats;
          })
          world)
        true
unfolding find
send_missing_example =
    send_missing world 0 1 master chat (codes "chat") chat-Below 0 stray (codes "nobody")
      empty_queue refl refl refl refl
