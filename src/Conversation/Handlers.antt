-- ===== src/Conversation/Handlers.antt =====
-- conversation/conversation_service.cpp: the handlers of the service, and the calls of its users.
-- An exception of a handler, which service/service.cpp catches, comes before any change.
use firestr.Prelude.{
  leb, require, Bool, true, false, List, [], ◌∷◌, Bytes, bytes_eq, bytes_key, none, some, Outcome,
  ok, thrown, aborted, out_of_fuel, ◌>>=◌, ◌>>◌, if◌then◌else◌, ◌==◌, length, ℤ, pos, negsuc,
}
use firestr.Prelude.Maps.{find, assign, erase}
use firestr.Envelope.{EncryptionType}
use firestr.User.Contacts.{UserInfo, ContactList, no_contacts, by_id, add_contact, has_contact}
use firestr.UserService.Pings.{is_symmetric, expect}
use firestr.Conversation.{
  ReqState, know, dont_know, CliqueStatus, part, not_part, unsure, know_contact, part_of_clique,
}
use firestr.Conversation.Members.{Conversation, new_conversation, remove_member}
use firestr.Conversation.Service.{
  Body, sync_msg, quit_msg, ask_contact_req, ask_contact_res, app_request, Letter, Out, fire,
  new_conversation_event, quit_conversation_event, contact_removed, not_part_of_clique, id_of,
  send_to, send_all, admit, add_contacts, needed, request_apps,
}

-- `user_contacts` is `_user_service->user().contacts()`, and `posted` are the mailboxes that were
-- added to the post office.
pub record ConversationService : Type 0 where
  pub user_contacts : ContactList
  pub my_id : Bytes
  pub conversations : List (Bytes × Conversation)
  pub posted : List Bytes
  pub out : Out

pub record Received : Type 0 where
  pub encryption : EncryptionType
  pub from_id : Bytes
  pub letter : Letter

-- The change of a conversation that the map leads to.
abbrev pub keep : Bytes → ConversationService → Conversation × Out → ConversationService
keep k s r = record s { conversations = assign k r.0 s.conversations; out = r.1 }

unfoldable pub add_all : List UserInfo → ContactList → ContactList
add_all [] l = l
add_all (c ∷ cs) l = add_all cs (add_contact c l).1

-- `contact_list(const users&)`
unfoldable pub contact_list_of : List UserInfo → Outcome ContactList
unfolding add_all
contact_list_of cs = do
  let l = add_all cs no_contacts
  require (length l.list == length l.index)
  require (leb (length l.list) (length cs))
  ok l

-- What follows in `sync_conversation` once the conversation is there.
unfoldable pub sync_with :
    Bool
    → Bytes
    → Bytes
    → List UserInfo
    → List Bytes
    → ConversationService
    → Conversation
    → Outcome ConversationService
unfolding add_contacts fire needed request_apps
sync_with is_new from_id id cs apps s v = do
  r ← add_contacts s.user_contacts cs v s.out
  o1 ← (if is_new then fire (new_conversation_event id) r.1 else ok r.1)
  o2 ← request_apps s.user_contacts from_id (needed apps r.0) r.0 o1
  ok (record (keep id s (r.0, o2)) { posted = if is_new then id ∷ s.posted else s.posted })

unfoldable pub sync_conversation :
    Bytes → Bytes → List UserInfo → List Bytes → ConversationService → Outcome ConversationService
unfolding contact_list_of new_conversation sync_with
sync_conversation from_id id cs apps s = do
  l ← contact_list_of cs
  (elim (find id s.conversations) [
    | none ↦ new_conversation id >>= sync_with true from_id id l.list apps s
    | some v ↦ sync_with false from_id id l.list apps s v
  ])

-- The loop of `received_sync`.
unfoldable pub known_contacts : List Bytes → ConversationService → List UserInfo
known_contacts [] s = []
known_contacts (id ∷ ids) s =
    let rest = known_contacts ids s in
    if bytes_eq id s.my_id
    then rest
    else elim (by_id id s.user_contacts) [ none ↦ rest | some c ↦ c ∷ rest ]

unfoldable pub received_sync :
    Bytes → Bytes → List Bytes → List Bytes → ConversationService → Outcome ConversationService
unfolding known_contacts sync_conversation
received_sync from_id k ids apps s = elim (by_id from_id s.user_contacts) [
  | none ↦ ok s
  | some c ↦ sync_conversation from_id k (c ∷ known_contacts ids s) apps s
]

unfoldable pub received_quit : Bytes → Bytes → ConversationService → Outcome ConversationService
unfolding remove_member fire
received_quit from_id k s = elim (by_id from_id s.user_contacts) [
  | none ↦ ok s
  | some c ↦ elim (find k s.conversations) [
    | none ↦ ok s
    | some v ↦ do
      w ← remove_member from_id v
      o ← fire (contact_removed k from_id) s.out
      ok (keep k s (w, o))
  ]
]

unfoldable pub received_ask_contact_req :
    Bytes → Bytes → Bytes → ConversationService → Outcome ConversationService
unfolding has_contact send_to
received_ask_contact_req from_id k id s =
    if has_contact from_id s.user_contacts
    then elim (find k s.conversations) [
      | none ↦ ok s
      | some v ↦
          let status = if has_contact id s.user_contacts then pos 1 else pos 0 in
          let r : Letter = record { conversation_id = k; body = ask_contact_res id status } in
          ok (record s { out = send_to s.user_contacts from_id r s.out })
    ]
    else ok s

-- `r.status == 1 ? know_request::KNOW : know_request::DONT_KNOW`
unfoldable pub answer_of : ℤ → ReqState
answer_of (pos n) = if n == 1 then know else dont_know
answer_of (negsuc n) = dont_know

-- The `switch` on the verdict.
unfoldable pub act_on :
    ContactList → CliqueStatus → UserInfo → Conversation → Out → Outcome (Conversation × Out)
unfolding admit fire id_of
act_on users q c v o = elim q.is_part [
  | part ↦ admit users c v o
  | not_part ↦ do k ← id_of v; o' ← fire (not_part_of_clique k c.id q.contacts) o; ok (v, o')
  | unsure ↦ ok (v, o)
]

-- `part_of_clique`, with the contract of `contact_list::size`.
unfoldable pub clique_of : Bytes → Conversation → Outcome CliqueStatus
unfolding part_of_clique
clique_of id v = elim (find id v.pending_adds) [
  | none ↦ ok (record { is_part = unsure; contacts = [] })
  | some a ↦ do
    require (length v.contacts.list == length v.contacts.index)
    ok (part_of_clique id (length v.contacts.list) v.pending_adds)
]

unfoldable pub answered :
    Bytes
    → Bytes
    → ReqState
    → UserInfo
    → ConversationService
    → Conversation
    → Outcome (Conversation × Out)
unfolding know_contact clique_of act_on
answered from_id id answer c s v =
    let w : Conversation = record v {
      pending_adds = know_contact id from_id answer v.pending_adds;
    } in
    clique_of id w >>= λ q. act_on s.user_contacts q c w s.out

unfoldable pub received_ask_contact_res :
    Bytes → Bytes → Bytes → ℤ → ConversationService → Outcome ConversationService
unfolding answered answer_of
received_ask_contact_res from_id k id status s = elim (by_id from_id s.user_contacts) [
  | none ↦ ok s
  | some f ↦ elim (by_id id s.user_contacts) [
    | none ↦ ok s
    | some c ↦ elim (find k s.conversations) [
      | none ↦ ok s
      | some v ↦ do r ← answered from_id id (answer_of status) c s v; ok (keep k s r)
    ]
  ]
]

-- The handlers that `init_handlers` sets; a message of another type has none.
unfoldable pub dispatch : Body → Bytes → Bytes → ConversationService → Outcome ConversationService
unfolding received_sync received_quit received_ask_contact_req received_ask_contact_res
dispatch (sync_msg ids apps) from_id k s = received_sync from_id k ids apps s
dispatch quit_msg from_id k s = received_quit from_id k s
dispatch (ask_contact_req id) from_id k s = received_ask_contact_req from_id k id s
dispatch (ask_contact_res id status) from_id k s = received_ask_contact_res from_id k id status s
dispatch (app_request a) from_id k s = ok s

unfoldable pub receive : Received → ConversationService → Outcome ConversationService
unfolding dispatch
receive m s =
    expect (is_symmetric m.encryption)
    >> dispatch m.letter.body m.from_id m.letter.conversation_id s

-- The loop of service/service.cpp, which catches an exception and goes on.
abbrev pub caught : Outcome ConversationService → ConversationService → Outcome ConversationService
caught (ok s') s = ok s'
caught thrown s = ok s
caught aborted s = aborted
caught out_of_fuel s = out_of_fuel

-- `create_conversation` with contacts, where the id is a new one.
unfoldable pub create_conversation :
    Bytes → List UserInfo → ConversationService → Outcome ConversationService
unfolding sync_conversation
create_conversation id cs s = do
  s' ← sync_conversation [] id cs [] s
  ok (elim (find id s'.conversations) [
    | none ↦ s'
    | some v ↦ record s' {
      conversations = assign id (record v { initiated_by_user = true }) s'.conversations;
    }
  ])

unfoldable pub quit_conversation : Bytes → ConversationService → Outcome ConversationService
unfolding id_of send_all fire
quit_conversation k s = elim (find k s.conversations) [
  | none ↦ ok s
  | some v ↦ do
    id ← id_of v
    let m : Letter = record { conversation_id = id; body = quit_msg }
    o ← fire (quit_conversation_event k) (send_all s.user_contacts v.contacts.list m s.out)
    ok (record s { conversations = erase k s.conversations; out = o })
]

-- What the threads of the program ask of the service.
pub data Call : Type 0 where
  got : Received → Call
  opened : Bytes → List UserInfo → Call
  ended : Bytes → Call

unfoldable pub call : Call → ConversationService → Outcome ConversationService
unfolding receive create_conversation quit_conversation
call (got m) s = caught (receive m s) s
call (opened id cs) s = create_conversation id cs s
call (ended k) s = quit_conversation k s

unfoldable pub call_all : List Call → ConversationService → Outcome ConversationService
unfolding call
call_all [] s = ok s
call_all (c ∷ cs) s = call c s >>= call_all cs
