-- ===== src/Conversation/Service.antt =====
-- conversation/conversation_service.hpp and conversation/conversation_service.cpp: the conversations,
-- and what the service does with what other peers send it. A structure stands for the message that
-- `to_message` makes of it, and a contact for the address to which the sender sends.
use firestr.Prelude.{
  not, ◌&&◌, List, [], ◌∷◌, Bytes, bytes_key, none, some, Outcome, ok, ◌>>=◌, ◌>>◌, require,
  if◌then◌else◌, ℤ,
}
use firestr.User.Contacts.{UserInfo, ContactList, by_id}
use firestr.Conversation.{asked_about, insert}
use firestr.Conversation.Members.{Conversation, AppMetadatum, is_empty, add_member, has_app}

-- The structures, less the conversation's id and the sender's.
pub data Body : Type 0 where
  sync_msg : List Bytes → List Bytes → Body
  quit_msg : Body
  ask_contact_req app_request : Bytes → Body
  ask_contact_res : Bytes → ℤ → Body

pub record Letter : Type 0 where
  pub conversation_id : Bytes
  pub body : Body

pub data Notice : Type 0 where
  new_conversation_event quit_conversation_event conversation_synced : Bytes → Notice
  contact_removed contact_added : Bytes → Bytes → Notice
  not_part_of_clique : Bytes → Bytes → List Bytes → Notice

-- What was sent and the events, the newest first.
pub record Out : Type 0 where
  pub sent : List (UserInfo × Letter)
  pub notices : List Notice

-- `fire_`, with the contracts on the ids.
unfoldable pub fire : Notice → Out → Outcome Out
unfolding is_empty
fire (new_conversation_event k) o = do
  require (not (is_empty k))
  ok (record o { notices = new_conversation_event k ∷ o.notices })
fire (quit_conversation_event k) o = do
  require (not (is_empty k))
  ok (record o { notices = quit_conversation_event k ∷ o.notices })
fire (conversation_synced k) o = do
  require (not (is_empty k))
  ok (record o { notices = conversation_synced k ∷ o.notices })
fire (contact_removed k c) o = do
  require (not (is_empty k))
  require (not (is_empty c))
  ok (record o { notices = contact_removed k c ∷ o.notices })
fire (contact_added k c) o = do
  require (not (is_empty k))
  require (not (is_empty c))
  ok (record o { notices = contact_added k c ∷ o.notices })
fire (not_part_of_clique k c cs) o = do
  require (not (is_empty k))
  require (not (is_empty c))
  require (not (is_empty cs))
  ok (record o { notices = not_part_of_clique k c cs ∷ o.notices })

abbrev pub ids_of : List UserInfo → List Bytes
ids_of [] = []
ids_of (c ∷ cs) = c.id ∷ ids_of cs

abbrev pub as_set : List Bytes → List Bytes
as_set [] = []
as_set (k ∷ ks) = insert k (as_set ks)

abbrev pub app_addresses : List (Bytes × AppMetadatum) → List Bytes
app_addresses [] = []
app_addresses ((k, d) ∷ m) = insert d.address (app_addresses m)

-- `s->id()`
unfoldable pub id_of : Conversation → Outcome Bytes
unfolding is_empty
id_of v = require (not (is_empty v.id)) >> ok v.id

-- The loop of `sync_conversation` over the applications.
unfoldable pub needed : List Bytes → Conversation → List Bytes
unfolding has_app
needed [] v = []
needed (a ∷ apps) v = let rest = needed apps v in if has_app a v then rest else insert a rest

-- The operations on one conversation, for a user with the given contacts.
module _ (users : ContactList) where
  -- `_sender->send`
  unfoldable pub send_to : Bytes → Letter → Out → Out
  send_to id m o = elim (by_id id users) [ none ↦ o | some c ↦ record o { sent = (c, m) ∷ o.sent } ]

  unfoldable pub send_all : List UserInfo → Letter → Out → Out
  unfolding send_to
  send_all [] m o = o
  send_all (c ∷ cs) m o = send_all cs m (send_to c.id m o)

  unfoldable pub sync_existing_conversation : Conversation → Out → Outcome Out
  unfolding send_all id_of
  sync_existing_conversation v o = do
    k ← id_of v
    ok (
        send_all v.contacts.list
          (record {
            conversation_id = k;
            body = sync_msg (as_set (ids_of v.contacts.list)) (app_addresses v.app_metadata);
          })
          o)

  -- `add_contact_to_conversation_p`
  unfoldable pub admit : UserInfo → Conversation → Out → Outcome (Conversation × Out)
  unfolding add_member sync_existing_conversation id_of fire
  admit c v o = elim (by_id c.id v.contacts) [
    | some d ↦ ok (v, o)
    | none ↦ do
      let w = add_member c v
      o1 ← sync_existing_conversation w o
      k ← id_of w
      o2 ← fire (conversation_synced k) o1
      o3 ← fire (contact_added k c.id) o2
      ok (w, o3)
  ]

  unfoldable pub ask_about : Bytes → Conversation → Out → Outcome (Conversation × Out)
  unfolding is_empty asked_about id_of send_all
  ask_about id v o = do
    require (not (is_empty id))
    let w : Conversation = record v {
      pending_adds = asked_about id (ids_of v.contacts.list) v.pending_adds;
    }
    k ← id_of w
    ok (w, send_all w.contacts.list (record { conversation_id = k; body = ask_contact_req id }) o)

  unfoldable pub add_contact_to_conversation :
      UserInfo → Conversation → Out → Outcome (Conversation × Out)
  unfolding admit ask_about is_empty
  add_contact_to_conversation c v o = elim (by_id c.id v.contacts) [
    | some d ↦ ok (v, o)
    | none ↦
        if is_empty v.contacts.list && is_empty v.pending_adds
        then admit c v o
        else ask_about c.id v o
  ]

  -- The loop of `sync_conversation` over the contacts.
  unfoldable pub add_contacts : List UserInfo → Conversation → Out → Outcome (Conversation × Out)
  unfolding add_contact_to_conversation
  add_contacts [] v o = ok (v, o)
  add_contacts (c ∷ cs) v o = do r ← add_contact_to_conversation c v o; add_contacts cs r.0 r.1

  unfoldable pub request_apps : Bytes → List Bytes → Conversation → Out → Outcome Out
  unfolding is_empty id_of send_to send_all
  request_apps from_id [] v o = ok o
  request_apps from_id (a ∷ apps) v o = do
    k ← id_of v
    let n : Letter = record { conversation_id = k; body = app_request a }
    request_apps from_id apps v
        (if is_empty from_id then send_all v.contacts.list n o else send_to from_id n o)
