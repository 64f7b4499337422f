-- ===== src/UserService/Pings.antt =====
-- user/user_service.cpp: `received_ping`, and the loop of `ping_thread` over the contacts.
-- Each holds `_ping_mutex` while it changes a contact; what it does after that is part of the step.
use firestr.Prelude.{
  ℕ, ◌+◌, ◌%◌, ◌^◌, Bool, true, false, not, ◌||◌, List, [], ◌∷◌, Bytes, bytes_key, Option, none,
  some, Outcome, ok, thrown, aborted, ◌>>=◌, ◌>>◌, require, if◌then◌else◌, ◌==◌, ltb, length, codes,
}
use firestr.Prelude.Maps.{find}
use firestr.Envelope.{
  Message, SourceType, EncryptionType, local, remote, conversation, asymmetric, symmetric,
  plaintext,
}
use firestr.Messages.{is_type, text_at}
use firestr.Security.Botan.{Botan}
use firestr.User.Contacts.{UserInfo}
use firestr.UserService.State.{
  ContactState, ContactData, offline, connecting, connected, UserService, Done, and_then, with_data,
  send_event, contact_activity_changed, available, ping_thresh, is_connecting,
  fire_contact_connected_event, fire_contact_disconnected_event,
}

-- `is_remote` and `is_symmetric` of message/message.cpp, and `expect_`.
unfoldable pub is_remote : SourceType → Bool
is_remote local = false
is_remote remote = true

unfoldable pub is_symmetric : EncryptionType → Bool
is_symmetric conversation = false
is_symmetric asymmetric = false
is_symmetric symmetric = true
is_symmetric plaintext = false

abbrev pub expect : Bool → Outcome (Unit {0})
expect true = ok tt
expect false = thrown

pub record Ping : Type 0 where
  pub from_id : Bytes
  pub state : ℕ

-- `m.data.size() == 1 ? m.data[0] : DISCONNECTED`
unfoldable pub ping_state : Bytes → ℕ
ping_state [] = b'd'
ping_state (c ∷ []) = c
ping_state (c ∷ d ∷ cs) = b'd'

-- The contracts and the tests of `received_ping`, and `convert`.
unfoldable pub read_ping : Message → Outcome Ping
unfolding is_remote is_symmetric ping_state
read_ping m = do
  require (is_type (codes "!") m)
  expect (is_remote m.meta.source)
  expect (is_symmetric m.meta.encryption)
  require (ltb 1 (length m.meta.from))
  from_id ← text_at (codes "from_id") m.meta.extra
  ok (record { from_id = from_id; state = ping_state m.content })

-- The `switch` on the state of the ping.
unfoldable pub hear : ℕ → ContactData → ContactData
hear c cd =
    if c == b'i'
    then record cd { last_ping = 0; idle = true }
    else if c == b'c'
    then record cd { last_ping = 0; idle = false }
    else if c == b'd'
    then record cd { last_ping = ping_thresh + ping_thresh }
    else record cd { last_ping = 0 }

abbrev pub differ : Bool → Bool → Bool
differ true y = not y
differ false y = y

abbrev pub keys_of : List (Bytes × ContactData) → List Bytes
keys_of [] = []
keys_of ((k, cd) ∷ m) = k ∷ keys_of m

module _ (b : Botan) where
  -- The events that follow a change, where the first test is `fire_event` and the second `cur_state`.
  unfoldable pub fire_state : Bool → Bool → Bytes → UserService b → Done b (Unit {0})
  fire_state true true id s = fire_contact_connected_event b id s
  fire_state true false id s = fire_contact_disconnected_event b id s
  fire_state false cur id s = (ok tt, s)

  -- What follows the change from cd to cd'.
  unfoldable pub after_ping : Bytes → ContactData → ContactData → UserService b → Done b (Unit {0})
  unfolding fire_state
  after_ping id cd cd' s =
      let cur = available cd'.last_ping in
      and_then b
        (fire_state (differ cur (available cd.last_ping) || is_connecting cd'.state) cur id s)
        (λ _ s'. (
          ok tt,
          if differ cd.idle cd'.idle then send_event b (contact_activity_changed id) s' else s',
        ))

  unfoldable pub hear_from :
      Option UserInfo → Bytes → ℕ → ContactData → UserService b → Done b (Unit {0})
  unfolding hear after_ping
  hear_from none id c cd s = (ok tt, s)
  hear_from (some _) id c cd s = let cd' = hear c cd in after_ping id cd cd' (with_data b id cd' s)

  unfoldable pub heard : Ping → UserService b → Done b (Unit {0})
  unfolding hear_from
  heard p s = elim (find p.from_id s.contacts) [
    | none ↦ (ok tt, s)
    | some cd ↦ hear_from cd.contact p.from_id p.state cd s
  ]

  abbrev pub from_outcome : {A : Type 0} → Outcome A → UserService b → Done b A
  from_outcome o s = (o, s)

  unfoldable pub received_ping : Message → UserService b → Done b (Unit {0})
  unfolding read_ping heard
  received_ping m s = and_then b (from_outcome (read_ping m) s) heard

  -- The body of the loop of `ping_thread`, for a contact that is not offline.
  unfoldable pub tick_data : Bytes → ContactData → UserService b → Done b (Unit {0})
  tick_data id cd s =
      let prev = available cd.last_ping in
      let cd' : ContactData = record cd { last_ping = (cd.last_ping + 1) % 2 ^ 64 } in
      let cur = available cd'.last_ping in
      let s' = with_data b id cd' s in
      if differ cur prev
      then (if cur then (aborted, s') else fire_contact_disconnected_event b id s')
      else (ok tt, s')

  unfoldable pub tick_from :
      ContactState → Option UserInfo → Bytes → ContactData → UserService b → Done b (Unit {0})
  unfolding tick_data
  tick_from offline p id cd s = (ok tt, s)
  tick_from connecting none id cd s = (ok tt, s)
  tick_from connected none id cd s = (ok tt, s)
  tick_from connecting (some _) id cd s = tick_data id cd s
  tick_from connected (some _) id cd s = tick_data id cd s

  unfoldable pub tick_one : Bytes → UserService b → Done b (Unit {0})
  unfolding tick_from
  tick_one id s = elim (find id s.contacts) [
    | none ↦ (ok tt, s)
    | some cd ↦ tick_from cd.state cd.contact id cd s
  ]

  unfoldable pub tick_all : List Bytes → UserService b → Done b (Unit {0})
  unfolding tick_one
  tick_all [] s = (ok tt, s)
  tick_all (k ∷ ks) s = and_then b (tick_one k s) (λ _. tick_all ks)
