-- ===== src/UserService/State.antt =====
-- user/user_service.hpp and user/user_service.cpp: the state of a contact, and its changes.
-- An operation gives its outcome and the service after it, since the loop of service/service.cpp
-- catches an exception and what was changed before it stays.
use firestr.Prelude.{
  ℕ, ◌*◌, Bool, true, false, ℤ, pos, List, [], ◌∷◌, Bytes, bytes_key, Option, none, some, Outcome,
  ok, thrown, aborted, out_of_fuel, if◌then◌else◌, leb,
}
use firestr.Prelude.Maps.{find, assign}
use firestr.Envelope.{Message}
use firestr.Mail.Mailbox.{Mailbox}
use firestr.Security.Botan.{Botan}
use firestr.Security.Channels.{Channels, remove_channel}
use firestr.User.Contacts.{UserInfo, ContactList, by_id}

pub data ContactState : Type 0 where
  offline connecting connected : ContactState

-- `contact` is a pointer, which may be null.
pub record ContactData : Type 0 where
  pub state : ContactState
  pub contact : Option UserInfo
  pub last_ping : ℕ
  pub client_version : ℤ
  pub protocol_version : ℤ
  pub idle : Bool

pub data Event : Type 0 where
  contact_connected contact_activity_changed : Bytes → Event
  contact_disconnected : Bytes → Bytes → Event
  new_introduction : ℕ → Event

abbrev pub ping_ticks : ℕ
ping_ticks = 12

abbrev pub ping_thresh : ℕ
ping_thresh = 5 * ping_ticks

unfoldable pub available : ℕ → Bool
available ticks = leb ticks ping_thresh

-- What `_contacts[id]` makes for an id without an entry.
abbrev pub blank_data : ContactData
blank_data = record {
  state = offline;
  contact = none;
  last_ping = 0;
  client_version = pos 0;
  protocol_version = pos 0;
  idle = false;
}

abbrev pub or_blank : Option ContactData → ContactData
or_blank none = blank_data
or_blank (some cd) = cd

abbrev pub is_connected : ContactState → Bool
is_connected offline = false
is_connected connecting = false
is_connected connected = true

abbrev pub is_connecting : ContactState → Bool
is_connecting offline = false
is_connecting connecting = true
is_connecting connected = false

module _ (b : Botan) where
  -- `user_contacts` is `_user->contacts()` and `contacts` is `_contacts`; the events are those that
  -- were sent, the newest first.
  pub record UserService : Type 0 where
    pub user_contacts : ContactList
    pub my_id : Bytes
    pub contacts : List (Bytes × ContactData)
    pub channels : Channels b
    pub mail : Mailbox Message
    pub events : List Event

  abbrev pub Done : Type 0 → Type 0
  Done A = Outcome A × UserService

  abbrev pub and_then : {A B : Type 0} → Done A → (A → UserService → Done B) → Done B
  and_then (ok a, s) k = k a s
  and_then (thrown, s) k = (thrown, s)
  and_then (aborted, s) k = (aborted, s)
  and_then (out_of_fuel, s) k = (out_of_fuel, s)

  abbrev pub with_data : Bytes → ContactData → UserService → UserService
  with_data id cd s = record s { contacts = assign id cd s.contacts }

  abbrev pub send_event : Event → UserService → UserService
  send_event e s = record s { events = e ∷ s.events }

  unfoldable pub add_contact_data : UserInfo → UserService → UserService
  add_contact_data u =
      with_data u.id (record blank_data { contact = some u; last_ping = ping_thresh })

  unfoldable pub is_contact : (ContactData → Bool) → Bytes → UserService → Bool
  is_contact f id s = elim (find id s.contacts) [
    | none ↦ false
    | some cd ↦ elim cd.contact [ none ↦ false | some _ ↦ f cd ]
  ]

  unfoldable pub contact_available : Bytes → UserService → Bool
  unfolding is_contact
  contact_available = is_contact (λ cd. is_connected cd.state)

  unfoldable pub contact_idle : Bytes → UserService → Bool
  unfolding is_contact
  contact_idle = is_contact (λ cd. cd.idle)

  unfoldable pub is_contact_connecting : Bytes → UserService → Bool
  unfolding is_contact
  is_contact_connecting = is_contact (λ cd. is_connecting cd.state)

  unfoldable pub connecting_contact : Bytes → UserService → Done Bool
  connecting_contact id s = elim (by_id id s.user_contacts) [
    | none ↦ (ok false, s)
    | some c ↦ (
      ok true,
      with_data c.id
          (record (or_blank (find c.id s.contacts)) {
            idle = true;
            contact = some c;
            last_ping = 0;
            state = connecting;
          })
          s,
    )
  ]

  -- `contact_connected`, by the state before; the CHECK is that of an offline contact.
  unfoldable pub connect_from : ContactState → UserInfo → ContactData → UserService → Done Bool
  connect_from connected c cd s = (ok false, s)
  connect_from offline c cd s = (aborted, s)
  connect_from connecting c cd s = (
    ok true,
    with_data c.id (record cd { contact = some c; idle = true; last_ping = 0; state = connected })
        s,
  )

  unfoldable pub connected_contact : Bytes → UserService → Done Bool
  unfolding connect_from
  connected_contact id s = elim (by_id id s.user_contacts) [
    | none ↦ (ok false, s)
    | some c ↦
        let cd = or_blank (find c.id s.contacts) in connect_from cd.state c cd (with_data c.id cd s)
  ]

  unfoldable pub fire_contact_connected_event : Bytes → UserService → Done (Unit {0})
  unfolding connected_contact
  fire_contact_connected_event id s =
      and_then (connected_contact id s)
        (λ changed s'. (ok tt, if changed then send_event (contact_connected id) s' else s'))

  unfoldable pub remove_channels : List Bytes → UserService → UserService
  remove_channels [] s = s
  remove_channels (a ∷ as') s =
      remove_channels as' (record s { channels = remove_channel b s.channels a })

  -- `fire_contact_disconnected_event`, by the state before and the pointer.
  unfoldable pub disconnect_from :
      ContactState → Option UserInfo → Bytes → ContactData → UserService → Done (Unit {0})
  unfolding remove_channels
  disconnect_from offline p id cd s = (ok tt, s)
  disconnect_from connecting none id cd s = (aborted, s)
  disconnect_from connected none id cd s = (aborted, s)
  disconnect_from connecting (some p) id cd s =
      (ok tt, with_data id (record cd { state = offline; last_ping = ping_thresh }) s)
  disconnect_from connected (some p) id cd s = (
    ok tt,
    send_event (contact_disconnected id p.name) (
        remove_channels p.addresses
          (with_data id (record cd { state = offline; last_ping = ping_thresh }) s)),
  )

  unfoldable pub fire_contact_disconnected_event : Bytes → UserService → Done (Unit {0})
  unfolding disconnect_from
  fire_contact_disconnected_event id s = elim (by_id id s.user_contacts) [
    | none ↦ (ok tt, s)
    | some c ↦
        let cd = or_blank (find id s.contacts) in
        disconnect_from cd.state cd.contact id cd (with_data id cd s)
  ]
