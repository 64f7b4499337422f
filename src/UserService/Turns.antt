-- ===== src/UserService/Turns.antt =====
-- user/user_service.cpp: the pings that are sent, and a turn of `ping_thread`.
use firestr.Prelude.{
  ◌+◌, ℕ, Bool, true, false, not, ◌||◌, ◌&&◌, List, [], ◌∷◌, Bytes, bytes_key, Option, none, some,
  Outcome, ok, aborted, if◌then◌else◌, ◌==◌, ltb, codes,
}
use firestr.Prelude.Maps.{find}
use firestr.Mencode.Value.{blob, no_entries, assign}
use firestr.Envelope.{Message, symmetric}
use firestr.Mail.Mailbox.{push_outbox}
use firestr.Messages.{new_message}
use firestr.Security.Botan.{Botan}
use firestr.Security.Channels.{Channel, get_channel}
use firestr.Security.Secret.{ready}
use firestr.User.Contacts.{UserInfo, by_id}
use firestr.UserService.State.{
  ContactState, ContactData, offline, connecting, connected, UserService, Done, and_then, with_data,
  ping_ticks,
}
use firestr.UserService.Pings.{Ping, keys_of, tick_all}

-- `user_info::address`
unfoldable pub address_of : UserInfo → Bytes
address_of u = elim u.addresses [ [] ↦ [] | a ∷ _ ↦ a ]

-- `convert` of a ping to the address, with the encryption that `send_ping_to` sets.
unfoldable pub ping_message : Bytes → Ping → Message
ping_message to r =
    let m =
      new_message (codes "!") (assign (codes "from_id") (blob r.from_id) no_entries)
        (r.state ∷ []) in
    record m {
      meta = record m.meta { to = to ∷ codes "user_service" ∷ []; encryption = symmetric };
    }

abbrev pub is_offline : ContactState → Bool
is_offline offline = true
is_offline connecting = false
is_offline connected = false

module _ (b : Botan) where
  -- From the look at the channel on, for the contact that the pointer leads to.
  unfoldable pub send_ping_through :
      ℕ → Bytes → ContactData → UserInfo → UserService b → Outcome (Channel b) → Done b (Unit {0})
  unfolding address_of ping_message
  send_ping_through st id cd c s (ok ch) =
      if ready b ch.shared_secret
      then elim (by_id c.id s.user_contacts) [
        | none ↦ (ok tt, with_data b id (record cd { contact = none }) s)
        | some _ ↦
            let m = ping_message (address_of c) (record { from_id = s.my_id; state = st }) in
            (ok tt, record s { mail = push_outbox m s.mail })
      ]
      else (aborted, s)
  send_ping_through st id cd c s Outcome.thrown = (Outcome.thrown, s)
  send_ping_through st id cd c s aborted = (aborted, s)
  send_ping_through st id cd c s Outcome.out_of_fuel = (Outcome.out_of_fuel, s)

  unfoldable pub send_ping_at :
      ℕ → Bytes → Bool → ContactData → Option UserInfo → UserService b → Done b (Unit {0})
  unfolding send_ping_through address_of
  send_ping_at st id force cd none s = (ok tt, s)
  send_ping_at st id force cd (some c) s =
      if is_offline cd.state && not force
      then (ok tt, s)
      else send_ping_through st id cd c s (get_channel b s.channels (address_of c))

  unfoldable pub send_ping_to : ℕ → Bytes → Bool → UserService b → Done b (Unit {0})
  unfolding send_ping_at
  send_ping_to st id force s = elim (find id s.contacts) [
    | none ↦ (ok tt, s)
    | some cd ↦ send_ping_at st id force cd cd.contact s
  ]

  -- The loop of `send_ping` over the contacts.
  unfoldable pub send_pings : ℕ → List Bytes → UserService b → Done b (Unit {0})
  unfolding send_ping_to
  send_pings st [] s = (ok tt, s)
  send_pings st (k ∷ ks) s = and_then b (send_ping_to st k false s) (λ _. send_pings st ks)

  unfoldable pub send_ping : ℕ → UserService b → Done b (Unit {0})
  unfolding send_pings
  send_ping st s =
      if st == b'c' || st == b'd' || st == b'i'
      then send_pings st (keys_of s.contacts) s
      else (aborted, s)

  -- The pings of a turn, by `send_ticks`, with `send_ticks` after them. Whether the user is idle is
  -- an argument.
  unfoldable pub send_turn : Bool → ℕ → UserService b → Done b ℕ
  unfolding send_ping
  send_turn idle n s =
      if ltb ping_ticks n
      then and_then b (send_ping (if idle then b'i' else b'c') s) (λ _ s'. (ok 0, s'))
      else (ok (n + 1), s)

  unfoldable pub ping_turn : Bool → ℕ → UserService b → Done b ℕ
  unfolding send_turn tick_all
  ping_turn idle n s =
      and_then b (send_turn idle n s)
        (λ n' s'. and_then b (tick_all b (keys_of s'.contacts) s') (λ _ s''. (ok n', s'')))
