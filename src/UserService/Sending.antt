-- ===== src/UserService/Sending.antt =====
-- user/user_service.cpp: the pings that are sent, and what one does where it arrives.
use firestr.Prelude.{
  ℕ, ◌≡◌, ◌≢◌, refl, ap, ◌∙◌, Bool, true, false, List, Bytes, bytes_key, some, ok, if◌then◌else◌,
  ◌==◌, ==_iff, ltb, length, arith, Bool-cases, inl, inr, ◌≤◌, ◌<◌,
}
use firestr.Prelude.Maps.{find, find-assign_same}
use firestr.Mencode.Value.{assign, at, as_string}
use firestr.Envelope.{Message, remote}
use firestr.Mail.Mailbox.{push_outbox}
use firestr.Messages.{text_at}
use firestr.Security.Botan.{Botan}
use firestr.Security.Channels.{Channel, get_channel}
use firestr.Security.Secret.{ready}
use firestr.User.Contacts.{UserInfo, by_id}
use firestr.UserService.State.{
  ContactData, connected, UserService, and_then, with_data, send_event, contact_activity_changed,
  available, ping_thresh, is_connecting,
}
use firestr.UserService.Pings.{
  Ping, is_remote, is_symmetric, ping_state, read_ping, hear, hear_from, heard, after_ping,
  fire_state, differ, received_ping,
}
use firestr.UserService.Turns.{
  address_of, ping_message, is_offline, send_ping_through, send_ping_at, send_ping_to,
}
use firestr.UserService.Heard.{available_iff, hear_lem, heard_there, fire_state-quiet}

-- Whether a contact is idle after a ping with the state.
abbrev heard_idle : ℕ → Bool → Bool
heard_idle st before = if st == b'i' then true else if st == b'c' then false else before

not_equal : (n k : ℕ) → n ≢ k → (n == k) ≡ false
not_equal n k d = elim (Bool-cases (n == k)) [ inl h ↦ absurd (d ((==_iff n k).0 h)) | inr h ↦ h ]

hear_awake :
    (st : ℕ) (cd : ContactData)
    → st ≢ b'd'
    → hear st cd ≡ record cd { last_ping = 0; idle = heard_idle st cd.idle }
unfolding hear
hear_awake st cd d = elim (Bool-cases (st == b'i')) [
  | inl i ↦ rw i refl
  | inr i ↦ elim (Bool-cases (st == b'c')) [
    | inl c ↦ rw (i, c) refl
    | inr c ↦ let n = not_equal st b'd' d in rw (i, c, n) refl
  ]
]

module _ (b : Botan) where
  -- A message as the receiver's post office hands it on: with the addresses that it came from.
  abbrev pub arrived : List Bytes → Message → Message
  arrived from m = record m { meta = record m.meta { from = from; source = remote } }

  send_ping_to_lem :
      (st : ℕ) (id : Bytes) (cd : ContactData) (c d : UserInfo) (ch : Channel b) (s : UserService b)
      → find id s.contacts ≡ some cd
      → cd.contact ≡ some c
      → cd.state ≡ connected
      → get_channel b s.channels (address_of c) ≡ ok ch
      → ready b ch.shared_secret ≡ true
      → by_id c.id s.user_contacts ≡ some d
      → send_ping_to b st id false s ≡ (
        ok tt,
        record s {
          mail =
              push_outbox
                (ping_message (address_of c) (record { from_id = s.my_id; state = st }))
                s.mail;
        },
      )
  unfolding send_ping_to send_ping_at send_ping_through
  send_ping_to_lem st id cd c d ch s e h q g r l =
      let off : is_offline cd.state ≡ false = ap is_offline q in
      rw (e, send_ping_to)
        (ap (λ p. send_ping_at b st id false cd p s) h
          ∙ rw (off, send_ping_at)
              (ap (send_ping_through b st id cd c s) g ∙ rw (r, l, send_ping_through) refl))

  pub read_ping-arrived :
      (from : List Bytes) (to : Bytes) (r : Ping)
      → 1 < length from
      → read_ping (arrived from (ping_message to r)) ≡ ok r
  unfolding read_ping ping_message is_remote is_symmetric ping_state text_at at assign as_string
  read_ping-arrived from to r n =
      let many : ltb 1 (length from) ≡ true = ground arith in rw (many, read_ping) refl

  activity-contacts :
      (changed : Bool) (id : Bytes) (t : UserService b)
      → (if changed then send_event b (contact_activity_changed id) t else t).contacts ≡ t.contacts
  activity-contacts true id t = refl
  activity-contacts false id t = refl

  -- A ping of a connected contact that does not say that it disconnects.
  heard_connected :
      (p : Ping) (cd : ContactData) (u : UserInfo) (t : UserService b)
      → find p.from_id t.contacts ≡ some cd
      → cd.contact ≡ some u
      → cd.state ≡ connected
      → cd.last_ping ≤ ping_thresh
      → p.state ≢ b'd'
      → ((heard b p t).0 ≡ ok tt)
        × (find p.from_id (heard b p t).1.contacts ≡ some (hear p.state cd))
  unfolding heard hear_from after_ping fire_state
  heard_connected p cd u t e h q n d =
      let id = p.from_id in
      let cd' = hear p.state cd in
      let s' = with_data b id cd' t in
      let (same, _, last) = hear_lem p.state cd in
      let no : (p.state == b'd') ≡ false = not_equal p.state b'd' d in
      let zero_ping : cd'.last_ping ≡ 0 = last ∙ rw no refl in
      let quiet =
        fire_state-quiet b (available cd'.last_ping) (available cd.last_ping)
          (is_connecting cd'.state) id s' ((available_iff cd'.last_ping).1 (omega arith))
          ((available_iff cd.last_ping).1 n) (ap is_connecting (same ∙ q)) in
      let changed = differ cd.idle cd'.idle in
      let whole : heard b p t
          ≡ (ok tt, if changed then send_event b (contact_activity_changed id) s' else s') =
        heard_there b id p.state cd t u e h
        ∙ ap
            (λ x. and_then b x (λ _ s''.
              (ok tt, if changed then send_event b (contact_activity_changed id) s'' else s'')))
            quiet in
      (
        ap (λ r. r.0) whole,
        ap (λ r. find id r.1.contacts) whole
            ∙ ap (find id) (activity-contacts changed id s')
            ∙ find-assign_same id cd' t.contacts,
      )

  -- The ping that send_ping_to hands to the mailbox for a connected contact in the contact list,
  -- with a channel whose secret is ready and a state other than 'd', fails no contract where it
  -- arrives with more than one address in front, from a connected contact within the ping
  -- threshold: it sets the ticks of the sender there back to 0 and leaves it connected.
  pub ping_keeps :
      (st : ℕ) (id : Bytes) (cd dt : ContactData) (c d u : UserInfo) (ch : Channel b)
      (s t : UserService b) (from : List Bytes)
      → find id s.contacts ≡ some cd
      → cd.contact ≡ some c
      → cd.state ≡ connected
      → get_channel b s.channels (address_of c) ≡ ok ch
      → ready b ch.shared_secret ≡ true
      → by_id c.id s.user_contacts ≡ some d
      → find s.my_id t.contacts ≡ some dt
      → dt.contact ≡ some u
      → dt.state ≡ connected
      → dt.last_ping ≤ ping_thresh
      → st ≢ b'd'
      → 1 < length from
      → (m : Message) × ((send_ping_to b st id false s
            ≡ (ok tt, record s { mail = push_outbox m s.mail }))
          × (((received_ping b (arrived from m) t).0 ≡ ok tt)
              × (find s.my_id (received_ping b (arrived from m) t).1.contacts
                  ≡ some (record dt { last_ping = 0; idle = heard_idle st dt.idle }))))
  unfolding received_ping
  ping_keeps st id cd dt c d u ch s t from e h q g r l e' h' q' n x many =
      let r' : Ping = record { from_id = s.my_id; state = st } in
      let m = ping_message (address_of c) r' in
      let got : received_ping b (arrived from m) t ≡ heard b r' t =
        ap (λ o. and_then b (o, t) (heard b)) (read_ping-arrived from (address_of c) r' many) in
      let (fine, there) = heard_connected r' dt u t e' h' q' n x in
      (
        m,
        (
          send_ping_to_lem st id cd c d ch s e h q g r l,
          (
            ap (λ o. o.0) got ∙ fine,
            ap (λ o. find s.my_id o.1.contacts) got ∙ there ∙ ap some (hear_awake st dt x),
          ),
        ),
      )
