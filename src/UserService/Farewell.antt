-- ===== src/UserService/Farewell.antt =====
-- user/user_service.cpp: a contact that is offline says that it disconnects, and then that it is
-- connected.
use firestr.Prelude.{
  ℕ, ◌≤◌, ◌≡◌, refl, ap, ◌∙◌, Bool, true, false, [], ◌∷◌, Bytes, bytes_key, some, Outcome, ok,
  aborted, if◌then◌else◌,
}
use firestr.Prelude.Maps.{find, assign, find-assign_same}
use firestr.Envelope.{Message}
use firestr.Security.Botan.{Botan}
use firestr.User.Contacts.{UserInfo, by_id}
use firestr.UserService.State.{
  ContactData, offline, UserService, Done, and_then, with_data, send_event, contact_connected,
  contact_activity_changed, available, ping_thresh, fire_contact_connected_event,
  fire_contact_disconnected_event, connected_contact, connect_from, disconnect_from, or_blank,
}
use firestr.UserService.Pings.{
  Ping, read_ping, received_ping, hear, differ, heard, after_ping, fire_state,
}
use firestr.UserService.Heard.{available_iff, heard_there}
use firestr.UserService.Runs.{pinged, run, go_on}

differ_same : (x : Bool) → differ x x ≡ false
differ_same true = refl
differ_same false = refl

module _ (b : Botan) where
  and_then-aborted :
      {A : Type 0} (r : Done b A) (k : A → UserService b → Done b (Unit {0}))
      → r.0 ≡ aborted
      → (and_then b r k).0 ≡ aborted
  and_then-aborted (ok a, s) k e = cc e
  and_then-aborted (Outcome.thrown, s) k e = cc e
  and_then-aborted (aborted, s) k e = refl
  and_then-aborted (Outcome.out_of_fuel, s) k e = cc e

  abbrev farewell : ContactData → ContactData
  farewell cd = record cd { last_ping = 120 }

  disconnect_offline :
      (id : Bytes) (cd : ContactData) (s : UserService b)
      → find id s.contacts ≡ some cd
      → cd.state ≡ offline
      → (c : UserInfo) → by_id id s.user_contacts ≡ some c
      → fire_contact_disconnected_event b id s ≡ (ok tt, with_data b id cd s)
  unfolding fire_contact_disconnected_event disconnect_from
  disconnect_offline id cd s e o c l =
      rw (l, fire_contact_disconnected_event)
        (ap
            (λ x.
              let y = or_blank x in disconnect_from b y.state y.contact id y (with_data b id y s))
            e
          ∙ ap (λ q. disconnect_from b q cd.contact id cd (with_data b id cd s)) o)

  heard-farewell :
      (id : Bytes) (cd : ContactData) (s : UserService b) (c u : UserInfo)
      → find id s.contacts ≡ some cd
      → cd.state ≡ offline
      → cd.contact ≡ some u
      → cd.last_ping ≤ ping_thresh
      → by_id id s.user_contacts ≡ some c
      → heard b (record { from_id = id; state = b'd' }) s
        ≡ (ok tt, with_data b id (farewell cd) (with_data b id (farewell cd) s))
  unfolding after_ping fire_state hear available
  heard-farewell id cd s c u e o h r l =
      let prev : available cd.last_ping ≡ true = (available_iff cd.last_ping).1 r in
      let s' = with_data b id (farewell cd) s in
      heard_there b id b'd' cd s u e h
      ∙ rw (prev, differ_same cd.idle)
          (ap (λ x. and_then b x (λ _ s''. (ok tt, s'')))
            (disconnect_offline id (farewell cd) s' (find-assign_same id (farewell cd) s.contacts) o
              c l))

  connect_offline :
      (id : Bytes) (cd : ContactData) (s : UserService b) (c : UserInfo)
      → find id s.contacts ≡ some cd
      → cd.state ≡ offline
      → by_id id s.user_contacts ≡ some c
      → c.id ≡ id
      → (fire_contact_connected_event b id s).0 ≡ aborted
  unfolding fire_contact_connected_event connected_contact connect_from
  connect_offline id cd s c e o l n =
      let e' : find c.id s.contacts ≡ some cd = ap (λ i. find i s.contacts) n ∙ e in
      let same : connected_contact b id s ≡ (aborted, with_data b c.id cd s) =
        rw (l, connected_contact)
          (ap (λ x. let y = or_blank x in connect_from b y.state c y (with_data b c.id y s)) e'
            ∙ ap (λ q. connect_from b q c cd (with_data b c.id cd s)) o) in
      ap
        (λ r.
          (and_then b r (λ changed s'.
            (ok tt, if changed then send_event b (contact_connected id) s' else s'))).0)
        same

  heard_again :
      (id : Bytes) (cd : ContactData) (s : UserService b) (c u : UserInfo)
      → find id s.contacts ≡ some cd
      → cd.state ≡ offline
      → cd.contact ≡ some u
      → available cd.last_ping ≡ false
      → by_id id s.user_contacts ≡ some c
      → c.id ≡ id
      → (heard b (record { from_id = id; state = b'c' }) s).0 ≡ aborted
  unfolding after_ping fire_state hear available
  heard_again id cd s c u e o h prev l n =
      let cd' : ContactData = record cd { last_ping = 0; idle = false } in
      let s' = with_data b id cd' s in
      ap (λ r. r.0) (heard_there b id b'c' cd s u e h)
      ∙ rw prev (
          and_then-aborted (fire_contact_connected_event b id s')
            (λ _ s''. (
              ok tt,
              if differ cd.idle false then send_event b (contact_activity_changed id) s'' else s'',
            ))
            (connect_offline id cd' s' c (find-assign_same id cd' s.contacts) o l n))

  go_on-aborted :
      (n : ℕ) (r : Done b (Unit {0})) (k : ℕ → UserService b → Done b ℕ)
      → r.0 ≡ aborted
      → (and_then b (go_on b n r) k).0 ≡ aborted
  go_on-aborted n (ok tt, s) k e = cc e
  go_on-aborted n (Outcome.thrown, s) k e = cc e
  go_on-aborted n (aborted, s) k e = refl
  go_on-aborted n (Outcome.out_of_fuel, s) k e = cc e

  received :
      (m : Message) (p : Ping) (s : UserService b)
      → read_ping m ≡ ok p
      → received_ping b m s ≡ heard b p s
  unfolding received_ping
  received m p s e = ap (λ o. and_then b (o, s) (heard b)) e

  -- Where a contact of the user is offline, has its pointer and is not past the ping threshold, a
  -- message that received_ping reads as a ping of it with the state 'd', followed by one that is
  -- read as a ping of it with the state 'c', fails a contract, which ends the process.
  pub run_farewell :
      (m m' : Message) (n : ℕ) (id : Bytes) (cd : ContactData) (s : UserService b) (c u : UserInfo)
      → read_ping m ≡ ok (record { from_id = id; state = b'd' })
      → read_ping m' ≡ ok (record { from_id = id; state = b'c' })
      → find id s.contacts ≡ some cd
      → cd.state ≡ offline
      → cd.contact ≡ some u
      → cd.last_ping ≤ ping_thresh
      → by_id id s.user_contacts ≡ some c
      → c.id ≡ id
      → (run b (pinged m ∷ pinged m' ∷ []) n s).0 ≡ aborted
  unfolding available
  run_farewell m m' n id cd s c u p p' e o h r l k =
      let s' = with_data b id (farewell cd) (with_data b id (farewell cd) s) in
      let here : find id s'.contacts ≡ some (farewell cd) =
        find-assign_same id (farewell cd) (assign id (farewell cd) s.contacts) in
      let first : received_ping b m s ≡ (ok tt, s') =
        received m (record { from_id = id; state = b'd' }) s p
        ∙ heard-farewell id cd s c u e o h r l in
      let second : (received_ping b m' s').0 ≡ aborted =
        ap (λ x. x.0) (received m' (record { from_id = id; state = b'c' }) s' p')
        ∙ heard_again id (farewell cd) s' c u here o h refl l k in
      ap (λ x. (and_then b (go_on b n x) (run b (pinged m' ∷ []))).0) first
      ∙ go_on-aborted n (received_ping b m' s') (run b []) second
