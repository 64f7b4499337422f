-- ===== src/UserService/Heard.antt =====
-- user/user_service.cpp: a ping that is heard, from a contact that is not offline or that does not say
-- that it disconnects.
use firestr.Prelude.{
  ℕ, ◌≤◌, ◌≡◌, ◌≢◌, refl, sym, ap, ◌∙◌, subst, Bool, true, false, ◌||◌, ◌⊎◌, ◌↔◌, Bytes, bytes_key,
  Option, none, some, Outcome, ok, if◌then◌else◌, arith, ◌==◌, ==_iff, Bool-cases, Option-cases,
  inl, inr,
}
use firestr.Prelude.Maps.{find, find-assign_same}
use firestr.Security.Botan.{Botan}
use firestr.User.Contacts.{UserInfo, by_id}
use firestr.UserService.State.{
  ContactState, ContactData, offline, connecting, connected, UserService, Done, and_then, with_data,
  send_event, contact_activity_changed, available, ping_thresh, is_connecting,
}
use firestr.UserService.Pings.{Ping, hear, differ, heard, hear_from, fire_state, after_ping}
use firestr.UserService.Turns.{address_of}
use firestr.UserService.Timed.{
  IsReady, IsTimedBut, IsTimed, IsTimedBut-of, IsTimed-frame, with_data-IsTimed,
  with_data-IsTimedBut, Ends,
}
use firestr.UserService.Changed.{disconnect-Ends, connect-Ends}

pub hear_lem :
    (c : ℕ) (cd : ContactData)
    → ((hear c cd).state ≡ cd.state)
      × ((hear c cd).contact ≡ cd.contact)
      × ((hear c cd).last_ping ≡ (if c == b'd' then 120 else 0))
unfolding hear
hear_lem c cd = ground arith

pub offline-cases : (q : ContactState) → (q ≡ offline) ⊎ (q ≢ offline)
offline-cases offline = inl refl
offline-cases connecting = inr (λ e. cc)
offline-cases connected = inr (λ e. cc)

pub available_iff : (n : ℕ) → (available n ≡ true) ↔ (n ≤ ping_thresh)
unfolding available
available_iff n = ground arith

module _ (b : Botan) where
  pub and_then_step :
      (r : Done b (Unit {0})) (k : Unit {0} → UserService b → Done b (Unit {0}))
      → r.0 ≡ ok tt
      → Ends b (k tt r.1)
      → Ends b (and_then b r k)
  and_then_step (ok tt, s) k e f = f
  and_then_step (Outcome.thrown, s) k e f = cc e
  and_then_step (Outcome.aborted, s) k e f = cc e
  and_then_step (Outcome.out_of_fuel, s) k e f = cc e

  pub and_then-Ends :
      (r : Done b (Unit {0})) (k : Unit {0} → UserService b → Done b (Unit {0}))
      → Ends b r
      → ((s : UserService b) → IsTimed b s → Ends b (k tt s))
      → Ends b (and_then b r k)
  and_then-Ends r k e f = and_then_step r k e.0 (f r.1 e.1)

  activity-Ends :
      (changed : Bool) (id : Bytes) (s : UserService b)
      → IsTimed b s
      → IsTimed b (if changed then send_event b (contact_activity_changed id) s else s)
  activity-Ends true id s t =
      IsTimed-frame b s (send_event b (contact_activity_changed id) s) refl refl refl t
  activity-Ends false id s t = t

  -- After a change to a contact that is not offline.
  fire_state-Ends :
      (f cur : Bool) (id : Bytes) (cd : ContactData) (s : UserService b) (u : UserInfo)
      → IsTimedBut b id s
      → (cur ≡ true → IsTimed b s)
      → (cur ≡ false → f ≡ true)
      → find id s.contacts ≡ some cd
      → by_id id s.user_contacts ≡ some u
      → IsReady b s.channels (address_of u)
      → cd.contact ≡ some u
      → cd.state ≢ offline
      → Ends b (fire_state b f cur id s)
  unfolding fire_state
  fire_state-Ends true true id cd s u but t d e l r h n = connect-Ends b id cd s u (t refl) e l r n
  fire_state-Ends true false id cd s u but t d e l r h n = disconnect-Ends b id cd s u but e l h n
  fire_state-Ends false true id cd s u but t d e l r h n = (refl, t refl)
  fire_state-Ends false false id cd s u but t d e l r h n = cc (d refl)

  pub heard_there :
      (id : Bytes) (n : ℕ) (cd : ContactData) (s : UserService b) (u : UserInfo)
      → find id s.contacts ≡ some cd
      → cd.contact ≡ some u
      → heard b (record { from_id = id; state = n }) s
        ≡ after_ping b id cd (hear n cd) (with_data b id (hear n cd) s)
  unfolding heard hear_from
  heard_there id n cd s u e h = rw (e, heard) (ap (λ p. hear_from b p id n cd s) h)

  pub fire_state-quiet :
      (x y z : Bool) (id : Bytes) (s : UserService b)
      → x ≡ true
      → y ≡ true
      → z ≡ false
      → fire_state b (differ x y || z) x id s ≡ (ok tt, s)
  unfolding fire_state
  fire_state-quiet x y z id s p q r = rw (p, q, r) refl

  after_ping-Ends :
      (id : Bytes) (c : ℕ) (cd : ContactData) (s : UserService b)
      → IsTimed b s
      → find id s.contacts ≡ some cd
      → (c ≡ b'd' → cd.state ≢ offline)
      → Ends b (after_ping b id cd (hear c cd) (with_data b id (hear c cd) s))
  unfolding after_ping
  after_ping-Ends id c cd s t e fair =
      let cd' = hear c cd in
      let s' = with_data b id cd' s in
      let (same, pointer, last) = hear_lem c cd in
      let d = t.each id cd e in
      let prev : available cd.last_ping ≡ true = (available_iff cd.last_ping).1 d.recent in
      and_then-Ends
        (fire_state b
          (differ (available cd'.last_ping) (available cd.last_ping) || is_connecting cd'.state)
          (available cd'.last_ping) id s')
        (λ _ s''. (
          ok tt,
          if differ cd.idle cd'.idle then send_event b (contact_activity_changed id) s'' else s'',
        ))
        (elim (offline-cases cd.state) [
          | inl off ↦
              let no : (c == b'd') ≡ false = elim (Bool-cases (c == b'd')) [
                | inl yes_d ↦ absurd (fair ((==_iff c b'd').0 yes_d) off)
                | inr n ↦ n
              ] in
              let zero_ping : cd'.last_ping ≡ 0 = last ∙ rw no refl in
              let cur : available cd'.last_ping ≡ true =
                (available_iff cd'.last_ping).1 (omega arith) in
              let quiet =
                fire_state-quiet (available cd'.last_ping) (available cd.last_ping)
                  (is_connecting cd'.state) id s' cur prev (ap is_connecting (same ∙ off)) in
              subst (Ends b) (sym quiet) (
                refl,
                with_data-IsTimed b id cd' s (IsTimedBut-of b id s t)
                    (record { recent = omega arith; held = λ m. absurd (m (same ∙ off)) }),
              )
          | inr n ↦
              let (u, (h, (l, r))) = d.held n in
              fire_state-Ends
                (differ (available cd'.last_ping) (available cd.last_ping)
                  || is_connecting cd'.state)
                (available cd'.last_ping) id cd' s' u
                (with_data-IsTimedBut b id cd' s (IsTimedBut-of b id s t))
                (λ q. with_data-IsTimed b id cd' s (IsTimedBut-of b id s t) (record {
                  recent = (available_iff cd'.last_ping).0 q;
                  held = λ _. (u, (pointer ∙ h, (l, r)));
                }))
                (λ q. rw (q, prev) refl) (find-assign_same id cd' s.contacts) l r (pointer ∙ h)
                (λ off. n (sym same ∙ off))
        ])
        (λ s'' t''. (refl, activity-Ends (differ cd.idle cd'.idle) id s'' t''))

  hear_from-Ends :
      (q : Option UserInfo) (id : Bytes) (c : ℕ) (cd : ContactData) (s : UserService b)
      → IsTimed b s
      → find id s.contacts ≡ some cd
      → (c ≡ b'd' → cd.state ≢ offline)
      → Ends b (hear_from b q id c cd s)
  unfolding hear_from
  hear_from-Ends none id c cd s t e fair = (refl, t)
  hear_from-Ends (some u) id c cd s t e fair = after_ping-Ends id c cd s t e fair

  pub heard-Ends :
      (p : Ping) (s : UserService b)
      → IsTimed b s
      → ((cd : ContactData)
          → find p.from_id s.contacts ≡ some cd
          → p.state ≡ b'd'
          → cd.state ≢ offline)
      → Ends b (heard b p s)
  unfolding heard
  heard-Ends p s t fair = elim (Option-cases (find p.from_id s.contacts)) [
    | inl e ↦ rw (e, heard) (refl, t)
    | inr (cd, e) ↦ rw (e, heard) (hear_from-Ends cd.contact p.from_id p.state cd s t e (fair cd e))
  ]
