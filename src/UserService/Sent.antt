-- ===== src/UserService/Sent.antt =====
-- user/user_service.cpp: the pings that a turn of `ping_thread` sends change no contact.
use firestr.Prelude.{
  ℕ, ◌≡◌, ◌≢◌, refl, sym, ap, ◌∙◌, subst, Bool, true, false, List, [], ◌∷◌, Bytes, bytes_key,
  Option, none, some, Outcome, ok, aborted, if◌then◌else◌, ltb, Bool-cases, Option-cases, inl, inr,
}
use firestr.Prelude.Maps.{find}
use firestr.Security.Botan.{Botan}
use firestr.Security.Channels.{Channel, get_channel}
use firestr.Security.Secret.{ready}
use firestr.User.Contacts.{UserInfo, by_id}
use firestr.UserService.State.{
  ContactState, ContactData, offline, UserService, Done, and_then, ping_ticks,
}
use firestr.UserService.Pings.{keys_of}
use firestr.UserService.Turns.{
  address_of, is_offline, send_ping_through, send_ping_at, send_ping_to, send_pings, send_ping,
  send_turn,
}
use firestr.UserService.Timed.{IsReady, IsTimed, IsTimed-frame}
use firestr.UserService.Heard.{offline-cases}

is_offline_live : (q : ContactState) → q ≢ offline → is_offline q ≡ false
is_offline_live offline n = absurd (n refl)
is_offline_live ContactState.connecting n = refl
is_offline_live ContactState.connected n = refl

module _ (b : Botan) where
  -- The service differs in its mailbox at most.
  pub record IsSame (s s' : UserService b) : Type 0 where
    pub contacts : s'.contacts ≡ s.contacts
    pub users : s'.user_contacts ≡ s.user_contacts
    pub channels : s'.channels ≡ s.channels

  IsSame-of : (s : UserService b) → IsSame s s
  IsSame-of s = record { contacts = refl; users = refl; channels = refl }

  IsSame-trans : (s t u : UserService b) → IsSame s t → IsSame t u → IsSame s u
  IsSame-trans s t u p q = record {
    contacts = q.contacts ∙ p.contacts;
    users = q.users ∙ p.users;
    channels = q.channels ∙ p.channels;
  }

  pub IsSame-IsTimed : (s s' : UserService b) → IsSame s s' → IsTimed b s → IsTimed b s'
  IsSame-IsTimed s s' p t = IsTimed-frame b s s' p.contacts p.users p.channels t

  abbrev IsQuiet : UserService b → Done b (Unit {0}) → Type 0
  IsQuiet s r = (r.0 ≡ ok tt) × IsSame s r.1

  send_ping_through-IsQuiet :
      (st : ℕ) (id : Bytes) (cd : ContactData) (c d : UserInfo) (s : UserService b) (ch : Channel b)
      → ready b ch.shared_secret ≡ true
      → by_id c.id s.user_contacts ≡ some d
      → IsQuiet s (send_ping_through b st id cd c s (ok ch))
  unfolding send_ping_through
  send_ping_through-IsQuiet st id cd c d s ch r l =
      rw (r, l, send_ping_through) (refl, record { contacts = refl; users = refl; channels = refl })

  send_ping_at-IsQuiet :
      (st : ℕ) (id : Bytes) (cd : ContactData) (p : Option UserInfo) (s : UserService b)
      → IsTimed b s
      → find id s.contacts ≡ some cd
      → p ≡ cd.contact
      → IsQuiet s (send_ping_at b st id false cd p s)
  unfolding send_ping_at get_channel
  send_ping_at-IsQuiet st id cd none s t e q = (refl, IsSame-of s)
  send_ping_at-IsQuiet st id cd (some c) s t e q = elim (offline-cases cd.state) [
    | inl o ↦
        let off : is_offline cd.state ≡ true = ap is_offline o in
        rw (off, send_ping_at) (refl, IsSame-of s)
    | inr n ↦
        let off = is_offline_live cd.state n in
        let (u, (h, (l, r))) = (t.each id cd e).held n in
        let same : u ≡ c = cc in
        let ready_there : IsReady b s.channels (address_of c) =
          subst (λ x. IsReady b s.channels (address_of x)) same r in
        let here : by_id c.id s.user_contacts ≡ some u =
          ap (λ x. by_id x.id s.user_contacts) (sym same)
          ∙ ap (λ i. by_id i s.user_contacts) (t.users.names id u l)
          ∙ l in
        let get : get_channel b s.channels (address_of c) ≡ ok ready_there.channel =
          rw (ready_there.there, get_channel) refl in
        rw (off, get, send_ping_at)
          (send_ping_through-IsQuiet st id cd c u s ready_there.channel ready_there.agreed here)
  ]

  send_ping_to-IsQuiet :
      (st : ℕ) (id : Bytes) (s : UserService b)
      → IsTimed b s
      → IsQuiet s (send_ping_to b st id false s)
  unfolding send_ping_to
  send_ping_to-IsQuiet st id s t = elim (Option-cases (find id s.contacts)) [
    | inl e ↦ rw (e, send_ping_to) (refl, IsSame-of s)
    | inr (cd, e) ↦ rw (e, send_ping_to) (send_ping_at-IsQuiet st id cd cd.contact s t e refl)
  ]

  IsQuiet-step :
      (s : UserService b) (r : Done b (Unit {0})) (k : Unit {0} → UserService b → Done b (Unit {0}))
      → IsQuiet s r
      → IsQuiet r.1 (k tt r.1)
      → IsQuiet s (and_then b r k)
  IsQuiet-step s (ok tt, t) k g f = (f.0, IsSame-trans s t (k tt t).1 g.1 f.1)
  IsQuiet-step s (Outcome.thrown, t) k g f = cc g.0
  IsQuiet-step s (aborted, t) k g f = cc g.0
  IsQuiet-step s (Outcome.out_of_fuel, t) k g f = cc g.0

  send_pings-IsQuiet :
      (st : ℕ) (ks : List Bytes) (s : UserService b)
      → IsTimed b s
      → IsQuiet s (send_pings b st ks s)
  unfolding send_pings
  send_pings-IsQuiet st [] s t = (refl, IsSame-of s)
  send_pings-IsQuiet st (k ∷ ks) s t =
      let g = send_ping_to-IsQuiet st k s t in
      let s1 = (send_ping_to b st k false s).1 in
      IsQuiet-step s (send_ping_to b st k false s) (λ _. send_pings b st ks) g
        (send_pings-IsQuiet st ks s1 (IsSame-IsTimed s s1 g.1 t))

  send_ping-IsQuiet :
      (idle : Bool) (s : UserService b)
      → IsTimed b s
      → IsQuiet s (send_ping b (if idle then b'i' else b'c') s)
  unfolding send_ping
  send_ping-IsQuiet true s t = send_pings-IsQuiet b'i' (keys_of s.contacts) s t
  send_ping-IsQuiet false s t = send_pings-IsQuiet b'c' (keys_of s.contacts) s t

  zeroed :
      (s : UserService b) (r : Done b (Unit {0}))
      → IsQuiet s r
      → ((n : ℕ) × ((and_then b {B = ℕ} r (λ _ s'. (ok 0, s'))).0 ≡ ok n))
        × IsSame s (and_then b {B = ℕ} r (λ _ s'. (ok 0, s'))).1
  zeroed s (ok tt, t) g = ((0, refl), g.1)
  zeroed s (Outcome.thrown, t) g = cc g.0
  zeroed s (aborted, t) g = cc g.0
  zeroed s (Outcome.out_of_fuel, t) g = cc g.0

  pub send_turn-IsSame :
      (idle : Bool) (n : ℕ) (s : UserService b)
      → IsTimed b s
      → ((m : ℕ) × ((send_turn b idle n s).0 ≡ ok m)) × IsSame s (send_turn b idle n s).1
  unfolding send_turn
  send_turn-IsSame idle n s t = elim (Bool-cases (ltb ping_ticks n)) [
    | inl h ↦ rw (h, send_turn) (zeroed s _ (send_ping-IsQuiet idle s t))
    | inr h ↦ rw (h, send_turn) (((_, refl), IsSame-of s))
  ]
