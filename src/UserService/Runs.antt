-- ===== src/UserService/Runs.antt =====
-- user/user_service.cpp: any pings, turns of `ping_thread` and starts of connections.
use firestr.Prelude.{
  ap, subst, ltb, bytes_eq, arith, thrown, ◌⊎◌, ℕ, Bool, ◌<◌, length, codes, Outcome, aborted, ◌≡◌,
  ◌≢◌, refl, true, List, [], ◌∷◌, Bytes, bytes_key, some, ok, Bool-cases, inl, inr,
}
use firestr.Prelude.Maps.{find}
use firestr.Security.Botan.{Botan}
use firestr.User.Contacts.{UserInfo}
use firestr.UserService.State.{
  ContactData, offline, UserService, Done, and_then, connecting_contact,
}
use firestr.UserService.Pings.{Ping, heard, tick_all, keys_of}
use firestr.UserService.Timed.{IsTimed, Ends}
use firestr.UserService.Changed.{connecting-Ends}
use firestr.UserService.Heard.{heard-Ends}
use firestr.Envelope.{Message}
use firestr.Messages.{is_type, text_at}
use firestr.Mencode.Value.{
  Value, blob, empty, boolean, int, size, real, dict, array, Entries, no_entries, entry, at,
  as_string, as_bytes,
}
use firestr.UserService.Sent.{send_turn-IsSame, IsSame-IsTimed}
use firestr.User.Contacts.{by_id}
use firestr.UserService.Pings.{received_ping, read_ping, is_remote, is_symmetric}
use firestr.UserService.Turns.{address_of, send_turn, ping_turn}
use firestr.UserService.Timed.{IsReady}
use firestr.UserService.Loop.{tick_all-Ends}

as_bytes-cases : (v : Value) → (as_bytes v ≡ thrown) ⊎ ((x : Bytes) × (as_bytes v ≡ ok x))
unfolding as_bytes
as_bytes-cases (blob x) = inr (x, refl)
as_bytes-cases empty = inl refl
as_bytes-cases (boolean x) = inl refl
as_bytes-cases (int n) = inl refl
as_bytes-cases (size n) = inl refl
as_bytes-cases (real x) = inl refl
as_bytes-cases (dict d) = inl refl
as_bytes-cases (array a) = inl refl

text_at-cases :
    (k : Bytes) (d : Entries) → (text_at k d ≡ thrown) ⊎ ((x : Bytes) × (text_at k d ≡ ok x))
unfolding text_at at as_string as_bytes
text_at-cases k no_entries = inl refl
text_at-cases k (entry j v d) = elim (Bool-cases (bytes_eq j k)) [
  | inl h ↦ rw (h, text_at) (as_bytes-cases v)
  | inr h ↦ rw (h, text_at) (text_at-cases k d)
]

-- With its contracts met, a ping is read or an exception thrown.
read_ping-cases :
    (m : Message)
    → is_type (codes "!") m ≡ true
    → 1 < length m.meta.from
    → (read_ping m ≡ thrown) ⊎ ((p : Ping) × (read_ping m ≡ ok p))
unfolding read_ping
read_ping-cases m y l =
    let many : ltb 1 (length m.meta.from) ≡ true = ground arith in
    elim (Bool-cases (is_remote m.meta.source)) [
      | inr r ↦ rw (y, r, read_ping) (inl refl)
      | inl r ↦ elim (Bool-cases (is_symmetric m.meta.encryption)) [
        | inr q ↦ rw (y, r, q, read_ping) (inl refl)
        | inl q ↦ elim (text_at-cases (codes "from_id") m.meta.extra) [
          | inl e ↦ rw (y, r, q, many, e, read_ping) (inl refl)
          | inr (x, e) ↦ rw (y, r, q, many, e, read_ping) (inr (_, refl))
        ]
      ]
    ]

abbrev pub ticks_of : Outcome ℕ → ℕ
ticks_of (ok n) = n
ticks_of Outcome.thrown = 0
ticks_of aborted = 0
ticks_of Outcome.out_of_fuel = 0

module _ (b : Botan) where
  abbrev pub Goes : Done b ℕ → Type 0
  Goes r = ((n : ℕ) × (r.0 ≡ ok n)) × IsTimed b r.1

  pub data Act : Type 0 where
    pinged : Message → Act
    ticked : Bool → Act
    asked : Bytes → Act

  -- The loop of service/service.cpp catches an exception of the handler.
  abbrev pub go_on : ℕ → Done b (Unit {0}) → Done b ℕ
  go_on n (ok tt, s) = (ok n, s)
  go_on n (Outcome.thrown, s) = (ok n, s)
  go_on n (aborted, s) = (aborted, s)
  go_on n (Outcome.out_of_fuel, s) = (Outcome.out_of_fuel, s)

  -- With `send_ticks` of `ping_thread`. `asked` is the change of `received_connect_request`.
  abbrev pub perform : Act → ℕ → UserService b → Done b ℕ
  perform (pinged m) n s = go_on n (received_ping b m s)
  perform (ticked idle) n s = ping_turn b idle n s
  perform (asked id) n s = and_then b (connecting_contact b id s) (λ _ s'. (ok n, s'))

  abbrev pub run : List Act → ℕ → UserService b → Done b ℕ
  run [] n s = (ok n, s)
  run (a ∷ as') n s = and_then b (perform a n s) (run as')

  -- A message comes to the handler of its type. A ping comes from more than one address, and no
  -- contact that is offline says that it disconnects. A connection starts with a user at whose
  -- address a channel is ready.
  abbrev pub IsFair : Act → UserService b → Type 0
  IsFair (pinged m) s =
      (is_type (codes "!") m ≡ true)
      × ((1 < length m.meta.from)
          × ((p : Ping) (cd : ContactData)
              → read_ping m ≡ ok p
              → find p.from_id s.contacts ≡ some cd
              → p.state ≡ b'd'
              → cd.state ≢ offline))
  IsFair (ticked idle) s = Unit
  IsFair (asked id) s =
      (c : UserInfo) → by_id id s.user_contacts ≡ some c → IsReady b s.channels (address_of c)

  abbrev pub AreFair : List Act → ℕ → UserService b → Type 0
  AreFair [] n s = Unit
  AreFair (a ∷ as') n s = IsFair a s × AreFair as' (ticks_of (perform a n s).0) (perform a n s).1

  go_on-Goes : (n : ℕ) (r : Done b (Unit {0})) → Ends b r → Goes (go_on n r)
  go_on-Goes n (ok tt, s) g = ((n, refl), g.1)
  go_on-Goes n (Outcome.thrown, s) g = ((n, refl), g.1)
  go_on-Goes n (aborted, s) g = cc g.0
  go_on-Goes n (Outcome.out_of_fuel, s) g = cc g.0

  pinged-Goes :
      (m : Message) (n : ℕ) (s : UserService b)
      → IsTimed b s
      → IsFair (pinged m) s
      → Goes (go_on n (received_ping b m s))
  unfolding received_ping
  pinged-Goes m n s t f = elim (read_ping-cases m f.0 f.1.0) [
    | inl e ↦ rw e ((n, refl), t)
    | inr (p, e) ↦
        let g = heard-Ends b p s t (λ cd. f.1.1 p cd e) in rw e (go_on-Goes n (heard b p s) g)
  ]

  Goes-step :
      (r : Done b ℕ) (k : ℕ → UserService b → Done b ℕ)
      → Goes r
      → ((n : ℕ) → r.0 ≡ ok n → Goes (k n r.1))
      → Goes (and_then b r k)
  Goes-step (ok n, s) k g f = f n refl
  Goes-step (Outcome.thrown, s) k g f = cc g.0.1
  Goes-step (aborted, s) k g f = cc g.0.1
  Goes-step (Outcome.out_of_fuel, s) k g f = cc g.0.1

  after-Goes : (m : ℕ) (r : Done b (Unit {0})) → Ends b r → Goes (and_then b r (λ _ s. (ok m, s)))
  after-Goes m (ok tt, s) g = ((m, refl), g.1)
  after-Goes m (Outcome.thrown, s) g = cc g.0
  after-Goes m (aborted, s) g = cc g.0
  after-Goes m (Outcome.out_of_fuel, s) g = cc g.0

  turn-Goes : (idle : Bool) (n : ℕ) (s : UserService b) → IsTimed b s → Goes (ping_turn b idle n s)
  unfolding ping_turn
  turn-Goes idle n s t =
      let (g, same) = send_turn-IsSame b idle n s t in
      let s' = (send_turn b idle n s).1 in
      Goes-step (send_turn b idle n s)
        (λ n' s1. and_then b (tick_all b (keys_of s1.contacts) s1) (λ _ s2. (ok n', s2)))
        (g, IsSame-IsTimed b s s' same t)
        (λ m e.
          after-Goes m (tick_all b (keys_of s'.contacts) s')
            (tick_all-Ends b (keys_of s'.contacts) s' (IsSame-IsTimed b s s' same t)))

  asked-Goes :
      (n : ℕ) (r : Done b Bool)
      → Ends b (and_then b r (λ _ s. (ok tt, s)))
      → Goes (and_then b r (λ _ s. (ok n, s)))
  asked-Goes n (ok x, s) g = ((n, refl), g.1)
  asked-Goes n (Outcome.thrown, s) g = cc g.0
  asked-Goes n (aborted, s) g = cc g.0
  asked-Goes n (Outcome.out_of_fuel, s) g = cc g.0

  perform-Goes :
      (a : Act) (n : ℕ) (s : UserService b) → IsTimed b s → IsFair a s → Goes (perform a n s)
  perform-Goes (pinged m) n s t f = pinged-Goes m n s t f
  perform-Goes (ticked idle) n s t f = turn-Goes idle n s t
  perform-Goes (asked id) n s t f =
      asked-Goes n (connecting_contact b id s) (connecting-Ends b id s t f)

  -- In a user service in which the contact list leads an id only to the user with that id, no
  -- user's first address is among the addresses of another, no contact is past the ping threshold,
  -- and the pointer of each contact that is not offline leads to the user of the list with its id,
  -- at whose first address there is a channel with an agreed key: any sequence of messages to
  -- received_ping, turns of ping_thread with the pings they send, and starts of connections fails
  -- no contract and leaves the service so, where each message is of the handler's type and from
  -- more than one address, no contact that is offline says that it disconnects, and a connection
  -- starts only with a user at whose first address there is such a channel.
  pub run-Goes :
      (acts : List Act) (n : ℕ) (s : UserService b)
      → IsTimed b s
      → AreFair acts n s
      → Goes (run acts n s)
  run-Goes [] n s t f = ((n, refl), t)
  run-Goes (a ∷ as') n s t f =
      let g = perform-Goes a n s t f.0 in
      Goes-step (perform a n s) (run as') g (λ m e.
        let same : ticks_of (perform a n s).0 ≡ m = ap ticks_of e in
        run-Goes as' m (perform a n s).1 g.1
          (subst (λ k. AreFair as' k (perform a n s).1) same f.1))
