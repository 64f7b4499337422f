-- ===== src/Locator/Directory.antt =====
-- firelocator/firelocator.cpp: which users the server knows after a number of registrations, read
-- from the registrations alone.
use firestr.Prelude.{
  ℕ, ◌>>=◌, subst, ◌≡◌, ◌≢◌, refl, sym, ap, ◌∙◌, Bool, true, false, List, [], ◌∷◌, Bytes, bytes_eq,
  bytes_eq_iff, bytes_key, Option, none, some, Outcome, ok, thrown, aborted, out_of_fuel,
  if◌then◌else◌, codes, Bool-cases, Option-cases, inl, inr,
}
use firestr.Prelude.Maps.{find, find-assign, find-assign_same}
use firestr.Mencode.Lexical.{Lexical}
use firestr.Security.Botan.{Botan}
use firestr.Security.Channels.{Channels, create_channel}
use firestr.Post.Office.{is_empty}
use firestr.Post.Master.{Endpoint, Wiring, make_address_str}
use firestr.Post.Exchange.{is_empty-false}
use firestr.Messages.{GreetEndpoint, GreetRegister}
use firestr.Locator.Users.{UserInfo, Users, no_endpoint, update_address, new_user, put_user}
use firestr.Locator.Updates.{if-same, update_address_lem}
use firestr.Locator.Server.{Locator, register_user, with_sec, public_key}

pub record Registration : Type 0 where
  pub ep : Endpoint
  pub r : GreetRegister
  pub n : ℕ
  pub n' : ℕ

abbrev pub is_udp : Registration → Bool
is_udp x = bytes_eq x.ep.protocol (codes "udp")

-- The registrations are listed with the newest first.
abbrev pub mine : Bytes → List Registration → List Registration
mine k [] = []
mine k (x ∷ h) = if bytes_eq x.r.id k then x ∷ mine k h else mine k h

-- The endpoint of the last registration over UDP, and of the last over another protocol.
abbrev pub last_over : Bool → List Registration → Endpoint
last_over udp [] = no_endpoint
last_over true (x ∷ h) = if is_udp x then x.ep else last_over true h
last_over false (x ∷ h) = if is_udp x then last_over false h else x.ep

abbrev pub seen : Endpoint → GreetEndpoint
seen ep = record { ip = ep.address; port = ep.port }

abbrev pub first_response : Registration → List Registration → Bytes
first_response x [] = x.r.response_service_address
first_response x (y ∷ h) = first_response y h

-- Where others reach the user: the last UDP endpoint, or the last of all where there is none.
abbrev pub outside : Registration → List Registration → GreetEndpoint
outside x h =
    if is_udp x
    then seen x.ep
    else if is_empty (last_over true h).protocol
    then seen x.ep
    else seen (last_over true h)

-- The user of these registrations.
abbrev pub profile : Bytes → Registration → List Registration → UserInfo
profile k x h = record {
  id = k;
  local_ep = x.r.local_ep;
  ext = outside x h;
  response_service_address = first_response x h;
  tcp_ep = last_over false (x ∷ h);
  udp_ep = last_over true (x ∷ h);
}

abbrev pub known : Bytes → List Registration → Option UserInfo
known k [] = none
known k (x ∷ h) = some (profile k x h)

outside-seen :
    (x : Registration) (h : List Registration)
    → is_empty (last_over true (x ∷ h)).protocol ≡ false
    → outside x h ≡ seen (last_over true (x ∷ h))
outside-seen x h e = elim (Bool-cases (is_udp x)) [
  | inl u ↦ rw u refl
  | inr n ↦ rw (n, rw n at e) refl
]

outside_again :
    (x y : Registration) (h : List Registration)
    → (if is_udp x
        then seen x.ep
        else if is_empty (last_over true (y ∷ h)).protocol
        then seen x.ep
        else outside y h)
      ≡ outside x (y ∷ h)
outside_again x y h = elim (Bool-cases (is_empty (last_over true (y ∷ h)).protocol)) [
  | inl e ↦ rw e refl
  | inr n ↦ rw (n, outside-seen y h n) refl
]

update_address-profile :
    (k : Bytes) (x y : Registration) (h : List Registration)
    → update_address (profile k y h) x.r.local_ep (seen x.ep) x.ep (is_udp x) ≡ profile k x (y ∷ h)
update_address-profile k x y h =
    update_address_lem (profile k y h) x.r.local_ep (seen x.ep) x.ep (is_udp x)
    ∙ ap (λ p. let g : UserInfo = record (profile k x (y ∷ h)) { ext = p } in g)
        (outside_again x y h)

new_user-profile :
    (x : Registration) → new_user x.r (seen x.ep) x.ep (is_udp x) ≡ profile x.r.id x []
unfolding new_user
new_user-profile x =
    ap (λ p. let g : UserInfo = record (profile x.r.id x []) { ext = p } in g)
      (if-same (is_udp x) true (seen x.ep) (seen x.ep) refl)

put_user-profile :
    (x : Registration) (h : List Registration) (users : Users)
    → find x.r.id users ≡ known x.r.id h
    → find x.r.id (put_user x.ep x.r users) ≡ some (profile x.r.id x h)
unfolding put_user
put_user-profile x [] users e =
    rw (e, put_user)
      (find-assign_same x.r.id (new_user x.r (seen x.ep) x.ep (is_udp x)) users
        ∙ ap some (new_user-profile x))
put_user-profile x (y ∷ h) users e =
    let i = profile x.r.id y h in
    rw (e, put_user)
      (find-assign_same x.r.id (update_address i x.r.local_ep (seen x.ep) x.ep (is_udp x)) users
        ∙ ap some (update_address-profile x.r.id x y h))

put_user_other :
    (x : Registration) (k : Bytes) (users : Users)
    → bytes_eq x.r.id k ≡ false
    → find k (put_user x.ep x.r users) ≡ find k users
unfolding put_user
put_user_other x k users n = elim (Option-cases (find x.r.id users)) [
  | inl e ↦
      rw (e, put_user)
        (find-assign x.r.id k (new_user x.r (seen x.ep) x.ep (is_udp x)) users ∙ rw n refl)
  | inr (i, e) ↦
      rw (e, put_user)
        (find-assign x.r.id k (update_address i x.r.local_ep (seen x.ep) x.ep (is_udp x)) users
          ∙ rw n refl)
]

put_user-mine :
    (x : Registration) (h : List Registration) (k : Bytes) (users : Users)
    → k ≢ []
    → find k users ≡ known k (mine k h)
    → find k (if is_empty x.r.id then users else put_user x.ep x.r users) ≡ known k (mine k (x ∷ h))
put_user-mine x h k users n ih = elim (Bool-cases (bytes_eq x.r.id k)) [
  | inr o ↦ elim (Bool-cases (is_empty x.r.id)) [
    | inl e ↦ rw (e, o) ih
    | inr f ↦ rw (f, o) (put_user_other x k users o ∙ ih)
  ]
  | inl same ↦
      let q : x.r.id ≡ k = (bytes_eq_iff x.r.id k).0 same in
      let there : find x.r.id (put_user x.ep x.r users) ≡ some (profile x.r.id x (mine x.r.id h)) =
        put_user-profile x (mine x.r.id h) users
          (subst (λ j. find j users ≡ known j (mine j h)) (sym q) ih) in
      let f : is_empty x.r.id ≡ false =
        subst (λ j. is_empty j ≡ false) (sym q) (is_empty-false k n) in
      rw (same, f)
        (subst (λ j. find j (put_user x.ep x.r users) ≡ some (profile j x (mine j h))) q there)
]

module _ (b : Botan) (l : Lexical) (w : Wiring) where
  -- The server after the registrations.
  abbrev pub after : List Registration → Locator b → Locator b
  after [] s = s
  after (x ∷ h) s = (register_user b l w x.n x.n' x.ep x.r (after h s)).1

  with_sec-users : (o : Outcome (Channels b)) (s : Locator b) → (with_sec b o s).1.users ≡ s.users
  with_sec-users (ok cs) s = refl
  with_sec-users thrown s = refl
  with_sec-users aborted s = refl
  with_sec-users out_of_fuel s = refl

  register_user-users :
      (x : Registration) (s : Locator b)
      → (register_user b l w x.n x.n' x.ep x.r s).1.users
        ≡ (if is_empty x.r.id then s.users else put_user x.ep x.r s.users)
  unfolding register_user
  register_user-users x s = elim (Bool-cases (is_empty x.r.id)) [
    | inl e ↦ rw (e, register_user) refl
    | inr n ↦
        rw (n, register_user)
          (with_sec-users
            (public_key b x.r.pub_key >>= create_channel b x.n x.n' s.sec (make_address_str w x.ep))
            (record s { users = put_user x.ep x.r s.users }))
  ]

  -- After any registrations at a locator that began with no users, the entry of an id that is not
  -- empty is read off that id's registrations alone: the local endpoint of the last, the response
  -- service of the first, the endpoint of the last over UDP and of the last over another protocol,
  -- and outside, the address and port of the last over UDP, or of the last of all where none came
  -- over UDP. Ids without a registration have no entry.
  pub registered_lem :
      (h : List Registration) (s : Locator b) (k : Bytes)
      → s.users ≡ []
      → k ≢ []
      → find k (after h s).users ≡ known k (mine k h)
  unfolding find
  registered_lem [] s k e n = ap (find k) e
  registered_lem (x ∷ h) s k e n =
      ap (find k) (register_user-users x (after h s))
      ∙ put_user-mine x h k (after h s).users n (registered_lem h s k e n)
