-- ===== src/Locator/Updates.antt =====
-- firelocator/firelocator.cpp: what `update_address` leaves of a user, field by field.
use firestr.Prelude.{
  ◌≡◌, refl, ap, ap₂, ◌∙◌, Bool, true, false, bytes_eq_iff, bytes_key, if◌then◌else◌, arith, ==_iff,
  Bool-cases, inl, inr,
}
use firestr.Post.Office.{is_empty}
use firestr.Post.Master.{Endpoint}
use firestr.Messages.{GreetEndpoint}
use firestr.Locator.Users.{
  UserInfo, greet_endpoint_eq, endpoint_eq, update_local, update_ext, update_ep, update_address,
}

greet_endpoint_eq-same : (a e : GreetEndpoint) → greet_endpoint_eq a e ≡ true → a ≡ e
unfolding greet_endpoint_eq
greet_endpoint_eq-same a e h =
    let p : a.ip ≡ e.ip = ground (arith, bytes_eq_iff a.ip e.ip) in
    let q : a.port ≡ e.port = ground (arith, bytes_eq_iff a.ip e.ip, ==_iff a.port e.port) in
    ap₂ (λ i j. let g : GreetEndpoint = record { ip = i; port = j } in g) p q

endpoint_eq-same : (a e : Endpoint) → endpoint_eq a e ≡ true → a ≡ e
unfolding endpoint_eq
endpoint_eq-same a e h =
    let o : a.protocol ≡ e.protocol = ground (arith, bytes_eq_iff a.protocol e.protocol) in
    let p : a.address ≡ e.address = ground (arith, bytes_eq_iff a.address e.address) in
    let q : a.port ≡ e.port = ground (arith, ==_iff a.port e.port) in
    let x : Endpoint = record { protocol = a.protocol; address = e.address; port = e.port } in
    let first : a ≡ x =
      ap₂ (λ i j. let g : Endpoint = record { protocol = a.protocol; address = i; port = j } in g) p
        q in
    first
    ∙ ap (λ i. let g : Endpoint = record { protocol = i; address = e.address; port = e.port } in g)
        o

update_local_lem : (e : GreetEndpoint) (i : UserInfo) → update_local e i ≡ record i { local_ep = e }
unfolding update_local
update_local_lem e i = elim (Bool-cases (greet_endpoint_eq i.local_ep e)) [
  | inl h ↦ rw h (
      ap (λ p. let g : UserInfo = record i { local_ep = p } in g)
        (greet_endpoint_eq-same i.local_ep e h))
  | inr h ↦ rw h refl
]

pub if-same : (u v : Bool) (e x : GreetEndpoint) → x ≡ e → x ≡ (if u then e else if v then e else x)
if-same true v e x p = p
if-same false true e x p = p
if-same false false e x p = refl

if-ext :
    (u v : Bool) (e : GreetEndpoint) (i : UserInfo)
    → (if u then record i { ext = e } else if v then record i { ext = e } else i)
      ≡ record i { ext = if u then e else if v then e else i.ext }
if-ext true v e i = refl
if-ext false true e i = refl
if-ext false false e i = refl

update_ext_lem :
    (e : GreetEndpoint) (u : Bool) (i : UserInfo)
    → update_ext e u i
      ≡ record i { ext = if u then e else if is_empty i.udp_ep.protocol then e else i.ext }
unfolding update_ext
update_ext_lem e u i = elim (Bool-cases (greet_endpoint_eq i.ext e)) [
  | inl h ↦ rw h (
      ap (λ p. let g : UserInfo = record i { ext = p } in g)
        (if-same u (is_empty i.udp_ep.protocol) e i.ext (greet_endpoint_eq-same i.ext e h)))
  | inr h ↦ rw h (if-ext u (is_empty i.udp_ep.protocol) e i)
]

update_ep_lem :
    (ep : Endpoint) (u : Bool) (i : UserInfo)
    → update_ep ep u i
      ≡ record i { tcp_ep = if u then i.tcp_ep else ep; udp_ep = if u then ep else i.udp_ep }
unfolding update_ep
update_ep_lem ep true i = elim (Bool-cases (endpoint_eq i.udp_ep ep)) [
  | inl h ↦
      rw h
        (ap (λ p. let g : UserInfo = record i { udp_ep = p } in g) (endpoint_eq-same i.udp_ep ep h))
  | inr h ↦ rw h refl
]
update_ep_lem ep false i = elim (Bool-cases (endpoint_eq i.tcp_ep ep)) [
  | inl h ↦
      rw h
        (ap (λ p. let g : UserInfo = record i { tcp_ep = p } in g) (endpoint_eq-same i.tcp_ep ep h))
  | inr h ↦ rw h refl
]

pub update_address_lem :
    (i : UserInfo) (e ext : GreetEndpoint) (ep : Endpoint) (u : Bool)
    → update_address i e ext ep u ≡ record i {
      local_ep = e;
      ext = if u then ext else if is_empty i.udp_ep.protocol then ext else i.ext;
      tcp_ep = if u then i.tcp_ep else ep;
      udp_ep = if u then ep else i.udp_ep;
    }
unfolding update_address
update_address_lem i e ext ep u =
    let i1 : UserInfo = record i { local_ep = e } in
    let i2 : UserInfo = record i1 {
      ext = if u then ext else if is_empty i.udp_ep.protocol then ext else i.ext;
    } in
    ap (λ j. update_ep ep u (update_ext ext u j)) (update_local_lem e i)
    ∙ (ap (update_ep ep u) (update_ext_lem ext u i1) ∙ update_ep_lem ep u i2)
