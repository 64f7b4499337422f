-- ===== src/UserService/Ticks.antt =====
-- user/user_service.cpp: what the loop of `ping_thread` does to one contact of which nothing is heard.
use firestr.Prelude.{
  ◌+◌, ◌%◌, ◌^◌, ◌≡◌, ◌≢◌, refl, sym, ap, ◌∙◌, subst, true, List, Bytes, bytes_eq, bytes_eq_iff,
  bytes_key, Option, none, some, if◌then◌else◌, arith, leb, Bool-cases, Option-cases, inl, inr,
}
use firestr.Prelude.Maps.{find, assign, find-assign, find-assign_same, assign-Distinct, Distinct}
use firestr.Security.Botan.{Botan}
use firestr.User.Contacts.{UserInfo}
use firestr.UserService.State.{
  ContactState, ContactData, offline, connecting, connected, UserService, with_data, available,
  ping_thresh, disconnect_from, fire_contact_disconnected_event,
}
use firestr.UserService.Pings.{tick_data, tick_from, tick_one}
use firestr.UserService.Timed.{IsTimed, remove_channels-frame}
use firestr.UserService.Changed.{disconnect_there}

abbrev pub Data : Type 0
Data = List (Bytes × ContactData)

-- Where id leads to x, and all else as before.
record IsPut (id : Bytes) (x : ContactData) (m m' : Data) : Type 0 where
  at_all : (j : Bytes) → find j m' ≡ (if bytes_eq id j then some x else find j m)
  apart : Distinct m → Distinct m'

IsPut-once : (id : Bytes) (x : ContactData) (m : Data) → IsPut id x m (assign id x m)
IsPut-once id x m = record {
  at_all = λ j. find-assign id j x m;
  apart = λ d. assign-Distinct id x m d;
}

IsPut-again :
    (id : Bytes) (x y : ContactData) (m m' : Data) → IsPut id y m m' → IsPut id x m (assign id x m')
IsPut-again id x y m m' p = record {
  at_all = λ j. elim (Bool-cases (bytes_eq id j)) [
    | inl e ↦ find-assign id j x m' ∙ rw e refl
    | inr n ↦ find-assign id j x m' ∙ rw n (p.at_all j ∙ rw n refl)
  ];
  apart = λ d. assign-Distinct id x m' (p.apart d);
}

abbrev pub gone : ContactData → ContactData
gone cd = record cd { state = offline; last_ping = ping_thresh }

abbrev pub aged_in : ContactState → ContactData → ContactData
aged_in offline cd = cd
aged_in connecting cd =
    if leb (cd.last_ping + 1) ping_thresh
    then record cd { last_ping = cd.last_ping + 1 }
    else gone cd
aged_in connected cd =
    if leb (cd.last_ping + 1) ping_thresh
    then record cd { last_ping = cd.last_ping + 1 }
    else gone cd

-- A contact after a turn in which nothing is heard of it.
abbrev pub aged : ContactData → ContactData
aged cd = aged_in cd.state cd

abbrev pub aged_at : Option ContactData → Option ContactData
aged_at none = none
aged_at (some cd) = some (aged cd)

pub aged_in_live :
    (q : ContactState) (cd : ContactData)
    → q ≢ offline
    → aged_in q cd ≡ (
        if leb (cd.last_ping + 1) ping_thresh
        then record cd { last_ping = cd.last_ping + 1 }
        else gone cd)
aged_in_live offline cd n = absurd (n refl)
aged_in_live connecting cd n = refl
aged_in_live connected cd n = refl

-- One contact is changed as `aged` says, and no other.
pub record IsTick (id : Bytes) (m m' : Data) : Type 0 where
  pub at_all : (j : Bytes) → find j m' ≡ (if bytes_eq id j then aged_at (find j m) else find j m)
  pub apart : Distinct m → Distinct m'

IsTick-of :
    (id : Bytes) (cd x : ContactData) (m m' : Data)
    → find id m ≡ some cd
    → aged cd ≡ x
    → IsPut id x m m'
    → IsTick id m m'
IsTick-of id cd x m m' e a p = record {
  at_all = λ j. elim (Bool-cases (bytes_eq id j)) [
    | inl h ↦
        let there : find j m ≡ some cd = ap (λ i. find i m) (sym ((bytes_eq_iff id j).0 h)) ∙ e in
        p.at_all j ∙ rw (h, there) (ap some (sym a))
    | inr h ↦ p.at_all j ∙ rw h refl
  ];
  apart = p.apart;
}

IsTick-same : (id : Bytes) (m : Data) → aged_at (find id m) ≡ find id m → IsTick id m m
IsTick-same id m e = record {
  at_all = λ j. elim (Bool-cases (bytes_eq id j)) [
    | inl h ↦ rw h (subst (λ i. find i m ≡ aged_at (find i m)) ((bytes_eq_iff id j).0 h) (sym e))
    | inr h ↦ rw h refl
  ];
  apart = λ d. d;
}

module _ (b : Botan) where
  disconnect_from-contacts :
      (q : ContactState) (u : UserInfo) (id : Bytes) (cd : ContactData) (s : UserService b)
      → q ≢ offline
      → (disconnect_from b q (some u) id cd s).1.contacts ≡ assign id (gone cd) s.contacts
  unfolding disconnect_from
  disconnect_from-contacts offline u id cd s n = absurd (n refl)
  disconnect_from-contacts connecting u id cd s n = refl
  disconnect_from-contacts connected u id cd s n =
      (remove_channels-frame b u.addresses (with_data b id (gone cd) s)).0

  tick_data-IsPut :
      (id : Bytes) (cd : ContactData) (s : UserService b)
      → IsTimed b s
      → find id s.contacts ≡ some cd
      → cd.state ≢ offline
      → IsPut id
          (if leb (cd.last_ping + 1) ping_thresh
            then record cd { last_ping = cd.last_ping + 1 }
            else gone cd)
          s.contacts
          (tick_data b id cd s).1.contacts
  unfolding tick_data available
  tick_data-IsPut id cd s t e n =
      let cd' : ContactData = record cd { last_ping = cd.last_ping + 1 } in
      let d = t.each id cd e in
      let (p, (h, (l, r))) = d.held n in
      let prev : leb cd.last_ping ping_thresh ≡ true = ground arith in
      let small : (cd.last_ping + 1) % 2 ^ 64 ≡ cd.last_ping + 1 = omega arith in
      elim (Bool-cases (leb (cd.last_ping + 1) ping_thresh)) [
        | inl q ↦ rw (small, prev, q, tick_data) (IsPut-once id cd' s.contacts)
        | inr q ↦
            let s1 = with_data b id cd' s in
            let same : fire_contact_disconnected_event b id s1
                ≡ disconnect_from b cd.state (some p) id cd' (with_data b id cd' s1) =
              disconnect_there b id cd' s1 p p (find-assign_same id cd' s.contacts) l h in
            let after : (fire_contact_disconnected_event b id s1).1.contacts
                ≡ assign id (gone cd) (assign id cd' (assign id cd' s.contacts)) =
              ap (λ r. r.1.contacts) same
              ∙ disconnect_from-contacts cd.state p id cd' (with_data b id cd' s1) n in
            rw (small, prev, q, tick_data)
              (subst (IsPut id (gone cd) s.contacts) (sym after) (
                IsPut-again id (gone cd) cd' s.contacts _
                  (IsPut-again id cd' cd' s.contacts _ (IsPut-once id cd' s.contacts))))
      ]

  tick_from-IsTick :
      (q : ContactState) (p : Option UserInfo) (id : Bytes) (cd : ContactData) (s : UserService b)
      → IsTimed b s
      → find id s.contacts ≡ some cd
      → q ≡ cd.state
      → p ≡ cd.contact
      → IsTick id s.contacts (tick_from b q p id cd s).1.contacts
  unfolding tick_from
  tick_from-IsTick offline p id cd s t e q h =
      IsTick-same id s.contacts (rw e (ap (λ x. some (aged_in x cd)) (sym q)))
  tick_from-IsTick connecting none id cd s t e q h =
      absurd (let (u, (f, _)) = (t.each id cd e).held (λ o. cc) in cc)
  tick_from-IsTick connected none id cd s t e q h =
      absurd (let (u, (f, _)) = (t.each id cd e).held (λ o. cc) in cc)
  tick_from-IsTick connecting (some u) id cd s t e q h =
      let n : cd.state ≢ offline = λ o. cc in
      IsTick-of id cd _ s.contacts _ e (aged_in_live cd.state cd n) (tick_data-IsPut id cd s t e n)
  tick_from-IsTick connected (some u) id cd s t e q h =
      let n : cd.state ≢ offline = λ o. cc in
      IsTick-of id cd _ s.contacts _ e (aged_in_live cd.state cd n) (tick_data-IsPut id cd s t e n)

  pub tick_one-IsTick :
      (id : Bytes) (s : UserService b)
      → IsTimed b s
      → IsTick id s.contacts (tick_one b id s).1.contacts
  unfolding tick_one
  tick_one-IsTick id s t = elim (Option-cases (find id s.contacts)) [
    | inl e ↦ rw (e, tick_one) (IsTick-same id s.contacts (rw e refl))
    | inr (cd, e) ↦ rw (e, tick_one) (tick_from-IsTick cd.state cd.contact id cd s t e refl refl)
  ]
