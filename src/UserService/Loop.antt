-- ===== src/UserService/Loop.antt =====
-- user/user_service.cpp: the loop of `ping_thread` over the contacts.
use firestr.Prelude.{
  ◌+◌, ◌%◌, ◌^◌, ◌≡◌, ◌≢◌, refl, true, List, [], ◌∷◌, Bytes, bytes_key, Option, none, some,
  Bool-cases, Option-cases, inl, inr,
}
use firestr.Prelude.Maps.{find, find-assign_same}
use firestr.Security.Botan.{Botan}
use firestr.User.Contacts.{UserInfo}
use firestr.UserService.State.{
  ContactState, ContactData, offline, connecting, connected, UserService, with_data, available,
}
use firestr.UserService.Pings.{tick_data, tick_from, tick_one, tick_all}
use firestr.UserService.Timed.{
  IsTimed, IsTimedBut-of, with_data-IsTimed, with_data-IsTimedBut, Ends,
}
use firestr.UserService.Changed.{disconnect-Ends}
use firestr.UserService.Heard.{available_iff, and_then-Ends}

module _ (b : Botan) where
  tick_data-Ends :
      (id : Bytes) (cd : ContactData) (s : UserService b) (u : UserInfo)
      → IsTimed b s
      → find id s.contacts ≡ some cd
      → cd.state ≢ offline
      → Ends b (tick_data b id cd s)
  unfolding tick_data
  tick_data-Ends id cd s u t e n =
      let cd' : ContactData = record cd { last_ping = (cd.last_ping + 1) % 2 ^ 64 } in
      let d = t.each id cd e in
      let (p, (h, (l, r))) = d.held n in
      let prev : available cd.last_ping ≡ true = (available_iff cd.last_ping).1 d.recent in
      let but = IsTimedBut-of b id s t in
      elim (Bool-cases (available ((cd.last_ping + 1) % 2 ^ 64))) [
        | inl q ↦
            rw (q, prev, tick_data)
              (
                refl,
                with_data-IsTimed b id cd' s but (record {
                  recent = (available_iff cd'.last_ping).0 q;
                  held = λ _. (p, (h, (l, r)));
                }),
              )
        | inr q ↦
            rw (q, prev, tick_data)
              (disconnect-Ends b id cd' (with_data b id cd' s) p
                (with_data-IsTimedBut b id cd' s but) (find-assign_same id cd' s.contacts) l h n)
      ]

  tick_from-Ends :
      (q : ContactState) (p : Option UserInfo) (id : Bytes) (cd : ContactData) (s : UserService b)
      → IsTimed b s
      → find id s.contacts ≡ some cd
      → q ≡ cd.state
      → Ends b (tick_from b q p id cd s)
  unfolding tick_from
  tick_from-Ends offline p id cd s t e q = (refl, t)
  tick_from-Ends connecting none id cd s t e q = (refl, t)
  tick_from-Ends connected none id cd s t e q = (refl, t)
  tick_from-Ends connecting (some u) id cd s t e q = tick_data-Ends id cd s u t e (λ o. cc)
  tick_from-Ends connected (some u) id cd s t e q = tick_data-Ends id cd s u t e (λ o. cc)

  pub tick_one-Ends : (id : Bytes) (s : UserService b) → IsTimed b s → Ends b (tick_one b id s)
  unfolding tick_one
  tick_one-Ends id s t = elim (Option-cases (find id s.contacts)) [
    | inl e ↦ rw (e, tick_one) (refl, t)
    | inr (cd, e) ↦ rw (e, tick_one) (tick_from-Ends cd.state cd.contact id cd s t e refl)
  ]

  pub tick_all-Ends : (ks : List Bytes) (s : UserService b) → IsTimed b s → Ends b (tick_all b ks s)
  unfolding tick_all
  tick_all-Ends [] s t = (refl, t)
  tick_all-Ends (k ∷ ks) s t =
      and_then-Ends b (tick_one b k s) (λ _. tick_all b ks) (tick_one-Ends k s t) (tick_all-Ends ks)
