-- ===== src/UserService/Changed.antt =====
-- user/user_service.cpp: the changes to the state of a contact keep what holds between two steps.
use firestr.Prelude.{
  ◌≡◌, ◌≢◌, refl, sym, ap, ◌∙◌, subst, true, Bytes, bytes_eq, bytes_key, some, ok, if◌then◌else◌,
  arith, Bool-cases, Option-cases, inl, inr,
}
use firestr.Prelude.Maps.{find, find-assign}
use firestr.Security.Botan.{Botan}
use firestr.Security.Channels.{Channels}
use firestr.UserService.Turns.{address_of}
use firestr.User.Contacts.{UserInfo, ContactList, by_id}
use firestr.UserService.State.{
  ContactState, ContactData, offline, connecting, connected, UserService, and_then, with_data,
  send_event, contact_connected, contact_disconnected, or_blank, ping_thresh, remove_channels,
  disconnect_from, connect_from, connected_contact, connecting_contact,
  fire_contact_connected_event, fire_contact_disconnected_event,
}
use firestr.UserService.Timed.{
  IsTimedData, IsTimedBut-of, IsTimedBut, IsTimed-frame, IsTimed, IsReady, AreUsers, Ends,
  find-with_data, with_data-IsTimedBut, with_data-IsTimed, remove_channels-frame,
  remove_channels-IsReady,
}

module _ (b : Botan) where
  gone-IsTimedData :
      (users : ContactList) (cs : Channels b) (id : Bytes) (cd : ContactData)
      → IsTimedData b users cs id (record cd { state = offline; last_ping = ping_thresh })
  gone-IsTimedData users cs id cd = record { recent = omega arith; held = λ n. absurd (n refl) }

  -- Without the channels of a contact that is gone.
  removed-IsTimed :
      (id : Bytes) (u : UserInfo) (cd : ContactData) (s : UserService b)
      → IsTimedBut b id s
      → by_id id s.user_contacts ≡ some u
      → IsTimed b (
          remove_channels b u.addresses
            (with_data b id (record cd { state = offline; last_ping = ping_thresh }) s))
  removed-IsTimed id u cd s t l =
      let x : ContactData = record cd { state = offline; last_ping = ping_thresh } in
      let s1 = with_data b id x s in
      let s2 = remove_channels b u.addresses s1 in
      let (p, q) = remove_channels-frame b u.addresses s1 in
      record {
        each = λ j y e.
            let f : find j s1.contacts ≡ some y = ap (find j) (sym p) ∙ e in
            subst (λ us. IsTimedData b us s2.channels j y) (sym q)
              (elim (Bool-cases (bytes_eq id j)) [
                | inl h ↦
                    let g : some x ≡ some y = sym (find-assign id j x s.contacts ∙ rw h refl) ∙ f in
                    let same : x ≡ y = cc in
                    subst (λ z. IsTimedData b s.user_contacts s2.channels j z) same
                      (gone-IsTimedData s.user_contacts s2.channels j cd)
                | inr h ↦
                    let d = t.others j y h (sym (find-with_data b id j x s h) ∙ f) in
                    record {
                      recent = d.recent;
                      held = λ n.
                          let (v, (there, (listed, r))) = d.held n in
                          let apart = t.users.apart id j u v l listed h in
                          (
                            v,
                            (
                              there,
                              (
                                listed,
                                remove_channels-IsReady b u.addresses (address_of v) s1 apart r,
                              ),
                            ),
                          );
                    }
              ]);
        users = subst (AreUsers b) (sym q) t.users;
      }

  disconnect_from-Ends :
      (q : ContactState) (u : UserInfo) (id : Bytes) (cd : ContactData) (s : UserService b)
      → IsTimedBut b id s
      → by_id id s.user_contacts ≡ some u
      → q ≢ offline
      → Ends b (disconnect_from b q (some u) id cd s)
  unfolding disconnect_from
  disconnect_from-Ends offline u id cd s t l n = absurd (n refl)
  disconnect_from-Ends connecting u id cd s t l n =
      (refl, with_data-IsTimed b id _ s t (gone-IsTimedData s.user_contacts s.channels id cd))
  disconnect_from-Ends connected u id cd s t l n =
      let x : ContactData = record cd { state = offline; last_ping = ping_thresh } in
      let s' = remove_channels b u.addresses (with_data b id x s) in
      (
        refl,
        IsTimed-frame b s' (send_event b (contact_disconnected id u.name) s') refl refl refl
            (removed-IsTimed id u cd s t l),
      )

  pub disconnect_there :
      (id : Bytes) (cd : ContactData) (s : UserService b) (c u : UserInfo)
      → find id s.contacts ≡ some cd
      → by_id id s.user_contacts ≡ some c
      → cd.contact ≡ some u
      → fire_contact_disconnected_event b id s
        ≡ disconnect_from b cd.state (some u) id cd (with_data b id cd s)
  unfolding fire_contact_disconnected_event
  disconnect_there id cd s c u e l h =
      rw (l, fire_contact_disconnected_event)
        (ap
            (λ x.
              let y = or_blank x in disconnect_from b y.state y.contact id y (with_data b id y s))
            e
          ∙ ap (λ p. disconnect_from b cd.state p id cd (with_data b id cd s)) h)

  pub disconnect-Ends :
      (id : Bytes) (cd : ContactData) (s : UserService b) (u : UserInfo)
      → IsTimedBut b id s
      → find id s.contacts ≡ some cd
      → by_id id s.user_contacts ≡ some u
      → cd.contact ≡ some u
      → cd.state ≢ offline
      → Ends b (fire_contact_disconnected_event b id s)
  disconnect-Ends id cd s u t e l h n = subst (Ends b) (sym (disconnect_there id cd s u u e l h)) (
      disconnect_from-Ends cd.state u id cd (with_data b id cd s) (with_data-IsTimedBut b id cd s t)
        l n)

  live-IsTimedData :
      (users : ContactList) (cs : Channels b) (c : UserInfo) (cd : ContactData) (q : ContactState)
      → by_id c.id users ≡ some c
      → IsReady b cs (address_of c)
      → IsTimedData b users cs c.id
          (record cd { contact = some c; idle = true; last_ping = 0; state = q })
  live-IsTimedData users cs c cd q l r = record {
    recent = omega arith;
    held = λ n. (c, (refl, (l, r)));
  }

  connect_from-Ends :
      (q : ContactState) (id : Bytes) (c : UserInfo) (cd : ContactData) (s : UserService b)
      → q ≢ offline
      → IsTimed b s
      → by_id c.id s.user_contacts ≡ some c
      → IsReady b s.channels (address_of c)
      → Ends b (
          and_then b
            (connect_from b q c cd s)
            (λ changed s'. (ok tt, if changed then send_event b (contact_connected id) s' else s')))
  unfolding connect_from
  connect_from-Ends offline id c cd s n t l r = absurd (n refl)
  connect_from-Ends connected id c cd s n t l r = (refl, t)
  connect_from-Ends connecting id c cd s n t l r =
      let s' =
        with_data b c.id
          (record cd { contact = some c; idle = true; last_ping = 0; state = connected }) s in
      (
        refl,
        IsTimed-frame b s' (send_event b (contact_connected id) s') refl refl refl (
            with_data-IsTimed b c.id _ s (IsTimedBut-of b c.id s t)
              (live-IsTimedData s.user_contacts s.channels c cd connected l r)),
      )

  pub connect-Ends :
      (id : Bytes) (cd : ContactData) (s : UserService b) (c : UserInfo)
      → IsTimed b s
      → find id s.contacts ≡ some cd
      → by_id id s.user_contacts ≡ some c
      → IsReady b s.channels (address_of c)
      → cd.state ≢ offline
      → Ends b (fire_contact_connected_event b id s)
  unfolding fire_contact_connected_event connected_contact
  connect-Ends id cd s c t e l r n =
      let q : c.id ≡ id = t.users.names id c l in
      let e' : find c.id s.contacts ≡ some cd = ap (λ i. find i s.contacts) q ∙ e in
      let l' : by_id c.id s.user_contacts ≡ some c = ap (λ i. by_id i s.user_contacts) q ∙ l in
      let same : connected_contact b id s ≡ connect_from b cd.state c cd (with_data b c.id cd s) =
        rw (l, connected_contact)
          (ap (λ x. let y = or_blank x in connect_from b y.state c y (with_data b c.id y s)) e') in
      let d : IsTimedData b s.user_contacts s.channels c.id cd =
        subst (λ i. IsTimedData b s.user_contacts s.channels i cd) (sym q) (t.each id cd e) in
      subst
        (λ x. Ends b (
          and_then b x (λ changed s'.
            (ok tt, if changed then send_event b (contact_connected id) s' else s'))))
        (sym same)
        (connect_from-Ends cd.state id c cd (with_data b c.id cd s) n
          (with_data-IsTimed b c.id cd s (IsTimedBut-of b c.id s t) d) l' r)

  -- A connection starts with a user at whose address a channel is ready.
  pub connecting-Ends :
      (id : Bytes) (s : UserService b)
      → IsTimed b s
      → ((c : UserInfo) → by_id id s.user_contacts ≡ some c → IsReady b s.channels (address_of c))
      → Ends b (and_then b (connecting_contact b id s) (λ _ s'. (ok tt, s')))
  unfolding connecting_contact
  connecting-Ends id s t f = elim (Option-cases (by_id id s.user_contacts)) [
    | inl none_there ↦ rw (none_there, connecting_contact) (refl, t)
    | inr (c, l) ↦
        let l' : by_id c.id s.user_contacts ≡ some c =
          ap (λ i. by_id i s.user_contacts) (t.users.names id c l) ∙ l in
        rw (l, connecting_contact)
          (
            refl,
            with_data-IsTimed b c.id _ s (IsTimedBut-of b c.id s t) (
                live-IsTimedData s.user_contacts s.channels c (or_blank (find c.id s.contacts))
                  connecting l' (f c l)),
          )
  ]
