-- ===== src/UserService/Timed.antt =====
-- user/user_service.cpp: what holds of the contacts between two steps.
use firestr.Prelude.{
  ◌≤◌, ◌≡◌, ◌≢◌, refl, sym, ap, ◌∙◌, subst, true, false, List, [], ◌∷◌, Bytes, bytes_eq,
  bytes_eq_iff, bytes_key, some, ok, Bool-cases, inl, inr,
}
use firestr.Prelude.Maps.{find-erase, find, find-assign}
use firestr.Security.Botan.{Botan}
use firestr.Security.Channels.{Channel, Channels, remove_channel}
use firestr.Security.Secret.{ready}
use firestr.Conversation.Answers.{among}
use firestr.UserService.Turns.{address_of}
use firestr.User.Contacts.{UserInfo, ContactList, by_id}
use firestr.UserService.State.{
  ContactData, offline, UserService, Done, with_data, ping_thresh, remove_channels,
}

module _ (b : Botan) where
  -- There is a channel at the address, and its key is agreed.
  pub record IsReady (cs : Channels b) (address : Bytes) : Type 0 where
    pub channel : Channel b
    pub there : find address cs.s ≡ some channel
    pub agreed : ready b channel.shared_secret ≡ true

  -- The pointer of a contact that is not offline leads to the user of the list with its id, at whose
  -- address a channel is ready.
  pub record IsTimedData (users : ContactList) (cs : Channels b) (id : Bytes) (cd : ContactData)
      : Type 0 where
    pub recent : cd.last_ping ≤ ping_thresh
    pub held :
        cd.state ≢ offline
        → (u : UserInfo) × ((cd.contact ≡ some u)
            × ((by_id id users ≡ some u) × IsReady cs (address_of u)))

  -- The list leads an id only to the user with it, and no user's address is one of another's.
  pub record AreUsers (users : ContactList) : Type 0 where
    pub names : (j : Bytes) (c : UserInfo) → by_id j users ≡ some c → c.id ≡ j
    pub apart :
        (j k : Bytes) (u v : UserInfo)
        → by_id j users ≡ some u
        → by_id k users ≡ some v
        → bytes_eq j k ≡ false
        → among (address_of v) u.addresses ≡ false

  -- All contacts but one.
  pub record IsTimedBut (id : Bytes) (s : UserService b) : Type 0 where
    pub others :
        (j : Bytes) (cd : ContactData)
        → bytes_eq id j ≡ false
        → find j s.contacts ≡ some cd
        → IsTimedData s.user_contacts s.channels j cd
    pub users : AreUsers s.user_contacts

  pub record IsTimed (s : UserService b) : Type 0 where
    pub each :
        (j : Bytes) (cd : ContactData)
        → find j s.contacts ≡ some cd
        → IsTimedData s.user_contacts s.channels j cd
    pub users : AreUsers s.user_contacts

  pub IsTimedBut-of : (id : Bytes) (s : UserService b) → IsTimed s → IsTimedBut id s
  IsTimedBut-of id s t = record { others = λ j cd n e. t.each j cd e; users = t.users }

  pub find-with_data :
      (id j : Bytes) (cd : ContactData) (s : UserService b)
      → bytes_eq id j ≡ false
      → find j (with_data b id cd s).contacts ≡ find j s.contacts
  find-with_data id j cd s n = find-assign id j cd s.contacts ∙ rw n refl

  pub with_data-IsTimed :
      (id : Bytes) (cd : ContactData) (s : UserService b)
      → IsTimedBut id s
      → IsTimedData s.user_contacts s.channels id cd
      → IsTimed (with_data b id cd s)
  with_data-IsTimed id cd s t d = record {
    each = λ j x e. elim (Bool-cases (bytes_eq id j)) [
      | inl same ↦
          let p = (bytes_eq_iff id j).0 same in
          let here : find j (with_data b id cd s).contacts ≡ some cd =
            find-assign id j cd s.contacts ∙ rw same refl in
          let q : cd ≡ x = cc in
          subst (λ z. IsTimedData s.user_contacts s.channels j z) q
            (subst (λ i. IsTimedData s.user_contacts s.channels i cd) p d)
      | inr n ↦ t.others j x n (sym (find-with_data id j cd s n) ∙ e)
    ];
    users = t.users;
  }

  pub with_data-IsTimedBut :
      (id : Bytes) (cd : ContactData) (s : UserService b)
      → IsTimedBut id s
      → IsTimedBut id (with_data b id cd s)
  with_data-IsTimedBut id cd s t = record {
    others = λ j x n e. t.others j x n (sym (find-with_data id j cd s n) ∙ e);
    users = t.users;
  }

  pub remove_channels-frame :
      (addresses : List Bytes) (s : UserService b)
      → ((remove_channels b addresses s).contacts ≡ s.contacts)
        × ((remove_channels b addresses s).user_contacts ≡ s.user_contacts)
  unfolding remove_channels
  remove_channels-frame [] s = (refl, refl)
  remove_channels-frame (a ∷ addresses) s =
      remove_channels-frame addresses (record s { channels = remove_channel b s.channels a })

  -- A channel at another address stays.
  pub remove_channels-IsReady :
      (addresses : List Bytes) (a : Bytes) (s : UserService b)
      → among a addresses ≡ false
      → IsReady s.channels a
      → IsReady (remove_channels b addresses s).channels a
  unfolding remove_channels remove_channel
  remove_channels-IsReady [] a s n r = r
  remove_channels-IsReady (i ∷ addresses) a s n r = elim (Bool-cases (bytes_eq i a)) [
    | inl h ↦ let f : true ≡ false = rw h at n in cc f
    | inr h ↦
        remove_channels-IsReady addresses a (record s { channels = remove_channel b s.channels i })
          (rw h at n)
          (record {
            channel = r.channel;
            there = find-erase i a s.channels.s ∙ rw h r.there;
            agreed = r.agreed;
          })
  ]

  pub IsTimed-frame :
      (s s' : UserService b)
      → s'.contacts ≡ s.contacts
      → s'.user_contacts ≡ s.user_contacts
      → s'.channels ≡ s.channels
      → IsTimed s
      → IsTimed s'
  IsTimed-frame s s' p q c t = record {
    each = λ j cd f.
        subst (λ u. IsTimedData u s'.channels j cd) (sym q)
          (subst (λ x. IsTimedData s.user_contacts x j cd) (sym c)
            (t.each j cd (ap (find j) (sym p) ∙ f)));
    users = subst AreUsers (sym q) t.users;
  }

  abbrev pub Ends : Done b (Unit {0}) → Type 0
  Ends r = (r.0 ≡ ok tt) × IsTimed r.1
