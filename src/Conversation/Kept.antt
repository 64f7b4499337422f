-- ===== src/Conversation/Kept.antt =====
-- conversation/conversation_service.cpp: what holds of a conversation between two of its operations.
use firestr.Prelude.{
  ◌≡◌, refl, sym, ap, ◌∙◌, subst, false, List, [], ◌∷◌, Bytes, bytes_key, none, Outcome, ok,
  Bool-cases, Option-cases, inl, inr, ◌&&◌,
}
use firestr.User.Contacts.{UserInfo, ContactList, by_id, remove_contact}
use firestr.Conversation.{asked_about}
use firestr.Conversation.Members.{Conversation, is_empty, remove_member, add_member}
use firestr.Conversation.Service.{
  Out, Notice, fire, new_conversation_event, quit_conversation_event, conversation_synced,
  contact_removed, contact_added, not_part_of_clique, ids_of, id_of, sync_existing_conversation,
  admit, ask_about, add_contact_to_conversation, add_contacts, request_apps,
}
use firestr.Conversation.Lists.{
  Gives, Gives-bind, Gives-then, AllNamed, IsList, add_contact-IsList, remove_contact-IsList,
}

pub record IsOpen (k : Bytes) (v : Conversation) : Type 0 where
  pub under : v.id ≡ k
  pub full : is_empty k ≡ false
  pub list : IsList v.contacts

pub remove_member-Gives :
    (k id : Bytes) (v : Conversation) → IsOpen k v → Gives (IsOpen k) (remove_member id v)
unfolding remove_member
remove_member-Gives k id v i = elim (Option-cases (by_id id v.contacts)) [
  | inl absent ↦
      rw (absent, remove_member)
        (_, (refl, record { under = i.under; full = i.full; list = i.list }))
  | inr (c, there) ↦
      rw (there, remove_member)
        (Gives-bind (λ r. IsList r.1) (IsOpen k) (remove_contact c v.contacts) _
          (remove_contact-IsList c v.contacts i.list)
          (λ r l. (_, (refl, record { under = i.under; full = i.full; list = l }))))
]

-- The contracts of `fire_`.
abbrev pub IsFull : Notice → Type 0
IsFull (new_conversation_event k) = is_empty k ≡ false
IsFull (quit_conversation_event k) = is_empty k ≡ false
IsFull (conversation_synced k) = is_empty k ≡ false
IsFull (contact_removed k c) = (is_empty k ≡ false) × (is_empty c ≡ false)
IsFull (contact_added k c) = (is_empty k ≡ false) × (is_empty c ≡ false)
IsFull (not_part_of_clique k c cs) =
    (is_empty k ≡ false) × (is_empty c ≡ false) × (is_empty cs ≡ false)

abbrev pub Goes : {A : Type 0} → Outcome A → Type 0
Goes = Gives (λ _. Unit {0})

pub fire-Goes : (n : Notice) (o : Out) → IsFull n → Goes (fire n o)
unfolding fire
fire-Goes (new_conversation_event k) o f = rw f (_, (refl, tt))
fire-Goes (quit_conversation_event k) o f = rw f (_, (refl, tt))
fire-Goes (conversation_synced k) o f = rw f (_, (refl, tt))
fire-Goes (contact_removed k c) o f = rw (f.0, f.1) (_, (refl, tt))
fire-Goes (contact_added k c) o f = rw (f.0, f.1) (_, (refl, tt))
fire-Goes (not_part_of_clique k c cs) o f = rw (f.0, f.1, f.2) (_, (refl, tt))

module _ (users : ContactList) where
  abbrev pub IsOpenWith : Bytes → Conversation × Out → Type 0
  IsOpenWith k r = IsOpen k r.0

  pub id_of-Gives : (k : Bytes) (v : Conversation) → IsOpen k v → Gives (λ j. j ≡ k) (id_of v)
  unfolding id_of
  id_of-Gives k v i =
      let e : is_empty v.id ≡ false = ap is_empty i.under ∙ i.full in
      Gives-then (λ j. j ≡ k) (is_empty v.id) (ok v.id) e (v.id, (refl, i.under))

  sync-Gives :
      (k : Bytes) (v : Conversation) (o : Out)
      → IsOpen k v
      → Goes (sync_existing_conversation users v o)
  unfolding sync_existing_conversation
  sync-Gives k v o i =
      Gives-bind (λ j. j ≡ k) (λ _. Unit {0}) (id_of v) _ (id_of-Gives k v i)
        (λ a e. (_, (refl, tt)))

  add_member-IsOpen :
      (k : Bytes) (c : UserInfo) (v : Conversation)
      → IsOpen k v
      → is_empty c.id ≡ false
      → IsOpen k (add_member c v)
  unfolding add_member
  add_member-IsOpen k c v i e = record {
    under = i.under;
    full = i.full;
    list = add_contact-IsList c v.contacts i.list e;
  }

  -- A user who is not in the conversation is added.
  pub admit_absent :
      (k : Bytes) (c : UserInfo) (v : Conversation) (o : Out)
      → IsOpen k v
      → is_empty c.id ≡ false
      → by_id c.id v.contacts ≡ none
      → Gives (λ r. r.0 ≡ add_member c v) (admit users c v o)
  unfolding admit
  admit_absent k c v o i e absent =
      let w = add_member c v in
      let j = add_member-IsOpen k c v i e in
      let IsAdded : Conversation × Out → Type 0 = λ r. r.0 ≡ w in
      rw (absent, admit)
        (Gives-bind (λ _. Unit {0}) IsAdded (sync_existing_conversation users w o) _
          (sync-Gives k w o j)
          (λ o1 _.
            Gives-bind (λ a. a ≡ k) IsAdded (id_of w) _ (id_of-Gives k w j)
              (λ a q.
                let full : is_empty a ≡ false = ap is_empty q ∙ i.full in
                Gives-bind (λ _. Unit {0}) IsAdded (fire (conversation_synced a) o1) _
                  (fire-Goes (conversation_synced a) o1 full)
                  (λ o2 _.
                    Gives-bind (λ _. Unit {0}) IsAdded (fire (contact_added a c.id) o2) _
                      (fire-Goes (contact_added a c.id) o2 (full, e))
                      (λ o3 _. ((w, o3), (refl, refl)))))))

  pub admit-Gives :
      (k : Bytes) (c : UserInfo) (v : Conversation) (o : Out)
      → IsOpen k v
      → is_empty c.id ≡ false
      → Gives (IsOpenWith k) (admit users c v o)
  unfolding admit
  admit-Gives k c v o i e = elim (Option-cases (by_id c.id v.contacts)) [
    | inr (d, there) ↦ rw (there, admit) ((v, o), (refl, i))
    | inl absent ↦
        let (r, (q, same)) = admit_absent k c v o i e absent in
        (r, (q, subst (IsOpen k) (sym same) (add_member-IsOpen k c v i e)))
  ]

  ask_about-Gives :
      (k : Bytes) (id : Bytes) (v : Conversation) (o : Out)
      → IsOpen k v
      → is_empty id ≡ false
      → Gives (IsOpenWith k) (ask_about users id v o)
  unfolding ask_about
  ask_about-Gives k id v o i e =
      let w : Conversation = record v {
        pending_adds = asked_about id (ids_of v.contacts.list) v.pending_adds;
      } in
      let j : IsOpen k w = record { under = i.under; full = i.full; list = i.list } in
      Gives-then (IsOpenWith k) (is_empty id) _ e (
        Gives-bind (λ a. a ≡ k) (IsOpenWith k) (id_of w) _ (id_of-Gives k w j)
          (λ a q. (_, (refl, j))))

  add_contact_to_conversation-Gives :
      (k : Bytes) (c : UserInfo) (v : Conversation) (o : Out)
      → IsOpen k v
      → is_empty c.id ≡ false
      → Gives (IsOpenWith k) (add_contact_to_conversation users c v o)
  unfolding add_contact_to_conversation
  add_contact_to_conversation-Gives k c v o i e = elim (Option-cases (by_id c.id v.contacts)) [
    | inr (d, there) ↦ rw (there, add_contact_to_conversation) ((v, o), (refl, i))
    | inl absent ↦ elim (Bool-cases (is_empty v.contacts.list && is_empty v.pending_adds)) [
      | inl h ↦ rw (absent, h, add_contact_to_conversation) (admit-Gives k c v o i e)
      | inr h ↦ rw (absent, h, add_contact_to_conversation) (ask_about-Gives k c.id v o i e)
    ]
  ]

  pub add_contacts-Gives :
      (k : Bytes) (cs : List UserInfo) (v : Conversation) (o : Out)
      → IsOpen k v
      → AllNamed cs
      → Gives (IsOpenWith k) (add_contacts users cs v o)
  unfolding add_contacts
  add_contacts-Gives k [] v o i n = ((v, o), (refl, i))
  add_contacts-Gives k (c ∷ cs) v o i n =
      Gives-bind (IsOpenWith k) (IsOpenWith k) (add_contact_to_conversation users c v o) _
        (add_contact_to_conversation-Gives k c v o i n.0)
        (λ r j. add_contacts-Gives k cs r.0 r.1 j n.1)

  pub request_apps-Goes :
      (k from_id : Bytes) (apps : List Bytes) (v : Conversation) (o : Out)
      → IsOpen k v
      → Goes (request_apps users from_id apps v o)
  unfolding request_apps
  request_apps-Goes k from_id [] v o i = (o, (refl, tt))
  request_apps-Goes k from_id (a ∷ apps) v o i =
      Gives-bind (λ j. j ≡ k) (λ _. Unit {0}) (id_of v) _ (id_of-Gives k v i)
        (λ j q. request_apps-Goes k from_id apps v _ i)
