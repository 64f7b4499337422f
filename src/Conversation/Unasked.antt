-- ===== src/Conversation/Unasked.antt =====
-- conversation/conversation_service.cpp: users added where no contact is left to be asked.
use firestr.Prelude.{
  if◌then◌else◌, ℕ, length, subst, ◌⊎◌, bytes_eq_iff, ◌≡◌, refl, sym, ap, ◌∙◌, true, false, List,
  [], ◌∷◌, Bytes, bytes_key, none, some, ◌&&◌, Bool-cases, inl, inr, bytes_eq,
}
use firestr.Prelude.Maps.{find, assign, find-assign, find-assign_same}
use firestr.User.Contacts.{UserInfo, ContactList, by_id}
use firestr.User.Listed.{lookup}
use firestr.User.Refines.{by_id-listed}
use firestr.Conversation.{
  asked_about, ask_all, contact_of, PendingContactAdd, PendingContactAdds, ReqState, part,
  part_of_clique, know_contact, answer_request, judge, how_many,
}
use firestr.Conversation.Answers.{among}
use firestr.Conversation.Members.{Conversation, is_empty}
use firestr.Conversation.Service.{
  ask_contact_req, Out, id_of, send_all, ask_about, add_contact_to_conversation, add_contacts,
  ids_of,
}
use firestr.Conversation.Handlers.{ConversationService, answered}
use firestr.Conversation.Served.{part_of_clique_full, clique_of_lem}
use firestr.Conversation.Admission.{act_on-joins, is_member}
use firestr.Conversation.Lists.{AllNamed, Gives, Gives-then, Gives-bind}
use firestr.Conversation.Kept.{IsOpen, id_of-Gives}

assign_full :
    {V : Type 0} (k : Bytes) (v : V) (m : List (Bytes × V)) → is_empty (assign k v m) ≡ false
unfolding assign is_empty
assign_full k v [] = refl
assign_full k v ((j, w) ∷ m) = elim (Bool-cases (bytes_eq j k)) [
  | inl h ↦ rw h refl
  | inr h ↦ rw h refl
]

only_among : (id j : Bytes) → among j (id ∷ []) ≡ true → id ≡ j
only_among id j g = elim (Bool-cases (bytes_eq id j)) [
  | inl h ↦ (bytes_eq_iff id j).0 h
  | inr h ↦ let f : false ≡ true = rw h at g in cc f
]

later_among :
    (id j : Bytes) (ids : List Bytes)
    → bytes_eq id j ≡ false
    → among j (id ∷ ids) ≡ true
    → among j ids ≡ true
later_among id j ids h g = rw h at g

-- No contacts, and a user about whom contacts were asked.
pub record IsStuck (k : Bytes) (v : Conversation) : Type 0 where
  pub is_open : IsOpen k v
  pub alone : v.contacts.list ≡ []
  pub waits : is_empty v.pending_adds ≡ false

module _ (users : ContactList) where
  by_id-stuck : (k id : Bytes) (v : Conversation) → IsStuck k v → by_id id v.contacts ≡ none
  by_id-stuck k id v i =
      let l = i.is_open.list in
      let e : l.users ≡ [] = ap (λ (x : ContactList). x.list) (sym l.same) ∙ i.alone in
      ap (by_id id) l.same ∙ by_id-listed id l.users ∙ ap (lookup id) e

  -- Pending, and nobody is asked.
  abbrev Unasked : Bytes → PendingContactAdds → Type 0
  Unasked j p = (a : PendingContactAdd) × ((find j p ≡ some a) × (a.requests ≡ []))

  asked_about-Unasked :
      (id j : Bytes) (p : PendingContactAdds)
      → (id ≡ j) ⊎ Unasked j p
      → Unasked j (asked_about id [] p)
  unfolding asked_about ask_all
  asked_about-Unasked id j p w =
      let a : PendingContactAdd = record {
        contact = record (contact_of (find id p)) { id = id };
        requests = [];
      } in
      elim (Bool-cases (bytes_eq id j)) [
        | inl h ↦ (a, (find-assign id j a p ∙ rw h refl, refl))
        | inr h ↦ elim w [
          | inl q ↦ cc (sym h ∙ (bytes_eq_iff id j).1 q)
          | inr (a', (f, e)) ↦ (a', (find-assign id j a p ∙ rw h f, e))
        ]
      ]

  -- Any answer about a user of whom nobody is asked.
  Unasked-part :
      (j from : Bytes) (answer : ReqState) (n : ℕ) (p : PendingContactAdds)
      → n ≡ 0
      → Unasked j p
      → (part_of_clique j n (know_contact j from answer p)).is_part ≡ part
  unfolding part_of_clique know_contact answer_request judge how_many find
  Unasked-part j from answer n p z (a, (f, e)) =
      let none_asked : answer_request from answer a.requests ≡ [] =
        ap (answer_request from answer) e in
      let after : PendingContactAdd = record a {
        requests = answer_request from answer a.requests;
      } in
      let known : know_contact j from answer p ≡ assign j after p = rw (f, know_contact) refl in
      let there : find j (know_contact j from answer p) ≡ some after =
        ap (find j) known ∙ find-assign_same j after p in
      rw (there, part_of_clique) (ap (λ r. (judge n r).is_part) none_asked ∙ rw z refl)

  pub record StaysStuck (k : Bytes) (ids : List Bytes) (v : Conversation) (o : Out)
      (r : Conversation × Out) : Type 0 where
    pub stuck : IsStuck k r.0
    pub silent : r.1 ≡ o
    pub unasked :
        (j : Bytes) → (among j ids ≡ true) ⊎ Unasked j v.pending_adds → Unasked j r.0.pending_adds

  ask_about-stuck :
      (k id : Bytes) (v : Conversation) (o : Out)
      → IsStuck k v
      → is_empty id ≡ false
      → Gives (StaysStuck k (id ∷ []) v o) (ask_about users id v o)
  unfolding ask_about asked_about send_all
  ask_about-stuck k id v o i e =
      let w : Conversation = record v {
        pending_adds = asked_about id (ids_of v.contacts.list) v.pending_adds;
      } in
      let j : IsOpen k w = record {
        under = i.is_open.under;
        full = i.is_open.full;
        list = i.is_open.list;
      } in
      let stuck : IsStuck k w = record {
        is_open = j;
        alone = i.alone;
        waits = assign_full id _ v.pending_adds;
      } in
      let add : asked_about id [] v.pending_adds ≡ w.pending_adds =
        ap (λ us. asked_about id (ids_of us) v.pending_adds) (sym i.alone) in
      Gives-then (StaysStuck k (id ∷ []) v o) (is_empty id) _ e (
        Gives-bind (λ a. a ≡ k) (StaysStuck k (id ∷ []) v o) (id_of w) _ (id_of-Gives users k w j)
          (λ a q. (
            _,
            (
              refl,
              record {
                stuck = stuck;
                silent =
                    ap
                      (λ us.
                        send_all users us
                          (record { conversation_id = a; body = ask_contact_req id }) o)
                      i.alone;
                unasked = λ l h. subst (Unasked l) add (
                    asked_about-Unasked id l v.pending_adds
                      (elim h [ inl g ↦ inl (only_among id l g) | inr u ↦ inr u ]));
              },
            ),
          )))

  add_contact-stuck :
      (k : Bytes) (c : UserInfo) (v : Conversation) (o : Out)
      → IsStuck k v
      → is_empty c.id ≡ false
      → Gives (StaysStuck k (c.id ∷ []) v o) (add_contact_to_conversation users c v o)
  unfolding add_contact_to_conversation
  add_contact-stuck k c v o i e =
      let b : (is_empty v.contacts.list && is_empty v.pending_adds) ≡ false =
        rw (i.alone, i.waits) refl in
      rw (by_id-stuck k c.id v i, b, add_contact_to_conversation) (ask_about-stuck k c.id v o i e)

  pub add_contacts-stuck :
      (k : Bytes) (cs : List UserInfo) (v : Conversation) (o : Out)
      → IsStuck k v
      → AllNamed cs
      → Gives (StaysStuck k (ids_of cs) v o) (add_contacts users cs v o)
  unfolding add_contacts
  add_contacts-stuck k [] v o i n = (
    (v, o),
    (
      refl,
      record { stuck = i; silent = refl; unasked = λ j h. elim h [ inl e ↦ cc e | inr u ↦ u ] },
    ),
  )
  add_contacts-stuck k (c ∷ cs) v o i n =
      Gives-bind (StaysStuck k (c.id ∷ []) v o) (StaysStuck k (c.id ∷ ids_of cs) v o)
        (add_contact_to_conversation users c v o) _ (add_contact-stuck k c v o i n.0)
        (λ r j.
          let (r', (q, rest)) = add_contacts-stuck k cs r.0 r.1 j.stuck n.1 in
          (
            r',
            (
              q,
              record {
                stuck = rest.stuck;
                silent = rest.silent ∙ j.silent;
                unasked = λ l h. elim (Bool-cases (bytes_eq c.id l)) [
                  | inl e ↦ rest.unasked l (inr (j.unasked l (inl (rw e refl))))
                  | inr e ↦ elim h [
                    | inl g ↦ rest.unasked l (inl (later_among c.id l (ids_of cs) e g))
                    | inr u ↦ rest.unasked l (inr (j.unasked l (inr u)))
                  ]
                ];
              },
            ),
          ))

pub among-named :
    (j : Bytes) (cs : List UserInfo) → AllNamed cs → among j (ids_of cs) ≡ true → is_empty j ≡ false
among-named j (c ∷ cs) n h = elim (Bool-cases (bytes_eq c.id j)) [
  | inl e ↦ ap is_empty (sym ((bytes_eq_iff c.id j).0 e)) ∙ n.0
  | inr e ↦ among-named j cs n.1 (later_among c.id j (ids_of cs) e h)
]
among-named j [] n h = cc h

pub answered-Unasked :
    (k from : Bytes) (answer : ReqState) (c : UserInfo) (s : ConversationService) (v : Conversation)
    → IsStuck k v
    → is_empty c.id ≡ false
    → Unasked s.user_contacts c.id v.pending_adds
    → Gives (λ r. by_id c.id r.0.contacts ≡ some c) (answered from c.id answer c s v)
unfolding answered
answered-Unasked k from answer c s v i named u =
    let w : Conversation = record v {
      pending_adds = know_contact c.id from answer v.pending_adds;
    } in
    let q = part_of_clique c.id (length w.contacts.list) w.pending_adds in
    let member : q.is_part ≡ part =
      Unasked-part s.user_contacts c.id from answer (length v.contacts.list) v.pending_adds
        (ap (λ us. length us) i.alone) u in
    let under : IsOpen k w = record {
      under = i.is_open.under;
      full = i.is_open.full;
      list = i.is_open.list;
    } in
    let (r, (f, g)) =
      act_on-joins s.user_contacts k q c w s.out under named
        (part_of_clique_full c.id (length w.contacts.list) w.pending_adds)
        (by_id-stuck s.user_contacts k c.id v i) in
    (
      r,
      (
        rw (clique_of_lem c.id w i.is_open.list) f,
        g ∙ ap (λ x. if is_member x then some c else none) member,
      ),
    )
