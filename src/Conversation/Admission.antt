-- ===== src/Conversation/Admission.antt =====
-- conversation/conversation_service.cpp: when a user joins a conversation.
use firestr.Prelude.{
  ℕ, suc, ◌≡◌, refl, sym, ap, ◌∙◌, subst, Bool, true, false, inl, inr, ℤ, List, [], ◌∷◌, ◌++◌,
  Bytes, bytes_eq, bytes_eq_iff, bytes_key, none, some, if◌then◌else◌, Bool-cases, length,
}
use firestr.Prelude.Maps.{find, find-assign_same, Distinct}
use firestr.User.Contacts.{UserInfo, ContactList, by_id, add_contact}
use firestr.Conversation.{
  PendingContactAdds, asked_about, ReqState, Status, not_part, part, unsure, CliqueStatus, is_sent,
  is_known, part_of_clique, know_contact,
}
use firestr.Conversation.Members.{Conversation, is_empty, add_member}
use firestr.Conversation.Service.{Out, fire, not_part_of_clique, id_of, ids_of}
use firestr.Conversation.Handlers.{
  ConversationService, keep, act_on, answered, answer_of, received_ask_contact_res,
}
use firestr.Conversation.Lists.{Gives, Gives-bind, IsList, by_id-IsList}
use firestr.Conversation.Kept.{IsOpen, fire-Goes, id_of-Gives, admit_absent}
use firestr.Conversation.Served.{
  state-cases, status-cases, clique_of_lem, part_of_clique_full, IsServing,
}
use firestr.User.Listed.{lookup, has, with_user, numbered}
use firestr.User.Refines.{by_id-listed, contact_list_refines}
use firestr.Conversation.Answers.{Answers, among, state_of, some_is, all_are, verdict, answer_all}
use firestr.Conversation.Answers
use firestr.Conversation.Clique.{part_of_clique_lem}

absent-among :
    (k : Bytes) (n : ℕ) (us : List UserInfo)
    → find k (numbered n us) ≡ none
    → among k (ids_of us) ≡ false
unfolding find
absent-among k n [] e = refl
absent-among k n (c ∷ us) e = elim (Bool-cases (bytes_eq c.id k)) [
  | inl h ↦
      let f : (if bytes_eq c.id k then some n else find k (numbered (suc n) us)) ≡ some n =
        rw h refl in
      cc
  | inr h ↦
      let f : (if bytes_eq c.id k then some n else find k (numbered (suc n) us))
          ≡ find k (numbered (suc n) us) =
        rw h refl in
      rw h (absent-among k (suc n) us (sym f ∙ e))
]

ids_of-Apart : (n : ℕ) (us : List UserInfo) → Distinct (numbered n us) → Answers.Apart (ids_of us)
ids_of-Apart n [] d = tt
ids_of-Apart n (c ∷ us) d = (absent-among c.id (suc n) us d.0, ids_of-Apart (suc n) us d.1)

length-ids_of : (us : List UserInfo) → length (ids_of us) ≡ length us
length-ids_of [] = refl
length-ids_of (c ∷ us) = ap suc (length-ids_of us)

lookup-append :
    (k : Bytes) (us : List UserInfo) (c : UserInfo)
    → lookup k us ≡ none
    → c.id ≡ k
    → lookup k (us ++ (c ∷ [])) ≡ some c
lookup-append k [] c e q = rw ((bytes_eq_iff c.id k).1 q) refl
lookup-append k (d ∷ us) c e q = elim (Bool-cases (bytes_eq d.id k)) [
  | inl h ↦ let f : some d ≡ none = rw h at e in cc f
  | inr h ↦ rw h (lookup-append k us c (rw h at e) q)
]

lookup-has : (k : Bytes) (us : List UserInfo) → lookup k us ≡ none → has k us ≡ false
lookup-has k [] e = refl
lookup-has k (d ∷ us) e = elim (Bool-cases (bytes_eq d.id k)) [
  | inl h ↦ let f : some d ≡ none = rw h at e in cc f
  | inr h ↦ rw h (lookup-has k us (rw h at e))
]

by_id-add_contact :
    (c : UserInfo) (l : ContactList)
    → IsList l
    → by_id c.id l ≡ none
    → by_id c.id (add_contact c l).1 ≡ some c
by_id-add_contact c l i e =
    let us = i.users in
    let absent : lookup c.id us ≡ none =
      sym (by_id-listed c.id us) ∙ ap (by_id c.id) (sym i.same) ∙ e in
    let (added, _, _, _, _) = contact_list_refines us c c.id i.apart in
    ap (λ x. by_id c.id (add_contact c x).1) i.same
    ∙ ap (λ r. by_id c.id r.1) added
    ∙ by_id-listed c.id (with_user c us)
    ∙ rw (lookup-has c.id us absent) (lookup-append c.id us c absent refl)

abbrev pub is_member : Status → Bool
is_member part = true
is_member not_part = false
is_member unsure = false

sent-all_are :
    (h : Answers) (cs : List Bytes) → some_is is_sent h cs ≡ true → all_are is_known h cs ≡ false
sent-all_are h [] e = cc e
sent-all_are h (c ∷ cs) e = elim (state-cases (state_of h c)) [
  | inl q ↦ rw q refl
  | inr q ↦ elim q [ inl d ↦ rw d refl | inr d ↦ rw d (sent-all_are h cs (rw d at e)) ]
]

verdict-all_are :
    (h : Answers) (cs : List Bytes) → is_member (verdict h cs).is_part ≡ all_are is_known h cs
verdict-all_are h cs = elim (Bool-cases (some_is is_sent h cs)) [
  | inl e ↦ rw (e, sent-all_are h cs e) refl
  | inr e ↦ elim (Bool-cases (all_are is_known h cs)) [
    | inl f ↦ rw (e, f) refl
    | inr f ↦ rw (e, f) refl
  ]
]

module _ (users : ContactList) where
  pub act_on-joins :
      (k : Bytes) (q : CliqueStatus) (c : UserInfo) (v : Conversation) (o : Out)
      → IsOpen k v
      → is_empty c.id ≡ false
      → (q.is_part ≡ not_part → is_empty q.contacts ≡ false)
      → by_id c.id v.contacts ≡ none
      → Gives
          (λ r. by_id c.id r.0.contacts ≡ (if is_member q.is_part then some c else none))
          (act_on users q c v o)
  unfolding act_on add_member
  act_on-joins k q c v o i e f absent = elim (status-cases q.is_part) [
    | inl h ↦
        let (r, (s, same)) = admit_absent users k c v o i e absent in
        rw (h, act_on)
          (
            r,
            (
              s,
              ap (λ (x : Conversation). by_id c.id x.contacts) same
                  ∙ by_id-add_contact c v.contacts i.list absent,
            ),
          )
    | inr h ↦ elim h [
      | inr d ↦ rw (d, act_on) ((v, o), (refl, absent))
      | inl d ↦
          let IsOut : Conversation × Out → Type 0 = λ r. by_id c.id r.0.contacts ≡ none in
          rw (d, act_on)
            (Gives-bind (λ a. a ≡ k) IsOut (id_of v) _ (id_of-Gives users k v i)
              (λ a s.
                Gives-bind (λ _. Unit {0}) IsOut (fire (not_part_of_clique a c.id q.contacts) o) _
                  (fire-Goes (not_part_of_clique a c.id q.contacts) o
                    (ap is_empty s ∙ i.full, e, f d))
                  (λ o' _. ((v, o'), (refl, absent)))))
    ]
  ]

answered-joins :
    (k from_id id : Bytes) (answer : ReqState) (c : UserInfo) (s : ConversationService)
    (v : Conversation) (h : Answers) (p : PendingContactAdds)
    → IsOpen k v
    → is_empty c.id ≡ false
    → c.id ≡ id
    → by_id id v.contacts ≡ none
    → v.pending_adds ≡ answer_all id h (asked_about id (ids_of v.contacts.list) p)
    → Gives
        (λ r. by_id id r.0.contacts ≡ (
          if all_are is_known ((from_id, answer) ∷ h) (ids_of v.contacts.list)
          then some c
          else none))
        (answered from_id id answer c s v)
unfolding answered
answered-joins k from_id id answer c s v h p j e same absent pending =
    let cs = ids_of v.contacts.list in
    let h' : Answers = (from_id, answer) ∷ h in
    let w : Conversation = record v {
      pending_adds = know_contact id from_id answer v.pending_adds;
    } in
    let size = length v.contacts.list in
    let a : Answers.Apart cs =
      subst (λ (l : ContactList). Answers.Apart (ids_of l.list)) (sym j.list.same)
        (ids_of-Apart 0 j.list.users j.list.apart) in
    let q : part_of_clique id size w.pending_adds ≡ verdict h' cs =
      ap (λ n. part_of_clique id n w.pending_adds) (sym (length-ids_of v.contacts.list))
      ∙ ap (λ x. part_of_clique id (length cs) (know_contact id from_id answer x)) pending
      ∙ part_of_clique_lem id cs h' p a in
    let b : is_member (part_of_clique id size w.pending_adds).is_part ≡ all_are is_known h' cs =
      ap (λ (x : CliqueStatus). is_member x.is_part) q ∙ verdict-all_are h' cs in
    let absent' : by_id c.id v.contacts ≡ none = ap (λ i. by_id i v.contacts) same ∙ absent in
    let (r, (f, g)) =
      act_on-joins s.user_contacts k (part_of_clique id size w.pending_adds) c w s.out
        (record { under = j.under; full = j.full; list = j.list }) e
        (part_of_clique_full id size w.pending_adds) absent' in
    (
      r,
      (
        rw (clique_of_lem id w j.list) f,
        ap (λ i. by_id i r.0.contacts) (sym same) ∙ g ∙ ap (λ t. if t then some c else none) b,
      ),
    )

-- In a conversation service whose conversations stand under their own ids, which are not empty,
-- and in which the contacts of the user and of each conversation have different ids, none of them
-- empty: once the contacts of a conversation were asked about someone who is not in it, and after
-- any answers, an answer of a contact about that one, who is in the contact list too, fails no
-- contract and puts the one asked about into the conversation exactly where, with this answer, the
-- last answers of all contacts of the conversation are that they know the one asked about.
pub answer_joins :
    (k from_id id : Bytes) (status : ℤ) (f c : UserInfo) (s : ConversationService)
    (v : Conversation) (h : Answers) (p : PendingContactAdds)
    → IsServing s
    → by_id from_id s.user_contacts ≡ some f
    → by_id id s.user_contacts ≡ some c
    → find k s.conversations ≡ some v
    → by_id id v.contacts ≡ none
    → v.pending_adds ≡ answer_all id h (asked_about id (ids_of v.contacts.list) p)
    → Gives
        (λ s'.
          (w : Conversation) × ((find k s'.conversations ≡ some w)
            × (by_id id w.contacts ≡ (
                if all_are is_known ((from_id, answer_of status) ∷ h) (ids_of v.contacts.list)
                then some c
                else none))))
        (received_ask_contact_res from_id k id status s)
unfolding received_ask_contact_res
answer_joins k from_id id status f c s v h p i e1 e2 e3 absent pending =
    let (same, full) = by_id-IsList id s.user_contacts c i.users e2 in
    let (r, (q, g)) =
      answered-joins k from_id id (answer_of status) c s v h p (i.each k v e3) full same absent
        pending in
    rw (e1, e2, e3, received_ask_contact_res, q)
      (keep k s r, (refl, (r.0, (find-assign_same k r.0 s.conversations, g))))
