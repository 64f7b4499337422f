-- ===== src/Conversation/Clique.antt =====
-- conversation/conversation.cpp: what `part_of_clique` says of a user, read from the answers that came
-- since the contacts were asked.
use firestr.Prelude.{
  suc, ◌≤◌, ◌≡◌, refl, sym, ap, ◌∙◌, Bool, true, false, not, List, [], ◌∷◌, ◌++◌, append_assoc,
  append-nil, Bytes, bytes_eq, bytes_eq_iff, bytes_key, some, if◌then◌else◌, arith, ◌==◌, ==_iff,
  length, Bool-cases, inl, inr, subst,
}
use firestr.Prelude.Maps.{find, find-assign_same}
use firestr.Conversation.{
  ReqState, sent, dont_know, know, KnowRequests, PendingContact, PendingContactAdd,
  PendingContactAdds, contact_of, ask_all, asked_about, answer_request, know_contact, is_sent,
  is_known, how_many, insert, strangers, judge, part_of_clique,
}
use firestr.Conversation.Answers.{
  among, Apart, Answers, state_of, some_is, all_are, is_stranger, those_who, verdict, answer_all,
  table, table-Distinct, ask_all-table, answer_request-table,
}

length-table : (h : Answers) (cs : List Bytes) → length (table h cs) ≡ length cs
length-table h [] = refl
length-table h (c ∷ cs) = ap suc (length-table h cs)

how_many-none :
    (f : ReqState → Bool) (h : Answers) (cs : List Bytes)
    → (how_many f (table h cs) == 0) ≡ not (some_is f h cs)
unfolding how_many
how_many-none f h [] = refl
how_many-none f h (c ∷ cs) = ground (arith, how_many-none f h cs)

how_many_le : (f : ReqState → Bool) (r : KnowRequests) → how_many f r ≤ length r
unfolding how_many
how_many_le f [] = omega arith
how_many_le f ((k, q) ∷ r) = ground (arith, how_many_le f r)

how_many-all :
    (f : ReqState → Bool) (h : Answers) (cs : List Bytes)
    → (how_many f (table h cs) == length (table h cs)) ≡ all_are f h cs
unfolding how_many
how_many-all f h [] = refl
how_many-all f h (c ∷ cs) = ground (arith, how_many-all f h cs, how_many_le f (table h cs))

among-append :
    (c d : Bytes) (s : List Bytes)
    → among c (s ++ (d ∷ [])) ≡ (if among c s then true else bytes_eq d c)
among-append c d [] = ground arith
among-append c d (e ∷ s) = ground (arith, among-append c d s)

insert-fresh : (c : Bytes) (s : List Bytes) → among c s ≡ false → insert c s ≡ s ++ (c ∷ [])
insert-fresh c [] a = refl
insert-fresh c (d ∷ s) a =
    let n : bytes_eq d c ≡ false = ground arith in
    let b : among c s ≡ false = ground arith in rw n (ap (λ t. d ∷ t) (insert-fresh c s b))

apart_other :
    (c d : Bytes) (cs : List Bytes) → among c cs ≡ false → among d cs ≡ true → bytes_eq c d ≡ false
apart_other c d cs a m = elim (Bool-cases (bytes_eq c d)) [
  | inl h ↦
      let e : among d cs ≡ false = subst (λ x. among x cs ≡ false) ((bytes_eq_iff c d).0 h) a in cc
  | inr h ↦ h
]

strangers_step :
    (q : ReqState) (c : Bytes) (r : KnowRequests) (w s : List Bytes)
    → among c s ≡ false
    → strangers r s ≡ s ++ w
    → strangers r (s ++ (c ∷ [])) ≡ (s ++ (c ∷ [])) ++ w
    → (elim q [
      | sent ↦ strangers r s
      | dont_know ↦ strangers r (insert c s)
      | know ↦ strangers r s
    ])
      ≡ s ++ (if is_stranger q then c ∷ w else w)
strangers_step sent c r w s n stay go = stay
strangers_step dont_know c r w s n stay go =
    rw (insert-fresh c s n) (go ∙ append_assoc s (c ∷ []) w)
strangers_step know c r w s n stay go = stay

strangers-table :
    (h : Answers) (cs s : List Bytes)
    → Apart cs
    → ((c : Bytes) → among c cs ≡ true → among c s ≡ false)
    → strangers (table h cs) s ≡ s ++ those_who is_stranger h cs
unfolding strangers
strangers-table h [] s a n = sym (append-nil s)
strangers-table h (c ∷ cs) s a n =
    let rest : (d : Bytes) → among d cs ≡ true → among d s ≡ false =
      λ d m. n d (elim (Bool-cases (bytes_eq c d)) [ inl e ↦ rw e refl | inr e ↦ rw e m ]) in
    let longer : (d : Bytes) → among d cs ≡ true → among d (s ++ (c ∷ [])) ≡ false =
      λ d m. rw (among-append d c s, rest d m) (apart_other c d cs a.0 m) in
    strangers_step (state_of h c) c (table h cs) (those_who is_stranger h cs) s
      (n c (rw ((bytes_eq_iff c c).1 refl) refl)) (strangers-table h cs s a.1 rest)
      (strangers-table h cs (s ++ (c ∷ [])) a.1 longer)

judge-table :
    (h : Answers) (cs : List Bytes) → Apart cs → judge (length cs) (table h cs) ≡ verdict h cs
unfolding judge
judge-table h cs a =
    let all : (length (table h cs) == length cs) ≡ true =
      (==_iff (length (table h cs)) (length cs)).1 (length-table h cs) in
    elim (Bool-cases (some_is is_sent h cs)) [
      | inl e ↦ rw (all, how_many-none is_sent h cs, e) refl
      | inr e ↦
          rw
            (
              all,
              how_many-none is_sent h cs,
              e,
              how_many-all is_known h cs,
              strangers-table h cs [] a (λ c m. refl),
            )
            refl
    ]

pending_table :
    (id : Bytes) (h : Answers) (cs : List Bytes) (p : PendingContactAdds)
    → Apart cs
    → find id (answer_all id h (asked_about id cs p))
      ≡ some
          (record { contact = record (contact_of (find id p)) { id = id }; requests = table h cs })
unfolding asked_about know_contact
pending_table id [] cs p a =
    let contact : PendingContact = record (contact_of (find id p)) { id = id } in
    find-assign_same id (record { contact = contact; requests = ask_all cs [] }) p
    ∙ ap (λ r. let x : PendingContactAdd = record { contact = contact; requests = r } in some x)
        (ask_all-table cs [] (table-Distinct [] cs a))
pending_table id ((c, s) ∷ h) cs p a =
    let contact : PendingContact = record (contact_of (find id p)) { id = id } in
    rw (pending_table id h cs p a, know_contact)
      (find-assign_same id
          (record { contact = contact; requests = answer_request c s (table h cs) })
          (answer_all id h (asked_about id cs p))
        ∙ ap (λ r. let x : PendingContactAdd = record { contact = contact; requests = r } in some x)
            (answer_request-table h c s cs a))

-- Once the contacts of a conversation, no two with the same id, have been asked about a user, and
-- after any answers, from contacts or others and in any order, part_of_clique says that it does
-- not know while the last answer of some contact is missing; that the user is part of the clique
-- where the last answers of all contacts are that they know; and otherwise that the user is not,
-- with the ids of just the contacts whose last answer is that they do not.
pub part_of_clique_lem :
    (id : Bytes) (cs : List Bytes) (h : Answers) (p : PendingContactAdds)
    → Apart cs
    → part_of_clique id (length cs) (answer_all id h (asked_about id cs p)) ≡ verdict h cs
unfolding part_of_clique
part_of_clique_lem id cs h p a = rw (pending_table id h cs p a, part_of_clique) (judge-table h cs a)
