-- ===== src/Conversation/Served.antt =====
-- conversation/conversation_service.cpp: what holds of the service between two messages.
use firestr.Prelude.{
  ok, ℕ, ◌≡◌, ◌≢◌, refl, sym, ap, ◌∙◌, subst, false, ◌⊎◌, inl, inr, List, [], ◌∷◌, Bytes, bytes_eq,
  bytes_eq_iff, bytes_key, some, if◌then◌else◌, Bool-cases, Option-cases, arith, ◌==◌, ==_iff,
  length,
}
use firestr.Prelude.Maps.{find, find-assign}
use firestr.User.Contacts.{UserInfo, ContactList, by_id}
use firestr.Conversation.{
  PendingContactAdds, ReqState, sent, dont_know, know, KnowRequests, Status, not_part, part, unsure,
  CliqueStatus, is_sent, is_known, how_many, insert, strangers, judge, part_of_clique,
}
use firestr.Conversation.Members.{Conversation, is_empty}
use firestr.Conversation.Service.{Out, fire, not_part_of_clique, id_of}
use firestr.Conversation.Handlers.{ConversationService, keep, known_contacts, clique_of, act_on}
use firestr.Conversation.Lists.{Gives, Gives-bind, AllNamed, IsList, IsList-sizes, by_id-IsList}
use firestr.Conversation.Kept.{IsOpen, fire-Goes, IsOpenWith, id_of-Gives, admit-Gives}

pub state-cases : (q : ReqState) → (q ≡ sent) ⊎ ((q ≡ dont_know) ⊎ (q ≡ know))
state-cases sent = inl refl
state-cases dont_know = inr (inl refl)
state-cases know = inr (inr refl)

pub status-cases : (q : Status) → (q ≡ part) ⊎ ((q ≡ not_part) ⊎ (q ≡ unsure))
status-cases part = inl refl
status-cases not_part = inr (inl refl)
status-cases unsure = inr (inr refl)

insert_full : (k : Bytes) (s : List Bytes) → is_empty (insert k s) ≡ false
unfolding is_empty
insert_full k [] = refl
insert_full k (j ∷ s) = elim (Bool-cases (bytes_eq j k)) [ inl e ↦ rw e refl | inr e ↦ rw e refl ]

strangers_kept :
    (r : KnowRequests) (s : List Bytes) → is_empty s ≡ false → is_empty (strangers r s) ≡ false
unfolding strangers
strangers_kept [] s e = e
strangers_kept ((k, q) ∷ r) s e = elim (state-cases q.state) [
  | inl h ↦ rw (h, strangers) (strangers_kept r s e)
  | inr h ↦ elim h [
    | inl d ↦ rw (d, strangers) (strangers_kept r (insert q.to s) (insert_full q.to s))
    | inr d ↦ rw (d, strangers) (strangers_kept r s e)
  ]
]

strangers_full :
    (r : KnowRequests) (s : List Bytes)
    → how_many is_sent r ≡ 0
    → how_many is_known r ≢ length r
    → is_empty (strangers r s) ≡ false
unfolding strangers how_many
strangers_full [] s e n = absurd (n refl)
strangers_full ((k, q) ∷ r) s e n = elim (state-cases q.state) [
  | inl h ↦
      let f : ◌≡◌ {A = ℕ} (if is_sent q.state then 1 else 0) 1 = rw h refl in absurd (omega arith)
  | inr h ↦ elim h [
    | inl d ↦ rw (d, strangers) (strangers_kept r (insert q.to s) (insert_full q.to s))
    | inr d ↦
        let f : ◌≡◌ {A = ℕ} (if is_sent q.state then 1 else 0) 0 = rw d refl in
        let g : ◌≡◌ {A = ℕ} (if is_known q.state then 1 else 0) 1 = rw d refl in
        rw (d, strangers) (strangers_full r s (omega arith) (λ m. n (omega arith)))
  ]
]

-- Where the verdict is no, there is someone who does not know.
judge_full :
    (size : ℕ) (r : KnowRequests)
    → (judge size r).is_part ≡ not_part
    → is_empty (judge size r).contacts ≡ false
unfolding judge
judge_full size r e = elim (Bool-cases (length r == size)) [
  | inr a ↦ absurd (let f : unsure ≡ not_part = rw (a, judge) at e in cc f)
  | inl a ↦ elim (Bool-cases (how_many is_sent r == 0)) [
    | inr h ↦ absurd (let f : unsure ≡ not_part = rw (a, h, judge) at e in cc f)
    | inl h ↦ elim (Bool-cases (how_many is_known r == length r)) [
      | inl l ↦ absurd (let f : part ≡ not_part = rw (a, h, l, judge) at e in cc f)
      | inr l ↦
          rw (a, h, l, judge)
            (strangers_full r [] ((==_iff (how_many is_sent r) 0).0 h)
              (λ m. let t = (==_iff (how_many is_known r) (length r)).1 m in cc))
    ]
  ]
]

pub part_of_clique_full :
    (id : Bytes) (size : ℕ) (p : PendingContactAdds)
    → (part_of_clique id size p).is_part ≡ not_part
    → is_empty (part_of_clique id size p).contacts ≡ false
unfolding part_of_clique
part_of_clique_full id size p e = elim (Option-cases (find id p)) [
  | inl a ↦ absurd (let f : unsure ≡ not_part = rw (a, part_of_clique) at e in cc f)
  | inr (a, h) ↦ rw (h, part_of_clique) (judge_full size a.requests (rw (h, part_of_clique) at e))
]

pub clique_of_lem :
    (id : Bytes) (v : Conversation)
    → IsList v.contacts
    → clique_of id v ≡ ok (part_of_clique id (length v.contacts.list) v.pending_adds)
unfolding clique_of part_of_clique
clique_of_lem id v l = elim (Option-cases (find id v.pending_adds)) [
  | inl a ↦ rw (a, clique_of, part_of_clique) refl
  | inr (a, h) ↦ rw (h, clique_of) (rw (IsList-sizes v.contacts l) refl)
]

module _ (users : ContactList) where
  pub act_on-Gives :
      (k : Bytes) (q : CliqueStatus) (c : UserInfo) (v : Conversation) (o : Out)
      → IsOpen k v
      → is_empty c.id ≡ false
      → (q.is_part ≡ not_part → is_empty q.contacts ≡ false)
      → Gives (IsOpenWith users k) (act_on users q c v o)
  unfolding act_on
  act_on-Gives k q c v o i e f = elim (status-cases q.is_part) [
    | inl h ↦ rw (h, act_on) (admit-Gives users k c v o i e)
    | inr h ↦ elim h [
      | inr d ↦ rw (d, act_on) ((v, o), (refl, i))
      | inl d ↦
          rw (d, act_on)
            (Gives-bind (λ a. a ≡ k) (IsOpenWith users k) (id_of v) _ (id_of-Gives users k v i)
              (λ a s.
                Gives-bind (λ _. Unit {0}) (IsOpenWith users k)
                  (fire (not_part_of_clique a c.id q.contacts) o) _
                  (fire-Goes (not_part_of_clique a c.id q.contacts) o
                    (ap is_empty s ∙ i.full, e, f d))
                  (λ o' _. ((v, o'), (refl, i)))))
    ]
  ]

-- The conversations stand under their own ids, and the user's contacts have different ids.
pub record IsServing (s : ConversationService) : Type 0 where
  pub users : IsList s.user_contacts
  pub each : (k : Bytes) (v : Conversation) → find k s.conversations ≡ some v → IsOpen k v

pub keep-IsServing :
    (k : Bytes) (s : ConversationService) (r : Conversation × Out)
    → IsServing s
    → IsOpen k r.0
    → IsServing (keep k s r)
keep-IsServing k s r i j = record {
  users = i.users;
  each = λ n v e. elim (Bool-cases (bytes_eq k n)) [
    | inl h ↦
        let q : k ≡ n = (bytes_eq_iff k n).0 h in
        let f : some r.0 ≡ some v = sym (find-assign k n r.0 s.conversations ∙ rw h refl) ∙ e in
        let g : r.0 ≡ v = cc in subst (λ x. IsOpen n x) g (subst (λ x. IsOpen x r.0) q j)
    | inr h ↦ i.each n v (sym (find-assign k n r.0 s.conversations ∙ rw h refl) ∙ e)
  ];
}

pub list-AllNamed : (l : ContactList) → IsList l → AllNamed l.list
list-AllNamed l i = subst (λ (x : ContactList). AllNamed x.list) (sym i.same) i.named

pub known_contacts-AllNamed :
    (ids : List Bytes) (s : ConversationService) → IsServing s → AllNamed (known_contacts ids s)
unfolding known_contacts
known_contacts-AllNamed [] s i = tt
known_contacts-AllNamed (id ∷ ids) s i = elim (Bool-cases (bytes_eq id s.my_id)) [
  | inl h ↦ rw h (known_contacts-AllNamed ids s i)
  | inr h ↦ elim (Option-cases (by_id id s.user_contacts)) [
    | inl a ↦ rw (h, a, known_contacts) (known_contacts-AllNamed ids s i)
    | inr (c, a) ↦
        rw (h, a, known_contacts)
          ((by_id-IsList id s.user_contacts c i.users a).1, known_contacts-AllNamed ids s i)
  ]
]
