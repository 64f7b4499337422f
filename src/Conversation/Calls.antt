-- ===== src/Conversation/Calls.antt =====
-- conversation/conversation_service.cpp: any messages of other peers, and calls of the user.
use firestr.Prelude.{
  bytes_eq, some, none, Option-cases, Bool-cases, sym, ◌∙◌, ◌≡◌, refl, subst, true, false, inl, inr,
  List, [], ◌∷◌, Bytes, bytes_key, Outcome,
}
use firestr.Prelude.Maps.{erase, find-erase, find}
use firestr.User.Contacts.{UserInfo}
use firestr.UserService.Pings.{is_symmetric}
use firestr.Conversation.Members.{Conversation, is_empty}
use firestr.Conversation.Service.{id_of, Out, fire, quit_conversation_event}
use firestr.Conversation.Handlers.{
  ConversationService, Received, keep, sync_conversation, dispatch, receive, caught, Call, got,
  opened, ended, create_conversation, quit_conversation, call, call_all,
}
use firestr.Conversation.Lists.{Gives, Gives-bind, AllNamed}
use firestr.Conversation.Kept.{id_of-Gives, fire-Goes}
use firestr.Conversation.Served.{IsServing, keep-IsServing}
use firestr.Conversation.Steps.{sync_conversation-Gives, IsNamed, dispatch-Gives}

caught-Gives :
    (s : ConversationService) (r : Outcome ConversationService)
    → IsServing s
    → Gives IsServing r
    → Gives IsServing (caught r s)
caught-Gives s r i (a, (e, j)) = subst (λ x. Gives IsServing (caught x s)) (sym e) (a, (refl, j))

receive-Gives :
    (m : Received) (s : ConversationService)
    → IsServing s
    → IsNamed m.letter.body m.letter.conversation_id
    → Gives IsServing (caught (receive m s) s)
unfolding receive
receive-Gives m s i n = elim (Bool-cases (is_symmetric m.encryption)) [
  | inr h ↦ rw (h, receive) (s, (refl, i))
  | inl h ↦
      rw (h, receive)
        (caught-Gives s (dispatch m.letter.body m.from_id m.letter.conversation_id s) i
          (dispatch-Gives m.letter.body m.from_id m.letter.conversation_id s i n))
]

erase-IsServing :
    (k : Bytes) (s : ConversationService) (o : Out)
    → IsServing s
    → IsServing (record s { conversations = erase k s.conversations; out = o })
erase-IsServing k s o i = record {
  users = i.users;
  each = λ n v e. elim (Bool-cases (bytes_eq k n)) [
    | inl h ↦ let f : none ≡ some v = sym (find-erase k n s.conversations ∙ rw h refl) ∙ e in cc f
    | inr h ↦ i.each n v (sym (find-erase k n s.conversations ∙ rw h refl) ∙ e)
  ];
}

initiated-IsServing :
    (k : Bytes) (v : Conversation) (s : ConversationService)
    → IsServing s
    → find k s.conversations ≡ some v
    → IsServing (keep k s (record v { initiated_by_user = true }, s.out))
initiated-IsServing k v s i e =
    let j = i.each k v e in
    keep-IsServing k s (record v { initiated_by_user = true }, s.out) i
      (record { under = j.under; full = j.full; list = j.list })

create_conversation-Gives :
    (id : Bytes) (cs : List UserInfo) (s : ConversationService)
    → IsServing s
    → is_empty id ≡ false
    → AllNamed cs
    → Gives IsServing (create_conversation id cs s)
unfolding create_conversation
create_conversation-Gives id cs s i e n =
    Gives-bind IsServing IsServing (sync_conversation [] id cs [] s) _
      (sync_conversation-Gives [] id cs [] s i e n)
      (λ s' j. elim (Option-cases (find id s'.conversations)) [
        | inl a ↦ rw a (s', (refl, j))
        | inr (v, a) ↦ rw a (_, (refl, initiated-IsServing id v s' j a))
      ])

quit_conversation-Gives :
    (k : Bytes) (s : ConversationService) → IsServing s → Gives IsServing (quit_conversation k s)
unfolding quit_conversation
quit_conversation-Gives k s i = elim (Option-cases (find k s.conversations)) [
  | inl a ↦ rw (a, quit_conversation) (s, (refl, i))
  | inr (v, a) ↦
      let j = i.each k v a in
      rw (a, quit_conversation)
        (Gives-bind (λ n. n ≡ k) IsServing (id_of v) _ (id_of-Gives s.user_contacts k v j)
          (λ n q.
            Gives-bind (λ _. Unit {0}) IsServing (fire (quit_conversation_event k) _) _
              (fire-Goes (quit_conversation_event k) _ j.full)
              (λ o _. (_, (refl, erase-IsServing k s o i)))))
]

-- A new conversation has a name, and the users who are asked into it have ids.
abbrev pub IsProper : Call → Type 0
IsProper (got m) = IsNamed m.letter.body m.letter.conversation_id
IsProper (opened id cs) = (is_empty id ≡ false) × AllNamed cs
IsProper (ended k) = Unit

abbrev pub AreProper : List Call → Type 0
AreProper [] = Unit
AreProper (c ∷ cs) = IsProper c × AreProper cs

call-Gives :
    (c : Call) (s : ConversationService) → IsServing s → IsProper c → Gives IsServing (call c s)
unfolding call
call-Gives (got m) s i p = receive-Gives m s i p
call-Gives (opened id cs) s i p = create_conversation-Gives id cs s i p.0 p.1
call-Gives (ended k) s i p = quit_conversation-Gives k s i

-- In a conversation service whose conversations stand under their own ids, which are not empty,
-- and in which the contacts of the user and of each conversation have different ids, none of them
-- empty, any sequence of messages of other peers and of calls that create and quit conversations,
-- in which no request to synchronize and no call to create has an empty conversation id and no
-- user given to a new conversation an empty one, fails no contract and leaves the service so.
pub call_all-Gives :
    (cs : List Call) (s : ConversationService)
    → IsServing s
    → AreProper cs
    → Gives IsServing (call_all cs s)
unfolding call_all
call_all-Gives [] s i p = (s, (refl, i))
call_all-Gives (c ∷ cs) s i p =
    Gives-bind IsServing IsServing (call c s) (call_all cs) (call-Gives c s i p.0)
      (λ a j. call_all-Gives cs a j p.1)
