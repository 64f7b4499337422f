-- ===== src/Conversation/Stuck.antt =====
-- conversation/conversation_service.cpp: a conversation that all contacts left while a user was
-- pending, and a conversation without a name.
use firestr.Prelude.{
  ◌>>=◌, Outcome, leb, length, ◌==◌, ◌≡◌, refl, true, false, List, [], ◌∷◌, Bytes, bytes_key, none,
  some, aborted, Bool-cases, inl, inr,
}
use firestr.Prelude.Maps.{find}
use firestr.User.Contacts.{UserInfo, ContactList, no_contacts, by_id}
use firestr.UserService.Pings.{is_symmetric}
use firestr.Conversation.{ReqState}
use firestr.Conversation.Answers.{among}
use firestr.Conversation.Members.{Conversation, is_empty, new_conversation}
use firestr.Conversation.Service.{sync_msg, Out, add_contacts, ids_of}
use firestr.Conversation.Handlers.{
  add_all, contact_list_of, known_contacts, ConversationService, Received, answered,
  sync_conversation, received_sync, dispatch, receive,
}
use firestr.Conversation.Lists.{AllNamed, Gives}
use firestr.Conversation.Kept.{IsOpen}
use firestr.Conversation.Unasked.{add_contacts-stuck, among-named, answered-Unasked}

-- In a conversation with a name and with an empty contact list, map included, that still has a
-- pending user, add_contacts of any users whose ids are not empty leaves it without contacts,
-- sends nothing and raises no event. Each of those users is then pending with nobody asked: what
-- received_ask_contact_res does with an answer about it, once the sender, the user and the
-- conversation are found, fails no contract and puts it into the conversation, whoever sent the
-- answer and whatever it says.
pub add_contacts_nobody :
    (users : ContactList) (k : Bytes) (cs : List UserInfo) (v : Conversation) (o : Out)
    → IsOpen k v
    → v.contacts.list ≡ []
    → is_empty v.pending_adds ≡ false
    → AllNamed cs
    → Gives
        (λ r.
          (r.0.contacts.list ≡ [])
          × ((r.1 ≡ o)
              × ((from : Bytes) (answer : ReqState) (c : UserInfo) (s : ConversationService)
                  → among c.id (ids_of cs) ≡ true
                  → Gives
                      (λ r'. by_id c.id r'.0.contacts ≡ some c)
                      (answered from c.id answer c s r.0))))
        (add_contacts users cs v o)
add_contacts_nobody users k cs v o i alone waits n =
    let (r, (q, s)) =
      add_contacts-stuck users k cs v o (record { is_open = i; alone = alone; waits = waits }) n in
    (
      r,
      (
        q,
        (
          s.stuck.alone,
          (
            s.silent,
            λ from answer c s' h.
                answered-Unasked k from answer c s' r.0 s.stuck (among-named c.id cs n h)
                  (s.unasked c.id (inl h)),
          ),
        ),
      ),
    )

contact_list_of-aborted :
    {A : Type 0} (cs : List UserInfo) (k : ContactList → Outcome A)
    → ((l : ContactList) → k l ≡ aborted)
    → (contact_list_of cs >>= k) ≡ aborted
unfolding contact_list_of
contact_list_of-aborted cs k f =
    let l = add_all cs no_contacts in
    elim (Bool-cases (length l.list == length l.index)) [
      | inr a ↦ rw a refl
      | inl a ↦ elim (Bool-cases (leb (length l.list) (length cs))) [
        | inr b ↦ rw (a, b) refl
        | inl b ↦ rw (a, b) (f l)
      ]
    ]

-- A request of a contact to synchronize a conversation whose id is empty, encrypted symmetrically,
-- fails a contract, which ends the process, where no conversation stands under the empty id.
pub receive_unnamed :
    (m : Received) (ids apps : List Bytes) (c : UserInfo) (s : ConversationService)
    → is_symmetric m.encryption ≡ true
    → m.letter.body ≡ sync_msg ids apps
    → m.letter.conversation_id ≡ []
    → by_id m.from_id s.user_contacts ≡ some c
    → find [] s.conversations ≡ none
    → receive m s ≡ aborted
unfolding receive dispatch received_sync sync_conversation new_conversation is_empty
receive_unnamed m ids apps c s sym_key body unnamed known fresh =
    rw (sym_key, body, unnamed, receive, dispatch)
      (rw (known, received_sync)
        (contact_list_of-aborted (c ∷ known_contacts ids s) _ (λ l. rw fresh refl)))
