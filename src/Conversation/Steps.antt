-- ===== src/Conversation/Steps.antt =====
-- conversation/conversation_service.cpp: any messages of other peers.
use firestr.Prelude.{
  Option-cases, Bool-cases, sym, ap, ◌∙◌, ◌≡◌, refl, Bool, true, false, inl, inr, ℤ, List, ◌∷◌,
  Bytes, bytes_key, ok, if◌then◌else◌, length,
}
use firestr.Prelude.Maps.{find}
use firestr.User.Contacts.{UserInfo, by_id, has_contact}
use firestr.Conversation.{ReqState, part_of_clique, know_contact}
use firestr.Conversation.Members.{Conversation, is_empty, new_conversation, remove_member}
use firestr.Conversation.Service.{
  Body, sync_msg, quit_msg, ask_contact_req, ask_contact_res, app_request, Out, fire,
  new_conversation_event, contact_removed, add_contacts, needed, request_apps,
}
use firestr.Conversation.Handlers.{
  ConversationService, keep, contact_list_of, sync_with, sync_conversation, known_contacts,
  received_sync, received_quit, received_ask_contact_req, answered, answer_of,
  received_ask_contact_res, dispatch,
}
use firestr.Conversation.Lists.{
  Gives, Gives-bind, AllNamed, by_id-IsList, no_contacts-IsList, IsList, contact_list_of-IsList,
}
use firestr.Conversation.Kept.{
  Goes, IsOpen, fire-Goes, IsOpenWith, add_contacts-Gives, request_apps-Goes, remove_member-Gives,
}
use firestr.Conversation.Served.{
  act_on-Gives, clique_of_lem, part_of_clique_full, IsServing, keep-IsServing, list-AllNamed,
  known_contacts-AllNamed,
}

event-Goes :
    (is_new : Bool) (k : Bytes) (o : Out)
    → is_empty k ≡ false
    → Goes (if is_new then fire (new_conversation_event k) o else ok o)
event-Goes true k o e = fire-Goes (new_conversation_event k) o e
event-Goes false k o e = (o, (refl, tt))

IsServing-frame :
    (s : ConversationService) (posted : List Bytes)
    → IsServing s
    → IsServing (record s { posted = posted })
IsServing-frame s posted i = record { users = i.users; each = i.each }

sync_with-Gives :
    (is_new : Bool) (from_id k : Bytes) (cs : List UserInfo) (apps : List Bytes)
    (s : ConversationService) (v : Conversation)
    → IsServing s
    → IsOpen k v
    → AllNamed cs
    → Gives IsServing (sync_with is_new from_id k cs apps s v)
unfolding sync_with
sync_with-Gives is_new from_id k cs apps s v i j n =
    let users = s.user_contacts in
    Gives-bind (IsOpenWith users k) IsServing (add_contacts users cs v s.out) _
      (add_contacts-Gives users k cs v s.out j n)
      (λ r o.
        Gives-bind (λ _. Unit {0}) IsServing
          (if is_new then fire (new_conversation_event k) r.1 else ok r.1) _
          (event-Goes is_new k r.1 j.full)
          (λ o1 _.
            Gives-bind (λ _. Unit {0}) IsServing
              (request_apps users from_id (needed apps r.0) r.0 o1) _
              (request_apps-Goes users k from_id (needed apps r.0) r.0 o1 o)
              (λ o2 _. (
                _,
                (
                  refl,
                  IsServing-frame (keep k s (r.0, o2)) (if is_new then k ∷ s.posted else s.posted)
                      (keep-IsServing k s (r.0, o2) i o),
                ),
              ))))

new_conversation-Gives : (k : Bytes) → is_empty k ≡ false → Gives (IsOpen k) (new_conversation k)
unfolding new_conversation
new_conversation-Gives k e =
    rw e (_, (refl, record { under = refl; full = e; list = no_contacts-IsList }))

pub sync_conversation-Gives :
    (from_id k : Bytes) (cs : List UserInfo) (apps : List Bytes) (s : ConversationService)
    → IsServing s
    → is_empty k ≡ false
    → AllNamed cs
    → Gives IsServing (sync_conversation from_id k cs apps s)
unfolding sync_conversation
sync_conversation-Gives from_id k cs apps s i e n =
    Gives-bind IsList IsServing (contact_list_of cs) _ (contact_list_of-IsList cs n) (λ l j.
      let m = list-AllNamed l j in
      elim (Option-cases (find k s.conversations)) [
        | inl a ↦ rw a (
            Gives-bind (IsOpen k) IsServing (new_conversation k) _ (new_conversation-Gives k e)
              (λ v o. sync_with-Gives true from_id k l.list apps s v i o m))
        | inr (v, a) ↦ rw a (sync_with-Gives false from_id k l.list apps s v i (i.each k v a) m)
      ])

received_sync-Gives :
    (from_id k : Bytes) (ids apps : List Bytes) (s : ConversationService)
    → IsServing s
    → is_empty k ≡ false
    → Gives IsServing (received_sync from_id k ids apps s)
unfolding received_sync
received_sync-Gives from_id k ids apps s i e = elim (Option-cases (by_id from_id s.user_contacts)) [
  | inl a ↦ rw (a, received_sync) (s, (refl, i))
  | inr (c, a) ↦
      rw (a, received_sync)
        (sync_conversation-Gives from_id k (c ∷ known_contacts ids s) apps s i e
          ((by_id-IsList from_id s.user_contacts c i.users a).1, known_contacts-AllNamed ids s i))
]

received_quit-Gives :
    (from_id k : Bytes) (s : ConversationService)
    → IsServing s
    → Gives IsServing (received_quit from_id k s)
unfolding received_quit
received_quit-Gives from_id k s i = elim (Option-cases (by_id from_id s.user_contacts)) [
  | inl a ↦ rw (a, received_quit) (s, (refl, i))
  | inr (c, a) ↦ elim (Option-cases (find k s.conversations)) [
    | inl b ↦ rw (a, b, received_quit) (s, (refl, i))
    | inr (v, b) ↦
        let j = i.each k v b in
        let (same, full) = by_id-IsList from_id s.user_contacts c i.users a in
        rw (a, b, received_quit)
          (Gives-bind (IsOpen k) IsServing (remove_member from_id v) _
            (remove_member-Gives k from_id v j)
            (λ w h.
              Gives-bind (λ _. Unit {0}) IsServing (fire (contact_removed k from_id) s.out) _
                (fire-Goes (contact_removed k from_id) s.out
                  (j.full, ap is_empty (sym same) ∙ full))
                (λ o _. (_, (refl, keep-IsServing k s (w, o) i h)))))
  ]
]

received_ask_contact_req-Gives :
    (from_id k id : Bytes) (s : ConversationService)
    → IsServing s
    → Gives IsServing (received_ask_contact_req from_id k id s)
unfolding received_ask_contact_req
received_ask_contact_req-Gives from_id k id s i =
    elim (Bool-cases (has_contact from_id s.user_contacts)) [
      | inr h ↦ rw (h, received_ask_contact_req) (s, (refl, i))
      | inl h ↦ elim (Option-cases (find k s.conversations)) [
        | inl b ↦ rw (h, b, received_ask_contact_req) (s, (refl, i))
        | inr (v, b) ↦
            rw (h, b, received_ask_contact_req)
              (_, (refl, record { users = i.users; each = i.each }))
      ]
    ]

answered-Gives :
    (k from_id id : Bytes) (answer : ReqState) (c : UserInfo) (s : ConversationService)
    (v : Conversation)
    → IsOpen k v
    → is_empty c.id ≡ false
    → Gives (IsOpenWith s.user_contacts k) (answered from_id id answer c s v)
unfolding answered
answered-Gives k from_id id answer c s v j e =
    let p = know_contact id from_id answer v.pending_adds in
    let w : Conversation = record v { pending_adds = p } in
    let size = length w.contacts.list in
    rw (clique_of_lem id w j.list) (
      act_on-Gives s.user_contacts k (part_of_clique id size p) c w s.out
        (record { under = j.under; full = j.full; list = j.list }) e
        (part_of_clique_full id size p))

received_ask_contact_res-Gives :
    (from_id k id : Bytes) (status : ℤ) (s : ConversationService)
    → IsServing s
    → Gives IsServing (received_ask_contact_res from_id k id status s)
unfolding received_ask_contact_res
received_ask_contact_res-Gives from_id k id status s i =
    elim (Option-cases (by_id from_id s.user_contacts)) [
      | inl a ↦ rw (a, received_ask_contact_res) (s, (refl, i))
      | inr (f, a) ↦ elim (Option-cases (by_id id s.user_contacts)) [
        | inl b ↦ rw (a, b, received_ask_contact_res) (s, (refl, i))
        | inr (c, b) ↦ elim (Option-cases (find k s.conversations)) [
          | inl d ↦ rw (a, b, d, received_ask_contact_res) (s, (refl, i))
          | inr (v, d) ↦
              let j = i.each k v d in
              rw (a, b, d, received_ask_contact_res)
                (Gives-bind (IsOpenWith s.user_contacts k) IsServing
                  (answered from_id id (answer_of status) c s v) _
                  (answered-Gives k from_id id (answer_of status) c s v j
                    (by_id-IsList id s.user_contacts c i.users b).1)
                  (λ r h. (_, (refl, keep-IsServing k s r i h))))
        ]
      ]
    ]

-- A letter that asks to synchronize a conversation names it.
abbrev pub IsNamed : Body → Bytes → Type 0
IsNamed (sync_msg ids apps) k = is_empty k ≡ false
IsNamed quit_msg k = Unit
IsNamed (ask_contact_req id) k = Unit
IsNamed (ask_contact_res id status) k = Unit
IsNamed (app_request a) k = Unit

pub dispatch-Gives :
    (m : Body) (from_id k : Bytes) (s : ConversationService)
    → IsServing s
    → IsNamed m k
    → Gives IsServing (dispatch m from_id k s)
unfolding dispatch
dispatch-Gives (sync_msg ids apps) from_id k s i n = received_sync-Gives from_id k ids apps s i n
dispatch-Gives quit_msg from_id k s i n = received_quit-Gives from_id k s i
dispatch-Gives (ask_contact_req id) from_id k s i n =
    received_ask_contact_req-Gives from_id k id s i
dispatch-Gives (ask_contact_res id status) from_id k s i n =
    received_ask_contact_res-Gives from_id k id status s i
dispatch-Gives (app_request a) from_id k s i n = (s, (refl, i))
