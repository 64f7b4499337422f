-- ===== src/Conversation/Tests.antt =====
-- Three contacts that are asked about a fourth user; one of them answers twice. A service with a
-- conversation with ann and bob, who were asked about zoe.
use firestr.Prelude.{◌≡◌, refl, true, [], ◌∷◌, List, Bytes, codes, some, aborted, pos, bytes_key}
use firestr.Prelude.Maps.{find, assign}
use firestr.Envelope.{symmetric}
use firestr.User.Contacts.{UserInfo, by_id}
use firestr.User.Listed.{listed}
use firestr.UserService.Pings.{is_symmetric}
use firestr.Conversation.{ReqState, dont_know, know, asked_about}
use firestr.Conversation.Answers.{Answers, answer_all, among}
use firestr.Conversation.Members.{Conversation, is_empty}
use firestr.Conversation.Service.{sync_msg, quit_msg, ask_contact_res, Out, ids_of, add_contacts}
use firestr.Conversation.Handlers.{
  ConversationService, Call, got, opened, ended, keep, answered, answer_of,
  received_ask_contact_res, receive, call_all,
}
use firestr.Conversation.Lists.{Gives, IsList}
use firestr.Conversation.Served.{IsServing, keep-IsServing}
use firestr.Conversation.Calls.{call_all-Gives}
use firestr.Conversation.Admission.{answer_joins}
use firestr.Conversation.Stuck.{add_contacts_nobody, receive_unnamed}

abbrev friends : List Bytes
friends = codes "ann" ∷ codes "bob" ∷ codes "eve" ∷ []

-- The newest first.
abbrev answers : Answers
answers =
    (codes "bob", dont_know) ∷ (codes "eve", know) ∷ (codes "ann", know) ∷ (codes "bob", know) ∷ []

abbrev friend : Bytes → UserInfo
friend id = record {
  addresses = codes "udp://1.2.3.4:70" ∷ [];
  name = id;
  id = id;
  pkey = codes "key";
}

abbrev two : List UserInfo
two = friend (codes "ann") ∷ friend (codes "bob") ∷ []

abbrev three : List UserInfo
three = friend (codes "zoe") ∷ two

two-IsList : IsList (listed two)
unfolding find is_empty
two-IsList = record {
  users = two;
  same = refl;
  apart = (refl, (refl, tt));
  named = (refl, (refl, tt));
}

three-IsList : IsList (listed three)
unfolding find is_empty
three-IsList = record {
  users = three;
  same = refl;
  apart = (refl, (refl, (refl, tt)));
  named = (refl, (refl, (refl, tt)));
}

abbrev talk : List UserInfo → Conversation
talk us = record {
  id = codes "talk";
  contacts = listed us;
  removed = [];
  app_metadata = [];
  pending_adds = asked_about (codes "zoe") (ids_of us) [];
  initiated_by_user = true;
}

abbrev nothing : Out
nothing = record { sent = []; notices = [] }

abbrev idle_service : ConversationService
idle_service = record {
  user_contacts = listed three;
  my_id = codes "me";
  conversations = [];
  posted = [];
  out = nothing;
}

abbrev service : ConversationService
service = keep (codes "talk") idle_service (talk two, nothing)

service-IsServing : IsServing service
unfolding find is_empty
service-IsServing =
    keep-IsServing (codes "talk") idle_service (talk two, nothing)
      (record { users = three-IsList; each = λ k v e. cc e })
      (record { under = refl; full = refl; list = two-IsList })

abbrev calls : List Call
calls =
    got (record {
      encryption = symmetric;
      from_id = codes "ann";
      letter = record {
        conversation_id = codes "talk";
        body = ask_contact_res (codes "zoe") (pos 1);
      };
    })
    ∷ got (record {
      encryption = symmetric;
      from_id = codes "bob";
      letter = record { conversation_id = codes "talk"; body = quit_msg };
    })
    ∷ got (record {
      encryption = symmetric;
      from_id = codes "zoe";
      letter = record {
        conversation_id = codes "new";
        body = sync_msg (codes "me" ∷ codes "ann" ∷ []) (codes "chat" ∷ []);
      };
    })
    ∷ opened (codes "plan") three
    ∷ ended (codes "talk")
    ∷ []

call_all-Gives_example : Gives IsServing (call_all calls service)
unfolding is_empty
call_all-Gives_example =
    call_all-Gives calls service service-IsServing
      (tt, (tt, (refl, ((refl, (refl, (refl, (refl, tt)))), (tt, tt)))))

answer_joins_example :
    Gives
      (λ s'.
        (w : Conversation) × ((find (codes "talk") s'.conversations ≡ some w)
          × (by_id (codes "zoe") w.contacts ≡ some (friend (codes "zoe")))))
      (received_ask_contact_res (codes "bob") (codes "talk") (codes "zoe") (pos 1) (
        keep (codes "talk") idle_service (
          record (talk two) {
            pending_adds =
                answer_all
                  (codes "zoe")
                  ((codes "ann", know) ∷ [])
                  (asked_about (codes "zoe") (ids_of two) []);
          },
          nothing,
        )))
unfolding find assign by_id answer_of is_empty
answer_joins_example =
    let v : Conversation = record (talk two) {
      pending_adds =
          answer_all (codes "zoe") ((codes "ann", know) ∷ [])
            (asked_about (codes "zoe") (ids_of two) []);
    } in
    answer_joins (codes "talk") (codes "bob") (codes "zoe") (pos 1) (friend (codes "bob"))
      (friend (codes "zoe")) (keep (codes "talk") idle_service (v, nothing)) v
      ((codes "ann", know) ∷ []) []
      (keep-IsServing (codes "talk") idle_service (v, nothing)
        (record { users = three-IsList; each = λ k x e. cc e })
        (record { under = refl; full = refl; list = two-IsList }))
      refl refl refl refl refl

add_contacts_nobody_example :
    Gives
      (λ r.
        (r.0.contacts.list ≡ [])
        × ((r.1 ≡ nothing)
            × ((from : Bytes) (answer : ReqState) (c : UserInfo) (s : ConversationService)
                → among c.id (codes "ann" ∷ codes "bob" ∷ []) ≡ true
                → Gives
                    (λ r'. by_id c.id r'.0.contacts ≡ some c)
                    (answered from c.id answer c s r.0))))
      (add_contacts (listed three) two (talk []) nothing)
unfolding is_empty asked_about assign
add_contacts_nobody_example =
    add_contacts_nobody (listed three) (codes "talk") two (talk []) nothing
      (record {
        under = refl;
        full = refl;
        list = record { users = []; same = refl; apart = tt; named = tt };
      })
      refl refl (refl, (refl, tt))

receive_unnamed_example :
    receive
      (record {
        encryption = symmetric;
        from_id = codes "ann";
        letter = record { conversation_id = []; body = sync_msg [] [] };
      })
      service
    ≡ aborted
unfolding find assign by_id is_symmetric
receive_unnamed_example =
    receive_unnamed
      (record {
        encryption = symmetric;
        from_id = codes "ann";
        letter = record { conversation_id = []; body = sync_msg [] [] };
      })
      [] [] (friend (codes "ann")) service refl refl refl refl refl
