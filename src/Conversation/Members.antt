-- ===== src/Conversation/Members.antt =====
-- conversation/conversation.hpp and conversation/conversation.cpp: a conversation, its contacts and
-- its applications.
use firestr.Prelude.{
  Bool, true, false, not, ◌||◌, List, [], ◌∷◌, Bytes, bytes_eq, bytes_key, none, some, Outcome, ok,
  ◌>>=◌, ◌>>◌, require, codes, if◌then◌else◌,
}
use firestr.Prelude.Maps.{find, assign, erase}
use firestr.User.Contacts.{UserInfo, ContactList, no_contacts, by_id, add_contact, remove_contact}
use firestr.Conversation.{PendingContactAdds, insert}

pub record AppMetadatum : Type 0 where
  pub type : Bytes
  pub id : Bytes
  pub address : Bytes

-- Its mailbox and its sender are part of the service's state.
pub record Conversation : Type 0 where
  pub id : Bytes
  pub contacts : ContactList
  pub removed : List Bytes
  pub app_metadata : List (Bytes × AppMetadatum)
  pub pending_adds : PendingContactAdds
  pub initiated_by_user : Bool

unfoldable pub is_empty {ℓ} : {A : Type ℓ} → List A → Bool
is_empty [] = true
is_empty (a ∷ as') = false

abbrev pub without_id : Bytes → List Bytes → List Bytes
without_id k [] = []
without_id k (j ∷ js) = if bytes_eq j k then without_id k js else j ∷ without_id k js

-- The constructor, and the contract of `init`.
unfoldable pub new_conversation : Bytes → Outcome Conversation
unfolding is_empty
new_conversation id = do
  require (not (is_empty id))
  ok (record {
    id = id;
    contacts = no_contacts;
    removed = [];
    app_metadata = [];
    pending_adds = [];
    initiated_by_user = false;
  })

unfoldable pub remove_member : Bytes → Conversation → Outcome Conversation
remove_member id v = elim (by_id id v.contacts) [
  | none ↦ ok (record v { pending_adds = erase id v.pending_adds })
  | some c ↦ do
    r ← remove_contact c v.contacts
    ok (record v {
      contacts = r.1;
      removed = insert id v.removed;
      pending_adds = erase id v.pending_adds;
    })
]

unfoldable pub add_member : UserInfo → Conversation → Conversation
add_member c v = record v {
  contacts = (add_contact c v.contacts).1;
  removed = without_id c.id v.removed;
}

unfoldable pub has_app : Bytes → Conversation → Bool
has_app address v = elim (find address v.app_metadata) [ none ↦ false | some _ ↦ true ]

unfoldable pub add_app : AppMetadatum → Conversation → Outcome Conversation
unfolding is_empty
add_app d v = do
  require (not (bytes_eq d.type (codes "SCRIPT_APP")) || not (is_empty d.id))
  require (not (is_empty d.type))
  require (not (is_empty d.address))
  ok (record v { app_metadata = assign d.address d v.app_metadata })
