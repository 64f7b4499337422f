-- ===== src/Conversation.antt =====
-- conversation/conversation.hpp and conversation/conversation.cpp: whether all contacts of a conversation know a user who may join.
-- The ids of the contacts, in the order of `_contacts.list()`, are an argument.
use firestr.Prelude.{
  ℕ, zero, suc, ◌+◌, Bool, true, false, not, List, [], ◌∷◌, Bytes, bytes_eq, bytes_key, Option,
  none, some, ◌==◌, if◌then◌else◌, length,
}
use firestr.Prelude.Maps.{find, assign, erase}
pub mod Answers
pub mod Clique
pub mod Members
pub mod Service
pub mod Handlers
pub mod Lists
pub mod Kept
pub mod Served
pub mod Steps
pub mod Calls
pub mod Admission
pub mod Unasked
pub mod Stuck
mod Tests

pub data ReqState : Type 0 where
  sent dont_know know : ReqState

pub record KnowRequest : Type 0 where
  pub to : Bytes
  pub state : ReqState

abbrev pub KnowRequests : Type 0
KnowRequests = List (Bytes × KnowRequest)

pub record PendingContact : Type 0 where
  pub id : Bytes
  pub from : Bytes
  pub name : Bytes

pub record PendingContactAdd : Type 0 where
  pub contact : PendingContact
  pub requests : KnowRequests

abbrev pub PendingContactAdds : Type 0
PendingContactAdds = List (Bytes × PendingContactAdd)

-- `unsure` is DONT_KNOW of clique_status.
pub data Status : Type 0 where
  not_part part unsure : Status

pub record CliqueStatus : Type 0 where
  pub is_part : Status
  pub contacts : List Bytes

abbrev pub new_contact : PendingContact
new_contact = record { id = []; from = []; name = [] }

-- `_pending_adds[id].contact`
unfoldable pub contact_of : Option PendingContactAdd → PendingContact
contact_of none = new_contact
contact_of (some a) = a.contact

unfoldable pub ask_all : List Bytes → KnowRequests → KnowRequests
ask_all [] r = r
ask_all (c ∷ cs) r = ask_all cs (assign c (record { to = c; state = sent }) r)

unfoldable pub asked_about : Bytes → List Bytes → PendingContactAdds → PendingContactAdds
unfolding contact_of ask_all
asked_about id cs p =
    let contact : PendingContact = record (contact_of (find id p)) { id = id } in
    assign id (record { contact = contact; requests = ask_all cs [] }) p

unfoldable pub answer_request : Bytes → ReqState → KnowRequests → KnowRequests
answer_request from s r = elim (find from r) [
  | none ↦ r
  | some q ↦ assign from (record q { state = s }) r
]

unfoldable pub know_contact : Bytes → Bytes → ReqState → PendingContactAdds → PendingContactAdds
unfolding answer_request
know_contact id from s p = elim (find id p) [
  | none ↦ p
  | some a ↦ assign id (record a { requests = answer_request from s a.requests }) p
]

abbrev pub is_sent : ReqState → Bool
is_sent sent = true
is_sent dont_know = false
is_sent know = false

abbrev pub is_known : ReqState → Bool
is_known sent = false
is_known dont_know = false
is_known know = true

-- `std::count_if` over the requests.
unfoldable pub how_many : (ReqState → Bool) → KnowRequests → ℕ
how_many f [] = 0
how_many f ((k, q) ∷ r) = (if f q.state then 1 else 0) + how_many f r

-- `std::set::insert`, in some order.
abbrev pub insert : Bytes → List Bytes → List Bytes
insert k [] = k ∷ []
insert k (j ∷ s) = if bytes_eq j k then j ∷ s else j ∷ insert k s

-- `if(req.second.state == know_request::DONT_KNOW) r.contacts.insert(r.contacts.end(), …)`
unfoldable pub strangers : KnowRequests → List Bytes → List Bytes
strangers [] s = s
strangers ((k, q) ∷ r) s = elim q.state [
  | sent ↦ strangers r s
  | dont_know ↦ strangers r (insert q.to s)
  | know ↦ strangers r s
]

unfoldable pub judge : ℕ → KnowRequests → CliqueStatus
unfolding how_many strangers
judge size r =
    if not (length r == size)
    then record { is_part = unsure; contacts = [] }
    else if not (how_many is_sent r == 0)
    then record { is_part = unsure; contacts = [] }
    else if how_many is_known r == length r
    then record { is_part = part; contacts = [] }
    else record { is_part = not_part; contacts = strangers r [] }

-- With the size of `_contacts`.
unfoldable pub part_of_clique : Bytes → ℕ → PendingContactAdds → CliqueStatus
unfolding judge
part_of_clique id size p = elim (find id p) [
  | none ↦ record { is_part = unsure; contacts = [] }
  | some a ↦ judge size a.requests
]
