-- ===== src/User/Contacts.antt =====
-- user/user.cpp: `contact_list`, a vector of users with a map from their ids to places in it. Each call
-- holds the mutex. A user's id is taken not to change while it is in a list.
use firestr.Prelude.{
  ℕ, zero, suc, ◌-◌, Bool, true, false, not, List, [], ◌∷◌, ◌++◌, Bytes, bytes_key, Option, none,
  some, Outcome, ok, ◌>>◌, require, ◌==◌, if◌then◌else◌, length, get_elem?,
}
use firestr.Prelude.Maps.{find, assign, erase}

pub record UserInfo : Type 0 where
  pub addresses : List Bytes
  pub name : Bytes
  pub id : Bytes
  pub pkey : Bytes

pub record ContactList : Type 0 where
  pub list : List UserInfo
  pub index : List (Bytes × ℕ)

abbrev pub no_contacts : ContactList
no_contacts = record { list = []; index = [] }

unfoldable pub has_contact : Bytes → ContactList → Bool
has_contact k s = elim (find k s.index) [ none ↦ false | some _ ↦ true ]

-- The contracts at the end compare pointers that were just stored.
unfoldable pub add_contact : UserInfo → ContactList → Bool × ContactList
unfolding has_contact
add_contact c s =
    if has_contact c.id s
    then (false, s)
    else let list = s.list ++ (c ∷ []) in
      (true, record { list = list; index = assign c.id (length list - 1) s.index })

-- `_list.erase(_list.begin() + i)`, which is undefined from the end on.
unfoldable pub erase_at : ℕ → List UserInfo → List UserInfo
erase_at i [] = []
erase_at zero (c ∷ cs) = cs
erase_at (suc i) (c ∷ cs) = c ∷ erase_at i cs

-- The loop of `remove`, from a place on.
unfoldable pub reassign : ℕ → List UserInfo → List (Bytes × ℕ) → List (Bytes × ℕ)
reassign i [] m = m
reassign i (c ∷ cs) m = reassign (suc i) cs (assign c.id i m)

unfoldable pub checked : UserInfo → ContactList → Outcome (Bool × ContactList)
unfolding has_contact
checked c s = do
  require (not (has_contact c.id s))
  require (length s.index == length s.list)
  ok (true, s)

unfoldable pub remove_contact : UserInfo → ContactList → Outcome (Bool × ContactList)
unfolding erase_at reassign checked
remove_contact c s = elim (find c.id s.index) [
  | none ↦ ok (false, s)
  | some i ↦
      let list = erase_at i s.list in
      checked c (record { list = list; index = reassign 0 list (erase c.id s.index) })
]

-- `_list[i]` is undefined from the end on.
unfoldable pub by_id : Bytes → ContactList → Option UserInfo
by_id k s = elim (find k s.index) [ none ↦ none | some i ↦ get_elem? s.list i ]
