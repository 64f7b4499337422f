-- ===== src/User/Tests.antt =====
-- A list of two contacts.
use firestr.Prelude.{◌≡◌, refl, not, true, [], ◌∷◌, List, Bytes, some, ok, bytes_key, codes}
use firestr.Prelude.Maps.{find}
use firestr.User.Contacts.{UserInfo, add_contact, remove_contact, by_id}
use firestr.User.Listed.{Apart, listed}
use firestr.User.Refines.{contact_list_refines}

abbrev user : Bytes → UserInfo
user id = record {
  addresses = codes "tcp://1.2.3.4:70" ∷ [];
  name = id;
  id = id;
  pkey = codes "key";
}

abbrev two : List UserInfo
two = user (codes "ann") ∷ user (codes "bob") ∷ []

two-Apart : Apart two
unfolding find
two-Apart = (refl, (refl, tt))

contact_list_refines_example :
    (add_contact (user (codes "ann")) (listed two) ≡ (not true, listed two))
    × (remove_contact (user (codes "ann")) (listed two)
        ≡ ok (true, listed (user (codes "bob") ∷ [])))
    × (by_id (codes "bob") (listed two) ≡ some (user (codes "bob")))
    × Apart two
    × Apart (user (codes "bob") ∷ [])
contact_list_refines_example = contact_list_refines two (user (codes "ann")) (codes "bob") two-Apart
