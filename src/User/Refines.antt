-- ===== src/User/Refines.antt =====
-- user/user.cpp: `contact_list` does what a list of users with different ids would do.
use firestr.Prelude.{
  ℕ, suc, ◌+◌, ◌-◌, ◌≤◌, ◌≡◌, refl, sym, ap, ◌∙◌, subst, true, false, not, List, [], ◌∷◌, ◌++◌,
  Bytes, bytes_eq, bytes_eq_iff, bytes_key, none, some, ok, ◌==◌, ==_iff, length, length-append,
  arith, Bool-cases, Option-cases, inl, inr,
}
use firestr.Prelude.Maps.{find, assign, erase, assign-fresh, assign-Distinct, Distinct}
use firestr.User.Contacts.{
  UserInfo, ContactList, has_contact, add_contact, remove_contact, by_id, erase_at, reassign,
  checked,
}
use firestr.User.Listed.{
  numbered, listed, Apart, lookup, has, with_user, without, keys, ids, find-has, find-numbered,
  get_elem?-lookup, numbered-append, reassign-numbered, keys-erase, erase-Distinct, length-numbered,
}

without-none : (k : Bytes) (us : List UserInfo) → has k us ≡ false → without k us ≡ us
without-none k [] h = refl
without-none k (c ∷ cs) h = elim (Bool-cases (bytes_eq c.id k)) [
  | inl e ↦ cc (rw e at h)
  | inr n ↦ rw n (ap (λ t. c ∷ t) (without-none k cs (rw n at h)))
]

has-without : (k : Bytes) (us : List UserInfo) → has k (without k us) ≡ false
has-without k [] = refl
has-without k (c ∷ cs) = elim (Bool-cases (bytes_eq c.id k)) [
  | inl e ↦ rw e (has-without k cs)
  | inr n ↦ rw n (rw n (has-without k cs))
]

has-none :
    (k : Bytes) (i : ℕ) (us : List UserInfo) → find k (numbered i us) ≡ none → has k us ≡ false
has-none k i us e = sym (find-has k i us) ∙ rw e refl

numbered_from :
    (k : Bytes) (i : ℕ) (us : List UserInfo) (j : ℕ) → find k (numbered i us) ≡ some j → i ≤ j
unfolding find
numbered_from k i [] j e = cc
numbered_from k i (c ∷ cs) j e = elim (Bool-cases (bytes_eq c.id k)) [
  | inl h ↦ let q : i ≡ j = cc (rw h at e) in omega arith
  | inr n ↦ let p = numbered_from k (suc i) cs j (rw n at e) in omega arith
]

erase_at-without :
    (k : Bytes) (i : ℕ) (us : List UserInfo) (j : ℕ)
    → Distinct (numbered i us)
    → find k (numbered i us) ≡ some j
    → erase_at (j - i) us ≡ without k us
unfolding find erase_at
erase_at-without k i [] j d e = cc
erase_at-without k i (c ∷ cs) j d e = elim (Bool-cases (bytes_eq c.id k)) [
  | inl h ↦
      let q : i ≡ j = cc (rw h at e) in
      let z : j - i ≡ 0 = omega arith in
      let p = (bytes_eq_iff c.id k).0 h in
      let none_left : has k cs ≡ false =
        has-none k (suc i) cs (subst (λ x. find x (numbered (suc i) cs) ≡ none) p d.0) in
      rw (z, h) (sym (without-none k cs none_left))
  | inr n ↦
      let e' : find k (numbered (suc i) cs) ≡ some j = rw n at e in
      let p = numbered_from k (suc i) cs j e' in
      let z : j - i ≡ suc (j - suc i) = omega arith in
      rw (z, n) (ap (λ t. c ∷ t) (erase_at-without k (suc i) cs j d.1 e'))
]

find-keys :
    (k : Bytes) (m m' : List (Bytes × ℕ)) → keys m ≡ keys m' → find k m ≡ none → find k m' ≡ none
unfolding find
find-keys k m [] q e = refl
find-keys k [] (x ∷ m') q e = cc
find-keys k ((j, v) ∷ m) ((j', v') ∷ m') q e =
    let a : j ≡ j' = cc in
    let b : keys m ≡ keys m' = cc in
    elim (Bool-cases (bytes_eq j k)) [
      | inl h ↦ cc (rw h at e)
      | inr n ↦ rw (subst (λ x. bytes_eq x k ≡ false) a n) (find-keys k m m' b (rw n at e))
    ]

Distinct-keys : (m m' : List (Bytes × ℕ)) → keys m ≡ keys m' → Distinct m → Distinct m'
Distinct-keys m [] q d = tt
Distinct-keys [] (x ∷ m') q d = cc
Distinct-keys ((j, v) ∷ m) ((j', v') ∷ m') q d =
    let a : j ≡ j' = cc in
    let b : keys m ≡ keys m' = cc in
    (find-keys j' m m' b (subst (λ x. find x m ≡ none) a d.0), Distinct-keys m m' b d.1)

keys-numbered : (i : ℕ) (us : List UserInfo) → keys (numbered i us) ≡ ids us
keys-numbered i [] = refl
keys-numbered i (c ∷ cs) = ap (λ t. c.id ∷ t) (keys-numbered (suc i) cs)

without-Apart : (k : Bytes) (us : List UserInfo) → Apart us → Apart (without k us)
without-Apart k us d =
    Distinct-keys (erase k (numbered 0 us)) (numbered 0 (without k us))
      (keys-erase k 0 us ∙ sym (keys-numbered 0 (without k us)))
      (erase-Distinct k (numbered 0 us) d)

added :
    (us : List UserInfo) (c : UserInfo)
    → has c.id us ≡ false
    → assign c.id (length (us ++ (c ∷ [])) - 1) (numbered 0 us) ≡ numbered 0 (us ++ (c ∷ []))
added us c h =
    let q : length (us ++ (c ∷ [])) - 1 ≡ 0 + length us =
      omega (arith, length-append us (c ∷ [])) in
    assign-fresh c.id (length (us ++ (c ∷ [])) - 1) (numbered 0 us) (find-numbered c.id 0 us h)
    ∙ (ap (λ n. numbered 0 us ++ ((c.id, n) ∷ [])) q ∙ sym (numbered-append 0 us c))

with_user-Apart : (us : List UserInfo) (c : UserInfo) → Apart us → Apart (with_user c us)
with_user-Apart us c d = elim (Bool-cases (has c.id us)) [
  | inl h ↦ rw h d
  | inr h ↦ rw h (
      subst Distinct (added us c h)
        (assign-Distinct c.id (length (us ++ (c ∷ [])) - 1) (numbered 0 us) d))
]

has_contact-listed : (k : Bytes) (us : List UserInfo) → has_contact k (listed us) ≡ has k us
unfolding has_contact
has_contact-listed k us = find-has k 0 us

add_contact-listed :
    (us : List UserInfo) (c : UserInfo)
    → add_contact c (listed us) ≡ (not (has c.id us), listed (with_user c us))
unfolding add_contact
add_contact-listed us c = elim (Bool-cases (has c.id us)) [
  | inl h ↦ rw (has_contact-listed c.id us, h) refl
  | inr h ↦
      rw (has_contact-listed c.id us, h)
        (ap (λ m. let s : ContactList = record { list = us ++ (c ∷ []); index = m } in (true, s))
          (added us c h))
]

checked-listed :
    (c : UserInfo) (us : List UserInfo)
    → has c.id us ≡ false
    → checked c (listed us) ≡ ok (true, listed us)
unfolding checked
checked-listed c us h =
    let same : (length (numbered 0 us) == length us) ≡ true =
      (==_iff (length (numbered 0 us)) (length us)).1 (length-numbered 0 us) in
    rw (has_contact-listed c.id us, h, same) refl

remove_contact-listed :
    (us : List UserInfo) (c : UserInfo)
    → Apart us
    → remove_contact c (listed us) ≡ ok (has c.id us, listed (without c.id us))
unfolding remove_contact
remove_contact-listed us c d = elim (Option-cases (find c.id (numbered 0 us))) [
  | inl e ↦
      let h = has-none c.id 0 us e in rw (e, remove_contact) (rw (h, without-none c.id us h) refl)
  | inr (j, e) ↦
      let h : has c.id us ≡ true = sym (find-has c.id 0 us) ∙ rw e refl in
      let q : j - 0 ≡ j = omega arith in
      let list : erase_at j us ≡ without c.id us =
        subst (λ n. erase_at n us ≡ without c.id us) q (erase_at-without c.id 0 us j d e) in
      let index : reassign 0 (without c.id us) (erase c.id (numbered 0 us))
          ≡ numbered 0 (without c.id us) =
        reassign-numbered 0 (without c.id us) [] (erase c.id (numbered 0 us)) (keys-erase c.id 0 us)
          (erase-Distinct c.id (numbered 0 us) d) in
      rw (e, remove_contact)
        (rw (list, index, h) (checked-listed c (without c.id us) (has-without c.id us)))
]

pub by_id-listed : (k : Bytes) (us : List UserInfo) → by_id k (listed us) ≡ lookup k us
unfolding by_id
by_id-listed k us = get_elem?-lookup k [] us

lookup-id : (k : Bytes) (us : List UserInfo) (c : UserInfo) → lookup k us ≡ some c → c.id ≡ k
lookup-id k [] c e = cc e
lookup-id k (d ∷ us) c e = elim (Bool-cases (bytes_eq d.id k)) [
  | inl h ↦
      let same : d.id ≡ k = (bytes_eq_iff d.id k).0 h in let f : some d ≡ some c = rw h at e in cc
  | inr n ↦ lookup-id k us c (rw n at e)
]

pub by_id-id :
    (k : Bytes) (us : List UserInfo) (c : UserInfo) → by_id k (listed us) ≡ some c → c.id ≡ k
by_id-id k us c e = lookup-id k us c (sym (by_id-listed k us) ∙ e)

-- A contact list whose map is the numbering of a list of users, no two with the same id, does what
-- that list alone would: add puts a user behind it if the id is new, remove takes the user with
-- the id out with its contracts met, both answer whether they changed it and leave the map as the
-- numbering of the new list, again with no id twice, and by_id gives the user with the id, if
-- there is one.
pub contact_list_refines :
    (us : List UserInfo) (c : UserInfo) (k : Bytes)
    → Apart us
    → (add_contact c (listed us) ≡ (not (has c.id us), listed (with_user c us)))
      × (remove_contact c (listed us) ≡ ok (has c.id us, listed (without c.id us)))
      × (by_id k (listed us) ≡ lookup k us)
      × Apart (with_user c us)
      × Apart (without c.id us)
contact_list_refines us c k d = (
  add_contact-listed us c,
  remove_contact-listed us c d,
  by_id-listed k us,
  with_user-Apart us c d,
  without-Apart c.id us d,
)
