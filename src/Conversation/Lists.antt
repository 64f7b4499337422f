-- ===== src/Conversation/Lists.antt =====
-- user/user.cpp: lists of contacts with different ids, none of them empty, as the services keep them.
use firestr.Prelude.{
  true, arith, ◌+◌, ◌≤◌, leb, ◌==◌, ==_iff, length, length-append, ◌≡◌, refl, sym, ap, ◌∙◌, subst,
  Bool, false, not, List, [], ◌∷◌, ◌++◌, Bytes, bytes_eq, bytes_key, some, Outcome, ok, ◌>>=◌, ◌>>◌,
  require, Bool-cases, inl, inr,
}
use firestr.User.Contacts.{
  UserInfo, ContactList, no_contacts, by_id, add_contact, remove_contact, has_contact,
}
use firestr.User.Listed.{Apart, listed, lookup, has, with_user, without, length-numbered}
use firestr.User.Refines.{by_id-listed, by_id-id, contact_list_refines}
use firestr.Conversation.Handlers.{add_all, contact_list_of}
use firestr.Conversation.Members.{is_empty}

-- The call returns a value of which P holds.
abbrev pub Gives {ℓ} : {A : Type 0} → (A → Type ℓ) → Outcome A → Type ℓ
Gives {A = A} P r = (a : A) × ((r ≡ ok a) × P a)

pub Gives-bind {ℓ κ} :
    {A B : Type 0} (P : A → Type ℓ) (Q : B → Type κ) (r : Outcome A) (k : A → Outcome B)
    → Gives P r
    → ((a : A) → P a → Gives Q (k a))
    → Gives Q (r >>= k)
Gives-bind P Q r k (a, (e, p)) f = subst (λ x. Gives Q (x >>= k)) (sym e) (f a p)

pub Gives-then {ℓ} :
    {A : Type 0} (Q : A → Type ℓ) (b : Bool) (r : Outcome A)
    → b ≡ false
    → Gives Q r
    → Gives Q (require (not b) >> r)
Gives-then Q b r e g = rw e g

abbrev pub AllNamed : List UserInfo → Type 0
AllNamed [] = Unit
AllNamed (c ∷ cs) = (is_empty c.id ≡ false) × AllNamed cs

-- Users with different ids, none of them empty, and the map of their places.
pub record IsList (l : ContactList) : Type 0 where
  pub users : List UserInfo
  pub same : l ≡ listed users
  pub apart : Apart users
  pub named : AllNamed users

lookup-AllNamed :
    (k : Bytes) (us : List UserInfo) (c : UserInfo)
    → AllNamed us
    → lookup k us ≡ some c
    → is_empty c.id ≡ false
lookup-AllNamed k [] c n e = cc e
lookup-AllNamed k (d ∷ us) c n e = elim (Bool-cases (bytes_eq d.id k)) [
  | inl h ↦
      let f : some d ≡ some c = rw h at e in
      let g : d ≡ c = cc in subst (λ x. is_empty x.id ≡ false) g n.0
  | inr h ↦ lookup-AllNamed k us c n.1 (rw h at e)
]

AllNamed-append :
    (us : List UserInfo) (c : UserInfo)
    → is_empty c.id ≡ false
    → AllNamed us
    → AllNamed (us ++ (c ∷ []))
AllNamed-append [] c e n = (e, tt)
AllNamed-append (d ∷ us) c e n = (n.0, AllNamed-append us c e n.1)

without-AllNamed : (k : Bytes) (us : List UserInfo) → AllNamed us → AllNamed (without k us)
without-AllNamed k [] n = tt
without-AllNamed k (d ∷ us) n = elim (Bool-cases (bytes_eq d.id k)) [
  | inl h ↦ rw h (without-AllNamed k us n.1)
  | inr h ↦ rw h (n.0, without-AllNamed k us n.1)
]

with_user-AllNamed :
    (c : UserInfo) (us : List UserInfo)
    → is_empty c.id ≡ false
    → AllNamed us
    → AllNamed (with_user c us)
with_user-AllNamed c us e n = elim (Bool-cases (has c.id us)) [
  | inl h ↦ rw h n
  | inr h ↦ rw h (AllNamed-append us c e n)
]

pub by_id-IsList :
    (k : Bytes) (l : ContactList) (c : UserInfo)
    → IsList l
    → by_id k l ≡ some c
    → (c.id ≡ k) × (is_empty c.id ≡ false)
by_id-IsList k l c i e =
    let f : by_id k (listed i.users) ≡ some c = ap (by_id k) (sym i.same) ∙ e in
    (by_id-id k i.users c f, lookup-AllNamed k i.users c i.named (sym (by_id-listed k i.users) ∙ f))

pub no_contacts-IsList : IsList no_contacts
no_contacts-IsList = record { users = []; same = refl; apart = tt; named = tt }

pub add_contact-IsList :
    (c : UserInfo) (l : ContactList) → IsList l → is_empty c.id ≡ false → IsList (add_contact c l).1
add_contact-IsList c l i e =
    let (added, _, _, apart, _) = contact_list_refines i.users c c.id i.apart in
    record {
      users = with_user c i.users;
      same = ap (λ x. (add_contact c x).1) i.same ∙ ap (λ r. r.1) added;
      apart = apart;
      named = with_user-AllNamed c i.users e i.named;
    }

pub remove_contact-IsList :
    (c : UserInfo) (l : ContactList) → IsList l → Gives (λ r. IsList r.1) (remove_contact c l)
remove_contact-IsList c l i =
    let (_, removed, _, _, apart) = contact_list_refines i.users c c.id i.apart in
    (
      (has c.id i.users, listed (without c.id i.users)),
      (
        ap (remove_contact c) i.same ∙ removed,
        record {
          users = without c.id i.users;
          same = refl;
          apart = apart;
          named = without-AllNamed c.id i.users i.named;
        },
      ),
    )

add_all-IsList :
    (cs : List UserInfo) (l : ContactList) → AllNamed cs → IsList l → IsList (add_all cs l)
unfolding add_all
add_all-IsList [] l n i = i
add_all-IsList (c ∷ cs) l n i =
    add_all-IsList cs (add_contact c l).1 n.1 (add_contact-IsList c l i n.0)

length-add_contact :
    (c : UserInfo) (l : ContactList) → length (add_contact c l).1.list ≤ length l.list + 1
unfolding add_contact
length-add_contact c l = elim (Bool-cases (has_contact c.id l)) [
  | inl h ↦ rw (h, add_contact) (omega arith)
  | inr h ↦ rw (h, add_contact) (omega (arith, length-append l.list (c ∷ [])))
]

length-add_all :
    (cs : List UserInfo) (l : ContactList) → length (add_all cs l).list ≤ length l.list + length cs
unfolding add_all
length-add_all [] l = omega arith
length-add_all (c ∷ cs) l =
    omega (arith, length-add_contact c l, length-add_all cs (add_contact c l).1)

pub IsList-sizes : (l : ContactList) → IsList l → (length l.list == length l.index) ≡ true
IsList-sizes l i =
    let sizes : length l.list ≡ length l.index =
      ap (λ (x : ContactList). length x.list) i.same
      ∙ sym (length-numbered 0 i.users)
      ∙ ap (λ (x : ContactList). length x.index) (sym i.same) in
    (==_iff (length l.list) (length l.index)).1 sizes

pub contact_list_of-IsList : (cs : List UserInfo) → AllNamed cs → Gives IsList (contact_list_of cs)
unfolding contact_list_of
contact_list_of-IsList cs n =
    let l = add_all cs no_contacts in
    let i = add_all-IsList cs no_contacts n no_contacts-IsList in
    let same = IsList-sizes l i in
    let few : leb (length l.list) (length cs) ≡ true =
      ground (arith, length-add_all cs no_contacts) in
    rw (same, few) (l, (refl, i))
