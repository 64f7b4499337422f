-- ===== src/User/Listed.antt =====
-- user/user.cpp: the map of a `contact_list` whose list is given, and a list of users with different
-- ids as what it stands for.
use firestr.Prelude.{
  ℕ, suc, ◌+◌, ◌≡◌, refl, sym, ap, ◌∙◌, subst, Bool, true, false, List, [], ◌∷◌, ◌++◌, Bytes,
  append_assoc, bytes_eq, bytes_eq_iff, bytes_key, Option, none, some, if◌then◌else◌, length,
  get_elem?, length-append, arith, Bool-cases, inl, inr,
}
use firestr.Prelude.Maps.{
  find, assign, erase, assign-Distinct, Distinct, Distinct-middle, find-erase,
}
use firestr.User.Contacts.{UserInfo, ContactList, reassign}

abbrev pub numbered : ℕ → List UserInfo → List (Bytes × ℕ)
numbered i [] = []
numbered i (c ∷ cs) = (c.id, i) ∷ numbered (suc i) cs

abbrev pub listed : List UserInfo → ContactList
listed us = record { list = us; index = numbered 0 us }

-- No two have the same id.
abbrev pub Apart : List UserInfo → Type 0
Apart us = Distinct (numbered 0 us)

abbrev pub lookup : Bytes → List UserInfo → Option UserInfo
lookup k [] = none
lookup k (c ∷ cs) = if bytes_eq c.id k then some c else lookup k cs

abbrev pub has : Bytes → List UserInfo → Bool
has k [] = false
has k (c ∷ cs) = if bytes_eq c.id k then true else has k cs

abbrev pub with_user : UserInfo → List UserInfo → List UserInfo
with_user c us = if has c.id us then us else us ++ (c ∷ [])

abbrev pub without : Bytes → List UserInfo → List UserInfo
without k [] = []
without k (c ∷ cs) = if bytes_eq c.id k then without k cs else c ∷ without k cs

pub find-has :
    (k : Bytes) (i : ℕ) (us : List UserInfo)
    → (elim (find k (numbered i us)) [ none ↦ false | some _ ↦ true ]) ≡ has k us
unfolding find
find-has k i [] = refl
find-has k i (c ∷ cs) = elim (Bool-cases (bytes_eq c.id k)) [
  | inl e ↦ rw e refl
  | inr n ↦ rw n (find-has k (suc i) cs)
]

pub find-numbered :
    (k : Bytes) (i : ℕ) (us : List UserInfo) → has k us ≡ false → find k (numbered i us) ≡ none
unfolding find
find-numbered k i [] h = refl
find-numbered k i (c ∷ cs) h = elim (Bool-cases (bytes_eq c.id k)) [
  | inl e ↦ cc (rw e at h)
  | inr n ↦ rw n (find-numbered k (suc i) cs (rw n at h))
]

get_elem?-middle :
    (pre us : List UserInfo) (c : UserInfo) → get_elem? (pre ++ (c ∷ us)) (length pre) ≡ some c
get_elem?-middle [] us c = refl
get_elem?-middle (d ∷ pre) us c = get_elem?-middle pre us c

abbrev pub LooksUp : Bytes → List UserInfo → ℕ → List UserInfo → Type 0
LooksUp k us l all =
    (elim (find k (numbered l us)) [ none ↦ none | some i ↦ get_elem? all i ]) ≡ lookup k us

pub get_elem?-lookup :
    (k : Bytes) (pre us : List UserInfo)
    → (elim (find k (numbered (length pre) us)) [ none ↦ none | some i ↦ get_elem? (pre ++ us) i ])
      ≡ lookup k us
unfolding find
get_elem?-lookup k pre [] = refl
get_elem?-lookup k pre (c ∷ cs) = elim (Bool-cases (bytes_eq c.id k)) [
  | inl e ↦ rw e (get_elem?-middle pre cs c)
  | inr n ↦
      let q : length (pre ++ (c ∷ [])) ≡ suc (length pre) =
        omega (arith, length-append pre (c ∷ [])) in
      rw n (
        subst (λ l. LooksUp k cs l (pre ++ (c ∷ cs))) q
          (subst (λ us. LooksUp k cs (length (pre ++ (c ∷ []))) us) (append_assoc pre (c ∷ []) cs)
            (get_elem?-lookup k (pre ++ (c ∷ [])) cs)))
]

pub numbered-append :
    (i : ℕ) (us : List UserInfo) (c : UserInfo)
    → numbered i (us ++ (c ∷ [])) ≡ numbered i us ++ ((c.id, i + length us) ∷ [])
numbered-append i [] c = let q : i ≡ i + 0 = omega arith in ap (λ (n : ℕ). (c.id, n) ∷ []) q
numbered-append i (d ∷ us) c =
    let q : suc i + length us ≡ i + suc (length us) = omega arith in
    ap (λ t. (d.id, i) ∷ t)
      (numbered-append (suc i) us c ∙ ap (λ n. numbered (suc i) us ++ ((c.id, n) ∷ [])) q)

abbrev pub keys : List (Bytes × ℕ) → List Bytes
keys [] = []
keys ((k, v) ∷ m) = k ∷ keys m

abbrev pub ids : List UserInfo → List Bytes
ids [] = []
ids (c ∷ cs) = c.id ∷ ids cs

assign-middle :
    (k : Bytes) (v w : ℕ) (pre m : List (Bytes × ℕ))
    → find k pre ≡ none
    → assign k v (pre ++ ((k, w) ∷ m)) ≡ pre ++ ((k, v) ∷ m)
unfolding assign find
assign-middle k v w [] m e = rw ((bytes_eq_iff k k).1 refl) refl
assign-middle k v w ((j, x) ∷ pre) m e = elim (Bool-cases (bytes_eq j k)) [
  | inl same ↦ cc (rw same at e)
  | inr n ↦ rw n (ap (λ t. (j, x) ∷ t) (assign-middle k v w pre m (rw n at e)))
]

pub reassign-numbered :
    (i : ℕ) (us : List UserInfo) (pre m : List (Bytes × ℕ))
    → keys m ≡ ids us
    → Distinct (pre ++ m)
    → reassign i us (pre ++ m) ≡ pre ++ numbered i us
unfolding reassign
reassign-numbered i [] pre [] e d = refl
reassign-numbered i [] pre ((k, v) ∷ m) e d = cc
reassign-numbered i (c ∷ cs) pre [] e d = cc
reassign-numbered i (c ∷ cs) pre ((k, v) ∷ m) e d =
    let kq : k ≡ c.id = cc in
    let mq : keys m ≡ ids cs = cc in
    let d' : Distinct (pre ++ ((c.id, v) ∷ m)) = subst (λ j. Distinct (pre ++ ((j, v) ∷ m))) kq d in
    let moved : assign c.id i (pre ++ ((c.id, v) ∷ m)) ≡ (pre ++ ((c.id, i) ∷ [])) ++ m =
      assign-middle c.id i v pre m (Distinct-middle c.id v pre m d')
      ∙ sym (append_assoc pre ((c.id, i) ∷ []) m) in
    ap (λ j. reassign (suc i) cs (assign c.id i (pre ++ ((j, v) ∷ m)))) kq
    ∙ (ap (reassign (suc i) cs) moved
        ∙ (reassign-numbered (suc i) cs (pre ++ ((c.id, i) ∷ [])) m mq
              (subst Distinct moved (assign-Distinct c.id i (pre ++ ((c.id, v) ∷ m)) d'))
            ∙ append_assoc pre ((c.id, i) ∷ []) (numbered (suc i) cs)))

pub keys-erase :
    (k : Bytes) (i : ℕ) (us : List UserInfo) → keys (erase k (numbered i us)) ≡ ids (without k us)
unfolding erase
keys-erase k i [] = refl
keys-erase k i (c ∷ cs) = elim (Bool-cases (bytes_eq c.id k)) [
  | inl e ↦ rw e (keys-erase k (suc i) cs)
  | inr n ↦ rw n (ap (λ t. c.id ∷ t) (keys-erase k (suc i) cs))
]

pub erase-Distinct : (k : Bytes) (m : List (Bytes × ℕ)) → Distinct m → Distinct (erase k m)
unfolding erase
erase-Distinct k [] d = tt
erase-Distinct k ((j, w) ∷ m) d = elim (Bool-cases (bytes_eq j k)) [
  | inl e ↦ rw e (erase-Distinct k m d.1)
  | inr n ↦ rw n (ground (arith, find-erase k j m, d.0), erase-Distinct k m d.1)
]

pub length-numbered : (i : ℕ) (us : List UserInfo) → length (numbered i us) ≡ length us
length-numbered i [] = refl
length-numbered i (c ∷ cs) = ap suc (length-numbered (suc i) cs)
