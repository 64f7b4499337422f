-- ===== src/Conversation/Answers.antt =====
-- conversation/conversation.cpp: the requests to the contacts that are left by answers.
use firestr.Prelude.{
  ◌≡◌, refl, sym, ap, ap₂, ◌∙◌, Bool, true, false, List, [], ◌∷◌, ◌++◌, append_assoc, append-nil,
  Bytes, bytes_eq, bytes_eq_iff, bytes_key, some, none, if◌then◌else◌, arith, Bool-cases, inl, inr,
  subst,
}
use firestr.Prelude.Maps.{find, assign, assign-fresh, Distinct, Distinct-middle}
use firestr.Conversation.{
  ReqState, sent, dont_know, know, KnowRequest, KnowRequests, PendingContactAdds, CliqueStatus,
  not_part, part, unsure, ask_all, answer_request, know_contact, is_sent, is_known,
}

abbrev pub among : Bytes → List Bytes → Bool
among c [] = false
among c (d ∷ cs) = if bytes_eq d c then true else among c cs

abbrev pub Apart : List Bytes → Type 0
Apart [] = Unit
Apart (c ∷ cs) = (among c cs ≡ false) × Apart cs

-- The answers are listed with the newest first.
abbrev pub Answers : Type 0
Answers = List (Bytes × ReqState)

abbrev pub state_of : Answers → Bytes → ReqState
state_of [] c = sent
state_of ((from, s) ∷ h) c = if bytes_eq from c then s else state_of h c

abbrev pub some_is : (ReqState → Bool) → Answers → List Bytes → Bool
some_is f h [] = false
some_is f h (c ∷ cs) = if f (state_of h c) then true else some_is f h cs

abbrev pub all_are : (ReqState → Bool) → Answers → List Bytes → Bool
all_are f h [] = true
all_are f h (c ∷ cs) = if f (state_of h c) then all_are f h cs else false

abbrev pub is_stranger : ReqState → Bool
is_stranger sent = false
is_stranger dont_know = true
is_stranger know = false

abbrev pub those_who : (ReqState → Bool) → Answers → List Bytes → List Bytes
those_who f h [] = []
those_who f h (c ∷ cs) = if f (state_of h c) then c ∷ those_who f h cs else those_who f h cs

abbrev pub verdict : Answers → List Bytes → CliqueStatus
verdict h cs =
    if some_is is_sent h cs
    then record { is_part = unsure; contacts = [] }
    else if all_are is_known h cs
    then record { is_part = part; contacts = [] }
    else record { is_part = not_part; contacts = those_who is_stranger h cs }

abbrev pub answer_all : Bytes → Answers → PendingContactAdds → PendingContactAdds
answer_all id [] p = p
answer_all id ((from, s) ∷ h) p = know_contact id from s (answer_all id h p)

abbrev pub request : Answers → Bytes → KnowRequest
request h c = record { to = c; state = state_of h c }

-- The requests that the answers leave.
abbrev pub table : Answers → List Bytes → KnowRequests
table h [] = []
table h (c ∷ cs) = (c, request h c) ∷ table h cs

find-table :
    (h : Answers) (c : Bytes) (cs : List Bytes)
    → find c (table h cs) ≡ (if among c cs then some (request h c) else none)
unfolding find
find-table h c [] = refl
find-table h c (d ∷ cs) = elim (Bool-cases (bytes_eq d c)) [
  | inl same ↦ rw same (ap (λ d. some (request h d)) ((bytes_eq_iff d c).0 same))
  | inr other ↦ rw other (find-table h c cs)
]

pub table-Distinct : (h : Answers) (cs : List Bytes) → Apart cs → Distinct (table h cs)
table-Distinct h [] a = tt
table-Distinct h (c ∷ cs) a = (find-table h c cs ∙ rw a.0 refl, table-Distinct h cs a.1)

pub ask_all-table :
    (cs : List Bytes) (r : KnowRequests)
    → Distinct (r ++ table [] cs)
    → ask_all cs r ≡ r ++ table [] cs
unfolding ask_all
ask_all-table [] r d = sym (append-nil r)
ask_all-table (c ∷ cs) r d =
    let x = request [] c in
    let fresh = assign-fresh c x r (Distinct-middle c x r (table [] cs) d) in
    let q : (r ++ ((c, x) ∷ [])) ++ table [] cs ≡ r ++ ((c, x) ∷ table [] cs) =
      append_assoc r ((c, x) ∷ []) (table [] cs) in
    rw fresh (ask_all-table cs (r ++ ((c, x) ∷ [])) (subst Distinct (sym q) d) ∙ q)

table_other :
    (h : Answers) (c : Bytes) (s : ReqState) (cs : List Bytes)
    → among c cs ≡ false
    → table h cs ≡ table ((c, s) ∷ h) cs
table_other h c s [] a = refl
table_other h c s (d ∷ cs) a =
    let n : bytes_eq c d ≡ false = ground (arith, bytes_eq_iff c d, bytes_eq_iff d c) in
    let b : among c cs ≡ false = ground arith in
    rw n (ap (λ t. (d, request h d) ∷ t) (table_other h c s cs b))

assign-table :
    (h : Answers) (c : Bytes) (s : ReqState) (cs : List Bytes)
    → Apart cs
    → among c cs ≡ true
    → assign c (record { to = c; state = s }) (table h cs) ≡ table ((c, s) ∷ h) cs
unfolding assign
assign-table h c s [] a m = cc
assign-table h c s (d ∷ cs) a m = elim (Bool-cases (bytes_eq d c)) [
  | inl same ↦
      let p = (bytes_eq_iff d c).0 same in
      let flip : bytes_eq c d ≡ true = ground (arith, bytes_eq_iff c d, bytes_eq_iff d c) in
      let n : among c cs ≡ false = subst (λ e. among e cs ≡ false) p a.0 in
      rw (same, flip)
        (ap₂ (λ e t. let x : KnowRequest = record { to = e; state = s } in (d, x) ∷ t) (sym p)
          (table_other h c s cs n))
  | inr other ↦
      let flip : bytes_eq c d ≡ false = ground (arith, bytes_eq_iff c d, bytes_eq_iff d c) in
      rw (other, flip) (ap (λ t. (d, request h d) ∷ t) (assign-table h c s cs a.1 (rw other at m)))
]

pub answer_request-table :
    (h : Answers) (c : Bytes) (s : ReqState) (cs : List Bytes)
    → Apart cs
    → answer_request c s (table h cs) ≡ table ((c, s) ∷ h) cs
unfolding answer_request
answer_request-table h c s cs a = elim (Bool-cases (among c cs)) [
  | inl m ↦ rw (find-table h c cs, m, answer_request) (assign-table h c s cs a m)
  | inr n ↦ rw (find-table h c cs, n, answer_request) (table_other h c s cs n)
]
