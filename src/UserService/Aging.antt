-- ===== src/UserService/Aging.antt =====
-- user/user_service.cpp: turns of `ping_thread` in which nothing is heard of a contact.
use firestr.Prelude.{
  Bool, length, ℕ, zero, suc, ◌+◌, ◌≤◌, ◌≡◌, ◌≢◌, refl, sym, ap, ◌∙◌, subst, true, false, List, [],
  ◌∷◌, Bytes, bytes_eq, bytes_eq_iff, bytes_key, Option, none, some, Outcome, ok, if◌then◌else◌,
  arith, leb, Bool-cases, inl, inr,
}
use firestr.Prelude.Maps.{find, Distinct}
use firestr.Security.Botan.{Botan}
use firestr.Conversation.Answers.{among, Apart}
use firestr.UserService.State.{ContactData, offline, UserService, Done, and_then, ping_thresh}
use firestr.UserService.Pings.{tick_one, tick_all, keys_of}
use firestr.UserService.Timed.{IsTimed}
use firestr.UserService.Turns.{send_turn, ping_turn}
use firestr.UserService.Sent.{send_turn-IsSame, IsSame-IsTimed}
use firestr.UserService.Loop.{tick_one-Ends, tick_all-Ends}
use firestr.UserService.Ticks.{Data, gone, aged_at, aged_in_live, IsTick, tick_one-IsTick}

-- After n turns.
abbrev again : ℕ → Option ContactData → Option ContactData
again zero x = x
again (suc n) x = again n (aged_at x)

again-gone : (n : ℕ) (cd : ContactData) → again n (some (gone cd)) ≡ some (gone cd)
again-gone zero cd = refl
again-gone (suc n) cd = again-gone n cd

again_live :
    (n : ℕ) (cd : ContactData)
    → cd.last_ping ≤ ping_thresh
    → cd.state ≢ offline
    → again n (some cd) ≡ (
        if leb (cd.last_ping + n) ping_thresh
        then some (record cd { last_ping = cd.last_ping + n })
        else some (gone cd))
again_live zero cd r q =
    let h : leb (cd.last_ping + 0) ping_thresh ≡ true = ground arith in
    rw h (ap (λ x. some (record cd { last_ping = x })) (omega arith))
again_live (suc n) cd r q =
    ap (λ x. again n (some x)) (aged_in_live cd.state cd q)
    ∙ elim (Bool-cases (leb (cd.last_ping + 1) ping_thresh)) [
      | inl h ↦
          let e : (cd.last_ping + 1) + n ≡ cd.last_ping + suc n = omega arith in
          let r' : cd.last_ping + 1 ≤ ping_thresh = ground arith in
          rw h (again_live n (record cd { last_ping = cd.last_ping + 1 }) r' q ∙ rw e refl)
      | inr h ↦
          let g : leb (cd.last_ping + suc n) ping_thresh ≡ false = ground arith in
          rw (h, g) (again-gone n cd)
    ]

absent-among : (k : Bytes) (m : Data) → find k m ≡ none → among k (keys_of m) ≡ false
unfolding find
absent-among k [] e = refl
absent-among k ((j, cd) ∷ m) e = elim (Bool-cases (bytes_eq j k)) [
  | inl h ↦ let f : (if bytes_eq j k then some cd else find k m) ≡ some cd = rw h refl in cc
  | inr h ↦
      let f : (if bytes_eq j k then some cd else find k m) ≡ find k m = rw h refl in
      rw h (absent-among k m (sym f ∙ e))
]

among-absent : (k : Bytes) (m : Data) → among k (keys_of m) ≡ false → find k m ≡ none
unfolding find
among-absent k [] e = refl
among-absent k ((j, cd) ∷ m) e = ground (arith, among-absent k m)

Apart-keys_of : (m : Data) → Distinct m → Apart (keys_of m)
Apart-keys_of [] d = tt
Apart-keys_of ((k, cd) ∷ m) d = (absent-among k m d.0, Apart-keys_of m d.1)

module _ (b : Botan) where
  and_then_ok :
      {A B : Type 0} (r : Done b A) (a : A) (k : A → UserService b → Done b B)
      → r.0 ≡ ok a
      → and_then b r k ≡ k a r.1
  and_then_ok (ok x, s) a k e = let q : x ≡ a = cc in ap (λ y. k y s) q
  and_then_ok (Outcome.thrown, s) a k e = cc e
  and_then_ok (Outcome.aborted, s) a k e = cc e
  and_then_ok (Outcome.out_of_fuel, s) a k e = cc e

  record AreTicks (ks : List Bytes) (m m' : Data) : Type 0 where
    at_all : (j : Bytes) → find j m' ≡ (if among j ks then aged_at (find j m) else find j m)
    apart : Distinct m → Distinct m'

  AreTicks-more :
      (k : Bytes) (ks : List Bytes) (m m1 m2 : Data)
      → among k ks ≡ false
      → IsTick k m m1
      → AreTicks ks m1 m2
      → AreTicks (k ∷ ks) m m2
  AreTicks-more k ks m m1 m2 a t ts = record {
    at_all = λ j. elim (Bool-cases (bytes_eq k j)) [
      | inl h ↦
          let n : among j ks ≡ false = ap (λ i. among i ks) (sym ((bytes_eq_iff k j).0 h)) ∙ a in
          ts.at_all j ∙ rw n (t.at_all j ∙ rw h refl)
      | inr h ↦
          let e : find j m1 ≡ find j m = t.at_all j ∙ rw h refl in ts.at_all j ∙ rw (h, e) refl
    ];
    apart = λ d. ts.apart (t.apart d);
  }

  tick_all-AreTicks :
      (ks : List Bytes) (s : UserService b)
      → IsTimed b s
      → Apart ks
      → AreTicks ks s.contacts (tick_all b ks s).1.contacts
  unfolding tick_all
  tick_all-AreTicks [] s t a = record { at_all = λ j. refl; apart = λ d. d }
  tick_all-AreTicks (k ∷ ks) s t a =
      let e = tick_one-Ends b k s t in
      let s1 = (tick_one b k s).1 in
      subst (λ r. AreTicks (k ∷ ks) s.contacts r.1.contacts)
        (sym (and_then_ok (tick_one b k s) tt (λ _. tick_all b ks) e.0))
        (AreTicks-more k ks s.contacts s1.contacts _ a.0 (tick_one-IsTick b k s t)
          (tick_all-AreTicks ks s1 e.1 a.1))

  -- The turn ends, each contact is changed as `aged` says, and the service is as it was before.
  record Ages (s : UserService b) (r : Done b ℕ) : Type 0 where
    ends : (m : ℕ) × (r.0 ≡ ok m)
    timed : IsTimed b r.1
    apart : Distinct r.1.contacts
    ages : (j : Bytes) → find j r.1.contacts ≡ aged_at (find j s.contacts)

  ticked-Ages :
      (m : ℕ) (s : UserService b)
      → IsTimed b s
      → Distinct s.contacts
      → Ages s (ok m, (tick_all b (keys_of s.contacts) s).1)
  ticked-Ages m s t d =
      let ks = keys_of s.contacts in
      let ts = tick_all-AreTicks ks s t (Apart-keys_of s.contacts d) in
      record {
        ends = (m, refl);
        timed = (tick_all-Ends b ks s t).1;
        apart = ts.apart d;
        ages = λ j. ts.at_all j ∙ elim (Bool-cases (among j ks)) [
          | inl h ↦ rw h refl
          | inr h ↦ rw (h, among-absent j s.contacts h) refl
        ];
      }

  Ages-same :
      (s s' : UserService b) (r : Done b ℕ) → s'.contacts ≡ s.contacts → Ages s' r → Ages s r
  Ages-same s s' r e g = record {
    ends = g.ends;
    timed = g.timed;
    apart = g.apart;
    ages = λ j. g.ages j ∙ ap (λ m. aged_at (find j m)) e;
  }

  ping_turn-Ages :
      (idle : Bool) (n : ℕ) (s : UserService b)
      → IsTimed b s
      → Distinct s.contacts
      → Ages s (ping_turn b idle n s)
  unfolding ping_turn
  ping_turn-Ages idle n s t d =
      let ((m, e), same) = send_turn-IsSame b idle n s t in
      let s' = (send_turn b idle n s).1 in
      let t' = IsSame-IsTimed b s s' same t in
      let ks = keys_of s'.contacts in
      let split : ping_turn b idle n s ≡ (ok m, (tick_all b ks s').1) =
        and_then_ok (send_turn b idle n s) m _ e
        ∙ and_then_ok (tick_all b ks s') tt (λ _ s2. (ok m, s2)) (tick_all-Ends b ks s' t').0 in
      subst (Ages s) (sym split) (
        Ages-same s s' _ same.contacts
          (ticked-Ages m s' t' (subst (λ x. Distinct x) (sym same.contacts) d)))

  -- Turns of `ping_thread` one after another, by whether the user is idle in each.
  abbrev pub turns : List Bool → ℕ → UserService b → Done b ℕ
  turns [] n s = (ok n, s)
  turns (idle ∷ idles) n s = and_then b (ping_turn b idle n s) (turns idles)

  turns-again :
      (idles : List Bool) (n : ℕ) (id : Bytes) (s : UserService b)
      → IsTimed b s
      → Distinct s.contacts
      → ((m : ℕ) × ((turns idles n s).0 ≡ ok m))
        × (find id (turns idles n s).1.contacts ≡ again (length idles) (find id s.contacts))
  turns-again [] n id s t d = ((n, refl), refl)
  turns-again (idle ∷ idles) n id s t d =
      let g = ping_turn-Ages idle n s t d in
      let (m, e) = g.ends in
      let s' = (ping_turn b idle n s).1 in
      let (ends, rest) = turns-again idles m id s' g.timed g.apart in
      let split = and_then_ok (ping_turn b idle n s) m (turns idles) e in
      (
        subst (λ r. (k : ℕ) × (r.0 ≡ ok k)) (sym split) ends,
        ap (λ r. find id r.1.contacts) split ∙ rest ∙ ap (again (length idles)) (g.ages id),
      )

  -- In a user service in which the contact list leads an id only to the user with that id, no
  -- user's first address is among the addresses of another, no contact is past the ping threshold,
  -- and the pointer of each contact that is not offline leads to the user of the list with its id,
  -- at whose first address there is a channel with an agreed key, and the contacts have different
  -- ids: any number of turns of ping_thread one after another, with the pings they send, from any
  -- number of send_ticks, in which nothing is heard, fails no contract. n turns add n to the ticks
  -- of a contact that is connecting or connected while the sum is at most 60, and from then on
  -- leave it offline with 60 ticks.
  pub turns_silent :
      (idles : List Bool) (n : ℕ) (id : Bytes) (cd : ContactData) (s : UserService b)
      → IsTimed b s
      → Distinct s.contacts
      → find id s.contacts ≡ some cd
      → cd.state ≢ offline
      → ((m : ℕ) × ((turns idles n s).0 ≡ ok m))
        × (find id (turns idles n s).1.contacts ≡ (
            if leb (cd.last_ping + length idles) ping_thresh
            then some (record cd { last_ping = cd.last_ping + length idles })
            else some (gone cd)))
  turns_silent idles n id cd s t d e q =
      let (ends, last) = turns-again idles n id s t d in
      (
        ends,
        last
            ∙ ap (again (length idles)) e
            ∙ again_live (length idles) cd ((t.each id cd e).recent) q,
      )
