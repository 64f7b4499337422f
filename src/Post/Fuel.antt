-- ===== src/Post/Fuel.antt =====
-- message/post_office.cpp: `send` ends where the pointers to the parents form no cycle.
use native.Mathlib.Nat.{mul-le-mul_right}
use firestr.Prelude.{
  ℕ, zero, suc, ◌+◌, ◌*◌, ◌≤◌, ◌<◌, ◌≡◌, refl, sym, subst, Bool, true, false, List, [], ◌∷◌, some,
  inl, inr, Bytes, bytes_key, nat_eq, arith, length, Bool-cases, Option-cases, List-cases,
}
use firestr.Prelude.Maps.{find}
use firestr.Envelope.{Message}
use firestr.Post.Office.{Office, World}
use firestr.Post.Send.{
  Posted, Sender, answered, relocked, dangling, aborted, out_of_fuel, address_as, push_from,
  pop_own, holds, live_child, deliver, send_outside, send_up, unless_sent, send_on, send,
}
use firestr.Post.Effect.{send_stores}

-- Each office that has a parent has one that exists and stands above it.
pub record IsRanked (rank : ℕ → ℕ) (deepest : ℕ) (w : World) : Type 0 where
  pub bounded : (o : ℕ) → rank o ≤ deepest
  pub above :
      (o p : ℕ) (office : Office)
      → find o w.posts ≡ some office
      → office.parent ≡ some p
      → (rank p < rank o) × ((up : Office) × (find p w.posts ≡ some up))

-- An answer, or a lock taken twice.
pub Settled : Posted → Type 0
Settled (answered w b) = Unit {0}
Settled relocked = Unit {0}
Settled _ = ⊥

Settled-answered : (w : World) (b : Bool) → Settled (answered w b)
unfolding Settled
Settled-answered w b = tt

Settled-relocked : Settled relocked
unfolding Settled
Settled-relocked = tt

deliver-Settled :
    (w : World) (office : Office) (x : Bytes) (m : Message) → Settled (deliver w office x m)
unfolding deliver
deliver-Settled w office x m = elim (Option-cases (find x office.boxes)) [
  | inl e ↦ rw (e, deliver) (Settled-answered w false)
  | inr (p, e) ↦
      rw (e, deliver)
        (elim (Option-cases (find p w.mailboxes)) [
          | inl f ↦ rw (f, deliver) (Settled-answered w false)
          | inr (box, f) ↦ rw (f, deliver) (Settled-answered _ true)
        ])
]

send_outside-Settled :
    (w : World) (o : ℕ) (office : Office) (m : Message) → Settled (send_outside w o office m)
unfolding send_outside
send_outside-Settled w o office m = elim (Option-cases office.out) [
  | inl f ↦ rw (f, send_outside) (Settled-answered w false)
  | inr (q, f) ↦ rw (f, send_outside) (Settled-answered _ true)
]

pub length-pop_own_le : (a : Bytes) (to : List Bytes) → length (pop_own a to) ≤ length to
unfolding pop_own
length-pop_own_le a [] = omega arith
length-pop_own_le a (x ∷ []) = omega arith
length-pop_own_le a (x ∷ y ∷ to) = ground arith

live_child-find :
    (w : World) (office : Office) (x : Bytes) (c : ℕ)
    → live_child w office x ≡ some c
    → (child : Office) × (find c w.posts ≡ some child)
unfolding live_child
live_child-find w office x c e = elim (Option-cases (find x office.offices)) [
  | inl f ↦ cc (rw (f, live_child) at e)
  | inr (d, f) ↦ elim (Option-cases (find d w.posts)) [
    | inl g ↦ cc (rw (g, live_child) at (rw (f, live_child) at e))
    | inr (child, g) ↦
        let h : some d ≡ some c = rw (g, live_child) at (rw (f, live_child) at e) in
        let k : d ≡ c = cc in (child, subst (λ i. find i w.posts ≡ some child) k g)
  ]
]

-- Enough recursion for `to` of this length at an office of this rank.
abbrev pub enough : ℕ → ℕ → ℕ → ℕ
enough deepest n r = n * suc deepest + r

module _ (rank : ℕ → ℕ) (deepest : ℕ) (w : World) (ranked : IsRanked rank deepest w) where
  module _ (n : ℕ) (again : Sender)
      (ends : (held : List ℕ) (o : ℕ) (office : Office) (m : Message)
        → find o w.posts ≡ some office
        → enough deepest (length m.meta.to) (rank o) < n
        → Settled (again w held o m))
      (keeps : (held : List ℕ) (o : ℕ) (m : Message) (w' : World)
        → again w held o m ≡ answered w' false
        → w' ≡ w) where
    send_up-Settled :
        (held : List ℕ) (o : ℕ) (office : Office) (m : Message)
        → find o w.posts ≡ some office
        → enough deepest (length m.meta.to) (rank o) < suc n
        → Settled (send_up again w held o m)
    unfolding send_up
    send_up-Settled held o office m e h =
        rw (e, send_up)
          (elim (Option-cases office.parent) [
            | inl f ↦ rw (f, send_up) (send_outside-Settled w o office (push_from office.address m))
            | inr (p, f) ↦
                let (lower, (up, g)) = ranked.above o p office e f in
                rw (f, send_up) (ends held p up (push_from office.address m) g (omega arith))
          ])

    unless_sent-Settled :
        (r : Posted) (up : World → Posted)
        → Settled r
        → ((w' : World) → r ≡ answered w' false → w' ≡ w)
        → Settled (up w)
        → Settled (unless_sent r up)
    unfolding unless_sent Settled
    unless_sent-Settled (answered w' true) up h k s = tt
    unless_sent-Settled (answered w' false) up h k s =
        subst (λ v. Settled (up v)) (sym (k w' refl)) s
    unless_sent-Settled relocked up h k s = tt
    unless_sent-Settled dangling up h k s = h
    unless_sent-Settled aborted up h k s = h
    unless_sent-Settled out_of_fuel up h k s = h

    send_on-Settled :
        (held : List ℕ) (o : ℕ) (office : Office) (m : Message) (x : Bytes) (rest : List Bytes)
        → find o w.posts ≡ some office
        → enough deepest (length (x ∷ rest)) (rank o) < suc n
        → Settled (send_on again w held o office m x rest)
    unfolding send_on
    send_on-Settled held o office m x rest e h =
        let m' = address_as (x ∷ rest) m.meta.from m in
        let cp = address_as rest (office.address ∷ m.meta.from) m in
        let up : Settled (send_up again w held o m') = send_up-Settled held o office m' e h in
        elim (Bool-cases (holds o held)) [
          | inl k ↦ rw (k, send_on) Settled-relocked
          | inr k ↦
              rw (k, send_on)
                (elim (Option-cases (live_child w office x)) [
                  | inl f ↦ rw (f, send_on) up
                  | inr (c, f) ↦
                      let (child, g) = live_child-find w office x c f in
                      let b = ranked.bounded c in
                      rw (f, send_on)
                        (unless_sent-Settled (again w (o ∷ held) c cp)
                          (λ v. send_up again v held o m')
                          (ends (o ∷ held) c child cp g (grind arith)) (keeps (o ∷ held) c cp) up)
                ])
        ]

  -- Where each office's parent is there and stands above it in some bounded rank, send of an
  -- office that is there comes to an answer, or to a lock that its thread holds already, within a
  -- recursion of the number of addresses times one more than the deepest rank, plus the office's
  -- rank, plus one: it never runs through parents for ever, nor through a pointer to an office
  -- that is gone.
  pub send_terminates :
      (f : ℕ) (held : List ℕ) (o : ℕ) (office : Office) (m : Message)
      → find o w.posts ≡ some office
      → enough deepest (length m.meta.to) (rank o) < f
      → Settled (send f w held o m)
  unfolding send
  send_terminates zero held o office m e h = absurd (omega arith)
  send_terminates (suc f) held o office m e h =
      rw (e, send)
        (elim (List-cases (pop_own office.address m.meta.to)) [
          | inl g ↦ rw (g, send) (Settled-answered w false)
          | inr (x, [], g) ↦
              rw (g, send) (deliver-Settled w office x (address_as (x ∷ []) m.meta.from m))
          | inr (x, y ∷ to, g) ↦
              let shorter : length (x ∷ y ∷ to) ≤ length m.meta.to =
                subst (λ t. length t ≤ length m.meta.to) g
                  (length-pop_own_le office.address m.meta.to) in
              let fits = mul-le-mul_right (suc deepest) shorter in
              rw (g, send)
                (send_on-Settled f (send f) (send_terminates f)
                  (λ held' o' m' w' k. send_stores f w held' o' m' w' false k) held o office m x
                  (y ∷ to) e (omega (arith, fits)))
        ])
