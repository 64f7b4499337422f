-- ===== src/Post/Routes.antt =====
-- message/post_office.cpp: the ways that `send` takes between offices.
use native.Mathlib.Nat.{lt_irrefl}
use firestr.Prelude.{
  ℕ, zero, suc, ◌<◌, ◌≡◌, refl, subst, ap, ◌∙◌, true, false, List, [], ◌∷◌, some, inl, inr, Bytes,
  bytes_key, nat_eq, arith, ◌==◌, length, All, Bool-cases, ==_iff,
}
use firestr.Prelude.Maps.{find}
use firestr.Envelope.{Message}
use firestr.Mail.Mailbox.{Mailbox}
use firestr.Post.Office.{Office, World}
use firestr.Post.Send.{
  Posted, answered, address_as, pop_own, holds, live_child, send_up, unless_sent, send,
}
use firestr.Post.Fuel.{length-pop_own_le}
use firestr.Post.Steps.{with_letter, deliver_there, send_near, send_far, send_on_down}

-- The children of an office stand below it.
pub record IsTree (rank : ℕ → ℕ) (w : World) : Type 0 where
  pub below :
      (o c : ℕ) (office : Office) (a : Bytes)
      → find o w.posts ≡ some office
      → live_child w office a ≡ some c
      → rank o < rank c

-- `to` leads from office o, down through offices that are there, to the mailbox p, under the name
-- x. The offices passed sign `from`, which becomes the last index.
pub data Route (w : World) (p : ℕ) (x : Bytes)
    : ℕ → List Bytes → List Bytes → List Bytes → Type 0 where
  arrive :
      {o : ℕ} {from : List Bytes} (office : Office)
      → find o w.posts ≡ some office
      → find x office.boxes ≡ some p
      → Route w p x o (x ∷ []) from from
  descend :
      {o c : ℕ} {to₀ from from' : List Bytes} (office : Office) (a y : Bytes) (to : List Bytes)
      → find o w.posts ≡ some office
      → pop_own office.address to₀ ≡ a ∷ y ∷ to
      → live_child w office a ≡ some c
      → Route w p x c (y ∷ to) (office.address ∷ from) from'
      → Route w p x o to₀ from from'

holds_below :
    (rank : ℕ → ℕ) (o : ℕ) (held : List ℕ) → All (λ h. rank h < rank o) held → holds o held ≡ false
holds_below rank o [] a = refl
holds_below rank o (h ∷ held) a = elim (Bool-cases (h == o)) [
  | inl e ↦ absurd (lt_irrefl (rank o) (subst (λ i. rank i < rank o) ((==_iff h o).0 e) a.0))
  | inr n ↦ rw (n, holds_below rank o held a.1) refl
]

All-below :
    (rank : ℕ → ℕ) (o c : ℕ) (held : List ℕ)
    → rank o < rank c
    → All (λ h. rank h < rank o) held
    → All (λ h. rank h < rank c) held
All-below rank o c [] l a = tt
All-below rank o c (h ∷ held) l a = (omega arith, All-below rank o c held l a.1)

pub unless_sent-true :
    (w : World) (up : World → Posted) → unless_sent (answered w true) up ≡ answered w true
unfolding unless_sent
unless_sent-true w up = refl

send_down :
    (rank : ℕ → ℕ) (w : World) (p : ℕ) (x : Bytes) (box : Mailbox Message)
    → IsTree rank w
    → find p w.mailboxes ≡ some box
    → {o : ℕ} {to from from' : List Bytes} (f : ℕ) (held : List ℕ) (m : Message)
    → Route w p x o to from from'
    → m.meta.to ≡ to
    → m.meta.from ≡ from
    → All (λ h. rank h < rank o) held
    → length to < f
    → send f w held o m ≡ answered (with_letter p box (address_as (x ∷ []) from' m) w) true
send_down rank w p x box tree g zero held m route t r h l = absurd (omega arith)
send_down rank w p x box tree g (suc f) held m (arrive {o} office e b) t r h l =
    send_near f w held o office m x e t
    ∙ deliver_there w office x (address_as (x ∷ []) m.meta.from m) p box b g
    ∙ ap (λ s. answered (with_letter p box (address_as (x ∷ []) s m) w) true) r
send_down rank w p x box tree g (suc f) held m (descend {o} {c} office a y to e q b route) t r h l =
    let fits : length (y ∷ to) < f = omega (
      arith,
      length-pop_own_le office.address m.meta.to,
      ap length (ap (pop_own office.address) t ∙ q),
      ap length t,
    ) in
    let lower = tree.below o c office a e b in
    let own : pop_own office.address m.meta.to ≡ a ∷ y ∷ to = ap (pop_own office.address) t ∙ q in
    let cp = address_as (y ∷ to) (office.address ∷ m.meta.from) m in
    send_far f w held o office m a y to e own
    ∙ send_on_down (send f) w held o office m a (y ∷ to) (holds_below rank o held h) c b
    ∙ ap
        (λ r'.
          unless_sent r' (λ w'. send_up (send f) w' held o (address_as (a ∷ y ∷ to) m.meta.from m)))
        (send_down rank w p x box tree g f (o ∷ held) cp route refl (ap (◌∷◌ office.address) r)
          (lower, All-below rank o c held lower h) fits)
    ∙ unless_sent-true _ _

-- Where no office stands below itself and the addresses of a message lead from an office down
-- through offices that are still there to a mailbox that is there, send with no lock held answers
-- true and puts the message into that mailbox, with the mailbox's name as its only address left,
-- signed by each office passed, the last one first; recursion as deep as there are addresses is
-- enough.
pub send-Route :
    (rank : ℕ → ℕ) (w : World) (p : ℕ) (x : Bytes) (box : Mailbox Message) (f o : ℕ) (m : Message)
    (from' : List Bytes)
    → IsTree rank w
    → find p w.mailboxes ≡ some box
    → Route w p x o m.meta.to m.meta.from from'
    → length m.meta.to < f
    → send f w [] o m ≡ answered (with_letter p box (address_as (x ∷ []) from' m) w) true
send-Route rank w p x box f o m from' tree g route l =
    send_down rank w p x box tree g f [] m route refl refl tt l
