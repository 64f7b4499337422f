-- ===== src/Post/Effect.antt =====
-- message/post_office.cpp: what one call of `send` changes, whatever way the message takes.
use firestr.Prelude.{
  ℕ, zero, suc, ◌≡◌, refl, ◌∙◌, subst, ap, Bool, true, false, List, [], ◌∷◌, ◌++◌, append_assoc,
  some, inl, inr, Bytes, bytes_eq, bytes_key, nat_eq, if◌then◌else◌, Bool-cases, Option-cases,
  List-cases,
}
use firestr.Prelude.Maps.{find, assign}
use firestr.Envelope.{Message}
use firestr.Mail.Queue.{Queue, push}
use firestr.Mail.Mailbox.{Mailbox, push_inbox}
use firestr.Post.Office.{Office, World, with_office}
use firestr.Post.Send.{
  Posted, Sender, answered, relocked, dangling, aborted, out_of_fuel, address_as, push_from,
  pop_own, holds, live_child, deliver, out_counted, send_outside, send_up, unless_sent, send_on,
  send,
}

-- The second message is the first one further on its way: addresses are taken off the front of
-- `to`, offices have signed at the front of `from`, and the rest is as it was.
pub record Onward (m m' : Message) : Type 0 where
  pub passed : List Bytes
  pub signs : List Bytes
  pub to_eq : m.meta.to ≡ passed ++ m'.meta.to
  pub from_eq : m'.meta.from ≡ signs ++ m.meta.from
  pub same : m' ≡ address_as m'.meta.to m'.meta.from m

-- The second world has the message, in the mailbox or in the queue to the outside.
pub data Stored (w : World) (m : Message) : World → Type 0 where
  boxed :
      (p : ℕ) (box : Mailbox Message) (m' : Message)
      → find p w.mailboxes ≡ some box
      → Onward m m'
      → Stored w m (record w { mailboxes = assign p (push_inbox m' box) w.mailboxes })
  sent_out :
      (o : ℕ) (office : Office) (q : Queue Message) (m' : Message)
      → find o w.posts ≡ some office
      → office.out ≡ some q
      → Onward m m'
      → Stored w m (
          with_office o
            (record office {
              out = some (push m' q);
              outside_stats = out_counted office.outside_stats;
            })
            w)

pub Onward-trans : {a b c : Message} → Onward a b → Onward b c → Onward a c
Onward-trans {a} {b} {c} f g = record {
  passed = f.passed ++ g.passed;
  signs = g.signs ++ f.signs;
  to_eq = rw (append_assoc f.passed g.passed c.meta.to, ← g.to_eq) f.to_eq;
  from_eq = rw (append_assoc g.signs f.signs a.meta.from, ← f.from_eq) g.from_eq;
  same = cc (f.same, g.same);
}

Onward-address_as :
    (m : Message) (passed to signs : List Bytes)
    → m.meta.to ≡ passed ++ to
    → Onward m (address_as to (signs ++ m.meta.from) m)
Onward-address_as m passed to signs e = record {
  passed = passed;
  signs = signs;
  to_eq = e;
  from_eq = refl;
  same = refl;
}

-- An office takes its own address off the front, if anything.
pop_own_prefix :
    (a : Bytes) (to : List Bytes) → (passed : List Bytes) × (to ≡ passed ++ pop_own a to)
unfolding pop_own
pop_own_prefix a [] = ([], refl)
pop_own_prefix a (x ∷ []) = ([], refl)
pop_own_prefix a (x ∷ y ∷ to) = elim (Bool-cases (bytes_eq x a)) [
  | inl own ↦ (x ∷ [], rw own refl)
  | inr other ↦ ([], rw other refl)
]

-- What an answer says of the world.
Effect : World → Message → Posted → Type 0
Effect w m (answered w' true) = Stored w m w'
Effect w m (answered w' false) = w' ≡ w
Effect w m _ = Unit {0}

Effect-Stored :
    (w : World) (m : Message) {w' : World} → Stored w m w' → Effect w m (answered w' true)
unfolding Effect
Effect-Stored w m h = h

Effect-kept : (w : World) (m : Message) → Effect w m (answered w false)
unfolding Effect
Effect-kept w m = refl

Effect-dangling : (w : World) (m : Message) → Effect w m dangling
unfolding Effect
Effect-dangling w m = tt

Effect-relocked : (w : World) (m : Message) → Effect w m relocked
unfolding Effect
Effect-relocked w m = tt

Stored-Onward :
    {m m' : Message} (w : World) {w' : World} → Onward m m' → Stored w m' w' → Stored w m w'
Stored-Onward w on (boxed p box m' e o) = boxed p box m' e (Onward-trans on o)
Stored-Onward w on (sent_out o office q m' e f g) = sent_out o office q m' e f (Onward-trans on g)

Effect-Onward :
    (w : World) (m m' : Message) (r : Posted) → Onward m m' → Effect w m' r → Effect w m r
unfolding Effect
Effect-Onward w m m' (answered w' true) on h = Stored-Onward w on h
Effect-Onward w m m' (answered w' false) on h = h
Effect-Onward w m m' relocked on h = tt
Effect-Onward w m m' dangling on h = tt
Effect-Onward w m m' aborted on h = tt
Effect-Onward w m m' out_of_fuel on h = tt

deliver-Effect :
    (w : World) (office : Office) (x : Bytes) (m : Message) → Effect w m (deliver w office x m)
unfolding deliver
deliver-Effect w office x m = elim (Option-cases (find x office.boxes)) [
  | inl e ↦ rw (e, deliver) (Effect-kept w m)
  | inr (p, e) ↦
      rw (e, deliver)
        (elim (Option-cases (find p w.mailboxes)) [
          | inl f ↦ rw (f, deliver) (Effect-kept w m)
          | inr (box, f) ↦
              rw (f, deliver)
                (Effect-Stored w m (boxed p box m f (Onward-address_as m [] m.meta.to [] refl)))
        ])
]

send_outside-Effect :
    (w : World) (o : ℕ) (office : Office) (m : Message)
    → find o w.posts ≡ some office
    → Effect w m (send_outside w o office m)
unfolding send_outside
send_outside-Effect w o office m e = elim (Option-cases office.out) [
  | inl f ↦ rw (f, send_outside) (Effect-kept w m)
  | inr (q, f) ↦
      rw (f, send_outside)
        (Effect-Stored w m (sent_out o office q m e f (Onward-address_as m [] m.meta.to [] refl)))
]

module _ (again : Sender)
    (good : (w : World) (held : List ℕ) (o : ℕ) (m : Message) → Effect w m (again w held o m)) where
  send_up-Effect :
      (w : World) (held : List ℕ) (o : ℕ) (m : Message) → Effect w m (send_up again w held o m)
  unfolding send_up
  send_up-Effect w held o m = elim (Option-cases (find o w.posts)) [
    | inl e ↦ rw (e, send_up) (Effect-dangling w m)
    | inr (office, e) ↦
        let m' = push_from office.address m in
        let on : Onward m m' = Onward-address_as m [] m.meta.to (office.address ∷ []) refl in
        rw (e, send_up)
          (elim (Option-cases office.parent) [
            | inl f ↦
                rw (f, send_up)
                  (Effect-Onward w m m' (send_outside w o office m') on
                    (send_outside-Effect w o office m' e))
            | inr (p, f) ↦
                rw (f, send_up) (Effect-Onward w m m' (again w held p m') on (good w held p m'))
          ])
  ]

  unless_sent-Effect :
      (w : World) (m : Message) (r : Posted) (up : World → Posted)
      → Effect w m r
      → ((w' : World) → Effect w' m (up w'))
      → Effect w m (unless_sent r up)
  unfolding unless_sent Effect
  unless_sent-Effect w m (answered w' true) up h k = h
  unless_sent-Effect w m (answered w' false) up h k = subst (λ v. Effect v m (up w')) h (k w')
  unless_sent-Effect w m relocked up h k = tt
  unless_sent-Effect w m dangling up h k = tt
  unless_sent-Effect w m aborted up h k = tt
  unless_sent-Effect w m out_of_fuel up h k = tt

  send_on-Effect :
      (w : World) (held : List ℕ) (o : ℕ) (office : Office) (m : Message) (x : Bytes)
      (rest passed : List Bytes)
      → m.meta.to ≡ passed ++ (x ∷ rest)
      → Effect w m (send_on again w held o office m x rest)
  unfolding send_on
  send_on-Effect w held o office m x rest passed e =
      let m' = address_as (x ∷ rest) m.meta.from m in
      let cp = address_as rest (office.address ∷ m.meta.from) m in
      let on : Onward m m' = Onward-address_as m passed (x ∷ rest) [] e in
      let down : Onward m cp =
        Onward-address_as m (passed ++ (x ∷ [])) rest (office.address ∷ [])
          (rw (append_assoc passed (x ∷ []) rest) e) in
      let up : (v : World) → Effect v m (send_up again v held o m') =
        λ v. Effect-Onward v m m' (send_up again v held o m') on (send_up-Effect v held o m') in
      elim (Bool-cases (holds o held)) [
        | inl h ↦ rw (h, send_on) (Effect-relocked w m)
        | inr h ↦
            rw (h, send_on)
              (elim (Option-cases (live_child w office x)) [
                | inl f ↦ rw (f, send_on) (up w)
                | inr (c, f) ↦
                    rw (f, send_on)
                      (unless_sent-Effect w m (again w (o ∷ held) c cp)
                        (λ v. send_up again v held o m')
                        (Effect-Onward w m cp (again w (o ∷ held) c cp) down
                          (good w (o ∷ held) c cp))
                        up)
              ])
      ]

send-Effect :
    (f : ℕ) (w : World) (held : List ℕ) (o : ℕ) (m : Message) → Effect w m (send f w held o m)
unfolding send
send-Effect zero w held o m = unfold Effect in tt
send-Effect (suc f) w held o m = elim (Option-cases (find o w.posts)) [
  | inl e ↦ rw (e, send) (Effect-dangling w m)
  | inr (office, e) ↦
      let (passed, h) = pop_own_prefix office.address m.meta.to in
      rw (e, send)
        (elim (List-cases (pop_own office.address m.meta.to)) [
          | inl g ↦ rw (g, send) (Effect-kept w m)
          | inr (x, [], g) ↦
              rw (g, send)
                (Effect-Onward w m (address_as (x ∷ []) m.meta.from m)
                  (deliver w office x (address_as (x ∷ []) m.meta.from m))
                  (Onward-address_as m passed (x ∷ []) [] (h ∙ ap (◌++◌ passed) g))
                  (deliver-Effect w office x (address_as (x ∷ []) m.meta.from m)))
          | inr (x, y ∷ to, g) ↦
              rw (g, send)
                (send_on-Effect (send f) (send-Effect f) w held o office m x (y ∷ to) passed
                  (h ∙ ap (◌++◌ passed) g))
        ])
]

-- Whatever the offices, locks and fuel: where send answers true, the world has changed in one
-- place, where one mailbox, or the queue to the outside of one master post, has the message behind
-- what it had, with addresses only taken off the front of its addresses and signatures only put in
-- front of its senders and all else as it was; and where send answers false, nothing has changed.
pub send_stores :
    (f : ℕ) (w : World) (held : List ℕ) (o : ℕ) (m : Message) (w' : World) (b : Bool)
    → send f w held o m ≡ answered w' b
    → if b then Stored w m w' else (w' ≡ w)
unfolding Effect
send_stores f w held o m w' true e = subst (Effect w m) e (send-Effect f w held o m)
send_stores f w held o m w' false e = subst (Effect w m) e (send-Effect f w held o m)
