-- ===== src/Mail/Fifo.antt =====
-- util/queue.hpp: what the threads see of a queue, over any interleaving of their calls.
use firestr.Prelude.{
  Bool, true, false, List, [], ◌∷◌, ◌++◌, ◌≡◌, ◌↔◌, inl, inr, refl, sym, ap, ◌∙◌, append_assoc,
  append-nil, Bool-cases, List-cases,
}
use firestr.Mail.Queue.{Queue, taken, refused, waits, push, pop, done}

-- A call by a producer, a consumer, or whoever ends the queue.
pub data Call {ℓ} (A : Type ℓ) : Type ℓ where
  pushes : A → Call A
  pops : Bool → Call A
  ends : Call A

module _ {ℓ} {A : Type ℓ} where
  -- What one call takes out, and the queue. A call that waits changes nothing.
  unfoldable pub call : Call A → Queue A → List A × Queue A
  call (pushes v) q = ([], push v q)
  call (pops wait) q = elim (pop wait q) [
    | taken v q' ↦ (v ∷ [], q')
    | refused ↦ ([], q)
    | waits ↦ ([], q)
  ]
  call ends q = ([], done q)

  unfoldable pub calls : List (Call A) → Queue A → List A × Queue A
  calls [] q = ([], q)
  calls (c ∷ cs) q = let r = call c q in let rest = calls cs r.1 in (r.0 ++ rest.0, rest.1)

  abbrev pub pushed : List (Call A) → List A
  pushed [] = []
  pushed (pushes v ∷ cs) = v ∷ pushed cs
  pushed (_ ∷ cs) = pushed cs

  pop-items :
      (wait : Bool) (q : Queue A) → (call (pops wait) q).0 ++ (call (pops wait) q).1.items ≡ q.items
  unfolding call pop
  pop-items true q = elim (List-cases q.items) [
    | inl e ↦ elim (Bool-cases q.is_done) [ inl d ↦ rw (e, d) refl | inr d ↦ rw (e, d) refl ]
    | inr (v, vs, e) ↦ elim (Bool-cases q.is_done) [
      | inl d ↦ rw (e, d) refl
      | inr d ↦ rw (e, d) refl
    ]
  ]
  pop-items false q = elim (List-cases q.items) [ inl e ↦ rw e refl | inr (v, vs, e) ↦ rw e refl ]

  call-items :
      (c : Call A) (q : Queue A) → (call c q).0 ++ (call c q).1.items ≡ q.items ++ pushed (c ∷ [])
  unfolding call push done
  call-items (pushes v) q = refl
  call-items (pops wait) q = pop-items wait q ∙ sym (append-nil q.items)
  call-items ends q = sym (append-nil q.items)

  pushed-cons : (c : Call A) (cs : List (Call A)) → pushed (c ∷ []) ++ pushed cs ≡ pushed (c ∷ cs)
  pushed-cons (pushes v) cs = refl
  pushed-cons (pops wait) cs = refl
  pushed-cons ends cs = refl

  -- Over any sequence of the calls push, pop (waiting or not) and done on a queue, what comes out
  -- followed by what is left is what was there followed by what was pushed.
  pub calls-fifo :
      (cs : List (Call A)) (q : Queue A)
      → (calls cs q).0 ++ (calls cs q).1.items ≡ q.items ++ pushed cs
  unfolding calls
  calls-fifo [] q = sym (append-nil q.items)
  calls-fifo (c ∷ cs) q =
      let r : List A × Queue A = call c q in
      let rest : List A × Queue A = calls cs r.1 in
      append_assoc r.0 rest.0 rest.1.items
      ∙ (ap (λ x. r.0 ++ x) (calls-fifo cs r.1)
          ∙ (sym (append_assoc r.0 r.1.items (pushed cs))
              ∙ (ap (λ x. x ++ pushed cs) (call-items c q)
                  ∙ (append_assoc q.items (pushed (c ∷ [])) (pushed cs)
                      ∙ ap (λ x. q.items ++ x) (pushed-cons c cs)))))

  -- pop waits exactly where it is asked to, the queue is empty and the queue is not done.
  pub pop-waits_iff :
      (wait : Bool) (q : Queue A)
      → (pop wait q ≡ waits) ↔ ((wait ≡ true) × (q.items ≡ []) × (q.is_done ≡ false))
  unfolding pop
  pop-waits_iff true q = elim (List-cases q.items) [
    | inl e ↦ elim (Bool-cases q.is_done) [
      | inl d ↦ (λ h. cc (rw (e, d, pop) at h), λ (_, _, h). cc)
      | inr d ↦ (λ _. (refl, e, d), λ _. rw (e, d, pop) refl)
    ]
    | inr (v, vs, e) ↦ elim (Bool-cases q.is_done) [
      | inl d ↦ (λ h. cc (rw (e, d, pop) at h), λ (_, h, _). cc)
      | inr d ↦ (λ h. cc (rw (e, d, pop) at h), λ (_, h, _). cc)
    ]
  ]
  pop-waits_iff false q = elim (List-cases q.items) [
    | inl e ↦ (λ h. cc (rw (e, pop) at h), λ (h, _, _). cc)
    | inr (v, vs, e) ↦ (λ h. cc (rw (e, pop) at h), λ (h, _, _). cc)
  ]
