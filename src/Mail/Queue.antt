-- ===== src/Mail/Queue.antt =====
-- util/queue.hpp: `queue`. Each operation holds the mutex from its first to its last access, so the
-- interleavings of the threads are the sequences of operations.
use firestr.Prelude.{
  ℕ, Bool, true, false, List, [], ◌∷◌, ◌++◌, Option, none, some, Outcome, ok, aborted,
  if◌then◌else◌, length,
}

pub record Queue {ℓ} (A : Type ℓ) : Type ℓ where
  pub items : List A
  pub is_done : Bool

-- What `pop` does: `true` with the item, `false`, or the wait on the condition variable.
pub data Popped {ℓ} (A : Type ℓ) : Type ℓ where
  taken : A → Queue A → Popped A
  refused waits : Popped A

module _ {ℓ} {A : Type ℓ} where
  abbrev pub empty_queue : Queue A
  empty_queue = record { items = []; is_done = false }

  unfoldable pub push : A → Queue A → Queue A
  push v q = record q { items = q.items ++ (v ∷ []) }

  unfoldable pub emplace_push : A → Queue A → Queue A
  emplace_push v q = record q { items = q.items ++ (v ∷ []) }

  unfoldable pub emplace_front : A → Queue A → Queue A
  emplace_front v q = record q { items = v ∷ q.items }

  -- The argument is `wait`.
  unfoldable pub pop : Bool → Queue A → Popped A
  pop true q = elim q.items [
    | [] ↦ if q.is_done then refused else waits
    | v ∷ vs ↦ if q.is_done then refused else taken v (record q { items = vs })
  ]
  pop false q = elim q.items [ [] ↦ refused | v ∷ vs ↦ taken v (record q { items = vs }) ]

  -- `none` is the wait.
  unfoldable pub pop_front : Bool → Queue A → Outcome (Option (Queue A))
  pop_front true q = elim q.items [
    | [] ↦ if q.is_done then ok (some q) else ok none
    | v ∷ vs ↦ if q.is_done then ok (some q) else ok (some (record q { items = vs }))
  ]
  pop_front false q = elim q.items [ [] ↦ aborted | v ∷ vs ↦ ok (some (record q { items = vs })) ]

  unfoldable pub front : Queue A → Outcome A
  front q = elim q.items [ [] ↦ aborted | v ∷ vs ↦ ok v ]

  unfoldable pub size : Queue A → ℕ
  size q = length q.items

  unfoldable pub empty : Queue A → Bool
  empty q = elim q.items [ [] ↦ true | _ ∷ _ ↦ false ]

  unfoldable pub done : Queue A → Queue A
  done q = record q { is_done = true }
