-- ===== src/Mail/Tests.antt =====
-- Runs of the queues and mailboxes, and their theorems at concrete values.
use firestr.Prelude.{ℕ, ◌≡◌, refl, true, false, List, [], ◌∷◌, ◌++◌}
use firestr.Mail.Queue.{Queue, empty_queue, push, pop, done}
use firestr.Mail.Fifo.{Call, pushes, pops, ends, calls, call, calls-fifo}
use firestr.Mail.Balance.{Use, in_push, out_push, in_pop, finishes}

-- A consumer takes one of two items, the queue ends, and a waiting consumer gets nothing more.
abbrev some_calls : List (Call ℕ)
some_calls = pushes 4 ∷ pops true ∷ pushes 5 ∷ ends ∷ pops true ∷ []

abbrev no_items : Queue ℕ
no_items = empty_queue

some_calls_run : (calls some_calls no_items).0 ≡ 4 ∷ []
unfolding calls call push pop done
some_calls_run = refl

calls-fifo_example :
    (calls some_calls no_items).0 ++ (calls some_calls no_items).1.items ≡ 4 ∷ 5 ∷ []
calls-fifo_example = calls-fifo some_calls no_items

abbrev some_uses : List (Use ℕ)
some_uses = in_push 1 ∷ in_push 2 ∷ in_pop false ∷ out_push 3 ∷ finishes ∷ in_pop true ∷ []
