-- ===== src/Threads/Buffer/Tests.antt =====
-- The first number of LinuxC/pthread/semaphore/pth_sem.c.
use linux_note.Base.{ℕ, ◌+◌, ◌≤◌, ◌<◌, ◌≡◌, refl, none, List, [], ◌∷◌, ◌++◌, length}
use linux_note.Threads.Buffer.{
  num, State, produce, producer_runs, consumer_runs, turn, start, Reach, begin, next,
}
use linux_note.Threads.Buffer.Order.{consumes_in_order, never_both_wait}

-- 43 was made, printed and posted, and not taken.
abbrev one_made : State
one_made = record start {
  queue = 43 ∷ 0 ∷ 0 ∷ 0 ∷ 0 ∷ [];
  blank = 4;
  product = 1;
  p = 1;
  produced = 43 ∷ [];
}

one_made-Reach : Reach one_made
unfolding turn produce
one_made-Reach =
    next (producer_runs 0)
      (next (producer_runs 0) (next (producer_runs 42) (next (producer_runs 0) begin refl) refl)
        refl)
      refl

consumes_in_order_example :
    (pending : List ℕ) × (one_made.produced ≡ one_made.consumed ++ pending)
    × (length pending ≤ num)
    × (one_made.p < length one_made.queue)
    × (one_made.c < length one_made.queue)
    × (one_made.blank + one_made.product ≤ num)
consumes_in_order_example = consumes_in_order one_made one_made-Reach

never_both_wait_example :
    ¬ ((turn (producer_runs 0) one_made ≡ none) × (turn consumer_runs one_made ≡ none))
never_both_wait_example = never_both_wait one_made 0 one_made-Reach
