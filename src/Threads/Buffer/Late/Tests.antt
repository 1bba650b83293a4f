-- ===== src/Threads/Buffer/Late/Tests.antt =====
-- The first number of LinuxC/pthread/semaphore/sem_test.c.
use linux_note.Base.{ℕ, ◌≤◌, ◌≡◌, refl, List, [], ◌∷◌, ◌++◌, length, replicate}
use linux_note.Threads.Buffer.{num, c_post}
use linux_note.Threads.Buffer.Late.{
  at_wait, LateState, late_produce, late_consume, LateReach, late_begin, produces, consumes,
}
use linux_note.Threads.Buffer.Late.Prints.{Prints, late_in_order}

-- With the number 8 that is stored first, the consumer comes before the `printf` of the producer, which
-- prints 0.
abbrev printed_late : LateState
printed_late = record {
  queue = replicate num 0;
  blank = 4;
  full = 0;
  producer_top = 1;
  producer = at_wait;
  consumer_top = 0;
  consumer = c_post;
  stored = 8 ∷ [];
  produced = 0 ∷ [];
  consumed = 8 ∷ [];
}

printed_late-LateReach : LateReach printed_late
unfolding late_produce late_consume
printed_late-LateReach =
    produces 0
      (consumes
        (consumes (consumes (produces 0 (produces 7 (produces 0 late_begin refl) refl) refl) refl)
          refl)
        refl)
      refl

late_in_order_example :
    ((pending : List ℕ) × (printed_late.stored ≡ printed_late.consumed ++ pending)
      × (length pending ≤ num))
    × Prints at_wait printed_late.stored printed_late.produced 0
late_in_order_example = late_in_order printed_late printed_late-LateReach
