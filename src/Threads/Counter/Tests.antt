-- ===== src/Threads/Counter/Tests.antt =====
-- Runs of LinuxC/pthread/mutex/pth_mutex.c and pth_nomutex.c with one round of the loop.
use linux_note.Base.{◌*◌, ◌≡◌, refl, false, some, List, [], ◌∷◌, ◌++◌, replicate}
use linux_note.Threads.Counter.{
  returned, System, locked_step, unlocked_step, Turn, a_runs, b_runs, a_moves, b_moves, turn, turns,
  start,
}
use linux_note.Threads.Counter.Locked.{down_from, locked_total}
use linux_note.Threads.Counter.Races.{lost_rounds, unlocked_loses}

abbrev one_after_another : List Turn
one_after_another = replicate 7 a_runs ++ replicate 7 b_runs

-- With the lock, in the end, and without, when both have read 0.
abbrev counted : System
counted = record {
  shared = record { counter = 2; locked = false; printed = 1 ∷ 0 ∷ [] };
  a = returned 1;
  b = returned 1;
}

abbrev lost : System
lost = record {
  shared = record { counter = 1; locked = false; printed = 0 ∷ 0 ∷ [] };
  a = returned 1;
  b = returned 1;
}

counted_run : turns (locked_step 1) one_after_another start ≡ some counted
unfolding turns turn locked_step a_moves b_moves
counted_run = refl

lost_run : turns (unlocked_step 1) (lost_rounds 1) start ≡ some lost
unfolding turns turn unlocked_step a_moves b_moves
lost_run = refl

locked_total_example :
    (counted.shared.counter ≡ 2 * 1) × (counted.shared.printed ≡ down_from (2 * 1))
locked_total_example = locked_total 1 one_after_another counted 1 1 counted_run refl refl

unlocked_loses_example :
    (ts : List Turn) × (s : System) × (turns (unlocked_step 1) ts start ≡ some s)
    × (s.a ≡ returned 1)
    × (s.b ≡ returned 1)
    × (s.shared.counter ≡ 1)
unlocked_loses_example = unlocked_loses 1
