-- ===== src/Threads/Philosophers/Tests.antt =====
-- The first philosopher of LinuxC/pthread/TheDinningPhilosophersProblem/phil_pro_mutex.c.
use linux_note.Base.{◌≡◌, refl, inl, some, arith}
use linux_note.Threads.Philosophers.{
  at_second, State, moved, lock, philosopher, turn, start, Reach, begin, next,
}
use linux_note.Threads.Philosophers.Holding.{Has}
use linux_note.Threads.Philosophers.Stuck.{chopstick_of_one, stuck_hold_first, can_get_stuck}

abbrev one_holds : State
one_holds = moved 0 0 (some 0) at_second start

one_holds-Reach : Reach one_holds
unfolding turn philosopher lock
one_holds-Reach = next 0 (omega arith) begin refl

chopstick_of_one_example : ¬ Has 4 (one_holds.phil 4) 0
chopstick_of_one_example =
    chopstick_of_one one_holds 0 4 0 one_holds-Reach (omega arith) (omega arith)
      (λ e. omega (arith, e)) (inl (refl, refl))

stuck_hold_first_example : can_get_stuck.0.phil 3 ≡ at_second
stuck_hold_first_example =
    stuck_hold_first can_get_stuck.0 3 can_get_stuck.1 can_get_stuck.2 (omega arith)
