-- ===== src/Threads/BlockQueue/Tests.antt =====
-- The first steps of bite/pthread/pro_con.cpp.
use linux_note.Base.{
  ℕ, ◌+◌, ◌≤◌, ◌≡◌, refl, ◌≢◌, some, List, [], ◌∷◌, ◌++◌, map, arith, length, get_elem?, replicate,
}
use linux_note.Threads.Entries.{consumer, of_thread, productor, upto}
use linux_note.Threads.BlockQueue.{
  at_lock, at_unlock, Thread, State, fault, work, act, turn, Reach, begin, next, max_queue,
}
use linux_note.Threads.BlockQueue.Invariant.{ahead}
use linux_note.Threads.BlockQueue.Stuck.{IsStuck, never_stuck}
use linux_note.Threads.BlockQueue.Order.{pops_in_order}

abbrev crew_after : Thread → List Thread
crew_after t =
    t ∷ replicate 3 (record { role = productor; point = at_lock; number = 0 })
    ++ replicate 4 (record { role = consumer; point = at_lock; number = 0 })

-- Productor 0 has pushed 0 and holds the mutex.
abbrev one_pushed : State
one_pushed = record {
  queue = 0 ∷ [];
  capacity = max_queue;
  holder = some 0;
  threads = crew_after (record { role = productor; point = at_unlock; number = 0 });
  pushed = record { by = 0; value = 0 } ∷ [];
  popped = [];
}

one_pushed-Reach : Reach max_queue 4 4 one_pushed
unfolding turn act work
one_pushed-Reach = next 0 0 (next 0 0 (next 0 0 begin refl) refl) refl

pops_in_order_example :
    (map (λ e. e.value) one_pushed.pushed
      ≡ map (λ e. e.value) one_pushed.popped ++ one_pushed.queue)
    × (length one_pushed.queue ≤ max_queue)
    × ((j : ℕ) (t : Thread)
        → get_elem? one_pushed.threads j ≡ some t
        → t.role ≡ productor
        → of_thread j one_pushed.pushed ≡ upto (t.number + ahead t.point))
    × ((i k : ℕ) → turn i k one_pushed ≢ fault)
pops_in_order_example = pops_in_order max_queue 4 4 one_pushed one_pushed-Reach

never_stuck_example : ¬ IsStuck one_pushed
never_stuck_example =
    never_stuck max_queue 4 4 one_pushed (omega arith) (omega arith) (omega arith) one_pushed-Reach
