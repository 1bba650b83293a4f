-- ===== src/Threads/RingQueue/Tests.antt =====
-- The first push of bite/pthread/con_pro.cpp.
use linux_note.Base.{
  ℕ, ◌+◌, ◌≤◌, ◌<◌, ◌≡◌, refl, none, some, List, [], ◌∷◌, ◌++◌, map, length, get_elem?, replicate,
}
use linux_note.Threads.Crew.{sum_of}
use linux_note.Threads.Entries.{productor, consumer, of_thread, upto}
use linux_note.Threads.RingQueue.{
  at_place, at_index, Thread, State, push, act, turn, max_queue, start, Reach, begin, next,
}
use linux_note.Threads.RingQueue.Invariant.{inside, ahead}
use linux_note.Threads.RingQueue.Order.{pops_ring_in_order, never_all_wait}

-- Productor 0 has stored 0 and has the lock.
abbrev one_stored : State
one_stored = record (start 4 4) {
  sem_space = 4;
  sem_lock = 0;
  threads =
      record { role = productor; point = at_index; number = 0 }
        ∷ replicate 3 (record { role = productor; point = at_place; number = 0 })
      ++ replicate 4 (record { role = consumer; point = at_place; number = 0 });
  pushed = record { by = 0; value = 0 } ∷ [];
}

one_stored-Reach : Reach 4 4 one_stored
unfolding turn act push
one_stored-Reach = next 0 (next 0 (next 0 begin refl) refl) refl

pops_ring_in_order_example :
    (pending : List ℕ) × (map (λ e. e.value) one_stored.pushed
      ≡ map (λ e. e.value) one_stored.popped ++ pending)
    × (length pending ≤ max_queue)
    × ((j : ℕ) (t : Thread)
        → get_elem? one_stored.threads j ≡ some t
        → t.role ≡ productor
        → of_thread j one_stored.pushed ≡ upto (t.number + ahead t.point))
    × (one_stored.pos_write < length one_stored.array)
    × (one_stored.pos_read < length one_stored.array)
    × (sum_of inside one_stored.threads ≤ 1)
pops_ring_in_order_example = pops_ring_in_order 4 4 one_stored one_stored-Reach

never_all_wait_example :
    ¬ ((k : ℕ) (v : Thread) → get_elem? one_stored.threads k ≡ some v → turn k one_stored ≡ none)
never_all_wait_example =
    never_all_wait 4 4 one_stored 0 4 (record { role = productor; point = at_index; number = 0 })
      (record { role = consumer; point = at_place; number = 0 }) one_stored-Reach refl refl refl
      refl
