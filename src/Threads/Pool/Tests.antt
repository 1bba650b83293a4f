-- ===== src/Threads/Pool/Tests.antt =====
-- The first task of bite/pthread/threadPool.cpp.
use linux_note.Base.{
  zero, suc, ◌+◌, ◌≡◌, refl, ◌≢◌, [], ◌∷◌, ◌++◌, arith, ltb, if◌then◌else◌, replicate,
}
use linux_note.Threads.Crew.{sum_of}
use linux_note.Threads.Pool.{
  w_asleep, m_sleeps, w_lock, w_run, State, m_lock, nobody, fault, task, thr_start, push_task, lock,
  lock_main, take_task, wakes, Turn, main_runs, worker_runs, turn, start, Reach, begin, next,
  max_thread, task_count,
}
use linux_note.Threads.Pool.Invariant.{ahead, tasks, times, in_hand}
use linux_note.Threads.Pool.Once.{tasks_run_once}
use linux_note.Threads.Pool.Finished.{IsStuck, stuck_all_ran}

-- `main` has pushed the first task, and worker 0 is about to run it.
abbrev one_taken : State
one_taken = record {
  queue = [];
  holder = nobody;
  main = m_lock;
  i = 1;
  workers = w_run (task 0) ∷ replicate 4 w_lock;
  taken = task 0 ∷ [];
  ran = [];
}

abbrev one_pushed : State
one_pushed = record (start max_thread) { i = 1; queue = task 0 ∷ [] }

one_pushed-Reach : Reach max_thread task_count one_pushed
unfolding turn push_task lock_main wakes
one_pushed-Reach =
    next (main_runs 0)
      (next (main_runs 0) (next (main_runs 0) (next (main_runs 0) begin refl) refl) refl) refl

one_taken-Reach : Reach max_thread task_count one_taken
unfolding turn thr_start lock take_task
one_taken-Reach =
    next (worker_runs 0)
      (next (worker_runs 0) (next (worker_runs 0) (next (worker_runs 0) one_pushed-Reach refl) refl)
        refl)
      refl

tasks_run_once_example :
    (one_taken.taken ++ one_taken.queue ≡ tasks (one_taken.i + ahead one_taken.main))
    × (times 0 one_taken.ran + sum_of (in_hand 0) one_taken.workers + times 0 one_taken.queue
        ≡ (if ltb 0 (one_taken.i + ahead one_taken.main) then 1 else 0))
    × ((t : Turn) → turn task_count t one_taken ≢ fault)
tasks_run_once_example = tasks_run_once max_thread task_count 0 one_taken one_taken-Reach

-- One worker has run the one task, and sleeps.
abbrev all_done : State
all_done = record {
  queue = [];
  holder = nobody;
  main = m_sleeps;
  i = 1;
  workers = w_asleep ∷ [];
  taken = task 0 ∷ [];
  ran = task 0 ∷ [];
}

abbrev pushed_one : State
pushed_one = record (start 1) { main = m_sleeps; i = 1; queue = task 0 ∷ [] }

pushed_one-Reach : Reach 1 1 pushed_one
unfolding turn push_task lock_main wakes
pushed_one-Reach =
    next (main_runs 0)
      (next (main_runs 0)
        (next (main_runs 0) (next (main_runs 0) (next (main_runs 0) begin refl) refl) refl) refl)
      refl

all_done-Reach : Reach 1 1 all_done
unfolding turn thr_start lock take_task
all_done-Reach =
    next (worker_runs 0)
      (next (worker_runs 0)
        (next (worker_runs 0)
          (next (worker_runs 0)
            (next (worker_runs 0)
              (next (worker_runs 0) (next (worker_runs 0) pushed_one-Reach refl) refl) refl)
            refl)
          refl)
        refl)
      refl

all_done-IsStuck : IsStuck 1 all_done
unfolding turn push_task thr_start
all_done-IsStuck (main_runs k) s' e = cc
all_done-IsStuck (worker_runs zero) s' e = cc
all_done-IsStuck (worker_runs (suc j)) s' e = cc

stuck_all_ran_example :
    (times 0 all_done.ran ≡ (if ltb 0 1 then 1 else 0))
    × (all_done.main ≡ m_sleeps)
    × (all_done.queue ≡ [])
stuck_all_ran_example = stuck_all_ran 1 1 0 all_done (omega arith) all_done-Reach all_done-IsStuck
