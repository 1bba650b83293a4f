-- ===== src/Threads/Pool/Once.antt =====
-- The threads of bite/pthread/threadPool.cpp in any order of their steps.
use linux_note.Base.{
  ℕ, zero, suc, ◌+◌, ◌≡◌, refl, sym, ap, ◌∙◌, ◌≢◌, inl, inr, Option, none, some, [], ◌∷◌, ◌++◌,
  arith, ltb, if◌then◌else◌, get_elem?, replicate,
}
use mathlib.Core.Path.{subst}
use linux_note.Threads.Crew.{sum_of, get_elem?-created}
use linux_note.Threads.Pool.{
  Worker, w_lock, State, waits, fault, task, thr_start, Turn, main_runs, worker_runs, turn, start,
  Reach, begin, next, wake_up,
}
use linux_note.Threads.Pool.Invariant.{
  Fine, Inv, Holds, ahead, tasks, times, in_hand, times-append, change-Inv,
}
use linux_note.Threads.Pool.Steps.{push_task-Inv, thr_start-Inv}

turn-Inv : (count : ℕ) (t : Turn) (s : State) → Inv s → Holds (turn count t s)
unfolding turn
turn-Inv count (main_runs k) s inv = push_task-Inv count k s s.main refl inv
turn-Inv count (worker_runs j) s inv = turn_of (get_elem? s.workers j) refl
  where
    turn_of :
        (o : Option Worker)
        → get_elem? s.workers j ≡ o
        → Holds (elim o [ none ↦ waits | some w ↦ thr_start j s w ])
    turn_of none e = tt
    turn_of (some w) e = thr_start-Inv j s w e inv

no_hands : (v n : ℕ) → sum_of (in_hand v) (replicate n w_lock) ≡ 0
no_hands v zero = refl
no_hands v (suc n) = omega (arith, no_hands v n)

start-Inv : (maxThr : ℕ) → Inv (start maxThr)
start-Inv maxThr = record {
  order = refl;
  once = λ v. omega (arith, no_hands v maxThr);
  main_holds = λ in_m. cc;
  crew = λ j w e. elim (get_elem?-created 0 maxThr w_lock w_lock j w e) [
    | inl same ↦ subst (Fine (start maxThr) j) (sym same) (λ in_w. cc, λ at. cc)
    | inr same ↦ subst (Fine (start maxThr) j) (sym same) (λ in_w. cc, λ at. cc)
  ];
}

pub Reach-Inv : (maxThr count : ℕ) (s : State) → Reach maxThr count s → Inv s
Reach-Inv maxThr count s begin = start-Inv maxThr
Reach-Inv maxThr count s (next {s = before} t r e) =
    subst Holds e (turn-Inv count t before (Reach-Inv maxThr count before r))
Reach-Inv maxThr count s (wake_up {s = before} k r) =
    change-Inv before k (Reach-Inv maxThr count before r)

times-tasks : (v n : ℕ) → times v (tasks n) ≡ (if ltb v n then 1 else 0)
times-tasks v zero = ground arith
times-tasks v (suc n) = ground (arith, times-append v (tasks n) (task n ∷ []), times-tasks v n)

-- For any number of workers and of rounds, in every reachable state, whichever workers wake: the tasks that
-- were taken, followed by the queue, are those that `main` has pushed, in order; each task that was pushed
-- stands in exactly one place, once: it was run, or a worker has it in hand, or it is in the queue; no
-- other task stands anywhere; and no step reads the front of an empty queue.
pub tasks_run_once :
    (maxThr count v : ℕ) (s : State)
    → Reach maxThr count s
    → (s.taken ++ s.queue ≡ tasks (s.i + ahead s.main))
      × (times v s.ran + sum_of (in_hand v) s.workers + times v s.queue
          ≡ (if ltb v (s.i + ahead s.main) then 1 else 0))
      × ((t : Turn) → turn count t s ≢ fault)
tasks_run_once maxThr count v s r =
    let inv = Reach-Inv maxThr count s r in
    let parts : times v s.taken + times v s.queue ≡ times v (tasks (s.i + ahead s.main)) =
      sym (times-append v s.taken s.queue) ∙ ap (times v) (sym inv.order) in
    let all = times-tasks v (s.i + ahead s.main) in
    (
      sym inv.order,
      ap (λ n. n + times v s.queue) (inv.once v) ∙ parts ∙ all,
      λ t e. subst Holds e (turn-Inv count t s inv),
    )
