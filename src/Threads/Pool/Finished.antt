-- ===== src/Threads/Pool/Finished.antt =====
-- The end of the tasks in bite/pthread/threadPool.cpp.
use linux_note.Base.{
  ℕ, ◌+◌, ◌≤◌, ◌<◌, ◌≡◌, refl, sym, ap, ◌≢◌, ◌⊎◌, inl, inr, true, false, Option, none, some, List,
  [], ◌∷◌, arith, ltb, if◌then◌else◌, Bool-cases, get_elem?, length-replicate,
}
use mathlib.Core.Path.{subst}
use linux_note.Threads.Crew.{sum_of, sum_of_zero}
use linux_note.Threads.Picks.{can_pick}
use linux_note.Threads.Pool.{
  is_asleep, ThreadTask, Worker, w_lock, w_test, w_asleep, w_awake, w_take, w_unlock, w_run, Main,
  m_lock, m_push, m_unlock, m_signal, m_sleeps, Holder, nobody, main_thread, worker, State, Next,
  waits, goes, empty, is_asleep, push_task, lock_main, take_task, lock, thr_start, Turn, main_runs,
  worker_runs, turn, start, Reach, begin, next, wake_up,
}
use linux_note.Threads.Pool.Invariant.{inside, main_inside, ahead, times, in_hand, Fine, Inv}
use linux_note.Threads.Pool.Once.{Reach-Inv, tasks_run_once}
use linux_note.Threads.Pool.Awake.{in_round, is_signalling, is_up, Live, Goes, thr_start-Goes}
use linux_note.Threads.Pool.Signals.{push_task-Goes, change-Live}

turn-Goes : (count : ℕ) (t : Turn) (s : State) → Live count s → Goes count (turn count t s)
unfolding turn
turn-Goes count (main_runs k) s live = push_task-Goes count k s s.main refl live
turn-Goes count (worker_runs j) s live = turn_of (get_elem? s.workers j) refl
  where
    turn_of :
        (o : Option Worker)
        → get_elem? s.workers j ≡ o
        → Goes count (elim o [ none ↦ waits | some w ↦ thr_start j s w ])
    turn_of none e = tt
    turn_of (some w) e = thr_start-Goes count j s w e live

start-Live : (maxThr count : ℕ) → 0 < maxThr → Live count (start maxThr)
start-Live maxThr count some_thread = record {
  main_back = λ e. cc;
  worker_back = λ j e. cc;
  few = omega arith;
  all_pushed = λ e. cc;
  somebody = omega (arith, some_thread, length-replicate maxThr w_lock);
  awake = λ left. cc;
}

Reach-Live : (maxThr count : ℕ) (s : State) → 0 < maxThr → Reach maxThr count s → Live count s
Reach-Live maxThr count s some_thread begin = start-Live maxThr count some_thread
Reach-Live maxThr count s some_thread (next {s = before} t r e) =
    subst (Goes count) e (turn-Goes count t before (Reach-Live maxThr count before some_thread r))
Reach-Live maxThr count s some_thread (wake_up {s = before} k r) =
    change-Live count k before (Reach-Live maxThr count before some_thread r)

abbrev DoesGo : Next → Type 0
DoesGo n = (s' : State) × (n ≡ goes s')

-- `main` goes on where it holds the mutex, and where nobody does and it is not behind its loop.
main_inside-DoesGo :
    (count : ℕ) (s : State) (m : Main) → main_inside m ≡ true → DoesGo (push_task count 0 s m)
unfolding push_task
main_inside-DoesGo count s m_push h = (_, refl)
main_inside-DoesGo count s m_unlock h = (_, refl)
main_inside-DoesGo count s m_lock h = cc
main_inside-DoesGo count s m_signal h = cc
main_inside-DoesGo count s m_sleeps h = cc

lock_main-DoesGo : (s : State) → s.holder ≡ nobody → DoesGo (lock_main s s.holder)
unfolding lock_main
lock_main-DoesGo s free = rw (free) (_, refl)

free_main-DoesGo :
    (count : ℕ) (s : State) (m : Main)
    → s.holder ≡ nobody
    → (m ≡ m_sleeps) ⊎ ((k : ℕ) × DoesGo (push_task count k s m))
unfolding push_task
free_main-DoesGo count s m_lock free = elim (Bool-cases (ltb s.i count)) [
  | inl more ↦ inr (0, rw (more) (lock_main-DoesGo s free))
  | inr done ↦ inr (0, rw (done) (_, refl))
]
free_main-DoesGo count s m_push free = inr (0, (_, refl))
free_main-DoesGo count s m_unlock free = inr (0, (_, refl))
free_main-DoesGo count s m_signal free =
    let (k, can) = can_pick is_asleep s.workers in inr (k, rw (can) (_, refl))
free_main-DoesGo count s m_sleeps free = inl refl

take_task-DoesGo :
    (j : ℕ) (s : State) (q : List ThreadTask) → empty q ≡ false → DoesGo (take_task j s q)
unfolding take_task
take_task-DoesGo j s [] left = cc
take_task-DoesGo j s (t ∷ ts) left = (_, refl)

-- A worker goes on where it holds the mutex.
inside-DoesGo :
    (j : ℕ) (s : State) (w : Worker) → inside w ≡ true → Fine s j w → DoesGo (thr_start j s w)
unfolding thr_start
inside-DoesGo j s w_test h fine = (_, refl)
inside-DoesGo j s w_take h fine = take_task-DoesGo j s s.queue (fine.1 refl)
inside-DoesGo j s (w_unlock t) h fine = (_, refl)
inside-DoesGo j s w_lock h fine = cc
inside-DoesGo j s w_asleep h fine = cc
inside-DoesGo j s w_awake h fine = cc
inside-DoesGo j s (w_run t) h fine = cc

lock-DoesGo : (j : ℕ) (s : State) → s.holder ≡ nobody → DoesGo (lock j s s.holder)
unfolding lock
lock-DoesGo j s free = rw (free) (_, refl)

-- A worker goes on where nobody holds the mutex and it is not asleep.
free-DoesGo :
    (j : ℕ) (s : State) (w : Worker)
    → s.holder ≡ nobody
    → Fine s j w
    → (w ≡ w_asleep) ⊎ DoesGo (thr_start j s w)
unfolding thr_start
free-DoesGo j s w_lock free fine = inr (lock-DoesGo j s free)
free-DoesGo j s w_test free fine = inr (_, refl)
free-DoesGo j s w_asleep free fine = inl refl
free-DoesGo j s w_awake free fine = inr (lock-DoesGo j s free)
free-DoesGo j s w_take free fine = inr (take_task-DoesGo j s s.queue (fine.1 refl))
free-DoesGo j s (w_unlock t) free fine = inr (_, refl)
free-DoesGo j s (w_run t) free fine = inr (_, refl)

-- No thread can take a step.
abbrev pub IsStuck : ℕ → State → Type 0
IsStuck count s = (t : Turn) (s' : State) → turn count t s ≢ goes s'

stuck_main : (count k : ℕ) (s : State) → IsStuck count s → ¬ DoesGo (push_task count k s s.main)
unfolding turn
stuck_main count k s stuck (s', e) = stuck (main_runs k) s' e

stuck_worker :
    (count j : ℕ) (s : State) (w : Worker)
    → IsStuck count s
    → get_elem? s.workers j ≡ some w
    → ¬ DoesGo (thr_start j s w)
unfolding turn
stuck_worker count j s w stuck at_j (s', e) = stuck (worker_runs j) s' (rw (turn, at_j) e)

stuck-free :
    (count : ℕ) (s : State) (h : Holder)
    → s.holder ≡ h
    → IsStuck count s
    → Inv s
    → Live count s
    → s.holder ≡ nobody
stuck-free count s nobody e stuck inv live = e
stuck-free count s main_thread e stuck inv live =
    absurd (stuck_main count 0 s stuck (main_inside-DoesGo count s s.main (live.main_back e)))
stuck-free count s (worker j) e stuck inv live =
    let (w, at_j, in_w) = live.worker_back j e in
    absurd (stuck_worker count j s w stuck at_j (inside-DoesGo j s w in_w (inv.crew j w at_j)))

empty_lem : (q : List ThreadTask) → empty q ≡ true → q ≡ []
empty_lem [] e = refl
empty_lem (t ∷ ts) e = cc

-- For any number of workers above 0, in any order of the steps, and whichever workers wake: if in the end no
-- thread can take a step, then all tasks have been run, each exactly once, `main` is behind its loop, and
-- no task is left in the queue. So no signal is lost, and the threads never block each other.
pub stuck_all_ran :
    (maxThr count v : ℕ) (s : State)
    → 0 < maxThr
    → Reach maxThr count s
    → IsStuck count s
    → (times v s.ran ≡ (if ltb v count then 1 else 0)) × (s.main ≡ m_sleeps) × (s.queue ≡ [])
stuck_all_ran maxThr count v s some_thread r stuck =
    let inv = Reach-Inv maxThr count s r in
    let live = Reach-Live maxThr count s some_thread r in
    let free = stuck-free count s s.holder refl stuck inv live in
    let sleeps : s.main ≡ m_sleeps = elim (free_main-DoesGo count s s.main free) [
      | inl e ↦ e
      | inr (k, can_go) ↦ absurd (stuck_main count k s stuck can_go)
    ] in
    let all_asleep : (j : ℕ) (w : Worker) → get_elem? s.workers j ≡ some w → w ≡ w_asleep =
      λ j w at_j. elim (free-DoesGo j s w free (inv.crew j w at_j)) [
        | inl e ↦ e
        | inr can_go ↦ absurd (stuck_worker count j s w stuck at_j can_go)
      ] in
    let none_left : s.queue ≡ [] = elim (Bool-cases (empty s.queue)) [
      | inl e ↦ empty_lem s.queue e
      | inr left ↦ elim (live.awake left) [
        | inl (j, (w, at_j, up)) ↦ let down : is_up w ≡ false = rw (all_asleep j w at_j) refl in cc
        | inr signals ↦ let quiet : is_signalling s.main ≡ false = rw (sleeps) refl in cc
      ]
    ] in
    let hands : sum_of (in_hand v) s.workers ≡ 0 =
      sum_of_zero (in_hand v) s.workers (λ j w at_j. ap (in_hand v) (all_asleep j w at_j)) in
    let few : s.i + in_round m_sleeps ≤ count = rw sleeps at live.few in
    let all_in : s.i + ahead s.main ≡ count =
      rw (sleeps) (omega (arith, few, live.all_pushed sleeps)) in
    let placed : times v s.ran + sum_of (in_hand v) s.workers + 0 ≡ (if ltb v count then 1 else 0) =
      rw (none_left, all_in) at (tasks_run_once maxThr count v s r).1 in
    (rw (sym placed) (omega (arith, hands)), sleeps, none_left)
