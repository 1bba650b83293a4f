-- ===== src/Threads/Pool/Signals.antt =====
-- The signal of `main` in bite/pthread/threadPool.cpp, and its other steps.
use linux_note.Base.{
  ℕ, ◌+◌, ◌≤◌, ◌<◌, ◌≡◌, refl, inl, inr, true, false, List, [], ◌∷◌, arith, ltb, Bool-cases, ltb→lt,
  length,
}
use linux_note.Threads.Crew.{change, length-change}
use linux_note.Threads.Picks.{may_pick, Found, Found-change, Found-pick}
use linux_note.Threads.Pool.{
  is_asleep, Worker, w_lock, w_test, w_asleep, w_awake, w_take, w_unlock, w_run, Main, m_lock,
  m_push, m_unlock, m_signal, m_sleeps, Holder, nobody, main_thread, worker, State, wakes,
  is_asleep, push_task, lock_main,
}
use linux_note.Threads.Pool.Invariant.{inside, main_inside}
use linux_note.Threads.Pool.Awake.{in_round, is_signalling, is_up, Live, Goes}

is_up-wakes : (w : Worker) → is_up (wakes w) ≡ true
unfolding wakes
is_up-wakes w_asleep = refl
is_up-wakes w_lock = refl
is_up-wakes w_test = refl
is_up-wakes w_awake = refl
is_up-wakes w_take = refl
is_up-wakes (w_unlock t) = refl
is_up-wakes (w_run t) = refl

inside-wakes : (w : Worker) → inside w ≡ true → inside (wakes w) ≡ true
unfolding wakes
inside-wakes w_asleep h = cc
inside-wakes w_lock h = h
inside-wakes w_test h = h
inside-wakes w_awake h = h
inside-wakes w_take h = h
inside-wakes (w_unlock t) h = h
inside-wakes (w_run t) h = h

sleeps_or_up : (w : Worker) → is_asleep w ≡ false → is_up w ≡ true
sleeps_or_up w up = rw (up) refl

-- After the signal a worker is up.
signal_wakes :
    (ws : List Worker) (k : ℕ)
    → may_pick is_asleep k ws ≡ true
    → 0 < length ws
    → (j : ℕ) × Found is_up (change wakes ws k) j
signal_wakes [] k may some_w = absurd (omega (arith, some_w))
signal_wakes (w ∷ ws) k may some_w =
    Found-pick is_asleep is_up wakes (w ∷ ws) k 0 w may (λ u sleeps. is_up-wakes u)
      (λ u up. is_up-wakes u) refl (sleeps_or_up w)

-- A step of `main` that leaves the workers and the tasks.
main_moves-Live :
    (count : ℕ) (s : State) (holder : Holder) (main : Main)
    → (holder ≡ main_thread → main_inside main ≡ true)
    → ((j : ℕ) → holder ≡ worker j → s.holder ≡ worker j)
    → s.i + in_round main ≤ count
    → (main ≡ m_sleeps → count ≤ s.i)
    → (is_signalling s.main ≡ true → is_signalling main ≡ true)
    → Live count s
    → Live count (record s { holder = holder; main = main })
main_moves-Live count s holder main main_in worker_in few pushed signals live = record {
  main_back = main_in;
  worker_back = λ j is_j. live.worker_back j (worker_in j is_j);
  few = few;
  all_pushed = pushed;
  somebody = live.somebody;
  awake = λ left. elim (live.awake left) [ inl up ↦ inl up | inr h ↦ inr (signals h) ];
}

lock_main-Goes :
    (count : ℕ) (s : State) (h : Holder)
    → s.main ≡ m_lock
    → s.i < count
    → Live count s
    → Goes count (lock_main s h)
unfolding lock_main
lock_main-Goes count s nobody here more live =
    main_moves-Live count s main_thread m_push (λ e. refl) (λ j is_j. cc) (omega (arith, more))
      (λ e. cc) (λ h. let quiet : is_signalling s.main ≡ false = rw (here) refl in cc) live
lock_main-Goes count s main_thread here more live = tt
lock_main-Goes count s (worker j) here more live = tt

pub push_task-Goes :
    (count k : ℕ) (s : State) (m : Main)
    → s.main ≡ m
    → Live count s
    → Goes count (push_task count k s m)
unfolding push_task
push_task-Goes count k s m_lock here live = elim (Bool-cases (ltb s.i count)) [
  | inl more ↦ rw (more) (lock_main-Goes count s s.holder here (ltb→lt s.i count more) live)
  | inr done ↦ rw (done) (
      main_moves-Live count s s.holder m_sleeps
        (λ e. let in_m : main_inside m_lock ≡ true = rw here at (live.main_back e) in cc)
        (λ j is_j. is_j) (let few : s.i + 0 ≤ count = rw (here) at live.few in few)
        (λ e. ground (arith, done))
        (λ h. let quiet : is_signalling s.main ≡ false = rw (here) refl in cc) live)
]
push_task-Goes count k s m_push here live = record {
  main_back = λ e. refl;
  worker_back = live.worker_back;
  few = rw (here) at live.few;
  all_pushed = λ e. cc;
  somebody = live.somebody;
  awake = λ left. inr refl;
}
push_task-Goes count k s m_unlock here live =
    main_moves-Live count s nobody m_signal (λ e. cc) (λ j is_j. cc) (rw (here) at live.few)
      (λ e. cc) (λ h. refl) live
push_task-Goes count k s m_signal here live = elim (Bool-cases (may_pick is_asleep k s.workers)) [
  | inr cannot ↦ rw (cannot) tt
  | inl can ↦ rw (can) (record {
    main_back = λ e. let in_m : main_inside m_signal ≡ true = rw here at (live.main_back e) in cc;
    worker_back =
        λ j is_j. Found-change inside wakes s.workers k j inside-wakes (live.worker_back j is_j);
    few = let few : s.i + 1 ≤ count = rw (here) at live.few in omega (arith, few);
    all_pushed = λ e. cc;
    somebody = omega (arith, live.somebody, length-change wakes s.workers k);
    awake = λ left. inl (signal_wakes s.workers k can live.somebody);
  })
]
push_task-Goes count k s m_sleeps here live = tt

pub change-Live :
    (count k : ℕ) (s : State)
    → Live count s
    → Live count (record s { workers = change wakes s.workers k })
change-Live count k s live = record {
  main_back = live.main_back;
  worker_back =
      λ j is_j. Found-change inside wakes s.workers k j inside-wakes (live.worker_back j is_j);
  few = live.few;
  all_pushed = live.all_pushed;
  somebody = omega (arith, live.somebody, length-change wakes s.workers k);
  awake = λ left. elim (live.awake left) [
    | inl (j, up) ↦ inl (j, Found-change is_up wakes s.workers k j (λ w h. is_up-wakes w) up)
    | inr h ↦ inr h
  ];
}
