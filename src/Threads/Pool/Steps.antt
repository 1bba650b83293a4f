-- ===== src/Threads/Pool/Steps.antt =====
-- The steps of `main` and of the workers of bite/pthread/threadPool.cpp.
use linux_note.Base.{
  ℕ, suc, ◌+◌, ◌≡◌, refl, sym, ap, ◌∙◌, ◌≢◌, inl, inr, true, false, some, List, [], ◌∷◌, ◌++◌,
  append_assoc, arith, ltb, Bool-cases, get_elem?, set,
}
use linux_note.Threads.Crew.{Each-set, sum_of-set}
use linux_note.Threads.Picks.{may_pick}
use linux_note.Threads.Pool.{
  is_asleep, ThreadTask, Worker, w_lock, w_test, w_asleep, w_awake, w_take, w_unlock, w_run, Main,
  m_lock, m_push, m_unlock, m_signal, m_sleeps, Holder, nobody, main_thread, worker, State, task,
  empty, lock_main, push_task, take_task, lock, thr_start,
}
use linux_note.Threads.Pool.Invariant.{
  Fine, Inv, Holds, inside, main_inside, ahead, tasks, in_hand, times-append, others-Fine,
  not_worker, moves-Inv, change-Inv, w_take-inside,
}

-- What the invariant says when `main` goes on, with the mutex before or after.
main_moves-Inv :
    (s : State) (holder : Holder) (main : Main)
    → ahead main ≡ ahead s.main
    → (main_inside main ≡ true → holder ≡ main_thread)
    → ((j : ℕ) → s.holder ≢ worker j)
    → Inv s
    → Inv (record s { holder = holder; main = main })
main_moves-Inv s holder main same main_in no_worker inv = record {
  order = rw (same) inv.order;
  once = inv.once;
  main_holds = main_in;
  crew = λ j w e.
      others-Fine s (record s { holder = holder; main = main }) j w (no_worker j) (inv.crew j w e);
}

lock_main-Inv :
    (s : State) (h : Holder) → s.holder ≡ h → ahead s.main ≡ 0 → Inv s → Holds (lock_main s h)
unfolding lock_main
lock_main-Inv s nobody e same inv =
    main_moves-Inv s main_thread m_push (sym same) (λ in_m. refl) (λ j is_j. cc) inv
lock_main-Inv s main_thread e same inv = tt
lock_main-Inv s (worker j) e same inv = tt

pub push_task-Inv :
    (count k : ℕ) (s : State) (m : Main) → s.main ≡ m → Inv s → Holds (push_task count k s m)
unfolding push_task
push_task-Inv count k s m_lock here inv = elim (Bool-cases (ltb s.i count)) [
  | inl more ↦ rw (more) (lock_main-Inv s s.holder refl (rw (here) refl) inv)
  | inr done ↦ rw (done) record {
    order = rw (here) at inv.order;
    once = inv.once;
    main_holds = λ in_m. cc;
    crew = inv.crew;
  }
]
push_task-Inv count k s m_push here inv =
    let holds : s.holder ≡ main_thread = inv.main_holds (rw (here) refl) in
    let before : tasks (s.i + 0) ≡ s.taken ++ s.queue = rw (here) at inv.order in
    let here_again : s.i + 0 ≡ s.i = omega arith in
    let next : s.i + 1 ≡ suc s.i = omega arith in
    let made : tasks s.i ≡ s.taken ++ s.queue = rw here_again at before in
    record {
      order =
          rw (next)
            (ap (λ l. l ++ task s.i ∷ []) made ∙ append_assoc s.taken s.queue (task s.i ∷ []));
      once = inv.once;
      main_holds = λ in_m. holds;
      crew = λ j w e.
          others-Fine s (record s { queue = s.queue ++ task s.i ∷ []; main = m_unlock }) j w
            (λ is_j. cc) (inv.crew j w e);
    }
push_task-Inv count k s m_unlock here inv =
    let holds : s.holder ≡ main_thread = inv.main_holds (rw (here) refl) in
    main_moves-Inv s nobody m_signal (rw (here) refl) (λ in_m. cc) (λ j is_j. cc) inv
push_task-Inv count k s m_signal here inv = elim (Bool-cases (may_pick is_asleep k s.workers)) [
  | inr cannot ↦ rw (cannot) tt
  | inl can ↦ rw (can) (
      change-Inv (record s { i = s.i + 1; main = m_lock }) k
        record {
          order =
              let made : tasks (s.i + 1) ≡ s.taken ++ s.queue = rw (here) at inv.order in
              let same : s.i + 1 ≡ s.i + 1 + 0 = omega arith in rw same at made;
          once = inv.once;
          main_holds = λ in_m. cc;
          crew = inv.crew;
        })
]
push_task-Inv count k s m_sleeps here inv = tt

lock-Inv :
    (j : ℕ) (s : State) (w : Worker) (h : Holder)
    → get_elem? s.workers j ≡ some w
    → s.holder ≡ h
    → ((v : ℕ) → in_hand v w ≡ 0)
    → Inv s
    → Holds (lock j s h)
unfolding lock
lock-Inv j s w nobody at_j e none_held inv =
    moves-Inv j s w w_test (worker j) at_j (λ v. sym (none_held v))
      (λ in_m. let holds = inv.main_holds in_m in cc) (λ in_w. refl, λ at. cc)
      (λ k u apart. others-Fine s (record s { holder = worker j }) k u (λ is_k. cc)) inv
lock-Inv j s w main_thread at_j e none_held inv = tt
lock-Inv j s w (worker i) at_j e none_held inv = tt

-- The worker that holds the mutex gives it back.
unlocks-Inv :
    (j : ℕ) (s : State) (w w' : Worker)
    → get_elem? s.workers j ≡ some w
    → inside w ≡ true
    → inside w' ≡ false
    → ((v : ℕ) → in_hand v w' ≡ in_hand v w)
    → Inv s
    → Inv (record s { holder = nobody; workers = set s.workers j w' })
unlocks-Inv j s w w' at_j was_in is_out same inv =
    let holds = (inv.crew j w at_j).0 was_in in
    moves-Inv j s w w' nobody at_j same (λ in_m. let main_holds = inv.main_holds in_m in cc)
      (λ in_w. cc, λ at. let in_w = w_take-inside w' at in cc)
      (λ k u apart.
        others-Fine s (record s { holder = nobody }) k u (not_worker j k s.holder holds apart))
      inv

-- `front` and `pop` by worker `j`.
take_task-Inv :
    (j : ℕ) (s : State) (q : List ThreadTask)
    → get_elem? s.workers j ≡ some w_take
    → s.queue ≡ q
    → Inv s
    → Holds (take_task j s q)
unfolding take_task
take_task-Inv j s [] at_j e inv =
    let some_task = (inv.crew j w_take at_j).1 refl in
    let none_left : empty s.queue ≡ true = rw (e) refl in cc
take_task-Inv j s (t ∷ ts) at_j e inv =
    let holds = (inv.crew j w_take at_j).0 refl in
    let order : tasks (s.i + ahead s.main) ≡ s.taken ++ t ∷ ts = rw (e) at inv.order in
    let s' : State = record s { queue = ts; taken = s.taken ++ t ∷ [] } in
    record {
      order = order ∙ sym (append_assoc s.taken (t ∷ []) ts);
      once = λ v. omega (
        arith,
        inv.once v,
        sum_of-set (in_hand v) s.workers j w_take (w_unlock t) at_j,
        times-append v s.taken (t ∷ []),
      );
      main_holds = inv.main_holds;
      crew =
          Each-set (Fine s) (Fine s') s.workers j w_take (w_unlock t) at_j inv.crew
            (λ in_w. holds, λ at. cc)
            (λ k u apart. others-Fine s s' k u (not_worker j k s.holder holds apart));
    }

pub thr_start-Inv :
    (j : ℕ) (s : State) (w : Worker)
    → get_elem? s.workers j ≡ some w
    → Inv s
    → Holds (thr_start j s w)
unfolding thr_start
thr_start-Inv j s w_lock at_j inv = lock-Inv j s w_lock s.holder at_j refl (λ v. refl) inv
thr_start-Inv j s w_test at_j inv = elim (Bool-cases (empty s.queue)) [
  | inl e ↦ rw (e) (unlocks-Inv j s w_test w_asleep at_j refl refl (λ v. refl) inv)
  | inr e ↦ rw (e) (
      moves-Inv j s w_test w_take s.holder at_j (λ v. refl) inv.main_holds
        (λ in_w. (inv.crew j w_test at_j).0 refl, λ at. e) (λ k u apart h. h) inv)
]
thr_start-Inv j s w_asleep at_j inv = tt
thr_start-Inv j s w_awake at_j inv = lock-Inv j s w_awake s.holder at_j refl (λ v. refl) inv
thr_start-Inv j s w_take at_j inv = take_task-Inv j s s.queue at_j refl inv
thr_start-Inv j s (w_unlock t) at_j inv =
    unlocks-Inv j s (w_unlock t) (w_run t) at_j refl refl (λ v. refl) inv
thr_start-Inv j s (w_run t) at_j inv = record {
  order = inv.order;
  once = λ v. omega (
    arith,
    inv.once v,
    sum_of-set (in_hand v) s.workers j (w_run t) w_lock at_j,
    times-append v s.ran (t ∷ []),
  );
  main_holds = inv.main_holds;
  crew =
      Each-set (Fine s) (Fine s) s.workers j (w_run t) w_lock at_j inv.crew (λ in_w. cc, λ at. cc)
        (λ k u apart h. h);
}
