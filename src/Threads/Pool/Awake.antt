-- ===== src/Threads/Pool/Awake.antt =====
-- Who goes on in bite/pthread/threadPool.cpp: the holder of the mutex, and a worker or the signal of `main`
-- while there are tasks.
use linux_note.Base.{
  ℕ, ◌+◌, ◌≤◌, ◌<◌, ◌≡◌, refl, sym, ap, ◌∙◌, ◌≢◌, ◌⊎◌, inl, inr, Bool, true, false, not, some, List,
  [], ◌∷◌, ◌++◌, arith, Bool-cases, length, get_elem?, set, length-set,
}
use linux_note.Threads.Crew.{get_elem?-set_self}
use linux_note.Threads.Picks.{Found, Found-set}
use linux_note.Threads.Pool.{
  ThreadTask, Worker, w_lock, w_test, w_asleep, w_awake, w_take, w_unlock, w_run, Main, m_push,
  m_unlock, m_signal, m_sleeps, Holder, nobody, main_thread, worker, State, Next, waits, fault,
  goes, empty, is_asleep, take_task, lock, thr_start,
}
use linux_note.Threads.Pool.Invariant.{inside, main_inside}

-- 1 from `i < 10` to `++i`.
abbrev pub in_round : Main → ℕ
in_round m_push = 1
in_round m_unlock = 1
in_round m_signal = 1
in_round _ = 0

abbrev pub is_signalling : Main → Bool
is_signalling m_unlock = true
is_signalling m_signal = true
is_signalling _ = false

abbrev pub is_up : Worker → Bool
is_up w = not (is_asleep w)

pub record Live (count : ℕ) (s : State) : Type 0 where
  pub main_back : s.holder ≡ main_thread → main_inside s.main ≡ true
  pub worker_back : (j : ℕ) → s.holder ≡ worker j → Found inside s.workers j
  pub few : s.i + in_round s.main ≤ count
  pub all_pushed : s.main ≡ m_sleeps → count ≤ s.i
  pub somebody : 0 < length s.workers
  pub awake :
      empty s.queue ≡ false → ((j : ℕ) × Found is_up s.workers j) ⊎ (is_signalling s.main ≡ true)

abbrev pub Goes : ℕ → Next → Type 0
Goes count waits = Unit
Goes count fault = Unit
Goes count (goes s) = Live count s

-- A step of worker `j` to `w'`, who does not fall asleep while there are tasks, and stands inside if it
-- holds the mutex.
moves-Live :
    (count j : ℕ) (s : State) (w w' : Worker)
    → get_elem? s.workers j ≡ some w
    → (s.holder ≡ worker j → inside w' ≡ true)
    → (empty s.queue ≡ false → is_up w' ≡ true)
    → Live count s
    → Live count (record s { workers = set s.workers j w' })
moves-Live count j s w w' at_j keeps up live = record {
  main_back = live.main_back;
  worker_back = λ k is_k.
      Found-set inside s.workers j k w w' at_j (λ same was. keeps (is_k ∙ ap worker (sym same)))
        (live.worker_back k is_k);
  few = live.few;
  all_pushed = live.all_pushed;
  somebody = omega (arith, live.somebody, length-set s.workers j w');
  awake = λ left. inl (j, (w', get_elem?-set_self s.workers j w w' at_j, up left));
}

-- The holder changes to nobody, or to the worker that has just locked.
holds-Live :
    (count : ℕ) (s : State) (holder : Holder)
    → (holder ≡ main_thread → main_inside s.main ≡ true)
    → ((j : ℕ) → holder ≡ worker j → Found inside s.workers j)
    → Live count s
    → Live count (record s { holder = holder })
holds-Live count s holder main_in worker_in live = record {
  main_back = main_in;
  worker_back = worker_in;
  few = live.few;
  all_pushed = live.all_pushed;
  somebody = live.somebody;
  awake = live.awake;
}

-- The list of tasks changes, and worker `j` is up.
tasks-Live :
    (count j : ℕ) (s : State) (queue taken ran : List ThreadTask)
    → Found is_up s.workers j
    → Live count s
    → Live count (record s { queue = queue; taken = taken; ran = ran })
tasks-Live count j s queue taken ran up live = record {
  main_back = live.main_back;
  worker_back = live.worker_back;
  few = live.few;
  all_pushed = live.all_pushed;
  somebody = live.somebody;
  awake = λ left. inl (j, up);
}

not_outside :
    (count j : ℕ) (s : State) (w : Worker)
    → get_elem? s.workers j ≡ some w
    → inside w ≡ false
    → Live count s
    → s.holder ≢ worker j
not_outside count j s w at_j out live is_j =
    let (u, at_j', in_u) = live.worker_back j is_j in
    let both : some w ≡ some u = sym at_j ∙ at_j' in
    let same : w ≡ u = cc in let in_w : inside w ≡ true = ap inside same ∙ in_u in cc

worker_inj : (i j : ℕ) → worker i ≡ worker j → i ≡ j
worker_inj i j e = ap (λ (x : Holder). elim x [ nobody ↦ 0 | main_thread ↦ 0 | worker n ↦ n ]) e

lock-Goes :
    (count j : ℕ) (s : State) (w : Worker) (h : Holder)
    → get_elem? s.workers j ≡ some w
    → s.holder ≡ h
    → Live count s
    → Goes count (lock j s h)
unfolding lock
lock-Goes count j s w nobody at_j e live =
    holds-Live count (record s { workers = set s.workers j w_test }) (worker j) (λ is_m. cc)
      (λ k is_k.
        let same : k ≡ j = sym (worker_inj j k is_k) in
        (
          w_test,
          ap (get_elem? (set s.workers j w_test)) same
              ∙ get_elem?-set_self s.workers j w w_test at_j,
          refl,
        ))
      (moves-Live count j s w w_test at_j (λ is_j. cc) (λ left. refl) live)
lock-Goes count j s w main_thread at_j e live = tt
lock-Goes count j s w (worker i) at_j e live = tt

unlocks-Live :
    (count j : ℕ) (s : State) (w w' : Worker)
    → get_elem? s.workers j ≡ some w
    → (empty s.queue ≡ false → is_up w' ≡ true)
    → Live count s
    → Live count (record s { holder = nobody; workers = set s.workers j w' })
unlocks-Live count j s w w' at_j up live =
    moves-Live count j (record s { holder = nobody }) w w' at_j (λ is_j. cc) up
      (holds-Live count s nobody (λ is_m. cc) (λ k is_k. cc) live)

take_task-Goes :
    (count j : ℕ) (s : State) (q : List ThreadTask)
    → get_elem? s.workers j ≡ some w_take
    → Live count s
    → Goes count (take_task j s q)
unfolding take_task
take_task-Goes count j s [] at_j live = tt
take_task-Goes count j s (t ∷ ts) at_j live =
    tasks-Live count j (record s { workers = set s.workers j (w_unlock t) }) ts (s.taken ++ t ∷ [])
      s.ran (w_unlock t, get_elem?-set_self s.workers j w_take (w_unlock t) at_j, refl)
      (moves-Live count j s w_take (w_unlock t) at_j (λ is_j. refl) (λ left. refl) live)

pub thr_start-Goes :
    (count j : ℕ) (s : State) (w : Worker)
    → get_elem? s.workers j ≡ some w
    → Live count s
    → Goes count (thr_start j s w)
unfolding thr_start
thr_start-Goes count j s w_lock at_j live = lock-Goes count j s w_lock s.holder at_j refl live
thr_start-Goes count j s w_test at_j live = elim (Bool-cases (empty s.queue)) [
  | inl e ↦ rw (e) (unlocks-Live count j s w_test w_asleep at_j (λ left. cc) live)
  | inr e ↦ rw (e) (moves-Live count j s w_test w_take at_j (λ is_j. refl) (λ left. refl) live)
]
thr_start-Goes count j s w_asleep at_j live = tt
thr_start-Goes count j s w_awake at_j live = lock-Goes count j s w_awake s.holder at_j refl live
thr_start-Goes count j s w_take at_j live = take_task-Goes count j s s.queue at_j live
thr_start-Goes count j s (w_unlock t) at_j live =
    unlocks-Live count j s (w_unlock t) (w_run t) at_j (λ left. refl) live
thr_start-Goes count j s (w_run t) at_j live =
    tasks-Live count j (record s { workers = set s.workers j w_lock }) s.queue s.taken
      (s.ran ++ t ∷ []) (w_lock, get_elem?-set_self s.workers j (w_run t) w_lock at_j, refl)
      (moves-Live count j s (w_run t) w_lock at_j
        (λ is_j. absurd (not_outside count j s (w_run t) at_j refl live is_j)) (λ left. refl) live)
