-- ===== src/Threads/Pool/Invariant.antt =====
-- The invariant of bite/pthread/threadPool.cpp.
use linux_note.Base.{
  ℕ, zero, suc, ◌+◌, ◌≡◌, refl, sym, ap, ◌∙◌, ◌≢◌, Bool, true, false, some, List, [], ◌∷◌, ◌++◌,
  arith, ◌==◌, if◌then◌else◌, get_elem?, set,
}
use linux_note.Threads.Crew.{Each, Each-set, Each-change, change, sum_of, sum_of-set, sum_of-change}
use linux_note.Threads.Pool.{
  ThreadTask, Worker, w_lock, w_test, w_asleep, w_awake, w_take, w_unlock, w_run, Main, m_push,
  m_unlock, m_signal, Holder, nobody, main_thread, worker, State, Next, waits, fault, goes, task,
  wakes, empty,
}

-- Whether a thread holds the mutex where it stands.
abbrev pub inside : Worker → Bool
inside w_test = true
inside w_take = true
inside (w_unlock t) = true
inside _ = false

abbrev pub main_inside : Main → Bool
main_inside m_push = true
main_inside m_unlock = true
main_inside _ = false

-- 1 from `push` to `++i`.
abbrev pub ahead : Main → ℕ
ahead m_unlock = 1
ahead m_signal = 1
ahead _ = 0

-- The tasks of the first `n` rounds.
abbrev pub tasks : ℕ → List ThreadTask
tasks zero = []
tasks (suc n) = tasks n ++ task n ∷ []

-- How often the task of round `v` is in a list, or in the hands of a worker.
abbrev is_task : ℕ → ThreadTask → ℕ
is_task v t = if t.m_data == v then 1 else 0

abbrev pub times : ℕ → List ThreadTask → ℕ
times v [] = 0
times v (t ∷ ts) = is_task v t + times v ts

abbrev pub in_hand : ℕ → Worker → ℕ
in_hand v (w_unlock t) = is_task v t
in_hand v (w_run t) = is_task v t
in_hand v _ = 0

-- What holds of worker `j` in a state.
abbrev pub Fine : State → ℕ → Worker → Type 0
Fine s j w = (inside w ≡ true → s.holder ≡ worker j) × (w ≡ w_take → empty s.queue ≡ false)

pub record Inv (s : State) : Type 0 where
  pub order : tasks (s.i + ahead s.main) ≡ s.taken ++ s.queue
  pub once : (v : ℕ) → times v s.ran + sum_of (in_hand v) s.workers ≡ times v s.taken
  pub main_holds : main_inside s.main ≡ true → s.holder ≡ main_thread
  pub crew : Each (Fine s) s.workers

abbrev pub Holds : Next → Type 0
Holds waits = Unit
Holds fault = ⊥
Holds (goes s) = Inv s

pub times-append : (v : ℕ) (xs ys : List ThreadTask) → times v (xs ++ ys) ≡ times v xs + times v ys
times-append v [] ys = omega arith
times-append v (x ∷ xs) ys = omega (arith, times-append v xs ys)

pub w_take-inside : (w : Worker) → w ≡ w_take → inside w ≡ true
w_take-inside w e = rw (e) refl

-- A worker that does not hold the mutex does not rely on the queue.
pub others-Fine :
    (s s' : State) (j : ℕ) (u : Worker) → s.holder ≢ worker j → Fine s j u → Fine s' j u
others-Fine s s' j u outside (held, ready) =
    (λ in_u. absurd (outside (held in_u)), λ at. absurd (outside (held (w_take-inside u at))))

pub not_worker : (i j : ℕ) (h : Holder) → h ≡ worker i → i ≢ j → h ≢ worker j
not_worker i j h is_i apart is_j =
    let both : worker i ≡ worker j = sym is_i ∙ is_j in
    apart (ap (λ (x : Holder). elim x [ nobody ↦ 0 | main_thread ↦ 0 | worker n ↦ n ]) both)

-- A step of worker `j` that leaves the queue and the tasks.
pub moves-Inv :
    (j : ℕ) (s : State) (w w' : Worker) (holder : Holder)
    → get_elem? s.workers j ≡ some w
    → ((v : ℕ) → in_hand v w' ≡ in_hand v w)
    → (main_inside s.main ≡ true → holder ≡ main_thread)
    → Fine (record s { holder = holder }) j w'
    → ((k : ℕ) (u : Worker) → j ≢ k → Fine s k u → Fine (record s { holder = holder }) k u)
    → Inv s
    → Inv (record s { holder = holder; workers = set s.workers j w' })
moves-Inv j s w w' holder at_j same main_in new others inv = record {
  order = inv.order;
  once = λ v. omega (arith, inv.once v, sum_of-set (in_hand v) s.workers j w w' at_j, same v);
  main_holds = main_in;
  crew =
      Each-set (Fine s) (Fine (record s { holder = holder })) s.workers j w w' at_j inv.crew new
        others;
}

in_hand-wakes : (v : ℕ) (w : Worker) → in_hand v (wakes w) ≡ in_hand v w
unfolding wakes
in_hand-wakes v w_asleep = refl
in_hand-wakes v w_lock = refl
in_hand-wakes v w_test = refl
in_hand-wakes v w_awake = refl
in_hand-wakes v w_take = refl
in_hand-wakes v (w_unlock t) = refl
in_hand-wakes v (w_run t) = refl

wakes-Fine : (s : State) (j : ℕ) (w : Worker) → Fine s j w → Fine s j (wakes w)
unfolding wakes
wakes-Fine s j w_asleep h = (λ in_w. cc, λ at. cc)
wakes-Fine s j w_lock h = h
wakes-Fine s j w_test h = h
wakes-Fine s j w_awake h = h
wakes-Fine s j w_take h = h
wakes-Fine s j (w_unlock t) h = h
wakes-Fine s j (w_run t) h = h

-- `pthread_cond_signal`, and a return of `pthread_cond_wait`.
pub change-Inv : (s : State) (k : ℕ) → Inv s → Inv (record s { workers = change wakes s.workers k })
change-Inv s k inv = record {
  order = inv.order;
  once =
      λ v. omega (arith, inv.once v, sum_of-change (in_hand v) wakes s.workers k (in_hand-wakes v));
  main_holds = inv.main_holds;
  crew = Each-change (Fine s) wakes s.workers k (wakes-Fine s) inv.crew;
}
