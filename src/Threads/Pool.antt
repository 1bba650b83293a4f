-- ===== src/Threads/Pool.antt =====
-- bite/pthread/threadPool.cpp: workers that take the tasks of `main` from a queue, with a mutex and a
-- condition variable.
pub mod Invariant
mod Steps
pub mod Once
mod Awake
mod Signals
pub mod Finished
mod Tests
use linux_note.Base.{
  ℕ, zero, suc, ◌+◌, ◌-◌, ◌*◌, ◌/◌, ◌%◌, ◌^◌, ◌≤◌, ◌<◌, ◌≡◌, refl, sym, ap, ◌∙◌, ◌≢◌, ◌⊎◌, inl, inr,
  Bool, true, false, not, ◌&&◌, ◌||◌, Option, none, some, List, [], ◌∷◌, ◌++◌, map, append-nil,
  append_assoc, arith, ltb, leb, ◌==◌, if◌then◌else◌, Bool-cases, ==_refl, eq_of_==, ne_of_==,
  ltb→lt, leb→le, length, get_elem?, get_or, set, take, drop, replicate, length-append, length-set,
  get_or-append, set-append, get_or-set_self, get_or-set_ne, take-append, drop-append,
  length-replicate, length-drop, newline, blank, is_space, first_line, to_nul, string_at, ◌>>=◌,
  ◌>>◌, guard, load, store, load-append, store-append,
}
use linux_note.Threads.Crew.{change}
use linux_note.Threads.Picks.{may_pick}

-- The functions that a `task_hander` points to.
pub data TaskHander : Type 0 where
  show : TaskHander

pub record ThreadTask : Type 0 where
  pub m_hander : TaskHander
  pub m_data : ℕ

-- Where `thr_start` stands: before `pthread_mutex_lock`, at the condition of the `while` loop, asleep in
-- `pthread_cond_wait`, woken and before it has the mutex again, before `front` and `pop`, before
-- `pthread_mutex_unlock`, and before `run`, with the task that it has taken.
pub data Worker : Type 0 where
  w_lock w_test w_asleep w_awake w_take : Worker
  w_unlock w_run : ThreadTask → Worker

-- Where `main` stands: in `PushTask` before `pthread_mutex_lock`, `push`, `pthread_mutex_unlock` or
-- `pthread_cond_signal`, or behind the `for` loop.
pub data Main : Type 0 where
  m_lock m_push m_unlock m_signal m_sleeps : Main

pub data Holder : Type 0 where
  nobody main_thread : Holder
  worker : ℕ → Holder

-- The pool with the thread that holds `m_mutex`, `main` with its `i`, the workers, the tasks taken so far,
-- and the calls of `run`.
pub record State : Type 0 where
  pub queue : List ThreadTask
  pub holder : Holder
  pub main : Main
  pub i : ℕ
  pub workers : List Worker
  pub taken : List ThreadTask
  pub ran : List ThreadTask

-- What comes of the next step of a thread: it waits, it reads the front of an empty queue, or it goes on.
pub data Next : Type 0 where
  waits : Next
  fault : Next
  goes : State → Next

-- The task of a round of `main`.
abbrev pub task : ℕ → ThreadTask
task i = record { m_hander = show; m_data = i }

-- `pthread_cond_signal`.
pub wakes : Worker → Worker
wakes w_asleep = w_awake
wakes w = w

abbrev pub is_asleep : Worker → Bool
is_asleep w_asleep = true
is_asleep w = false

-- `pthread_mutex_lock` by `main`.
pub lock_main : State → Holder → Next
lock_main s nobody = goes (record s { holder = main_thread; main = m_push })
lock_main s main_thread = waits
lock_main s (worker j) = waits

-- A step of `main`, which pushes `count` tasks. Its signal wakes worker `k`, where that can be; a `k` that
-- cannot be is no step.
pub push_task : (count k : ℕ) → State → Main → Next
unfolding wakes lock_main
push_task count k s m_lock =
    if ltb s.i count then lock_main s s.holder else goes (record s { main = m_sleeps })
push_task count k s m_push = goes (record s { queue = s.queue ++ task s.i ∷ []; main = m_unlock })
push_task count k s m_unlock = goes (record s { holder = nobody; main = m_signal })
push_task count k s m_signal =
    if may_pick is_asleep k s.workers
    then goes (record s { i = s.i + 1; main = m_lock; workers = change wakes s.workers k })
    else waits
push_task count k s m_sleeps = waits

-- `front` and `pop` by worker `j`.
pub take_task : (j : ℕ) → State → (queue : List ThreadTask) → Next
take_task j s [] = fault
take_task j s (t ∷ ts) =
    goes
      (record s { queue = ts; taken = s.taken ++ t ∷ []; workers = set s.workers j (w_unlock t) })

-- `pthread_mutex_lock` by worker `j`.
pub lock : (j : ℕ) → State → Holder → Next
lock j s nobody = goes (record s { holder = worker j; workers = set s.workers j w_test })
lock j s main_thread = waits
lock j s (worker i) = waits

abbrev pub empty : List ThreadTask → Bool
empty [] = true
empty (t ∷ ts) = false

-- A step of worker `j`, which stands at the given point of `thr_start`.
pub thr_start : (j : ℕ) → State → Worker → Next
unfolding take_task lock
thr_start j s w_lock = lock j s s.holder
thr_start j s w_test = goes (
    if empty s.queue
    then record s { holder = nobody; workers = set s.workers j w_asleep }
    else record s { workers = set s.workers j w_take })
thr_start j s w_asleep = waits
thr_start j s w_awake = lock j s s.holder
thr_start j s w_take = take_task j s s.queue
thr_start j s (w_unlock t) =
    goes (record s { holder = nobody; workers = set s.workers j (w_run t) })
thr_start j s (w_run t) =
    goes (record s { ran = s.ran ++ t ∷ []; workers = set s.workers j w_lock })

-- Whose step is next.
pub data Turn : Type 0 where
  main_runs : (k : ℕ) → Turn
  worker_runs : (j : ℕ) → Turn

pub turn : (count : ℕ) → Turn → State → Next
unfolding push_task thr_start
turn count (main_runs k) s = push_task count k s s.main
turn count (worker_runs j) s = elim (get_elem? s.workers j) [
  | none ↦ waits
  | some w ↦ thr_start j s w
]

-- `MAX_THREAD`, and the number of tasks that `main` pushes.
abbrev pub max_thread : ℕ
max_thread = 5

abbrev pub task_count : ℕ
task_count = 10

-- The pool after its constructor.
abbrev pub start : (maxThr : ℕ) → State
start maxThr = record {
  queue = [];
  holder = nobody;
  main = m_lock;
  i = 0;
  workers = replicate maxThr w_lock;
  taken = [];
  ran = [];
}

-- The states of the process.
pub data Reach (maxThr count : ℕ) : State → Type 0 where
  begin : Reach maxThr count (start maxThr)
  next :
      {s s' : State} (t : Turn)
      → Reach maxThr count s
      → turn count t s ≡ goes s'
      → Reach maxThr count s'
  -- `pthread_cond_wait` may return without a signal.
  wake_up :
      {s : State} (k : ℕ)
      → Reach maxThr count s
      → Reach maxThr count (record s { workers = change wakes s.workers k })
