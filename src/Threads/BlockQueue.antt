-- ===== src/Threads/BlockQueue.antt =====
-- bite/pthread/pro_con.cpp: productors and consumers that share a queue of limited length, with a mutex
-- and two condition variables.
pub mod Invariant
mod Works
mod Steps
mod Awake
mod Turns
mod Signals
pub mod Stuck
pub mod Order
mod Tests
use linux_note.Base.{
  ℕ, zero, suc, ◌+◌, ◌-◌, ◌*◌, ◌/◌, ◌%◌, ◌^◌, ◌≤◌, ◌<◌, ◌≡◌, refl, sym, ap, ◌∙◌, ◌≢◌, ◌⊎◌, inl, inr,
  Bool, true, false, not, ◌&&◌, ◌||◌, Option, none, some, List, [], ◌∷◌, ◌++◌, map, append-nil,
  append_assoc, arith, ltb, leb, ◌==◌, if◌then◌else◌, Bool-cases, ==_refl, eq_of_==, ne_of_==,
  ltb→lt, leb→le, length, get_elem?, get_or, set, take, drop, replicate, length-append, length-set,
  get_or-append, set-append, get_or-set_self, get_or-set_ne, take-append, drop-append,
  length-replicate, length-drop, newline, blank, is_space, first_line, to_nul, string_at, ◌>>=◌,
  ◌>>◌, guard, load, store, load-append, store-append,
}
use linux_note.Threads.Crew.{change}
use linux_note.Threads.Picks.{may_pick}
use linux_note.Threads.Entries.{Role, productor, consumer, Entry}

-- Where a thread stands: before `pthread_mutex_lock`, at the condition of the `while` loop, asleep in
-- `pthread_cond_wait`, woken and before it has the mutex again, before `push`, or `front` and `pop`, before
-- `pthread_mutex_unlock`, before `pthread_cond_signal`, and before `printf`.
pub data Point : Type 0 where
  at_lock at_test asleep awake at_work at_unlock at_signal at_print : Point

-- `number` is `i` of a productor, and `data` of a consumer.
pub record Thread : Type 0 where
  pub role : Role
  pub point : Point
  pub number : ℕ

-- A `BlockQueue` with the thread that holds `_mutex`, the threads, and what was pushed and popped so far.
pub record State : Type 0 where
  pub queue : List ℕ
  pub capacity : ℕ
  pub holder : Option ℕ
  pub threads : List Thread
  pub pushed : List Entry
  pub popped : List Entry

-- What comes of the next step of a thread: it waits, it reads the front of an empty queue, or it goes on.
pub data Next : Type 0 where
  waits : Next
  fault : Next
  goes : State → Next

-- The conditions of the `while` loops.
abbrev pub must_wait : Role → (size capacity : ℕ) → Bool
must_wait productor size capacity = size == capacity
must_wait consumer size capacity = size == 0

-- What the signal of a role does with a thread that it wakes.
pub wakes : Role → Thread → Thread
wakes productor t = elim t.role [
  | consumer ↦ elim t.point [ asleep ↦ record t { point = awake } | _ ↦ t ]
  | productor ↦ t
]
wakes consumer t = elim t.role [
  | productor ↦ elim t.point [ asleep ↦ record t { point = awake } | _ ↦ t ]
  | consumer ↦ t
]

-- A thread that sleeps on the condition variable which the given role signals.
abbrev pub sleeps_on : Role → Thread → Bool
sleeps_on productor t = elim t.role [
  | consumer ↦ elim t.point [ asleep ↦ true | _ ↦ false ]
  | productor ↦ false
]
sleeps_on consumer t = elim t.role [
  | productor ↦ elim t.point [ asleep ↦ true | _ ↦ false ]
  | consumer ↦ false
]

-- Thread `i` stands at another point.
abbrev pub moved : (i : ℕ) → Thread → Point → State → State
moved i t p s = record s { threads = set s.threads i (record t { point = p }) }

-- `_queue.push(data)`, or `*data = _queue.front()` and `_queue.pop()`.
pub work : (i : ℕ) → State → Thread → Role → Next
work i s t productor = goes (record s {
  queue = s.queue ++ t.number ∷ [];
  pushed = s.pushed ++ record { by = i; value = t.number } ∷ [];
  threads = set s.threads i (record t { point = at_unlock });
})
work i s t consumer = elim s.queue [
  | [] ↦ fault
  | x ∷ xs ↦ goes (record s {
    queue = xs;
    popped = s.popped ++ record { by = i; value = x } ∷ [];
    threads = set s.threads i (record t { point = at_unlock; number = x });
  })
]

-- `i++` in the `printf` of a productor.
abbrev pub printed : Role → ℕ → ℕ
printed productor n = n + 1
printed consumer n = n

abbrev pub locks : (i : ℕ) → Thread → State → Next
locks i t s = elim s.holder [
  | none ↦ goes (moved i t at_test (record s { holder = some i }))
  | some j ↦ waits
]

-- The next step of thread `i`, which stands at the given point. A signal wakes thread `k`, which sleeps on the
-- condition variable, or none if none sleeps there; another `k` is no step.
pub act : (i k : ℕ) → State → Thread → Point → Next
unfolding wakes work
act i k s t at_lock = locks i t s
act i k s t at_test = goes (
    if must_wait t.role (length s.queue) s.capacity
    then moved i t asleep (record s { holder = none })
    else moved i t at_work s)
act i k s t asleep = waits
act i k s t awake = locks i t s
act i k s t at_work = work i s t t.role
act i k s t at_unlock = goes (moved i t at_signal (record s { holder = none }))
act i k s t at_signal =
    let threads = set s.threads i (record t { point = at_print }) in
    if may_pick (sleeps_on t.role) k threads
    then goes (record s { threads = change (wakes t.role) threads k })
    else waits
act i k s t at_print = goes (record s {
  threads = set s.threads i (record t { point = at_lock; number = printed t.role t.number });
})

pub turn : (i k : ℕ) → State → Next
unfolding act
turn i k s = elim (get_elem? s.threads i) [ none ↦ waits | some t ↦ act i k s t t.point ]

-- `main`, with `n` productors and `m` consumers: 4 of each, with a queue of `MAX_QUEUE` numbers.
abbrev pub max_queue : ℕ
max_queue = 5

abbrev pub start : (qmax n m : ℕ) → State
start qmax n m = record {
  queue = [];
  capacity = qmax;
  holder = none;
  threads =
      replicate n (record { role = productor; point = at_lock; number = 0 })
      ++ replicate m (record { role = consumer; point = at_lock; number = 0 });
  pushed = [];
  popped = [];
}

-- The states of the process.
pub data Reach (qmax n m : ℕ) : State → Type 0 where
  begin : Reach qmax n m (start qmax n m)
  next : {s s' : State} (i k : ℕ) → Reach qmax n m s → turn i k s ≡ goes s' → Reach qmax n m s'
  -- `pthread_cond_wait` may return without a signal.
  wake_up :
      {s : State} (role : Role) (k : ℕ)
      → Reach qmax n m s
      → Reach qmax n m (record s { threads = change (wakes role) s.threads k })
