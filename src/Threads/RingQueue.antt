-- ===== src/Threads/RingQueue.antt =====
-- bite/pthread/con_pro.cpp: productors and consumers that share a ring of numbers, with semaphores for the
-- free places, the full places and the lock.
pub mod Invariant
mod Pushes
mod Pops
pub mod Order
mod Tests
use linux_note.Base.{
  ℕ, zero, suc, ◌+◌, ◌-◌, ◌*◌, ◌/◌, ◌%◌, ◌^◌, ◌≤◌, ◌<◌, ◌≡◌, refl, sym, ap, ◌∙◌, ◌≢◌, ◌⊎◌, inl, inr,
  Bool, true, false, not, ◌&&◌, ◌||◌, Option, none, some, List, [], ◌∷◌, ◌++◌, map, append-nil,
  append_assoc, arith, ltb, leb, ◌==◌, if◌then◌else◌, Bool-cases, ==_refl, eq_of_==, ne_of_==,
  ltb→lt, leb→le, length, get_elem?, get_or, set, take, drop, replicate, length-append, length-set,
  get_or-append, set-append, get_or-set_self, get_or-set_ne, take-append, drop-append,
  length-replicate, length-drop, newline, blank, is_space, first_line, to_nul, string_at, ◌>>=◌,
  ◌>>◌, guard, load, store, load-append, store-append,
}
use linux_note.Threads.Entries.{Role, productor, consumer, Entry}

-- Where a thread stands: before `sem_wait` for a place, before `sem_wait` for the lock, before it stores or
-- loads the number, before it moves its index, before `sem_post` of the lock, before `sem_post` for the
-- other side, and before `printf`.
pub data Point : Type 0 where
  at_place at_lock at_array at_index at_unlock at_post at_print : Point

-- `number` is `i` of a productor, and `data` of a consumer.
pub record Thread : Type 0 where
  pub role : Role
  pub point : Point
  pub number : ℕ

-- `MAX_QUEUE`
abbrev pub max_queue : ℕ
max_queue = 5

-- A `RingQueue` of `MAX_QUEUE` places, the threads, and what was pushed and popped so far. A store or load out
-- of the array is lost or loads 0.
pub record State : Type 0 where
  pub array : List ℕ
  pub pos_write : ℕ
  pub pos_read : ℕ
  pub sem_space : ℕ
  pub sem_data : ℕ
  pub sem_lock : ℕ
  pub threads : List Thread
  pub pushed : List Entry
  pub popped : List Entry

-- Thread `i` goes to another point.
abbrev pub moved : (i : ℕ) → Role → (number : ℕ) → Point → State → State
moved i role number p s = record s {
  threads = set s.threads i (record { role = role; point = p; number = number });
}

-- `sem_wait(&_sem_lock)`
abbrev pub lock : (i : ℕ) → Role → (number : ℕ) → State → Option State
lock i role number s =
    if s.sem_lock == 0
    then none
    else some (moved i role number at_array (record s { sem_lock = s.sem_lock - 1 }))

-- `sem_post(&_sem_lock)`
abbrev unlock : (i : ℕ) → Role → (number : ℕ) → State → State
unlock i role number s = moved i role number at_post (record s { sem_lock = s.sem_lock + 1 })

-- The next step of thread `i` in `Push`, or in the `printf` of `productor`; none if it waits.
pub push : (i : ℕ) → State → (number : ℕ) → Point → Option State
push i s number at_place =
    if s.sem_space == 0
    then none
    else some (moved i productor number at_lock (record s { sem_space = s.sem_space - 1 }))
push i s number at_lock = lock i productor number s
push i s number at_array = some (
    moved i productor number at_index (record s {
      array = set s.array s.pos_write number;
      pushed = s.pushed ++ record { by = i; value = number } ∷ [];
    }))
push i s number at_index =
    some
      (moved i productor number at_unlock (record s { pos_write = (s.pos_write + 1) % max_queue }))
push i s number at_unlock = some (unlock i productor number s)
push i s number at_post =
    some (moved i productor number at_print (record s { sem_data = s.sem_data + 1 }))
push i s number at_print = some (moved i productor (number + 1) at_place s)

-- The next step of thread `i` in `Pop`, or in the `printf` of `consumer`; none if it waits.
pub pop : (i : ℕ) → State → (number : ℕ) → Point → Option State
pop i s number at_place =
    if s.sem_data == 0
    then none
    else some (moved i consumer number at_lock (record s { sem_data = s.sem_data - 1 }))
pop i s number at_lock = lock i consumer number s
pop i s number at_array =
    let value = get_or s.array s.pos_read 0 in
    some (
      moved i consumer value at_index
        (record s { popped = s.popped ++ record { by = i; value = value } ∷ [] }))
pop i s number at_index =
    some (moved i consumer number at_unlock (record s { pos_read = (s.pos_read + 1) % max_queue }))
pop i s number at_unlock = some (unlock i consumer number s)
pop i s number at_post =
    some (moved i consumer number at_print (record s { sem_space = s.sem_space + 1 }))
pop i s number at_print = some (moved i consumer number at_place s)

pub act : (i : ℕ) → State → Role → (number : ℕ) → Point → Option State
unfolding push pop
act i s productor number p = push i s number p
act i s consumer number p = pop i s number p

-- A step of thread `i`.
pub turn : (i : ℕ) → State → Option State
unfolding act
turn i s = do t ← get_elem? s.threads i; act i s t.role t.number t.point

-- `main`, with `n` productors and `m` consumers, 4 of each in the source. `data` of a consumer starts with 0.
abbrev pub start : (n m : ℕ) → State
start n m = record {
  array = replicate max_queue 0;
  pos_write = 0;
  pos_read = 0;
  sem_space = max_queue;
  sem_data = 0;
  sem_lock = 1;
  threads =
      replicate n (record { role = productor; point = at_place; number = 0 })
      ++ replicate m (record { role = consumer; point = at_place; number = 0 });
  pushed = [];
  popped = [];
}

-- The states of the process.
pub data Reach (n m : ℕ) : State → Type 0 where
  begin : Reach n m (start n m)
  next : {s s' : State} (i : ℕ) → Reach n m s → turn i s ≡ some s' → Reach n m s'
