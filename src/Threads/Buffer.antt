-- ===== src/Threads/Buffer.antt =====
-- LinuxC/pthread/semaphore/pth_sem.c: a producer and a consumer that share a ring of `NUM` numbers,
-- with a semaphore for the free places and one for the full places.
pub mod Ring
mod Steps
pub mod Order
pub mod Late
mod Tests
use linux_note.Base.{
  ℕ, zero, suc, ◌+◌, ◌-◌, ◌*◌, ◌/◌, ◌%◌, ◌^◌, ◌≤◌, ◌<◌, ◌≡◌, refl, sym, ap, ◌∙◌, ◌≢◌, ◌⊎◌, inl, inr,
  Bool, true, false, not, ◌&&◌, ◌||◌, Option, none, some, List, [], ◌∷◌, ◌++◌, map, append-nil,
  append_assoc, arith, ltb, leb, ◌==◌, if◌then◌else◌, Bool-cases, ==_refl, eq_of_==, ne_of_==,
  ltb→lt, leb→le, length, get_elem?, get_or, set, take, drop, replicate, length-append, length-set,
  get_or-append, set-append, get_or-set_self, get_or-set_ne, take-append, drop-append,
  length-replicate, length-drop, newline, is_space, first_line, to_nul, string_at, ◌>>=◌, ◌>>◌,
  guard, load, store, load-append, store-append,
}

-- `NUM`
abbrev pub num : ℕ
num = 5

-- Where the producer stands: before `sem_wait`, the store, `printf` or `sem_post`.
pub data Producer : Type 0 where
  p_wait p_store p_print p_post : Producer

-- Where the consumer stands: before `sem_wait`, `printf`, the store of 0 or `sem_post`.
pub data Consumer : Type 0 where
  c_wait c_print c_clear c_post : Consumer

-- The process, with the numbers that each thread has printed. A read or store out of the queue reads
-- 0 or is lost.
pub record State : Type 0 where
  pub queue : List ℕ
  pub blank : ℕ
  pub product : ℕ
  pub p : ℕ
  pub producer : Producer
  pub c : ℕ
  pub consumer : Consumer
  pub produced : List ℕ
  pub consumed : List ℕ

-- A step of the producer, by where it stands; `random` is what `rand` returns. None if it waits.
pub produce : (random : ℕ) → State → Producer → Option State
produce random s p_wait =
    if s.blank == 0 then none else some (record s { blank = s.blank - 1; producer = p_store })
produce random s p_store =
    some (record s { queue = set s.queue s.p (random % 1000 + 1); producer = p_print })
produce random s p_print =
    some (record s { produced = s.produced ++ get_or s.queue s.p 0 ∷ []; producer = p_post })
produce random s p_post =
    some (record s { product = s.product + 1; p = (s.p + 1) % num; producer = p_wait })

-- A step of the consumer.
pub consume : State → Consumer → Option State
consume s c_wait =
    if s.product == 0 then none else some (record s { product = s.product - 1; consumer = c_print })
consume s c_print =
    some (record s { consumed = s.consumed ++ get_or s.queue s.c 0 ∷ []; consumer = c_clear })
consume s c_clear = some (record s { queue = set s.queue s.c 0; consumer = c_post })
consume s c_post = some (record s { blank = s.blank + 1; c = (s.c + 1) % num; consumer = c_wait })

-- Whose step is next.
pub data Turn : Type 0 where
  producer_runs : (random : ℕ) → Turn
  consumer_runs : Turn

pub turn : Turn → State → Option State
turn (producer_runs random) s = produce random s s.producer
turn consumer_runs s = consume s s.consumer

-- `main`, after the calls of `sem_init` and `pthread_create`.
abbrev pub start : State
start = record {
  queue = replicate num 0;
  blank = num;
  product = 0;
  p = 0;
  producer = p_wait;
  c = 0;
  consumer = c_wait;
  produced = [];
  consumed = [];
}

-- The states of the process.
pub data Reach : State → Type 0 where
  begin : Reach start
  next : {s s' : State} (t : Turn) → Reach s → turn t s ≡ some s' → Reach s'
