-- ===== src/Threads/Buffer/Late.antt =====
-- LinuxC/pthread/semaphore/sem_test.c: the same ring, but the producer prints a number after `sem_post`, when
-- the consumer may take it.
mod Follows
pub mod Prints
mod Tests
use linux_note.Base.{
  ℕ, zero, suc, ◌+◌, ◌-◌, ◌*◌, ◌/◌, ◌%◌, ◌^◌, ◌≤◌, ◌<◌, ◌≡◌, refl, sym, ap, ◌∙◌, ◌≢◌, ◌⊎◌, inl, inr,
  Bool, true, false, not, ◌&&◌, ◌||◌, Option, none, some, List, [], ◌∷◌, ◌++◌, map, append-nil,
  append_assoc, arith, ltb, leb, ◌==◌, if◌then◌else◌, Bool-cases, ==_refl, eq_of_==, ne_of_==,
  ltb→lt, leb→le, length, get_elem?, get_or, set, take, drop, replicate, length-append, length-set,
  get_or-append, set-append, get_or-set_self, get_or-set_ne, take-append, drop-append,
  length-replicate, length-drop, newline, is_space, first_line, to_nul, string_at, ◌>>=◌, ◌>>◌,
  guard, load, store, load-append, store-append,
}
use linux_note.Threads.Buffer.{Consumer, c_wait, c_print, c_clear, c_post, num}

-- Where the producer stands: before `sem_wait`, the store, `sem_post` or `printf`.
pub data LateProducer : Type 0 where
  at_wait at_store at_post at_print : LateProducer

-- The process, with the numbers that were stored, and those that each thread has printed. `MAXSIZE` is `num`.
pub record LateState : Type 0 where
  pub queue : List ℕ
  pub blank : ℕ
  pub full : ℕ
  pub producer_top : ℕ
  pub producer : LateProducer
  pub consumer_top : ℕ
  pub consumer : Consumer
  pub stored : List ℕ
  pub produced : List ℕ
  pub consumed : List ℕ

-- A step of the producer, by where it stands; `random` is what `rand` returns. None if it waits.
pub late_produce : (random : ℕ) → LateState → LateProducer → Option LateState
late_produce random s at_wait =
    if s.blank == 0 then none else some (record s { blank = s.blank - 1; producer = at_store })
late_produce random s at_store =
    let number = random % 10 + 1 in
    some (record s {
      queue = set s.queue s.producer_top number;
      stored = s.stored ++ number ∷ [];
      producer = at_post;
    })
late_produce random s at_post = some (record s { full = s.full + 1; producer = at_print })
late_produce random s at_print = some (record s {
  produced = s.produced ++ get_or s.queue s.producer_top 0 ∷ [];
  producer_top = (s.producer_top + 1) % num;
  producer = at_wait;
})

-- A step of the consumer.
pub late_consume : LateState → Consumer → Option LateState
late_consume s c_wait =
    if s.full == 0 then none else some (record s { full = s.full - 1; consumer = c_print })
late_consume s c_print =
    some (record s {
      consumed = s.consumed ++ get_or s.queue s.consumer_top 0 ∷ [];
      consumer = c_clear;
    })
late_consume s c_clear = some (record s { queue = set s.queue s.consumer_top 0; consumer = c_post })
late_consume s c_post =
    some (record s {
      blank = s.blank + 1;
      consumer_top = (s.consumer_top + 1) % num;
      consumer = c_wait;
    })

-- `main`, after the calls of `sem_init` and `pthread_create`.
abbrev late_start : LateState
late_start = record {
  queue = replicate num 0;
  blank = num;
  full = 0;
  producer_top = 0;
  producer = at_wait;
  consumer_top = 0;
  consumer = c_wait;
  stored = [];
  produced = [];
  consumed = [];
}

-- The states of the process.
pub data LateReach : LateState → Type 0 where
  late_begin : LateReach late_start
  produces :
      {s s' : LateState} (random : ℕ)
      → LateReach s
      → late_produce random s s.producer ≡ some s'
      → LateReach s'
  consumes : {s s' : LateState} → LateReach s → late_consume s s.consumer ≡ some s' → LateReach s'
