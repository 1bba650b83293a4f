-- ===== src/Threads/Messages.antt =====
-- LinuxC/pthread/conditionVariable/pth_cond_test.c and pth_cond.c: a producer that puts messages in a list,
-- at its end or at its head, and a consumer that takes them from its head, and sleeps on a condition variable
-- while the list is empty. The two programs differ in nothing but the insertion.
mod Producing
mod Wakes
pub mod Orders
mod Tests
use linux_note.Base.{
  ℕ, zero, suc, ◌+◌, ◌-◌, ◌*◌, ◌/◌, ◌%◌, ◌^◌, ◌≤◌, ◌<◌, ◌≡◌, refl, sym, ap, ◌∙◌, ◌≢◌, ◌⊎◌, inl, inr,
  Bool, true, false, not, ◌&&◌, ◌||◌, Option, none, some, List, [], ◌∷◌, ◌++◌, map, append-nil,
  append_assoc, arith, ltb, leb, ◌==◌, if◌then◌else◌, Bool-cases, ==_refl, eq_of_==, ne_of_==,
  ltb→lt, leb→le, length, get_elem?, get_or, set, take, drop, replicate, length-append, length-set,
  get_or-append, set-append, get_or-set_self, get_or-set_ne, take-append, drop-append,
  length-replicate, length-drop, newline, blank, is_space, first_line, to_nul, string_at, ◌>>=◌,
  ◌>>◌, guard, load, store, load-append, store-append,
}

-- The consumer: before `lock`, at the test of `head`, asleep in `pthread_cond_wait`, woken and before it
-- has the lock again, before it takes the head, before `unlock` and before `printf`, with the number.
pub data Consumer : Type 0 where
  c_lock c_test c_asleep c_awake c_take : Consumer
  c_unlock c_print : (taken : ℕ) → Consumer

-- The producer: before `malloc`, `lock`, the insertion, `unlock` and `pthread_cond_signal`.
pub data Producer : Type 0 where
  p_make : Producer
  p_lock p_insert : (made : ℕ) → Producer
  p_unlock p_signal : Producer

-- The list `head` is the numbers of its nodes. `produced` and `consumed` are what was printed.
pub record State : Type 0 where
  pub head : List ℕ
  pub locked : Bool
  pub producer : Producer
  pub consumer : Consumer
  pub produced : List ℕ
  pub consumed : List ℕ

-- The walk to the last node, and the insertion behind it.
pub push_last : List ℕ → ℕ → List ℕ
push_last [] n = n ∷ []
push_last (cur ∷ rest) n = cur ∷ push_last rest n

-- `mp->next = head` and `head = mp` of pth_cond.c.
pub push_first : List ℕ → ℕ → List ℕ
push_first head n = n ∷ head

-- What a signal, or a wake-up without one, does with the consumer.
abbrev pub wake : Consumer → Consumer
wake c_asleep = c_awake
wake c = c

-- The producer, with the insertion of its program.
pub produce : (insert : List ℕ → ℕ → List ℕ) → (random : ℕ) → State → Producer → Option State
produce insert random s p_make =
    let made = random % 1000 + 1 in
    some (record s { producer = p_lock made; produced = s.produced ++ made ∷ [] })
produce insert random s (p_lock made) =
    if s.locked then none else some (record s { locked = true; producer = p_insert made })
produce insert random s (p_insert made) =
    some (record s { head = insert s.head made; producer = p_unlock })
produce insert random s p_unlock = some (record s { locked = false; producer = p_signal })
produce insert random s p_signal = some (record s { producer = p_make; consumer = wake s.consumer })

-- By where the consumer stands and the list; taking the head of an empty list is a fault, none.
pub consume : State → Consumer → List ℕ → Option State
consume s c_lock head =
    if s.locked then none else some (record s { locked = true; consumer = c_test })
consume s c_test [] = some (record s { locked = false; consumer = c_asleep })
consume s c_test (n ∷ rest) = some (record s { consumer = c_take })
consume s c_asleep head = none
consume s c_awake head =
    if s.locked then none else some (record s { locked = true; consumer = c_test })
consume s c_take [] = none
consume s c_take (n ∷ rest) = some (record s { head = rest; consumer = c_unlock n })
consume s (c_unlock taken) head = some (record s { locked = false; consumer = c_print taken })
consume s (c_print taken) head =
    some (record s { consumer = c_lock; consumed = s.consumed ++ taken ∷ [] })

-- Whose step is next; `wakes` is a return of `pthread_cond_wait` without a signal.
pub data Turn : Type 0 where
  producer_runs : (random : ℕ) → Turn
  consumer_runs wakes : Turn

pub turn : (insert : List ℕ → ℕ → List ℕ) → Turn → State → Option State
turn insert (producer_runs random) s = produce insert random s s.producer
turn insert consumer_runs s = consume s s.consumer s.head
turn insert wakes s = some (record s { consumer = wake s.consumer })

abbrev pub start : State
start = record {
  head = [];
  locked = false;
  producer = p_make;
  consumer = c_lock;
  produced = [];
  consumed = [];
}

-- The states of the process.
pub data Reach (insert : List ℕ → ℕ → List ℕ) : State → Type 0 where
  begin : Reach insert start
  next : {s s' : State} (t : Turn) → Reach insert s → turn insert t s ≡ some s' → Reach insert s'
