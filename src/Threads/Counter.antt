-- ===== src/Threads/Counter.antt =====
-- LinuxC/pthread/mutex: two threads that count in one variable, pth_mutex.c with a lock, pth_nomutex.c
-- without. A read and a write of `counter` are one step each.
pub mod Locked
pub mod Ends
pub mod Races
mod Tests
use linux_note.Base.{
  ℕ, zero, suc, ◌+◌, ◌-◌, ◌*◌, ◌/◌, ◌%◌, ◌^◌, ◌≤◌, ◌<◌, ◌≡◌, refl, sym, ap, ◌∙◌, ◌≢◌, ◌⊎◌, inl, inr,
  Bool, true, false, not, ◌&&◌, ◌||◌, Option, none, some, List, [], ◌∷◌, ◌++◌, map, append-nil,
  append_assoc, arith, ltb, leb, ◌==◌, if◌then◌else◌, Bool-cases, ==_refl, eq_of_==, ne_of_==,
  ltb→lt, leb→le, length, get_elem?, get_or, set, take, drop, replicate, length-append, length-set,
  get_or-append, set-append, get_or-set_self, get_or-set_ne, take-append, drop-append,
  length-replicate, length-drop, newline, blank, is_space, first_line, to_nul, string_at, ◌>>=◌,
  ◌>>◌, guard, load, store, load-append, store-append,
}

-- `NLOOP`
abbrev nloop : ℕ
nloop = 5000

-- A thread in `doit`: at the test of the loop, before a call or an access, or returned; with `i`, `val`.
pub data Thread : Type 0 where
  at_test : (i : ℕ) → Thread
  at_lock : (i : ℕ) → Thread
  at_read : (i : ℕ) → Thread
  at_print : (i val : ℕ) → Thread
  at_write : (i val : ℕ) → Thread
  at_unlock : (i : ℕ) → Thread
  returned : (i : ℕ) → Thread

-- The variables of the process, with what was printed, the last first.
pub record Shared : Type 0 where
  pub counter : ℕ
  pub locked : Bool
  pub printed : List ℕ

pub record System : Type 0 where
  pub shared : Shared
  pub a : Thread
  pub b : Thread

-- The next step in the loop of pth_mutex.c up to `n`; none if the thread waits for the lock or returned.
pub locked_step : (n : ℕ) → Shared → Thread → Option (Shared × Thread)
locked_step n s (at_test i) = some (s, if ltb i n then at_lock i else returned i)
locked_step n s (at_lock i) =
    if s.locked then none else some (record s { locked = true }, at_read i)
locked_step n s (at_read i) = some (s, at_print i s.counter)
locked_step n s (at_print i val) = some (record s { printed = val ∷ s.printed }, at_write i val)
locked_step n s (at_write i val) = some (record s { counter = val + 1 }, at_unlock i)
locked_step n s (at_unlock i) = some (record s { locked = false }, at_test (i + 1))
locked_step n s (returned i) = none

-- The next step in the loop of pth_nomutex.c.
pub unlocked_step : (n : ℕ) → Shared → Thread → Option (Shared × Thread)
unlocked_step n s (at_test i) = some (s, if ltb i n then at_read i else returned i)
unlocked_step n s (at_read i) = some (s, at_print i s.counter)
unlocked_step n s (at_print i val) = some (record s { printed = val ∷ s.printed }, at_write i val)
unlocked_step n s (at_write i val) = some (record s { counter = val + 1 }, at_test (i + 1))
unlocked_step n s t = none

-- That the outcome of a step, if there is one, satisfies `P`.
abbrev pub Holds {ℓ} : {A : Type ℓ} → (A → Type 0) → Option A → Type 0
Holds P none = Unit
Holds P (some a) = P a

-- Whose step is next.
pub data Turn : Type 0 where
  a_runs b_runs : Turn

pub a_moves : System → Option (Shared × Thread) → Option System
a_moves s none = none
a_moves s (some (t, a)) = some (record s { shared = t; a = a })

pub b_moves : System → Option (Shared × Thread) → Option System
b_moves s none = none
b_moves s (some (t, b)) = some (record s { shared = t; b = b })

-- A step of the system, by the step of a thread.
pub turn : (Shared → Thread → Option (Shared × Thread)) → Turn → System → Option System
unfolding a_moves b_moves
turn step a_runs s = a_moves s (step s.shared s.a)
turn step b_runs s = b_moves s (step s.shared s.b)

-- The steps of the system in a given order.
pub turns : (Shared → Thread → Option (Shared × Thread)) → List Turn → System → Option System
unfolding turn
turns step [] s = some s
turns step (t ∷ ts) s = do s' ← turn step t s; turns step ts s'

-- `main`, after both calls of `pthread_create`.
abbrev pub start : System
start = record {
  shared = record { counter = 0; locked = false; printed = [] };
  a = at_test 0;
  b = at_test 0;
}
