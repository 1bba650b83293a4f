-- ===== src/Threads/Tickets.antt =====
-- bite/pthread/tout.c: threads that sell tickets, and look at the number of tickets before they take the
-- lock. `tickets` is a 32-bit `int`; the lock is held around its decrement, which is one step.
pub mod Sold
pub mod Oversold
mod Tests
use linux_note.Base.{
  ℕ, zero, suc, ◌+◌, ◌-◌, ◌*◌, ◌/◌, ◌%◌, ◌^◌, ◌≤◌, ◌<◌, ◌≡◌, refl, sym, ap, ◌∙◌, ◌≢◌, ◌⊎◌, inl, inr,
  Bool, true, false, not, ◌&&◌, ◌||◌, Option, none, some, List, [], ◌∷◌, ◌++◌, map, append-nil,
  append_assoc, arith, ltb, leb, ◌==◌, if◌then◌else◌, Bool-cases, ==_refl, eq_of_==, ne_of_==,
  ltb→lt, leb→le, length, get_elem?, get_or, set, take, drop, replicate, length-append, length-set,
  get_or-append, set-append, get_or-set_self, get_or-set_ne, take-append, drop-append,
  length-replicate, length-drop, newline, blank, is_space, first_line, to_nul, string_at, ◌>>=◌,
  ◌>>◌, guard, load, store, load-append, store-append,
}

-- A thread in `thr_tout`: at the test of `tickets`, before `lock`, `printf`, `tickets--` or `unlock`, or
-- ended by `pthread_exit`.
pub data Point : Type 0 where
  at_test at_lock at_print at_decrement at_unlock ended : Point

-- `sold` is how often a thread printed that it got a ticket.
pub record Sale : Type 0 where
  pub tickets : ℕ
  pub locked : Bool
  pub sold : ℕ
  pub threads : List Point

-- `t > 0` for an `int` given by its 32 bits.
abbrev pub is_positive : ℕ → Bool
is_positive t = ltb 0 t && ltb t (2 ^ 31)

-- The next step of thread `i`, which is at the given point; none if it waits or has ended.
pub sell : (i : ℕ) → Sale → Point → Option Sale
sell i s at_test =
    some (record s { threads = set s.threads i (if is_positive s.tickets then at_lock else ended) })
sell i s at_lock =
    if s.locked then none else some (record s { locked = true; threads = set s.threads i at_print })
sell i s at_print = some (record s { sold = s.sold + 1; threads = set s.threads i at_decrement })
sell i s at_decrement =
    some (record s {
      tickets = (s.tickets + 2 ^ 32 - 1) % 2 ^ 32;
      threads = set s.threads i at_unlock;
    })
sell i s at_unlock = some (record s { locked = false; threads = set s.threads i at_test })
sell i s ended = none

-- A step of thread `i`.
pub turn : ℕ → Sale → Option Sale
turn i s = do point ← get_elem? s.threads i; sell i s point

pub turns : List ℕ → Sale → Option Sale
turns [] s = some s
turns (i ∷ is) s = do s' ← turn i s; turns is s'

-- `m` tickets and `n` threads: 100 and 4 in the source.
abbrev pub start : (m n : ℕ) → Sale
start m n = record { tickets = m; locked = false; sold = 0; threads = replicate n at_test }
