-- ===== src/Threads/Tickets/Sold.antt =====
-- The number of tickets that the threads of bite/pthread/tout.c sell.
use linux_note.Base.{ℕ, ◌+◌, ◌-◌, ◌%◌, ◌^◌, ◌≤◌, ◌≡◌, Option, none, some, List, [], ◌∷◌, length}
use linux_note.Threads.Tickets.{Point, at_lock, at_print, at_decrement, Sale}

-- 1 at the points between the test and the line printed.
abbrev bound_to_sell : Point → ℕ
bound_to_sell at_lock = 1
bound_to_sell at_print = 1
bound_to_sell _ = 0

-- 1 between the line printed and the decrement.
abbrev behind : Point → ℕ
behind at_decrement = 1
behind _ = 0

abbrev sum_of : (Point → ℕ) → List Point → ℕ
sum_of f [] = 0
sum_of f (p ∷ ps) = f p + sum_of f ps

-- With `m` tickets and `n` threads.
record Inv (m n : ℕ) (s : Sale) : Type 0 where
  few : s.sold + sum_of bound_to_sell s.threads ≤ m + n - 1
  number : s.tickets ≡ (2 ^ 32 + m + sum_of behind s.threads - s.sold) % 2 ^ 32
  before : sum_of behind s.threads ≤ s.sold
  size : length s.threads ≡ n

abbrev Holds : (Sale → Type 0) → Option Sale → Type 0
Holds P none = Unit
Holds P (some s) = P s
