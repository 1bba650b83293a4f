-- ===== src/Threads/Tickets/Oversold.antt =====
-- An order of the steps of the four threads of bite/pthread/tout.c in which each looks at the last ticket.
use linux_note.Base.{
  ℕ, zero, suc, ◌+◌, ◌-◌, ◌%◌, ◌^◌, ◌<◌, ◌≡◌, refl, true, false, some, List, [], ◌∷◌, arith,
  replicate,
}
use linux_note.Threads.Tickets.{at_test, Sale, is_positive, sell, turn, turns, start}

-- The first thread sells `t` tickets, then all threads look at the last ticket before one sells it.
abbrev greedy : (t : ℕ) → List ℕ
greedy zero = 0 ∷ 1 ∷ 2 ∷ 3 ∷ 0 ∷ 0 ∷ 0 ∷ 0 ∷ 1 ∷ 1 ∷ 1 ∷ 1 ∷ 2 ∷ 2 ∷ 2 ∷ 2 ∷ 3 ∷ 3 ∷ 3 ∷ 3 ∷ []
greedy (suc t) = 0 ∷ 0 ∷ 0 ∷ 0 ∷ 0 ∷ greedy t

abbrev selling : ℕ → ℕ → Sale
selling t k = record { tickets = t; locked = false; sold = k; threads = replicate 4 at_test }

greedy_sells :
    (t k : ℕ)
    → t + 1 < 2 ^ 31
    → (s : Sale) × (turns (greedy t) (selling (t + 1) k) ≡ some s) × (s.sold ≡ k + t + 4)
unfolding turns turn sell
greedy_sells zero k small = (_, refl, omega arith)
greedy_sells (suc t) k small =
    let (s, runs, total) = greedy_sells t (k + 1) (omega (arith, small)) in
    let more : is_positive (suc t + 1) ≡ true = ground (arith, small) in
    let less : (suc t + 1 + 4294967296 - 1) % 4294967296 ≡ t + 1 = omega (arith, small) in
    (s, rw (more, less) runs, omega (arith, total))

-- With 4 threads and any number of tickets above 0 and below `2 ^ 31`, an order of the steps sells three tickets more than
-- there are.
pub sold_above :
    (m : ℕ)
    → 0 < m
    → m < 2 ^ 31
    → (is : List ℕ) × (s : Sale) × (turns is (start m 4) ≡ some s) × (s.sold ≡ m + 3)
sold_above zero some_tickets small = absurd (omega (arith, some_tickets))
sold_above (suc t) some_tickets small =
    let (s, runs, total) = greedy_sells t 0 (omega (arith, small)) in
    let same : t + 1 ≡ suc t = omega arith in (greedy t, s, rw same at runs, omega (arith, total))
