-- ===== src/Threads/Tickets/Tests.antt =====
-- A sale of bite/pthread/tout.c of one ticket.
use linux_note.Base.{ℕ, ◌≡◌, true, some, List, [], ◌∷◌, arith}
use linux_note.Threads.Tickets.{at_unlock, at_lock, Sale, turns, start}
use linux_note.Threads.Tickets.Oversold.{sold_above}

-- Both threads look at the ticket, and the first sells it.
abbrev sale : Sale
sale = record { tickets = 0; locked = true; sold = 1; threads = at_unlock ∷ at_lock ∷ [] }

sold_above_example : (is : List ℕ) × (s : Sale) × (turns is (start 100 4) ≡ some s) × (s.sold ≡ 103)
sold_above_example = sold_above 100 (omega arith) (omega arith)
