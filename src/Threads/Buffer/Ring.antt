-- ===== src/Threads/Buffer/Ring.antt =====
-- Numbers in consecutive places of the ring of LinuxC/pthread/semaphore/pth_sem.c.
use linux_note.Base.{
  ℕ, ◌+◌, ◌%◌, ◌<◌, ◌≡◌, sym, ap, ◌∙◌, ◌≢◌, List, [], ◌∷◌, ◌++◌, arith, length, get_or, set,
  get_or-set_ne,
}

-- The places from `f` on hold the numbers of the list.
abbrev pub Cells : List ℕ → ℕ → List ℕ → Type 0
Cells q f [] = Unit
Cells q f (x ∷ xs) = (get_or q f 0 ≡ x) × Cells q ((f + 1) % 5) xs

pub Cells-snoc :
    (q : List ℕ) (f k x : ℕ) (xs : List ℕ)
    → f < 5
    → k < 5
    → (f + length xs) % 5 ≡ k
    → get_or q k 0 ≡ x
    → Cells q f xs
    → Cells q f (xs ++ x ∷ [])
Cells-snoc q f k x [] small in_ring at_k is_x cells =
    let same : f ≡ k = omega (arith, at_k, small) in (ap (λ i. get_or q i 0) same ∙ is_x, tt)
Cells-snoc q f k x (y ∷ xs) small in_ring at_k is_x cells = (
  cells.0,
  Cells-snoc q ((f + 1) % 5) k x xs (omega arith) in_ring (omega (arith, at_k)) is_x cells.1,
)

pub Cells-set :
    (q : List ℕ) (f k v : ℕ) (xs : List ℕ)
    → f < 5
    → ((j : ℕ) → j < length xs → (f + j) % 5 ≢ k)
    → Cells q f xs
    → Cells (set q k v) f xs
Cells-set q f k v [] small apart cells = tt
Cells-set q f k v (x ∷ xs) small apart cells =
    let first : f ≢ k = λ e. apart 0 (omega arith) (omega (arith, e, small)) in
    (
      get_or-set_ne q k f v 0 (λ e. first (sym e)) ∙ cells.0,
      Cells-set q ((f + 1) % 5) k v xs (omega arith)
          (λ j h e. apart (j + 1) (omega (arith, h)) (omega (arith, e))) cells.1,
    )
