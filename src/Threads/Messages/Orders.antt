-- ===== src/Threads/Messages/Orders.antt =====
-- What becomes of the messages, at the end of the list (pth_cond_test.c) or at its head (pth_cond.c).
use linux_note.Base.{
  ℕ, ◌+◌, ◌≡◌, refl, sym, ap, ◌∙◌, ◌≢◌, List, [], ◌∷◌, ◌++◌, arith, ◌==◌, if◌then◌else◌,
}
use linux_note.Threads.Messages.{State, push_last, push_first, Reach}
use linux_note.Threads.Messages.Producing.{in_hand, in_making, IsAwaited, Keeps}
use linux_note.Threads.Messages.Wakes.{Reach-Inv}

push_last_lem : (l : List ℕ) (n : ℕ) → push_last l n ≡ l ++ n ∷ []
unfolding push_last
push_last_lem [] n = refl
push_last_lem (x ∷ l) n = ap (λ r. x ∷ r) (push_last_lem l n)

push_last-filled : (l : List ℕ) (n : ℕ) → push_last l n ≢ []
unfolding push_last
push_last-filled [] n e = cc
push_last-filled (x ∷ l) n e = cc

last-Keeps : Keeps (λ l r. l ≡ r) push_last
last-Keeps = record {
  empty = refl;
  append = λ l r n e. ap (λ k. k ++ n ∷ []) e;
  inserted = λ l a r n e. e ∙ ap (λ k. a ++ k) (sym (push_last_lem r n));
  filled = push_last-filled;
}

-- In every reachable state, with wake-ups that no signal caused: what the producer printed is, in order,
-- what the consumer printed, the message that it holds, the list, and the message that is being made.
-- If the consumer sleeps while the list is not empty, the producer has still to signal; and the consumer
-- never takes the head of an empty list.
pub messages_in_order :
    (s : State)
    → Reach push_last s
    → (s.produced ≡ s.consumed ++ in_hand s.consumer ++ s.head ++ in_making s.producer)
      × IsAwaited s.consumer s.head s.producer
messages_in_order s r =
    let inv = Reach-Inv (λ l r. l ≡ r) push_last last-Keeps s r in (inv.order, inv.awaited)

-- How often a number stands in a list.
abbrev pub count : ℕ → List ℕ → ℕ
count x [] = 0
count x (y ∷ l) = (if y == x then 1 else 0) + count x l

abbrev SameCounts : List ℕ → List ℕ → Type 0
SameCounts l r = (x : ℕ) → count x l ≡ count x r

count-append : (x : ℕ) (l r : List ℕ) → count x (l ++ r) ≡ count x l + count x r
count-append x [] r = omega arith
count-append x (y ∷ l) r = omega (arith, count-append x l r)

first-inserted :
    (l a r : List ℕ) (n : ℕ)
    → SameCounts l (a ++ (r ++ n ∷ []))
    → SameCounts l (a ++ push_first r n)
unfolding push_first
first-inserted l a r n same x = omega (
  arith,
  same x,
  count-append x a (r ++ n ∷ []),
  count-append x r (n ∷ []),
  count-append x a (n ∷ r),
)

first-Keeps : Keeps SameCounts push_first
unfolding push_first
first-Keeps = record {
  empty = λ x. refl;
  append =
      λ l r n same x. omega (arith, same x, count-append x l (n ∷ []), count-append x r (n ∷ []));
  inserted = first-inserted;
  filled = λ r n e. cc;
}

count-four :
    (x : ℕ) (a b l m : List ℕ)
    → count x (a ++ b ++ l ++ m) ≡ count x a + count x b + count x l + count x m
count-four x a b l m = grind (arith, count-append)

-- The same for the program that inserts at the head, but not in order: each number was printed by the producer
-- as often as it was printed by the consumer, is held by it, stands in the list and is being made, together.
-- If the consumer sleeps while the list is not empty, the producer has still to signal; and the consumer never
-- takes the head of an empty list.
pub stack_keeps_all :
    (s : State)
    → Reach push_first s
    → ((x : ℕ)
        → count x s.produced
          ≡ count x s.consumed
            + count x (in_hand s.consumer)
            + count x s.head
            + count x (in_making s.producer))
      × IsAwaited s.consumer s.head s.producer
stack_keeps_all s r =
    let inv = Reach-Inv SameCounts push_first first-Keeps s r in
    (
      λ x. inv.order x ∙ count-four x s.consumed (in_hand s.consumer) s.head (in_making s.producer),
      inv.awaited,
    )
