-- ===== src/Threads/Philosophers/Stuck.antt =====
-- The philosophers of LinuxC/pthread/TheDinningPhilosophersProblem/phil_pro_mutex.c in any order of their
-- steps.
use linux_note.Base.{
  ℕ, zero, suc, ◌<◌, ◌≡◌, refl, sym, ◌∙◌, ◌≢◌, ◌⊎◌, inl, inr, true, false, Option, none, some,
  arith,
}
use mathlib.Core.Path.{subst}
use linux_note.Threads.Philosophers.{
  Point, at_first, at_second, eating, at_release, State, moved, lock, philosopher, turn, start,
  Reach, begin, next,
}
use linux_note.Threads.Philosophers.Holding.{
  has_first, has_second, Has, Inv, Holds, philosopher-Inv, some_inj,
}

start-Inv : Inv start
start-Inv = record {
  holds = λ i c small h. elim h [ inl (_, has) ↦ cc | inr (_, has) ↦ cc ];
  held = λ c i e. cc;
}

turn-Inv : (n : ℕ) (s : State) → n < 5 → Inv s → Holds (turn n s)
unfolding turn
turn-Inv n s small inv = philosopher-Inv n s (s.phil n) small refl inv

Reach-Inv : (s : State) → Reach s → Inv s
Reach-Inv s begin = start-Inv
Reach-Inv s (next {s = before} n small r e) =
    subst Holds e (turn-Inv n before small (Reach-Inv before r))

-- In no reachable state do two philosophers have the same chopstick.
pub chopstick_of_one :
    (s : State) (i j c : ℕ)
    → Reach s
    → i < 5
    → j < 5
    → i ≢ j
    → Has i (s.phil i) c
    → ¬ Has j (s.phil j) c
chopstick_of_one s i j c r i_small j_small apart has_i has_j =
    let inv = Reach-Inv s r in
    apart (some_inj i j (sym (inv.holds i c i_small has_i) ∙ inv.holds j c j_small has_j))

abbrev pub IsStuck : State → Type 0
IsStuck s = (n : ℕ) → n < 5 → turn n s ≡ none

lock-none :
    (n c : ℕ) (p : Point) (s : State) (o : Option ℕ)
    → lock n c p s o ≡ none
    → (i : ℕ) × (o ≡ some i)
unfolding lock
lock-none n c p s none e = cc
lock-none n c p s (some i) e = (i, refl)

-- A philosopher that waits does so before one of the two chopsticks, which another one holds.
philosopher-none :
    (n : ℕ) (s : State) (p : Point)
    → philosopher n s p ≡ none
    → ((p ≡ at_first) × ((i : ℕ) × (s.chops n ≡ some i))) ⊎ (p ≡ at_second)
unfolding philosopher
philosopher-none n s at_first e = inl (refl, lock-none n n at_second s (s.chops n) e)
philosopher-none n s at_second e = inr refl
philosopher-none n s eating e = cc
philosopher-none n s at_release e = cc

turn-none :
    (n : ℕ) (s : State)
    → turn n s ≡ none
    → ((s.phil n ≡ at_first) × ((i : ℕ) × (s.chops n ≡ some i))) ⊎ (s.phil n ≡ at_second)
unfolding turn
turn-none n s e = philosopher-none n s (s.phil n) e

waits_has_no_second : (n : ℕ) (s : State) → turn n s ≡ none → has_second (s.phil n) ≡ false
waits_has_no_second n s e = elim (turn-none n s e) [
  | inl (at, _) ↦ rw (at) refl
  | inr at ↦ rw (at) refl
]

-- When all philosophers wait in a reachable state, each has its first chopstick and waits for its second.
pub stuck_hold_first : (s : State) (n : ℕ) → Reach s → IsStuck s → n < 5 → s.phil n ≡ at_second
stuck_hold_first s n r stuck small =
    let inv = Reach-Inv s r in
    elim (turn-none n s (stuck n small)) [
      | inr at ↦ at
      | inl (at, (i, e)) ↦
          let (i_small, has) = inv.held n i e in
          elim has [
            | inl (same, first) ↦
                let mine : has_first (s.phil n) ≡ true =
                  subst (λ k. has_first (s.phil k) ≡ true) (sym same) first in
                let none_held : has_first (s.phil n) ≡ false = rw (at) refl in cc
            | inr (same, second) ↦ let none_held = waits_has_no_second i s (stuck i i_small) in cc
          ]
    ]

abbrev all_second : State
all_second = moved 4 4 (some 4) at_second (
    moved 3 3 (some 3) at_second (
      moved 2 2 (some 2) at_second
        (moved 1 1 (some 1) at_second (moved 0 0 (some 0) at_second start))))

all_second-Reach : Reach all_second
unfolding turn philosopher lock
all_second-Reach =
    next 4 (omega arith)
      (next 3 (omega arith)
        (next 2 (omega arith) (next 1 (omega arith) (next 0 (omega arith) begin refl) refl) refl)
        refl)
      refl

all_second-IsStuck : IsStuck all_second
unfolding turn philosopher lock
all_second-IsStuck zero small = refl
all_second-IsStuck (suc zero) small = refl
all_second-IsStuck (suc (suc zero)) small = refl
all_second-IsStuck (suc (suc (suc zero))) small = refl
all_second-IsStuck (suc (suc (suc (suc zero)))) small = refl
all_second-IsStuck (suc (suc (suc (suc (suc n))))) small = absurd (omega (arith, small))

-- There is a reachable state in which all philosophers wait, for ever.
pub can_get_stuck : (s : State) × Reach s × IsStuck s
can_get_stuck = (all_second, all_second-Reach, all_second-IsStuck)
