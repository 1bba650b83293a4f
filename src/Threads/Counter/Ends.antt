-- ===== src/Threads/Counter/Ends.antt =====
-- How many steps the threads of LinuxC/pthread/mutex/pth_mutex.c have before them, and where they end.
use linux_note.Base.{
  ℕ, suc, ◌+◌, ◌-◌, ◌*◌, ◌≡◌, refl, inl, inr, true, false, Option, none, some, List, [], ◌∷◌, arith,
  ltb, Bool-cases, length,
}
use mathlib.Core.Path.{subst}
use linux_note.Threads.Counter.{
  Thread, at_test, at_lock, at_read, at_print, at_write, at_unlock, returned, Shared, System,
  locked_step, Turn, a_runs, b_runs, a_moves, b_moves, turn, turns, start, Holds,
}
use linux_note.Threads.Counter.Locked.{
  inside, IsFine, Sound, turn-Sound, turns-Sound, start-Sound, Holds-bind,
}

-- The steps that a thread has before it.
abbrev pub left : (n : ℕ) → Thread → ℕ
left n (at_test i) = 6 * (n - i) + 1
left n (at_lock i) = 6 * (n - i)
left n (at_read i) = 6 * (n - i) - 1
left n (at_print i val) = 6 * (n - i) - 2
left n (at_write i val) = 6 * (n - i) - 3
left n (at_unlock i) = 6 * (n - i) - 4
left n (returned i) = 0

abbrev all_left : ℕ → System → ℕ
all_left n s = left n s.a + left n s.b

locked_step-left :
    (n : ℕ) (s : Shared) (t : Thread)
    → IsFine n s t
    → Holds (λ r. left n r.1 + 1 ≡ left n t) (locked_step n s t)
unfolding locked_step
locked_step-left n s (at_test i) fine = elim (Bool-cases (ltb i n)) [
  | inl more ↦ rw (more) refl
  | inr done ↦ rw (done) ground (arith, fine, done)
]
locked_step-left n s (at_lock i) fine = elim (Bool-cases s.locked) [
  | inl taken ↦ rw (taken) tt
  | inr open_now ↦ rw (open_now) omega (arith, fine)
]
locked_step-left n s (at_read i) fine = omega (arith, fine.0)
locked_step-left n s (at_print i val) fine = omega (arith, fine.0)
locked_step-left n s (at_write i val) fine = omega (arith, fine.0)
locked_step-left n s (at_unlock i) fine = omega (arith, fine.0)
locked_step-left n s (returned i) fine = tt

-- A step of the system.
abbrev Moves : ℕ → System → System → Type 0
Moves n s s' = Sound n s' × (all_left n s' + 1 ≡ all_left n s)

turn-Moves :
    (n : ℕ) (t : Turn) (s : System) → Sound n s → Holds (Moves n s) (turn (locked_step n) t s)
unfolding turn a_moves b_moves
turn-Moves n a_runs s sound =
    a_counts (locked_step n s.shared s.a) (turn-Sound n a_runs s sound)
      (locked_step-left n s.shared s.a sound.mine)
  where
    a_counts :
        (o : Option (Shared × Thread))
        → Holds (Sound n) (a_moves s o)
        → Holds (λ r. left n r.1 + 1 ≡ left n s.a) o
        → Holds (Moves n s) (a_moves s o)
    a_counts none h l = tt
    a_counts (some r) h l = (h, omega (arith, l))
turn-Moves n b_runs s sound =
    b_counts (locked_step n s.shared s.b) (turn-Sound n b_runs s sound)
      (locked_step-left n s.shared s.b sound.theirs)
  where
    b_counts :
        (o : Option (Shared × Thread))
        → Holds (Sound n) (b_moves s o)
        → Holds (λ r. left n r.1 + 1 ≡ left n s.b) o
        → Holds (Moves n s) (b_moves s o)
    b_counts none h l = tt
    b_counts (some r) h l = (h, omega (arith, l))

turns-left :
    (n : ℕ) (ts : List Turn) (s : System)
    → Sound n s
    → Holds (λ s'. all_left n s' + length ts ≡ all_left n s) (turns (locked_step n) ts s)
unfolding turns
turns-left n [] s sound = omega arith
turns-left n (t ∷ ts) s sound =
    Holds-bind (λ s'. all_left n s' + suc (length ts) ≡ all_left n s) (turns (locked_step n) ts)
      (turn (locked_step n) t s)
      (λ s₁ moved.
        Holds-map (turns (locked_step n) ts s₁) (λ s' h. omega (arith, h, moved.1))
          (turns-left n ts s₁ moved.0))
      (turn-Moves n t s sound)
  where
    Holds-map :
        {P Q : System → Type 0} (o : Option System)
        → ((s' : System) → P s' → Q s')
        → Holds P o
        → Holds Q o
    Holds-map none f h = tt
    Holds-map (some s') f h = f s' h

-- A thread that cannot step holds no lock, and has returned if the lock is free.
waits :
    (n : ℕ) (s : Shared) (t : Thread)
    → locked_step n s t ≡ none
    → (inside t ≡ false) × (s.locked ≡ false → (i : ℕ) × (t ≡ returned i))
unfolding locked_step
waits n s (at_test i) e = cc
waits n s (at_lock i) e = elim (Bool-cases s.locked) [
  | inl taken ↦ (refl, λ open_now. cc)
  | inr open_now ↦
      let moved : some (record s { locked = true }, at_read i) ≡ none = rw open_now at e in cc
]
waits n s (at_read i) e = cc
waits n s (at_print i val) e = cc
waits n s (at_write i val) e = cc
waits n s (at_unlock i) e = cc
waits n s (returned i) e = (refl, λ open_now. (i, refl))

stuck :
    (n : ℕ) (s : System)
    → Sound n s
    → locked_step n s.shared s.a ≡ none
    → locked_step n s.shared s.b ≡ none
    → (i : ℕ) × (j : ℕ) × (s.a ≡ returned i) × (s.b ≡ returned j)
stuck n s sound a_waits b_waits =
    let (a_out, a_ends) = waits n s.shared s.a a_waits in
    let (b_out, b_ends) = waits n s.shared s.b b_waits in
    let free : s.shared.locked ≡ false = rw (a_out, b_out) at sound.holder in
    let (i, a_returned) = a_ends free in
    let (j, b_returned) = b_ends free in (i, j, a_returned, b_returned)

no_step_a : (s : System) (o : Option (Shared × Thread)) → a_moves s o ≡ none → o ≡ none
unfolding a_moves
no_step_a s none e = refl
no_step_a s (some r) e = cc

no_step_b : (s : System) (o : Option (Shared × Thread)) → b_moves s o ≡ none → o ≡ none
unfolding b_moves
no_step_b s none e = refl
no_step_b s (some r) e = cc

-- In whatever order the two threads take their steps, there are never more than `12 * n + 2` steps, and
-- each step brings the threads one step nearer to their return.
locked_steps :
    (n : ℕ) (ts : List Turn) (s : System)
    → turns (locked_step n) ts start ≡ some s
    → all_left n s + length ts ≡ 12 * n + 2
locked_steps n ts s e =
    let steps : all_left n s + length ts ≡ all_left n start =
      subst (Holds (λ s'. all_left n s' + length ts ≡ all_left n start)) e
        (turns-left n ts start (start-Sound n)) in
    omega (arith, steps)

-- In whatever order the threads take their steps: when neither can take one, both have returned: the lock is never held for ever.
locked_end :
    (n : ℕ) (ts : List Turn) (s : System)
    → turns (locked_step n) ts start ≡ some s
    → turn (locked_step n) a_runs s ≡ none
    → turn (locked_step n) b_runs s ≡ none
    → (i : ℕ) × (j : ℕ) × (s.a ≡ returned i) × (s.b ≡ returned j)
unfolding turn
locked_end n ts s e a_waits b_waits =
    let sound : Sound n s = subst (Holds (Sound n)) e (turns-Sound n ts start (start-Sound n)) in
    stuck n s sound (no_step_a s _ a_waits) (no_step_b s _ b_waits)
