-- ===== src/Threads/Counter/Races.antt =====
-- The counter of LinuxC/pthread/mutex/pth_nomutex.c, without the lock.
use linux_note.Base.{
  ℕ, zero, suc, ◌+◌, ◌*◌, ◌≤◌, ◌<◌, ◌≡◌, refl, ap, inl, inr, true, false, Option, none, some, List,
  [], ◌∷◌, ◌++◌, arith, ltb, Bool-cases, ltb→lt,
}
use mathlib.Core.Path.{subst}
use linux_note.Threads.Counter.{
  Thread, at_test, at_lock, at_read, at_print, at_write, at_unlock, returned, Shared, System,
  unlocked_step, Turn, a_runs, b_runs, a_moves, b_moves, turn, turns, start, Holds,
}
use linux_note.Threads.Counter.Locked.{counts, Holds-bind}

-- The steps of one round in which the second thread reads the counter before the first has written it.
abbrev lost_round : List Turn
lost_round = a_runs ∷ b_runs ∷ a_runs ∷ b_runs ∷ a_runs ∷ b_runs ∷ a_runs ∷ b_runs ∷ []

-- `k` such rounds.
abbrev pub lost_rounds : ℕ → List Turn
lost_rounds zero = a_runs ∷ b_runs ∷ []
lost_rounds (suc k) = lost_round ++ lost_rounds k

abbrev both_at : ℕ → List ℕ → ℕ → System
both_at c p i = record {
  shared = record { counter = c; locked = false; printed = p };
  a = at_test i;
  b = at_test i;
}

rounds_lose :
    (n k c i : ℕ) (p : List ℕ)
    → i + k ≡ n
    → (s : System) × (turns (unlocked_step n) (lost_rounds k) (both_at c p i) ≡ some s)
      × (s.a ≡ returned n)
      × (s.b ≡ returned n)
      × (s.shared.counter ≡ c + k)
unfolding turns turn unlocked_step a_moves b_moves
rounds_lose n zero c i p e =
    let last : ltb i n ≡ false = ground (arith, e) in
    let at_end : i ≡ n = omega (arith, e) in
    rw (last) (_, refl, ap returned at_end, ap returned at_end, omega arith)
rounds_lose n (suc k) c i p e =
    let more : ltb i n ≡ true = ground (arith, e) in
    let (s, runs, a_ends, b_ends, total) =
      rounds_lose n k (c + 1) (i + 1) (c ∷ c ∷ p) (omega (arith, e)) in
    rw (more) (s, runs, a_ends, b_ends, omega (arith, total))

-- For every `n` there is an order of the steps in which both threads return with half of the counts
-- lost: each has counted `n` times, and the counter is `n`.
pub unlocked_loses :
    (n : ℕ)
    → (ts : List Turn) × (s : System) × (turns (unlocked_step n) ts start ≡ some s)
      × (s.a ≡ returned n)
      × (s.b ≡ returned n)
      × (s.shared.counter ≡ n)
unlocked_loses n =
    let (s, runs, a_ends, b_ends, total) = rounds_lose n n 0 0 [] (omega arith) in
    (lost_rounds n, s, runs, a_ends, b_ends, omega (arith, total))

-- A copy of the counter that a thread has is not above what was counted.
abbrev IsBelow : ℕ → Thread → Type 0
IsBelow sum (at_print i val) = val ≤ sum
IsBelow sum (at_write i val) = val ≤ sum
IsBelow sum t = Unit

-- A thread has not counted more than `n` times.
abbrev IsWithin : ℕ → Thread → Type 0
IsWithin n (at_test i) = i ≤ n
IsWithin n (at_lock i) = i ≤ n
IsWithin n (at_unlock i) = i < n
IsWithin n (returned i) = i ≤ n
IsWithin n t = counts t < n

-- Of two threads `me` and `other`.
record AtMost (n : ℕ) (s : Shared) (me other : Thread) : Type 0 where
  total : s.counter ≤ counts me + counts other
  mine : IsBelow (counts me + counts other) me
  theirs : IsBelow (counts me + counts other) other
  my_rounds : IsWithin n me
  their_rounds : IsWithin n other

IsBelow-mono : (t : Thread) {k m : ℕ} → k ≤ m → IsBelow k t → IsBelow m t
IsBelow-mono t h below = ground (arith, h, below)

AtMost-swap : (n : ℕ) (s : Shared) (me other : Thread) → AtMost n s me other → AtMost n s other me
AtMost-swap n s me other h = record {
  total = omega (arith, h.total);
  mine = IsBelow-mono other (omega arith) h.theirs;
  theirs = IsBelow-mono me (omega arith) h.mine;
  my_rounds = h.their_rounds;
  their_rounds = h.my_rounds;
}

unlocked_step-AtMost :
    (n : ℕ) (s : Shared) (me other : Thread)
    → AtMost n s me other
    → Holds (λ r. AtMost n r.0 r.1 other) (unlocked_step n s me)
unfolding unlocked_step
unlocked_step-AtMost n s (at_test i) other h = elim (Bool-cases (ltb i n)) [
  | inl more ↦ rw (more) record {
    total = h.total;
    mine = tt;
    theirs = h.theirs;
    my_rounds = ltb→lt i n more;
    their_rounds = h.their_rounds;
  }
  | inr done ↦ rw (done) record {
    total = h.total;
    mine = tt;
    theirs = h.theirs;
    my_rounds = h.my_rounds;
    their_rounds = h.their_rounds;
  }
]
unlocked_step-AtMost n s (at_lock i) other h = tt
unlocked_step-AtMost n s (at_read i) other h = record {
  total = h.total;
  mine = h.total;
  theirs = h.theirs;
  my_rounds = h.my_rounds;
  their_rounds = h.their_rounds;
}
unlocked_step-AtMost n s (at_print i val) other h = record {
  total = h.total;
  mine = h.mine;
  theirs = h.theirs;
  my_rounds = h.my_rounds;
  their_rounds = h.their_rounds;
}
unlocked_step-AtMost n s (at_write i val) other h = record {
  total = omega (arith, h.mine);
  mine = tt;
  theirs = IsBelow-mono other (omega arith) h.theirs;
  my_rounds = omega (arith, h.my_rounds);
  their_rounds = h.their_rounds;
}
unlocked_step-AtMost n s (at_unlock i) other h = tt
unlocked_step-AtMost n s (returned i) other h = tt

abbrev Limited : ℕ → System → Type 0
Limited n s = AtMost n s.shared s.a s.b

turn-Limited :
    (n : ℕ) (t : Turn) (s : System) → Limited n s → Holds (Limited n) (turn (unlocked_step n) t s)
unfolding turn a_moves b_moves
turn-Limited n a_runs s h =
    a_kept (unlocked_step n s.shared s.a) (unlocked_step-AtMost n s.shared s.a s.b h)
  where
    a_kept :
        (o : Option (Shared × Thread))
        → Holds (λ r. AtMost n r.0 r.1 s.b) o
        → Holds (Limited n) (a_moves s o)
    a_kept none k = tt
    a_kept (some r) k = k
turn-Limited n b_runs s h =
    b_kept (unlocked_step n s.shared s.b)
      (unlocked_step-AtMost n s.shared s.b s.a (AtMost-swap n s.shared s.a s.b h))
  where
    b_kept :
        (o : Option (Shared × Thread))
        → Holds (λ r. AtMost n r.0 r.1 s.a) o
        → Holds (Limited n) (b_moves s o)
    b_kept none k = tt
    b_kept (some r) k = AtMost-swap n _ _ _ k

turns-Limited :
    (n : ℕ) (ts : List Turn) (s : System)
    → Limited n s
    → Holds (Limited n) (turns (unlocked_step n) ts s)
unfolding turns
turns-Limited n [] s h = h
turns-Limited n (t ∷ ts) s h =
    Holds-bind (Limited n) (turns (unlocked_step n) ts) (turn (unlocked_step n) t s)
      (λ s' k. turns-Limited n ts s' k) (turn-Limited n t s h)

-- In every order of the steps, the counter is at most the number of rounds counted, and that is at most
-- `2 * n`.
unlocked_limit :
    (n : ℕ) (ts : List Turn) (s : System)
    → turns (unlocked_step n) ts start ≡ some s
    → (s.shared.counter ≤ counts s.a + counts s.b) × (counts s.a + counts s.b ≤ 2 * n)
unlocked_limit n ts s e =
    let begin : Limited n start = record {
      total = omega arith;
      mine = tt;
      theirs = tt;
      my_rounds = omega arith;
      their_rounds = omega arith;
    } in
    let limited : Limited n s = subst (Holds (Limited n)) e (turns-Limited n ts start begin) in
    (
      limited.total,
      let a_rounds = within n s.a limited.my_rounds in
          let b_rounds = within n s.b limited.their_rounds in omega (arith, a_rounds, b_rounds),
    )
  where
    within : (n : ℕ) (t : Thread) → IsWithin n t → counts t ≤ n
    within n t h = ground (arith, h)
