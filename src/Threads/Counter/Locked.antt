-- ===== src/Threads/Counter/Locked.antt =====
-- The invariant of LinuxC/pthread/mutex/pth_mutex.c: the lock, the counter and what is printed.
use linux_note.Base.{
  ℕ, zero, suc, ◌+◌, ◌*◌, ◌≤◌, ◌<◌, ◌≡◌, refl, sym, ap, ◌∙◌, inl, inr, Bool, true, false, ◌&&◌,
  ◌||◌, Option, none, some, List, [], ◌∷◌, arith, ltb, Bool-cases, ltb→lt, ◌>>=◌,
}
use mathlib.Core.Path.{subst}
use linux_note.Threads.Counter.{
  Thread, at_test, at_lock, at_read, at_print, at_write, at_unlock, returned, Shared, System,
  locked_step, Turn, a_runs, b_runs, a_moves, b_moves, turn, turns, start, Holds,
}

-- Whether a thread holds the lock.
abbrev pub inside : Thread → Bool
inside (at_test i) = false
inside (at_lock i) = false
inside (returned i) = false
inside _ = true

-- How often it has counted.
abbrev pub counts : Thread → ℕ
counts (at_test i) = i
counts (at_lock i) = i
counts (at_read i) = i
counts (at_print i val) = i
counts (at_write i val) = i
counts (at_unlock i) = i + 1
counts (returned i) = i

-- The numbers below `n`, the largest first.
abbrev pub down_from : ℕ → List ℕ
down_from zero = []
down_from (suc n) = n ∷ down_from n

down_from-suc : (n : ℕ) → down_from (n + 1) ≡ n ∷ down_from n
down_from-suc n = let next : n + 1 ≡ suc n = omega arith in ap down_from next

-- A thread's part of the invariant: its place in the loop, and, where it holds the lock, its copy of
-- the counter and what is printed.
abbrev pub IsFine : (n : ℕ) → Shared → Thread → Type 0
IsFine n s (at_test i) = i ≤ n
IsFine n s (at_lock i) = i < n
IsFine n s (at_read i) = (i < n) × (s.printed ≡ down_from s.counter)
IsFine n s (at_print i val) = (i < n) × (s.printed ≡ down_from s.counter) × (val ≡ s.counter)
IsFine n s (at_write i val) = (i < n) × (s.printed ≡ val ∷ down_from s.counter) × (val ≡ s.counter)
IsFine n s (at_unlock i) = (i < n) × (s.printed ≡ down_from s.counter)
IsFine n s (returned i) = i ≡ n

-- Of two threads `me` and `other`.
pub record Inv (n : ℕ) (s : Shared) (me other : Thread) : Type 0 where
  pub one_inside : (inside me && inside other) ≡ false
  pub holder : s.locked ≡ (inside me || inside other)
  pub sum : counts me + counts other ≡ s.counter
  pub mine : IsFine n s me
  pub theirs : IsFine n s other
  pub in_order : s.locked ≡ false → s.printed ≡ down_from s.counter

IsFine-outside :
    (n : ℕ) (s s' : Shared) (t : Thread) → inside t ≡ false → IsFine n s t → IsFine n s' t
IsFine-outside n s s' (at_test i) out fine = fine
IsFine-outside n s s' (at_lock i) out fine = fine
IsFine-outside n s s' (returned i) out fine = fine
IsFine-outside n s s' (at_read i) out fine = cc
IsFine-outside n s s' (at_print i val) out fine = cc
IsFine-outside n s s' (at_write i val) out fine = cc
IsFine-outside n s s' (at_unlock i) out fine = cc

and_comm : (a b : Bool) → (a && b) ≡ (b && a)
and_comm true true = refl
and_comm true false = refl
and_comm false true = refl
and_comm false false = refl

or_comm : (a b : Bool) → (a || b) ≡ (b || a)
or_comm true true = refl
or_comm true false = refl
or_comm false true = refl
or_comm false false = refl

Inv-swap : (n : ℕ) (s : Shared) (me other : Thread) → Inv n s me other → Inv n s other me
Inv-swap n s me other inv = record {
  one_inside = and_comm (inside other) (inside me) ∙ inv.one_inside;
  holder = inv.holder ∙ or_comm (inside me) (inside other);
  sum = omega (arith, inv.sum);
  mine = inv.theirs;
  theirs = inv.mine;
  in_order = inv.in_order;
}

locked_step-Inv :
    (n : ℕ) (s : Shared) (me other : Thread)
    → Inv n s me other
    → Holds (λ r. Inv n r.0 r.1 other) (locked_step n s me)
unfolding locked_step
locked_step-Inv n s (at_test i) other inv = elim (Bool-cases (ltb i n)) [
  | inl more ↦ rw (more) record {
    one_inside = inv.one_inside;
    holder = inv.holder;
    sum = inv.sum;
    mine = ltb→lt i n more;
    theirs = inv.theirs;
    in_order = inv.in_order;
  }
  | inr done ↦ rw (done) record {
    one_inside = inv.one_inside;
    holder = inv.holder;
    sum = inv.sum;
    mine = ground (arith, inv.mine);
    theirs = inv.theirs;
    in_order = inv.in_order;
  }
]
locked_step-Inv n s (at_lock i) other inv = elim (Bool-cases s.locked) [
  | inl taken ↦ rw (taken) tt
  | inr open_now ↦ rw (open_now) record {
    one_inside = sym inv.holder ∙ open_now;
    holder = refl;
    sum = inv.sum;
    mine = (inv.mine, inv.in_order open_now);
    theirs =
        IsFine-outside n s (record s { locked = true }) other (sym inv.holder ∙ open_now)
          inv.theirs;
    in_order = λ h. cc;
  }
]
locked_step-Inv n s (at_read i) other inv = record {
  one_inside = inv.one_inside;
  holder = inv.holder;
  sum = inv.sum;
  mine = (inv.mine.0, inv.mine.1, refl);
  theirs = inv.theirs;
  in_order = inv.in_order;
}
locked_step-Inv n s (at_print i val) other inv = record {
  one_inside = inv.one_inside;
  holder = inv.holder;
  sum = inv.sum;
  mine = (inv.mine.0, ap (λ l. val ∷ l) inv.mine.1, inv.mine.2);
  theirs =
      IsFine-outside n s (record s { printed = val ∷ s.printed }) other inv.one_inside inv.theirs;
  in_order = λ h. cc;
}
locked_step-Inv n s (at_write i val) other inv = record {
  one_inside = inv.one_inside;
  holder = inv.holder;
  sum = omega (arith, inv.sum, inv.mine.2);
  mine = (
    inv.mine.0,
    inv.mine.1 ∙ ap (λ c. val ∷ down_from c) (sym inv.mine.2) ∙ sym (down_from-suc val),
  );
  theirs = IsFine-outside n s (record s { counter = val + 1 }) other inv.one_inside inv.theirs;
  in_order = λ h. cc;
}
locked_step-Inv n s (at_unlock i) other inv = record {
  one_inside = refl;
  holder = sym inv.one_inside;
  sum = inv.sum;
  mine = ground (arith, inv.mine.0);
  theirs = IsFine-outside n s (record s { locked = false }) other inv.one_inside inv.theirs;
  in_order = λ h. inv.mine.1;
}
locked_step-Inv n s (returned i) other inv = tt

-- The invariant of the whole system.
abbrev pub Sound : ℕ → System → Type 0
Sound n s = Inv n s.shared s.a s.b

pub turn-Sound :
    (n : ℕ) (t : Turn) (s : System) → Sound n s → Holds (Sound n) (turn (locked_step n) t s)
unfolding turn a_moves b_moves
turn-Sound n a_runs s sound =
    a_kept (locked_step n s.shared s.a) (locked_step-Inv n s.shared s.a s.b sound)
  where
    a_kept :
        (o : Option (Shared × Thread))
        → Holds (λ r. Inv n r.0 r.1 s.b) o
        → Holds (Sound n) (a_moves s o)
    a_kept none h = tt
    a_kept (some r) h = h
turn-Sound n b_runs s sound =
    b_kept (locked_step n s.shared s.b)
      (locked_step-Inv n s.shared s.b s.a (Inv-swap n s.shared s.a s.b sound))
  where
    b_kept :
        (o : Option (Shared × Thread))
        → Holds (λ r. Inv n r.0 r.1 s.a) o
        → Holds (Sound n) (b_moves s o)
    b_kept none h = tt
    b_kept (some r) h = Inv-swap n _ _ _ h

pub Holds-bind :
    {A B : Type 0} {P : A → Type 0} (Q : B → Type 0) (f : A → Option B) (o : Option A)
    → ((a : A) → P a → Holds Q (f a))
    → Holds P o
    → Holds Q (o >>= f)
Holds-bind Q f none keeps h = tt
Holds-bind Q f (some a) keeps h = keeps a h

pub turns-Sound :
    (n : ℕ) (ts : List Turn) (s : System) → Sound n s → Holds (Sound n) (turns (locked_step n) ts s)
unfolding turns
turns-Sound n [] s sound = sound
turns-Sound n (t ∷ ts) s sound =
    Holds-bind (Sound n) (turns (locked_step n) ts) (turn (locked_step n) t s)
      (λ s' h. turns-Sound n ts s' h) (turn-Sound n t s sound)

pub start-Sound : (n : ℕ) → Sound n start
start-Sound n = record {
  one_inside = refl;
  holder = refl;
  sum = refl;
  mine = omega arith;
  theirs = omega arith;
  in_order = λ h. refl;
}

counts-le : (n : ℕ) (s : Shared) (t : Thread) → IsFine n s t → counts t ≤ n
counts-le n s t fine = ground (arith, fine)

-- When both have returned.
finished :
    (n : ℕ) (s : Shared) (a b : Thread) (i j : ℕ)
    → Inv n s a b
    → a ≡ returned i
    → b ≡ returned j
    → (s.counter ≡ 2 * n) × (s.printed ≡ down_from (2 * n))
finished n s a b i j inv left right =
    let a_done : i ≡ n = subst (IsFine n s) left inv.mine in
    let b_done : j ≡ n = subst (IsFine n s) right inv.theirs in
    let total : s.counter ≡ 2 * n =
      omega (arith, inv.sum, ap counts left, ap counts right, a_done, b_done) in
    let free : s.locked ≡ false = rw (left, right) at inv.holder in
    (total, inv.in_order free ∙ ap down_from total)

reached-Sound :
    (n : ℕ) (ts : List Turn) (s : System) → turns (locked_step n) ts start ≡ some s → Sound n s
reached-Sound n ts s e = subst (Holds (Sound n)) e (turns-Sound n ts start (start-Sound n))

-- Whatever the order of the steps of the two threads: they are never both in the part between `lock`
-- and `unlock`, the counter is the number of rounds they have counted, and it is not above `2 * n`.
locked_count :
    (n : ℕ) (ts : List Turn) (s : System)
    → turns (locked_step n) ts start ≡ some s
    → ((inside s.a && inside s.b) ≡ false)
      × (counts s.a + counts s.b ≡ s.shared.counter)
      × (s.shared.counter ≤ 2 * n)
locked_count n ts s e =
    let sound = reached-Sound n ts s e in
    let a_counts = counts-le n s.shared s.a sound.mine in
    let b_counts = counts-le n s.shared s.b sound.theirs in
    (sound.one_inside, sound.sum, omega (arith, sound.sum, a_counts, b_counts))

-- Whatever the order of the steps: when both threads have returned, the counter is `2 * n`, and the numbers printed are those below
-- `2 * n`, each once and in order.
pub locked_total :
    (n : ℕ) (ts : List Turn) (s : System) (i j : ℕ)
    → turns (locked_step n) ts start ≡ some s
    → s.a ≡ returned i
    → s.b ≡ returned j
    → (s.shared.counter ≡ 2 * n) × (s.shared.printed ≡ down_from (2 * n))
locked_total n ts s i j e a_returned b_returned =
    finished n s.shared s.a s.b i j (reached-Sound n ts s e) a_returned b_returned
