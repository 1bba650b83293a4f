-- ===== src/Threads/RingQueue/Order.antt =====
-- The threads of bite/pthread/con_pro.cpp in any order of their steps.
use linux_note.Base.{
  ℕ, ◌+◌, ◌≤◌, ◌<◌, ◌≡◌, refl, ap, ◌∙◌, inl, inr, Option, none, some, List, [], ◌++◌, map, arith,
  length, get_elem?, ◌>>=◌,
}
use mathlib.Core.Path.{subst}
use linux_note.Threads.Crew.{Each, sum_of, sum_of_zero, get_elem?-created}
use linux_note.Threads.Entries.{Role, productor, consumer, of_thread, upto}
use linux_note.Threads.RingQueue.{
  Point, at_place, at_lock, Thread, State, push, pop, act, turn, max_queue, start, Reach, begin,
  next,
}
use linux_note.Threads.RingQueue.Invariant.{
  at, inside, owing, owed, late, ahead, of_role, crew_of, Series, Held, Holds,
}
use linux_note.Threads.RingQueue.Pushes.{push-Held}
use linux_note.Threads.RingQueue.Pops.{pop-Held}

act-Held :
    (i n : ℕ) (s : State) (role : Role) (p : Point)
    → get_elem? s.threads i ≡ some (at role n p)
    → Held s
    → Holds (act i s role n p)
unfolding act
act-Held i n s productor p at_i held = push-Held i n s p at_i held
act-Held i n s consumer p at_i held = pop-Held i n s p at_i held

turn-Held : (i : ℕ) (s : State) → Held s → Holds (turn i s)
unfolding turn
turn-Held i s held = turn_of (get_elem? s.threads i) refl
  where
    turn_of :
        (o : Option Thread)
        → get_elem? s.threads i ≡ o
        → Holds (do t ← o; act i s t.role t.number t.point)
    turn_of none e = tt
    turn_of (some t) e = act-Held i t.number s t.role t.point e held

of_role-zero :
    (role r : Role) (f : Point → ℕ) (n : ℕ) (p : Point) → f p ≡ 0 → of_role role f (at r n p) ≡ 0
of_role-zero productor productor f n p h = h
of_role-zero productor consumer f n p h = refl
of_role-zero consumer productor f n p h = refl
of_role-zero consumer consumer f n p h = h

-- A number that is 0 at `at_place` sums up to 0 over the threads that were just created.
created :
    (f : Thread → ℕ) (n m : ℕ)
    → ((r : Role) → f (at r 0 at_place) ≡ 0)
    → sum_of f (start n m).threads ≡ 0
created f n m is_zero = sum_of_zero f (start n m).threads (λ j t e.
    elim (get_elem?-created n m _ _ j t e) [
      | inl same ↦ ap f same ∙ is_zero productor
      | inr same ↦ ap f same ∙ is_zero consumer
    ])

created_of :
    (role : Role) (f : Point → ℕ) (n m : ℕ) → f at_place ≡ 0 → crew_of role f (start n m) ≡ 0
created_of role f n m h = created (of_role role f) n m (λ r. of_role-zero role r f 0 at_place h)

created-Series : (n m j : ℕ) (r : Role) (t : Thread) → t ≡ at r 0 at_place → Series (start n m) j t
created-Series n m j r t same is_p = rw (same) refl

start-Held : (n m : ℕ) → Held (start n m)
start-Held n m = (
  [],
  record {
    order = refl;
    cells = tt;
    back = omega (arith, created_of consumer late n m refl, created_of productor late n m refl);
    free = omega (arith, created_of productor owing n m refl, created_of consumer owed n m refl);
    full = omega (arith, created_of productor owed n m refl, created_of consumer owing n m refl);
    one = omega (arith, created inside n m (λ r. refl));
    write_in = omega arith;
    read_in = omega arith;
    size = refl;
    series = λ j t e. elim (get_elem?-created n m _ _ j t e) [
      | inl same ↦ created-Series n m j productor t same
      | inr same ↦ created-Series n m j consumer t same
    ];
  },
)

Reach-Held : (n m : ℕ) (s : State) → Reach n m s → Held s
Reach-Held n m s begin = start-Held n m
Reach-Held n m s (next {s = before} i r e) =
    subst Holds e (turn-Held i before (Reach-Held n m before r))

-- For any number of productors and consumers, in every reachable state: what was pushed is what was popped
-- followed by at most five numbers, in the same order; each productor has pushed 0, 1, 2 and so on, up to its
-- own count; both indices are inside the array; and at most one thread has the lock.
pub pops_ring_in_order :
    (n m : ℕ) (s : State)
    → Reach n m s
    → (pending : List ℕ) × (map (λ e. e.value) s.pushed ≡ map (λ e. e.value) s.popped ++ pending)
      × (length pending ≤ max_queue)
      × ((j : ℕ) (t : Thread)
          → get_elem? s.threads j ≡ some t
          → t.role ≡ productor
          → of_thread j s.pushed ≡ upto (t.number + ahead t.point))
      × (s.pos_write < length s.array)
      × (s.pos_read < length s.array)
      × (sum_of inside s.threads ≤ 1)
pops_ring_in_order n m s r =
    let (pending, inv) = Reach-Held n m s r in
    (
      pending,
      inv.order,
      omega (arith, inv.free),
      inv.series,
      omega (arith, inv.write_in, inv.size),
      omega (arith, inv.read_in, inv.size),
      omega (arith, inv.one),
    )

-- Why a thread waits.
abbrev Waits : State → Role → Point → Type 0
Waits s role at_place = elim role [ productor ↦ s.sem_space | consumer ↦ s.sem_data ] ≡ 0
Waits s role at_lock = s.sem_lock ≡ 0
Waits s role _ = ⊥

act-Waits :
    (i n : ℕ) (s : State) (role : Role) (p : Point) → act i s role n p ≡ none → Waits s role p
unfolding act push pop
act-Waits i n s productor at_place e = ground (arith, e)
act-Waits i n s consumer at_place e = ground (arith, e)
act-Waits i n s productor at_lock e = ground (arith, e)
act-Waits i n s consumer at_lock e = ground (arith, e)
act-Waits i n s role p e = cc

turn-Waits :
    (s : State)
    → ((k : ℕ) (v : Thread) → get_elem? s.threads k ≡ some v → turn k s ≡ none)
    → Each (λ k v. Waits s v.role v.point) s.threads
unfolding turn
turn-Waits s stuck k v e =
    let waits : act k s v.role v.number v.point ≡ none = rw e at (stuck k v e) in
    act-Waits k v.number s v.role v.point waits

Waits-inside :
    (s : State) (role : Role) (n : ℕ) (p : Point) → Waits s role p → inside (at role n p) ≡ 0
Waits-inside s role n at_place h = refl
Waits-inside s role n at_lock h = refl
Waits-inside s role n p h = absurd h

Waits-at_place :
    (s : State) (role : Role) (p : Point) → s.sem_lock ≡ 1 → Waits s role p → p ≡ at_place
Waits-at_place s role at_place free h = refl
Waits-at_place s role at_lock free taken = absurd (omega (arith, free, taken))
Waits-at_place s role p free h = absurd h

-- For any number of threads with at least one productor and one consumer: in no reachable state do all threads
-- wait.
pub never_all_wait :
    (n m : ℕ) (s : State) (i j : ℕ) (t u : Thread)
    → Reach n m s
    → get_elem? s.threads i ≡ some t
    → t.role ≡ productor
    → get_elem? s.threads j ≡ some u
    → u.role ≡ consumer
    → ¬ ((k : ℕ) (v : Thread) → get_elem? s.threads k ≡ some v → turn k s ≡ none)
never_all_wait n m s i j t u r at_i is_p at_j is_c stuck =
    let (pending, inv) = Reach-Held n m s r in
    let all = turn-Waits s stuck in
    let outside : sum_of inside s.threads ≡ 0 =
      sum_of_zero inside s.threads (λ k v e. Waits-inside s v.role v.number v.point (all k v e)) in
    let free : s.sem_lock ≡ 1 = omega (arith, inv.one, outside) in
    let place = λ (k : ℕ) (v : Thread) (e : get_elem? s.threads k ≡ some v).
      Waits-at_place s v.role v.point free (all k v e) in
    let none_of = λ (role : Role) (f : Point → ℕ) (h : f at_place ≡ 0).
      sum_of_zero (of_role role f) s.threads
        (λ k v e. of_role-zero role v.role f v.number v.point (ap f (place k v e) ∙ h)) in
    let no_space : s.sem_space ≡ 0 = rw (is_p, place i t at_i) at (all i t at_i) in
    let no_data : s.sem_data ≡ 0 = rw (is_c, place j u at_j) at (all j u at_j) in
    omega (
      arith,
      inv.free,
      inv.full,
      no_space,
      no_data,
      none_of productor owing refl,
      none_of consumer owed refl,
      none_of productor owed refl,
      none_of consumer owing refl,
    )
