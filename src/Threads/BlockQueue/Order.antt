-- ===== src/Threads/BlockQueue/Order.antt =====
-- The threads of bite/pthread/pro_con.cpp in any order of their steps.
use linux_note.Base.{
  ℕ, ◌+◌, ◌≤◌, ◌≡◌, refl, ap, ◌∙◌, ◌≢◌, inl, inr, true, false, Option, none, some, [], ◌∷◌, ◌++◌,
  map, arith, Bool-cases, length, get_elem?, set,
}
use mathlib.Core.Path.{subst}
use linux_note.Threads.Crew.{get_elem?-created}
use linux_note.Threads.Picks.{may_pick}
use linux_note.Threads.Entries.{Role, consumer, of_thread, productor, upto}
use linux_note.Threads.BlockQueue.{
  sleeps_on, Point, at_lock, at_test, asleep, awake, at_work, at_unlock, at_signal, at_print,
  Thread, State, Next, waits, fault, goes, must_wait, moved, work, locks, act, turn, start, Reach,
  begin, next, wake_up,
}
use linux_note.Threads.BlockQueue.Invariant.{Fine, Inv, Holds, inside, ahead, not_holder}
use linux_note.Threads.BlockQueue.Steps.{act-Inv, change-Inv}

turn-Inv : (i k : ℕ) (s : State) → Inv s → Holds (turn i k s)
unfolding turn
turn-Inv i k s inv = turn_of (get_elem? s.threads i) refl
  where
    turn_of :
        (o : Option Thread)
        → get_elem? s.threads i ≡ o
        → Holds (elim o [ none ↦ waits | some t ↦ act i k s t t.point ])
    turn_of none e = tt
    turn_of (some t) e = act-Inv i k s t t.point e refl inv

created-Fine :
    (s : State) (j : ℕ) (t : Thread) → s.pushed ≡ [] → t.point ≡ at_lock → t.number ≡ 0 → Fine s j t
created-Fine s j t none_pushed at_start zero_made = (
  λ in_t. let in_start : inside at_lock ≡ true = rw (at_start) at in_t in cc,
  λ at. cc,
  λ is_p. rw (none_pushed, zero_made, at_start) refl,
)

start-Inv : (qmax n m : ℕ) → Inv (start qmax n m)
start-Inv qmax n m = record {
  order = refl;
  few = omega arith;
  crew = λ j t e. elim (get_elem?-created n m _ _ j t e) [
    | inl is_p ↦
        created-Fine (start qmax n m) j t refl (ap (λ u. u.point) is_p) (ap (λ u. u.number) is_p)
    | inr is_c ↦
        created-Fine (start qmax n m) j t refl (ap (λ u. u.point) is_c) (ap (λ u. u.number) is_c)
  ];
}

pub Reach-Inv : (qmax n m : ℕ) (s : State) → Reach qmax n m s → Inv s
Reach-Inv qmax n m s begin = start-Inv qmax n m
Reach-Inv qmax n m s (next {s = before} i k r e) =
    subst Holds e (turn-Inv i k before (Reach-Inv qmax n m before r))
Reach-Inv qmax n m s (wake_up {s = before} role k r) =
    change-Inv before role k (Reach-Inv qmax n m before r)

-- The limit of the queue never changes.
abbrev Keeps : ℕ → Next → Type 0
Keeps n waits = Unit
Keeps n fault = Unit
Keeps n (goes s) = s.capacity ≡ n

locks-Keeps : (i : ℕ) (t : Thread) (s : State) → Keeps s.capacity (locks i t s)
locks-Keeps i t s =
    elim s.holder
      as (λ o. Keeps s.capacity (elim o [
        | none ↦ goes (moved i t at_test (record s { holder = some i }))
        | some j ↦ waits
      ])) [ none ↦ refl | some j ↦ tt ]

work-Keeps : (i : ℕ) (s : State) (t : Thread) (role : Role) → Keeps s.capacity (work i s t role)
unfolding work
work-Keeps i s t productor = refl
work-Keeps i s t consumer =
    elim s.queue
      as (λ q. Keeps s.capacity (elim q [
        | [] ↦ fault
        | x ∷ xs ↦ goes (record s {
          queue = xs;
          popped = s.popped ++ record { by = i; value = x } ∷ [];
          threads = set s.threads i (record t { point = at_unlock; number = x });
        })
      ])) [ [] ↦ tt | x ∷ xs ↦ refl ]

act-Keeps : (i k : ℕ) (s : State) (t : Thread) (p : Point) → Keeps s.capacity (act i k s t p)
unfolding act
act-Keeps i k s t at_lock = locks-Keeps i t s
act-Keeps i k s t at_test = elim (Bool-cases (must_wait t.role (length s.queue) s.capacity)) [
  | inl full ↦ rw (full) refl
  | inr free ↦ rw (free) refl
]
act-Keeps i k s t asleep = tt
act-Keeps i k s t awake = locks-Keeps i t s
act-Keeps i k s t at_work = work-Keeps i s t t.role
act-Keeps i k s t at_unlock = refl
act-Keeps i k s t at_signal =
    elim (Bool-cases
      (may_pick (sleeps_on t.role) k (set s.threads i (record t { point = at_print })))) [
        | inl can ↦ rw (can) refl
        | inr cannot ↦ rw (cannot) tt
      ]
act-Keeps i k s t at_print = refl

turn-Keeps : (i k : ℕ) (s : State) → Keeps s.capacity (turn i k s)
unfolding turn
turn-Keeps i k s =
    elim (get_elem? s.threads i)
      as (λ o. Keeps s.capacity (elim o [ none ↦ waits | some t ↦ act i k s t t.point ])) [
        | none ↦ tt
        | some t ↦ act-Keeps i k s t t.point
      ]

pub Reach-capacity : (qmax n m : ℕ) (s : State) → Reach qmax n m s → s.capacity ≡ qmax
Reach-capacity qmax n m s begin = refl
Reach-capacity qmax n m s (next {s = before} i k r e) =
    subst (Keeps before.capacity) e (turn-Keeps i k before) ∙ Reach-capacity qmax n m before r
Reach-capacity qmax n m s (wake_up {s = before} role k r) = Reach-capacity qmax n m before r

-- For any number of productors and consumers, in every reachable state, whichever threads wake: what was
-- pushed is what was popped followed by the queue, in the same order; the queue is never longer than its
-- limit; each productor has pushed 0, 1, 2 and so on, up to its own count; and no step reads the front of an
-- empty queue.
pub pops_in_order :
    (qmax n m : ℕ) (s : State)
    → Reach qmax n m s
    → (map (λ e. e.value) s.pushed ≡ map (λ e. e.value) s.popped ++ s.queue)
      × (length s.queue ≤ qmax)
      × ((j : ℕ) (t : Thread)
          → get_elem? s.threads j ≡ some t
          → t.role ≡ productor
          → of_thread j s.pushed ≡ upto (t.number + ahead t.point))
      × ((i k : ℕ) → turn i k s ≢ fault)
pops_in_order qmax n m s r =
    let inv = Reach-Inv qmax n m s r in
    (
      inv.order,
      omega (arith, inv.few, Reach-capacity qmax n m s r),
      λ j t e. (inv.crew j t e).2,
      λ i k e. subst Holds e (turn-Inv i k s inv),
    )

-- For any number of threads, in every reachable state: while one thread stands between
-- `pthread_mutex_lock` and `pthread_mutex_unlock`, and not in `pthread_cond_wait`, no other does.
one_inside :
    (qmax n m : ℕ) (s : State) (i j : ℕ) (t u : Thread)
    → Reach qmax n m s
    → i ≢ j
    → get_elem? s.threads i ≡ some t
    → get_elem? s.threads j ≡ some u
    → inside t.point ≡ true
    → inside u.point ≡ false
one_inside qmax n m s i j t u r apart at_i at_j in_t =
    let inv = Reach-Inv qmax n m s r in
    elim (Bool-cases (inside u.point)) [
      | inl in_u ↦
          absurd (
            not_holder i j s.holder ((inv.crew i t at_i).0 in_t) apart ((inv.crew j u at_j).0 in_u))
      | inr out_u ↦ out_u
    ]
