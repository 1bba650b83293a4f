-- ===== src/Threads/BlockQueue/Stuck.antt =====
-- The threads of bite/pthread/pro_con.cpp never all wait.
use linux_note.Base.{
  ℕ, zero, suc, ◌<◌, ◌≡◌, refl, ◌≢◌, ◌⊎◌, inl, inr, true, false, ◌&&◌, Option, none, some, List, [],
  ◌∷◌, ◌++◌, arith, Bool-cases, length, get_elem?, set, replicate,
}
use mathlib.Core.Path.{subst}
use linux_note.Threads.Picks.{Found, can_pick}
use linux_note.Threads.Entries.{Role, productor, consumer}
use linux_note.Threads.BlockQueue.{
  Point, at_lock, at_test, asleep, awake, at_work, at_unlock, at_signal, at_print, Thread, State,
  Next, waits, goes, must_wait, sleeps_on, work, locks, act, turn, start, Reach, begin, next,
  wake_up,
}
use linux_note.Threads.BlockQueue.Invariant.{inside, Fine, Inv}
use linux_note.Threads.BlockQueue.Order.{Reach-Inv, Reach-capacity}
use linux_note.Threads.BlockQueue.Awake.{role_is, other, is_up, has_role, IsAwake, Live, Goes}
use linux_note.Threads.BlockQueue.Signals.{act-Goes, change-Live}

turn-Goes : (i k : ℕ) (s : State) → Live s → Goes (turn i k s)
unfolding turn
turn-Goes i k s live = turn_of (get_elem? s.threads i) refl
  where
    turn_of :
        (o : Option Thread)
        → get_elem? s.threads i ≡ o
        → Goes (elim o [ none ↦ waits | some t ↦ act i k s t t.point ])
    turn_of none e = tt
    turn_of (some t) e = act-Goes i k s t t.point e refl live

first_created :
    (n : ℕ) (a : Thread) (ts : List Thread) → 0 < n → get_elem? (replicate n a ++ ts) 0 ≡ some a
first_created zero a ts h = absurd (omega (arith, h))
first_created (suc n) a ts h = refl

second_created :
    (n m : ℕ) (a b : Thread) → 0 < m → get_elem? (replicate n a ++ replicate m b) n ≡ some b
second_created zero zero a b h = absurd (omega (arith, h))
second_created zero (suc m) a b h = refl
second_created (suc n) m a b h = second_created n m a b h

created :
    (qmax n m : ℕ) (r : Role)
    → 0 < n
    → 0 < m
    → ((j : ℕ) × Found (has_role r) (start qmax n m).threads j)
      × ((j : ℕ) × Found (is_up r) (start qmax n m).threads j)
created qmax n m productor some_p some_c =
    let p : Thread = record { role = productor; point = at_lock; number = 0 } in
    let c : Thread = record { role = consumer; point = at_lock; number = 0 } in
    let at_0 = first_created n p (replicate m c) some_p in
    ((0, (p, at_0, refl)), (0, (p, at_0, refl)))
created qmax n m consumer some_p some_c =
    let p : Thread = record { role = productor; point = at_lock; number = 0 } in
    let c : Thread = record { role = consumer; point = at_lock; number = 0 } in
    let at_n = second_created n m p c some_c in ((n, (c, at_n, refl)), (n, (c, at_n, refl)))

start-Live : (qmax n m : ℕ) → 0 < n → 0 < m → Live (start qmax n m)
start-Live qmax n m some_p some_c = record {
  back = λ j e. cc;
  somebody = λ r. (created qmax n m r some_p some_c).0;
  awake = λ r free. inl (created qmax n m r some_p some_c).1;
}

Reach-Live : (qmax n m : ℕ) (s : State) → 0 < n → 0 < m → Reach qmax n m s → Live s
Reach-Live qmax n m s some_p some_c begin = start-Live qmax n m some_p some_c
Reach-Live qmax n m s some_p some_c (next {s = before} i k r e) =
    subst Goes e (turn-Goes i k before (Reach-Live qmax n m before some_p some_c r))
Reach-Live qmax n m s some_p some_c (wake_up {s = before} role k r) =
    change-Live before role k (Reach-Live qmax n m before some_p some_c r)

abbrev DoesGo : Next → Type 0
DoesGo n = (s' : State) × (n ≡ goes s')

work-DoesGo :
    (i : ℕ) (s : State) (t : Thread) (role : Role) (q : List ℕ)
    → s.queue ≡ q
    → must_wait role (length q) s.capacity ≡ false
    → DoesGo (work i s t role)
unfolding work
work-DoesGo i s t productor q e free = (_, refl)
work-DoesGo i s t consumer [] e free = cc
work-DoesGo i s t consumer (x ∷ xs) e free = rw (e) (_, refl)

locks-DoesGo : (i : ℕ) (s : State) (t : Thread) → s.holder ≡ none → DoesGo (locks i t s)
locks-DoesGo i s t free = rw (free) (_, refl)

-- A thread goes on where it holds the mutex.
inside-DoesGo :
    (i : ℕ) (s : State) (t : Thread) (p : Point)
    → t.point ≡ p
    → inside p ≡ true
    → Fine s i t
    → DoesGo (act i 0 s t p)
unfolding act
inside-DoesGo i s t at_test here h fine = (_, refl)
inside-DoesGo i s t at_work here h fine = work-DoesGo i s t t.role s.queue refl (fine.1 here)
inside-DoesGo i s t at_unlock here h fine = (_, refl)
inside-DoesGo i s t at_lock here h fine = cc
inside-DoesGo i s t asleep here h fine = cc
inside-DoesGo i s t awake here h fine = cc
inside-DoesGo i s t at_signal here h fine = cc
inside-DoesGo i s t at_print here h fine = cc

-- A thread goes on where nobody holds the mutex and it is not asleep.
free-DoesGo :
    (i : ℕ) (s : State) (t : Thread) (p : Point)
    → t.point ≡ p
    → s.holder ≡ none
    → Fine s i t
    → (p ≡ asleep) ⊎ ((k : ℕ) × DoesGo (act i k s t p))
unfolding act
free-DoesGo i s t at_lock here free fine = inr (0, locks-DoesGo i s t free)
free-DoesGo i s t at_test here free fine = inr (0, (_, refl))
free-DoesGo i s t asleep here free fine = inl refl
free-DoesGo i s t awake here free fine = inr (0, locks-DoesGo i s t free)
free-DoesGo i s t at_work here free fine =
    inr (0, work-DoesGo i s t t.role s.queue refl (fine.1 here))
free-DoesGo i s t at_unlock here free fine = inr (0, (_, refl))
free-DoesGo i s t at_signal here free fine =
    let (k, may) = can_pick (sleeps_on t.role) (set s.threads i (record t { point = at_print })) in
    inr (k, rw (may) (_, refl))
free-DoesGo i s t at_print here free fine = inr (0, (_, refl))

-- No thread can take a step.
abbrev pub IsStuck : State → Type 0
IsStuck s = (i k : ℕ) (s' : State) → turn i k s ≢ goes s'

stuck_thread :
    (i k : ℕ) (s : State) (t : Thread)
    → IsStuck s
    → get_elem? s.threads i ≡ some t
    → ¬ DoesGo (act i k s t t.point)
unfolding turn
stuck_thread i k s t stuck at_i (s', e) = stuck i k s' (rw (turn, at_i) e)

stuck-free :
    (s : State) (o : Option ℕ) → s.holder ≡ o → IsStuck s → Inv s → Live s → s.holder ≡ none
stuck-free s none e stuck inv live = e
stuck-free s (some i) e stuck inv live =
    let (t, at_i, in_t) = live.back i e in
    absurd
      (stuck_thread i 0 s t stuck at_i (inside-DoesGo i s t t.point refl in_t (inv.crew i t at_i)))

-- A thread that is asleep is not up, and is not going to signal.
none-IsAwake :
    (r : Role) (ts : List Thread)
    → ((j : ℕ) (t : Thread) → get_elem? ts j ≡ some t → t.point ≡ asleep)
    → ¬ IsAwake r ts
none-IsAwake r ts all_asleep (inl (j, (t, at_j, up))) =
    let down : (role_is r t.role && false) ≡ true = rw (all_asleep j t at_j) at up in
    ground (arith, down)
none-IsAwake r ts all_asleep (inr (j, (t, at_j, signal))) =
    let quiet : (role_is (other r) t.role && false) ≡ true = rw (all_asleep j t at_j) at signal in
    ground (arith, quiet)

-- For any number of productors, consumers and places above 0: in no reachable state is it that no thread can
-- take a step. So no signal is lost, and the threads never block each other.
pub never_stuck :
    (qmax n m : ℕ) (s : State) → 0 < qmax → 0 < n → 0 < m → Reach qmax n m s → ¬ IsStuck s
never_stuck qmax n m s some_place some_p some_c r stuck =
    let inv = Reach-Inv qmax n m s r in
    let live = Reach-Live qmax n m s some_p some_c r in
    let free = stuck-free s s.holder refl stuck inv live in
    let all_asleep : (j : ℕ) (t : Thread) → get_elem? s.threads j ≡ some t → t.point ≡ asleep =
      λ j t at_j. elim (free-DoesGo j s t t.point refl free (inv.crew j t at_j)) [
        | inl e ↦ e
        | inr (k, can_go) ↦ absurd (stuck_thread j k s t stuck at_j can_go)
      ] in
    elim (Bool-cases (must_wait consumer (length s.queue) s.capacity)) [
      | inr free_c ↦ none-IsAwake consumer s.threads all_asleep (live.awake consumer free_c)
      | inl none_left ↦
          let free_p : must_wait productor (length s.queue) s.capacity ≡ false =
            ground (arith, none_left, some_place, Reach-capacity qmax n m s r) in
          none-IsAwake productor s.threads all_asleep (live.awake productor free_p)
    ]
