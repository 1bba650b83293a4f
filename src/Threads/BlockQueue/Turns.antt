-- ===== src/Threads/BlockQueue/Turns.antt =====
-- The lock, the wait and the work of a thread of bite/pthread/pro_con.cpp, with who goes on.
use linux_note.Base.{
  ℕ, ◌≡◌, refl, sym, ap, ◌∙◌, ◌⊎◌, inl, inr, Bool, true, false, ◌&&◌, Option, none, some, List, [],
  ◌∷◌, ◌++◌, length, get_elem?, set,
}
use linux_note.Threads.Crew.{get_elem?-set_self}
use linux_note.Threads.Picks.{Found, Found-set}
use linux_note.Threads.Entries.{Role, productor, consumer}
use linux_note.Threads.BlockQueue.{
  at_test, asleep, at_unlock, Thread, State, waits, fault, goes, must_wait, moved, work, locks,
}
use linux_note.Threads.BlockQueue.Invariant.{inside}
use linux_note.Threads.BlockQueue.Awake.{
  role_is, other, is_signalling, stands_inside, IsAwake, Live, Goes, IsAwake-set, step-Live,
  still_signals, moves-Live,
}

-- The thread that has locked holds the mutex where it stands.
Found-self :
    (p : Thread → Bool) (ts : List Thread) (i j : ℕ) (t t' : Thread)
    → get_elem? ts i ≡ some t
    → p t' ≡ true
    → i ≡ j
    → Found p (set ts i t') j
Found-self p ts i j t t' at_i has same =
    (t', ap (get_elem? (set ts i t')) (sym same) ∙ get_elem?-set_self ts i t t' at_i, has)

pub some_inj : (i j : ℕ) → some i ≡ some j → i ≡ j
some_inj i j e = ap (λ (o : Option ℕ). elim o [ none ↦ 0 | some k ↦ k ]) e

pub locks-Goes :
    (i : ℕ) (s : State) (t : Thread)
    → get_elem? s.threads i ≡ some t
    → is_signalling t.point ≡ false
    → Live s
    → Goes (locks i t s)
locks-Goes i s t at_i quiet live =
    elim s.holder
      as (λ o. Goes (elim o [
        | none ↦ goes (moved i t at_test (record s { holder = some i }))
        | some j ↦ waits
      ])) [
        | some j ↦ tt
        | none ↦
            moves-Live i t.number s t at_test (some i) at_i refl (λ h. cc)
              (λ j is_j.
                Found-self stands_inside s.threads i j t (record t { point = at_test }) at_i refl
                  (some_inj i j is_j))
              live
      ]

role_is_lem : (r q : Role) → role_is r q ≡ true → r ≡ q
role_is_lem productor productor h = refl
role_is_lem consumer consumer h = refl
role_is_lem productor consumer h = cc
role_is_lem consumer productor h = cc

pub role_cases :
    (r q : Role) → (role_is r q ≡ true) ⊎ ((role_is (other r) q ≡ true) × (other q ≡ r))
role_cases productor productor = inl refl
role_cases productor consumer = inr (refl, refl)
role_cases consumer productor = inr (refl, refl)
role_cases consumer consumer = inl refl

and_left : (a b : Bool) → (a && b) ≡ true → a ≡ true
and_left true b h = refl
and_left false b h = h

-- A thread falls asleep where the queue does not let its role work.
pub sleeps-Live :
    (i : ℕ) (s : State) (t : Thread)
    → get_elem? s.threads i ≡ some t
    → t.point ≡ at_test
    → must_wait t.role (length s.queue) s.capacity ≡ true
    → Live s
    → Live (moved i t asleep (record s { holder = none }))
sleeps-Live i s t at_i here full live =
    step-Live i s t (record t { point = asleep }) none s.queue s.pushed s.popped at_i refl
      (λ j is_j. cc)
      (λ r free.
        IsAwake-set r s.threads i t (record t { point = asleep }) at_i
          (λ up.
            let same = role_is_lem r t.role (and_left (role_is r t.role) _ up) in
            let busy : must_wait r (length s.queue) s.capacity ≡ true = rw (same) full in cc)
          (still_signals (role_is (other r) t.role) (is_signalling t.point) false
            (λ h. let quiet : is_signalling t.point ≡ false = rw (here) refl in cc))
          (live.awake r free))
      live

-- The thread that has worked is up, and is going to signal the other role.
works-IsAwake :
    (r : Role) (ts : List Thread) (i n : ℕ) (t : Thread)
    → get_elem? ts i ≡ some t
    → IsAwake r (set ts i (record t { point = at_unlock; number = n }))
works-IsAwake r ts i n t at_i =
    let t' : Thread = record t { point = at_unlock; number = n } in
    let at_i' = get_elem?-set_self ts i t t' at_i in
    elim (role_cases r t.role) [
      | inl same ↦ inl (i, (t', at_i', rw (same) refl))
      | inr (differs, _) ↦ inr (i, (t', at_i', rw (differs) refl))
    ]

-- The holder stays inside.
pub back-set :
    (i j : ℕ) (s : State) (t t' : Thread)
    → get_elem? s.threads i ≡ some t
    → (inside t.point ≡ true → inside t'.point ≡ true)
    → Live s
    → s.holder ≡ some j
    → Found stands_inside (set s.threads i t') j
back-set i j s t t' at_i keeps live is_j =
    Found-set stands_inside s.threads i j t t' at_i (λ e. keeps) (live.back j is_j)

pub work-Goes :
    (i : ℕ) (s : State) (t : Thread) (role : Role)
    → get_elem? s.threads i ≡ some t
    → Live s
    → Goes (work i s t role)
unfolding work
work-Goes i s t productor at_i live =
    step-Live i s t (record t { point = at_unlock }) s.holder (s.queue ++ t.number ∷ [])
      (s.pushed ++ record { by = i; value = t.number } ∷ []) s.popped at_i refl
      (λ j is_j. back-set i j s t (record t { point = at_unlock }) at_i (λ h. refl) live is_j)
      (λ r free. works-IsAwake r s.threads i t.number t at_i) live
work-Goes i s t consumer at_i live =
    elim s.queue
      as (λ q. Goes (elim q [
        | [] ↦ fault
        | x ∷ xs ↦ goes (record s {
          queue = xs;
          popped = s.popped ++ record { by = i; value = x } ∷ [];
          threads = set s.threads i (record t { point = at_unlock; number = x });
        })
      ])) [
        | [] ↦ tt
        | x ∷ xs ↦
            step-Live i s t (record t { point = at_unlock; number = x }) s.holder xs s.pushed
              (s.popped ++ record { by = i; value = x } ∷ []) at_i refl
              (λ j is_j.
                back-set i j s t (record t { point = at_unlock; number = x }) at_i (λ h. refl) live
                  is_j)
              (λ r free. works-IsAwake r s.threads i x t at_i) live
      ]
