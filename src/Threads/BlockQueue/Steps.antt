-- ===== src/Threads/BlockQueue/Steps.antt =====
-- The steps of a thread of bite/pthread/pro_con.cpp.
use linux_note.Base.{
  ℕ, ◌+◌, ◌≡◌, refl, sym, ap, ◌∙◌, ◌⊎◌, inl, inr, true, false, Option, none, some, List, arith,
  Bool-cases, length, get_elem?, set,
}
use mathlib.Core.Path.{subst}
use linux_note.Threads.Crew.{Each-change, change}
use linux_note.Threads.Picks.{may_pick}
use linux_note.Threads.Entries.{Role, consumer, of_thread, productor, upto}
use linux_note.Threads.BlockQueue.{
  sleeps_on, Point, at_lock, at_test, asleep, awake, at_work, at_unlock, at_signal, at_print,
  Thread, State, waits, goes, must_wait, wakes, moved, printed, locks, act,
}
use linux_note.Threads.BlockQueue.Works.{works-Inv}
use linux_note.Threads.BlockQueue.Invariant.{
  Fine, Inv, Holds, inside, ahead, at_work-inside, others-Fine, not_holder, moves-Inv,
}

-- `pthread_mutex_lock`.
locks-Inv :
    (i : ℕ) (s : State) (t : Thread)
    → get_elem? s.threads i ≡ some t
    → ahead t.point ≡ 0
    → Inv s
    → Holds (locks i t s)
locks-Inv i s t at_i no_push inv = locked_by s.holder refl
  where
    locked_by :
        (o : Option ℕ)
        → s.holder ≡ o
        → Holds (elim o [
          | none ↦ goes (moved i t at_test (record s { holder = some i }))
          | some j ↦ waits
        ])
    locked_by (some j) e = tt
    locked_by none e =
        moves-Inv i s t (record t { point = at_test }) (some i) at_i
          (λ _. refl, λ at. cc, λ is_p. (inv.crew i t at_i).2 is_p ∙ rw (no_push) refl)
          (λ j u apart. others-Fine s (record s { holder = some i }) j u (λ is_j. cc) refl) inv

-- The thread that holds the mutex gives it back.
unlocks-Inv :
    (i : ℕ) (s : State) (t : Thread) (p : Point)
    → get_elem? s.threads i ≡ some t
    → inside t.point ≡ true
    → inside p ≡ false
    → ahead p ≡ ahead t.point
    → Inv s
    → Inv (moved i t p (record s { holder = none }))
unlocks-Inv i s t p at_i was_in is_out same inv =
    let mine = inv.crew i t at_i in
    moves-Inv i s t (record t { point = p }) none at_i
      (λ in_p. cc, λ at. let in_p = at_work-inside p at in cc, λ is_p. mine.2 is_p ∙ rw (same) refl)
      (λ j u apart.
        others-Fine s (record s { holder = none }) j u
          (not_holder i j s.holder (mine.0 was_in) apart) refl)
      inv

-- The thread that holds the mutex goes to its work.
tests-Inv :
    (i : ℕ) (s : State) (t : Thread)
    → get_elem? s.threads i ≡ some t
    → t.point ≡ at_test
    → must_wait t.role (length s.queue) s.capacity ≡ false
    → Inv s
    → Inv (moved i t at_work s)
tests-Inv i s t at_i here free inv =
    let mine = inv.crew i t at_i in
    moves-Inv i s t (record t { point = at_work }) s.holder at_i
      (λ _. mine.0 (rw (here) refl), λ _. free, λ is_p. mine.2 is_p ∙ rw (here) refl)
      (λ j u apart h. h) inv

-- `pthread_cond_signal`, and a return of `pthread_cond_wait`.
wakes-cases :
    (role r : Role) (p : Point) (n : ℕ)
    → let t : Thread = record { role = r; point = p; number = n } in
      (wakes role t ≡ t) ⊎ ((p ≡ asleep) × (wakes role t ≡ record t { point = awake }))
unfolding wakes
wakes-cases productor consumer asleep n = inr (refl, refl)
wakes-cases consumer productor asleep n = inr (refl, refl)
wakes-cases role r p n = ground arith

wakes-Fine : (s : State) (role : Role) (j : ℕ) (t : Thread) → Fine s j t → Fine s j (wakes role t)
wakes-Fine s role j t h = elim (wakes-cases role t.role t.point t.number) [
  | inl same ↦ subst (Fine s j) (sym same) h
  | inr (sleeps, woken) ↦
      subst (Fine s j) (sym woken) (λ in_p. cc, λ at. cc, λ is_p. h.2 is_p ∙ rw (sleeps) refl)
]

pub change-Inv :
    (s : State) (role : Role) (k : ℕ)
    → Inv s
    → Inv (record s { threads = change (wakes role) s.threads k })
change-Inv s role k inv = record {
  order = inv.order;
  few = inv.few;
  crew = Each-change (Fine s) (wakes role) s.threads k (wakes-Fine s role) inv.crew;
}

prints-series :
    (role : Role) (n : ℕ) (l : List ℕ)
    → (role ≡ productor → l ≡ upto (n + 1))
    → role ≡ productor
    → l ≡ upto (printed role n + 0)
prints-series productor n l h is_p =
    let same : n + 1 ≡ n + 1 + 0 = omega arith in h refl ∙ ap upto same
prints-series consumer n l h is_p = cc

pub act-Inv :
    (i k : ℕ) (s : State) (t : Thread) (p : Point)
    → get_elem? s.threads i ≡ some t
    → t.point ≡ p
    → Inv s
    → Holds (act i k s t p)
unfolding act
act-Inv i k s t at_lock at_i here inv = locks-Inv i s t at_i (rw (here) refl) inv
act-Inv i k s t at_test at_i here inv =
    elim (Bool-cases (must_wait t.role (length s.queue) s.capacity)) [
      | inl full ↦
          rw (full) (unlocks-Inv i s t asleep at_i (rw (here) refl) refl (rw (here) refl) inv)
      | inr free ↦ rw (free) (tests-Inv i s t at_i here free inv)
    ]
act-Inv i k s t asleep at_i here inv = tt
act-Inv i k s t awake at_i here inv = locks-Inv i s t at_i (rw (here) refl) inv
act-Inv i k s t at_work at_i here inv = works-Inv i s t t.role at_i here refl inv
act-Inv i k s t at_unlock at_i here inv =
    unlocks-Inv i s t at_signal at_i (rw (here) refl) refl (rw (here) refl) inv
act-Inv i k s t at_signal at_i here inv =
    elim (Bool-cases
      (may_pick (sleeps_on t.role) k (set s.threads i (record t { point = at_print })))) [
        | inr cannot ↦ rw (cannot) tt
        | inl can ↦ rw (can) (
            change-Inv (record s { threads = set s.threads i (record t { point = at_print }) })
              t.role k
              (moves-Inv i s t (record t { point = at_print }) s.holder at_i
                (λ in_p. cc, λ at. cc, λ is_p. (inv.crew i t at_i).2 is_p ∙ rw (here) refl)
                (λ j u apart h. h) inv))
      ]
act-Inv i k s t at_print at_i here inv =
    moves-Inv i s t (record t { point = at_lock; number = printed t.role t.number }) s.holder at_i
      (
        λ in_p. cc,
        λ at. cc,
        prints-series t.role t.number (of_thread i s.pushed)
            (λ is_p. (inv.crew i t at_i).2 is_p ∙ rw (here) refl),
      )
      (λ j u apart h. h) inv
