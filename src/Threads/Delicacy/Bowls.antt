-- ===== src/Threads/Delicacy/Bowls.antt =====
-- The bowls of bite/pthread/cond.c in any order of the steps of the threads.
use linux_note.Base.{
  ℕ, ◌+◌, ◌≤◌, ◌≡◌, refl, ap, ◌∙◌, inl, inr, Bool, true, false, Option, none, some, arith,
  if◌then◌else◌, Bool-cases, get_elem?, ◌>>=◌,
}
use mathlib.Core.Path.{subst}
use linux_note.Threads.Delicacy.{
  Role, gourmet, chief, Point, at_lock, at_test, asleep, awake, at_work, at_unlock, at_signal,
  Thread, Kitchen, must_wait, move_to, work, act, turn, start, Reach, begin, next, wake_up,
}
use linux_note.Threads.Delicacy.Crowd.{
  inside, all_inside, IsFine, holders, Inv, Holds, all_inside-move_to, IsFine-outside,
  AllFine-move_to, inside-le, AllFine-change, all_inside-wake_at, AllFine-wake_at, locked_of_inside,
  work-IsFine, work-few, work-locked, IsFine-outside-unlock, AllFine-get,
}

module _ (i k : ℕ) (s : Kitchen) (inv : Inv s) (t : Thread)
    (e : get_elem? s.threads i ≡ some t) where
  -- A move to `q` that leaves the bowls, with `l` for the lock after it.
  move-Inv :
      (l : Bool) (role : Role) (p q : Point)
      → t.point ≡ p
      → IsFine s.have_delicacy role q
      → holders s.locked + inside q ≡ holders l + inside p
      → Inv (record s { locked = l; threads = move_to i role q s.threads })
  move-Inv l role p q at_p h same =
      let moved = all_inside-move_to s.threads i role q t e in
      record {
        few = inv.few;
        total = inv.total;
        holder = omega (arith, inv.holder, moved, ap inside at_p, same);
        fine = AllFine-move_to s.have_delicacy s.threads i role q h inv.fine;
      }

  -- The thread takes the lock, at first or after it was woken.
  lock-Inv :
      (role : Role) (p : Point)
      → t.point ≡ p
      → inside p ≡ 0
      → Holds (
          if s.locked
          then none
          else some (record s { locked = true; threads = move_to i role at_test s.threads }))
  lock-Inv role p at_p out = elim (Bool-cases s.locked) [
    | inl taken ↦ rw (taken) tt
    | inr open_now ↦ rw (open_now) (
        move-Inv true role p at_test at_p (IsFine-any role)
          (omega (arith, out, ap holders open_now)))
  ]
    where
      IsFine-any : (r : Role) → IsFine s.have_delicacy r at_test
      IsFine-any gourmet = tt
      IsFine-any chief = tt

  inside_one : inside t.point ≡ 1 → (all_inside s.threads ≡ 1) × (holders s.locked ≡ 1)
  inside_one is_in =
      let here = inside-le s.threads i t e in
      let one =
        locked_of_inside s.locked (all_inside s.threads) inv.holder (omega (arith, here, is_in)) in
      (one, omega (arith, inv.holder, one))

  act-Inv : (role : Role) (p : Point) → t.role ≡ role → t.point ≡ p → Holds (act i k s role p)
  unfolding act
  act-Inv role at_lock at_role at_p = lock-Inv role at_lock at_p refl
  act-Inv role awake at_role at_p = lock-Inv role awake at_p refl
  act-Inv role asleep at_role at_p = tt
  act-Inv role at_test at_role at_p =
      let one = (inside_one (ap inside at_p)).1 in
      elim (Bool-cases (must_wait role s.have_delicacy)) [
        | inl stops ↦ rw (stops) (
            move-Inv false role at_test asleep at_p
              (IsFine-outside s.have_delicacy role asleep refl) (omega (arith, one)))
        | inr goes ↦ rw (goes) (
            move-Inv s.locked role at_test at_work at_p
              (work-IsFine s.have_delicacy role inv.few goes) (omega arith))
      ]
  act-Inv role at_work at_role at_p =
      let h : IsFine s.have_delicacy role at_work =
        rw (at_role, at_p) at (AllFine-get s.have_delicacy s.threads i t e inv.fine) in
      let (few, total) = work-few s role h inv.total in
      let is_in = ap inside at_p in
      let (all, held) = inside_one is_in in
      let moved = all_inside-move_to s.threads i role at_unlock t e in
      record {
        few = few;
        total = total;
        holder = omega (arith, moved, all, is_in, held, ap holders (work-locked role s));
        fine =
            AllFine-change (work role s).have_delicacy s.threads i role at_unlock t e is_in all
              (IsFine-outside-unlock (work role s).have_delicacy role);
      }
  act-Inv role at_unlock at_role at_p =
      let one = (inside_one (ap inside at_p)).1 in
      move-Inv false role at_unlock at_signal at_p
        (IsFine-outside s.have_delicacy role at_signal refl) (omega (arith, one))
  act-Inv role at_signal at_role at_p =
      let moved =
        move-Inv s.locked role at_signal at_lock at_p
          (IsFine-outside s.have_delicacy role at_lock refl) (omega arith) in
      let ts = move_to i role at_lock s.threads in
      record {
        few = moved.few;
        total = moved.total;
        holder = all_inside-wake_at role ts k ∙ moved.holder;
        fine = AllFine-wake_at s.have_delicacy role ts k moved.fine;
      }

turn-Inv : (i k : ℕ) (s : Kitchen) → Inv s → Holds (turn i k s)
unfolding turn
turn-Inv i k s inv =
    at_thread (get_elem? s.threads i) (λ t e. act-Inv i k s inv t e t.role t.point refl refl)
  where
    at_thread :
        (o : Option Thread)
        → ((t : Thread) → o ≡ some t → Holds (act i k s t.role t.point))
        → Holds (o >>= (λ t. act i k s t.role t.point))
    at_thread none h = tt
    at_thread (some t) h = h t refl

start-Inv : Inv start
start-Inv = record { few = omega arith; total = refl; holder = refl; fine = search tt depth 20 }

Reach-Inv : (s : Kitchen) → Reach s → Inv s
Reach-Inv s begin = start-Inv
Reach-Inv s (next {s = before} i k r e) = subst Holds e (turn-Inv i k before (Reach-Inv before r))
Reach-Inv s' (wake_up {s = s} role k r) =
    let inv = Reach-Inv s r in
    record {
      few = inv.few;
      total = inv.total;
      holder = all_inside-wake_at role s.threads k ∙ inv.holder;
      fine = AllFine-wake_at s.have_delicacy role s.threads k inv.fine;
    }

-- In every reachable state, whichever threads wake and when: there is at most one bowl, and the bowls
-- cooked are those eaten and the one that is there. So what is eaten was cooked, and no second bowl is
-- cooked before the first is eaten.
pub bowls_alternate :
    (s : Kitchen)
    → Reach s
    → (s.have_delicacy ≤ 1)
      × (s.eaten + s.have_delicacy ≡ s.cooked)
      × (s.eaten ≤ s.cooked)
      × (s.cooked ≤ s.eaten + 1)
bowls_alternate s r =
    let inv = Reach-Inv s r in
    (inv.few, inv.total, omega (arith, inv.total), omega (arith, inv.total, inv.few))
