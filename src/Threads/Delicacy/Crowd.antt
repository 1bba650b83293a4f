-- ===== src/Threads/Delicacy/Crowd.antt =====
-- Lists of the threads of bite/pthread/cond.c, with the number of those that hold the lock.
use linux_note.Base.{
  ℕ, zero, suc, ◌+◌, ◌≤◌, ◌<◌, ◌≡◌, refl, ap, Bool, true, false, Option, none, some, List, [], ◌∷◌,
  arith, get_elem?,
}
use mathlib.Core.Path.{subst}
use linux_note.Threads.Delicacy.{
  Role, gourmet, chief, Point, at_test, at_work, at_unlock, Thread, Kitchen, must_wait, move_to,
  wakes, work, wake_at,
}

-- 1 for a thread that holds the lock.
abbrev pub inside : Point → ℕ
inside at_test = 1
inside at_work = 1
inside at_unlock = 1
inside _ = 0

abbrev pub all_inside : List Thread → ℕ
all_inside [] = 0
all_inside (t ∷ ts) = inside t.point + all_inside ts

-- The number of bowls that a thread relies on at its work.
abbrev pub IsFine : ℕ → Role → Point → Type 0
IsFine n gourmet at_work = n ≡ 1
IsFine n chief at_work = n ≡ 0
IsFine n role point = Unit

abbrev AllFine : ℕ → List Thread → Type 0
AllFine n [] = Unit
AllFine n (t ∷ ts) = IsFine n t.role t.point × AllFine n ts

abbrev pub holders : Bool → ℕ
holders true = 1
holders false = 0

pub record Inv (s : Kitchen) : Type 0 where
  pub few : s.have_delicacy ≤ 1
  pub total : s.eaten + s.have_delicacy ≡ s.cooked
  pub holder : all_inside s.threads ≡ holders s.locked
  pub fine : AllFine s.have_delicacy s.threads

abbrev pub Holds : Option Kitchen → Type 0
Holds none = Unit
Holds (some s) = Inv s

pub all_inside-move_to :
    (ts : List Thread) (i : ℕ) (role : Role) (q : Point) (t : Thread)
    → get_elem? ts i ≡ some t
    → all_inside (move_to i role q ts) + inside t.point ≡ all_inside ts + inside q
all_inside-move_to [] i role q t e = cc
all_inside-move_to (x ∷ ts) zero role q t e = let same : x ≡ t = cc in rw (same) omega arith
all_inside-move_to (x ∷ ts) (suc i) role q t e =
    let rest = all_inside-move_to ts i role q t e in omega (arith, rest)

pub IsFine-outside : (m : ℕ) (role : Role) (p : Point) → inside p ≡ 0 → IsFine m role p
IsFine-outside m gourmet p out = ground (arith, out)
IsFine-outside m chief p out = ground (arith, out)

AllFine-outside : (m : ℕ) (ts : List Thread) → all_inside ts ≡ 0 → AllFine m ts
AllFine-outside m [] out = tt
AllFine-outside m (t ∷ ts) out = (
  IsFine-outside m t.role t.point (omega (arith, out)),
  AllFine-outside m ts (omega (arith, out)),
)

-- A thread outside moves.
pub AllFine-move_to :
    (n : ℕ) (ts : List Thread) (i : ℕ) (role : Role) (q : Point)
    → IsFine n role q
    → AllFine n ts
    → AllFine n (move_to i role q ts)
AllFine-move_to n [] i role q h fine = tt
AllFine-move_to n (x ∷ ts) zero role q h fine = (h, fine.1)
AllFine-move_to n (x ∷ ts) (suc i) role q h fine = (fine.0, AllFine-move_to n ts i role q h fine.1)

pub inside-le :
    (ts : List Thread) (i : ℕ) (t : Thread)
    → get_elem? ts i ≡ some t
    → inside t.point ≤ all_inside ts
inside-le [] i t e = cc
inside-le (x ∷ ts) zero t e = let same : x ≡ t = cc in rw (same) omega arith
inside-le (x ∷ ts) (suc i) t e = let rest = inside-le ts i t e in omega (arith, rest)

-- The one thread inside changes the number of bowls to `m`.
pub AllFine-change :
    (m : ℕ) (ts : List Thread) (i : ℕ) (role : Role) (q : Point) (t : Thread)
    → get_elem? ts i ≡ some t
    → inside t.point ≡ 1
    → all_inside ts ≡ 1
    → IsFine m role q
    → AllFine m (move_to i role q ts)
AllFine-change m [] i role q t e is_in one h = tt
AllFine-change m (x ∷ ts) zero role q t e is_in one h =
    let same : x ≡ t = cc in
    let in_x : inside x.point ≡ 1 = rw (same) is_in in
    (h, AllFine-outside m ts (omega (arith, one, in_x)))
AllFine-change m (x ∷ ts) (suc i) role q t e is_in one h =
    let rest = inside-le ts i t e in
    (
      IsFine-outside m x.role x.point (omega (arith, one, rest, is_in)),
      AllFine-change m ts i role q t e is_in (omega (arith, one, rest, is_in)) h,
    )

-- A signal.
inside-wakes : (role : Role) (t : Thread) → inside (wakes role t).point ≡ inside t.point
unfolding wakes
inside-wakes role t = ground arith

IsFine-wakes :
    (n : ℕ) (role : Role) (t : Thread)
    → IsFine n t.role t.point
    → IsFine n (wakes role t).role (wakes role t).point
unfolding wakes
IsFine-wakes n role t h = ground (arith, h)

pub all_inside-wake_at :
    (role : Role) (ts : List Thread) (k : ℕ) → all_inside (wake_at role ts k) ≡ all_inside ts
all_inside-wake_at role [] k = refl
all_inside-wake_at role (t ∷ ts) zero = ap (λ n. n + all_inside ts) (inside-wakes role t)
all_inside-wake_at role (t ∷ ts) (suc k) =
    ap (λ n. inside t.point + n) (all_inside-wake_at role ts k)

pub AllFine-wake_at :
    (n : ℕ) (role : Role) (ts : List Thread) (k : ℕ) → AllFine n ts → AllFine n (wake_at role ts k)
AllFine-wake_at n role [] k h = tt
AllFine-wake_at n role (t ∷ ts) zero h = (IsFine-wakes n role t h.0, h.1)
AllFine-wake_at n role (t ∷ ts) (suc k) h = (h.0, AllFine-wake_at n role ts k h.1)

pub locked_of_inside : (b : Bool) (n : ℕ) → n ≡ holders b → 0 < n → n ≡ 1
locked_of_inside b n h some_inside = ground (arith, h, some_inside)

-- What a thread finds at its work, and what it leaves.
pub work-IsFine : (n : ℕ) (role : Role) → n ≤ 1 → must_wait role n ≡ false → IsFine n role at_work
work-IsFine n gourmet few goes = ground (arith, few, goes)
work-IsFine n chief few goes = ground (arith, few, goes)

pub work-few :
    (s : Kitchen) (role : Role)
    → IsFine s.have_delicacy role at_work
    → s.eaten + s.have_delicacy ≡ s.cooked
    → ((work role s).have_delicacy ≤ 1)
      × ((work role s).eaten + (work role s).have_delicacy ≡ (work role s).cooked)
work-few s gourmet h total = (omega (arith, h), omega (arith, h, total))
work-few s chief h total = (omega (arith, h), omega (arith, h, total))

pub work-locked : (role : Role) (s : Kitchen) → (work role s).locked ≡ s.locked
work-locked gourmet s = refl
work-locked chief s = refl

pub IsFine-outside-unlock : (n : ℕ) (role : Role) → IsFine n role at_unlock
IsFine-outside-unlock n gourmet = tt
IsFine-outside-unlock n chief = tt

pub AllFine-get :
    (n : ℕ) (ts : List Thread) (i : ℕ) (t : Thread)
    → get_elem? ts i ≡ some t
    → AllFine n ts
    → IsFine n t.role t.point
AllFine-get n [] i t e h = cc
AllFine-get n (x ∷ ts) zero t e h =
    let same : x ≡ t = cc in subst (λ y. IsFine n y.role y.point) same h.0
AllFine-get n (x ∷ ts) (suc i) t e h = AllFine-get n ts i t e h.1
