-- ===== src/Threads/Delicacy.antt =====
-- bite/pthread/cond.c: gourmets and chiefs, who wait for each other on two condition variables.
mod Crowd
pub mod Bowls
mod Tests
use linux_note.Base.{
  ℕ, zero, suc, ◌+◌, ◌-◌, ◌*◌, ◌/◌, ◌%◌, ◌^◌, ◌≤◌, ◌<◌, ◌≡◌, refl, sym, ap, ◌∙◌, ◌≢◌, ◌⊎◌, inl, inr,
  Bool, true, false, not, ◌&&◌, ◌||◌, Option, none, some, List, [], ◌∷◌, ◌++◌, map, append-nil,
  append_assoc, arith, ltb, leb, ◌==◌, if◌then◌else◌, Bool-cases, ==_refl, eq_of_==, ne_of_==,
  ltb→lt, leb→le, length, get_elem?, get_or, set, take, drop, replicate, length-append, length-set,
  get_or-append, set-append, get_or-set_self, get_or-set_ne, take-append, drop-append,
  length-replicate, length-drop, newline, blank, is_space, first_line, to_nul, string_at, ◌>>=◌,
  ◌>>◌, guard, load, store, load-append, store-append,
}

pub data Role : Type 0 where
  gourmet chief : Role

-- Where a thread stands: before `lock`, at the test of `have_delicacy`, asleep in `pthread_cond_wait`,
-- woken and before it has the lock again, before it eats or cooks, before `unlock` and before the signal.
pub data Point : Type 0 where
  at_lock at_test asleep awake at_work at_unlock at_signal : Point

pub record Thread : Type 0 where
  pub role : Role
  pub point : Point

-- `cooked` and `eaten` are how often the lines of the two roles were printed.
pub record Kitchen : Type 0 where
  pub have_delicacy : ℕ
  pub locked : Bool
  pub cooked : ℕ
  pub eaten : ℕ
  pub threads : List Thread

-- The condition of the `while` loop round `pthread_cond_wait`.
abbrev pub must_wait : Role → ℕ → Bool
must_wait gourmet n = n == 0
must_wait chief n = n == 1

abbrev pub move_to : ℕ → Role → Point → List Thread → List Thread
move_to i role point threads = set threads i (record { role = role; point = point })

-- `pthread_cond_signal` of a thread of one role wakes a thread `k` that sleeps on the condition variable
-- of the other role, if there is one.
pub wakes : Role → Thread → Thread
wakes gourmet t = elim t.role [
  | chief ↦ elim t.point [ asleep ↦ record t { point = awake } | _ ↦ t ]
  | gourmet ↦ t
]
wakes chief t = elim t.role [
  | gourmet ↦ elim t.point [ asleep ↦ record t { point = awake } | _ ↦ t ]
  | chief ↦ t
]

-- The kitchen after the printed line and `have_delicacy--` or `have_delicacy++`.
abbrev pub work : Role → Kitchen → Kitchen
work gourmet s = record s { have_delicacy = s.have_delicacy - 1; eaten = s.eaten + 1 }
work chief s = record s { have_delicacy = s.have_delicacy + 1; cooked = s.cooked + 1 }

abbrev pub wake_at : Role → List Thread → ℕ → List Thread
wake_at role [] k = []
wake_at role (t ∷ ts) zero = wakes role t ∷ ts
wake_at role (t ∷ ts) (suc k) = t ∷ wake_at role ts k

-- The next step of thread `i`, of the given role and at the given point; none if it waits. A signal wakes
-- thread `k`.
pub act : (i k : ℕ) → Kitchen → Role → Point → Option Kitchen
unfolding wakes
act i k s role at_lock =
    if s.locked
    then none
    else some (record s { locked = true; threads = move_to i role at_test s.threads })
act i k s role at_test = some (
    if must_wait role s.have_delicacy
    then record s { locked = false; threads = move_to i role asleep s.threads }
    else record s { threads = move_to i role at_work s.threads })
act i k s role asleep = none
act i k s role awake =
    if s.locked
    then none
    else some (record s { locked = true; threads = move_to i role at_test s.threads })
act i k s role at_work =
    let s' = work role s in some (record s' { threads = move_to i role at_unlock s.threads })
act i k s role at_unlock =
    some (record s { locked = false; threads = move_to i role at_signal s.threads })
act i k s role at_signal =
    some (record s { threads = wake_at role (move_to i role at_lock s.threads) k })

pub turn : (i k : ℕ) → Kitchen → Option Kitchen
unfolding act
turn i k s = do t ← get_elem? s.threads i; act i k s t.role t.point

-- `main` creates four threads of each role.
abbrev pub start : Kitchen
start = record {
  have_delicacy = 0;
  locked = false;
  cooked = 0;
  eaten = 0;
  threads =
      replicate 4 (record { role = gourmet; point = at_lock })
      ++ replicate 4 (record { role = chief; point = at_lock });
}

-- The states of the process.
pub data Reach : Kitchen → Type 0 where
  begin : Reach start
  next : {s s' : Kitchen} (i k : ℕ) → Reach s → turn i k s ≡ some s' → Reach s'
  -- `pthread_cond_wait` may return without a signal.
  wake_up :
      {s : Kitchen} (role : Role) (k : ℕ)
      → Reach s
      → Reach (record s { threads = wake_at role s.threads k })
