-- ===== src/Threads/Philosophers.antt =====
-- LinuxC/pthread/TheDinningPhilosophersProblem/phil_pro_mutex.c: five philosophers, with a mutex for each
-- chopstick.
mod Holding
pub mod Stuck
mod Tests
use linux_note.Base.{
  ℕ, zero, suc, ◌+◌, ◌-◌, ◌*◌, ◌/◌, ◌%◌, ◌^◌, ◌≤◌, ◌<◌, ◌≡◌, refl, sym, ap, ◌∙◌, ◌≢◌, ◌⊎◌, inl, inr,
  Bool, true, false, not, ◌&&◌, ◌||◌, Option, none, some, List, [], ◌∷◌, ◌++◌, map, append-nil,
  append_assoc, arith, ltb, leb, ◌==◌, if◌then◌else◌, Bool-cases, ==_refl, eq_of_==, ne_of_==,
  ltb→lt, leb→le, length, get_elem?, get_or, set, take, drop, replicate, length-append, length-set,
  get_or-append, set-append, get_or-set_self, get_or-set_ne, take-append, drop-append,
  length-replicate, length-drop, newline, blank, is_space, first_line, to_nul, string_at, ◌>>=◌,
  ◌>>◌, guard, load, store, load-append, store-append,
}

-- Where a philosopher stands: before `pthread_mutex_lock` of the first chopstick, before that of the second,
-- before `pthread_mutex_unlock` of the second, and before that of the first.
pub data Point : Type 0 where
  at_first at_second eating at_release : Point

-- For each index below 5 the philosopher that holds the mutex in `chops`, and where the philosopher with that
-- number stands.
pub record State : Type 0 where
  pub chops : ℕ → Option ℕ
  pub phil : ℕ → Point

abbrev pub update {ℓ} : {A : Type ℓ} → (ℕ → A) → ℕ → A → ℕ → A
update f i v j = if j == i then v else f j

-- `(no + 1) % 5`
abbrev pub right : ℕ → ℕ
right n = (n + 1) % 5

-- The philosopher `n` (`no` in the source) has `pthread_mutex_lock` or `pthread_mutex_unlock` of `chops[c]` behind it.
abbrev pub moved : (n c : ℕ) → Option ℕ → Point → State → State
moved n c holder p s = record { chops = update s.chops c holder; phil = update s.phil n p }

-- `pthread_mutex_lock`, which waits if there is a holder.
pub lock : (n c : ℕ) → Point → State → Option ℕ → Option State
lock n c p s none = some (moved n c (some n) p s)
lock n c p s (some i) = none

-- The next step of philosopher `n`; none if it waits.
pub philosopher : (n : ℕ) → State → Point → Option State
unfolding lock
philosopher n s at_first = lock n n at_second s (s.chops n)
philosopher n s at_second = lock n (right n) eating s (s.chops (right n))
philosopher n s eating = some (moved n (right n) none at_release s)
philosopher n s at_release = some (moved n n none at_first s)

pub turn : (n : ℕ) → State → Option State
unfolding philosopher
turn n s = philosopher n s (s.phil n)

-- `main` after the calls of `pthread_create`.
abbrev pub start : State
start = record { chops = λ c. none; phil = λ n. at_first }

-- The states of the process.
pub data Reach : State → Type 0 where
  begin : Reach start
  next : {s s' : State} (n : ℕ) → n < 5 → Reach s → turn n s ≡ some s' → Reach s'
