-- ===== src/Threads/BlockQueue/Invariant.antt =====
-- The invariant of bite/pthread/pro_con.cpp.
use linux_note.Base.{
  ℕ, ◌+◌, ◌≤◌, ◌≡◌, refl, sym, ap, ◌∙◌, ◌≢◌, Bool, true, false, Option, none, some, ◌++◌, map,
  length, get_elem?, set,
}
use linux_note.Threads.Crew.{Each, Each-set}
use linux_note.Threads.Entries.{of_thread, productor, upto}
use linux_note.Threads.BlockQueue.{
  Point, at_test, at_work, at_unlock, at_signal, at_print, Thread, State, Next, waits, fault, goes,
  must_wait,
}

-- Whether a thread at that point holds the mutex.
abbrev pub inside : Point → Bool
inside at_test = true
inside at_work = true
inside at_unlock = true
inside _ = false

-- 1 from `push` to `i++`.
abbrev pub ahead : Point → ℕ
ahead at_unlock = 1
ahead at_signal = 1
ahead at_print = 1
ahead _ = 0

-- What holds of thread `j` in a state.
abbrev pub Fine : State → ℕ → Thread → Type 0
Fine s j t =
    (inside t.point ≡ true → s.holder ≡ some j)
    × (t.point ≡ at_work → must_wait t.role (length s.queue) s.capacity ≡ false)
    × (t.role ≡ productor → of_thread j s.pushed ≡ upto (t.number + ahead t.point))

pub record Inv (s : State) : Type 0 where
  pub order : map (λ e. e.value) s.pushed ≡ map (λ e. e.value) s.popped ++ s.queue
  pub few : length s.queue ≤ s.capacity
  pub crew : Each (Fine s) s.threads

abbrev pub Holds : Next → Type 0
Holds waits = Unit
Holds fault = ⊥
Holds (goes s) = Inv s

pub at_work-inside : (p : Point) → p ≡ at_work → inside p ≡ true
at_work-inside p e = rw (e) refl

-- A thread that does not hold the mutex does not rely on the queue.
pub others-Fine :
    (s s' : State) (j : ℕ) (u : Thread)
    → s.holder ≢ some j
    → of_thread j s'.pushed ≡ of_thread j s.pushed
    → Fine s j u
    → Fine s' j u
others-Fine s s' j u outside same (held, ready, series) = (
  λ in_u. absurd (outside (held in_u)),
  λ at. absurd (outside (held (at_work-inside u.point at))),
  λ is_p. same ∙ series is_p,
)

pub not_holder : (i j : ℕ) (o : Option ℕ) → o ≡ some i → i ≢ j → o ≢ some j
not_holder i j o is_i apart is_j =
    let both : some i ≡ some j = sym is_i ∙ is_j in
    apart (ap (λ (x : Option ℕ). elim x [ none ↦ 0 | some n ↦ n ]) both)

-- A step that changes the holder and the thread, and leaves the queue.
pub moves-Inv :
    (i : ℕ) (s : State) (t t' : Thread) (holder : Option ℕ)
    → get_elem? s.threads i ≡ some t
    → Fine (record s { holder = holder }) i t'
    → ((j : ℕ) (u : Thread) → i ≢ j → Fine s j u → Fine (record s { holder = holder }) j u)
    → Inv s
    → Inv (record s { holder = holder; threads = set s.threads i t' })
moves-Inv i s t t' holder at_i new others inv = record {
  order = inv.order;
  few = inv.few;
  crew =
      Each-set (Fine s) (Fine (record s { holder = holder })) s.threads i t t' at_i inv.crew new
        others;
}
