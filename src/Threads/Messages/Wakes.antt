-- ===== src/Threads/Messages/Wakes.antt =====
-- The steps of the consumer of the programs of LinuxC/pthread/conditionVariable with a list, and the states
-- of the process.
use linux_note.Base.{
  ℕ, ◌≡◌, refl, sym, inl, inr, true, false, ◌||◌, none, some, List, [], ◌∷◌, ◌++◌, if◌then◌else◌,
  Bool-cases,
}
use mathlib.Core.Path.{subst}
use linux_note.Threads.Messages.{
  Consumer, c_lock, c_test, c_asleep, c_awake, c_take, c_unlock, c_print, State, wake, consume,
  Turn, producer_runs, consumer_runs, wakes, turn, Reach, begin, next,
}
use linux_note.Threads.Messages.Producing.{
  in_hand, in_making, c_inside, p_inside, Keeps, Inv, Holds, in_hand-wake, c_inside-wake,
  IsAwaited-wake, printed, taken_first, produce-Inv,
}

-- The consumer takes the lock, from `c_lock` or woken.
locks-Inv :
    (R : List ℕ → List ℕ → Type 0) (s : State) (at : Consumer)
    → s.consumer ≡ at
    → in_hand at ≡ []
    → c_inside at ≡ false
    → Inv R s
    → Holds R (if s.locked then none else some (record s { locked = true; consumer = c_test }))
locks-Inv R s at here empty out inv = elim (Bool-cases s.locked) [
  | inl taken ↦ rw (taken) tt
  | inr open_now ↦
      let holder : false ≡ (false || p_inside s.producer) =
        rw (here, out, open_now) at inv.holder in
      rw (open_now) record {
        order = rw (here, empty) at inv.order;
        holder = refl;
        one_inside = sym holder;
        awaited = tt;
      }
]

-- The steps that depend on the list.
test-Inv :
    (R : List ℕ → List ℕ → Type 0) (s : State) (head : List ℕ)
    → s.consumer ≡ c_test
    → s.head ≡ head
    → Inv R s
    → Holds R (consume s c_test head)
unfolding consume
test-Inv R s [] here is_head inv =
    let one : p_inside s.producer ≡ false = rw (here) at inv.one_inside in
    record {
      order = rw (here) at inv.order;
      holder = sym one;
      one_inside = refl;
      awaited = rw (is_head) tt;
    }
test-Inv R s (n ∷ rest) here is_head inv = record {
  order = rw (here) at inv.order;
  holder = rw (here) at inv.holder;
  one_inside = rw (here) at inv.one_inside;
  awaited = rw (is_head) tt;
}

take-Inv :
    (R : List ℕ → List ℕ → Type 0) (s : State) (head : List ℕ)
    → s.consumer ≡ c_take
    → s.head ≡ head
    → Inv R s
    → Holds R (consume s c_take head)
unfolding consume
take-Inv R s [] here is_head inv = tt
take-Inv R s (n ∷ rest) here is_head inv = record {
  order =
      let order : R s.produced (s.consumed ++ [] ++ (n ∷ rest) ++ in_making s.producer) =
        rw (here, is_head) at inv.order in
      subst (R s.produced) (taken_first s.consumed rest (in_making s.producer) n) order;
  holder = rw (here) at inv.holder;
  one_inside = rw (here) at inv.one_inside;
  awaited = tt;
}

consume-Inv :
    (R : List ℕ → List ℕ → Type 0) (s : State) (at : Consumer)
    → s.consumer ≡ at
    → Inv R s
    → Holds R (consume s at s.head)
unfolding consume
consume-Inv R s c_lock here inv = locks-Inv R s c_lock here refl refl inv
consume-Inv R s c_awake here inv = locks-Inv R s c_awake here refl refl inv
consume-Inv R s c_test here inv = test-Inv R s s.head here refl inv
consume-Inv R s c_asleep here inv = tt
consume-Inv R s c_take here inv = take-Inv R s s.head here refl inv
consume-Inv R s (c_unlock taken) here inv =
    let one : p_inside s.producer ≡ false = rw (here) at inv.one_inside in
    record { order = rw (here) at inv.order; holder = sym one; one_inside = refl; awaited = tt }
consume-Inv R s (c_print taken) here inv = record {
  order =
      let order : R s.produced (s.consumed ++ (taken ∷ []) ++ s.head ++ in_making s.producer) =
        rw (here) at inv.order in
      subst (R s.produced) (printed s.consumed s.head (in_making s.producer) taken) order;
  holder = rw (here) at inv.holder;
  one_inside = refl;
  awaited = tt;
}

module _ (R : List ℕ → List ℕ → Type 0) (insert : List ℕ → ℕ → List ℕ)
    (keeps : Keeps R insert) where
  turn-Inv : (t : Turn) (s s' : State) → Inv R s → turn insert t s ≡ some s' → Inv R s'
  unfolding turn
  turn-Inv (producer_runs random) s s' inv e =
      subst (Holds R) e (produce-Inv R insert keeps random s s.producer refl inv)
  turn-Inv consumer_runs s s' inv e = subst (Holds R) e (consume-Inv R s s.consumer refl inv)
  turn-Inv wakes s s' inv e =
      let woken : Inv R (record s { consumer = wake s.consumer }) = record {
        order = rw (in_hand-wake s.consumer) inv.order;
        holder = rw (c_inside-wake s.consumer) inv.holder;
        one_inside = rw (c_inside-wake s.consumer) inv.one_inside;
        awaited = IsAwaited-wake s.consumer s.head s.producer s.producer inv.awaited;
      } in
      subst (Holds R) e woken

  pub Reach-Inv : (s : State) → Reach insert s → Inv R s
  Reach-Inv s begin = record { order = keeps.empty; holder = refl; one_inside = refl; awaited = tt }
  Reach-Inv s (next {s = before} t r e) = turn-Inv t before s (Reach-Inv before r) e
