-- ===== src/Threads/Buffer/Late/Prints.antt =====
-- What the producer of LinuxC/pthread/semaphore/sem_test.c prints.
use linux_note.Base.{
  ℕ, ◌+◌, ◌%◌, ◌≤◌, ◌<◌, ◌≡◌, refl, sym, ◌⊎◌, inl, inr, Option, none, some, List, [], ◌∷◌, ◌++◌,
  ◌==◌, Bool-cases, eq_of_==, ne_of_==, length, get_or, set, get_or-set_self, get_or-set_ne,
}
use mathlib.Core.Path.{subst}
use linux_note.Threads.Buffer.{num, Consumer, c_wait, c_print, c_clear, c_post}
use linux_note.Threads.Buffer.Order.{consumes_in_order}
use linux_note.Threads.Buffer.Late.{
  LateProducer, at_wait, at_store, at_post, at_print, LateState, late_produce, late_consume,
  LateReach, late_begin, produces, consumes,
}
use linux_note.Threads.Buffer.Late.Follows.{as_buffer, LateReach-Reach}

-- The numbers of a list, of which some are 0 instead.
abbrev SomeZero : List ℕ → List ℕ → Type 0
SomeZero [] [] = Unit
SomeZero [] (y ∷ ys) = ⊥
SomeZero (x ∷ xs) [] = ⊥
SomeZero (x ∷ xs) (y ∷ ys) = ((y ≡ x) ⊎ (y ≡ 0)) × SomeZero xs ys

SomeZero-snoc :
    (xs ys : List ℕ) (x y : ℕ)
    → SomeZero xs ys
    → (y ≡ x) ⊎ (y ≡ 0)
    → SomeZero (xs ++ x ∷ []) (ys ++ y ∷ [])
SomeZero-snoc [] [] x y h e = (e, tt)
SomeZero-snoc [] (z ∷ ys) x y h e = absurd h
SomeZero-snoc (w ∷ xs) [] x y h e = absurd h
SomeZero-snoc (w ∷ xs) (z ∷ ys) x y h e = (h.0, SomeZero-snoc xs ys x y h.1 e)

-- What was printed and what is to be printed.
abbrev Waits : List ℕ → List ℕ → ℕ → Type 0
Waits stored produced cell =
    (before : List ℕ) × (x : ℕ) × (stored ≡ before ++ x ∷ [])
    × SomeZero before produced
    × ((cell ≡ x) ⊎ (cell ≡ 0))

abbrev pub Prints : LateProducer → List ℕ → List ℕ → ℕ → Type 0
Prints at_wait stored produced cell = SomeZero stored produced
Prints at_store stored produced cell = SomeZero stored produced
Prints at_post stored produced cell = Waits stored produced cell
Prints at_print stored produced cell = Waits stored produced cell

abbrev PrintsIn : LateState → Type 0
PrintsIn s = Prints s.producer s.stored s.produced (get_or s.queue s.producer_top 0)

abbrev PrintsInto : Option LateState → Type 0
PrintsInto none = Unit
PrintsInto (some s) = PrintsIn s

late_produce-Prints :
    (random : ℕ) (s : LateState) (at : LateProducer)
    → (at ≡ at_store → s.producer_top < length s.queue)
    → Prints at s.stored s.produced (get_or s.queue s.producer_top 0)
    → PrintsInto (late_produce random s at)
unfolding late_produce
late_produce-Prints random s at_wait inside h = elim (Bool-cases (s.blank == 0)) [
  | inl no_place ↦ rw (no_place) tt
  | inr some_place ↦ rw (some_place) h
]
late_produce-Prints random s at_store inside h =
    let number = random % 10 + 1 in
    (s.stored, number, refl, h, inl (get_or-set_self s.queue s.producer_top number 0 (inside refl)))
late_produce-Prints random s at_post inside h = h
late_produce-Prints random s at_print inside (before, x, is_last, printed, cell) =
    rw (is_last) (SomeZero-snoc before s.produced x (get_or s.queue s.producer_top 0) printed cell)

-- The cell of the producer is cleared, or not.
Prints-clear :
    (at : LateProducer) (stored produced : List ℕ) (cell cell' : ℕ)
    → (cell' ≡ cell) ⊎ (cell' ≡ 0)
    → Prints at stored produced cell
    → Prints at stored produced cell'
Prints-clear at stored produced cell cell' (inl same) h =
    subst (Prints at stored produced) (sym same) h
Prints-clear at_wait stored produced cell cell' (inr cleared) h = h
Prints-clear at_store stored produced cell cell' (inr cleared) h = h
Prints-clear at_post stored produced cell cell' (inr cleared) (before, x, is_last, printed, old) =
    (before, x, is_last, printed, inr cleared)
Prints-clear at_print stored produced cell cell' (inr cleared) (before, x, is_last, printed, old) =
    (before, x, is_last, printed, inr cleared)

cleared_cell :
    (queue : List ℕ) (c p : ℕ)
    → c < length queue
    → (get_or (set queue c 0) p 0 ≡ get_or queue p 0) ⊎ (get_or (set queue c 0) p 0 ≡ 0)
cleared_cell queue c p inside = elim (Bool-cases (c == p)) [
  | inl same ↦ inr (
      subst (λ i. get_or (set queue c 0) i 0 ≡ 0) (eq_of_== c p same)
        (get_or-set_self queue c 0 0 inside))
  | inr differ ↦ inl (get_or-set_ne queue c p 0 0 (ne_of_== c p differ))
]

late_consume-Prints :
    (s : LateState) (at : Consumer)
    → s.consumer_top < length s.queue
    → PrintsIn s
    → PrintsInto (late_consume s at)
unfolding late_consume
late_consume-Prints s c_wait inside h = elim (Bool-cases (s.full == 0)) [
  | inl none_there ↦ rw (none_there) tt
  | inr some_there ↦ rw (some_there) h
]
late_consume-Prints s c_print inside h = h
late_consume-Prints s c_clear inside h =
    Prints-clear s.producer s.stored s.produced (get_or s.queue s.producer_top 0)
      (get_or (set s.queue s.consumer_top 0) s.producer_top 0)
      (cleared_cell s.queue s.consumer_top s.producer_top inside) h
late_consume-Prints s c_post inside h = h

LateReach-Prints : (s : LateState) → LateReach s → PrintsIn s
LateReach-Prints s late_begin = tt
LateReach-Prints s (produces {s = before} random r e) =
    let (pending, order, few, inside, c_in, sems) =
      consumes_in_order (as_buffer before) (LateReach-Reach before r) in
    subst PrintsInto e (
      late_produce-Prints random before before.producer (λ here. rw (here) at inside)
        (LateReach-Prints before r))
LateReach-Prints s (consumes {s = before} r e) =
    let (pending, order, few, inside, c_in, sems) =
      consumes_in_order (as_buffer before) (LateReach-Reach before r) in
    subst PrintsInto e (late_consume-Prints before before.consumer c_in (LateReach-Prints before r))

-- In every reachable state the numbers that the consumer printed are the first of those that the producer
-- stored, in the same order, and at most five are between them. The producer prints what it stored, in order,
-- or 0 instead, and what it has not yet printed is at most the last number.
pub late_in_order :
    (s : LateState)
    → LateReach s
    → ((pending : List ℕ) × (s.stored ≡ s.consumed ++ pending) × (length pending ≤ num))
      × Prints s.producer s.stored s.produced (get_or s.queue s.producer_top 0)
late_in_order s r =
    let (pending, order, few, p_in, c_in, sems) =
      consumes_in_order (as_buffer s) (LateReach-Reach s r) in
    ((pending, order, few), LateReach-Prints s r)
