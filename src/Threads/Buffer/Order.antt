-- ===== src/Threads/Buffer/Order.antt =====
-- The threads of LinuxC/pthread/semaphore/pth_sem.c in any order of their steps.
use linux_note.Base.{
  ℕ, ◌+◌, ◌-◌, ◌≤◌, ◌<◌, ◌≡◌, refl, inl, inr, none, some, List, [], ◌++◌, arith, ◌==◌, Bool-cases,
  eq_of_==, length,
}
use mathlib.Core.Path.{subst}
use linux_note.Threads.Buffer.{
  num, Producer, p_wait, p_store, p_print, p_post, Consumer, c_wait, c_print, c_clear, c_post,
  State, produce, consume, Turn, producer_runs, consumer_runs, turn, start, Reach, begin, next,
}
use linux_note.Threads.Buffer.Steps.{Held, Holds, produce-Held, consume-Held}

turn-Held : (t : Turn) (s s' : State) → Held s → turn t s ≡ some s' → Held s'
unfolding turn
turn-Held (producer_runs random) s s' held e =
    subst Holds e (produce-Held random s s.producer refl held)
turn-Held consumer_runs s s' held e = subst Holds e (consume-Held s s.consumer refl held)

start-Held : Held start
start-Held = (
  [],
  record {
    order = refl;
    cells = tt;
    back = refl;
    free = refl;
    full = refl;
    p_in = omega arith;
    c_in = omega arith;
    size = refl;
  },
)

Reach-Held : (s : State) → Reach s → Held s
Reach-Held s begin = start-Held
Reach-Held s (next {s = before} t r e) = turn-Held t before s (Reach-Held before r) e

-- In every reachable state the numbers that the consumer printed are the first of those that the
-- producer printed, in the same order, and at most five are between them; the indices `p` and `c` are
-- inside the queue, and neither semaphore is above five.
pub consumes_in_order :
    (s : State)
    → Reach s
    → (pending : List ℕ) × (s.produced ≡ s.consumed ++ pending)
      × (length pending ≤ num)
      × (s.p < length s.queue)
      × (s.c < length s.queue)
      × (s.blank + s.product ≤ num)
consumes_in_order s r =
    let (pending, inv) = Reach-Held s r in
    (
      pending,
      inv.order,
      omega (arith, inv.free),
      omega (arith, inv.p_in, inv.size),
      omega (arith, inv.c_in, inv.size),
      omega (arith, inv.free, inv.full),
    )

produce-none :
    (random : ℕ) (s : State) (at : Producer)
    → produce random s at ≡ none
    → (at ≡ p_wait) × (s.blank ≡ 0)
unfolding produce
produce-none random s p_wait e = elim (Bool-cases (s.blank == 0)) [
  | inl no_place ↦ (refl, eq_of_== s.blank 0 no_place)
  | inr place ↦
      let moved : some (record s { blank = s.blank - 1; producer = p_store }) ≡ none =
        rw place at e in
      cc
]
produce-none random s p_store e = cc
produce-none random s p_print e = cc
produce-none random s p_post e = cc

consume-none : (s : State) (at : Consumer) → consume s at ≡ none → (at ≡ c_wait) × (s.product ≡ 0)
unfolding consume
consume-none s c_wait e = elim (Bool-cases (s.product == 0)) [
  | inl no_product ↦ (refl, eq_of_== s.product 0 no_product)
  | inr product ↦
      let moved : some (record s { product = s.product - 1; consumer = c_print }) ≡ none =
        rw product at e in
      cc
]
consume-none s c_print e = cc
consume-none s c_clear e = cc
consume-none s c_post e = cc

-- In no reachable state do both threads wait.
pub never_both_wait :
    (s : State) (random : ℕ)
    → Reach s
    → ¬ ((turn (producer_runs random) s ≡ none) × (turn consumer_runs s ≡ none))
unfolding turn
never_both_wait s random r (no_produce, no_consume) =
    let (pending, inv) = Reach-Held s r in
    let (at_p, no_blank) = produce-none random s s.producer no_produce in
    let (at_c, no_product) = consume-none s s.consumer no_consume in
    let free : s.blank + 0 + length pending + 0 ≡ 5 = rw (at_p, at_c) at inv.free in
    let full : s.product + 0 + 0 ≡ length pending = rw (at_p, at_c) at inv.full in
    omega (arith, free, full, no_blank, no_product)
