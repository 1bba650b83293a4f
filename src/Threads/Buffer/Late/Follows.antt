-- ===== src/Threads/Buffer/Late/Follows.antt =====
-- The program of LinuxC/pthread/semaphore/sem_test.c takes the steps of pth_sem.c, with what it stores for what
-- it prints.
use linux_note.Base.{
  ℕ, ◌+◌, ◌%◌, ◌<◌, ◌≡◌, refl, inl, inr, Option, none, some, arith, ◌==◌, Bool-cases, length, set,
  get_or-set_self,
}
use mathlib.Core.Path.{subst}
use linux_note.Threads.Buffer.{
  num, Producer, p_wait, p_store, p_print, p_post, Consumer, c_wait, c_print, c_clear, c_post,
  State, produce, consume, producer_runs, consumer_runs, turn, Reach, begin, next,
}
use linux_note.Threads.Buffer.Order.{consumes_in_order}
use linux_note.Threads.Buffer.Late.{
  LateProducer, at_wait, at_store, at_post, at_print, LateState, late_produce, late_consume,
  LateReach, late_begin, produces, consumes,
}

abbrev point : LateProducer → Producer
point at_wait = p_wait
point at_store = p_store
point at_post = p_post
point at_print = p_wait

-- The index of the other producer: it is advanced with `sem_post`.
abbrev place : LateProducer → ℕ → ℕ
place at_print top = (top + 1) % num
place p top = top

-- The state of pth_sem.c.
abbrev pub as_buffer : LateState → State
as_buffer s = record {
  queue = s.queue;
  blank = s.blank;
  product = s.full;
  p = place s.producer s.producer_top;
  producer = point s.producer;
  c = s.consumer_top;
  consumer = s.consumer;
  produced = s.stored;
  consumed = s.consumed;
}

abbrev Follows : Option LateState → Type 0
Follows none = Unit
Follows (some s) = Reach (as_buffer s)

late_produce-Follows :
    (random : ℕ) (s : LateState) (at : LateProducer)
    → s.producer ≡ at
    → Reach (as_buffer s)
    → Follows (late_produce random s at)
unfolding late_produce turn produce
late_produce-Follows random s at_wait here r = elim (Bool-cases (s.blank == 0)) [
  | inl no_place ↦ rw (no_place) tt
  | inr some_place ↦ rw (some_place) (next (producer_runs 0) r (rw (here, some_place) refl))
]
late_produce-Follows random s at_store here r =
    let (pending, order, few, inside, c_in, sems) = consumes_in_order (as_buffer s) r in
    let number : (random % 10) % 1000 + 1 ≡ random % 10 + 1 = omega arith in
    let in_queue : s.producer_top < length s.queue = rw (here) at inside in
    let printed = get_or-set_self s.queue s.producer_top (random % 10 + 1) 0 in_queue in
    let there : Reach (record (as_buffer s) {
      queue = set s.queue s.producer_top (random % 10 + 1);
      p = s.producer_top;
      producer = p_print;
    }) =
      next (producer_runs (random % 10)) r (rw (here, number) refl) in
    next (producer_runs 0) there (rw (printed) refl)
late_produce-Follows random s at_post here r = next (producer_runs 0) r (rw (here) refl)
late_produce-Follows random s at_print here r = rw (here) at r

late_consume-Follows :
    (s : LateState) (at : Consumer)
    → s.consumer ≡ at
    → Reach (as_buffer s)
    → Follows (late_consume s at)
unfolding late_consume turn consume
late_consume-Follows s c_wait here r = elim (Bool-cases (s.full == 0)) [
  | inl none_there ↦ rw (none_there) tt
  | inr some_there ↦ rw (some_there) (next consumer_runs r (rw (here, some_there) refl))
]
late_consume-Follows s c_print here r = next consumer_runs r (rw (here) refl)
late_consume-Follows s c_clear here r = next consumer_runs r (rw (here) refl)
late_consume-Follows s c_post here r = next consumer_runs r (rw (here) refl)

pub LateReach-Reach : (s : LateState) → LateReach s → Reach (as_buffer s)
LateReach-Reach s late_begin = begin
LateReach-Reach s (produces {s = before} random r e) =
    subst Follows e
      (late_produce-Follows random before before.producer refl (LateReach-Reach before r))
LateReach-Reach s (consumes {s = before} r e) =
    subst Follows e (late_consume-Follows before before.consumer refl (LateReach-Reach before r))
