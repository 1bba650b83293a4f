-- ===== src/Threads/Messages/Tests.antt =====
-- The consumer of a program of LinuxC/pthread/conditionVariable with a list sleeps, and a message is made.
use linux_note.Base.{ℕ, ◌+◌, ◌≡◌, refl, true, [], ◌∷◌, ◌++◌}
use linux_note.Threads.Messages.{
  State, c_asleep, p_unlock, push_last, produce, consume, producer_runs, consumer_runs, turn,
  push_first, Reach, begin, next,
}
use linux_note.Threads.Messages.Producing.{in_hand, in_making, IsAwaited}
use linux_note.Threads.Messages.Orders.{count, messages_in_order, stack_keeps_all}

-- 43 stands in the list, and the producer has not signalled yet.
abbrev inserted : State
inserted = record {
  head = 43 ∷ [];
  locked = true;
  producer = p_unlock;
  consumer = c_asleep;
  produced = 43 ∷ [];
  consumed = [];
}

inserted-Reach : Reach push_last inserted
unfolding turn produce consume push_last
inserted-Reach =
    next (producer_runs 0)
      (next (producer_runs 0)
        (next (producer_runs 42) (next consumer_runs (next consumer_runs begin refl) refl) refl)
        refl)
      refl

messages_in_order_example :
    (inserted.produced
      ≡ inserted.consumed
        ++ in_hand inserted.consumer
        ++ inserted.head
        ++ in_making inserted.producer)
    × IsAwaited inserted.consumer inserted.head inserted.producer
messages_in_order_example = messages_in_order inserted inserted-Reach

pushed-Reach : Reach push_first inserted
unfolding turn produce consume push_first
pushed-Reach =
    next (producer_runs 0)
      (next (producer_runs 0)
        (next (producer_runs 42) (next consumer_runs (next consumer_runs begin refl) refl) refl)
        refl)
      refl

stack_keeps_all_example :
    ((x : ℕ)
      → count x inserted.produced
        ≡ count x inserted.consumed
          + count x (in_hand inserted.consumer)
          + count x inserted.head
          + count x (in_making inserted.producer))
    × IsAwaited inserted.consumer inserted.head inserted.producer
stack_keeps_all_example = stack_keeps_all inserted pushed-Reach
