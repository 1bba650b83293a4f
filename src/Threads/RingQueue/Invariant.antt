-- ===== src/Threads/RingQueue/Invariant.antt =====
-- The invariant of bite/pthread/con_pro.cpp.
use linux_note.Base.{
  ℕ, ◌+◌, ◌%◌, ◌≤◌, ◌<◌, ◌≡◌, Option, none, some, List, ◌++◌, map, arith, length, get_elem?, set,
}
use linux_note.Threads.Crew.{Each, Each-set, sum_of, sum_of-set, sum_of_lt}
use linux_note.Threads.Buffer.Ring.{Cells}
use linux_note.Threads.Entries.{Role, productor, consumer, of_thread, upto}
use linux_note.Threads.RingQueue.{
  Point, at_lock, at_array, at_index, at_unlock, at_post, at_print, Thread, State,
}

-- 1 for a thread that has the lock.
abbrev pub inside : Thread → ℕ
inside t = elim t.point [ at_array ↦ 1 | at_index ↦ 1 | at_unlock ↦ 1 | _ ↦ 0 ]

-- 1 from `sem_wait` for a place to the store or load.
abbrev pub owing : Point → ℕ
owing at_lock = 1
owing at_array = 1
owing _ = 0

-- 1 from the store or load to `sem_post` for the other side.
abbrev pub owed : Point → ℕ
owed at_index = 1
owed at_unlock = 1
owed at_post = 1
owed _ = 0

-- 1 from the store or load to the new index.
abbrev pub late : Point → ℕ
late at_index = 1
late _ = 0

-- 1 from the store to `i++`.
abbrev pub ahead : Point → ℕ
ahead at_print = 1
ahead p = owed p

-- A number that counts for one of the two roles.
abbrev pub of_role : Role → (Point → ℕ) → Thread → ℕ
of_role productor f t = elim t.role [ productor ↦ f t.point | consumer ↦ 0 ]
of_role consumer f t = elim t.role [ productor ↦ 0 | consumer ↦ f t.point ]

abbrev pub crew_of : Role → (Point → ℕ) → State → ℕ
crew_of role f s = sum_of (of_role role f) s.threads

-- What productor `j` has pushed.
abbrev pub Series : State → ℕ → Thread → Type 0
Series s j t = t.role ≡ productor → of_thread j s.pushed ≡ upto (t.number + ahead t.point)

-- A thread as it stands.
abbrev pub at : Role → ℕ → Point → Thread
at role number p = record { role = role; point = p; number = number }

-- `pending` are the numbers that were stored and not yet loaded.
pub record Inv (s : State) (pending : List ℕ) : Type 0 where
  pub order : map (λ e. e.value) s.pushed ≡ map (λ e. e.value) s.popped ++ pending
  pub cells : Cells s.array ((s.pos_read + crew_of consumer late s) % 5) pending
  pub back :
      (s.pos_read + crew_of consumer late s + length pending) % 5
      ≡ (s.pos_write + crew_of productor late s) % 5
  pub free : s.sem_space + crew_of productor owing s + length pending + crew_of consumer owed s ≡ 5
  pub full : s.sem_data + crew_of productor owed s + crew_of consumer owing s ≡ length pending
  pub one : s.sem_lock + sum_of inside s.threads ≡ 1
  pub write_in : s.pos_write < 5
  pub read_in : s.pos_read < 5
  pub size : length s.array ≡ 5
  pub series : Each (Series s) s.threads

abbrev pub Held : State → Type 0
Held s = (pending : List ℕ) × Inv s pending

abbrev pub Holds : Option State → Type 0
Holds none = Unit
Holds (some s) = Held s

late-le :
    (role r : Role) (p : Point) (n : ℕ)
    → let t : Thread = record { role = r; point = p; number = n } in of_role role late t ≤ inside t
late-le role r p n = ground arith

none_late_at :
    (role r : Role) (n : ℕ)
    → of_role role late (record { role = r; point = at_array; number = n }) ≡ 0
none_late_at role r n = ground arith

-- While a thread has the lock and stores or loads, all indices have been moved.
pub none_late :
    (role r : Role) (s : State) (i n : ℕ)
    → get_elem? s.threads i ≡ some (record { role = r; point = at_array; number = n })
    → s.sem_lock + sum_of inside s.threads ≡ 1
    → crew_of role late s ≡ 0
none_late role r s i n at_i one =
    let below =
      sum_of_lt (of_role role late) inside s.threads i
        (record { role = r; point = at_array; number = n })
        (λ u. late-le role u.role u.point u.number) at_i (omega (arith, none_late_at role r n)) in
    omega (arith, one, below)

-- A step on the semaphores.
pub moves-Held :
    (i : ℕ) (s : State) (t t' : Thread) (space full lock : ℕ)
    → get_elem? s.threads i ≡ some t
    → space + of_role productor owing t' + of_role consumer owed t'
      ≡ s.sem_space + of_role productor owing t + of_role consumer owed t
    → full + of_role productor owed t' + of_role consumer owing t'
      ≡ s.sem_data + of_role productor owed t + of_role consumer owing t
    → lock + inside t' ≡ s.sem_lock + inside t
    → of_role consumer late t' ≡ of_role consumer late t
    → of_role productor late t' ≡ of_role productor late t
    → (Series s i t → Series s i t')
    → Held s
    → Held (record s {
      sem_space = space;
      sem_data = full;
      sem_lock = lock;
      threads = set s.threads i t';
    })
moves-Held i s t t' space full lock at_i space_e full_e lock_e reads writes series (pending, inv) =
    let moves = λ (f : Thread → ℕ). sum_of-set f s.threads i t t' at_i in
    let same : sum_of (of_role consumer late) (set s.threads i t') ≡ crew_of consumer late s =
      omega (arith, moves (of_role consumer late), reads) in
    (
      pending,
      record {
        order = inv.order;
        cells = rw (same) inv.cells;
        back = omega (arith, inv.back, same, moves (of_role productor late), writes);
        free = omega (
          arith,
          inv.free,
          space_e,
          moves (of_role productor owing),
          moves (of_role consumer owed),
        );
        full = omega (
          arith,
          inv.full,
          full_e,
          moves (of_role productor owed),
          moves (of_role consumer owing),
        );
        one = omega (arith, inv.one, lock_e, moves inside);
        write_in = inv.write_in;
        read_in = inv.read_in;
        size = inv.size;
        series =
            Each-set (Series s) (Series s) s.threads i t t' at_i inv.series
              (series (inv.series i t at_i)) (λ j u apart h. h);
      },
    )
