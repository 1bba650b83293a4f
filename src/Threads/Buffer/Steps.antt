-- ===== src/Threads/Buffer/Steps.antt =====
-- The invariant of the ring of LinuxC/pthread/semaphore/pth_sem.c, and each step of the two threads.
use linux_note.Base.{
  ℕ, suc, ◌+◌, ◌%◌, ◌<◌, ◌≡◌, refl, sym, ap, ◌∙◌, inl, inr, Option, none, some, List, [], ◌∷◌, ◌++◌,
  append_assoc, arith, ◌==◌, Bool-cases, length, get_or, length-append, length-set,
}
use linux_note.Threads.Buffer.{
  Producer, p_wait, p_store, p_print, p_post, Consumer, c_wait, c_print, c_clear, c_post, State,
  produce, consume,
}
use linux_note.Threads.Buffer.Ring.{Cells, Cells-snoc, Cells-set}

-- 1 from `sem_wait` to the line of `printf`, in the producer.
abbrev storing : Producer → ℕ
storing p_store = 1
storing p_print = 1
storing _ = 0

abbrev posting : Producer → ℕ
posting p_post = 1
posting _ = 0

-- 1 from `sem_wait` to the line of `printf`, in the consumer.
abbrev taking : Consumer → ℕ
taking c_print = 1
taking _ = 0

abbrev clearing : Consumer → ℕ
clearing c_clear = 1
clearing c_post = 1
clearing _ = 0

-- `pending` are the numbers that were made and not yet taken.
pub record Inv (s : State) (pending : List ℕ) : Type 0 where
  pub order : s.produced ≡ s.consumed ++ pending
  pub cells : Cells s.queue ((s.c + clearing s.consumer) % 5) pending
  pub back : (s.c + clearing s.consumer + length pending) % 5 ≡ (s.p + posting s.producer) % 5
  pub free : s.blank + storing s.producer + length pending + clearing s.consumer ≡ 5
  pub full : s.product + posting s.producer + taking s.consumer ≡ length pending
  pub p_in : s.p < 5
  pub c_in : s.c < 5
  pub size : length s.queue ≡ 5

abbrev pub Held : State → Type 0
Held s = (pending : List ℕ) × Inv s pending

abbrev pub Holds : Option State → Type 0
Holds none = Unit
Holds (some s) = Held s

pub produce-Held :
    (random : ℕ) (s : State) (at : Producer)
    → s.producer ≡ at
    → Held s
    → Holds (produce random s at)
unfolding produce
produce-Held random s p_wait here (pending, inv) = elim (Bool-cases (s.blank == 0)) [
  | inl no_place ↦ rw (no_place) tt
  | inr place ↦ rw (place) (
    pending,
    record {
      order = inv.order;
      cells = inv.cells;
      back = rw (here) at inv.back;
      free =
          let f : s.blank + 0 + length pending + clearing s.consumer ≡ 5 = rw (here) at inv.free in
          ground (arith, f, place);
      full = rw (here) at inv.full;
      p_in = inv.p_in;
      c_in = inv.c_in;
      size = inv.size;
    },
  )
]
produce-Held random s p_store here (pending, inv) = (
  pending,
  record {
    order = inv.order;
    cells =
        let back : (s.c + clearing s.consumer + length pending) % 5 ≡ (s.p + 0) % 5 =
          rw (here) at inv.back in
        let free : s.blank + 1 + length pending + clearing s.consumer ≡ 5 = rw (here) at inv.free in
        Cells-set s.queue ((s.c + clearing s.consumer) % 5) s.p (random % 1000 + 1) pending
          (omega arith) (λ j h e. omega (arith, back, free, e, h, inv.p_in)) inv.cells;
    back = rw (here) at inv.back;
    free = rw (here) at inv.free;
    full = rw (here) at inv.full;
    p_in = inv.p_in;
    c_in = inv.c_in;
    size = length-set s.queue s.p (random % 1000 + 1) ∙ inv.size;
  },
)
produce-Held random s p_print here (pending, inv) =
    let x = get_or s.queue s.p 0 in
    let back : (s.c + clearing s.consumer + length pending) % 5 ≡ (s.p + 0) % 5 =
      rw (here) at inv.back in
    let free : s.blank + 1 + length pending + clearing s.consumer ≡ 5 = rw (here) at inv.free in
    let full : s.product + 0 + taking s.consumer ≡ length pending = rw (here) at inv.full in
    let more : length (pending ++ x ∷ []) ≡ length pending + 1 = length-append pending (x ∷ []) in
    (
      pending ++ x ∷ [],
      record {
        order = ap (λ l. l ++ x ∷ []) inv.order ∙ append_assoc s.consumed pending (x ∷ []);
        cells =
            Cells-snoc s.queue ((s.c + clearing s.consumer) % 5) s.p x pending (omega arith)
              inv.p_in (omega (arith, back, inv.p_in)) refl inv.cells;
        back = omega (arith, back, more);
        free = omega (arith, free, more);
        full = omega (arith, full, more);
        p_in = inv.p_in;
        c_in = inv.c_in;
        size = inv.size;
      },
    )
produce-Held random s p_post here (pending, inv) = (
  pending,
  record {
    order = inv.order;
    cells = inv.cells;
    back =
        let back : (s.c + clearing s.consumer + length pending) % 5 ≡ (s.p + 1) % 5 =
          rw (here) at inv.back in
        omega (arith, back);
    free = rw (here) at inv.free;
    full =
        let full : s.product + 1 + taking s.consumer ≡ length pending = rw (here) at inv.full in
        omega (arith, full);
    p_in = omega arith;
    c_in = inv.c_in;
    size = inv.size;
  },
)

pub consume-Held : (s : State) (at : Consumer) → s.consumer ≡ at → Held s → Holds (consume s at)
unfolding consume
consume-Held s c_wait here (pending, inv) = elim (Bool-cases (s.product == 0)) [
  | inl no_product ↦ rw (no_product) tt
  | inr product ↦ rw (product) (
    pending,
    record {
      order = inv.order;
      cells = rw (here) at inv.cells;
      back = rw (here) at inv.back;
      free = rw (here) at inv.free;
      full =
          let full : s.product + posting s.producer + 0 ≡ length pending = rw (here) at inv.full in
          ground (arith, full, product);
      p_in = inv.p_in;
      c_in = inv.c_in;
      size = inv.size;
    },
  )
]
consume-Held s c_print here ([], inv) =
    let full : s.product + posting s.producer + 1 ≡ 0 = rw (here) at inv.full in
    absurd (omega (arith, full))
consume-Held s c_print here (x ∷ xs, inv) =
    let back : (s.c + 0 + suc (length xs)) % 5 ≡ (s.p + posting s.producer) % 5 =
      rw (here) at inv.back in
    let free : s.blank + storing s.producer + suc (length xs) + 0 ≡ 5 = rw (here) at inv.free in
    let full : s.product + posting s.producer + 1 ≡ suc (length xs) = rw (here) at inv.full in
    let cells : Cells s.queue ((s.c + 0) % 5) (x ∷ xs) = rw (here) at inv.cells in
    let first : (s.c + 0) % 5 ≡ s.c = omega (arith, inv.c_in) in
    let taken : get_or s.queue s.c 0 ≡ x = rw first at cells.0 in
    let on : ((s.c + 0) % 5 + 1) % 5 ≡ (s.c + 1) % 5 = omega arith in
    (
      xs,
      record {
        order =
            inv.order
            ∙ ap (λ y. s.consumed ++ y ∷ xs) (sym taken)
            ∙ sym (append_assoc s.consumed (get_or s.queue s.c 0 ∷ []) xs);
        cells = rw on at cells.1;
        back = omega (arith, back);
        free = omega (arith, free);
        full = omega (arith, full);
        p_in = inv.p_in;
        c_in = inv.c_in;
        size = inv.size;
      },
    )
consume-Held s c_clear here (pending, inv) =
    let back : (s.c + 1 + length pending) % 5 ≡ (s.p + posting s.producer) % 5 =
      rw (here) at inv.back in
    let free : s.blank + storing s.producer + length pending + 1 ≡ 5 = rw (here) at inv.free in
    let cells : Cells s.queue ((s.c + 1) % 5) pending = rw (here) at inv.cells in
    (
      pending,
      record {
        order = inv.order;
        cells =
            Cells-set s.queue ((s.c + 1) % 5) s.c 0 pending (omega arith)
              (λ j h e. omega (arith, free, e, h, inv.c_in)) cells;
        back = back;
        free = free;
        full = rw (here) at inv.full;
        p_in = inv.p_in;
        c_in = inv.c_in;
        size = length-set s.queue s.c 0 ∙ inv.size;
      },
    )
consume-Held s c_post here (pending, inv) =
    let back : (s.c + 1 + length pending) % 5 ≡ (s.p + posting s.producer) % 5 =
      rw (here) at inv.back in
    let free : s.blank + storing s.producer + length pending + 1 ≡ 5 = rw (here) at inv.free in
    let cells : Cells s.queue ((s.c + 1) % 5) pending = rw (here) at inv.cells in
    let same : (s.c + 1) % 5 ≡ ((s.c + 1) % 5 + 0) % 5 = omega arith in
    (
      pending,
      record {
        order = inv.order;
        cells = rw same at cells;
        back = omega (arith, back);
        free = omega (arith, free);
        full = rw (here) at inv.full;
        p_in = inv.p_in;
        c_in = omega arith;
        size = inv.size;
      },
    )
