-- ===== src/Threads/RingQueue/Pushes.antt =====
-- The steps of `Push` of bite/pthread/con_pro.cpp.
use linux_note.Base.{
  ℕ, suc, ◌+◌, ◌-◌, ◌%◌, ◌<◌, ◌≡◌, refl, ap, ◌∙◌, ◌≢◌, inl, inr, some, [], ◌∷◌, ◌++◌, map,
  append-nil, append_assoc, arith, ◌==◌, Bool-cases, ==_refl, length, get_elem?, get_or, set,
  length-append, length-set, get_or-set_self,
}
use linux_note.Threads.Crew.{Each-set, sum_of, sum_of-set, sum_of_le}
use linux_note.Threads.Buffer.Ring.{Cells-set, Cells-snoc}
use linux_note.Threads.Entries.{
  productor, consumer, Entry, of_thread, upto, of_thread-append, of_other, map-snoc,
}
use linux_note.Threads.RingQueue.{
  Point, at_place, at_lock, at_array, at_index, at_unlock, at_post, at_print, Thread, State, push,
}
use linux_note.Threads.RingQueue.Invariant.{
  at, inside, owing, owed, late, of_role, crew_of, Series, Held, Holds, none_late, moves-Held,
}

-- `_array[_pos_write] = data`.
stores-Held :
    (i n : ℕ) (s : State)
    → get_elem? s.threads i ≡ some (at productor n at_array)
    → Held s
    → Holds (push i s n at_array)
unfolding push
stores-Held i n s at_i (pending, inv) =
    let t = at productor n at_array in
    let t' = at productor n at_index in
    let e : Entry = record { by = i; value = n } in
    let moves = λ (f : Thread → ℕ). sum_of-set f s.threads i t t' at_i in
    let no_writer = none_late productor productor s i n at_i inv.one in
    let claim = sum_of_le (of_role productor owing) s.threads i t at_i in
    let more : length (pending ++ n ∷ []) ≡ length pending + 1 = length-append pending (n ∷ []) in
    let same : sum_of (of_role consumer late) (set s.threads i t') ≡ crew_of consumer late s =
      omega (arith, moves (of_role consumer late)) in
    let from = (s.pos_read + crew_of consumer late s) % 5 in
    let small : from < 5 = omega arith in
    let apart : (j : ℕ) → j < length pending → (from + j) % 5 ≢ s.pos_write =
      λ j h e. omega (arith, inv.back, no_writer, inv.free, claim, e, h, inv.write_in) in
    let kept = Cells-set s.array from s.pos_write n pending small apart inv.cells in
    let stored : get_or (set s.array s.pos_write n) s.pos_write 0 ≡ n =
      get_or-set_self s.array s.pos_write n 0 (omega (arith, inv.write_in, inv.size)) in
    let own : of_thread i (e ∷ []) ≡ n ∷ [] = rw (==_refl i) refl in
    let before : of_thread i s.pushed ≡ upto (n + 0) = inv.series i t at_i refl in
    let here_again : n + 0 ≡ n = omega arith in
    let next : n + 1 ≡ suc n = omega arith in
    let s' : State = record s { pushed = s.pushed ++ e ∷ [] } in
    (
      pending ++ n ∷ [],
      record {
        order =
            map-snoc s.pushed e
            ∙ ap (λ l. l ++ n ∷ []) inv.order
            ∙ append_assoc (map (λ e. e.value) s.popped) pending (n ∷ []);
        cells = rw (same) (
            Cells-snoc (set s.array s.pos_write n) from s.pos_write n pending small inv.write_in
              (omega (arith, inv.back, no_writer, inv.write_in)) stored kept);
        back = omega (arith, inv.back, more, same, moves (of_role productor late));
        free =
            omega (
              arith,
              inv.free,
              more,
              moves (of_role productor owing),
              moves (of_role consumer owed),
            );
        full =
            omega (
              arith,
              inv.full,
              more,
              moves (of_role productor owed),
              moves (of_role consumer owing),
            );
        one = omega (arith, inv.one, moves inside);
        write_in = inv.write_in;
        read_in = inv.read_in;
        size = length-set s.array s.pos_write n ∙ inv.size;
        series =
            Each-set (Series s) (Series s') s.threads i t t' at_i inv.series
              (λ is_p. of_thread-append i s.pushed e ∙ rw (own, before, here_again, next) refl)
              (λ j u apart h is_p.
                of_thread-append j s.pushed e
                ∙ rw (of_other j e apart) (append-nil (of_thread j s.pushed))
                ∙ h is_p);
      },
    )

-- `_pos_write = (_pos_write + 1) % _capacity`.
writes_on-Held :
    (i n : ℕ) (s : State)
    → get_elem? s.threads i ≡ some (at productor n at_index)
    → Held s
    → Holds (push i s n at_index)
unfolding push
writes_on-Held i n s at_i (pending, inv) =
    let t = at productor n at_index in
    let t' = at productor n at_unlock in
    let moves = λ (f : Thread → ℕ). sum_of-set f s.threads i t t' at_i in
    let same : sum_of (of_role consumer late) (set s.threads i t') ≡ crew_of consumer late s =
      omega (arith, moves (of_role consumer late)) in
    (
      pending,
      record {
        order = inv.order;
        cells = rw (same) inv.cells;
        back = omega (arith, inv.back, same, moves (of_role productor late));
        free =
            omega (arith, inv.free, moves (of_role productor owing), moves (of_role consumer owed));
        full =
            omega (arith, inv.full, moves (of_role productor owed), moves (of_role consumer owing));
        one = omega (arith, inv.one, moves inside);
        write_in = omega arith;
        read_in = inv.read_in;
        size = inv.size;
        series =
            Each-set (Series s) (Series s) s.threads i t t' at_i inv.series (inv.series i t at_i)
              (λ j u apart h. h);
      },
    )

pub push-Held :
    (i n : ℕ) (s : State) (p : Point)
    → get_elem? s.threads i ≡ some (at productor n p)
    → Held s
    → Holds (push i s n p)
unfolding push
push-Held i n s at_place at_i held = elim (Bool-cases (s.sem_space == 0)) [
  | inl none_left ↦ rw (none_left) tt
  | inr some_left ↦ rw (some_left) (
      moves-Held i s (at productor n at_place) (at productor n at_lock) (s.sem_space - 1) s.sem_data
        s.sem_lock at_i (ground (arith, some_left)) refl refl refl refl (λ h. h) held)
]
push-Held i n s at_lock at_i held = elim (Bool-cases (s.sem_lock == 0)) [
  | inl taken ↦ rw (taken) tt
  | inr free ↦ rw (free) (
      moves-Held i s (at productor n at_lock) (at productor n at_array) s.sem_space s.sem_data
        (s.sem_lock - 1) at_i refl refl (ground (arith, free)) refl refl (λ h. h) held)
]
push-Held i n s at_array at_i held = stores-Held i n s at_i held
push-Held i n s at_index at_i held = writes_on-Held i n s at_i held
push-Held i n s at_unlock at_i held =
    moves-Held i s (at productor n at_unlock) (at productor n at_post) s.sem_space s.sem_data
      (s.sem_lock + 1) at_i refl refl (omega arith) refl refl (λ h. h) held
push-Held i n s at_post at_i held =
    moves-Held i s (at productor n at_post) (at productor n at_print) s.sem_space (s.sem_data + 1)
      s.sem_lock at_i refl (omega arith) refl refl refl (λ h. h) held
push-Held i n s at_print at_i held =
    moves-Held i s (at productor n at_print) (at productor (n + 1) at_place) s.sem_space s.sem_data
      s.sem_lock at_i refl refl refl refl refl
      (λ h is_p. let same : n + 1 ≡ n + 1 + 0 = omega arith in h is_p ∙ ap upto same) held
