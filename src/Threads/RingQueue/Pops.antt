-- ===== src/Threads/RingQueue/Pops.antt =====
-- The steps of `Pop` of bite/pthread/con_pro.cpp.
use linux_note.Base.{
  ℕ, ◌+◌, ◌-◌, ◌%◌, ◌≡◌, refl, sym, ap, ◌∙◌, inl, inr, some, [], ◌∷◌, ◌++◌, map, append_assoc,
  arith, ◌==◌, Bool-cases, get_elem?, get_or, set,
}
use linux_note.Threads.Crew.{Each-set, sum_of, sum_of-set, sum_of_le}
use linux_note.Threads.Entries.{productor, consumer, Entry, map-snoc}
use linux_note.Threads.RingQueue.{
  Point, at_place, at_lock, at_array, at_index, at_unlock, at_post, at_print, Thread, State, pop,
}
use linux_note.Threads.RingQueue.Invariant.{
  at, inside, owing, owed, late, of_role, crew_of, Series, Held, Holds, none_late, moves-Held,
}

-- `*data = _array[_pos_read]`.
loads-Held :
    (i n : ℕ) (s : State)
    → get_elem? s.threads i ≡ some (at consumer n at_array)
    → Held s
    → Holds (pop i s n at_array)
unfolding pop
loads-Held i n s at_i ([], inv) =
    let claim = sum_of_le (of_role consumer owing) s.threads i (at consumer n at_array) at_i in
    absurd (omega (arith, inv.full, claim))
loads-Held i n s at_i (x ∷ xs, inv) =
    let value = get_or s.array s.pos_read 0 in
    let t = at consumer n at_array in
    let t' = at consumer value at_index in
    let e : Entry = record { by = i; value = value } in
    let moves = λ (f : Thread → ℕ). sum_of-set f s.threads i t t' at_i in
    let no_reader = none_late consumer consumer s i n at_i inv.one in
    let first : (s.pos_read + crew_of consumer late s) % 5 ≡ s.pos_read =
      omega (arith, no_reader, inv.read_in) in
    let loaded : get_or s.array s.pos_read 0 ≡ x = rw first at inv.cells.0 in
    let on : ((s.pos_read + crew_of consumer late s) % 5 + 1) % 5
        ≡ (s.pos_read + sum_of (of_role consumer late) (set s.threads i t')) % 5 =
      omega (arith, moves (of_role consumer late)) in
    (
      xs,
      record {
        order =
            inv.order
            ∙ ap (λ y. map (λ e. e.value) s.popped ++ y ∷ xs) (sym loaded)
            ∙ sym (append_assoc (map (λ e. e.value) s.popped) (value ∷ []) xs)
            ∙ ap (λ l. l ++ xs) (sym (map-snoc s.popped e));
        cells = rw on at inv.cells.1;
        back =
            omega (arith, inv.back, moves (of_role consumer late), moves (of_role productor late));
        free =
            omega (arith, inv.free, moves (of_role productor owing), moves (of_role consumer owed));
        full =
            omega (arith, inv.full, moves (of_role productor owed), moves (of_role consumer owing));
        one = omega (arith, inv.one, moves inside);
        write_in = inv.write_in;
        read_in = inv.read_in;
        size = inv.size;
        series =
            Each-set (Series s) (Series s) s.threads i t t' at_i inv.series (λ is_p. cc)
              (λ j u apart h. h);
      },
    )

-- `_pos_read = (_pos_read + 1) % _capacity`.
reads_on-Held :
    (i n : ℕ) (s : State)
    → get_elem? s.threads i ≡ some (at consumer n at_index)
    → Held s
    → Holds (pop i s n at_index)
unfolding pop
reads_on-Held i n s at_i (pending, inv) =
    let t = at consumer n at_index in
    let t' = at consumer n at_unlock in
    let moves = λ (f : Thread → ℕ). sum_of-set f s.threads i t t' at_i in
    let same : (s.pos_read + crew_of consumer late s) % 5
        ≡ ((s.pos_read + 1) % 5 + sum_of (of_role consumer late) (set s.threads i t')) % 5 =
      omega (arith, moves (of_role consumer late)) in
    (
      pending,
      record {
        order = inv.order;
        cells = rw same at inv.cells;
        back =
            omega (arith, inv.back, moves (of_role consumer late), moves (of_role productor late));
        free =
            omega (arith, inv.free, moves (of_role productor owing), moves (of_role consumer owed));
        full =
            omega (arith, inv.full, moves (of_role productor owed), moves (of_role consumer owing));
        one = omega (arith, inv.one, moves inside);
        write_in = inv.write_in;
        read_in = omega arith;
        size = inv.size;
        series =
            Each-set (Series s) (Series s) s.threads i t t' at_i inv.series (λ is_p. cc)
              (λ j u apart h. h);
      },
    )

pub pop-Held :
    (i n : ℕ) (s : State) (p : Point)
    → get_elem? s.threads i ≡ some (at consumer n p)
    → Held s
    → Holds (pop i s n p)
unfolding pop
pop-Held i n s at_place at_i held = elim (Bool-cases (s.sem_data == 0)) [
  | inl none_left ↦ rw (none_left) tt
  | inr some_left ↦ rw (some_left) (
      moves-Held i s (at consumer n at_place) (at consumer n at_lock) s.sem_space (s.sem_data - 1)
        s.sem_lock at_i refl (ground (arith, some_left)) refl refl refl (λ h is_p. cc) held)
]
pop-Held i n s at_lock at_i held = elim (Bool-cases (s.sem_lock == 0)) [
  | inl taken ↦ rw (taken) tt
  | inr free ↦ rw (free) (
      moves-Held i s (at consumer n at_lock) (at consumer n at_array) s.sem_space s.sem_data
        (s.sem_lock - 1) at_i refl refl (ground (arith, free)) refl refl (λ h is_p. cc) held)
]
pop-Held i n s at_array at_i held = loads-Held i n s at_i held
pop-Held i n s at_index at_i held = reads_on-Held i n s at_i held
pop-Held i n s at_unlock at_i held =
    moves-Held i s (at consumer n at_unlock) (at consumer n at_post) s.sem_space s.sem_data
      (s.sem_lock + 1) at_i refl refl (omega arith) refl refl (λ h is_p. cc) held
pop-Held i n s at_post at_i held =
    moves-Held i s (at consumer n at_post) (at consumer n at_print) (s.sem_space + 1) s.sem_data
      s.sem_lock at_i (omega arith) refl refl refl refl (λ h is_p. cc) held
pop-Held i n s at_print at_i held =
    moves-Held i s (at consumer n at_print) (at consumer n at_place) s.sem_space s.sem_data
      s.sem_lock at_i refl refl refl refl refl (λ h is_p. cc) held
