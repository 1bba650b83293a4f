-- ===== src/Threads/BlockQueue/Works.antt =====
-- `push`, and `front` and `pop`, in bite/pthread/pro_con.cpp.
use linux_note.Base.{
  ℕ, suc, ◌+◌, ◌≤◌, ◌≡◌, refl, sym, ap, ◌∙◌, true, false, some, List, [], ◌∷◌, ◌++◌, map,
  append-nil, append_assoc, arith, ◌==◌, ==_refl, ne_of_==, length, get_elem?, set, length-append,
}
use mathlib.Core.Path.{subst}
use linux_note.Threads.Crew.{Each-set}
use linux_note.Threads.Entries.{
  Entry, Role, consumer, map-snoc, of_other, of_thread, of_thread-append, productor, upto,
}
use linux_note.Threads.BlockQueue.{at_work, at_unlock, Thread, State, fault, goes, must_wait, work}
use linux_note.Threads.BlockQueue.Invariant.{Fine, Inv, Holds, others-Fine, not_holder}

-- `push` by thread `i`.
pushes-Inv :
    (i : ℕ) (s : State) (t : Thread)
    → get_elem? s.threads i ≡ some t
    → t.point ≡ at_work
    → t.role ≡ productor
    → Inv s
    → Holds (work i s t productor)
unfolding work
pushes-Inv i s t at_i here is_p inv =
    let mine = inv.crew i t at_i in
    let e : Entry = record { by = i; value = t.number } in
    let holds : s.holder ≡ some i = mine.0 (rw (here) refl) in
    let room : (length s.queue == s.capacity) ≡ false =
      subst (λ r. must_wait r (length s.queue) s.capacity ≡ false) is_p (mine.1 here) in
    let own : of_thread i (e ∷ []) ≡ t.number ∷ [] = rw (==_refl i) refl in
    let next : t.number + 1 ≡ suc t.number = omega arith in
    let here_again : t.number + 0 ≡ t.number = omega arith in
    let made : of_thread i s.pushed ≡ upto (t.number + 0) = mine.2 is_p ∙ rw (here) refl in
    let s' : State = record s { queue = s.queue ++ t.number ∷ []; pushed = s.pushed ++ e ∷ [] } in
    record {
      order =
          map-snoc s.pushed e
          ∙ ap (λ l. l ++ t.number ∷ []) inv.order
          ∙ append_assoc (map (λ e. e.value) s.popped) s.queue (t.number ∷ []);
      few = omega (
        arith,
        length-append s.queue (t.number ∷ []),
        inv.few,
        ne_of_== (length s.queue) s.capacity room,
      );
      crew =
          Each-set (Fine s) (Fine s') s.threads i t (record t { point = at_unlock }) at_i inv.crew
            (
              λ _. holds,
              λ at. cc,
              λ _. of_thread-append i s.pushed e ∙ rw (own, made, here_again, next) refl,
            )
            (λ j u apart. others-Fine s s' j u (not_holder i j s.holder holds apart) (
              of_thread-append j s.pushed e
              ∙ rw (of_other j e apart) (append-nil (of_thread j s.pushed))));
    }

-- `front` and `pop` by thread `i`.
pops-Inv :
    (i : ℕ) (s : State) (t : Thread)
    → get_elem? s.threads i ≡ some t
    → t.point ≡ at_work
    → t.role ≡ consumer
    → Inv s
    → Holds (work i s t consumer)
unfolding work
pops-Inv i s t at_i here is_c inv = pops_of s.queue refl
  where
    pops_of :
        (q : List ℕ)
        → s.queue ≡ q
        → Holds (elim q [
          | [] ↦ fault
          | x ∷ xs ↦ goes (record s {
            queue = xs;
            popped = s.popped ++ record { by = i; value = x } ∷ [];
            threads = set s.threads i (record t { point = at_unlock; number = x });
          })
        ])
    pops_of [] e =
        let busy : must_wait consumer (length s.queue) s.capacity ≡ true = rw (e) refl in
        let free : must_wait consumer (length s.queue) s.capacity ≡ false =
          subst (λ r. must_wait r (length s.queue) s.capacity ≡ false) is_c
            ((inv.crew i t at_i).1 here) in
        cc
    pops_of (x ∷ xs) e =
        let mine = inv.crew i t at_i in
        let holds : s.holder ≡ some i = mine.0 (rw (here) refl) in
        let popped : Entry = record { by = i; value = x } in
        let s' : State = record s { queue = xs; popped = s.popped ++ popped ∷ [] } in
        let few : length (x ∷ xs) ≤ s.capacity = rw (e) at inv.few in
        let order : map (λ e. e.value) s.pushed ≡ map (λ e. e.value) s.popped ++ x ∷ xs =
          rw (e) at inv.order in
        record {
          order =
              order
              ∙ sym (append_assoc (map (λ e. e.value) s.popped) (x ∷ []) xs)
              ∙ ap (λ l. l ++ xs) (sym (map-snoc s.popped popped));
          few = omega (arith, few);
          crew =
              Each-set (Fine s) (Fine s') s.threads i t (record t { point = at_unlock; number = x })
                at_i inv.crew (λ _. holds, λ at. cc, λ is_p. cc)
                (λ j u apart. others-Fine s s' j u (not_holder i j s.holder holds apart) refl);
        }

pub works-Inv :
    (i : ℕ) (s : State) (t : Thread) (role : Role)
    → get_elem? s.threads i ≡ some t
    → t.point ≡ at_work
    → t.role ≡ role
    → Inv s
    → Holds (work i s t role)
works-Inv i s t productor at_i here is_p inv = pushes-Inv i s t at_i here is_p inv
works-Inv i s t consumer at_i here is_c inv = pops-Inv i s t at_i here is_c inv
