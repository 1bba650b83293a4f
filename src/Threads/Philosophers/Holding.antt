-- ===== src/Threads/Philosophers/Holding.antt =====
-- The invariant of LinuxC/pthread/TheDinningPhilosophersProblem/phil_pro_mutex.c.
use linux_note.Base.{
  ℕ, ◌<◌, ◌≡◌, refl, sym, ap, ◌∙◌, ◌≢◌, ◌⊎◌, inl, inr, Bool, true, false, Option, none, some, arith,
  ◌==◌, Bool-cases, ==_refl, eq_of_==, ne_of_==,
}
use mathlib.Core.Path.{subst}
use linux_note.Threads.Philosophers.{
  Point, at_first, at_second, eating, at_release, State, update, right, moved, lock, philosopher,
}

-- The chopsticks that a philosopher holds where it stands.
abbrev pub has_first : Point → Bool
has_first at_first = false
has_first _ = true

abbrev pub has_second : Point → Bool
has_second eating = true
has_second _ = false

-- Philosopher `i` holds chopstick `c` where it stands.
abbrev pub Has : ℕ → Point → ℕ → Type 0
Has i p c = ((c ≡ i) × (has_first p ≡ true)) ⊎ ((c ≡ right i) × (has_second p ≡ true))

-- A philosopher holds what it has, and each chopstick that is held is held by one that has it.
pub record Inv (s : State) : Type 0 where
  pub holds : (i c : ℕ) → i < 5 → Has i (s.phil i) c → s.chops c ≡ some i
  pub held : (c i : ℕ) → s.chops c ≡ some i → (i < 5) × Has i (s.phil i) c

abbrev pub Holds : Option State → Type 0
Holds none = Unit
Holds (some s) = Inv s

update_self : {A : Type 0} (f : ℕ → A) (i : ℕ) (v : A) → update f i v i ≡ v
update_self f i v = rw (==_refl i) refl

update_ne : {A : Type 0} (f : ℕ → A) (i j : ℕ) (v : A) → j ≢ i → update f i v j ≡ f j
update_ne f i j v apart = elim (Bool-cases (j == i)) [
  | inl e ↦ absurd (apart (eq_of_== j i e))
  | inr e ↦ rw (e) refl
]

right_ne : (i : ℕ) → i < 5 → right i ≢ i
right_ne i small e = omega (arith, small, e)

-- Philosopher `n` moves, and chopstick `c` changes its holder: what the other chopsticks have in common with
-- the philosophers stays.
moved-Inv :
    (n c : ℕ) (holder : Option ℕ) (p : Point) (s : State)
    → n < 5
    → ((c' : ℕ) → c' ≢ c → Has n p c' → Has n (s.phil n) c')
    → ((c' : ℕ) → c' ≢ c → Has n (s.phil n) c' → Has n p c')
    → (Has n p c → holder ≡ some n)
    → ((i : ℕ) → i ≢ n → s.chops c ≢ some i)
    → ((i : ℕ) → holder ≡ some i → (i ≡ n) × Has n p c)
    → Inv s
    → Inv (moved n c holder p s)
moved-Inv n c holder p s small back on has others owner inv = record {
  holds = λ i c' i_small h. elim (Bool-cases (i == n)) [
    | inl is_n ↦
        let same = eq_of_== i n is_n in
        let here : Has n p c' =
          subst (λ q. Has n q c') (update_self s.phil n p)
            (subst (λ k. Has k (update s.phil n p k) c') same h) in
        elim (Bool-cases (c' == c)) [
          | inl is_c ↦
              rw (is_c) (has (subst (Has n p) (eq_of_== c' c is_c) here) ∙ ap some (sym same))
          | inr not_c ↦
              rw (not_c)
                (inv.holds n c' small (back c' (ne_of_== c' c not_c) here) ∙ ap some (sym same))
        ]
    | inr not_n ↦
        let apart = ne_of_== i n not_n in
        let here : Has i (s.phil i) c' = subst (λ q. Has i q c') (update_ne s.phil n i p apart) h in
        let was = inv.holds i c' i_small here in
        elim (Bool-cases (c' == c)) [
          | inl is_c ↦
              absurd (others i apart (subst (λ k. s.chops k ≡ some i) (eq_of_== c' c is_c) was))
          | inr not_c ↦ rw (not_c) was
        ]
  ];
  held = λ c' i h. elim (Bool-cases (c' == c)) [
    | inl is_c ↦
        let now : holder ≡ some i = rw is_c at h in
        let (same, here) = owner i now in
        (
          omega (arith, same, small),
          subst (λ k. Has k (update s.phil n p k) c') (sym same)
              (subst (λ q. Has n q c') (sym (update_self s.phil n p))
                (subst (Has n p) (sym (eq_of_== c' c is_c)) here)),
        )
    | inr not_c ↦
        let was : s.chops c' ≡ some i = rw not_c at h in
        let (i_small, here) = inv.held c' i was in
        (
          i_small,
          elim (Bool-cases (i == n)) [
            | inl is_n ↦
                let same = eq_of_== i n is_n in
                subst (λ k. Has k (update s.phil n p k) c') (sym same)
                  (subst (λ q. Has n q c') (sym (update_self s.phil n p))
                    (on c' (ne_of_== c' c not_c) (subst (λ k. Has k (s.phil k) c') same here)))
            | inr not_n ↦
                subst (λ q. Has i q c') (sym (update_ne s.phil n i p (ne_of_== i n not_n))) here
          ],
        )
  ];
}

pub some_inj : (i j : ℕ) → some i ≡ some j → i ≡ j
some_inj i j e = ap (λ (o : Option ℕ). elim o [ none ↦ 0 | some k ↦ k ]) e

not_other : (n : ℕ) (o : Option ℕ) → o ≡ some n → (i : ℕ) → i ≢ n → o ≢ some i
not_other n o is_n i apart is_i = apart (some_inj i n (sym is_i ∙ is_n))

locks_first-Inv :
    (n : ℕ) (s : State)
    → n < 5
    → s.phil n ≡ at_first
    → Inv s
    → (o : Option ℕ) → s.chops n ≡ o
    → Holds (lock n n at_second s o)
unfolding lock
locks_first-Inv n s small here inv (some j) e = tt
locks_first-Inv n s small here inv none e =
    moved-Inv n n (some n) at_second s small
      (λ c' apart h. elim h [ inl (same, _) ↦ absurd (apart same) | inr (_, has) ↦ cc ])
      (λ c' apart h.
        let h' : Has n at_first c' = subst (λ q. Has n q c') here h in
        elim h' [ inl (_, has) ↦ cc | inr (_, has) ↦ cc ])
      (λ h. refl) (λ i apart is_i. cc) (λ i is_i. (some_inj i n (sym is_i), inl (refl, refl))) inv

locks_second-Inv :
    (n : ℕ) (s : State)
    → n < 5
    → s.phil n ≡ at_second
    → Inv s
    → (o : Option ℕ) → s.chops (right n) ≡ o
    → Holds (lock n (right n) eating s o)
unfolding lock
locks_second-Inv n s small here inv (some j) e = tt
locks_second-Inv n s small here inv none e =
    moved-Inv n (right n) (some n) eating s small
      (λ c' apart h.
        subst (λ q. Has n q c') (sym here)
          (elim h [ inl (same, _) ↦ inl (same, refl) | inr (same, _) ↦ absurd (apart same) ]))
      (λ c' apart h.
        let h' : Has n at_second c' = subst (λ q. Has n q c') here h in
        elim h' [ inl (same, _) ↦ inl (same, refl) | inr (_, has) ↦ cc ])
      (λ h. refl) (λ i apart is_i. cc) (λ i is_i. (some_inj i n (sym is_i), inr (refl, refl))) inv

pub philosopher-Inv :
    (n : ℕ) (s : State) (p : Point) → n < 5 → s.phil n ≡ p → Inv s → Holds (philosopher n s p)
unfolding philosopher
philosopher-Inv n s at_first small here inv = locks_first-Inv n s small here inv (s.chops n) refl
philosopher-Inv n s at_second small here inv =
    locks_second-Inv n s small here inv (s.chops (right n)) refl
philosopher-Inv n s eating small here inv =
    moved-Inv n (right n) none at_release s small
      (λ c' apart h.
        subst (λ q. Has n q c') (sym here)
          (elim h [ inl (same, _) ↦ inl (same, refl) | inr (_, has) ↦ cc ]))
      (λ c' apart h.
        let h' : Has n eating c' = subst (λ q. Has n q c') here h in
        elim h' [ inl (same, _) ↦ inl (same, refl) | inr (same, _) ↦ absurd (apart same) ])
      (λ h. elim h [ inl (same, _) ↦ absurd (right_ne n small same) | inr (_, has) ↦ cc ])
      (not_other n (s.chops (right n)) (inv.holds n (right n) small (inr (refl, rw (here) refl))))
      (λ i is_i. cc) inv
philosopher-Inv n s at_release small here inv =
    moved-Inv n n none at_first s small
      (λ c' apart h. elim h [ inl (_, has) ↦ cc | inr (_, has) ↦ cc ])
      (λ c' apart h.
        let h' : Has n at_release c' = subst (λ q. Has n q c') here h in
        elim h' [ inl (same, _) ↦ absurd (apart same) | inr (_, has) ↦ cc ])
      (λ h. elim h [ inl (_, has) ↦ cc | inr (_, has) ↦ cc ])
      (not_other n (s.chops n) (inv.holds n n small (inl (refl, rw (here) refl)))) (λ i is_i. cc)
      inv
