-- ===== src/Threads/Crew.antt =====
-- Lists of threads: what holds of each thread and its index, and sums over the threads.
use linux_note.Base.{
  ℕ, zero, suc, ◌+◌, ◌≤◌, ◌<◌, ◌≡◌, refl, sym, ap, ◌∙◌, ◌≢◌, ◌⊎◌, inl, inr, Option, none, some,
  List, [], ◌∷◌, ◌++◌, arith, ◌==◌, Bool-cases, eq_of_==, ne_of_==, length, get_elem?, set,
  replicate, length-set,
}
use mathlib.Core.Path.{subst}

module _ {A : Type 0} where
  pub get_elem?-set_self :
      (ts : List A) (i : ℕ) (t t' : A)
      → get_elem? ts i ≡ some t
      → get_elem? (set ts i t') i ≡ some t'
  get_elem?-set_self [] i t t' e = cc
  get_elem?-set_self (x ∷ ts) zero t t' e = refl
  get_elem?-set_self (x ∷ ts) (suc i) t t' e = get_elem?-set_self ts i t t' e

  pub get_elem?-set_ne :
      (ts : List A) (i j : ℕ) (t' : A) → i ≢ j → get_elem? (set ts i t') j ≡ get_elem? ts j
  get_elem?-set_ne [] i j t' h = refl
  get_elem?-set_ne (x ∷ ts) zero zero t' h = absurd (h refl)
  get_elem?-set_ne (x ∷ ts) zero (suc j) t' h = refl
  get_elem?-set_ne (x ∷ ts) (suc i) zero t' h = refl
  get_elem?-set_ne (x ∷ ts) (suc i) (suc j) t' h = get_elem?-set_ne ts i j t' (λ e. h (ap suc e))

  abbrev pub Each : (ℕ → A → Type 0) → List A → Type 0
  Each P ts = (j : ℕ) (t : A) → get_elem? ts j ≡ some t → P j t

  -- One thread changes, and what holds of the others changes with it.
  pub Each-set :
      (P Q : ℕ → A → Type 0) (ts : List A) (i : ℕ) (t t' : A)
      → get_elem? ts i ≡ some t
      → Each P ts
      → Q i t'
      → ((j : ℕ) (u : A) → i ≢ j → P j u → Q j u)
      → Each Q (set ts i t')
  Each-set P Q ts i t t' at_i all new others j u at_j = elim (Bool-cases (i == j)) [
    | inl e ↦
        let same = eq_of_== i j e in
        let at_j' : get_elem? (set ts i t') i ≡ some u =
          subst (λ k. get_elem? (set ts i t') k ≡ some u) (sym same) at_j in
        let is_new : some t' ≡ some u = sym (get_elem?-set_self ts i t t' at_i) ∙ at_j' in
        let moved : t' ≡ u = cc in subst (λ v. Q j v) moved (subst (λ k. Q k t') same new)
    | inr e ↦
        let apart = ne_of_== i j e in
        others j u apart (all j u (sym (get_elem?-set_ne ts i j t' apart) ∙ at_j))
  ]

  -- Thread `k`, if there is one, changes by a function.
  abbrev pub change : (A → A) → List A → ℕ → List A
  change f ts k = elim (get_elem? ts k) [ none ↦ ts | some t ↦ set ts k (f t) ]

  pub Each-change :
      (P : ℕ → A → Type 0) (f : A → A) (ts : List A) (k : ℕ)
      → ((j : ℕ) (t : A) → P j t → P j (f t))
      → Each P ts
      → Each P (change f ts k)
  Each-change P f ts k keeps all = Each-change_at (get_elem? ts k) refl
    where
      Each-change_at :
          (o : Option A)
          → get_elem? ts k ≡ o
          → Each P (elim o [ none ↦ ts | some t ↦ set ts k (f t) ])
      Each-change_at none e = all
      Each-change_at (some t) e =
          Each-set P P ts k t (f t) e all (keeps k t (all k t e)) (λ j u apart h. h)

  -- The sum of a number of each thread.
  abbrev pub sum_of : (A → ℕ) → List A → ℕ
  sum_of f [] = 0
  sum_of f (t ∷ ts) = f t + sum_of f ts

  pub sum_of-set :
      (f : A → ℕ) (ts : List A) (i : ℕ) (t t' : A)
      → get_elem? ts i ≡ some t
      → sum_of f (set ts i t') + f t ≡ sum_of f ts + f t'
  sum_of-set f [] i t t' e = cc
  sum_of-set f (x ∷ ts) zero t t' e = let same : x ≡ t = cc in rw (same) omega arith
  sum_of-set f (x ∷ ts) (suc i) t t' e = omega (arith, sum_of-set f ts i t t' e)

  pub sum_of_le :
      (f : A → ℕ) (ts : List A) (i : ℕ) (t : A) → get_elem? ts i ≡ some t → f t ≤ sum_of f ts
  sum_of_le f [] i t e = cc
  sum_of_le f (x ∷ ts) zero t e = let same : x ≡ t = cc in rw (same) omega arith
  sum_of_le f (x ∷ ts) (suc i) t e = omega (arith, sum_of_le f ts i t e)

  sum_of_mono : (f g : A → ℕ) (ts : List A) → ((u : A) → f u ≤ g u) → sum_of f ts ≤ sum_of g ts
  sum_of_mono f g [] below = omega arith
  sum_of_mono f g (x ∷ ts) below = omega (arith, below x, sum_of_mono f g ts below)

  -- A number that is never above another, and below it at one thread.
  pub sum_of_lt :
      (f g : A → ℕ) (ts : List A) (i : ℕ) (t : A)
      → ((u : A) → f u ≤ g u)
      → get_elem? ts i ≡ some t
      → f t < g t
      → sum_of f ts < sum_of g ts
  sum_of_lt f g [] i t below e less = cc
  sum_of_lt f g (x ∷ ts) zero t below e less =
      let same : x ≡ t = cc in
      let here : f x < g x = rw (same) less in omega (arith, here, sum_of_mono f g ts below)
  sum_of_lt f g (x ∷ ts) (suc i) t below e less =
      omega (arith, below x, sum_of_lt f g ts i t below e less)

  -- The threads that were just created.
  pub get_elem?-created :
      (n m : ℕ) (a b : A) (j : ℕ) (t : A)
      → get_elem? (replicate n a ++ replicate m b) j ≡ some t
      → (t ≡ a) ⊎ (t ≡ b)
  get_elem?-created zero zero a b j t e = cc
  get_elem?-created zero (suc m) a b zero t e = let same : b ≡ t = cc in inr (sym same)
  get_elem?-created zero (suc m) a b (suc j) t e = get_elem?-created zero m a b j t e
  get_elem?-created (suc n) m a b zero t e = let same : a ≡ t = cc in inl (sym same)
  get_elem?-created (suc n) m a b (suc j) t e = get_elem?-created n m a b j t e

  pub sum_of-change :
      (f : A → ℕ) (g : A → A) (ts : List A) (k : ℕ)
      → ((t : A) → f (g t) ≡ f t)
      → sum_of f (change g ts k) ≡ sum_of f ts
  sum_of-change f g ts k same = sum_of_change (get_elem? ts k) refl
    where
      sum_of_change :
          (o : Option A)
          → get_elem? ts k ≡ o
          → sum_of f (elim o [ none ↦ ts | some t ↦ set ts k (g t) ]) ≡ sum_of f ts
      sum_of_change none e = refl
      sum_of_change (some t) e = omega (arith, sum_of-set f ts k t (g t) e, same t)

  pub sum_of_zero : (f : A → ℕ) (ts : List A) → Each (λ j t. f t ≡ 0) ts → sum_of f ts ≡ 0
  sum_of_zero f [] all = refl
  sum_of_zero f (t ∷ ts) all =
      omega (arith, all 0 t refl, sum_of_zero f ts (λ j u e. all (suc j) u e))

  -- A thread after a change of thread `k`.
  pub get_elem?-change :
      (f : A → A) (ts : List A) (k j : ℕ) (t : A)
      → get_elem? ts j ≡ some t
      → (get_elem? (change f ts k) j ≡ some t) ⊎ (get_elem? (change f ts k) j ≡ some (f t))
  get_elem?-change f ts k j t at_j = get_changed (get_elem? ts k) refl
    where
      get_changed :
          (o : Option A)
          → get_elem? ts k ≡ o
          → (get_elem? (elim o [ none ↦ ts | some u ↦ set ts k (f u) ]) j ≡ some t)
            ⊎ (get_elem? (elim o [ none ↦ ts | some u ↦ set ts k (f u) ]) j ≡ some (f t))
      get_changed none e = inl at_j
      get_changed (some u) e = elim (Bool-cases (k == j)) [
        | inl is_j ↦
            let same = eq_of_== k j is_j in
            let both : some u ≡ some t = sym e ∙ ap (get_elem? ts) same ∙ at_j in
            let is_t : u ≡ t = cc in
            inr (
              ap (get_elem? (set ts k (f u))) (sym same)
              ∙ get_elem?-set_self ts k u (f u) e
              ∙ ap (λ v. some (f v)) is_t)
        | inr not_j ↦ inl (get_elem?-set_ne ts k j (f u) (ne_of_== k j not_j) ∙ at_j)
      ]

  pub length-change : (f : A → A) (ts : List A) (k : ℕ) → length (change f ts k) ≡ length ts
  length-change f ts k =
      elim (get_elem? ts k)
        as (λ o. length (elim o [ none ↦ ts | some u ↦ set ts k (f u) ]) ≡ length ts) [
          | none ↦ refl
          | some u ↦ length-set ts k (f u)
        ]
