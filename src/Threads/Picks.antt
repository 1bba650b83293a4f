-- ===== src/Threads/Picks.antt =====
-- Threads that have a property, and the choice of one of them by a signal.
use linux_note.Base.{
  ℕ, zero, suc, ◌≡◌, refl, sym, ap, ◌∙◌, inl, inr, Bool, true, false, not, ◌&&◌, ◌||◌, Option, none,
  some, List, [], ◌∷◌, arith, ◌==◌, Bool-cases, eq_of_==, ne_of_==, get_elem?, set,
}
use linux_note.Threads.Crew.{get_elem?-set_self, get_elem?-set_ne, change, get_elem?-change}

module _ {A : Type 0} where
  -- Thread `j` is there, and has a property.
  abbrev pub Found : (A → Bool) → List A → ℕ → Type 0
  Found p ts j = (t : A) × (get_elem? ts j ≡ some t) × (p t ≡ true)

  pub Found-set :
      (p : A → Bool) (ts : List A) (i j : ℕ) (t t' : A)
      → get_elem? ts i ≡ some t
      → (i ≡ j → p t ≡ true → p t' ≡ true)
      → Found p ts j
      → Found p (set ts i t') j
  Found-set p ts i j t t' at_i keeps (u, at_j, has) = elim (Bool-cases (i == j)) [
    | inl is_j ↦
        let same = eq_of_== i j is_j in
        let both : some t ≡ some u = sym at_i ∙ ap (get_elem? ts) same ∙ at_j in
        let is_u : t ≡ u = cc in
        (
          t',
          ap (get_elem? (set ts i t')) (sym same) ∙ get_elem?-set_self ts i t t' at_i,
          keeps same (ap p is_u ∙ has),
        )
    | inr not_j ↦ (u, get_elem?-set_ne ts i j t' (ne_of_== i j not_j) ∙ at_j, has)
  ]

  pub Found-change :
      (p : A → Bool) (f : A → A) (ts : List A) (k j : ℕ)
      → ((t : A) → p t ≡ true → p (f t) ≡ true)
      → Found p ts j
      → Found p (change f ts k) j
  Found-change p f ts k j keeps (t, at_j, has) = elim (get_elem?-change f ts k j t at_j) [
    | inl same ↦ (t, same, has)
    | inr changed ↦ (f t, changed, keeps t has)
  ]

  -- Thread `k` has a property, or none has it.
  abbrev pub none_of : (A → Bool) → List A → Bool
  none_of p [] = true
  none_of p (t ∷ ts) = not (p t) && none_of p ts

  abbrev pub may_pick : (A → Bool) → (k : ℕ) → List A → Bool
  may_pick p k ts = none_of p ts || elim (get_elem? ts k) [ none ↦ false | some t ↦ p t ]

  pub can_pick : (p : A → Bool) (ts : List A) → (k : ℕ) × (may_pick p k ts ≡ true)
  can_pick p [] = (0, refl)
  can_pick p (t ∷ ts) =
      let (k, h) = can_pick p ts in
      elim (Bool-cases (p t)) [
        | inl has ↦ (0, ground (arith, has))
        | inr lacks ↦ (suc k, rw (lacks) h)
      ]

  none_of_lem :
      (p : A → Bool) (ts : List A) (j : ℕ) (t : A)
      → none_of p ts ≡ true
      → get_elem? ts j ≡ some t
      → p t ≡ false
  none_of_lem p [] j t none_has e = cc
  none_of_lem p (x ∷ ts) zero t none_has e =
      let same : x ≡ t = cc in
      let lacks : p x ≡ false = ground (arith, none_has) in sym (ap p same) ∙ lacks
  none_of_lem p (x ∷ ts) (suc j) t none_has e = none_of_lem p ts j t (ground (arith, none_has)) e

  -- After a change of a thread that was picked, a thread has `q`: the one that was picked, or thread `j`, which
  -- had it before unless it could be picked.
  pub Found-pick :
      (p q : A → Bool) (f : A → A) (ts : List A) (k j : ℕ) (t : A)
      → may_pick p k ts ≡ true
      → ((u : A) → p u ≡ true → q (f u) ≡ true)
      → ((u : A) → q u ≡ true → q (f u) ≡ true)
      → get_elem? ts j ≡ some t
      → (p t ≡ false → q t ≡ true)
      → (i : ℕ) × Found q (change f ts k) i
  Found-pick p q f ts k j t may picked keeps at_j else_has = elim (Bool-cases (none_of p ts)) [
    | inl none_has ↦
        (j, Found-change q f ts k j keeps (t, at_j, else_has (none_of_lem p ts j t none_has at_j)))
    | inr some_has ↦ (k, picked_at (get_elem? ts k) refl (rw some_has at may))
  ]
    where
      picked_at :
          (o : Option A)
          → get_elem? ts k ≡ o
          → (false || elim o [ none ↦ false | some u ↦ p u ]) ≡ true
          → Found q (elim o [ none ↦ ts | some u ↦ set ts k (f u) ]) k
      picked_at none e has = cc
      picked_at (some u) e has = (f u, get_elem?-set_self ts k u (f u) e, picked u has)
