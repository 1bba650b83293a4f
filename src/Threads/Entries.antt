-- ===== src/Threads/Entries.antt =====
-- Productors and consumers of bite/pthread/pro_con.cpp and con_pro.cpp, and what each has put in or taken out.
use linux_note.Base.{
  ℕ, zero, suc, ◌≡◌, refl, ap, ◌≢◌, inl, inr, List, [], ◌∷◌, ◌++◌, map, ◌==◌, if◌then◌else◌,
  Bool-cases, eq_of_==,
}

pub data Role : Type 0 where
  productor consumer : Role

-- A number with the thread that pushed or popped it.
pub record Entry : Type 0 where
  pub by : ℕ
  pub value : ℕ

-- The numbers that one thread pushed or popped.
abbrev pub of_thread : ℕ → List Entry → List ℕ
of_thread j [] = []
of_thread j (e ∷ es) = let rest = of_thread j es in if e.by == j then e.value ∷ rest else rest

-- 0, 1 and so on below `n`.
abbrev pub upto : ℕ → List ℕ
upto zero = []
upto (suc n) = upto n ++ n ∷ []

pub of_thread-append :
    (j : ℕ) (es : List Entry) (e : Entry)
    → of_thread j (es ++ e ∷ []) ≡ of_thread j es ++ of_thread j (e ∷ [])
of_thread-append j [] e = refl
of_thread-append j (x ∷ es) e = elim (Bool-cases (x.by == j)) [
  | inl is_j ↦ rw (is_j) (ap (λ l. x.value ∷ l) (of_thread-append j es e))
  | inr no_j ↦ rw (no_j) (of_thread-append j es e)
]

pub of_other : (j : ℕ) (e : Entry) → e.by ≢ j → of_thread j (e ∷ []) ≡ []
of_other j e apart = elim (Bool-cases (e.by == j)) [
  | inl is_j ↦ absurd (apart (eq_of_== e.by j is_j))
  | inr no_j ↦ rw (no_j) refl
]

pub map-snoc :
    (es : List Entry) (e : Entry)
    → map (λ e. e.value) (es ++ e ∷ []) ≡ map (λ e. e.value) es ++ e.value ∷ []
map-snoc [] e = refl
map-snoc (x ∷ es) e = ap (λ l. x.value ∷ l) (map-snoc es e)
