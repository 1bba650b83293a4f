-- ===== src/Shell/Words.antt =====
-- The words of a line: its longest runs of characters other than white space.
use linux_note.Base.{
  ℕ, ◌≡◌, refl, inl, inr, Bool, true, false, not, List, [], ◌∷◌, ◌++◌, arith, ◌==◌, if◌then◌else◌,
  Bool-cases, length, drop-append, is_space, to_nul, string_at,
}

-- The line goes on with a character of a word.
abbrev starts_word : List ℕ → Bool
starts_word [] = false
starts_word (c ∷ s) = not (is_space c)

-- `c` before the words of a line that goes on with a word, or does not.
abbrev glue : ℕ → Bool → List (List ℕ) → List (List ℕ)
glue c false ws = (c ∷ []) ∷ ws
glue c true [] = (c ∷ []) ∷ []
glue c true (w ∷ ws) = (c ∷ w) ∷ ws

abbrev pub words : List ℕ → List (List ℕ)
words [] = []
words (c ∷ s) = if is_space c then words s else glue c (starts_word s) (words s)

abbrev pub take_word : List ℕ → List ℕ
take_word [] = []
take_word (c ∷ s) = if is_space c then [] else c ∷ take_word s

abbrev pub drop_word : List ℕ → List ℕ
drop_word [] = []
drop_word (c ∷ s) = if is_space c then c ∷ s else drop_word s

abbrev pub NoNul : List ℕ → Type 0
NoNul [] = Unit {0}
NoNul (c ∷ s) = ((c == 0) ≡ false) × NoNul s

abbrev pub IsWord : List ℕ → Type 0
IsWord [] = Unit {0}
IsWord (c ∷ s) = (is_space c ≡ false) × ((c == 0) ≡ false) × IsWord s

pub words-word :
    (c : ℕ) (s : List ℕ)
    → is_space c ≡ false
    → words (c ∷ s) ≡ (c ∷ take_word s) ∷ words (drop_word s)
words-word c [] h = rw h refl
words-word c (d ∷ s) h = elim (Bool-cases (is_space d)) [
  | inl space ↦ ground arith
  | inr letter ↦ ground (arith, words-word d s letter)
]

pub take-append-drop_word : (s : List ℕ) → take_word s ++ drop_word s ≡ s
take-append-drop_word [] = refl
take-append-drop_word (c ∷ s) = ground (arith, take-append-drop_word s)

pub take_word-IsWord : (s : List ℕ) → NoNul s → IsWord (take_word s)
take_word-IsWord [] h = tt
take_word-IsWord (c ∷ s) h = elim (Bool-cases (is_space c)) [
  | inl space ↦ rw space tt
  | inr letter ↦ rw letter (letter, h.0, take_word-IsWord s h.1)
]

pub IsWord-NoNul : (w : List ℕ) → IsWord w → NoNul w
IsWord-NoNul [] h = tt
IsWord-NoNul (c ∷ w) h = (h.1, IsWord-NoNul w h.2)

-- After a word the line ends or goes on with white space.
abbrev pub Stops : List ℕ → Type 0
Stops [] = Unit {0}
Stops (c ∷ s) = is_space c ≡ true

pub drop_word-Stops : (s : List ℕ) → Stops (drop_word s)
drop_word-Stops [] = tt
drop_word-Stops (c ∷ s) = elim (Bool-cases (is_space c)) [
  | inl space ↦ rw space space
  | inr letter ↦ rw letter (drop_word-Stops s)
]

pub NoNul-append : (s t : List ℕ) → NoNul (s ++ t) → NoNul t
NoNul-append [] t h = h
NoNul-append (c ∷ s) t h = NoNul-append s t h.1

pub to_nul-append : (w r : List ℕ) → NoNul w → to_nul (w ++ (0 ∷ r)) ≡ w
to_nul-append [] r h = refl
to_nul-append (c ∷ w) r h = rw (h.0, to_nul-append w r h.1) refl

pub string_at-append :
    (done w r : List ℕ) → NoNul w → string_at (done ++ (w ++ (0 ∷ r))) (length done) ≡ w
string_at-append done w r h = rw (drop-append done (w ++ (0 ∷ r))) (to_nul-append w r h)
