-- ===== src/Shell/Prompt.antt =====
-- A round of the prompts of bite/pctrl/shell.c and bite/pctrl/Myshell.c, from the line typed to the
-- command run.
use linux_note.Base.{
  ℕ, zero, suc, ◌+◌, ◌-◌, ◌<◌, ◌≡◌, refl, sym, ap, ◌∙◌, ◌≢◌, true, false, some, List, [], ◌∷◌, ◌++◌,
  map, append-nil, append_assoc, arith, ltb, ◌==◌, length, drop, replicate, length-append, newline,
  blank, is_space, first_line, to_nul, string_at, store, store-append,
}
use linux_note.Shell.{
  buffer_size, argv_size, Command, cut, fgets, chop, parse, fork_failed, in_child, in_parent,
  next_prompt, wait_child, exec, args, shell_turn, my_shell_turn,
}
use linux_note.Shell.Words.{words, take_word, drop_word, NoNul, IsWord, words-word, Stops}
use linux_note.Shell.Cut.{CutsTo, cut_lem}

-- A line as it is typed: no 0 and no newline in it.
abbrev pub IsLine : List ℕ → Type 0
IsLine [] = Unit {0}
IsLine (c ∷ s) = ((c == 0) ≡ false) × ((c == newline) ≡ false) × IsLine s

pub IsLine-NoNul : (s : List ℕ) → IsLine s → NoNul s
IsLine-NoNul [] h = tt
IsLine-NoNul (c ∷ s) h = (h.0, IsLine-NoNul s h.2)

first_line-append :
    (m : ℕ) (s more : List ℕ)
    → IsLine s
    → length s < m
    → first_line m (s ++ (newline ∷ more)) ≡ s ++ (newline ∷ [])
first_line-append zero s more h short = absurd (omega arith)
first_line-append (suc m) [] more h short = refl
first_line-append (suc m) (c ∷ s) more h short =
    rw (h.1, first_line-append m s more h.2 (omega arith)) refl

pub fgets_lem :
    (old s more : List ℕ)
    → IsLine s
    → length s < 1022
    → fgets old (s ++ (newline ∷ more)) ≡ s ++ (newline ∷ 0 ∷ drop (length s + 2) old)
fgets_lem old [] more h short = refl
fgets_lem old (c ∷ s) more h short =
    let line = first_line-append 1022 (c ∷ s) more h short in
    rw (line, append_assoc s (newline ∷ []), length-append s (newline ∷ []))
      (ap (λ n. c ∷ (s ++ (newline ∷ 0 ∷ drop n old))) (omega arith))

to_nul-line : (s tail : List ℕ) → NoNul s → to_nul (s ++ (newline ∷ 0 ∷ tail)) ≡ s ++ (newline ∷ [])
to_nul-line [] tail h = refl
to_nul-line (c ∷ s) tail h = rw (h.0, to_nul-line s tail h.1) refl

pub chop_lem :
    (s tail : List ℕ) → NoNul s → chop (s ++ (newline ∷ 0 ∷ tail)) ≡ some (s ++ (0 ∷ 0 ∷ tail))
chop_lem s tail h =
    let long : length (to_nul (s ++ (newline ∷ 0 ∷ tail))) ≡ length s + 1 =
      ap length (to_nul-line s tail h) ∙ omega (arith, length-append s (newline ∷ [])) in
    let stored : store (s ++ (newline ∷ 0 ∷ tail)) (length s) 0 ≡ some (s ++ (0 ∷ 0 ∷ tail)) =
      store-append s (0 ∷ tail) newline 0 in
    let at : length s + 1 - 1 ≡ length s = omega arith in rw (long, at) (ground (arith, stored))

length-map {ℓ κ} :
    {A : Type ℓ} {B : Type κ} (f : A → B) (xs : List A) → length (map f xs) ≡ length xs
length-map f [] = refl
length-map f (x ∷ xs) = ap suc (length-map f xs)

-- A line of less than 32 words, in a buffer of the size of the code's, is cut with no fault into
-- its words, whatever the buffer held before.
pub parse_lem :
    (old s more : List ℕ)
    → IsLine s
    → length s < 1022
    → length (words s) < argv_size
    → (c : Command) × (parse old (s ++ (newline ∷ more)) ≡ some c) × (args c ≡ words s)
unfolding parse CutsTo
parse_lem old s more line short few =
    let tail = drop (length s + 2) old in
    let start = s ++ (0 ∷ 0 ∷ tail) in
    let (rest, ptrs, e, ws) = cut_lem (length start) [] s tail [] start 0 (record {
      enough = omega (arith, length-append s (0 ∷ 0 ∷ tail));
      text = IsLine-NoNul s line;
      room = omega arith;
      split = refl;
      at = refl;
    }) in
    let c : Command = record { buf = rest; argv = ptrs } in
    let cut_e : cut (length start) start 0 [] ≡ some c = e in
    let room : ltb (length ptrs) argv_size ≡ true =
      ground (arith, few, ap length ws, length-map (string_at rest) ptrs) in
    (
      c,
      rw (fgets_lem old s more line short, chop_lem s tail (IsLine-NoNul s line), cut_e, room) refl,
      ws,
    )

-- A round of either prompt, for a line of less than 1022 characters without 0 and of less than 32 words: the child runs the words of the line
-- and has exit code 0 in shell.c, 1 in Myshell.c, if that fails; the parent waits for it; and if
-- `fork` fails the next round begins.
turns_run_words :
    (old s more : List ℕ)
    → IsLine s
    → length s < 1022
    → length (words s) < argv_size
    → let input = s ++ (newline ∷ more) in
      (shell_turn input in_child ≡ some (exec (words s) 0))
      × (my_shell_turn old input in_child ≡ some (exec (words s) 1))
      × (shell_turn input in_parent ≡ some wait_child)
      × (my_shell_turn old input in_parent ≡ some wait_child)
      × (shell_turn input fork_failed ≡ some next_prompt)
      × (my_shell_turn old input fork_failed ≡ some next_prompt)
unfolding shell_turn my_shell_turn
turns_run_words old s more line short few =
    let (c, e, ws) = parse_lem (replicate buffer_size 0) s more line short few in
    let (c', e', ws') = parse_lem old s more line short few in
    (rw (e, ws) refl, rw (e', ws') refl, rw e refl, rw e' refl, rw e refl, rw e' refl)

-- Words with a blank between each two.
abbrev pub join : List (List ℕ) → List ℕ
join [] = []
join (w ∷ []) = w
join (w ∷ v ∷ ws) = w ++ (blank ∷ join (v ∷ ws))

abbrev pub AreWords : List (List ℕ) → Type 0
AreWords [] = Unit {0}
AreWords (w ∷ ws) = (w ≢ []) × IsWord w × AreWords ws

take_word-append :
    (w s : List ℕ) → IsWord w → Stops s → (take_word (w ++ s) ≡ w) × (drop_word (w ++ s) ≡ s)
take_word-append [] [] h stops = (refl, refl)
take_word-append [] (c ∷ s) h stops = ground arith
take_word-append (c ∷ w) s h stops = ground (arith, take_word-append w s h.2 stops)

words-append : (w s : List ℕ) → w ≢ [] → IsWord w → Stops s → words (w ++ s) ≡ w ∷ words s
words-append [] s ne h stops = absurd (ne refl)
words-append (c ∷ w) s ne h stops =
    let (front, back) = take_word-append w s h.2 stops in
    words-word c (w ++ s) h.0 ∙ rw (front, back) refl

blank_space : is_space blank ≡ true
unfolding is_space
blank_space = refl

-- The words of words joined by blanks are those words.
words-join : (ws : List (List ℕ)) → AreWords ws → words (join ws) ≡ ws
words-join [] h = refl
words-join (w ∷ []) h = ap words (sym (append-nil w)) ∙ words-append w [] h.0 h.1 tt
words-join (w ∷ v ∷ ws) h =
    let rest : words (blank ∷ join (v ∷ ws)) ≡ v ∷ ws = rw blank_space (words-join (v ∷ ws) h.2) in
    words-append w (blank ∷ join (v ∷ ws)) h.0 h.1 blank_space ∙ ap (λ l. w ∷ l) rest

letter_no_newline : (c : ℕ) → is_space c ≡ false → (c == newline) ≡ false
unfolding is_space
letter_no_newline c h = ground arith

IsLine-append : (w s : List ℕ) → IsWord w → IsLine s → IsLine (w ++ s)
IsLine-append [] s h line = line
IsLine-append (c ∷ w) s h line = (h.1, letter_no_newline c h.0, IsLine-append w s h.2 line)

IsLine-join : (ws : List (List ℕ)) → AreWords ws → IsLine (join ws)
IsLine-join [] h = tt
IsLine-join (w ∷ []) h = rw (append-nil w) at (IsLine-append w [] h.1 tt)
IsLine-join (w ∷ v ∷ ws) h =
    IsLine-append w (blank ∷ join (v ∷ ws)) h.1 (refl, refl, IsLine-join (v ∷ ws) h.2)

-- Fewer than 32 words, without white space and 0 and none empty, typed with a blank between each two, on a line of less than 1022 characters,
-- are the arguments that the child runs, in both shells.
pub typed_words_run :
    (old more : List ℕ) (ws : List (List ℕ))
    → AreWords ws
    → length (join ws) < 1022
    → length ws < argv_size
    → let input = join ws ++ (newline ∷ more) in
      (shell_turn input in_child ≡ some (exec ws 0))
      × (my_shell_turn old input in_child ≡ some (exec ws 1))
typed_words_run old more ws are short few =
    let same = words-join ws are in
    let turns = turns_run_words old (join ws) more (IsLine-join ws are) short (rw same few) in
    (rw same at turns.0, rw same at turns.1)
