-- ===== src/Shell/Tests.antt =====
-- A line typed at the prompts of bite/pctrl/shell.c and Myshell.c.
use linux_note.Base.{ℕ, ◌≡◌, refl, some, List, [], ◌∷◌, ◌++◌, arith, newline, is_space}
use linux_note.Shell.{in_child, exec, shell_turn, my_shell_turn}
use linux_note.Shell.Words.{words}
use linux_note.Shell.Prompt.{IsLine, AreWords, join, typed_words_run}

-- `a  b`
abbrev line : List ℕ
line = 97 ∷ 32 ∷ 32 ∷ 98 ∷ []

line-IsLine : IsLine line
line-IsLine = search tt depth 20

abbrev typed : List (List ℕ)
typed = (97 ∷ []) ∷ (98 ∷ 99 ∷ []) ∷ []

typed-AreWords : AreWords typed
unfolding is_space
typed-AreWords = ((λ e. cc), (refl, refl, tt), ((λ e. cc), (refl, refl, (refl, refl, tt)), tt))

words_of_line : words line ≡ (97 ∷ []) ∷ (98 ∷ []) ∷ []
unfolding is_space
words_of_line = refl

typed_words_run_example :
    let input = join typed ++ newline ∷ [] in
    (shell_turn input in_child ≡ some (exec typed 0))
    × (my_shell_turn [] input in_child ≡ some (exec typed 1))
typed_words_run_example = typed_words_run [] [] typed typed-AreWords (omega arith) (omega arith)
