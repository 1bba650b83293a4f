-- ===== src/MiniShell/Tests.antt =====
-- Lines of bite/pctrl/mini_shell.c, with and without redirections.
use linux_note.Base.{
  ℕ, ◌≡◌, refl, Option, none, some, List, [], ◌∷◌, ◌++◌, map, arith, newline, is_space, string_at,
}
use linux_note.Shell.{skip_word}
use linux_note.Shell.Words.{words}
use linux_note.Shell.Prompt.{IsLine}
use linux_note.MiniShell.{Cmd, parse, redirect_in, redirect_out, file_name, skip_spaces}
use linux_note.MiniShell.Plain.{NoSign, plain_parse}

-- `a b`
abbrev line : List ℕ
line = 97 ∷ 32 ∷ 98 ∷ []

line-IsLine : IsLine line
line-IsLine = search tt depth 20

line-NoSign : NoSign line
line-NoSign = search tt depth 20

plain_parse_example :
    (m : Cmd) × (parse (line ++ newline ∷ []) ≡ some m)
    × (map (string_at m.buf) m.argv ≡ words line)
    × (m.relocate_flag ≡ 0)
    × (m.filename_in ≡ none)
    × (m.filename_out ≡ none)
unfolding is_space
plain_parse_example = plain_parse line [] line-IsLine line-NoSign (omega arith) (omega arith)

abbrev cmd : List ℕ → (flag : ℕ) → (filename_in filename_out : Option ℕ) → Cmd
cmd buf flag filename_in filename_out = record {
  buf = buf;
  argv = [];
  relocate_flag = flag;
  filename_in = filename_in;
  filename_out = filename_out;
}

-- `<f >g`, and after the redirections of the input and of the output.
abbrev in_out : Cmd
in_out = cmd (b'<' ∷ 102 ∷ 32 ∷ b'>' ∷ 103 ∷ 0 ∷ []) 0 none none

abbrev in_done : Cmd
in_done = cmd (b'<' ∷ 102 ∷ 0 ∷ b'>' ∷ 103 ∷ 0 ∷ []) 4 (some 1) none

abbrev in_out_done : Cmd
in_out_done = cmd (b'<' ∷ 102 ∷ 0 ∷ b'>' ∷ 103 ∷ 0 ∷ []) 1 (some 1) (some 4)

-- `>g <f`.
abbrev out_in : Cmd
out_in = cmd (b'>' ∷ 103 ∷ 32 ∷ b'<' ∷ 102 ∷ 0 ∷ []) 0 none none

abbrev out_done : Cmd
out_done = cmd (b'>' ∷ 103 ∷ 0 ∷ b'<' ∷ 102 ∷ 0 ∷ []) 1 none (some 1)

abbrev out_in_done : Cmd
out_in_done = cmd (b'>' ∷ 103 ∷ 0 ∷ b'<' ∷ 102 ∷ 0 ∷ []) 5 (some 4) (some 1)

in_run : redirect_in in_out 0 ≡ some (in_done, 3)
unfolding redirect_in file_name skip_spaces skip_word is_space
in_run = refl

in_out_run : redirect_out in_done 3 ≡ some (in_out_done, 6)
unfolding redirect_out file_name skip_spaces skip_word is_space
in_out_run = refl

out_run : redirect_out out_in 0 ≡ some (out_done, 3)
unfolding redirect_out file_name skip_spaces skip_word is_space
out_run = refl

out_in_run : redirect_in out_done 3 ≡ some (out_in_done, 6)
unfolding redirect_in file_name skip_spaces skip_word is_space
out_in_run = refl
