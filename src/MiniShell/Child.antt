-- ===== src/MiniShell/Child.antt =====
-- The child process of bite/pctrl/mini_shell.c: what its standard input and output are when it runs
-- the command.
use linux_note.Base.{
  ℕ, ◌+◌, ◌≡◌, refl, ◌≢◌, inl, inr, Bool, true, false, ◌&&◌, Option, none, some, List, [], ◌∷◌,
  arith, ◌==◌, if◌then◌else◌, Bool-cases, eq_of_==,
}
use linux_note.MiniShell.{
  Cmd, redirect_out, redirect_in, Mode, truncates, appends, reads, Effect, opens, dup2, execvp,
  exits, has_bit,
}

-- A file that was opened: how, and the pointer to its name.
abbrev File : Type 0
File = Mode × Option ℕ

-- The files that stand in place of the descriptors 0 and 1, if any.
pub record Streams : Type 0 where
  pub input : Option File
  pub output : Option File

abbrev put : Option File → ℕ → Streams → Streams
put file n s =
    if n == 0 then record s { input = file } else if n == 1 then record s { output = file } else s

-- The streams at the first `execvp` of a list of effects, from the file that was opened last; `none` if there is
-- no `execvp`.
abbrev run_on : (last : Option File) → Streams → List Effect → Option Streams
run_on last s [] = none
run_on last s (opens mode name ∷ es) = run_on (some (mode, name)) s es
run_on last s (dup2 n ∷ es) = run_on last (put last n s) es
run_on last s (execvp argv ∷ es) = some s
run_on last s (exits n ∷ es) = none

abbrev pub at_exec : List Effect → Option Streams
at_exec es = run_on none (record { input = none; output = none }) es

-- What a command line can ask for: the output to a file, in one of two ways, and the input from a file.
pub data AsksOutput : Type 0 where
  keeps_output to_file at_end_of_file : AsksOutput

pub record Asks : Type 0 where
  pub output : AsksOutput
  pub from_file : Bool

-- The flag that the code keeps for it: 0, 1, 2, 4, 5 or 6.
abbrev flag_of : Asks → ℕ
flag_of a =
    elim a.output [ keeps_output ↦ 0 | to_file ↦ 1 | at_end_of_file ↦ 2 ]
    + (if a.from_file then 4 else 0)

-- The files that the command shall have, by the names that the line gives.
abbrev asked_files : Asks → Cmd → Streams
asked_files a m = record {
  input = if a.from_file then some (reads, m.filename_in) else none;
  output = elim a.output [
    | keeps_output ↦ none
    | to_file ↦ some (truncates, m.filename_out)
    | at_end_of_file ↦ some (appends, m.filename_out)
  ];
}

-- Whether the files that are asked for could be opened.
abbrev all_opened : Asks → (ok_out ok_in : Bool) → Bool
all_opened a ok_out ok_in =
    elim a.output [ keeps_output ↦ true | to_file ↦ ok_out | at_end_of_file ↦ ok_out ]
    && (if a.from_file then ok_in else true)

-- With no redirection before them, a redirection of the input is forgotten when one of the output follows it on
-- the line.
redirect_in-redirect_out :
    (m m' m'' : Cmd) (i j k l : ℕ)
    → m.relocate_flag ≡ 0
    → redirect_in m i ≡ some (m', j)
    → redirect_out m' k ≡ some (m'', l)
    → has_bit m''.relocate_flag 4 ≡ false
unfolding redirect_in redirect_out
redirect_in-redirect_out m m' m'' i j k l none_yet p q = ground arith

-- When a redirection of the input follows one of the output, both take effect.
redirect_out-redirect_in :
    (m m' m'' : Cmd) (i j k l : ℕ)
    → m.relocate_flag ≡ 0
    → redirect_out m i ≡ some (m', j)
    → redirect_in m' k ≡ some (m'', l)
    → (a : Asks) × (m''.relocate_flag ≡ flag_of a)
      × (a.output ≢ keeps_output)
      × (a.from_file ≡ true)
unfolding redirect_in redirect_out
redirect_out-redirect_in m m' m'' i j k l none_yet p q =
    elim (Bool-cases (m''.relocate_flag == 5)) [
      | inl once ↦ (
        record { output = to_file; from_file = true },
        eq_of_== m''.relocate_flag 5 once,
        λ e. cc,
        refl,
      )
      | inr other ↦
          (record { output = at_end_of_file; from_file = true }, ground arith, λ e. cc, refl)
    ]
