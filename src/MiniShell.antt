-- ===== src/MiniShell.antt =====
-- bite/pctrl/mini_shell.c: the prompt with redirections of the standard input and output.
pub mod Plain
pub mod Child
mod Tests
use linux_note.Base.{
  ℕ, zero, suc, ◌+◌, ◌-◌, ◌*◌, ◌/◌, ◌%◌, ◌^◌, ◌≤◌, ◌<◌, ◌≡◌, refl, sym, ap, ◌∙◌, ◌≢◌, ◌⊎◌, inl, inr,
  Bool, true, false, not, ◌&&◌, ◌||◌, Option, none, some, List, [], ◌∷◌, ◌++◌, map, append-nil,
  append_assoc, arith, ltb, leb, ◌==◌, if◌then◌else◌, Bool-cases, ==_refl, eq_of_==, ne_of_==,
  ltb→lt, leb→le, length, get_elem?, get_or, set, take, drop, replicate, length-append, length-set,
  get_or-append, set-append, get_or-set_self, get_or-set_ne, take-append, drop-append,
  length-replicate, length-drop, newline, blank, is_space, first_line, to_nul, string_at, ◌>>=◌,
  ◌>>◌, guard, load, store, load-append, store-append,
}
use Prim.Native.Nat.{bit_and, bit_or}
use linux_note.Shell.{
  buffer_size, skip_word, push_arg, argv_size, fgets, chop, Fork, fork_failed, in_child, in_parent,
}

-- The local variables of `main` in the loop that cuts the line; a file name is a pointer or NULL.
pub record Cmd : Type 0 where
  pub buf : List ℕ
  pub argv : List ℕ
  pub relocate_flag : ℕ
  pub filename_in : Option ℕ
  pub filename_out : Option ℕ

-- `while (isspace(*ptr) && *ptr != '\0') ptr++;`
pub skip_spaces : ℕ → List ℕ → ℕ → Option ℕ
skip_spaces zero buf i = none
skip_spaces (suc fuel) buf i = do
  c ← load buf i
  let more = skip_spaces fuel buf (i + 1)
  if is_space c && not (c == 0) then more else some i

-- From behind the sign on: the pointer to the file name, the buffer with the name ended by 0, and
-- the pointer behind that 0.
pub file_name : List ℕ → ℕ → Option (ℕ × List ℕ × ℕ)
unfolding skip_spaces skip_word
file_name buf i = do
  name ← skip_spaces (length buf) buf i
  j ← skip_word (length buf) buf name
  buf' ← store buf j 0
  some (name, buf', j + 1)

-- The branch of `>` and `>>`, at the pointer to the sign.
pub redirect_out : Cmd → ℕ → Option (Cmd × ℕ)
unfolding file_name
redirect_out m i = do
  c ← load m.buf (i + 1)
  let twice = c == b'>'
  (name, buf', j) ← file_name m.buf (if twice then i + 2 else i + 1)
  some
      (record m { buf = buf'; relocate_flag = if twice then 2 else 1; filename_out = some name }, j)

-- The branch of `<`.
pub redirect_in : Cmd → ℕ → Option (Cmd × ℕ)
unfolding file_name
redirect_in m i = do
  (name, buf', j) ← file_name m.buf (i + 1)
  some (
    record m { buf = buf'; relocate_flag = bit_or m.relocate_flag 4; filename_in = some name },
    j,
  )

-- The branches for the two signs; another character leaves all as it is.
pub redirect : Cmd → ℕ → ℕ → Option (Cmd × ℕ)
unfolding redirect_out redirect_in
redirect m i c =
    if c == b'>' then redirect_out m i else if c == b'<' then redirect_in m i else some (m, i)

-- The `if` that records an argument, and the pointer behind it.
pub argument : Cmd → ℕ → Option (Cmd × ℕ)
unfolding skip_word
argument m i = do
  c ← load m.buf i
  let word = do
    argv' ← push_arg m.argv i
    j ← skip_word (length m.buf) m.buf i
    buf' ← store m.buf j 0
    some (record m { buf = buf'; argv = argv' }, j)
  if is_space c then some (m, i) else word

-- The `while` loop that cuts the line.
pub cut_line : ℕ → Cmd → ℕ → Option Cmd
unfolding redirect argument
cut_line zero m i = none
cut_line (suc fuel) m i = do
  c ← load m.buf i
  let round = do (m', j) ← redirect m i c; (m'', k) ← argument m' j; cut_line fuel m'' (k + 1)
  if c == 0 then some m else round

-- `argv[argc] = NULL`
abbrev pub end_argv : Cmd → Option Cmd
end_argv m = if ltb (length m.argv) argv_size then some m else none

-- From `fgets` to `argv[argc] = NULL`.
pub parse : List ℕ → Option Cmd
unfolding cut_line
parse input = do
  buf ← chop (fgets (replicate buffer_size 0) input)
  m ←
      cut_line (length buf)
        (record {
          buf = buf;
          argv = [];
          relocate_flag = 0;
          filename_in = none;
          filename_out = none;
        })
        0
  end_argv m

-- The flags of the calls of `open`: O_WRONLY | O_CREAT | O_TRUNC, O_WRONLY | O_CREAT | O_APPEND and
-- O_RDWR | O_CREAT.
pub data Mode : Type 0 where
  truncates appends reads : Mode

-- What the child does, in order: `opens` has the pointer to the name, and `dup2 n` puts the file just opened in
-- place of descriptor `n`.
pub data Effect : Type 0 where
  opens : Mode → Option ℕ → Effect
  dup2 : ℕ → Effect
  execvp : List ℕ → Effect
  exits : ℕ → Effect

abbrev pub has_bit : ℕ → ℕ → Bool
has_bit flag b = not (bit_and flag b == 0)

-- `open` in a mode, then `dup2`, then the rest; or `perror` and `exit (1)`. The Boolean is whether
-- `open` succeeds.
abbrev open_as : Mode → Option ℕ → ℕ → Bool → List Effect → List Effect
open_as mode name n ok rest = opens mode name ∷ (if ok then dup2 n ∷ rest else exits 1 ∷ [])

-- The child, if `open` succeeds for the output (`ok_out`) and for the input (`ok_in`). `execvp`
-- returns only if it fails.
pub child : Cmd → (ok_out ok_in : Bool) → List Effect
child m ok_out ok_in =
    let flag = m.relocate_flag in
    let run : List Effect = execvp m.argv ∷ exits 0 ∷ [] in
    let input = if has_bit flag 4 then open_as reads m.filename_in 0 ok_in run else run in
    if has_bit flag 1
    then open_as truncates m.filename_out 1 ok_out input
    else if has_bit flag 2
    then open_as appends m.filename_out 1 ok_out input
    else input
