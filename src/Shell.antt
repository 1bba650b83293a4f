-- ===== src/Shell.antt =====
-- bite/pctrl/shell.c and bite/pctrl/Myshell.c: a prompt that reads a line, cuts it in place into the
-- words of a command, and runs the command in a child process.
pub mod Words
pub mod Cut
pub mod Prompt
mod Tests
use linux_note.Base.{
  ℕ, zero, suc, ◌+◌, ◌-◌, ◌*◌, ◌/◌, ◌%◌, ◌^◌, ◌≤◌, ◌<◌, ◌≡◌, refl, sym, ap, ◌∙◌, ◌≢◌, ◌⊎◌, inl, inr,
  Bool, true, false, not, ◌&&◌, ◌||◌, Option, none, some, List, [], ◌∷◌, ◌++◌, map, append-nil,
  append_assoc, arith, ltb, leb, ◌==◌, if◌then◌else◌, Bool-cases, ==_refl, eq_of_==, ne_of_==,
  ltb→lt, leb→le, length, get_elem?, get_or, set, take, drop, replicate, length-append, length-set,
  get_or-append, set-append, get_or-set_self, get_or-set_ne, take-append, drop-append,
  length-replicate, length-drop, newline, blank, is_space, first_line, to_nul, string_at, ◌>>=◌,
  ◌>>◌, guard, load, store, load-append, store-append,
}

-- `sizeof (inbuf)`
abbrev pub buffer_size : ℕ
buffer_size = 1024

abbrev pub argv_size : ℕ
argv_size = 32

-- `while (buf[i] && !isspace(buf[i])) i++;`
unfoldable pub skip_word : ℕ → List ℕ → ℕ → Option ℕ
skip_word zero buf i = none
skip_word (suc fuel) buf i = do
  c ← load buf i
  let more = skip_word fuel buf (i + 1)
  if not (c == 0) && not (is_space c) then more else some i

-- What a line becomes: the buffer with the words ended by 0, and the pointers of `argv`.
pub record Command : Type 0 where
  pub buf : List ℕ
  pub argv : List ℕ

-- `argv[argc++] = p`, a fault past the end of the array.
abbrev pub push_arg : List ℕ → ℕ → Option (List ℕ)
push_arg argv p = if ltb (length argv) argv_size then some (argv ++ (p ∷ [])) else none

-- The `while` loop that cuts the line.
unfoldable pub cut : ℕ → List ℕ → ℕ → List ℕ → Option Command
unfolding skip_word
cut zero buf i argv = none
cut (suc fuel) buf i argv = do
  c ← load buf i
  let next = cut fuel buf (i + 1) argv
  let word = do
    argv' ← push_arg argv i
    j ← skip_word (length buf) buf i
    buf' ← store buf j 0
    cut fuel buf' (j + 1) argv'
  if c == 0 then some (record { buf = buf; argv = argv }) else if is_space c then next else word

-- `argv[argc] = NULL`
abbrev pub end_argv : Command → Option Command
end_argv c = if ltb (length c.argv) argv_size then some c else none

-- `fgets(buf, 1023, stdin)`; at the end of the input the buffer stays as it is.
abbrev pub fgets : List ℕ → List ℕ → List ℕ
fgets buf [] = buf
fgets buf (c ∷ s) = let line = first_line 1022 (c ∷ s) in line ++ (0 ∷ drop (length line + 1) buf)

-- `buf[strlen(buf) - 1] = '\0'`; the index -1 is a fault.
abbrev pub chop : List ℕ → Option (List ℕ)
chop buf = let n = length (to_nul buf) in if n == 0 then none else store buf (n - 1) 0

-- From `fgets` to `argv[argc] = NULL`, over what the buffer held before.
unfoldable pub parse : List ℕ → List ℕ → Option Command
unfolding cut
parse old input = do buf ← chop (fgets old input); c ← cut (length buf) buf 0 []; end_argv c

-- What `fork` answers.
pub data Fork : Type 0 where
  fork_failed in_child in_parent : Fork

-- How a round of the prompt ends: the next round at once, or after `wait`; in the child `execvp` of
-- the words, and an exit with the code given if it fails.
pub data Turn : Type 0 where
  next_prompt : Turn
  wait_child : Turn
  exec : List (List ℕ) → ℕ → Turn

abbrev pub args : Command → List (List ℕ)
args c = map (string_at c.buf) c.argv

abbrev run : ℕ → Fork → Command → Turn
run code fork_failed c = next_prompt
run code in_child c = exec (args c) code
run code in_parent c = wait_child

-- A round of shell.c, whose buffer starts as zeros.
pub shell_turn : List ℕ → Fork → Option Turn
unfolding parse
shell_turn input f = do c ← parse (replicate buffer_size 0) input; some (run 0 f c)

-- A round of Myshell.c, whose buffer starts with what the stack holds.
pub my_shell_turn : List ℕ → List ℕ → Fork → Option Turn
unfolding parse
my_shell_turn old input f = do c ← parse old input; some (run 1 f c)
