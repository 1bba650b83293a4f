-- ===== src/MiniShell/Plain.antt =====
-- The parser of bite/pctrl/mini_shell.c on a line with no redirection, beside that of bite/pctrl/shell.c.
use linux_note.Base.{
  ℕ, zero, suc, ◌+◌, ◌<◌, ◌≡◌, refl, false, Option, none, some, List, [], ◌∷◌, ◌++◌, map, arith,
  ◌==◌, length, set, drop, replicate, newline, string_at, ◌>>=◌, load,
}
use mathlib.Core.Option
use linux_note.Shell
use linux_note.Shell.{buffer_size, argv_size, skip_word, Command, push_arg, cut, fgets, chop, args}
use linux_note.MiniShell.{Cmd, redirect, argument, cut_line, end_argv, parse}
use linux_note.Shell.Words.{words}
use linux_note.Shell.Prompt.{IsLine, IsLine-NoNul, fgets_lem, chop_lem, parse_lem}

-- No byte of a buffer is the sign of a redirection.
abbrev pub NoSign : List ℕ → Type 0
NoSign [] = Unit {0}
NoSign (c ∷ s) = ((c == b'>') ≡ false) × ((c == b'<') ≡ false) × NoSign s

NoSign-set : (s : List ℕ) (i : ℕ) → NoSign s → NoSign (set s i 0)
NoSign-set [] i h = tt
NoSign-set (c ∷ s) zero h = (refl, refl, h.2)
NoSign-set (c ∷ s) (suc i) h = (h.0, h.1, NoSign-set s i h.2)

NoSign-load :
    (s : List ℕ) (i c : ℕ)
    → NoSign s
    → load s i ≡ some c
    → ((c == b'>') ≡ false) × ((c == b'<') ≡ false)
NoSign-load [] i c h e = cc
NoSign-load (d ∷ s) zero c h e = let same : d ≡ c = cc in rw (← same) (h.0, h.1)
NoSign-load (d ∷ s) (suc i) c h e = NoSign-load s i c h.2 e

-- The result of the loop of shell.c as one of mini_shell.c.
abbrev with_cut : Cmd → Command → Cmd
with_cut m c = record m { buf = c.buf; argv = c.argv }

-- The two loops agree from index `i` on.
abbrev Agrees : ℕ → Cmd → ℕ → Type 0
Agrees fuel m i = cut_line fuel m i ≡ Option.map (with_cut m) (cut fuel m.buf i m.argv)

module _ (fuel : ℕ) (later : (m : Cmd) (i : ℕ) → NoSign m.buf → Agrees fuel m i) (m : Cmd) (i : ℕ)
    (h : NoSign m.buf) where
  Agrees-word :
      (c : ℕ) (o : Option ℕ)
      → load m.buf i ≡ some c
      → skip_word (length m.buf) m.buf i ≡ o
      → Agrees (suc fuel) m i
  unfolding cut_line cut redirect argument
  Agrees-word c none here end =
      let signs = NoSign-load m.buf i c h here in ground (arith, later m (i + 1) h)
  Agrees-word c (some j) here end =
      let signs = NoSign-load m.buf i c h here in
      ground (
        arith,
        later m (i + 1) h,
        later (record m { buf = set m.buf j 0; argv = m.argv ++ (i ∷ []) }) (j + 1)
            (NoSign-set m.buf j h),
      )

  Agrees-step : (o : Option ℕ) → load m.buf i ≡ o → Agrees (suc fuel) m i
  unfolding cut_line cut
  Agrees-step none here = rw here refl
  Agrees-step (some c) here = Agrees-word c (skip_word (length m.buf) m.buf i) here refl

cut_line-eq-cut : (fuel : ℕ) (m : Cmd) (i : ℕ) → NoSign m.buf → Agrees fuel m i
unfolding cut_line cut
cut_line-eq-cut zero m i h = refl
cut_line-eq-cut (suc fuel) m i h = Agrees-step fuel (cut_line-eq-cut fuel) m i h (load m.buf i) refl

NoSign-append : (s t : List ℕ) → NoSign s → NoSign t → NoSign (s ++ t)
NoSign-append [] t hs ht = ht
NoSign-append (c ∷ s) t hs ht = (hs.0, hs.1, NoSign-append s t hs.2 ht)

NoSign-zeros : (n k : ℕ) → NoSign (drop k (replicate n 0))
NoSign-zeros zero zero = tt
NoSign-zeros zero (suc k) = tt
NoSign-zeros (suc n) zero = (refl, refl, NoSign-zeros n zero)
NoSign-zeros (suc n) (suc k) = NoSign-zeros n k

end_argv_lem :
    (m : Cmd) (c : Command) (o : Option Command)
    → (o >>= Shell.end_argv) ≡ some c
    → (Option.map (with_cut m) o >>= end_argv) ≡ some (with_cut m c)
end_argv_lem m c none e = cc
end_argv_lem m c (some c') e = ground arith

-- Without the signs `<` and `>` a line of less than 1022 characters without 0, and of less than 32 words,
-- is cut, with no fault, into its words
-- as in shell.c, with no redirection.
pub plain_parse :
    (s more : List ℕ)
    → IsLine s
    → NoSign s
    → length s < 1022
    → length (words s) < argv_size
    → (m : Cmd) × (parse (s ++ (newline ∷ more)) ≡ some m)
      × (map (string_at m.buf) m.argv ≡ words s)
      × (m.relocate_flag ≡ 0)
      × (m.filename_in ≡ none)
      × (m.filename_out ≡ none)
unfolding parse Shell.parse
plain_parse s more line plain short few =
    let zeros : List ℕ = replicate buffer_size 0 in
    let start = s ++ (0 ∷ 0 ∷ drop (length s + 2) zeros) in
    let (c, e, ws) = parse_lem zeros s more line short few in
    let init : Cmd = record {
      buf = start;
      argv = [];
      relocate_flag = 0;
      filename_in = none;
      filename_out = none;
    } in
    let agrees = cut_line-eq-cut (length start) init 0 (
      NoSign-append s (0 ∷ 0 ∷ drop (length s + 2) zeros) plain
        (refl, refl, (refl, refl, NoSign-zeros buffer_size (length s + 2)))) in
    let filled = fgets_lem zeros s more line short in
    let chopped = chop_lem s (drop (length s + 2) zeros) (IsLine-NoNul s line) in
    let cutting = cut (length start) start 0 [] in
    (
      with_cut init c,
      rw (filled, chopped, agrees) (end_argv_lem init c cutting (rw (filled, chopped) at e)),
      ws,
      refl,
      refl,
      refl,
    )
