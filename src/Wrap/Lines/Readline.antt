-- ===== src/Wrap/Lines/Readline.antt =====
-- `Readline` of LinuxC/socket/TCP/wrap.c against the first line of the bytes to come.
use linux_note.Base.{
  ℕ, zero, suc, ◌+◌, ◌-◌, ◌^◌, ◌≤◌, ◌<◌, ◌≡◌, refl, inl, inr, Bool, true, false, ◌||◌, some, List,
  [], ◌∷◌, ◌++◌, append-nil, append_assoc, arith, ◌==◌, if◌then◌else◌, Bool-cases, length,
  length-append, newline, first_line,
}
use linux_note.Wrap.{Reply, Outcome, returns, exits, waits}
use linux_note.Wrap.Lines.{
  Buffer, Fetched, one, end_of_file, failure, my_read, Line, readline_body, readline_loop,
  signed_rounds, readline,
}
use linux_note.Wrap.Lines.Buffering.{Fetch, pending, IsValid, Fits, my_read-Fetch, my_read_full}
use linux_note.Wrap.Transfer.Replies.{data_of, has_end, has_error}

-- The text has a whole first line, or `m` bytes of one.
abbrev is_ready : ℕ → List ℕ → Bool
is_ready zero s = true
is_ready (suc m) [] = false
is_ready (suc m) (c ∷ s) = c == newline || is_ready m s

abbrev ends_line : List ℕ → Bool
ends_line [] = false
ends_line (c ∷ s) = c == newline || ends_line s

-- The number that `Readline` returns for a line.
abbrev pub counted : List ℕ → ℕ
counted text = if ends_line text then length text else length text + 1

-- What the loop keeps of the bytes to come, `text` being stored before it.
record Kept (room : ℕ) (text before : List ℕ) (l : Line) (rest : List Reply) : Type 0 where
  all : l.text ++ (pending l.buffer ++ data_of rest) ≡ text ++ before
  bounded : length l.text ≤ length text + room
  valid : IsValid l.buffer

one_more : (c : ℕ) (s text : List ℕ) → (text ++ (c ∷ [])) ++ s ≡ text ++ (c ∷ s)
one_more c s text = append_assoc text (c ∷ []) s

module _ (rounds n : ℕ) (text before : List ℕ) (l : Line) (rest : List Reply)
    (more : List ℕ → Buffer → List Reply → Outcome Reply Line)
    (later : (c : ℕ) (b' : Buffer) (rs' : List Reply)
      → IsValid b'
      → Fits rs'
      → more (text ++ (c ∷ [])) b' rs' ≡ returns l rest
      → Kept rounds (text ++ (c ∷ [])) (pending b' ++ data_of rs') l rest) where
  readline_body-Kept :
      (o : Outcome Reply (Fetched × Buffer))
      → ((f : Fetched) (b' : Buffer) (rs' : List Reply)
          → o ≡ returns (f, b') rs'
          → Fetch before f b' rs')
      → readline_body n text more o ≡ returns l rest
      → Kept (suc rounds) text before l rest
  unfolding readline_body
  readline_body-Kept (returns (one c, b') rs') fetched e =
      let fetch = fetched (one c) b' rs' refl in
      ground (
        arith,
        later c b' rs' fetch.valid fetch.fits,
        one_more c (pending b' ++ data_of rs') text,
        length-append text (c ∷ []),
      )
  readline_body-Kept (returns (end_of_file, b') rs') fetched e =
      let fetch = fetched end_of_file b' rs' refl in ground arith
  readline_body-Kept (returns (failure, b') rs') fetched e =
      let fetch = fetched failure b' rs' refl in ground arith
  readline_body-Kept (exits s) fetched e = cc
  readline_body-Kept waits fetched e = cc

readline_loop-Kept :
    (rounds n : ℕ) (text : List ℕ) (b : Buffer) (rs : List Reply) (l : Line) (rest : List Reply)
    → IsValid b
    → Fits rs
    → readline_loop rounds n text b rs ≡ returns l rest
    → Kept rounds text (pending b ++ data_of rs) l rest
unfolding readline_loop
readline_loop-Kept zero n text b rs l rest valid fits e = ground arith
readline_loop-Kept (suc rounds) n text b rs l rest valid fits e =
    readline_body-Kept rounds n text (pending b ++ data_of rs) l rest (readline_loop rounds (n + 1))
      (λ c b' rs' v f h. readline_loop-Kept rounds (n + 1) (text ++ (c ∷ [])) b' rs' l rest v f h)
      (my_read b rs) (λ f b' rs' m. my_read-Fetch b rs {f = f} {b' = b'} {rest = rs'} valid fits m)
      e

signed_rounds_le : (maxlen : ℕ) → 0 < maxlen → signed_rounds maxlen + 1 ≤ maxlen
unfolding signed_rounds
signed_rounds_le maxlen pos = ground arith

signed_rounds_lem : (maxlen : ℕ) → maxlen < 2 ^ 63 → signed_rounds maxlen ≡ maxlen - 1
unfolding signed_rounds
signed_rounds_lem maxlen small = ground arith

-- Over a valid static buffer, with `maxlen` a `size_t` above 0, if `read` returns no more bytes than it is asked for:
-- whatever `Readline` returns, no byte is lost or repeated: the bytes
-- stored, followed by those pending in the buffer and those to come, are the bytes that were
-- pending and to come before the call. With the final 0 at most `maxlen` bytes are stored, and the
-- buffer stays valid, for the next call.
pub readline_kept :
    (maxlen : ℕ) (b : Buffer) (rs : List Reply) (l : Line) (rest : List Reply)
    → 0 < maxlen
    → maxlen < 2 ^ 64
    → IsValid b
    → Fits rs
    → readline maxlen b rs ≡ returns l rest
    → (l.text ++ (pending l.buffer ++ data_of rest) ≡ pending b ++ data_of rs)
      × (length l.text + 1 ≤ maxlen)
      × IsValid l.buffer
unfolding readline
readline_kept maxlen b rs l rest pos size valid fits e =
    let kept = readline_loop-Kept (signed_rounds maxlen) 1 [] b rs l rest valid fits e in
    (kept.all, omega (arith, kept.bounded, signed_rounds_le maxlen pos), kept.valid)

-- What the loop returns when the first line of `before` is there.
abbrev line_count : ℕ → List ℕ → ℕ
line_count n line = if ends_line line then n + length line - 1 else n + length line

Found : (rounds n : ℕ) (text before : List ℕ) → Outcome Reply Line → Type 0
Found rounds n text before o =
    (b' : Buffer) × (rest : List Reply) × (o
      ≡ returns
          (record {
            count = some (line_count n (first_line rounds before));
            text = text ++ first_line rounds before;
            buffer = b';
          })
          rest)

readline_loop_full :
    (rounds n : ℕ) (text before : List ℕ) (b : Buffer) (rs : List Reply)
    → 0 < n
    → IsValid b
    → Fits rs
    → pending b ++ data_of rs ≡ before
    → is_ready rounds before ≡ true
    → has_end rs ≡ false
    → has_error rs ≡ false
    → Found rounds n text before (readline_loop rounds n text b rs)
unfolding Found readline_loop readline_body
readline_loop_full zero n text before b rs pos valid fits s ready no_end no_error =
    (b, rs, ground (arith, append-nil text))
readline_loop_full (suc rounds) n text [] b rs pos valid fits s ready no_end no_error = cc
readline_loop_full (suc rounds) n text (c ∷ cs) b rs pos valid fits s ready no_end no_error =
    let (b', rest, m, no_end', no_error') = my_read_full c cs b rs valid s no_end no_error in
    let fetch = my_read-Fetch b rs {f = one c} {b' = b'} {rest = rest} valid fits m in
    elim (Bool-cases (c == newline)) [
      | inl last ↦ (b', rest, ground (arith, m))
      | inr more ↦
          let (b'', rest', e) =
            readline_loop_full rounds (n + 1) (text ++ (c ∷ [])) cs b' rest (omega arith)
              fetch.valid fetch.fits (ground (arith, fetch.delivered)) (ground arith) no_end'
              no_error' in
          (b'', rest', ground (arith, m, e, one_more c (first_line rounds cs) text))
    ]

-- Over a valid static buffer, with `maxlen` below `2 ^ 63`, so that the cast to `ssize_t` keeps it, if
-- `read` returns no more bytes than it is asked for: if the bytes pending
-- and to come hold a whole line, or `maxlen - 1` bytes of one, and no end of
-- file or error, then `Readline` returns and has stored exactly that line, its newline included. It
-- returns the number of bytes stored for a whole line, and one more for a line cut short.
pub readline_full :
    (maxlen : ℕ) (b : Buffer) (rs : List Reply)
    → maxlen < 2 ^ 63
    → IsValid b
    → Fits rs
    → is_ready (maxlen - 1) (pending b ++ data_of rs) ≡ true
    → has_end rs ≡ false
    → has_error rs ≡ false
    → let line = first_line (maxlen - 1) (pending b ++ data_of rs) in
      (b' : Buffer) × (rest : List Reply) × (readline maxlen b rs
        ≡ returns (record { count = some (counted line); text = line; buffer = b' }) rest)
unfolding readline Found
readline_full maxlen b rs small valid fits ready no_end no_error =
    let line = first_line (maxlen - 1) (pending b ++ data_of rs) in
    let (b', rest, e) =
      readline_loop_full (maxlen - 1) 1 [] (pending b ++ data_of rs) b rs (omega arith) valid fits
        refl ready no_end no_error in
    let same : line_count 1 line ≡ counted line = ground arith in
    (b', rest, rw (signed_rounds_lem maxlen small) (rw same at e))
