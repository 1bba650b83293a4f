-- ===== src/Wrap/Lines/Tests.antt =====
-- Calls of `my_read` and `Readline` of LinuxC/socket/TCP/wrap.c at small inputs.
use linux_note.Base.{
  ℕ, ◌+◌, ◌≤◌, ◌≡◌, refl, some, List, [], ◌∷◌, ◌++◌, arith, length, drop, replicate, newline,
  first_line,
}
use linux_note.Wrap.{Reply, got, fail, eintr, returns}
use linux_note.Wrap.Transfer.Replies.{data_of}
use linux_note.Wrap.Lines.{
  left, Buffer, one, refill, my_read_at, my_read, Line, readline, signed_rounds, readline_loop,
  readline_body,
}
use linux_note.Wrap.Lines.Buffering.{pending, IsValid}
use linux_note.Wrap.Lines.Readline.{counted, readline_kept, readline_full}

-- The static buffer before the first call.
abbrev unused : Buffer
unused = record { read_cnt = left 0; at = 0; read_buf = replicate 100 0 }

-- A line of two bytes and the start of the next one.
abbrev replies : List Reply
replies = fail eintr ∷ got (65 ∷ newline ∷ 66 ∷ []) ∷ []

unused-IsValid : IsValid unused
unused-IsValid = record { sized = refl; at_in = omega arith; inside = omega arith }

-- The buffer when the first byte was taken, and when the line was.
abbrev filled : ℕ → ℕ → Buffer
filled i k = record {
  read_cnt = left k;
  at = i;
  read_buf = 65 ∷ newline ∷ 66 ∷ drop 3 (replicate 100 0);
}

abbrev found : Line
found = record { count = some 2; text = 65 ∷ newline ∷ []; buffer = filled 2 1 }

my_read_run : my_read unused replies ≡ returns (one 65, filled 1 2) []
unfolding my_read my_read_at refill
my_read_run = refl

readline_run : readline 10 unused replies ≡ returns found []
unfolding readline signed_rounds readline_loop readline_body my_read my_read_at refill
readline_run = refl

readline_kept_example :
    (found.text ++ (pending found.buffer ++ data_of []) ≡ pending unused ++ data_of replies)
    × (length found.text + 1 ≤ 10)
    × IsValid found.buffer
readline_kept_example =
    readline_kept 10 unused replies found [] (omega arith) (omega arith) unused-IsValid
      (omega arith, tt) readline_run

readline_full_example :
    let line = first_line 9 (pending unused ++ data_of replies) in
    (b' : Buffer) × (rest : List Reply) × (readline 10 unused replies
      ≡ returns (record { count = some (counted line); text = line; buffer = b' }) rest)
readline_full_example =
    readline_full 10 unused replies (omega arith) unused-IsValid (omega arith, tt) refl refl refl
