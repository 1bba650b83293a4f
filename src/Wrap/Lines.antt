-- ===== src/Wrap/Lines.antt =====
-- `my_read` and `Readline` of LinuxC/socket/TCP/wrap.c: bytes and lines through a static buffer.
pub mod Buffering
pub mod Readline
mod Tests
use linux_note.Base.{
  ℕ, zero, suc, ◌+◌, ◌-◌, ◌*◌, ◌/◌, ◌%◌, ◌^◌, ◌≤◌, ◌<◌, ◌≡◌, refl, sym, ap, ◌∙◌, ◌≢◌, ◌⊎◌, inl, inr,
  Bool, true, false, not, ◌&&◌, ◌||◌, Option, none, some, List, [], ◌∷◌, ◌++◌, map, append-nil,
  append_assoc, arith, ltb, leb, ◌==◌, if◌then◌else◌, Bool-cases, ==_refl, eq_of_==, ne_of_==,
  ltb→lt, leb→le, length, get_elem?, get_or, set, take, drop, replicate, length-append, length-set,
  get_or-append, set-append, get_or-set_self, get_or-set_ne, take-append, drop-append,
  length-replicate, length-drop, newline, blank, is_space, first_line, to_nul, string_at, ◌>>=◌,
  ◌>>◌, guard, load, store, load-append, store-append,
}
use linux_note.Wrap.{Reply, got, fail, Outcome, returns, exits, waits, is_eintr}

-- `read_cnt` is an `int`: a count, or -1 after a failed `read`.
pub data Count : Type 0 where
  left : ℕ → Count
  minus_one : Count

-- The static variables of `my_read`; `at` is `read_ptr - read_buf`.
pub record Buffer : Type 0 where
  pub read_cnt : Count
  pub at : ℕ
  pub read_buf : List ℕ

-- What `my_read` returns: 1 with the byte at `ptr`, 0, or -1.
pub data Fetched : Type 0 where
  one : ℕ → Fetched
  end_of_file : Fetched
  failure : Fetched

-- `read_cnt--; *ptr = *read_ptr++; return 1;` with `suc k` bytes in the buffer.
abbrev pub fetch : ℕ → Buffer → List Reply → Outcome Reply (Fetched × Buffer)
fetch k b rs =
    returns (one (get_or b.read_buf b.at 0), record b { read_cnt = left k; at = b.at + 1 }) rs

-- What `read` leaves in the buffer when it stores `bs` at its start.
abbrev pub stored : List ℕ → Buffer → Buffer
stored bs b = record {
  read_cnt = left (length bs);
  at = 0;
  read_buf = bs ++ drop (length bs) b.read_buf;
}

-- From the label `again` on.
pub refill : Buffer → List Reply → Outcome Reply (Fetched × Buffer)
refill b [] = waits
refill b (got [] ∷ rs) = returns (end_of_file, record b { read_cnt = left 0 }) rs
refill b (got (c ∷ cs) ∷ rs) = fetch (length cs) (stored (c ∷ cs) b) rs
refill b (fail e ∷ rs) =
    let failed = record b { read_cnt = minus_one } in
    let again = refill failed rs in if is_eintr e then again else returns (failure, failed) rs

pub my_read_at : Count → Buffer → List Reply → Outcome Reply (Fetched × Buffer)
unfolding refill
my_read_at minus_one b rs = refill b rs
my_read_at (left zero) b rs = refill b rs
my_read_at (left (suc k)) b rs = fetch k b rs

pub my_read : Buffer → List Reply → Outcome Reply (Fetched × Buffer)
unfolding my_read_at
my_read b rs = my_read_at b.read_cnt b rs

-- What `Readline` leaves: the number returned (`none` for -1), the bytes stored before the final 0
-- (on -1 no 0 is stored), and the static buffer.
pub record Line : Type 0 where
  pub count : Option ℕ
  pub text : List ℕ
  pub buffer : Buffer

-- The body of the `for` loop of `Readline` at its counter `n`, from what `my_read` returned;
-- `more` is the rest of the loop.
pub readline_body :
    (n : ℕ)
    → List ℕ
    → (List ℕ → Buffer → List Reply → Outcome Reply Line)
    → Outcome Reply (Fetched × Buffer)
    → Outcome Reply Line
readline_body n text more (returns (one c, b) rs) =
    if c == newline
    then returns (record { count = some n; text = text ++ (c ∷ []); buffer = b }) rs
    else more (text ++ (c ∷ [])) b rs
readline_body n text more (returns (end_of_file, b) rs) =
    returns (record { count = some (n - 1); text = text; buffer = b }) rs
readline_body n text more (returns (failure, b) rs) =
    returns (record { count = none; text = text; buffer = b }) rs
readline_body n text more (exits s) = exits s
readline_body n text more waits = waits

-- The `for` loop with `rounds` rounds left. After the last round `n` is `maxlen`.
pub readline_loop : (rounds n : ℕ) → List ℕ → Buffer → List Reply → Outcome Reply Line
unfolding my_read readline_body
readline_loop zero n text b rs = returns (record { count = some n; text = text; buffer = b }) rs
readline_loop (suc rounds) n text b rs =
    readline_body n text (readline_loop rounds (n + 1)) (my_read b rs)

-- The rounds of a loop from 1 while `n < (ssize_t)maxlen`: a `size_t` from `2 ^ 63` on is negative there.
pub signed_rounds : ℕ → ℕ
signed_rounds maxlen = if ltb maxlen (2 ^ 63) then maxlen - 1 else 0

pub readline : (maxlen : ℕ) → Buffer → List Reply → Outcome Reply Line
unfolding readline_loop signed_rounds
readline maxlen b rs = readline_loop (signed_rounds maxlen) 1 [] b rs
