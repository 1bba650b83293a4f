-- ===== src/Wrap.antt =====
-- LinuxC/socket/TCP/wrap.c: the wrappers of the socket calls, which retry, exit or pass errors on.
-- What the kernel answers to the calls, in order, is an argument: a list of replies.
pub mod Calls
pub mod Transfer
pub mod Lines
use linux_note.Base.{
  ℕ, zero, suc, ◌+◌, ◌-◌, ◌*◌, ◌/◌, ◌%◌, ◌^◌, ◌≤◌, ◌<◌, ◌≡◌, refl, sym, ap, ◌∙◌, ◌≢◌, ◌⊎◌, inl, inr,
  Bool, true, false, not, ◌&&◌, ◌||◌, Option, none, some, List, [], ◌∷◌, ◌++◌, map, append-nil,
  append_assoc, arith, ltb, leb, ◌==◌, if◌then◌else◌, Bool-cases, ==_refl, eq_of_==, ne_of_==,
  ltb→lt, leb→le, length, get_elem?, get_or, set, take, drop, replicate, length-append, length-set,
  get_or-append, set-append, get_or-set_self, get_or-set_ne, take-append, drop-append,
  length-replicate, length-drop, newline, blank, is_space, first_line, to_nul, string_at, ◌>>=◌,
  ◌>>◌, guard, load, store, load-append, store-append,
}

-- The values of `errno` that the code tells apart.
pub data Errno : Type 0 where
  eintr : Errno
  econnaborted : Errno
  other : ℕ → Errno

-- What `read` answers: the bytes that it stored (none at the end of the file), or -1 and `errno`.
pub data Reply : Type 0 where
  got : List ℕ → Reply
  fail : Errno → Reply

-- What a call with an `int` or `ssize_t` result answers: a number from 0 on, or -1 and `errno`.
pub data Answer : Type 0 where
  val : ℕ → Answer
  err : Errno → Answer

-- The messages that `perr_exit` prints.
pub data Message : Type 0 where
  accept_error bind_error connect_error listen_error socket_error close_error : Message

-- How a call of a wrapper ends: it returns, with the kernel's replies that are left; it ends the
-- process by `perr_exit`; or it waits for a reply that has not come.
pub data Outcome (R A : Type 0) : Type 0 where
  returns : A → List R → Outcome R A
  exits : Message → Outcome R A
  waits : Outcome R A

abbrev pub is_eintr : Errno → Bool
is_eintr eintr = true
is_eintr _ = false

abbrev pub is_econnaborted : Errno → Bool
is_econnaborted econnaborted = true
is_econnaborted _ = false

-- `size_t` subtraction, which wraps.
abbrev pub sub_size : ℕ → ℕ → ℕ
sub_size a b = (a + 2 ^ 64 - b) % 2 ^ 64

pub perr_exit : {R A : Type 0} → Message → Outcome R A
perr_exit s = exits s

pub accept : List Answer → Outcome Answer ℕ
unfolding perr_exit
accept [] = waits
accept (val n ∷ xs) = returns n xs
accept (err e ∷ xs) = if is_econnaborted e || is_eintr e then accept xs else perr_exit accept_error

-- A call that is made once, and whose failure ends the process.
abbrev once : Message → List Answer → Outcome Answer ℕ
unfolding perr_exit
once s [] = waits
once s (val n ∷ xs) = returns n xs
once s (err e ∷ xs) = perr_exit s

bind : List Answer → Outcome Answer ℕ
bind = once bind_error

pub connect : List Answer → Outcome Answer ℕ
connect = once connect_error

listen : List Answer → Outcome Answer ℕ
listen = once listen_error

socket : List Answer → Outcome Answer ℕ
socket = once socket_error

pub close : List Answer → Outcome Answer ℕ
close = once close_error

-- The bytes read; `none` is the return value -1.
pub read : List Reply → Outcome Reply (Option (List ℕ))
read [] = waits
read (got bs ∷ rs) = returns (some bs) rs
read (fail e ∷ rs) = if is_eintr e then read rs else returns none rs

pub write : List Answer → Outcome Answer (Option ℕ)
write [] = waits
write (val n ∷ xs) = returns (some n) xs
write (err e ∷ xs) = if is_eintr e then write xs else returns none xs
