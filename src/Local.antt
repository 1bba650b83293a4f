-- ===== src/Local.antt =====
-- LinuxC/socket/UNIXDomainSocketIPC/server.c: the server over UNIX domain sockets, which forks a process
-- for each connection, in its parent process; the forked process is in the module Child.
pub mod Rounds
pub mod Asking
pub mod Child
mod Tests
use linux_note.Base.{
  ℕ, zero, suc, ◌+◌, ◌-◌, ◌*◌, ◌/◌, ◌%◌, ◌^◌, ◌≤◌, ◌<◌, ◌≡◌, refl, sym, ap, ◌∙◌, ◌≢◌, ◌⊎◌, inl, inr,
  Bool, true, false, not, ◌&&◌, ◌||◌, Option, none, some, List, [], ◌∷◌, ◌++◌, map, append-nil,
  append_assoc, arith, ltb, leb, ◌==◌, if◌then◌else◌, Bool-cases, ==_refl, eq_of_==, ne_of_==,
  ltb→lt, leb→le, length, get_elem?, get_or, set, take, drop, replicate, length-append, length-set,
  get_or-append, set-append, get_or-set_self, get_or-set_ne, take-append, drop-append,
  length-replicate, length-drop, newline, blank, is_space, first_line, to_nul, string_at, ◌>>=◌,
  ◌>>◌, guard, load, store, load-append, store-append,
}
use linux_note.Wrap.{other}
use linux_note.Ipc.{
  World, Return, fd, minus, remove, ListenCalls, AcceptCalls, serv_listen, serv_accept,
}
use linux_note.Echo.{Fork, fork_failed, forked, first_free}

-- `close` of what `serv_accept` returned; of a number below 0 it fails with EBADF.
abbrev pub closes : Return → World → World
closes (fd n) w = record w { fds = remove n w.fds }
closes (minus k) w = record w { errno = other 9 }

-- Where the parent stands after a round: at the head of the loop, or past `exit(1)`.
pub data Progress : Type 0 where
  serving : World → (pid_book : List ℕ) → Progress
  exited : World → Progress

-- What follows the call of `fork` in the parent, with what `serv_accept` returned.
pub after_fork : Fork → Return → World → (pid_book : List ℕ) → Option Progress
after_fork fork_failed connfd w book = some (exited w)
after_fork (forked pid) connfd w book = do
  book' ← store book (first_free book) pid
  some (serving (closes connfd w) book')

-- A round. What `serv_accept` returns is not tested.
pub local_round : AcceptCalls → Fork → World → (pid_book : List ℕ) → Option Progress
unfolding after_fork
local_round calls fork w book = do
  ((connfd, w'), uid) ← serv_accept calls w
  after_fork fork connfd w' book

-- The rounds, until `exit` or no more connection comes.
pub local_rounds : List (AcceptCalls × Fork) → World → (pid_book : List ℕ) → Option Progress
unfolding local_round
local_rounds [] w book = some (serving w book)
local_rounds ((calls, fork) ∷ rest) w book = do
  p ← local_round calls fork w book
  elim p [ serving w' book' ↦ local_rounds rest w' book' | exited w' ↦ some (exited w') ]

-- `main` from what `serv_listen` returned on.
pub after_listen : Return × World → List (AcceptCalls × Fork) → Option Progress
unfolding local_rounds
after_listen (minus k, w) connections = some (exited w)
after_listen (fd n, w) connections = local_rounds connections w (replicate 20 0)

-- `main` with the path of its argument.
pub local_main : List ℕ → ListenCalls → List (AcceptCalls × Fork) → World → Option Progress
unfolding after_listen
local_main name calls connections w = do
  listened ← serv_listen name calls w
  after_listen listened connections
