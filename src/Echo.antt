-- ===== src/Echo.antt =====
-- The other servers that answer in capitals, with their clients: LinuxC/socket/TCP/server.c, `main2`, with
-- a process for each connection, and LinuxC/socket/UDP/server.c and client.c.
pub mod Children
pub mod Datagrams
use linux_note.Base.{
  ℕ, zero, suc, ◌+◌, ◌-◌, ◌*◌, ◌/◌, ◌%◌, ◌^◌, ◌≤◌, ◌<◌, ◌≡◌, refl, sym, ap, ◌∙◌, ◌≢◌, ◌⊎◌, inl, inr,
  Bool, true, false, not, ◌&&◌, ◌||◌, Option, none, some, List, [], ◌∷◌, ◌++◌, map, append-nil,
  append_assoc, arith, ltb, leb, ◌==◌, if◌then◌else◌, Bool-cases, ==_refl, eq_of_==, ne_of_==,
  ltb→lt, leb→le, length, get_elem?, get_or, set, take, drop, replicate, length-append, length-set,
  get_or-append, set-append, get_or-set_self, get_or-set_ne, take-append, drop-append,
  length-replicate, length-drop, newline, blank, is_space, first_line, to_nul, string_at, ◌>>=◌,
  ◌>>◌, guard, load, store, load-append, store-append,
}
use linux_note.Select.{Reading, failed, bytes, Effect, close, write, to_upper}

-- The length of `pid_book`.
abbrev pub book_size : ℕ
book_size = 20

-- The first `for` loop: the processes that `waitpid` is called for.
pub reap : (pid_book : List ℕ) → List ℕ
reap [] = []
reap (pid ∷ book) = if pid == 0 then reap book else pid ∷ reap book

-- The last `for` loop: the index of the first 0, or the length.
pub first_free : (pid_book : List ℕ) → ℕ
first_free [] = 0
first_free (pid ∷ book) = if pid == 0 then 0 else first_free book + 1

-- What `fork` answers to the parent.
pub data Fork : Type 0 where
  fork_failed : Fork
  forked : (pid : ℕ) → Fork

-- How a round of the parent ends: with the processes waited for and the socket closed, or in `exit(1)`.
-- A store behind the end of `pid_book` is a fault, none.
pub data Round : Type 0 where
  goes_on : (pid_book waited : List ℕ) (closed : ℕ) → Round
  exits : (waited : List ℕ) → Round

-- A round of `main2` in the parent, with what `Accept` and `fork` return.
pub round : (pid_book : List ℕ) (connfd : ℕ) → Fork → Option Round
unfolding reap first_free
round book connfd fork_failed = some (exits (reap book))
round book connfd (forked pid) = do
  book' ← store book (first_free book) pid
  some (goes_on book' (reap book) connfd)

-- The rounds, by the connections and the processes forked, with the calls of `waitpid` in order.
pub rounds : (pid_book : List ℕ) → List (ℕ × Fork) → Option (List ℕ × List ℕ)
unfolding round
rounds book [] = some (book, [])
rounds book ((connfd, fork) ∷ rest) = do
  r ← round book connfd fork
  elim r [
    | goes_on book' waited closed ↦ do (last, more) ← rounds book' rest; some (last, waited ++ more)
    | exits waited ↦ some (book, waited)
  ]

-- The child of `main2`, by what `Read` returns in turn: what it does, and whether it has exited. When
-- `Read` returns -1 the call is `Write(connfd, buf, n)` with that `n` as a `size_t`.
pub child : (connfd : ℕ) → List Reading → List Effect × Bool
unfolding to_upper
child connfd [] = ([], false)
child connfd (failed ∷ rest) =
    let (done, ended) = child connfd rest in (write connfd (2 ^ 64 - 1) [] ∷ done, ended)
child connfd (bytes [] ∷ rest) = (close connfd ∷ [], true)
child connfd (bytes (c ∷ cs) ∷ rest) =
    let (done, ended) = child connfd rest in
    (write connfd (length (c ∷ cs)) (map to_upper (c ∷ cs)) ∷ done, ended)

-- `MAXLINE`
abbrev pub max_line : ℕ
max_line = 80

-- What the server over UDP does with what `recvfrom` returns: `sendto`, or `perr_exit`.
pub data Datagram : Type 0 where
  sends : List ℕ → Datagram
  perr : Datagram

pub udp_serve : Reading → Datagram
unfolding to_upper
udp_serve failed = perr
udp_serve (bytes b) = sends (map to_upper b)

-- A round of the client over UDP with the line that `fgets` read, and what `recvfrom` returns for what
-- was sent: the buffer and what is printed; none is `perr_exit`.
pub udp_ask : (buf line : List ℕ) → (recvfrom : List ℕ → Reading) → Option (List ℕ × List ℕ)
udp_ask buf line recvfrom =
    let read = line ++ 0 ∷ drop (length line + 1) buf in
    elim (recvfrom (to_nul read)) [
      | failed ↦ none
      | bytes b ↦ let got = take (length read) b ++ drop (length b) read in some (got, to_nul got)
    ]
