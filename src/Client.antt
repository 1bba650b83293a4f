-- ===== src/Client.antt =====
-- LinuxC/socket/TCP/client.c, and `main1` of LinuxC/socket/TCP/server.c, which answers one message of each
-- connection.
pub mod Answers
use linux_note.Base.{
  ℕ, zero, suc, ◌+◌, ◌-◌, ◌*◌, ◌/◌, ◌%◌, ◌^◌, ◌≤◌, ◌<◌, ◌≡◌, refl, sym, ap, ◌∙◌, ◌≢◌, ◌⊎◌, inl, inr,
  Bool, true, false, not, ◌&&◌, ◌||◌, Option, none, some, List, [], ◌∷◌, ◌++◌, map, append-nil,
  append_assoc, arith, ltb, leb, ◌==◌, if◌then◌else◌, Bool-cases, ==_refl, eq_of_==, ne_of_==,
  ltb→lt, leb→le, length, get_elem?, get_or, set, take, drop, replicate, length-append, length-set,
  get_or-append, set-append, get_or-set_self, get_or-set_ne, take-append, drop-append,
  length-replicate, length-drop, newline, blank, is_space, first_line, to_nul, string_at, ◌>>=◌,
  ◌>>◌, guard, load, store, load-append, store-append,
}
use linux_note.Select.{Reading, failed, bytes, Effect, close, write, to_upper}

-- `MAXLINE`
abbrev pub max_line : ℕ
max_line = 80

-- A round of the server with what `Read` returns. When that is -1 the call is `Write(connfd, buf, n)` with
-- that `n` as a `size_t`.
pub serve_once : (connfd : ℕ) → Reading → List Effect
unfolding to_upper
serve_once connfd failed = write connfd (2 ^ 64 - 1) [] ∷ close connfd ∷ []
serve_once connfd (bytes b) = write connfd (length b) (map to_upper b) ∷ close connfd ∷ []

-- What the client prints in a round.
pub data Print : Type 0 where
  closed_by_peer : Print
  text : List ℕ → Print

-- The buffer of `main` after `Read`, from what it held before.
abbrev received : (read : List ℕ) → Reading → List ℕ
received read failed = read
received read (bytes b) = b ++ drop (length b) read

abbrev print_of : (buf : List ℕ) → Reading → Print
print_of buf failed = text (to_nul buf)
print_of buf (bytes []) = closed_by_peer
print_of buf (bytes (c ∷ cs)) = text (to_nul buf)

-- A round of `main` with the line that `fgets` read, and what `Read` returns: what is written to the
-- server, the buffer and what is printed.
pub ask : (buf line : List ℕ) → Reading → List ℕ × List ℕ × Print
ask buf line reading =
    let read = line ++ 0 ∷ drop (length line + 1) buf in
    let got = received read reading in (to_nul read, got, print_of got reading)

-- `main1` with the message of its argument, and what `Read` returns: what is written and printed.
-- `buf[n] = '\0'` out of bounds is a fault, none.
pub ask_once : (buf str : List ℕ) → Reading → Option (List ℕ × List ℕ)
ask_once buf str failed = none
ask_once buf str (bytes b) = do
  ended ← store (received buf (bytes b)) (length b) 0
  some (str, to_nul ended)
