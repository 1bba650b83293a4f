-- ===== src/Sockets/Programs.antt =====
-- The programs over `TCPsocket`: bite/socket/servTCP.cpp, processServTCP.cpp and cliTCP.cpp.
pub mod Visits
pub mod Openings
pub mod Shared
pub mod Conversation
mod Tests
use linux_note.Base.{
  ℕ, zero, suc, ◌+◌, ◌-◌, ◌*◌, ◌/◌, ◌%◌, ◌^◌, ◌≤◌, ◌<◌, ◌≡◌, refl, sym, ap, ◌∙◌, ◌≢◌, ◌⊎◌, inl, inr,
  Bool, true, false, not, ◌&&◌, ◌||◌, Option, none, some, List, [], ◌∷◌, ◌++◌, map, append-nil,
  append_assoc, arith, ltb, leb, ◌==◌, if◌then◌else◌, Bool-cases, ==_refl, eq_of_==, ne_of_==,
  ltb→lt, leb→le, length, get_elem?, get_or, set, take, drop, replicate, length-append, length-set,
  get_or-append, set-append, get_or-set_self, get_or-set_ne, take-append, drop-append,
  length-replicate, length-drop, newline, blank, is_space, first_line, to_nul, string_at, ◌>>=◌,
  ◌>>◌, guard, load, store, load-append, store-append,
}
use linux_note.Select.{Reading, failed, bytes}
use linux_note.Sockets.{
  Fd, SockaddrIn, Call, TcpSocket, tcp_socket, open_socket, bind, listen, accept, Peer, connect,
  send, recv, shut, get_socket, set_socket,
}

-- What the calls before the loop of `main` return: the descriptor, and whether `bind`, `listen`,
-- `connect` and `close` succeed. `addr` is what `struct sockaddr_in` holds before.
pub record Opening : Type 0 where
  pub addr : SockaddrIn
  pub inet_aton : Option ℕ
  pub port : ℕ
  pub ret : Fd
  pub bound : Bool
  pub listens : Bool
  pub connected : Bool
  pub closed : Bool

-- The servers up to the loop: the calls, and the socket, or none after `return 1`.
pub open_server : Opening → List Call × Option TcpSocket
unfolding tcp_socket open_socket bind listen shut
open_server o =
    let (s, opened, is_open) = open_socket tcp_socket o.ret in
    let (binds, is_bound) = bind s o.addr o.inet_aton o.port o.bound in
    let (listens, is_listening) = listen s o.listens in
    let (closes, _) = shut s o.closed in
    if not is_open
    then (opened ∷ [], none)
    else if not is_bound
    then (opened ∷ binds ∷ closes ∷ [], none)
    else if not is_listening
    then (opened ∷ binds ∷ listens ∷ closes ∷ [], none)
    else (opened ∷ binds ∷ listens ∷ [], some s)

-- The client up to the loop.
pub open_client : Opening → List Call × Option TcpSocket
unfolding tcp_socket open_socket connect shut
open_client o =
    let (s, opened, is_open) = open_socket tcp_socket o.ret in
    let (connects, is_connected) = connect s o.addr o.inet_aton o.port o.connected in
    let (closes, _) = shut s o.closed in
    if not is_open
    then (opened ∷ [], none)
    else if not is_connected
    then (opened ∷ connects ∷ closes ∷ [], none)
    else (opened ∷ connects ∷ [], some s)

-- What happens in a round with one message each way: what `recv` returns, the word that `std::cin`
-- reads, and whether `send` and `close` succeed.
pub record Exchange : Type 0 where
  pub received : Reading
  pub word : List ℕ
  pub sent : Bool
  pub closed : Bool

-- What a run of rounds does: the calls, the messages printed, and whether it ended in an error.
pub record Run : Type 0 where
  pub calls : List Call
  pub printed : List (List ℕ)
  pub ended : Bool

-- The answer to one message: `Recv`, the printed message, and `Send`, with `Close` after an error.
pub answer : TcpSocket → (buf : List ℕ) → Exchange → Option Run
unfolding recv send shut
answer s buf x = do
  (text, receives, is_received) ← recv s buf x.received
  let (sends, is_sent) = send s x.word x.sent
  let (closes, _) = shut s x.closed
  some (
      if not is_received
      then record { calls = receives ∷ closes ∷ []; printed = []; ended = true }
      else if not is_sent
      then record { calls = receives ∷ sends ∷ closes ∷ []; printed = text ∷ []; ended = true }
      else record { calls = receives ∷ sends ∷ []; printed = text ∷ []; ended = false })

-- A connection that `accept` returned, with its round.
pub record Visit : Type 0 where
  pub ret : Fd
  pub addr : SockaddrIn
  pub exchange : Exchange

-- The loop of servTCP.cpp: one message of each connection is answered.
pub serve : TcpSocket → Peer → List Visit → Option (List Call)
unfolding accept get_socket set_socket answer
serve s peer [] = some []
serve s peer (v ∷ vs) =
    let (peer', accepts, is_accepted) = accept s (record peer { sock = some 0 }) v.ret v.addr in
    let rest = serve s peer' vs in
    let answered = answer (set_socket tcp_socket peer'.sock) [] v.exchange in
    if not is_accepted
    then (do calls ← rest; some (accepts ∷ calls))
    else (do run ← answered; calls ← rest; some (accepts ∷ run.calls ++ calls))

-- A round, and the rounds after it unless it ended the loop.
pub go_on : Run → (rest : Option Run) → Option Run
go_on run rest = if run.ended then some run else (do
  more ← rest
  some (record {
    calls = run.calls ++ more.calls;
    printed = run.printed ++ more.printed;
    ended = more.ended;
  }))

-- The loop of the child of processServTCP.cpp, with one connection. The string `buf` is kept.
pub session : TcpSocket → (buf : List ℕ) → List Exchange → Option Run
unfolding answer go_on
session s buf [] = some (record { calls = []; printed = []; ended = false })
session s buf (x ∷ xs) = let rest = session s x.word xs in do run ← answer s buf x; go_on run rest

-- A question of the client: the word that `std::cin` reads, whether `send` and `close` succeed, and what
-- `recv` returns.
pub ask : TcpSocket → Exchange → Option Run
unfolding send recv shut
ask s x =
    let (sends, is_sent) = send s x.word x.sent in
    let (closes, _) = shut s x.closed in
    let got = recv s x.word x.received in
    if not is_sent
    then some (record { calls = sends ∷ closes ∷ []; printed = []; ended = true })
    else (do
      (text, receives, is_received) ← got
      some (
          if not is_received
          then record { calls = sends ∷ receives ∷ closes ∷ []; printed = []; ended = true }
          else record { calls = sends ∷ receives ∷ []; printed = text ∷ []; ended = false }))

-- The loop of cliTCP.cpp.
pub chat : TcpSocket → List Exchange → Option Run
unfolding ask go_on
chat s [] = some (record { calls = []; printed = []; ended = false })
chat s (x ∷ xs) = let rest = chat s xs in do run ← ask s x; go_on run rest

-- What `fork` returns.
pub data Fork : Type 0 where
  fork_failed : Fork
  in_child : Fork
  in_parent : (pid : ℕ) → Fork

-- A round of `main` of processServTCP.cpp after `Accept` returned true: the child runs its session, and
-- the parent calls nothing more.
process_round : (newSockfd : Fd) → Fork → List Exchange → Option Run
unfolding set_socket session
process_round fd in_child xs = session (set_socket tcp_socket fd) [] xs
process_round fd fork_failed xs = some (record { calls = []; printed = []; ended = false })
process_round fd (in_parent pid) xs = some (record { calls = []; printed = []; ended = false })

-- `sigChld`, by what `waitpid` returns in turn, none for 0 or -1: the processes waited for, and the answers
-- that are left.
pub sig_chld : List (Option ℕ) → List ℕ × List (Option ℕ)
sig_chld [] = ([], [])
sig_chld (none ∷ rest) = ([], rest)
sig_chld (some pid ∷ rest) = let (pids, left) = sig_chld rest in (pid ∷ pids, left)
