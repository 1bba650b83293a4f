-- ===== src/Sockets/Programs/Shared.antt =====
-- bite/socket/threadServTCP.cpp: a thread for each connection, which reads the descriptor and the address
-- of its client from variables that `main` goes on writing.
pub mod Orders
use linux_note.Base.{
  ℕ, zero, suc, ◌+◌, ◌-◌, ◌*◌, ◌/◌, ◌%◌, ◌^◌, ◌≤◌, ◌<◌, ◌≡◌, refl, sym, ap, ◌∙◌, ◌≢◌, ◌⊎◌, inl, inr,
  Bool, true, false, not, ◌&&◌, ◌||◌, Option, none, some, List, [], ◌∷◌, ◌++◌, map, append-nil,
  append_assoc, arith, ltb, leb, ◌==◌, if◌then◌else◌, Bool-cases, ==_refl, eq_of_==, ne_of_==,
  ltb→lt, leb→le, length, get_elem?, get_or, set, take, drop, replicate, length-append, length-set,
  get_or-append, set-append, get_or-set_self, get_or-set_ne, take-append, drop-append,
  length-replicate, length-drop, newline, blank, is_space, first_line, to_nul, string_at, ◌>>=◌,
  ◌>>◌, guard, load, store, load-append, store-append,
}
use linux_note.Sockets.{Fd, SockaddrIn, TcpSocket, tcp_socket, set_socket, Peer, accept}
use linux_note.Sockets.Programs.{Exchange, Run, session}

-- Where a thread stands in `thr_start`: before each of the three readings, or in its loop.
pub data Thread : Type 0 where
  at_sockfd : Thread
  at_port : (newSockfd : Fd) → Thread
  at_ip : (newSockfd : Fd) (newPort : ℕ) → Thread
  in_loop : Peer → Thread

-- `newSockfd`, `tmpIp` and `tmpPort`, whether `main` stands before `pthread_create`, and the threads.
pub record State : Type 0 where
  pub shared : Peer
  pub creating : Bool
  pub threads : List Thread

-- A step: `main` with what `accept` returns and stores, or thread `i`.
pub data Turn : Type 0 where
  main_accepts : (ret : Fd) → SockaddrIn → Turn
  main_creates : Turn
  thread_runs : (i : ℕ) → Turn

-- The readings of `thr_start`.
pub read_shared : Peer → Thread → Thread
read_shared shared at_sockfd = at_port shared.sock
read_shared shared (at_port fd) = at_ip fd shared.port
read_shared shared (at_ip fd port) = in_loop (record { sock = fd; ip = shared.ip; port = port })
read_shared shared (in_loop peer) = in_loop peer

-- None if it is not the turn of that step.
pub turn : TcpSocket → Turn → State → Option State
unfolding accept read_shared
turn s (main_accepts ret addr) st =
    let (shared, _, ok) = accept s st.shared ret addr in
    if st.creating then none else some (record st { shared = shared; creating = ok })
turn s main_creates st =
    if st.creating
    then some (record st { creating = false; threads = st.threads ++ at_sockfd ∷ [] })
    else none
turn s (thread_runs i) st = do
  t ← get_elem? st.threads i
  some (record st { threads = set st.threads i (read_shared st.shared t) })

pub turns : TcpSocket → List Turn → State → Option State
unfolding turn
turns s [] st = some st
turns s (t ∷ ts) st = do st' ← turn s t st; turns s ts st'

-- The loop of `thr_start` with the connection that the thread has read.
pub thr_start : Peer → List Exchange → Option Run
unfolding set_socket session
thr_start peer xs = session (set_socket tcp_socket peer.sock) [] xs

abbrev pub start : State
start = record { shared = record { sock = none; ip = 0; port = 0 }; creating = false; threads = [] }
