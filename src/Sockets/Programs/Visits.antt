-- ===== src/Sockets/Programs/Visits.antt =====
-- The descriptors of bite/socket/servTCP.cpp, of the opening of the servers and the client, and of
-- processServTCP.cpp.
use linux_note.Base.{
  ℕ, ◌<◌, ◌≡◌, refl, ap, ◌∙◌, Bool, true, false, not, Option, none, some, List, [], ◌∷◌, ◌++◌, map,
  if◌then◌else◌, length, to_nul,
}
use linux_note.Select.{Reading, failed, bytes}
use linux_note.Sockets.{
  SockaddrIn, htons, Fd, Call, call_socket, call_bind, call_listen, call_accept, call_connect,
  call_send, call_recv, call_close, TcpSocket, Peer, bufsiz, recv, send, shut, accept, set_socket,
  get_socket,
}
use linux_note.Sockets.Strings.{recv_lem}
use linux_note.Sockets.Programs.{Exchange, Run, Visit, answer, serve, sig_chld}

-- The descriptors that the calls of `close` are made with.
abbrev pub closings : List Call → List Fd
closings [] = []
closings (call_close fd ∷ calls) = fd ∷ closings calls
closings (_ ∷ calls) = closings calls

closings-append : (xs ys : List Call) → closings (xs ++ ys) ≡ closings xs ++ closings ys
closings-append [] ys = refl
closings-append (call_close fd ∷ xs) ys = ap (λ l. fd ∷ l) (closings-append xs ys)
closings-append (call_socket ∷ xs) ys = closings-append xs ys
closings-append (call_bind fd a ∷ xs) ys = closings-append xs ys
closings-append (call_connect fd a ∷ xs) ys = closings-append xs ys
closings-append (call_listen fd n ∷ xs) ys = closings-append xs ys
closings-append (call_accept fd ∷ xs) ys = closings-append xs ys
closings-append (call_send fd b ∷ xs) ys = closings-append xs ys
closings-append (call_recv fd n ∷ xs) ys = closings-append xs ys

-- `recv` or `send` failed, or the client has ended.
abbrev is_lost : Exchange → Bool
is_lost x = elim x.received [ failed ↦ true | bytes [] ↦ true | bytes (c ∷ cs) ↦ not x.sent ]

-- The connections that were accepted and lost.
abbrev lost : List Visit → List Fd
lost [] = []
lost (v ∷ vs) =
    let rest = lost vs in
    elim v.ret [ none ↦ rest | some fd ↦ if is_lost v.exchange then some fd ∷ rest else rest ]

abbrev Fits : Reading → Type 0
Fits failed = Unit {0}
Fits (bytes b) = length b < bufsiz

abbrev pub AllFit : List Visit → Type 0
AllFit [] = Unit {0}
AllFit (v ∷ vs) = Fits v.exchange.received × AllFit vs

-- What an answer is, with what it closes.
abbrev Answers : TcpSocket → List ℕ → Exchange → Type 0
Answers s buf x =
    (run : Run) × (answer s buf x ≡ some run)
    × (closings run.calls ≡ (if is_lost x then s.m_socket ∷ [] else []))

answer-Answers :
    (s : TcpSocket) (buf : List ℕ) (reading : Reading) (word : List ℕ) (sent closed : Bool)
    → Fits reading
    → Answers s buf (record { received = reading; word = word; sent = sent; closed = closed })
unfolding answer recv send shut
answer-Answers s buf failed word sent closed h = (_, refl, refl)
answer-Answers s buf (bytes []) word sent closed h = (_, refl, refl)
answer-Answers s buf (bytes (c ∷ cs)) word true closed h =
    let run : Run = record {
      calls = call_recv s.m_socket bufsiz ∷ call_send s.m_socket (to_nul word) ∷ [];
      printed = to_nul (c ∷ cs) ∷ [];
      ended = false;
    } in
    (run, rw (recv_lem s buf c cs h) refl, refl)
answer-Answers s buf (bytes (c ∷ cs)) word false closed h =
    let run : Run = record {
      calls =
          call_recv s.m_socket bufsiz
          ∷ call_send s.m_socket (to_nul word)
          ∷ call_close s.m_socket
          ∷ [];
      printed = to_nul (c ∷ cs) ∷ [];
      ended = true;
    } in
    (run, rw (recv_lem s buf c cs h) refl, refl)

abbrev Serves : TcpSocket → Peer → List Visit → Type 0
Serves s peer vs = (calls : List Call) × (serve s peer vs ≡ some calls) × (closings calls ≡ lost vs)

if-append :
    (b : Bool) (fd : Fd) (rest : List Fd)
    → (if b then fd ∷ [] else []) ++ rest ≡ (if b then fd ∷ rest else rest)
if-append true fd rest = refl
if-append false fd rest = refl

-- A further connection, when the rounds after it are known.
visit-Serves :
    (s : TcpSocket) (peer : Peer) (ret : Fd) (addr : SockaddrIn) (x : Exchange) (vs : List Visit)
    → Fits x.received
    → ((peer' : Peer) → Serves s peer' vs)
    → Serves s peer (record { ret = ret; addr = addr; exchange = x } ∷ vs)
unfolding serve accept set_socket get_socket
visit-Serves s peer none addr x vs fits later =
    let (calls, runs, closed) = later (record peer { sock = none }) in
    (call_accept s.m_socket ∷ calls, rw runs refl, closed)
visit-Serves s peer (some fd) addr x vs fits later =
    let peer' : Peer = record { sock = some fd; ip = addr.sin_addr; port = htons addr.sin_port } in
    let (calls, runs, closed) = later peer' in
    let (run, answers, closes) =
      answer-Answers (record { m_socket = some fd }) [] x.received x.word x.sent x.closed fits in
    (
      call_accept s.m_socket ∷ run.calls ++ calls,
      rw (answers, runs) refl,
      closings-append run.calls calls
          ∙ rw (closes, closed) (if-append (is_lost x) (some fd) (lost vs)),
    )

-- When no message fills `BUFSIZ`, the loop of servTCP.cpp serves all connections, and `close` is called for
-- exactly the accepted connections whose client has ended or whose `recv` or `send` failed, in order: a
-- connection that was answered is never closed.
pub serve-closings :
    (s : TcpSocket) (peer : Peer) (vs : List Visit)
    → AllFit vs
    → (calls : List Call) × (serve s peer vs ≡ some calls) × (closings calls ≡ lost vs)
unfolding serve
serve-closings s peer [] h = ([], refl, refl)
serve-closings s peer (v ∷ vs) h =
    visit-Serves s peer v.ret v.addr v.exchange vs h.0 (λ peer'. serve-closings s peer' vs h.1)

-- The signal handler takes all the children that have ended, and stops at the first answer that names none.
sig_chld_lem :
    (pids : List ℕ) (rest : List (Option ℕ))
    → sig_chld (map some pids ++ none ∷ rest) ≡ (pids, rest)
unfolding sig_chld
sig_chld_lem [] rest = refl
sig_chld_lem (pid ∷ pids) rest = rw (sig_chld_lem pids rest) refl
