-- ===== src/Sockets/Datagrams/Plain.antt =====
-- bite/socket/servUDP.c, the server of servUDP.cpp written in C.
use linux_note.Base.{
  ℕ, ◌-◌, ◌<◌, Bool, true, false, Option, none, some, List, [], ◌∷◌, ◌++◌, ltb, if◌then◌else◌,
  length, replicate, to_nul, ◌>>=◌, ◌>>◌, guard,
}
use linux_note.Select.{Reading, failed, bytes}
use linux_note.Sockets.{Fd, SockaddrIn, af_inet, htons, bufsiz, c_string}
use linux_note.Sockets.Datagrams.{
  Call, call_socket, call_bind, call_sendto, call_recvfrom, call_close, Arrival, Exchange, Run,
  typed,
}
use linux_note.Sockets.Datagrams.Replies.{IsInet}

-- The address that `bind` is called with; when `inet_pton` refuses the text `sin_addr` stays as it is, and
-- `sin_zero` always does.
plain_addr : SockaddrIn → (inet_pton : Option ℕ) → (port : ℕ) → SockaddrIn
unfolding htons
plain_addr addr none port = record addr { sin_family = af_inet; sin_port = htons port }
plain_addr addr (some a) port = record addr {
  sin_family = af_inet;
  sin_port = htons port;
  sin_addr = a;
}

-- `main` up to the loop: the calls, and the socket, or none after `return 1`.
plain_open :
    (ret : Fd)
    → SockaddrIn
    → (inet_pton : Option ℕ) → (port : ℕ) → (bound : Bool) → List Call × Option Fd
unfolding plain_addr
plain_open none addr ip port bound = (call_socket ∷ [], none)
plain_open (some fd) addr ip port bound =
    let binds = call_bind (some fd) (plain_addr addr ip port) in
    if bound then (call_socket ∷ binds ∷ [], some (some fd)) else (call_socket ∷ binds ∷ [], none)

-- A round of the loop; `word` is what `scanf` reads, and `addr` is not used. At the end of the input `buf` stays
-- as `memset` left it. A word that does not fit into `buf` is a fault, none.
pub plain_serve : (sockfd : Fd) → Exchange → Option Run
unfolding c_string
plain_serve fd x = elim x.arrival.reading [
  | failed ↦
      some (record {
        calls = call_recvfrom fd bufsiz ∷ call_close fd ∷ [];
        printed = [];
        ended = true;
      })
  | bytes b ↦ do
    text ← c_string (b ++ replicate (bufsiz - length b) 0)
    guard (ltb (length (typed x.word [])) bufsiz)
    let sends = call_sendto fd (to_nul (typed x.word [])) x.arrival.addr
    some (
        if x.sent
        then record {
          calls = call_recvfrom fd bufsiz ∷ sends ∷ [];
          printed = text ∷ [];
          ended = false;
        }
        else record {
          calls = call_recvfrom fd bufsiz ∷ sends ∷ call_close fd ∷ [];
          printed = text ∷ [];
          ended = true;
        })
]

-- The message that a datagram is.
abbrev received : Reading → List ℕ
received failed = []
received (bytes b) = to_nul b

module _ (inet_pton : List ℕ → Option ℕ) (inet_ntoa : ℕ → List ℕ) where
  -- What arrives in a round of the servers, if anything.
  abbrev Arrives : Arrival → Type 0
  Arrives a = elim a.reading [
    | failed ↦ Unit {0}
    | bytes b ↦ (length b < bufsiz) × IsInet inet_pton inet_ntoa a.addr
  ]
