-- ===== src/Sockets/Datagrams.antt =====
-- bite/socket/UDPsocket.hpp, servUDP.cpp and cliUDP.cpp: the class `UDPsocket`, and the programs that use it.
pub mod Replies
pub mod Plain
mod Tests
use linux_note.Base.{
  ℕ, zero, suc, ◌+◌, ◌-◌, ◌*◌, ◌/◌, ◌%◌, ◌^◌, ◌≤◌, ◌<◌, ◌≡◌, refl, sym, ap, ◌∙◌, ◌≢◌, ◌⊎◌, inl, inr,
  Bool, true, false, not, ◌&&◌, ◌||◌, Option, none, some, List, [], ◌∷◌, ◌++◌, map, append-nil,
  append_assoc, arith, ltb, leb, ◌==◌, if◌then◌else◌, Bool-cases, ==_refl, eq_of_==, ne_of_==,
  ltb→lt, leb→le, length, get_elem?, get_or, set, take, drop, replicate, length-append, length-set,
  get_or-append, set-append, get_or-set_self, get_or-set_ne, take-append, drop-append,
  length-replicate, length-drop, newline, blank, is_space, first_line, to_nul, string_at, ◌>>=◌,
  ◌>>◌, guard, load, store, load-append, store-append,
}
use linux_note.Select.{Reading, failed, bytes}
use linux_note.Sockets.{Fd, SockaddrIn, af_inet, htons, bufsiz, c_string}

pub data Call : Type 0 where
  call_socket : Call
  call_bind : Fd → SockaddrIn → Call
  call_recvfrom : Fd → (len : ℕ) → Call
  call_sendto : Fd → (buf : List ℕ) → SockaddrIn → Call
  call_close : Fd → Call

-- The field of `UDPsocket`.
pub record UdpSocket : Type 0 where
  pub m_sockfd : Fd

abbrev is_valid : Fd → Bool
is_valid none = false
is_valid (some fd) = true

pub open_socket : (ret : Fd) → UdpSocket × Call × Bool
open_socket ret = (record { m_sockfd = ret }, call_socket, is_valid ret)

pub shut : UdpSocket → (ok : Bool) → Call × Bool
shut s ok = (call_close s.m_sockfd, ok)

-- What `recvfrom` returns, and the address that it stores.
pub record Arrival : Type 0 where
  pub reading : Reading
  pub addr : SockaddrIn

-- The values behind `buf`, `ip` and `port`.
pub record Message : Type 0 where
  pub buf : List ℕ
  pub ip : List ℕ
  pub port : ℕ

-- What happens in a round: the datagram that arrives, the word that is typed (none at the end of the input), what the `sockaddr_in`
-- on the stack of `Send` holds before, and whether `sendto` and `close` succeed.
pub record Exchange : Type 0 where
  pub arrival : Arrival
  pub word : Option (List ℕ)
  pub addr : SockaddrIn
  pub sent : Bool
  pub closed : Bool

-- The buffer after a word is read into it; at the end of the input it stays as it was.
abbrev pub typed : Option (List ℕ) → (buf : List ℕ) → List ℕ
typed none buf = buf
typed (some word) buf = word

-- A round: the calls, what is printed, and whether `main` returned 1.
pub record Run : Type 0 where
  pub calls : List Call
  pub printed : List (List ℕ)
  pub ended : Bool

-- The two functions of the C library that turn an address into a text and back.
module _ (inet_pton : List ℕ → Option ℕ) (inet_ntoa : ℕ → List ℕ) where
  -- `_makeAddr`; when `inet_pton` refuses the text `sin_addr` stays as it is.
  pub make_addr : SockaddrIn → (ip : List ℕ) → (port : ℕ) → SockaddrIn
  unfolding htons
  make_addr addr ip port = record {
    sin_family = af_inet;
    sin_port = htons port;
    sin_addr = elim (inet_pton ip) [ none ↦ addr.sin_addr | some a ↦ a ];
    sin_zero = replicate 8 0;
  }

  pub bind : UdpSocket → SockaddrIn → (ip : List ℕ) → (port : ℕ) → (ok : Bool) → Call × Bool
  unfolding make_addr
  bind s addr ip port ok = (call_bind s.m_sockfd (make_addr addr ip port), ok)

  pub send : UdpSocket → SockaddrIn → (buf ip : List ℕ) → (port : ℕ) → (ok : Bool) → Call × Bool
  unfolding make_addr
  send s addr buf ip port ok = (call_sendto s.m_sockfd buf (make_addr addr ip port), ok)

  -- The message after the call, and what is returned. A datagram that fills `Buf` without a 0 is a fault,
  -- none.
  pub recv : UdpSocket → Message → Arrival → Option (Message × Call × Bool)
  unfolding htons c_string
  recv s m a = elim a.reading [
    | failed ↦ some (m, call_recvfrom s.m_sockfd bufsiz, false)
    | bytes b ↦ do
      text ← c_string (b ++ replicate (bufsiz - length b) 0)
      some (
        record { buf = text; ip = inet_ntoa a.addr.sin_addr; port = htons a.addr.sin_port },
        call_recvfrom s.m_sockfd bufsiz,
        true,
      )
  ]

  -- servUDP.cpp up to its loop: the calls, and the socket, or none after `return 1`.
  pub open_server :
      (ret : Fd)
      → SockaddrIn
      → (ip : List ℕ) → (port : ℕ) → (bound : Bool) → List Call × Option UdpSocket
  unfolding open_socket bind
  open_server ret addr ip port bound =
      let (s, opened, is_open) = open_socket ret in
      let (binds, is_bound) = bind s addr ip port bound in
      if not is_open
      then (opened ∷ [], none)
      else if not is_bound
      then (opened ∷ binds ∷ [], none)
      else (opened ∷ binds ∷ [], some s)

  -- A round of servUDP.cpp. The port is not set before the first message. At the end of the input
  -- `std::cin >> buf` leaves the message that was received in `buf`.
  pub serve : UdpSocket → (cliPort : ℕ) → Exchange → Option Run
  unfolding recv send shut
  serve s cliPort x = do
    (m, receives, is_received) ← recv s (record { buf = []; ip = []; port = cliPort }) x.arrival
    let (sends, is_sent) = send s x.addr (typed x.word m.buf) m.ip m.port x.sent
    let (closes, _) = shut s x.closed
    some (
        if not is_received
        then record { calls = receives ∷ closes ∷ []; printed = []; ended = true }
        else if not is_sent
        then record { calls = receives ∷ sends ∷ closes ∷ []; printed = m.buf ∷ []; ended = true }
        else record { calls = receives ∷ sends ∷ []; printed = m.buf ∷ []; ended = false })

  -- A round of cliUDP.cpp, with the address of the server from the arguments. At the end of the input
  -- `buf` stays empty.
  pub ask : UdpSocket → (servIp : List ℕ) → (servPort : ℕ) → Exchange → Option Run
  unfolding recv send shut
  ask s servIp servPort x =
      let (sends, is_sent) = send s x.addr (typed x.word []) servIp servPort x.sent in
      let (closes, _) = shut s x.closed in
      let got = recv s (record { buf = []; ip = []; port = 0 }) x.arrival in
      if not is_sent
      then some (record { calls = sends ∷ closes ∷ []; printed = []; ended = true })
      else (do
        (m, receives, is_received) ← got
        some (
            if not is_received
            then record { calls = sends ∷ receives ∷ closes ∷ []; printed = []; ended = true }
            else record { calls = sends ∷ receives ∷ []; printed = m.buf ∷ []; ended = false }))
