-- ===== src/Sockets.antt =====
-- bite/socket/TCPsocket.hpp: the class `TCPsocket`, each method with what the system call in it returns.
pub mod Programs
mod Strings
pub mod Datagrams
use linux_note.Base.{
  ℕ, zero, suc, ◌+◌, ◌-◌, ◌*◌, ◌/◌, ◌%◌, ◌^◌, ◌≤◌, ◌<◌, ◌≡◌, refl, sym, ap, ◌∙◌, ◌≢◌, ◌⊎◌, inl, inr,
  Bool, true, false, not, ◌&&◌, ◌||◌, Option, none, some, List, [], ◌∷◌, ◌++◌, map, append-nil,
  append_assoc, arith, ltb, leb, ◌==◌, if◌then◌else◌, Bool-cases, ==_refl, eq_of_==, ne_of_==,
  ltb→lt, leb→le, length, get_elem?, get_or, set, take, drop, replicate, length-append, length-set,
  get_or-append, set-append, get_or-set_self, get_or-set_ne, take-append, drop-append,
  length-replicate, length-drop, newline, blank, is_space, first_line, to_nul, string_at, ◌>>=◌,
  ◌>>◌, guard, load, store, load-append, store-append,
}
use linux_note.Select.{Reading, failed, bytes}

-- `int` that is a descriptor or -1, none.
abbrev pub Fd : Type 0
Fd = Option ℕ

-- `struct sockaddr_in`, with the port and the address in network order.
pub record SockaddrIn : Type 0 where
  pub sin_family : ℕ
  pub sin_port : ℕ
  pub sin_addr : ℕ
  pub sin_zero : List ℕ

-- `AF_INET`
abbrev pub af_inet : ℕ
af_inet = 2

-- `htons` and `ntohs` on a host of little end order: the two bytes change places.
pub htons : ℕ → ℕ
htons p = p % 256 * 256 + p / 256 % 256

-- `uint16_t` from an `int`.
abbrev uint16 : ℕ → ℕ
uint16 n = n % 2 ^ 16

-- The call of the kernel that a method makes.
pub data Call : Type 0 where
  call_socket : Call
  call_bind call_connect : Fd → SockaddrIn → Call
  call_listen : Fd → (backlog : ℕ) → Call
  call_accept : Fd → Call
  call_send : Fd → (buf : List ℕ) → Call
  call_recv : Fd → (len : ℕ) → Call
  call_close : Fd → Call

-- `MAXLISTEN` and `BUFSIZ`
abbrev max_listen : ℕ
max_listen = 10

abbrev pub bufsiz : ℕ
bufsiz = 8192

-- The C string that stands in a buffer; none if it has no 0 and the reading goes on behind its end.
unfoldable pub c_string : List ℕ → Option (List ℕ)
c_string [] = none
c_string (c ∷ s) = let rest = c_string s in if c == 0 then some [] else do t ← rest; some (c ∷ t)

-- The field of `TCPsocket`.
pub record TcpSocket : Type 0 where
  pub m_socket : Fd

-- The constructor.
pub tcp_socket : TcpSocket
tcp_socket = record { m_socket = none }

-- `_makeAddr`, with what `inet_aton` makes of `ip`; when that is none `sin_addr` stays as it is.
pub make_addr : SockaddrIn → (inet_aton : Option ℕ) → (port : ℕ) → SockaddrIn
unfolding htons
make_addr addr none port = record addr {
  sin_family = af_inet;
  sin_port = htons port;
  sin_zero = replicate 8 0;
}
make_addr addr (some ip) port = record {
  sin_family = af_inet;
  sin_port = htons port;
  sin_addr = ip;
  sin_zero = replicate 8 0;
}

-- Each method gives the call that it makes and what it returns. `ok` says that the call returned no
-- negative number.
abbrev is_valid : Fd → Bool
is_valid none = false
is_valid (some fd) = true

pub open_socket : TcpSocket → (ret : Fd) → TcpSocket × Call × Bool
open_socket s ret = (record { m_socket = ret }, call_socket, is_valid ret)

pub bind : TcpSocket → SockaddrIn → (inet_aton : Option ℕ) → (port : ℕ) → (ok : Bool) → Call × Bool
unfolding make_addr
bind s addr ip port ok = (call_bind s.m_socket (make_addr addr ip port), ok)

pub listen : TcpSocket → (ok : Bool) → Call × Bool
listen s ok = (call_listen s.m_socket max_listen, ok)

-- The values behind `newSock`, `ip` and `port`.
pub record Peer : Type 0 where
  pub sock : Fd
  pub ip : ℕ
  pub port : ℕ

-- With the descriptor that `accept` returns and the address that it stores.
pub accept : TcpSocket → Peer → (ret : Fd) → SockaddrIn → Peer × Call × Bool
unfolding htons
accept s before none addr = (record before { sock = none }, call_accept s.m_socket, false)
accept s before (some fd) addr = (
  record { sock = some fd; ip = addr.sin_addr; port = htons addr.sin_port },
  call_accept s.m_socket,
  true,
)

pub connect :
    TcpSocket → SockaddrIn → (inet_aton : Option ℕ) → (port : ℕ) → (ok : Bool) → Call × Bool
unfolding make_addr
connect s addr ip port ok = (call_connect s.m_socket (make_addr addr ip port), ok)

pub send : TcpSocket → (buf : List ℕ) → (ok : Bool) → Call × Bool
send s buf ok = (call_send s.m_socket (to_nul buf), ok)

-- The string after the call, and what is returned. A message that fills `Buf` without a 0 is a fault,
-- none.
pub recv : TcpSocket → (buf : List ℕ) → Reading → Option (List ℕ × Call × Bool)
unfolding c_string
recv s buf failed = some (buf, call_recv s.m_socket bufsiz, false)
recv s buf (bytes []) = some (buf, call_recv s.m_socket bufsiz, false)
recv s buf (bytes (c ∷ cs)) = do
  text ← c_string ((c ∷ cs) ++ replicate (bufsiz - length (c ∷ cs)) 0)
  some (text, call_recv s.m_socket bufsiz, true)

pub shut : TcpSocket → (ok : Bool) → Call × Bool
shut s ok = (call_close s.m_socket, ok)

pub get_socket : TcpSocket → Fd
get_socket s = s.m_socket

pub set_socket : TcpSocket → Fd → TcpSocket
set_socket s fd = record { m_socket = fd }
