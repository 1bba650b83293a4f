-- ===== src/Sockets/Programs/Openings.antt =====
-- bite/socket: the calls of `main` before its loop, in the servers and in the client.
use linux_note.Base.{
  ℕ, ◌^◌, ◌<◌, ◌≡◌, refl, ap, ◌∙◌, ◌≢◌, Bool, true, false, Option, none, some, List, [], ◌∷◌,
}
use linux_note.Sockets.{
  Fd, SockaddrIn, Call, call_bind, call_connect, TcpSocket, tcp_socket, Peer, make_addr, accept,
  open_socket, bind, listen, connect, shut,
}
use linux_note.Sockets.Strings.{htons_involutive}
use linux_note.Sockets.Programs.{Opening, open_server, open_client}
use linux_note.Sockets.Programs.Visits.{closings}

-- Before `return 1` the socket is closed, once, if it was made; a loop starts with the socket open.
abbrev IsTidy : Fd → List Call × Option TcpSocket → Type 0
IsTidy none (calls, none) = closings calls ≡ []
IsTidy (some fd) (calls, none) = closings calls ≡ some fd ∷ []
IsTidy ret (calls, some s) = (closings calls ≡ []) × (s.m_socket ≡ ret) × (ret ≢ none)

open_server-IsTidy :
    (o : Opening) (ret : Fd) (bound listens : Bool)
    → IsTidy ret (open_server (record o { ret = ret; bound = bound; listens = listens }))
unfolding open_server tcp_socket open_socket bind listen shut
open_server-IsTidy o none bound listens = refl
open_server-IsTidy o (some fd) false listens = refl
open_server-IsTidy o (some fd) true false = refl
open_server-IsTidy o (some fd) true true = (refl, refl, λ e. cc)

open_client-IsTidy :
    (o : Opening) (ret : Fd) (connected : Bool)
    → IsTidy ret (open_client (record o { ret = ret; connected = connected }))
unfolding open_client tcp_socket open_socket connect shut
open_client-IsTidy o none connected = refl
open_client-IsTidy o (some fd) false = refl
open_client-IsTidy o (some fd) true = (refl, refl, λ e. cc)

-- Whatever the calls return, the servers and the client either return 1, and then the socket was closed
-- exactly once if it was made, or go on with it open.
open-IsTidy : (o : Opening) → IsTidy o.ret (open_server o) × IsTidy o.ret (open_client o)
open-IsTidy o =
    (open_server-IsTidy o o.ret o.bound o.listens, open_client-IsTidy o o.ret o.connected)

-- The addresses that `bind` and `connect` are called with.
abbrev pub addressed : List Call → List SockaddrIn
addressed [] = []
addressed (call_bind fd a ∷ calls) = a ∷ addressed calls
addressed (call_connect fd a ∷ calls) = a ∷ addressed calls
addressed (_ ∷ calls) = addressed calls

open_server-addressed :
    (o : Opening) (fd : ℕ) (bound listens : Bool)
    → addressed (open_server (record o { ret = some fd; bound = bound; listens = listens })).0
      ≡ make_addr o.addr o.inet_aton o.port ∷ []
unfolding open_server tcp_socket open_socket bind listen shut
open_server-addressed o fd false listens = refl
open_server-addressed o fd true false = refl
open_server-addressed o fd true true = refl

open_client-addressed :
    (o : Opening) (fd : ℕ) (connected : Bool)
    → addressed (open_client (record o { ret = some fd; connected = connected })).0
      ≡ make_addr o.addr o.inet_aton o.port ∷ []
unfolding open_client tcp_socket open_socket connect shut
open_client-addressed o fd false = refl
open_client-addressed o fd true = refl

-- A server and a client that are given the same port and address, of which `inet_aton` makes `ip`, and whose
-- sockets are made, call `bind` and `connect` with the same `sockaddr_in`, whatever the structures held
-- before; and when `accept` stores that `sockaddr_in`, `Accept` gives back that address and port.
pub server_client_meet :
    (o o' : Opening) (fd fd' ip port : ℕ) (s : TcpSocket) (before : Peer)
    → o.ret ≡ some fd
    → o'.ret ≡ some fd'
    → o.inet_aton ≡ some ip
    → o'.inet_aton ≡ some ip
    → o.port ≡ port
    → o'.port ≡ port
    → port < 2 ^ 16
    → (a : SockaddrIn) × (addressed (open_server o).0 ≡ a ∷ [])
      × (addressed (open_client o').0 ≡ a ∷ [])
      × ((accept s before (some fd) a).0 ≡ record { sock = some fd; ip = ip; port = port })
unfolding accept make_addr
server_client_meet o o' fd fd' ip port s before e e' ip_e ip_e' port_e port_e' small =
    let binds : addressed (open_server o).0 ≡ make_addr o.addr o.inet_aton o.port ∷ [] =
      rw (e) (open_server-addressed o fd o.bound o.listens) in
    let connects : addressed (open_client o').0 ≡ make_addr o'.addr o'.inet_aton o'.port ∷ [] =
      rw (e') (open_client-addressed o' fd' o'.connected) in
    (
      make_addr o.addr (some ip) port,
      binds ∙ rw (ip_e, port_e) refl,
      connects ∙ rw (ip_e', port_e') refl,
      ap (λ p. record { sock = some fd; ip = ip; port = p }) (htons_involutive port small),
    )
