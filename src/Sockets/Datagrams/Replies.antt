-- ===== src/Sockets/Datagrams/Replies.antt =====
-- The answers of bite/socket/servUDP.cpp and its clients.
use linux_note.Base.{
  ℕ, ◌-◌, ◌^◌, ◌<◌, ◌≡◌, refl, sym, Bool, true, false, Option, none, some, List, [], ◌∷◌, arith,
  length, replicate, to_nul,
}
use linux_note.Select.{bytes}
use linux_note.Sockets.{SockaddrIn, af_inet, htons, bufsiz}
use linux_note.Sockets.Strings.{htons_involutive, c_string-zeros}
use linux_note.Sockets.Datagrams.{
  call_sendto, call_recvfrom, UdpSocket, Message, serve, ask, recv, send, make_addr, shut,
}

module _ (inet_pton : List ℕ → Option ℕ) (inet_ntoa : ℕ → List ℕ) where
  pub recv_lem :
      (s : UdpSocket) (m : Message) (b : List ℕ) (addr : SockaddrIn)
      → length b < bufsiz
      → recv inet_pton inet_ntoa s m (record { reading = bytes b; addr = addr })
        ≡ some (
          record { buf = to_nul b; ip = inet_ntoa addr.sin_addr; port = htons addr.sin_port },
          call_recvfrom s.m_sockfd bufsiz,
          true,
        )
  unfolding recv
  recv_lem s m b addr h = rw (c_string-zeros b (bufsiz - length b) (omega (arith, h))) refl

  -- An address of the Internet, which its text gives back.
  abbrev pub IsInet : SockaddrIn → Type 0
  IsInet addr =
      (inet_pton (inet_ntoa addr.sin_addr) ≡ some addr.sin_addr)
      × (addr.sin_family ≡ af_inet)
      × (addr.sin_zero ≡ replicate 8 0)
      × (addr.sin_port < 2 ^ 16)

  -- The address of the sender, after `inet_ntoa`, `ntohs` and `_makeAddr`.
  pub make_addr_lem :
      (garbage addr : SockaddrIn)
      → IsInet addr
      → make_addr inet_pton inet_ntoa garbage (inet_ntoa addr.sin_addr) (htons addr.sin_port) ≡ addr
  unfolding make_addr
  make_addr_lem garbage addr (back, family, zeros, small) =
      let ip : elim (inet_pton (inet_ntoa addr.sin_addr)) as (λ x. ℕ) [
        | none ↦ garbage.sin_addr
        | some a ↦ a
      ]
          ≡ addr.sin_addr =
        rw (back) refl in
      λ i. record {
        sin_family = sym family i;
        sin_port = htons_involutive addr.sin_port small i;
        sin_addr = ip i;
        sin_zero = sym zeros i;
      }

  -- When a datagram with a question arrives that is shorter than `BUFSIZ`, the server prints the question up
  -- to its first 0 and, when a word is typed and nothing fails, sends the whole word to the very address that the question came
  -- from, which its text must give back; and the client that this answer reaches, if it is shorter than
  -- `BUFSIZ`, prints it up to its first 0. Both go on. Empty datagrams are no exception.
  pub answers_sender :
      (server client : UdpSocket) (cliPort servPort : ℕ) (servIp question answer : List ℕ)
      (sender from garbage : SockaddrIn) (closed : Bool)
      → IsInet sender
      → length question < bufsiz
      → length answer < bufsiz
      → (serve inet_pton inet_ntoa server cliPort (record {
        arrival = record { reading = bytes question; addr = sender };
        word = some answer;
        addr = garbage;
        sent = true;
        closed = closed;
      })
          ≡ some (record {
            calls =
                call_recvfrom server.m_sockfd bufsiz
                ∷ call_sendto server.m_sockfd answer sender
                ∷ [];
            printed = to_nul question ∷ [];
            ended = false;
          }))
        × (ask inet_pton inet_ntoa client servIp servPort (record {
          arrival = record { reading = bytes answer; addr = from };
          word = some question;
          addr = garbage;
          sent = true;
          closed = closed;
        })
            ≡ some (record {
              calls =
                  call_sendto client.m_sockfd question
                    (make_addr inet_pton inet_ntoa garbage servIp servPort)
                  ∷ call_recvfrom client.m_sockfd bufsiz
                  ∷ [];
              printed = to_nul answer ∷ [];
              ended = false;
            }))
  unfolding serve ask send shut
  answers_sender server client cliPort servPort servIp question answer sender from garbage closed
        inet short_q short_a =
      (
        rw
            (
              recv_lem server (record { buf = []; ip = []; port = cliPort }) question sender
                  short_q,
              make_addr_lem garbage sender inet,
            )
            refl,
        rw (recv_lem client (record { buf = []; ip = []; port = 0 }) answer from short_a) refl,
      )
