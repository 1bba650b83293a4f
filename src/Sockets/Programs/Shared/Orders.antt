-- ===== src/Sockets/Programs/Shared/Orders.antt =====
-- Orders of the steps of bite/socket/threadServTCP.cpp.
use linux_note.Base.{
  ℕ, suc, ◌≡◌, refl, false, some, List, [], ◌∷◌, ◌++◌, map, append-nil, append_assoc, arith, length,
  get_elem?, length-append, set-append,
}
use linux_note.Sockets.{SockaddrIn, TcpSocket, Peer, accept, htons}
use linux_note.Sockets.Programs.Shared.{
  Thread, at_sockfd, at_port, at_ip, in_loop, Turn, main_accepts, main_creates, thread_runs,
  read_shared, turn, turns, start,
}

-- The three readings of thread `i`.
abbrev reads : ℕ → List Turn
reads i = thread_runs i ∷ thread_runs i ∷ thread_runs i ∷ []

-- `main` accepts each connection after the thread of the one before has read what it needs.
abbrev prompt : ℕ → List (ℕ × SockaddrIn) → List Turn
prompt i [] = []
prompt i ((fd, addr) ∷ rest) =
    main_accepts (some fd) addr
    ∷ main_creates
    ∷ thread_runs i
    ∷ thread_runs i
    ∷ thread_runs i
    ∷ prompt (suc i) rest

abbrev pub peer_of : ℕ × SockaddrIn → Peer
peer_of (fd, addr) = record { sock = some fd; ip = addr.sin_addr; port = htons addr.sin_port }

get_elem?-append :
    (ts : List Thread) (t : Thread) (rest : List Thread)
    → get_elem? (ts ++ t ∷ rest) (length ts) ≡ some t
get_elem?-append [] t rest = refl
get_elem?-append (x ∷ ts) t rest = get_elem?-append ts t rest

-- If `main` accepts each connection only after the thread of the one before has read what it needs, then
-- the steps are all taken and each connection is served by its own thread, with its own address.
prompt_threads :
    (s : TcpSocket) (shared : Peer) (ts : List Thread) (cs : List (ℕ × SockaddrIn))
    → (last : Peer) × (turns s
          (prompt (length ts) cs)
          (record { shared = shared; creating = false; threads = ts })
        ≡ some (record {
          shared = last;
          creating = false;
          threads = ts ++ map (λ c. in_loop (peer_of c)) cs;
        }))
unfolding turns turn accept read_shared
prompt_threads s shared ts [] = (shared, rw (append-nil ts) refl)
prompt_threads s shared ts (c ∷ cs) =
    let sock = some c.0 in
    let port = (peer_of c).port in
    let (last, later) = prompt_threads s (peer_of c) (ts ++ in_loop (peer_of c) ∷ []) cs in
    let more : length (ts ++ in_loop (peer_of c) ∷ []) ≡ suc (length ts) =
      omega (arith, length-append ts (in_loop (peer_of c) ∷ [])) in
    (
      last,
      rw
          (
            get_elem?-append ts at_sockfd [],
            set-append ts at_sockfd [] (at_port sock),
            get_elem?-append ts (at_port sock) [],
            set-append ts (at_port sock) [] (at_ip sock port),
            get_elem?-append ts (at_ip sock port) [],
            set-append ts (at_ip sock port) [] (in_loop (peer_of c)),
          )
          (rw
            (more, append_assoc ts (in_loop (peer_of c) ∷ []) (map (λ c'. in_loop (peer_of c')) cs))
            at later),
    )

-- For any two connections there is an order of the steps in which both threads serve the second one,
-- and none serves the first.
pub two_serve_one :
    (s : TcpSocket) (a b : ℕ) (addr_a addr_b : SockaddrIn)
    → (order : List Turn) × (turns s order start
        ≡ some (record {
          shared = peer_of (b, addr_b);
          creating = false;
          threads = in_loop (peer_of (b, addr_b)) ∷ in_loop (peer_of (b, addr_b)) ∷ [];
        }))
unfolding turns turn accept read_shared
two_serve_one s a b addr_a addr_b = (
  main_accepts (some a) addr_a
        ∷ main_creates
        ∷ main_accepts (some b) addr_b
        ∷ main_creates
        ∷ reads 0
      ++ reads 1,
  refl,
)
