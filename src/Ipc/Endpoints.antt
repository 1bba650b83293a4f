-- ===== src/Ipc/Endpoints.antt =====
-- The end points of LinuxC/socket/UNIXDomainSocketIPC by the first of their calls that fails.
use linux_note.Base.{
  ℕ, ◌<◌, ◌≡◌, refl, ap, ◌∙◌, true, false, Option, none, some, List, ◌∷◌, arith, ltb, ==_refl,
  length, ◌>>◌,
}
use linux_note.Wrap.{Errno, Answer, val, err}
use linux_note.Ipc.{
  World, Return, fd, minus, remove, sun_path_size, opened, failed, unlink, errout, copy_path,
  ListenCalls, listen_on, listen_bound, conn_on, conn_named, accept_on, serv_listen, Stat, is, bad,
  AcceptCalls, accept_checked, serv_accept, ConnCalls, conn_bound, cli_conn,
}

-- On success the descriptor of the first call is open; on failure the descriptors are as before, the
-- number is `n`, and `errno` is that of the call that failed.
abbrev Succeeds : ℕ → World → Return → World → Type 0
Succeeds n w r w' = (r ≡ fd n) × (w'.fds ≡ n ∷ w.fds)

abbrev FailsAs : ℕ → Errno → World → Return → World → Type 0
FailsAs n e w r w' = (r ≡ minus n) × (w'.fds ≡ w.fds) × (w'.errno ≡ e)

-- The results, by the first call that failed.
abbrev pub Listened : (socket bind listen : Answer) → World → Return → World → Type 0
Listened (err e) bind listen w r w' = FailsAs 1 e w r w'
Listened (val n) (err e) listen w r w' = FailsAs 1 e w r w'
Listened (val n) (val b) (err e) w r w' = FailsAs 3 e w r w'
Listened (val n) (val b) (val l) w r w' = Succeeds n w r w'

abbrev Connected : (socket bind connect : Answer) → World → Return → World → Type 0
Connected (err e) bind connect w r w' = FailsAs 1 e w r w'
Connected (val n) (err e) connect w r w' = FailsAs 2 e w r w'
Connected (val n) (val b) (err e) w r w' = FailsAs 4 e w r w'
Connected (val n) (val b) (val k) w r w' = Succeeds n w r w'

-- With what is stored at `uidptr`: the owner of the client's socket, or nothing.
abbrev pub Accepted : Answer → Stat → World → Return → World → Option ℕ → Type 0
Accepted (err e) stat w r w' uid = FailsAs 1 e w r w' × (uid ≡ none)
Accepted (val n) (bad e) w r w' uid = FailsAs 2 e w r w' × (uid ≡ none)
Accepted (val n) (is false owner) w r w' uid = FailsAs 3 w.errno w r w' × (uid ≡ none)
Accepted (val n) (is true owner) w r w' uid = Succeeds n w r w' × (uid ≡ some owner)

fds-unlink : (path : List ℕ) (a : Answer) (w : World) → (unlink path a w).fds ≡ w.fds
fds-unlink path (val n) w = refl
fds-unlink path (err e) w = refl

fds-remove : (n : ℕ) (fds : List ℕ) → remove n (n ∷ fds) ≡ fds
fds-remove n fds = rw (==_refl n) refl

pub remove-opened : {n : ℕ} {fds all : List ℕ} → all ≡ n ∷ fds → remove n all ≡ fds
remove-opened {n} {fds} is_open = ap (remove n) is_open ∙ fds-remove n fds

copy_path-short : (name : List ℕ) → length name < sun_path_size → copy_path name ≡ some tt
copy_path-short name short =
    let fits : ltb (length name) 108 ≡ true = ground arith in rw (fits) refl

past_copy {ℓ} :
    {A : Type ℓ} (name : List ℕ)
    → length name < sun_path_size
    → (r : Option A) → (copy_path name >> r) ≡ r
past_copy name short r = rw (copy_path-short name short) refl

-- From the bound socket on, in a world `w'` that differs from `w` by the open descriptor `n`.
listen_bound_lem :
    (bind listen : Answer) (closed : Errno) {n : ℕ} (w w' : World)
    → w'.fds ≡ n ∷ w.fds
    → Listened
        (val n)
        bind
        listen
        w
        (listen_bound bind listen closed n w').0
        (listen_bound bind listen closed n w').1
unfolding listen_bound errout
listen_bound_lem (err e) listen closed w w' is_open = (refl, remove-opened is_open, refl)
listen_bound_lem (val b) (err e) closed w w' is_open = (refl, remove-opened is_open, refl)
listen_bound_lem (val b) (val l) closed w w' is_open = (refl, is_open)

listen_on_lem :
    (socket : Answer) (name : List ℕ) (c : ListenCalls) (w : World)
    → length name < sun_path_size
    → (r : Return) × (w' : World) × (listen_on socket name c w ≡ some (r, w'))
      × Listened socket c.bind c.listen w r w'
unfolding listen_on
listen_on_lem (err e) name c w short = (minus 1, failed e w, refl, (refl, refl, refl))
listen_on_lem (val n) name c w short = (
  _,
  _,
  past_copy name short _,
  listen_bound_lem c.bind c.listen c.closed w _ (fds-unlink name c.unlinked (opened n w)),
)

-- With a path that fits in `sun_path`, `serv_listen` returns the new descriptor, or -1 if `socket` or
-- `bind` failed, or -3 if `listen` failed, in these cases with the descriptors as before and `errno` of
-- the call that failed, whatever `unlink` answers and `close` does with `errno`.
pub serv_listen_lem :
    (name : List ℕ) (c : ListenCalls) (w : World)
    → length name < sun_path_size
    → (r : Return) × (w' : World) × (serv_listen name c w ≡ some (r, w'))
      × Listened c.socket c.bind c.listen w r w'
unfolding serv_listen
serv_listen_lem name c w short = listen_on_lem c.socket name c w short

conn_bound_lem :
    (connect : Answer) (name : List ℕ) (closed : Errno) (n b : ℕ) (w w' : World)
    → length name < sun_path_size
    → w'.fds ≡ n ∷ w.fds
    → (r : Return) × (w₁ : World) × (conn_bound connect name closed n w' ≡ some (r, w₁))
      × Connected (val n) (val b) connect w r w₁
unfolding conn_bound errout
conn_bound_lem (err e) name closed n b w w' short is_open =
    (_, _, past_copy name short _, (refl, remove-opened is_open, refl))
conn_bound_lem (val k) name closed n b w w' short is_open =
    (_, _, past_copy name short _, (refl, is_open))

conn_named_lem :
    (bind : Answer) (name : List ℕ) (c : ConnCalls) (n : ℕ) (w w' : World)
    → length name < sun_path_size
    → w'.fds ≡ n ∷ w.fds
    → (r : Return) × (w₁ : World) × (conn_named bind name c n w' ≡ some (r, w₁))
      × Connected (val n) bind c.connect w r w₁
unfolding conn_named errout
conn_named_lem (err e) name c n w w' short is_open =
    (_, _, refl, (refl, remove-opened is_open, refl))
conn_named_lem (val b) name c n w w' short is_open =
    conn_bound_lem c.connect name c.closed n b w w' short is_open

conn_on_lem :
    (socket : Answer) (name : List ℕ) (c : ConnCalls) (w : World)
    → length c.own < sun_path_size
    → length name < sun_path_size
    → (r : Return) × (w' : World) × (conn_on socket name c w ≡ some (r, w'))
      × Connected socket c.bind c.connect w r w'
unfolding conn_on
conn_on_lem (err e) name c w own short = (minus 1, failed e w, refl, (refl, refl, refl))
conn_on_lem (val n) name c w own short =
    let (r, w', runs, so) =
      conn_named_lem c.bind name c n w (unlink c.own c.unlinked (opened n w)) short
        (fds-unlink c.own c.unlinked (opened n w)) in
    (r, w', rw (copy_path-short c.own own) runs, so)

-- With paths that fit in `sun_path`, `cli_conn` returns the new descriptor, or -1, -2 or -4 if
-- `socket`, `bind` or `connect` failed, in these cases with the descriptors as before and `errno` of
-- the call that failed.
cli_conn_lem :
    (name : List ℕ) (c : ConnCalls) (w : World)
    → length c.own < sun_path_size
    → length name < sun_path_size
    → (r : Return) × (w' : World) × (cli_conn name c w ≡ some (r, w'))
      × Connected c.socket c.bind c.connect w r w'
unfolding cli_conn
cli_conn_lem name c w own short = conn_on_lem c.socket name c w own short

accept_checked_lem :
    (stat : Stat) (c : AcceptCalls) (n : ℕ) (w : World)
    → Accepted
        (val n)
        stat
        w
        (accept_checked stat c n (opened n w)).0.0
        (accept_checked stat c n (opened n w)).0.1
        (accept_checked stat c n (opened n w)).1
unfolding accept_checked errout
accept_checked_lem (bad e) c n w = ((refl, fds-remove n w.fds, refl), refl)
accept_checked_lem (is false owner) c n w = ((refl, fds-remove n w.fds, refl), refl)
accept_checked_lem (is true owner) c n w = ((refl, fds-unlink c.path c.unlinked (opened n w)), refl)

accept_on_lem :
    (accepted : Answer) (c : AcceptCalls) (w : World)
    → length c.path < sun_path_size
    → (r : Return) × (w' : World) × (uid : Option ℕ) × (accept_on accepted c w
        ≡ some ((r, w'), uid))
      × Accepted accepted c.stat w r w' uid
unfolding accept_on
accept_on_lem (err e) c w short = (minus 1, failed e w, none, refl, ((refl, refl, refl), refl))
accept_on_lem (val n) c w short =
    (_, _, _, past_copy c.path short _, accept_checked_lem c.stat c n w)

-- With a client's path below the size of `sun_path`, `serv_accept` returns the new descriptor and stores
-- the owner of the path if that is a socket. It returns -1 or -2 if `accept` or `stat` failed, with the
-- `errno` of that, and -3 with `errno` as it was if the path is no socket, in these cases with the
-- descriptors as before and nothing stored.
pub serv_accept_lem :
    (c : AcceptCalls) (w : World)
    → length c.path < sun_path_size
    → (r : Return) × (w' : World) × (uid : Option ℕ) × (serv_accept c w ≡ some ((r, w'), uid))
      × Accepted c.accepted c.stat w r w' uid
unfolding serv_accept
serv_accept_lem c w short = accept_on_lem c.accepted c w short
