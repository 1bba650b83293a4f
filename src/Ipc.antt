-- ===== src/Ipc.antt =====
-- LinuxC/socket/UNIXDomainSocketIPC: `serv_listen`, `serv_accept` and `cli_conn`, the end points of
-- connections over UNIX domain sockets. What the kernel answers to each call is an argument.
pub mod Endpoints
use linux_note.Base.{
  ℕ, zero, suc, ◌+◌, ◌-◌, ◌*◌, ◌/◌, ◌%◌, ◌^◌, ◌≤◌, ◌<◌, ◌≡◌, refl, sym, ap, ◌∙◌, ◌≢◌, ◌⊎◌, inl, inr,
  Bool, true, false, not, ◌&&◌, ◌||◌, Option, none, some, List, [], ◌∷◌, ◌++◌, map, append-nil,
  append_assoc, arith, ltb, leb, ◌==◌, if◌then◌else◌, Bool-cases, ==_refl, eq_of_==, ne_of_==,
  ltb→lt, leb→le, length, get_elem?, get_or, set, take, drop, replicate, length-append, length-set,
  get_or-append, set-append, get_or-set_self, get_or-set_ne, take-append, drop-append,
  length-replicate, length-drop, newline, blank, is_space, first_line, to_nul, string_at, ◌>>=◌,
  ◌>>◌, guard, load, store, load-append, store-append,
}
use linux_note.Wrap.{Errno, Answer, val, err}

-- What the functions change: the open descriptors, `errno`, and the paths that were unlinked.
pub record World : Type 0 where
  pub fds : List ℕ
  pub errno : Errno
  pub unlinked : List (List ℕ)

-- What a function returns: a descriptor, or a number below 0, `minus 2` for -2. A copy of a path
-- past the end of `sun_path` is a fault, `none`.
pub data Return : Type 0 where
  fd : ℕ → Return
  minus : ℕ → Return

-- `sizeof (un.sun_path)`
abbrev pub sun_path_size : ℕ
sun_path_size = 108

abbrev pub remove : ℕ → List ℕ → List ℕ
remove x [] = []
remove x (y ∷ ys) = if x == y then ys else y ∷ remove x ys

abbrev pub opened : ℕ → World → World
opened n w = record w { fds = n ∷ w.fds }

abbrev pub failed : Errno → World → World
failed e w = record w { errno = e }

-- `unlink`, which sets `errno` if it fails.
abbrev pub unlink : List ℕ → Answer → World → World
unlink path (val n) w = record w { unlinked = path ∷ w.unlinked }
unlink path (err e) w = record w { errno = e }

-- From the label `errout` on. `closed` is what `errno` holds after `close`.
pub errout : ℕ → (rval : ℕ) → (closed : Errno) → World → Return × World
errout n rval closed w =
    let saved = w.errno in
    let w₁ = record w { fds = remove n w.fds; errno = closed } in
    (minus rval, record w₁ { errno = saved })

-- `strcpy (un.sun_path, name)`
abbrev pub copy_path : List ℕ → Option (Unit {0})
copy_path name = guard (ltb (length name) sun_path_size)

-- The answers to the calls of `serv_listen`, in order; `closed` is `errno` after `close`.
pub record ListenCalls : Type 0 where
  pub socket : Answer
  pub unlinked : Answer
  pub bind : Answer
  pub listen : Answer
  pub closed : Errno

-- From `bind` on, by the answers of `bind` and `listen`.
pub listen_bound : (bind listen : Answer) → (closed : Errno) → ℕ → World → Return × World
unfolding errout
listen_bound (err e) listened closed n w = errout n 1 closed (failed e w)
listen_bound (val b) (err e) closed n w = errout n 3 closed (failed e w)
listen_bound (val b) (val l) closed n w = (fd n, w)

pub listen_on : Answer → List ℕ → ListenCalls → World → Option (Return × World)
unfolding listen_bound
listen_on (err e) name c w = some (minus 1, failed e w)
listen_on (val n) name c w = do
  copy_path name
  some (listen_bound c.bind c.listen c.closed n (unlink name c.unlinked (opened n w)))

pub serv_listen : List ℕ → ListenCalls → World → Option (Return × World)
unfolding listen_on
serv_listen name c w = listen_on c.socket name c w

-- What `stat` says of a path: whether it is a socket, and its owner.
pub data Stat : Type 0 where
  is : (sock : Bool) → (uid : ℕ) → Stat
  bad : Errno → Stat

-- `accepted` is what `accept` answers, `path` the address of the client, which is not ended by a 0.
pub record AcceptCalls : Type 0 where
  pub accepted : Answer
  pub path : List ℕ
  pub stat : Stat
  pub unlinked : Answer
  pub closed : Errno

-- From `stat` on; beside the result what is stored at `uidptr`, which is not NULL.
pub accept_checked : Stat → AcceptCalls → ℕ → World → (Return × World) × Option ℕ
unfolding errout
accept_checked (bad e) c n w = (errout n 2 c.closed (failed e w), none)
accept_checked (is false uid) c n w = (errout n 3 c.closed w, none)
accept_checked (is true uid) c n w = ((fd n, unlink c.path c.unlinked w), some uid)

pub accept_on : Answer → AcceptCalls → World → Option ((Return × World) × Option ℕ)
unfolding accept_checked
accept_on (err e) c w = some ((minus 1, failed e w), none)
accept_on (val n) c w = do copy_path c.path; some (accept_checked c.stat c n (opened n w))

pub serv_accept : AcceptCalls → World → Option ((Return × World) × Option ℕ)
unfolding accept_on
serv_accept c w = accept_on c.accepted c w

-- `own` is the path `/var/tmp/` with the number of the process.
pub record ConnCalls : Type 0 where
  pub socket : Answer
  pub own : List ℕ
  pub unlinked : Answer
  pub bind : Answer
  pub connect : Answer
  pub closed : Errno

-- From the second filling of the address on, by the answer of `connect`.
unfoldable pub conn_bound : Answer → List ℕ → (closed : Errno) → ℕ → World → Option (Return × World)
unfolding errout
conn_bound (err e) name closed n w = do copy_path name; some (errout n 4 closed (failed e w))
conn_bound (val k) name closed n w = do copy_path name; some (fd n, w)

-- From the first `bind` on.
unfoldable pub conn_named : Answer → List ℕ → ConnCalls → ℕ → World → Option (Return × World)
unfolding conn_bound errout
conn_named (err e) name c n w = some (errout n 2 c.closed (failed e w))
conn_named (val k) name c n w = conn_bound c.connect name c.closed n w

unfoldable pub conn_on : Answer → List ℕ → ConnCalls → World → Option (Return × World)
unfolding conn_named
conn_on (err e) name c w = some (minus 1, failed e w)
conn_on (val n) name c w = do
  copy_path c.own
  conn_named c.bind name c n (unlink c.own c.unlinked (opened n w))

unfoldable pub cli_conn : List ℕ → ConnCalls → World → Option (Return × World)
unfolding conn_on
cli_conn name c w = conn_on c.socket name c w
