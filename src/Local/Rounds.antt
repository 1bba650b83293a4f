-- ===== src/Local/Rounds.antt =====
-- The descriptors and the book of the parent of LinuxC/socket/UNIXDomainSocketIPC/server.c.
use linux_note.Base.{
  ℕ, zero, suc, ◌-◌, ◌<◌, ◌≡◌, refl, ◌∙◌, true, false, Option, none, some, List, [], ◌∷◌, ◌++◌,
  append-nil, append_assoc, arith, leb, if◌then◌else◌, length, replicate,
}
use linux_note.Wrap.{Answer, val, err}
use linux_note.Ipc.{World, Return, minus, sun_path_size, ListenCalls, Stat, is, bad, AcceptCalls}
use linux_note.Ipc.Endpoints.{Listened, Accepted, remove-opened, serv_listen_lem, serv_accept_lem}
use linux_note.Echo.{Fork, forked}
use linux_note.Echo.Children.{AllPositive, AllPositive-snoc, first_free_lem, store-full, store-free}
use linux_note.Local.{
  closes, Progress, serving, exited, after_fork, local_round, local_rounds, after_listen,
  local_main,
}

-- Connections with a client path that fits, each with its process.
abbrev AllServed : List (AcceptCalls × ℕ) → Type 0
AllServed [] = Unit
AllServed ((calls, pid) ∷ l) = (length calls.path < sun_path_size) × (0 < pid) × AllServed l

abbrev pub served : List (AcceptCalls × ℕ) → List (AcceptCalls × Fork)
served [] = []
served ((calls, pid) ∷ l) = (calls, forked pid) ∷ served l

abbrev pids_of : List (AcceptCalls × ℕ) → List ℕ
pids_of [] = []
pids_of ((calls, pid) ∷ l) = pid ∷ pids_of l

failed-closes :
    (k : ℕ) (r : Return) (w w' : World) → r ≡ minus k → w'.fds ≡ w.fds → (closes r w').fds ≡ w.fds
failed-closes k r w w' is_minus same = rw (is_minus) same

-- Whatever `serv_accept` returned, after the parent's `close` its descriptors are as before.
Accepted-closes :
    (a : Answer) (stat : Stat) (r : Return) (w w' : World) (uid : Option ℕ)
    → Accepted a stat w r w' uid
    → (closes r w').fds ≡ w.fds
Accepted-closes (err e) stat r w w' uid h = failed-closes 1 r w w' h.0.0 h.0.1
Accepted-closes (val n) (bad e) r w w' uid h = failed-closes 2 r w w' h.0.0 h.0.1
Accepted-closes (val n) (is false owner) r w w' uid h = failed-closes 3 r w w' h.0.0 h.0.1
Accepted-closes (val n) (is true owner) r w w' uid h = rw (h.0.0) (remove-opened h.0.1)

-- The outcome of rounds that start with the processes `before` and `k` free entries.
abbrev Rounds :
    (before : List ℕ) (k : ℕ) → World → List (AcceptCalls × ℕ) → Option Progress → Type 0
Rounds before k w l o =
    (w' : World) × (w'.fds ≡ w.fds)
    × (o ≡ (
        if leb (length l) k
        then some (serving w' ((before ++ pids_of l) ++ replicate (k - length l) 0))
        else none))

leb-suc : (a b : ℕ) → leb (suc a) (suc b) ≡ leb a b
leb-suc a b = ground arith

local_rounds_lem :
    (l : List (AcceptCalls × ℕ)) (before : List ℕ) (k : ℕ) (w : World)
    → AllPositive before
    → AllServed l
    → Rounds before k w l (local_rounds (served l) w (before ++ replicate k 0))
unfolding local_rounds local_round after_fork
local_rounds_lem [] before k w positive all =
    let fits : leb 0 k ≡ true = ground arith in
    let all_free : k - 0 ≡ k = omega arith in (w, refl, rw (fits, append-nil before, all_free) refl)
local_rounds_lem ((calls, pid) ∷ l) before zero w positive all =
    let (r, w₁, uid, accepted, how) = serv_accept_lem calls w all.0 in
    let over : leb (suc (length l)) 0 ≡ false = ground arith in
    (w, refl, rw (accepted, first_free_lem before 0 positive, store-full before pid, over) refl)
local_rounds_lem ((calls, pid) ∷ l) before (suc k) w positive all =
    let (r, w₁, uid, accepted, how) = serv_accept_lem calls w all.0 in
    let closed = Accepted-closes calls.accepted calls.stat r w w₁ uid how in
    let (w', same, runs) =
      local_rounds_lem l (before ++ pid ∷ []) k (closes r w₁)
        (AllPositive-snoc before pid positive all.1) all.2 in
    let next : leb (suc (length l)) (suc k) ≡ leb (length l) k = leb-suc (length l) k in
    let less : suc k - suc (length l) ≡ k - length l = omega arith in
    (
      w',
      same ∙ closed,
      rw (accepted, first_free_lem before (suc k) positive, store-free before pid k, next, less)
          (rw (append_assoc before (pid ∷ []) (pids_of l)) at runs),
    )

-- Where `main` stands, by what the calls for its socket answered, after the connections `l`.
abbrev pub Stands :
    Answer → Answer → Answer → World → List (AcceptCalls × ℕ) → Option Progress → Type 0
Stands (err e) b l w connections o = (w' : World) × (w'.fds ≡ w.fds) × (o ≡ some (exited w'))
Stands (val n) (err e) l w connections o = (w' : World) × (w'.fds ≡ w.fds) × (o ≡ some (exited w'))
Stands (val n) (val b) (err e) w connections o =
    (w' : World) × (w'.fds ≡ w.fds) × (o ≡ some (exited w'))
Stands (val n) (val b) (val l) w connections o =
    (w₁ : World) × (w₁.fds ≡ n ∷ w.fds) × Rounds [] 20 w₁ connections o

exits-Stands :
    (k : ℕ) (r : Return) (w w' : World) (connections : List (AcceptCalls × Fork))
    → r ≡ minus k
    → after_listen (r, w') connections ≡ some (exited w')
unfolding after_listen
exits-Stands k r w w' connections e = rw (e) refl

after_listen-Stands :
    (s b l : Answer) (r : Return) (w w' : World) (connections : List (AcceptCalls × ℕ))
    → AllServed connections
    → Listened s b l w r w'
    → Stands s b l w connections (after_listen (r, w') (served connections))
unfolding after_listen
after_listen-Stands (err e) b l r w w' connections all h =
    (w', h.1, exits-Stands 1 r w w' (served connections) h.0)
after_listen-Stands (val n) (err e) l r w w' connections all h =
    (w', h.1, exits-Stands 1 r w w' (served connections) h.0)
after_listen-Stands (val n) (val b) (err e) r w w' connections all h =
    (w', h.1, exits-Stands 3 r w w' (served connections) h.0)
after_listen-Stands (val n) (val b) (val l) r w w' connections all h =
    (w', h.1, rw (h.0) (local_rounds_lem connections [] 20 w' tt all))

-- With paths that fit in `sun_path`: if `serv_listen` fails the server exits with its descriptors as
-- before. Else, whatever `serv_accept` answers each time, the parent keeps no descriptor open but the
-- socket that it listens on, and enters up to 20 processes in `pid_book`, in order; with more than 20 it
-- stores behind the end of `pid_book`. The numbers of the processes are above 0.
pub local_main_lem :
    (name : List ℕ) (calls : ListenCalls) (connections : List (AcceptCalls × ℕ)) (w : World)
    → length name < sun_path_size
    → AllServed connections
    → Stands calls.socket calls.bind calls.listen w connections
        (local_main name calls (served connections) w)
unfolding local_main
local_main_lem name calls connections w short all =
    let (r, w', listened, how) = serv_listen_lem name calls w short in
    rw (listened)
      (after_listen-Stands calls.socket calls.bind calls.listen r w w' connections all how)
