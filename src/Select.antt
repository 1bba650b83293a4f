-- ===== src/Select.antt =====
-- LinuxC/socket/TCP/server.c, `main`: the server that waits for all its connections with `select`.
pub mod Invariant
pub mod Loop
pub mod Steps
pub mod Served
mod Tests
use linux_note.Base.{
  ℕ, zero, suc, ◌+◌, ◌-◌, ◌*◌, ◌/◌, ◌%◌, ◌^◌, ◌≤◌, ◌<◌, ◌≡◌, refl, sym, ap, ◌∙◌, ◌≢◌, ◌⊎◌, inl, inr,
  Bool, true, false, not, ◌&&◌, ◌||◌, Option, none, some, List, [], ◌∷◌, ◌++◌, map, append-nil,
  append_assoc, arith, ltb, leb, ◌==◌, if◌then◌else◌, Bool-cases, ==_refl, eq_of_==, ne_of_==,
  ltb→lt, leb→le, length, get_elem?, get_or, set, take, drop, replicate, length-append, length-set,
  get_or-append, set-append, get_or-set_self, get_or-set_ne, take-append, drop-append,
  length-replicate, length-drop, newline, blank, is_space, first_line, to_nul, string_at, ◌>>=◌,
  ◌>>◌, guard, load, store, load-append, store-append,
}

abbrev pub fd_setsize : ℕ
fd_setsize = 1024

-- The variables of `main` that live over the rounds. A slot of `client` that holds -1 is `none`;
-- `bound` is `maxi + 1`, since `maxi` starts at -1.
pub record Server : Type 0 where
  pub client : List (Option ℕ)
  pub allset : ℕ → Bool
  pub maxfd : ℕ
  pub bound : ℕ

-- What `Read` returns: -1, or the bytes in `buf`.
pub data Reading : Type 0 where
  failed : Reading
  bytes : List ℕ → Reading

-- What a round does with a connection. The count of a `write` is the third argument of `Write`.
pub data Effect : Type 0 where
  close : ℕ → Effect
  write : ℕ → (count : ℕ) → List ℕ → Effect

-- `toupper`
unfoldable pub to_upper : ℕ → ℕ
to_upper c = if leb b'a' c && leb c b'z' then c - 32 else c

abbrev pub with_fd : ℕ → (ℕ → Bool) → ℕ → Bool
with_fd fd s f = if f == fd then true else s f

-- `FD_SET`; a descriptor from `FD_SETSIZE` on is out of the bounds of the set, none.
abbrev pub fd_set : ℕ → (ℕ → Bool) → Option (ℕ → Bool)
fd_set fd s = if ltb fd fd_setsize then some (with_fd fd s) else none

-- `FD_CLR` of a descriptor inside the set.
abbrev pub fd_clr : ℕ → (ℕ → Bool) → ℕ → Bool
fd_clr fd s f = if f == fd then false else s f

-- The first `for` loop over `client`: the array with the descriptor in its first free slot, and the
-- index `i` of that slot; `none` if there is no free slot.
pub save : ℕ → List (Option ℕ) → Option (List (Option ℕ) × ℕ)
save connfd [] = none
save connfd (none ∷ cl) = some (some connfd ∷ cl, 0)
save connfd (some fd ∷ cl) = do (cl', i) ← save connfd cl; some (some fd ∷ cl', i + 1)

-- What follows with the set, the array and the index `i`, up to `maxi = i`.
abbrev pub place : ℕ → Server → (ℕ → Bool) → List (Option ℕ) → ℕ → Server
place connfd s allset' client' i = record {
  client = client';
  allset = allset';
  maxfd = if ltb s.maxfd connfd then connfd else s.maxfd;
  bound = if ltb i s.bound then s.bound else i + 1;
}

-- How the part for a new connection ends: "too many clients" and the exit, an `FD_SET` out of bounds, or the
-- connection is in the array and the set.
pub data Connected : Type 0 where
  too_many : Connected
  out_of_set : Connected
  joined : Server → Connected

-- A new connection.
pub connect : ℕ → Server → Connected
unfolding save
connect connfd s = elim (save connfd s.client) [
  | none ↦ too_many
  | some (client', i) ↦ elim (fd_set connfd s.allset) [
    | none ↦ out_of_set
    | some allset' ↦ joined (place connfd s allset' client' i)
  ]
]

-- What the second loop changes, and whether `FD_ISSET` and `FD_CLR` are inside the set.
pub record Round : Type 0 where
  pub client : List (Option ℕ)
  pub allset : ℕ → Bool
  pub effects : List Effect
  pub in_set : Bool

-- A connection that is ready, at the head of the rest `cl` of the array: the slot, the set and what
-- is done. When `Read` returns -1 the call is `Write (sockfd, buf, n)` with that `n` as a `size_t`.
pub attend : ℕ → Reading → (ℕ → Bool) → Option ℕ × (ℕ → Bool) × Effect
unfolding to_upper
attend sockfd failed allset = (some sockfd, allset, write sockfd (2 ^ 64 - 1) [])
attend sockfd (bytes []) allset = (none, fd_clr sockfd allset, close sockfd)
attend sockfd (bytes (c ∷ cs)) allset =
    (some sockfd, allset, write sockfd (length (c ∷ cs)) (map to_upper (c ∷ cs)))

-- The body of the second loop at a slot in use, if its descriptor is in `rset` or not; `more` is the
-- rest of the loop, over the rest `cl` of the array.
pub check_slot :
    Bool
    → Reading
    → (nready sockfd : ℕ) → (more : ℕ → (ℕ → Bool) → Round) → List (Option ℕ)
    → (ℕ → Bool)
    → Round
unfolding attend
check_slot false reading nready sockfd more cl allset =
    let r = more nready allset in record r { client = some sockfd ∷ r.client }
check_slot true reading nready sockfd more cl allset =
    let (slot, allset', effect) = attend sockfd reading allset in
    let last : Round = record {
      client = slot ∷ cl;
      allset = allset';
      effects = effect ∷ [];
      in_set = true;
    } in
    let on : Round =
      let r = more (nready - 1) allset' in
      record r { client = slot ∷ r.client; effects = effect ∷ r.effects } in
    if nready == 1 then last else on

-- The second `for` loop, with `left` of its rounds (up to `maxi`) to go; `ready` is `rset`, and what
-- `Read` returns on each descriptor is an argument.
pub check :
    (ready : ℕ → Bool) (reads : ℕ → Reading) (left nready : ℕ)
    → List (Option ℕ)
    → (ℕ → Bool)
    → Round
unfolding check_slot
check ready reads zero nready cl allset = record {
  client = cl;
  allset = allset;
  effects = [];
  in_set = true;
}
check ready reads (suc left) nready [] allset = record {
  client = [];
  allset = allset;
  effects = [];
  in_set = true;
}
check ready reads (suc left) nready (none ∷ cl) allset =
    let r = check ready reads left nready cl allset in record r { client = none ∷ r.client }
check ready reads (suc left) nready (some sockfd ∷ cl) allset =
    let r =
      check_slot (ready sockfd) (reads sockfd) nready sockfd (λ n a. check ready reads left n cl a)
        cl allset in
    record r { in_set = ltb sockfd fd_setsize && r.in_set }

-- What comes in a round: what `select` answers (`none` for a result below 0), what `Accept` returns,
-- if it is called, and what `Read` returns on each descriptor.
pub record Input : Type 0 where
  pub selected : Option ℕ
  pub ready : ℕ → Bool
  pub connfd : ℕ
  pub reads : ℕ → Reading

-- How a round ends; `overrun` is an `FD_SET`, `FD_ISSET` or `FD_CLR` out of bounds.
pub data Outcome : Type 0 where
  goes_on : Server → List Effect → Outcome
  select_error : Outcome
  too_many_clients : Outcome
  overrun : Outcome

-- The second loop of a round.
pub poll : Input → ℕ → Server → Outcome
unfolding check
poll x nready s =
    let r = check x.ready x.reads s.bound nready s.client s.allset in
    if r.in_set
    then goes_on (record s { client = r.client; allset = r.allset }) r.effects
    else overrun

-- From the new connection on: `if (--nready == 0) continue;`, and the second loop.
pub after_connect : Input → ℕ → Connected → Outcome
unfolding poll
after_connect x nready too_many = too_many_clients
after_connect x nready out_of_set = overrun
after_connect x nready (joined s) = if nready == 1 then goes_on s [] else poll x (nready - 1) s

-- A round of `main` with a result of `select` from 0 on.
pub round : (listenfd : ℕ) → Input → ℕ → Server → Outcome
unfolding poll connect after_connect
round listenfd x nready s =
    if x.ready listenfd then after_connect x nready (connect x.connfd s) else poll x nready s

-- A round by what `select` answers.
pub step_on : (listenfd : ℕ) → Input → Server → Option ℕ → Outcome
unfolding round
step_on listenfd x s none = select_error
step_on listenfd x s (some nready) = round listenfd x nready s

pub step : (listenfd : ℕ) → Input → Server → Outcome
unfolding step_on
step listenfd x s = step_on listenfd x s x.selected

-- The state before the loop; none if `FD_SET` is out of bounds.
pub start : (listenfd : ℕ) → Option Server
start listenfd = do
  allset ← fd_set listenfd (λ f. false)
  some (record { client = replicate fd_setsize none; allset = allset; maxfd = listenfd; bound = 0 })
