-- ===== src/Web/Rounds.antt =====
-- LinuxC/socket/Webserver/Webserver.c: `main`, which forks a process for each connection.
use linux_note.Base.{
  ℕ, zero, suc, ◌≡◌, refl, ap, Bool, true, false, Option, none, some, List, [], ◌∷◌, ◌++◌, map,
  arith, ltb, if◌then◌else◌,
}
use linux_note.Web.{Arrays, Event, server}
use linux_note.Web.Fits.{IsSized}
use linux_note.Web.Answer.{Asks, Replies, server_answers}

-- What `fork` returns.
pub data Fork : Type 0 where
  fork_failed in_child : Fork
  in_parent : (pid : ℕ) → Fork

-- What `waitpid`, `accept` and `fork` return in a round: a process that has ended, or 0 if no child has, and
-- the descriptor of the connection; none is -1.
pub record Round : Type 0 where
  pub waited : Option ℕ
  pub connfd : Option ℕ
  pub forked : Fork

-- How a round ends: at the head of the loop, in `exit(1)`, or in the child, with the descriptors that it
-- closes before and after `server`, and what `server` writes. The descriptor -1 is none.
pub data Ended : Type 0 where
  goes_on exits : Ended
  child :
      (closed_before : ℕ) → (written : Option (List (List ℕ))) → (closed_after : Option ℕ) → Ended

-- What the process closes for the number that `waitpid` returned: it is stored in `connfd`, and closed if it is
-- above 0.
abbrev closes_waited : Option ℕ → List ℕ
closes_waited none = []
closes_waited (some connfd) = if ltb 0 connfd then connfd ∷ [] else []

-- A round of the loop: the descriptors closed before `fork`, and how it ends. `a` and `es` are the arrays of
-- `server` and what it reads from the connection.
pub round : (listenfd : ℕ) → Round → Arrays → List Event → List ℕ × Ended
round listenfd r a es = (
  closes_waited r.waited,
  elim r.forked [
    | fork_failed ↦ exits
    | in_child ↦ child listenfd (server a es) r.connfd
    | in_parent pid ↦ goes_on
  ],
)

-- The rounds of the parent, by what the calls return: the descriptors closed, and whether it has exited.
pub rounds : (listenfd : ℕ) → List Round → List ℕ × Bool
rounds listenfd [] = ([], false)
rounds listenfd (r ∷ rs) =
    let (closed, ended) = rounds listenfd rs in
    elim r.forked [
      | fork_failed ↦ (closes_waited r.waited, true)
      | in_child ↦ (closes_waited r.waited, false)
      | in_parent pid ↦ (closes_waited r.waited ++ closed, ended)
    ]

-- The processes of which `waitpid` told the end: -1 and 0 are none.
abbrev ended_pids : List (Option ℕ) → List ℕ
ended_pids [] = []
ended_pids (none ∷ waits) = ended_pids waits
ended_pids (some zero ∷ waits) = ended_pids waits
ended_pids (some (suc k) ∷ waits) = suc k ∷ ended_pids waits

-- The rounds in which the process stays the parent.
abbrev AllParent : List Round → Type 0
AllParent [] = Unit {0}
AllParent (r ∷ rs) = ((pid : ℕ) × (r.forked ≡ in_parent pid)) × AllParent rs

closes-ended_pids :
    (w : Option ℕ) (waits : List (Option ℕ))
    → closes_waited w ++ ended_pids waits ≡ ended_pids (w ∷ waits)
closes-ended_pids none waits = refl
closes-ended_pids (some zero) waits = refl
closes-ended_pids (some (suc k)) waits = ground arith

parent_closes :
    (listenfd : ℕ) (rs : List Round)
    → AllParent rs
    → rounds listenfd rs ≡ (ended_pids (map (λ r. r.waited) rs), false)
unfolding rounds
parent_closes listenfd [] h = refl
parent_closes listenfd (r ∷ rs) (here, h) =
    rw (here.1, parent_closes listenfd rs h)
      (ap (λ l. (l, false)) (closes-ended_pids r.waited (map (λ r. r.waited) rs)))

-- While `fork` succeeds the parent goes on for ever, and calls `close` exactly with the numbers of the processes
-- of which `waitpid` told the end, in order, and with nothing else. A child answers all the requests that its client sends with the bounds of Webclient.c, after it
-- has closed the listening descriptor and before it closes its connection.
pub main_serves :
    (listenfd : ℕ) (rs : List Round) (r : Round) (a : Arrays) (es : List Event)
    → AllParent rs
    → r.forked ≡ in_child
    → IsSized a
    → Asks es
    → (rounds listenfd rs ≡ (ended_pids (map (λ r. r.waited) rs), false))
      × ((out : List (List ℕ)) × ((round listenfd r a es).1 ≡ child listenfd (some out) r.connfd)
          × Replies es out)
unfolding round
main_serves listenfd rs r a es parent here sized asks_h =
    let (out, served, replies) = server_answers a es sized asks_h in
    (parent_closes listenfd rs parent, (out, rw (here, served) refl, replies))
