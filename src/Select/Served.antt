-- ===== src/Select/Served.antt =====
-- What a round of the server of LinuxC/socket/TCP/server.c does with each connection.
use linux_note.Base.{
  ℕ, zero, suc, ◌+◌, ◌-◌, ◌^◌, ◌<◌, ◌≡◌, refl, sym, ap, ◌∙◌, inl, inr, Bool, true, false, Option,
  none, some, List, [], ◌∷◌, map, arith, ltb, ◌==◌, if◌then◌else◌, Bool-cases, length,
}
use linux_note.Select.{
  fd_setsize, Server, Reading, failed, bytes, Effect, close, write, to_upper, with_fd, save, place,
  joined, connect, attend, check_slot, check, Input, goes_on, poll, after_connect, round, step_on,
  step,
}
use linux_note.Select.Invariant.{FreeFrom, Inv, connect-Inv}
use linux_note.Select.Loop.{check-in_set}
use linux_note.Select.Steps.{IsNew}

-- What is due to a connection that is ready: to close it at its end of file, or to send it the bytes
-- read, in upper case.
abbrev due : ℕ → Reading → Effect
due fd failed = write fd (2 ^ 64 - 1) []
due fd (bytes []) = close fd
due fd (bytes (c ∷ cs)) = write fd (length (c ∷ cs)) (map to_upper (c ∷ cs))

-- What is due to the connections of an array, in its order.
abbrev all_due : (ready : ℕ → Bool) (reads : ℕ → Reading) → List (Option ℕ) → List Effect
all_due ready reads [] = []
all_due ready reads (none ∷ cl) = all_due ready reads cl
all_due ready reads (some fd ∷ cl) =
    let rest = all_due ready reads cl in if ready fd then due fd (reads fd) ∷ rest else rest

-- How many connections are ready.
abbrev ready_count : (ready : ℕ → Bool) → List (Option ℕ) → ℕ
ready_count ready [] = 0
ready_count ready (none ∷ cl) = ready_count ready cl
ready_count ready (some fd ∷ cl) =
    let rest = ready_count ready cl in if ready fd then rest + 1 else rest

none_due :
    (ready : ℕ → Bool) (reads : ℕ → Reading) (cl : List (Option ℕ))
    → ready_count ready cl ≡ 0
    → all_due ready reads cl ≡ []
none_due ready reads [] h = refl
none_due ready reads (none ∷ cl) h = none_due ready reads cl h
none_due ready reads (some fd ∷ cl) h = ground (arith, none_due ready reads cl)

free_due :
    (ready : ℕ → Bool) (reads : ℕ → Reading) (cl : List (Option ℕ))
    → FreeFrom 0 cl
    → all_due ready reads cl ≡ []
free_due ready reads [] h = refl
free_due ready reads (none ∷ cl) h = free_due ready reads cl h
free_due ready reads (some fd ∷ cl) h = elim h [ ]

attend-due :
    (fd : ℕ) (reading : Reading) (allset : ℕ → Bool) → (attend fd reading allset).2 ≡ due fd reading
unfolding attend
attend-due fd failed allset = refl
attend-due fd (bytes []) allset = refl
attend-due fd (bytes (c ∷ cs)) allset = refl

check-all_due :
    (ready : ℕ → Bool) (reads : ℕ → Reading) (left nready : ℕ) (cl : List (Option ℕ))
    (allset : ℕ → Bool)
    → FreeFrom left cl
    → nready ≡ ready_count ready cl
    → (check ready reads left nready cl allset).effects ≡ all_due ready reads cl
unfolding check check_slot
check-all_due ready reads zero nready cl allset free count = sym (free_due ready reads cl free)
check-all_due ready reads (suc left) nready [] allset free count = refl
check-all_due ready reads (suc left) nready (none ∷ cl) allset free count =
    check-all_due ready reads left nready cl allset free count
check-all_due ready reads (suc left) nready (some fd ∷ cl) allset free count =
    let allset' = (attend fd (reads fd) allset).1 in
    ground (
      arith,
      attend-due fd (reads fd) allset,
      check-all_due ready reads left nready cl allset,
      check-all_due ready reads left (nready - 1) cl allset',
      none_due ready reads cl,
    )

abbrev has_room : List (Option ℕ) → Bool
has_room [] = false
has_room (none ∷ cl) = true
has_room (some fd ∷ cl) = has_room cl

-- A new connection that is not ready changes nothing of what is due.
Unready : (ready : ℕ → Bool) (reads : ℕ → Reading) (connfd : ℕ) → List (Option ℕ) → Type 0
Unready ready reads connfd cl =
    (cl' : List (Option ℕ)) × (i : ℕ) × (save connfd cl ≡ some (cl', i))
    × (ready_count ready cl' ≡ ready_count ready cl)
    × (all_due ready reads cl' ≡ all_due ready reads cl)

save-Unready :
    (ready : ℕ → Bool) (reads : ℕ → Reading) (connfd : ℕ) (cl : List (Option ℕ))
    → ready connfd ≡ false
    → has_room cl ≡ true
    → Unready ready reads connfd cl
unfolding Unready save
save-Unready ready reads connfd [] quiet room = cc
save-Unready ready reads connfd (none ∷ cl) quiet room =
    (some connfd ∷ cl, 0, refl, rw quiet refl, rw quiet refl)
save-Unready ready reads connfd (some fd ∷ cl) quiet room =
    let (cl', i, e, count, due_e) = save-Unready ready reads connfd cl quiet room in
    (some fd ∷ cl', i + 1, rw e refl, rw count refl, rw due_e refl)

-- A round of the loop for input `x`, with what is due at its start.
pub Serves : (listenfd : ℕ) → Input → Server → Type 0
Serves listenfd x s =
    (s' : Server) × (step listenfd x s ≡ goes_on s' (all_due x.ready x.reads s.client))

poll-Served :
    (listenfd : ℕ) (x : Input) (s : Server)
    → Inv listenfd s
    → (s' : Server) × (poll x (ready_count x.ready s.client) s
        ≡ goes_on s' (all_due x.ready x.reads s.client))
unfolding poll
poll-Served listenfd x s inv =
    let n = ready_count x.ready s.client in
    let r = check x.ready x.reads s.bound n s.client s.allset in
    let inside =
      check-in_set x.ready x.reads s.bound n s.maxfd s.client s.allset inv.in_set inv.below in
    (
      record s { client = r.client; allset = r.allset },
      rw (inside) (
          ap (goes_on (record s { client = r.client; allset = r.allset }))
            (check-all_due x.ready x.reads s.bound n s.client s.allset inv.free refl)),
    )

connect-joined :
    (connfd i : ℕ) (s : Server) (cl' : List (Option ℕ))
    → save connfd s.client ≡ some (cl', i)
    → connfd < fd_setsize
    → connect connfd s ≡ joined (place connfd s (with_fd connfd s.allset) cl' i)
unfolding connect
connect-joined connfd i s cl' e small =
    let is_small : ltb connfd fd_setsize ≡ true = ground (arith, small) in
    rw (connect, e, is_small) refl

connected-Served :
    (listenfd : ℕ) (x : Input) (s : Server)
    → Inv listenfd s
    → IsNew listenfd s x
    → x.connfd < fd_setsize
    → x.ready x.connfd ≡ false
    → has_room s.client ≡ true
    → (s' : Server) × (after_connect x (1 + ready_count x.ready s.client) (connect x.connfd s)
        ≡ goes_on s' (all_due x.ready x.reads s.client))
unfolding Unready after_connect
connected-Served listenfd x s inv new small quiet room =
    let (cl', i, e, count, due_e) = save-Unready x.ready x.reads x.connfd s.client quiet room in
    let t = place x.connfd s (with_fd x.connfd s.allset) cl' i in
    let connected : connect x.connfd s ≡ joined t = connect-joined x.connfd i s cl' e small in
    let t_inv = connect-Inv listenfd x.connfd s t inv new.0 new.1 connected in
    let n = ready_count x.ready s.client in
    elim (Bool-cases (1 + n == 1)) [
      | inl last ↦
          let none_ready : n ≡ 0 = ground arith in
          (t, rw (connected, last, none_due x.ready x.reads s.client none_ready) refl)
      | inr on ↦
          let (s', polled) = poll-Served listenfd x t t_inv in
          let left : 1 + n - 1 ≡ n = omega arith in
          (s', rw (connected, on, left, ← count, ← due_e) polled)
    ]

-- From a state that satisfies the invariant, if `Accept` returns a descriptor that is not in use, below
-- `FD_SETSIZE` and not ready: in each round that the array has room for, every connection that was ready at its start, and no
-- other, gets what is due to it, in the order of the array, if `select` answers with the number of
-- ready descriptors: stopping after that number of them skips none.
pub step-Serves :
    (listenfd : ℕ) (x : Input) (s : Server)
    → Inv listenfd s
    → IsNew listenfd s x
    → x.connfd < fd_setsize
    → x.ready x.connfd ≡ false
    → has_room s.client ≡ true
    → x.selected ≡ some ((if x.ready listenfd then 1 else 0) + ready_count x.ready s.client)
    → Serves listenfd x s
unfolding Serves step step_on round
step-Serves listenfd x s inv new small quiet room selected = elim (Bool-cases (x.ready listenfd)) [
  | inl new_client ↦
      let (s', e) = connected-Served listenfd x s inv new small quiet room in
      (s', ap (step_on listenfd x s) selected ∙ rw new_client e)
  | inr none_new ↦
      let (s', e) = poll-Served listenfd x s inv in
      let count : 0 + ready_count x.ready s.client ≡ ready_count x.ready s.client = omega arith in
      (s', ap (step_on listenfd x s) selected ∙ rw (none_new, count) e)
]
