-- ===== src/Select/Steps.antt =====
-- The rounds of LinuxC/socket/TCP/server.c, from the start on.
use mathlib.Core.Path.{subst}
use linux_note.Base.{
  ℕ, zero, suc, ◌-◌, ◌≡◌, refl, ◌∙◌, ◌≢◌, inl, inr, false, Option, none, some, List, arith, ltb,
  ◌==◌, Bool-cases, ==_refl, eq_of_==, replicate, length-replicate,
}
use linux_note.Select.{
  fd_setsize, Server, Effect, with_fd, Connected, too_many, out_of_set, joined, connect, check,
  Input, goes_on, overrun, poll, after_connect, round, step_on, step, start,
}
use linux_note.Select.Invariant.{has, Distinct, AllBelow, FreeFrom, Inv, connect-Inv}
use linux_note.Select.Loop.{check-Kept}

goes_on_eq : {s t : Server} {es fs : List Effect} → goes_on s es ≡ goes_on t fs → s ≡ t
goes_on_eq e = cc

poll-Inv :
    (listenfd nready : ℕ) (x : Input) (s s' : Server) (es : List Effect)
    → Inv listenfd s
    → poll x nready s ≡ goes_on s' es
    → Inv listenfd s'
unfolding poll
poll-Inv listenfd nready x s s' es inv e =
    let r = check x.ready x.reads s.bound nready s.client s.allset in
    let kept =
      check-Kept x.ready x.reads s.bound nready s.maxfd s.client s.allset (λ fd. fd == listenfd)
        (record {
          watched = inv.watched;
          apart = λ fd h. rw (eq_of_== fd listenfd h) inv.fresh;
          distinct = inv.distinct;
          below = inv.below;
        }) in
    let polled : Inv listenfd (record s { client = r.client; allset = r.allset }) = record {
      size = kept.size ∙ inv.size;
      watched = kept.part.watched;
      distinct = kept.part.distinct;
      fresh = kept.part.apart listenfd (==_refl listenfd);
      below = kept.part.below;
      listening = inv.listening;
      in_set = inv.in_set;
      free = kept.free s.bound inv.free;
    } in
    elim (Bool-cases r.in_set) [
      | inl inside ↦ subst (Inv listenfd) (goes_on_eq (rw (inside) at e)) polled
      | inr outside ↦ let overruns : overrun ≡ goes_on s' es = rw (outside) at e in cc
    ]

-- The descriptor that `accept` returns is not in use.
abbrev pub IsNew : ℕ → Server → Input → Type 0
IsNew listenfd s x = (x.connfd ≢ listenfd) × (has x.connfd s.client ≡ false)

connected-Inv :
    (listenfd nready : ℕ) (x : Input) (s s' : Server) (es : List Effect) (o : Connected)
    → ((t : Server) → o ≡ joined t → Inv listenfd t)
    → after_connect x nready o ≡ goes_on s' es
    → Inv listenfd s'
unfolding after_connect
connected-Inv listenfd nready x s s' es too_many inv e = cc
connected-Inv listenfd nready x s s' es out_of_set inv e = cc
connected-Inv listenfd nready x s s' es (joined t) inv e = elim (Bool-cases (nready == 1)) [
  | inl last ↦ subst (Inv listenfd) (goes_on_eq (rw last at e)) (inv t refl)
  | inr on ↦ poll-Inv listenfd (nready - 1) x t s' es (inv t refl) (rw on at e)
]

step_on-Inv :
    (listenfd : ℕ) (x : Input) (s s' : Server) (es : List Effect) (o : Option ℕ)
    → Inv listenfd s
    → IsNew listenfd s x
    → step_on listenfd x s o ≡ goes_on s' es
    → Inv listenfd s'
unfolding step_on round
step_on-Inv listenfd x s s' es none inv new e = cc
step_on-Inv listenfd x s s' es (some nready) inv new e = elim (Bool-cases (x.ready listenfd)) [
  | inl new_client ↦
      connected-Inv listenfd nready x s s' es (connect x.connfd s)
        (λ t h. connect-Inv listenfd x.connfd s t inv new.0 new.1 h) (rw new_client at e)
  | inr none_new ↦ poll-Inv listenfd nready x s s' es inv (rw none_new at e)
]

-- Every round that goes on keeps the invariant, if `accept` returns a descriptor that is not in use.
step-Inv :
    (listenfd : ℕ) (x : Input) (s s' : Server) (es : List Effect)
    → Inv listenfd s
    → IsNew listenfd s x
    → step listenfd x s ≡ goes_on s' es
    → Inv listenfd s'
unfolding step
step-Inv listenfd x s s' es inv new e = step_on-Inv listenfd x s s' es x.selected inv new e

-- An array of free slots.
record Empty (n m : ℕ) (cl : List (Option ℕ)) : Type 0 where
  none_held : (fd : ℕ) → has fd cl ≡ false
  distinct : Distinct cl
  below : AllBelow m cl
  free : FreeFrom 0 cl

replicate-Empty : (n m : ℕ) → Empty n m (replicate n none)
replicate-Empty zero m = record { none_held = λ fd. refl; distinct = tt; below = tt; free = tt }
replicate-Empty (suc n) m =
    let rest = replicate-Empty n m in
    record {
      none_held = rest.none_held;
      distinct = rest.distinct;
      below = rest.below;
      free = rest.free;
    }

first_eq : {s t : Server} → some s ≡ some t → s ≡ t
first_eq e = cc

start-Inv : (listenfd : ℕ) (s : Server) → start listenfd ≡ some s → Inv listenfd s
unfolding start
start-Inv listenfd s e = elim (Bool-cases (ltb listenfd fd_setsize)) [
  | inr big ↦ let overruns : none ≡ some s = rw (big) at e in cc
  | inl small ↦
      let first : Server = record {
        client = replicate fd_setsize none;
        allset = with_fd listenfd (λ f. false);
        maxfd = listenfd;
        bound = 0;
      } in
      let same : some first ≡ some s = rw (small) at e in
      let empty = replicate-Empty fd_setsize listenfd in
      let started : Inv listenfd first = record {
        size = length-replicate {0} {A = Option ℕ} fd_setsize none;
        watched = λ fd. ground (arith, empty.none_held fd);
        distinct = empty.distinct;
        fresh = empty.none_held listenfd;
        below = empty.below;
        listening = omega arith;
        in_set = ground (arith, small);
        free = empty.free;
      } in
      subst (Inv listenfd) (first_eq same) started
]

-- The states of the server at the head of its loop, as long as no `FD_SET` was out of bounds.
pub data Reach (listenfd : ℕ) : Server → Type 0 where
  begin : {s : Server} → start listenfd ≡ some s → Reach listenfd s
  next :
      {s s' : Server} (x : Input) (es : List Effect)
      → Reach listenfd s
      → IsNew listenfd s x
      → step listenfd x s ≡ goes_on s' es
      → Reach listenfd s'

-- If `Accept` returns only descriptors that are not in use: at the head of each round, whatever the clients did,
-- `select` is asked for exactly the listening socket and the connections of the array; these are different
-- descriptors, at most `maxfd`, and `maxfd` is below `FD_SETSIZE`, so that all of them are inside the set, unless
-- an `FD_SET` before was out of its bounds; and the slots behind `maxi` are free, so the loop up to `maxi` misses
-- no connection.
pub Reach-Inv : (listenfd : ℕ) (s : Server) → Reach listenfd s → Inv listenfd s
Reach-Inv listenfd s (begin e) = start-Inv listenfd s e
Reach-Inv listenfd s' (next {s = s} x es r new e) =
    step-Inv listenfd x s s' es (Reach-Inv listenfd s r) new e
