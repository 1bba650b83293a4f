-- ===== src/Select/Tests.antt =====
-- Two rounds of LinuxC/socket/TCP/server.c: a client connects to the listening socket 3, and then sends.
use linux_note.Base.{◌≡◌, refl, false, none, some, [], ◌∷◌, arith, ◌==◌, replicate}
use linux_note.Select.{
  Server, failed, bytes, Input, goes_on, with_fd, save, connect, after_connect, round, step_on,
  step, start,
}
use linux_note.Select.Invariant.{Inv}
use linux_note.Select.Steps.{Reach, begin, next, IsNew, Reach-Inv}
use linux_note.Select.Served.{Serves, step-Serves}

abbrev connects : Input
connects = record { selected = some 1; ready = λ fd. fd == 3; connfd = 4; reads = λ fd. failed }

abbrev started : Server
started = record {
  client = replicate 1024 none;
  allset = with_fd 3 (λ fd. false);
  maxfd = 3;
  bound = 0;
}

start_run : start 3 ≡ some started
unfolding start
start_run = refl

abbrev connected : Server
connected = record {
  client = some 4 ∷ replicate 1023 none;
  allset = with_fd 4 (with_fd 3 (λ fd. false));
  maxfd = 4;
  bound = 1;
}

connects_run : step 3 connects started ≡ goes_on connected []
unfolding step step_on round after_connect connect save
connects_run = refl

connects-IsNew : IsNew 3 started connects
connects-IsNew = ((λ e. omega (arith, e)), refl)

connected-Reach : Reach 3 connected
connected-Reach = next connects [] (begin start_run) connects-IsNew connects_run

Reach-Inv_example : Inv 3 connected
Reach-Inv_example = Reach-Inv 3 connected connected-Reach

-- The client sends a byte.
abbrev sends : Input
sends = record {
  selected = some 1;
  ready = λ fd. fd == 4;
  connfd = 5;
  reads = λ fd. bytes (97 ∷ []);
}

step-Serves_example : Serves 3 sends connected
step-Serves_example =
    step-Serves 3 sends connected (Reach-Inv 3 connected connected-Reach)
      ((λ e. omega (arith, e)), refl) (omega arith) refl refl refl
