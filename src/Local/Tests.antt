-- ===== src/Local/Tests.antt =====
-- The server of LinuxC/socket/UNIXDomainSocketIPC/server.c with two connections, of which one is refused.
use linux_note.Base.{ℕ, ◌≡◌, refl, Bool, true, false, some, List, [], ◌∷◌, ◌++◌, map, arith}
use linux_note.Wrap.{other, val}
use linux_note.Select.{to_upper}
use linux_note.Client.{text}
use linux_note.Local.Asking.{local_client}
use linux_note.Select.{bytes}
use linux_note.Local.Child.{local_child}
use linux_note.Local.Child.Talk.{replies, beside, served_lines, local_talk}
use linux_note.Ipc.{
  fd, ConnCalls, cli_conn, conn_on, conn_named, conn_bound, World, ListenCalls, is, AcceptCalls,
}
use linux_note.Local.{local_main}
use linux_note.Local.Rounds.{served, Stands, local_main_lem}

abbrev world : World
world = record { fds = 0 ∷ 1 ∷ 2 ∷ []; errno = other 0; unlinked = [] }

abbrev name : List ℕ
name = 102 ∷ 111 ∷ 111 ∷ []

abbrev listens : ListenCalls
listens = record {
  socket = val 3;
  unlinked = val 0;
  bind = val 0;
  listen = val 0;
  closed = other 0;
}

-- The client's path is a socket, or is not.
abbrev comes : Bool → AcceptCalls
comes sock = record {
  accepted = val 4;
  path = name;
  stat = is sock 1000;
  unlinked = val 0;
  closed = other 9;
}

abbrev connections : List (AcceptCalls × ℕ)
connections = (comes true, 100) ∷ (comes false, 101) ∷ []

local_main_lem_example :
    Stands
      (val 3)
      (val 0)
      (val 0)
      world
      connections
      (local_main name listens (served connections) world)
local_main_lem_example =
    local_main_lem name listens connections world (omega arith)
      (omega arith, omega arith, (omega arith, omega arith, tt))

-- The client of that server.
abbrev connects : ConnCalls
connects = record {
  socket = val 3;
  own = name;
  unlinked = val 0;
  bind = val 0;
  connect = val 0;
  closed = other 0;
}

connects-cli_conn :
    cli_conn name connects world
    ≡ some (fd 3, record world { fds = 3 ∷ world.fds; unlinked = name ∷ [] })
unfolding cli_conn conn_on conn_named conn_bound
connects-cli_conn = refl

abbrev hello : List (List ℕ)
hello = (104 ∷ []) ∷ []

local_talk_example :
    (local_child (some 1000) (map bytes hello ++ bytes [] ∷ [])
      ≡ (served_lines (some 1000) hello, true))
    × (local_client
          (some name)
          connects
          world
          []
          (beside hello (replies (local_child (some 1000) (map bytes hello ++ bytes [] ∷ [])).0))
        ≡ some
            (some (record { written = hello; printed = map (λ l. text (map to_upper l)) hello })))
local_talk_example =
    local_talk name connects world (record world { fds = 3 ∷ world.fds; unlinked = name ∷ [] }) 3 []
      (some 1000) hello connects-cli_conn ((refl, tt), tt)
