-- ===== src/Sockets/Programs/Tests.antt =====
-- Concrete runs of the programs of bite/socket over TCP.
use linux_note.Base.{ℕ, ◌≡◌, refl, true, false, none, some, List, [], ◌∷◌, map, arith, replicate}
use linux_note.Select.{failed, bytes}
use linux_note.Sockets.{SockaddrIn, Call, TcpSocket, Peer, accept}
use linux_note.Sockets.Strings.{IsMessage}
use linux_note.Sockets.Programs.{Opening, Visit, open_server, open_client, session, chat, serve}
use linux_note.Sockets.Programs.Conversation.{
  at_server, at_client, server_calls, client_calls, conversation,
}
use linux_note.Sockets.Programs.Visits.{closings, serve-closings}
use linux_note.Sockets.Programs.Openings.{addressed, server_client_meet}
use linux_note.Sockets.Programs.Shared.{Turn, start, turns, in_loop}
use linux_note.Sockets.Programs.Shared.Orders.{two_serve_one, peer_of}

abbrev server_sock : TcpSocket
server_sock = record { m_socket = some 4 }

abbrev client_sock : TcpSocket
client_sock = record { m_socket = some 3 }

abbrev hi : List ℕ
hi = 104 ∷ 105 ∷ []

abbrev yo : List ℕ
yo = 121 ∷ 111 ∷ []

abbrev one_question : List (List ℕ × List ℕ)
one_question = (hi, yo) ∷ []

hi-IsMessage : IsMessage hi
hi-IsMessage = (λ e. cc, omega arith)

yo-IsMessage : IsMessage yo
yo-IsMessage = (λ e. cc, omega arith)

conversation_example :
    (session server_sock [] (map at_server one_question)
      ≡ some (record {
        calls = server_calls server_sock one_question;
        printed = hi ∷ [];
        ended = false;
      }))
    × (chat client_sock (map at_client one_question)
        ≡ some (record {
          calls = client_calls client_sock one_question;
          printed = yo ∷ [];
          ended = false;
        }))
conversation_example =
    conversation server_sock client_sock [] one_question (hi-IsMessage, yo-IsMessage, tt)

abbrev no_addr : SockaddrIn
no_addr = record { sin_family = 0; sin_port = 0; sin_addr = 0; sin_zero = replicate 8 0 }

abbrev no_peer : Peer
no_peer = record { sock = none; ip = 0; port = 0 }

-- The first connection is answered, the second one is lost.
abbrev two_visits : List Visit
two_visits =
    record {
      ret = some 4;
      addr = no_addr;
      exchange = record { received = bytes hi; word = yo; sent = true; closed = true };
    }
    ∷ record {
      ret = some 5;
      addr = no_addr;
      exchange = record { received = failed; word = yo; sent = true; closed = true };
    }
    ∷ []

serve-closings_example :
    (calls : List Call) × (serve client_sock no_peer two_visits ≡ some calls)
    × (closings calls ≡ some 5 ∷ [])
serve-closings_example = serve-closings client_sock no_peer two_visits (omega arith, (tt, tt))

-- Port 9000 of 127.0.0.1, whose `bind` fails.
abbrev opening : Opening
opening = record {
  addr = no_addr;
  inet_aton = some 16777343;
  port = 9000;
  ret = some 3;
  bound = false;
  listens = true;
  connected = true;
  closed = true;
}

server_client_meet_example :
    (a : SockaddrIn) × (addressed (open_server opening).0 ≡ a ∷ [])
    × (addressed (open_client opening).0 ≡ a ∷ [])
    × ((accept server_sock no_peer (some 3) a).0
        ≡ record { sock = some 3; ip = 16777343; port = 9000 })
server_client_meet_example =
    server_client_meet opening opening 3 3 16777343 9000 server_sock no_peer refl refl refl refl
      refl refl (omega arith)

two_serve_one_example :
    (order : List Turn) × (turns client_sock order start
      ≡ some (record {
        shared = peer_of (5, no_addr);
        creating = false;
        threads = in_loop (peer_of (5, no_addr)) ∷ in_loop (peer_of (5, no_addr)) ∷ [];
      }))
two_serve_one_example = two_serve_one client_sock 4 5 no_addr no_addr
