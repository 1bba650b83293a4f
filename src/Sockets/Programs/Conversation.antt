-- ===== src/Sockets/Programs/Conversation.antt =====
-- A client of bite/socket/cliTCP.cpp with the child of processServTCP.cpp or the thread of threadServTCP.cpp
-- that serves it.
use linux_note.Base.{ℕ, ◌≡◌, refl, true, false, some, List, [], ◌∷◌, map, to_nul}
use linux_note.Select.{bytes}
use linux_note.Sockets.{Call, call_send, call_recv, TcpSocket, bufsiz, send, shut}
use linux_note.Sockets.Programs.{Exchange, answer, session, ask, chat, go_on}
use linux_note.Sockets.Strings.{IsMessage, message_lem}

-- Questions with their answers.
abbrev AllMessages : List (List ℕ × List ℕ) → Type 0
AllMessages [] = Unit {0}
AllMessages ((q, r) ∷ rest) = IsMessage q × IsMessage r × AllMessages rest

-- What happens at the server and at the client when what is sent arrives in one piece.
abbrev pub at_server : List ℕ × List ℕ → Exchange
at_server (q, r) = record { received = bytes (to_nul q); word = r; sent = true; closed = true }

abbrev pub at_client : List ℕ × List ℕ → Exchange
at_client (q, r) = record { received = bytes (to_nul r); word = q; sent = true; closed = true }

abbrev pub server_calls : TcpSocket → List (List ℕ × List ℕ) → List Call
server_calls s [] = []
server_calls s ((q, r) ∷ rest) =
    call_recv s.m_socket bufsiz ∷ call_send s.m_socket (to_nul r) ∷ server_calls s rest

abbrev pub client_calls : TcpSocket → List (List ℕ × List ℕ) → List Call
client_calls s [] = []
client_calls s ((q, r) ∷ rest) =
    call_send s.m_socket (to_nul q) ∷ call_recv s.m_socket bufsiz ∷ client_calls s rest

session_lem :
    (s : TcpSocket) (buf : List ℕ) (talk : List (List ℕ × List ℕ))
    → AllMessages talk
    → session s buf (map at_server talk)
      ≡ some (record {
        calls = server_calls s talk;
        printed = map (λ p. to_nul p.0) talk;
        ended = false;
      })
unfolding session answer go_on send shut
session_lem s buf [] h = refl
session_lem s buf (p ∷ talk) h = rw (message_lem s buf p.0 h.0, session_lem s p.1 talk h.2) refl

chat_lem :
    (s : TcpSocket) (talk : List (List ℕ × List ℕ))
    → AllMessages talk
    → chat s (map at_client talk)
      ≡ some (record {
        calls = client_calls s talk;
        printed = map (λ p. to_nul p.1) talk;
        ended = false;
      })
unfolding chat ask go_on send shut
chat_lem s [] h = refl
chat_lem s (p ∷ talk) h = rw (message_lem s p.0 p.1 h.1, chat_lem s talk h.2) refl

-- When the words up to their first 0 are not empty and shorter than `BUFSIZ`, and what either side sends
-- arrives in one piece, then the server and the client go on for any number of rounds: the server prints
-- the words of the client and the client those of the server, in the order in which they were typed.
pub conversation :
    (at_s at_c : TcpSocket) (buf : List ℕ) (talk : List (List ℕ × List ℕ))
    → AllMessages talk
    → (session at_s buf (map at_server talk)
        ≡ some (record {
          calls = server_calls at_s talk;
          printed = map (λ p. to_nul p.0) talk;
          ended = false;
        }))
      × (chat at_c (map at_client talk)
          ≡ some (record {
            calls = client_calls at_c talk;
            printed = map (λ p. to_nul p.1) talk;
            ended = false;
          }))
conversation at_s at_c buf talk h = (session_lem at_s buf talk h, chat_lem at_c talk h)
