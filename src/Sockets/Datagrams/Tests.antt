-- ===== src/Sockets/Datagrams/Tests.antt =====
-- A question of one letter over UDP.
use linux_note.Base.{ℕ, ◌≡◌, refl, true, false, Option, none, some, List, [], ◌∷◌, arith, replicate}
use linux_note.Select.{bytes}
use linux_note.Sockets.{SockaddrIn, af_inet, bufsiz}
use linux_note.Sockets.Datagrams.{
  Exchange, UdpSocket, call_recvfrom, call_sendto, serve, ask, make_addr,
}
use linux_note.Sockets.Datagrams.Replies.{answers_sender}

-- A text of one byte for each address.
abbrev pton : List ℕ → Option ℕ
pton [] = none
pton (c ∷ cs) = some c

abbrev ntoa : ℕ → List ℕ
ntoa a = a ∷ []

abbrev sender : SockaddrIn
sender = record { sin_family = af_inet; sin_port = 10275; sin_addr = 7; sin_zero = replicate 8 0 }

abbrev sock : UdpSocket
sock = record { m_sockfd = some 3 }

answers_sender_example :
    (serve pton ntoa sock 0 (record {
      arrival = record { reading = bytes (104 ∷ []); addr = sender };
      word = some (105 ∷ []);
      addr = sender;
      sent = true;
      closed = true;
    })
      ≡ some (record {
        calls = call_recvfrom (some 3) bufsiz ∷ call_sendto (some 3) (105 ∷ []) sender ∷ [];
        printed = (104 ∷ []) ∷ [];
        ended = false;
      }))
    × (ask pton ntoa sock (ntoa 7) 9000 (record {
      arrival = record { reading = bytes (105 ∷ []); addr = sender };
      word = some (104 ∷ []);
      addr = sender;
      sent = true;
      closed = true;
    })
        ≡ some (record {
          calls =
              call_sendto (some 3) (104 ∷ []) (make_addr pton ntoa sender (ntoa 7) 9000)
              ∷ call_recvfrom (some 3) bufsiz
              ∷ [];
          printed = (105 ∷ []) ∷ [];
          ended = false;
        }))
answers_sender_example =
    answers_sender pton ntoa sock sock 0 9000 (ntoa 7) (104 ∷ []) (105 ∷ []) sender sender sender
      true (refl, refl, refl, omega arith) (omega arith) (omega arith)

-- At the end of the input of servUDP.cpp.
abbrev untyped : Exchange
untyped = record {
  arrival = record { reading = bytes (104 ∷ []); addr = sender };
  word = none;
  addr = sender;
  sent = false;
  closed = true;
}
