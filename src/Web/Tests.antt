-- ===== src/Web/Tests.antt =====
-- Requests to LinuxC/socket/Webserver/Webserver.c.
use linux_note.Base.{ℕ, ◌≡◌, refl, false, none, some, List, [], ◌∷◌, ◌++◌, arith, drop, replicate}
use linux_note.Web.{max_line, codes, Arrays, parse_request, Event, request, read_error, request_of}
use linux_note.Web.Parse.{Parsed, parse_request_get}
use linux_note.Web.Fits.{IsSized}
use linux_note.Web.Answer.{Asks, Replies}
use linux_note.Web.Rounds.{Round, in_child, in_parent, child, round, rounds, main_serves}

abbrev zeros : List ℕ
zeros = replicate max_line 0

-- The arrays at the start, and with the request for `/a` in `buf`.
abbrev arrays : Arrays
arrays = record { buf = zeros; http = zeros; path = zeros; kind = zeros }

abbrev asked : Arrays
asked = record arrays { buf = request_of (codes "/a") ++ drop 19 zeros }

arrays-IsSized : IsSized arrays
arrays-IsSized = record { buf = refl; http = refl; path = refl; kind = refl }

parse_request_get_example : Parsed asked (codes "/a") (parse_request 19 asked)
unfolding request_of
parse_request_get_example =
    parse_request_get asked (codes "/a") (10 ∷ 13 ∷ 10 ∷ drop 19 zeros) 19 (λ e. cc)
      (search tt depth 20) (omega arith) refl (omega arith)

-- A file of one piece, a failed `read`, and a file that is not there.
abbrev events : List Event
events =
    request (request_of (codes "/a")) (some 3) ((1 ∷ 2 ∷ []) ∷ [])
    ∷ read_error
    ∷ request (request_of (codes "/b")) none []
    ∷ []

events-Asks : Asks events
events-Asks = (
  (codes "a", refl, search tt depth 20, omega arith),
  (omega arith, tt),
  ((codes "b", refl, search tt depth 20, omega arith), tt, tt),
)

-- A round of the parent that takes process 77, one in which no process has ended, and one of the child.
abbrev parent_round : Round
parent_round = record { waited = some 77; connfd = some 4; forked = in_parent 78 }

abbrev idle_round : Round
idle_round = record { waited = some 0; connfd = some 5; forked = in_parent 79 }

abbrev child_round : Round
child_round = record { waited = none; connfd = some 4; forked = in_child }

main_serves_example :
    (rounds 3 (parent_round ∷ idle_round ∷ []) ≡ (77 ∷ [], false))
    × ((out : List (List ℕ)) × ((round 3 child_round arrays events).1 ≡ child 3 (some out) (some 4))
        × Replies events out)
main_serves_example =
    main_serves 3 (parent_round ∷ idle_round ∷ []) child_round arrays events
      ((78, refl), ((79, refl), tt)) refl arrays-IsSized events-Asks
