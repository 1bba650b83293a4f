-- ===== src/Local/Asking.antt =====
-- LinuxC/socket/UNIXDomainSocketIPC/client.c: `main`, over `cli_conn`.
use linux_note.Base.{
  ℕ, ◌≡◌, refl, sym, ap, ◌∙◌, Option, none, some, List, [], ◌∷◌, map, append-nil, ◌>>=◌,
}
use linux_note.Select.{Reading, bytes, to_upper}
use linux_note.Shell.Words.{NoNul}
use linux_note.Echo.Datagrams.{NoNul-capitals, length-capitals}
use linux_note.Ipc.{World, Return, fd, minus, ConnCalls, cli_conn}
use linux_note.Web.{codes}
use linux_note.Client.{Print, closed_by_peer, text, ask}
use linux_note.Client.Answers.{short_answer}

-- What the rounds of the loop write to the server and print.
pub record Talk : Type 0 where
  pub written : List (List ℕ)
  pub printed : List Print

-- A round by what it writes, the buffer and what it prints, with the rounds after it.
abbrev after_ask : (later : List ℕ → Talk) → List ℕ × List ℕ × Print → Talk
after_ask later (wrote, got, closed_by_peer) = record {
  written = wrote ∷ [];
  printed = closed_by_peer ∷ [];
}
after_ask later (wrote, got, text t) =
    let more = later got in
    record { written = wrote ∷ more.written; printed = text t ∷ more.printed }

-- The loop, by the lines that `fgets` reads and what `read` returns; a round is that of
-- LinuxC/socket/TCP/client.c.
asks : (buf : List ℕ) → List (List ℕ × Reading) → Talk
asks buf [] = record { written = []; printed = [] }
asks buf ((line, reading) ∷ rest) = after_ask (λ got. asks got rest) (ask buf line reading)

-- `name` without an argument.
abbrev foo_socket : List ℕ
foo_socket = codes "foo.socket"

-- `main` with its argument, if there is one: none is `exit(1)`.
abbrev after_conn : Return → (buf : List ℕ) → List (List ℕ × Reading) → Option Talk
after_conn (minus n) buf rounds = none
after_conn (fd connfd) buf rounds = some (asks buf rounds)

pub local_client :
    (argument : Option (List ℕ))
    → ConnCalls
    → World
    → (buf : List ℕ) → List (List ℕ × Reading)
    → Option (Option Talk)
local_client none c w buf rounds = do
  (connfd, _) ← cli_conn foo_socket c w
  some (after_conn connfd buf rounds)
local_client (some name) c w buf rounds = do
  (connfd, _) ← cli_conn name c w
  some (after_conn connfd buf rounds)

-- Lines with a byte, and without 0.
abbrev pub AllLines : List (List ℕ) → Type 0
AllLines [] = Unit {0}
AllLines ([] ∷ lines) = ⊥
AllLines ((c ∷ cs) ∷ lines) = NoNul (c ∷ cs) × AllLines lines

-- The server answers with capitals.
abbrev pub answered : List ℕ → List ℕ × Reading
answered line = (line, bytes (map to_upper line))

asks_capitals :
    (buf : List ℕ) (lines : List (List ℕ))
    → AllLines lines
    → asks buf (map answered lines)
      ≡ record { written = lines; printed = map (λ l. text (map to_upper l)) lines }
unfolding asks
asks_capitals buf [] h = refl
asks_capitals buf ([] ∷ lines) h = absurd h
asks_capitals buf ((c ∷ cs) ∷ lines) (clean, h) =
    let (got, whole) =
      short_answer buf (c ∷ cs) [] (to_upper c) (map to_upper cs) clean tt
        (NoNul-capitals (c ∷ cs) clean) (sym (length-capitals (c ∷ cs))) in
    let round : ask buf (c ∷ cs) (bytes (map to_upper (c ∷ cs)))
        ≡ (c ∷ cs, got, text (map to_upper (c ∷ cs))) =
      rw (append-nil cs, append-nil (map to_upper cs)) at whole in
    ap (after_ask (λ next. asks next (map answered lines))) round
    ∙ rw (asks_capitals got lines h) refl

-- When `cli_conn` gives a descriptor, and each line is answered by its capitals in one piece, then all lines
-- that are not empty and have no 0 are written in order, and their capitals are printed in the same order.
pub local_client_capitals :
    (name : List ℕ) (c : ConnCalls) (w w' : World) (n : ℕ) (buf : List ℕ) (lines : List (List ℕ))
    → cli_conn name c w ≡ some (fd n, w')
    → AllLines lines
    → local_client (some name) c w buf (map answered lines)
      ≡ some (some (record { written = lines; printed = map (λ l. text (map to_upper l)) lines }))
unfolding local_client
local_client_capitals name c w w' n buf lines e h = rw (e, asks_capitals buf lines h) refl
