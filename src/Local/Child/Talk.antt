-- ===== src/Local/Child/Talk.antt =====
-- The client and the server of LinuxC/socket/UNIXDomainSocketIPC, one against the other.
use linux_note.Base.{ℕ, ◌≡◌, refl, ap, ◌∙◌, true, Option, some, List, [], ◌∷◌, ◌++◌, map, length}
use linux_note.Select.{Reading, bytes, to_upper}
use linux_note.Client.{text}
use linux_note.Ipc.{World, ConnCalls, cli_conn, fd}
use linux_note.Local.Child.{Act, prints_closed, prints_received, writes, closes_connfd, local_child}
use linux_note.Local.Asking.{local_client, answered, AllLines, local_client_capitals}

-- What the client reads, when each `write` of the server arrives in one piece.
abbrev pub replies : List Act → List Reading
replies [] = []
replies (writes count b ∷ acts) = bytes b ∷ replies acts
replies (prints_closed ∷ acts) = replies acts
replies (prints_received uid ∷ acts) = replies acts
replies (closes_connfd ∷ acts) = replies acts

abbrev pub beside : List (List ℕ) → List Reading → List (List ℕ × Reading)
beside [] readings = []
beside (line ∷ lines) [] = []
beside (line ∷ lines) (reading ∷ readings) = (line, reading) ∷ beside lines readings

-- What the server does with lines, until the client has closed the connection.
abbrev pub served_lines : (uid : Option ℕ) → List (List ℕ) → List Act
served_lines uid [] = prints_closed ∷ closes_connfd ∷ []
served_lines uid (line ∷ lines) =
    prints_received uid ∷ writes (length line) (map to_upper line) ∷ served_lines uid lines

child_served :
    (uid : Option ℕ) (lines : List (List ℕ))
    → AllLines lines
    → local_child uid (map bytes lines ++ bytes [] ∷ []) ≡ (served_lines uid lines, true)
unfolding local_child
child_served uid [] h = refl
child_served uid ([] ∷ lines) h = absurd h
child_served uid ((c ∷ cs) ∷ lines) (clean, h) = rw (child_served uid lines h) refl

beside-served :
    (uid : Option ℕ) (lines : List (List ℕ))
    → beside lines (replies (served_lines uid lines)) ≡ map answered lines
beside-served uid [] = refl
beside-served uid (line ∷ lines) = ap (λ l. answered line ∷ l) (beside-served uid lines)

-- When `cli_conn` gives a descriptor, each `write` arrives in one piece, and the lines are not empty and have
-- no 0: then the server prints the user for each line, answers, and at the end of the connection closes it and
-- exits; and with the answers of the server the client writes all lines and prints their capitals, in order.
pub local_talk :
    (name : List ℕ) (c : ConnCalls) (w w' : World) (n : ℕ) (buf : List ℕ) (uid : Option ℕ)
    (lines : List (List ℕ))
    → cli_conn name c w ≡ some (fd n, w')
    → AllLines lines
    → (local_child uid (map bytes lines ++ bytes [] ∷ []) ≡ (served_lines uid lines, true))
      × (local_client
            (some name)
            c
            w
            buf
            (beside lines (replies (local_child uid (map bytes lines ++ bytes [] ∷ [])).0))
          ≡ some
              (some (record { written = lines; printed = map (λ l. text (map to_upper l)) lines })))
local_talk name c w w' n buf uid lines e h =
    let acts = child_served uid lines h in
    let heard : beside lines (replies (local_child uid (map bytes lines ++ bytes [] ∷ [])).0)
        ≡ map answered lines =
      ap (λ r. beside lines (replies r.0)) acts ∙ beside-served uid lines in
    (
      acts,
      ap (local_client (some name) c w buf) heard
          ∙ local_client_capitals name c w w' n buf lines e h,
    )
