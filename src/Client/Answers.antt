-- ===== src/Client/Answers.antt =====
-- What the client of LinuxC/socket/TCP/client.c prints for what it receives.
use linux_note.Base.{
  ℕ, zero, suc, ◌+◌, ◌<◌, ◌≡◌, refl, inl, inr, true, false, none, some, List, [], ◌∷◌, ◌++◌, map,
  append_assoc, arith, ltb, if◌then◌else◌, Bool-cases, ltb→lt, length, drop, length-append,
  drop-append, length-drop, to_nul, store, store-append,
}
use linux_note.Select.{Reading, bytes, Effect, write, close, to_upper}
use linux_note.Shell.Words.{NoNul, to_nul-append}
use linux_note.Echo.Datagrams.{NoNul-capitals, length-capitals}
use linux_note.Client.{text, ask, ask_once, serve_once}

NoNul-join : (a b : List ℕ) → NoNul a → NoNul b → NoNul (a ++ b)
NoNul-join [] b clean_a clean_b = clean_b
NoNul-join (c ∷ a) b clean_a clean_b = (clean_a.0, NoNul-join a b clean_a.1 clean_b)

-- A string in two parts.
to_nul-parts : (a b tail : List ℕ) → NoNul a → NoNul b → to_nul (a ++ (b ++ 0 ∷ tail)) ≡ a ++ b
to_nul-parts a b tail clean_a clean_b =
    rw (← append_assoc a b (0 ∷ tail))
      (to_nul-append (a ++ b) tail (NoNul-join a b clean_a clean_b))

-- What is left of the line behind its part `b`.
drop-line :
    (n : ℕ) (b rest tail : List ℕ)
    → length b ≡ n
    → drop n (b ++ rest ++ 0 ∷ tail) ≡ rest ++ 0 ∷ tail
drop-line n b rest tail same =
    rw (← same, append_assoc b rest (0 ∷ tail)) (drop-append b (rest ++ 0 ∷ tail))

-- Over a line `b ++ rest` without 0 that is answered by as many bytes as `b` has, above none and without
-- 0: the line is written without its 0, and the answer is printed with `rest`, the end of the line itself,
-- behind it. So a whole answer is printed as it is, and a short one is not.
pub short_answer :
    (buf b rest : List ℕ) (c : ℕ) (cs : List ℕ)
    → NoNul b
    → NoNul rest
    → NoNul (c ∷ cs)
    → length b ≡ length (c ∷ cs)
    → (got : List ℕ) × (ask buf (b ++ rest) (bytes (c ∷ cs))
        ≡ (b ++ rest, got, text ((c ∷ cs) ++ rest)))
unfolding ask
short_answer buf b rest c cs clean_b clean_rest answer same =
    let tail = drop (length (b ++ rest) + 1) buf in
    (
      (c ∷ cs) ++ (rest ++ 0 ∷ tail),
      rw
          (
            to_nul-append (b ++ rest) tail (NoNul-join b rest clean_b clean_rest),
            drop-line (suc (length cs)) b rest tail same,
            answer.0,
            to_nul-parts cs rest tail answer.1 clean_rest,
          )
          refl,
    )

drop-suc : (k : ℕ) (xs : List ℕ) → k < length xs → (x : ℕ) × (drop k xs ≡ x ∷ drop (k + 1) xs)
drop-suc k [] h = absurd (omega arith)
drop-suc zero (x ∷ xs) h = (x, refl)
drop-suc (suc k) (x ∷ xs) h =
    let (y, e) = drop-suc k xs (omega (arith, h)) in
    let next : suc k + 1 ≡ suc (k + 1) = omega arith in (y, rw (next) e)

store-room :
    (buf b : List ℕ)
    → ltb (length b) (length buf) ≡ true
    → store (b ++ drop (length b) buf) (length b) 0 ≡ some (b ++ 0 ∷ drop (length b + 1) buf)
store-room buf b room =
    let (x, e) = drop-suc (length b) buf (ltb→lt (length b) (length buf) room) in
    rw (e) (store-append b (drop (length b + 1) buf) x 0)

store-no_room :
    (buf b : List ℕ)
    → ltb (length b) (length buf) ≡ false
    → store (b ++ drop (length b) buf) (length b) 0 ≡ none
store-no_room buf b full =
    let all : length (b ++ drop (length b) buf) ≡ length b =
      ground (arith, full, length-append b (drop (length b) buf), length-drop (length b) buf) in
    let over : ltb (length b) (length (b ++ drop (length b) buf)) ≡ false = rw (all) ground arith in
    rw (over) refl

-- `main1` writes its message and prints an answer without 0 as it is, if the answer is shorter than the
-- buffer. For one that fills the buffer, as `Read` may return, the final 0 is stored behind its end.
once_lem :
    (buf str b : List ℕ)
    → NoNul b
    → ask_once buf str (bytes b) ≡ (if ltb (length b) (length buf) then some (str, b) else none)
unfolding ask_once
once_lem buf str b clean = elim (Bool-cases (ltb (length b) (length buf))) [
  | inl room ↦
      rw (room, store-room buf b room, to_nul-append b (drop (length b + 1) buf) clean) refl
  | inr full ↦ rw (full, store-no_room buf b full) refl
]

-- What a client reads of what the server does.
abbrev reply_of : List Effect → Reading
reply_of [] = bytes []
reply_of (write fd count b ∷ es) = bytes b
reply_of (close fd ∷ es) = bytes []

-- Between `main1` of the client and `main1` of the server: a message without 0 that is shorter than the
-- buffer is printed in capitals, if the answer is read in one piece.
ask_once-serve_once :
    (buf str : List ℕ) (connfd : ℕ)
    → NoNul str
    → length str < length buf
    → ask_once buf str (reply_of (serve_once connfd (bytes str))) ≡ some (str, map to_upper str)
unfolding serve_once
ask_once-serve_once buf str connfd clean short =
    let room : ltb (length (map to_upper str)) (length buf) ≡ true =
      ground (arith, length-capitals str, short) in
    let printed = once_lem buf str (map to_upper str) (NoNul-capitals str clean) in
    rw (printed, room) refl
