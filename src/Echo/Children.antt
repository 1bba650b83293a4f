-- ===== src/Echo/Children.antt =====
-- The child of `main2` of LinuxC/socket/TCP/server.c, and the book of its parent.
use linux_note.Base.{
  ℕ, zero, suc, ◌-◌, ◌≤◌, ◌<◌, ◌≡◌, refl, sym, ap, ◌∙◌, inl, inr, true, false, none, some, List, [],
  ◌∷◌, ◌++◌, map, append-nil, append_assoc, arith, ltb, leb, ◌==◌, if◌then◌else◌, Bool-cases,
  leb→le, length, replicate, store, store-append,
}
use linux_note.Select.{Reading, bytes, Effect, close, write, to_upper}
use linux_note.Echo.{book_size, reap, first_free, Fork, forked, round, rounds, child}

-- The writes for the messages that a client sends.
abbrev capitals : (connfd : ℕ) → List (ℕ × List ℕ) → List Effect
capitals connfd [] = []
capitals connfd ((c, cs) ∷ rest) =
    write connfd (length (c ∷ cs)) (map to_upper (c ∷ cs)) ∷ capitals connfd rest

abbrev readings : List (ℕ × List ℕ) → List Reading
readings [] = []
readings ((c, cs) ∷ rest) = bytes (c ∷ cs) ∷ readings rest

-- The child writes each message back in capitals with its length, in order, and closes the connection
-- and exits when the client has closed it, and not before.
child_lem :
    (connfd : ℕ) (messages : List (ℕ × List ℕ)) (rest : List Reading)
    → (child connfd (readings messages ++ bytes [] ∷ rest)
        ≡ (capitals connfd messages ++ close connfd ∷ [], true))
      × (child connfd (readings messages) ≡ (capitals connfd messages, false))
unfolding child
child_lem connfd [] rest = (refl, refl)
child_lem connfd ((c, cs) ∷ messages) rest =
    let (ends, waits) = child_lem connfd messages rest in (rw (ends) refl, rw (waits) refl)

-- All processes of a list have a number that is not 0.
abbrev AllForked : List (ℕ × ℕ) → Type 0
AllForked [] = Unit
AllForked ((connfd, pid) ∷ l) = (0 < pid) × AllForked l

abbrev forks : List (ℕ × ℕ) → List (ℕ × Fork)
forks [] = []
forks ((connfd, pid) ∷ l) = (connfd, forked pid) ∷ forks l

abbrev pids : List (ℕ × ℕ) → List ℕ
pids [] = []
pids ((connfd, pid) ∷ l) = pid ∷ pids l

-- The calls of `waitpid`: in each round for all processes before it.
abbrev all_waited : (before : List ℕ) → List (ℕ × ℕ) → List ℕ
all_waited before [] = []
all_waited before ((connfd, pid) ∷ l) = before ++ all_waited (before ++ pid ∷ []) l

abbrev pub AllPositive : List ℕ → Type 0
AllPositive [] = Unit
AllPositive (pid ∷ l) = (0 < pid) × AllPositive l

pub AllPositive-snoc :
    (l : List ℕ) (pid : ℕ) → AllPositive l → 0 < pid → AllPositive (l ++ pid ∷ [])
AllPositive-snoc [] pid h p = (p, tt)
AllPositive-snoc (x ∷ l) pid h p = (h.0, AllPositive-snoc l pid h.1 p)

reap_lem : (l : List ℕ) (k : ℕ) → AllPositive l → reap (l ++ replicate k 0) ≡ l
unfolding reap
reap_lem [] zero h = refl
reap_lem [] (suc k) h = reap_lem [] k tt
reap_lem (x ∷ l) k h =
    let used : (x == 0) ≡ false = ground (arith, h.0) in rw (used, reap_lem l k h.1) refl

pub first_free_lem :
    (l : List ℕ) (k : ℕ) → AllPositive l → first_free (l ++ replicate k 0) ≡ length l
unfolding first_free
first_free_lem [] zero h = refl
first_free_lem [] (suc k) h = refl
first_free_lem (x ∷ l) k h =
    let used : (x == 0) ≡ false = ground (arith, h.0) in
    rw (used, first_free_lem l k h.1) omega arith

-- Where the book has no 0, and where it has.
pub store-full : (book : List ℕ) (pid : ℕ) → store (book ++ []) (length book) pid ≡ none
store-full book pid =
    let over : ltb (length book) (length (book ++ [])) ≡ false =
      rw (append-nil book) ground arith in
    rw (over) refl

pub store-free :
    (book : List ℕ) (pid k : ℕ)
    → store (book ++ replicate (suc k) 0) (length book) pid
      ≡ some ((book ++ pid ∷ []) ++ replicate k 0)
store-free book pid k =
    store-append book (replicate k 0) 0 pid
    ∙ ap some (sym (append_assoc book (pid ∷ []) (replicate k 0)))

rounds_lem :
    (before : List ℕ) (k : ℕ) (l : List (ℕ × ℕ))
    → AllPositive before
    → AllForked l
    → (length l ≤ k
        → rounds (before ++ replicate k 0) (forks l)
          ≡ some ((before ++ pids l) ++ replicate (k - length l) 0, all_waited before l))
      × (k < length l → rounds (before ++ replicate k 0) (forks l) ≡ none)
unfolding rounds round
rounds_lem before k [] positive all = (
  let all_free : k - 0 ≡ k = omega arith in (λ h. rw (append-nil before, all_free) refl),
  λ h. absurd (omega (arith, h)),
)
rounds_lem before zero ((connfd, pid) ∷ l) positive all = (
  (λ h. absurd (omega (arith, h))),
  λ h. rw (first_free_lem before 0 positive, store-full before pid) refl,
)
rounds_lem before (suc k) ((connfd, pid) ∷ l) positive all =
    let (fits, faults) =
      rounds_lem (before ++ pid ∷ []) k l (AllPositive-snoc before pid positive all.0) all.1 in
    let free = first_free_lem before (suc k) positive in
    let less : suc k - suc (length l) ≡ k - length l = omega arith in
    (
      (λ h.
          rw
            (
              free,
              store-free before pid k,
              reap_lem before (suc k) positive,
              fits (omega (arith, h)),
              append_assoc before (pid ∷ []) (pids l),
              less,
            )
            refl),
      λ h. rw (free, store-free before pid k, faults (omega (arith, h))) refl,
    )

-- The parent of `main2` enters up to 20 processes in `pid_book`, in order, and calls `waitpid` in each
-- round for all processes before it. With more than 20 connections it stores behind the end of
-- `pid_book`, since no entry is ever cleared. The numbers of the processes are above 0.
book_lem :
    (l : List (ℕ × ℕ))
    → AllForked l
    → rounds (replicate book_size 0) (forks l) ≡ (
        if leb (length l) book_size
        then some (pids l ++ replicate (book_size - length l) 0, all_waited [] l)
        else none)
book_lem l all =
    let (fits, faults) = rounds_lem [] book_size l tt all in
    elim (Bool-cases (leb (length l) book_size)) [
      | inl within ↦ rw (within) (fits (leb→le (length l) book_size within))
      | inr over ↦ rw (over) (faults (ground (arith, over)))
    ]
