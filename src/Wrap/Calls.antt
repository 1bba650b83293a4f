-- ===== src/Wrap/Calls.antt =====
-- The retrying wrappers of LinuxC/socket/TCP/wrap.c: `Accept`, `Read` and `Write`.
use linux_note.Base.{ℕ, ◌≡◌, refl, Bool, true, false, ◌||◌, none, some, List, [], ◌∷◌, ◌++◌, map}
use linux_note.Wrap.{
  Errno, Reply, got, fail, Answer, val, err, accept_error, returns, exits, is_eintr,
  is_econnaborted, perr_exit, accept, read, write,
}

-- The failures after which a call is made again.
abbrev AllOf : (Errno → Bool) → List Errno → Type 0
AllOf p [] = Unit {0}
AllOf p (e ∷ es) = (p e ≡ true) × AllOf p es

abbrev is_transient : Errno → Bool
is_transient e = is_econnaborted e || is_eintr e

-- After any number of aborted connections and interruptions `Accept` returns the descriptor that
-- comes, and exits on any other failure.
accept_retries :
    (es : List Errno) (fd : ℕ) (hard : Errno) (xs : List Answer)
    → AllOf is_transient es
    → is_transient hard ≡ false
    → (accept (map err es ++ (val fd ∷ xs)) ≡ returns fd xs)
      × (accept (map err es ++ (err hard ∷ xs)) ≡ exits accept_error)
unfolding accept perr_exit
accept_retries [] fd hard xs h stops = (refl, rw stops refl)
accept_retries (e ∷ es) fd hard xs h stops =
    let (good, bad) = accept_retries es fd hard xs h.1 stops in (rw h.0 good, rw h.0 bad)

-- After any number of interruptions `Read` returns the bytes that come, and passes any other failure
-- on as -1.
read_retry :
    (es : List Errno) (bs : List ℕ) (hard : Errno) (rs : List Reply)
    → AllOf is_eintr es
    → is_eintr hard ≡ false
    → (read (map fail es ++ (got bs ∷ rs)) ≡ returns (some bs) rs)
      × (read (map fail es ++ (fail hard ∷ rs)) ≡ returns none rs)
unfolding read
read_retry [] bs hard rs h stops = (refl, rw stops refl)
read_retry (e ∷ es) bs hard rs h stops =
    let (good, bad) = read_retry es bs hard rs h.1 stops in (rw h.0 good, rw h.0 bad)

write_retry :
    (es : List Errno) (n : ℕ) (hard : Errno) (xs : List Answer)
    → AllOf is_eintr es
    → is_eintr hard ≡ false
    → (write (map err es ++ (val n ∷ xs)) ≡ returns (some n) xs)
      × (write (map err es ++ (err hard ∷ xs)) ≡ returns none xs)
unfolding write
write_retry [] n hard xs h stops = (refl, rw stops refl)
write_retry (e ∷ es) n hard xs h stops =
    let (good, bad) = write_retry es n hard xs h.1 stops in (rw h.0 good, rw h.0 bad)

-- After any number of interruptions `Read` and `Write` return what comes, and pass any other
-- failure on as -1.
read-write_retry :
    (es : List Errno) (bs : List ℕ) (n : ℕ) (hard : Errno) (rs : List Reply) (xs : List Answer)
    → AllOf is_eintr es
    → is_eintr hard ≡ false
    → (read (map fail es ++ (got bs ∷ rs)) ≡ returns (some bs) rs)
      × (read (map fail es ++ (fail hard ∷ rs)) ≡ returns none rs)
      × (write (map err es ++ (val n ∷ xs)) ≡ returns (some n) xs)
      × (write (map err es ++ (err hard ∷ xs)) ≡ returns none xs)
read-write_retry es bs n hard rs xs h stops =
    let (got_bytes, read_fails) = read_retry es bs hard rs h stops in
    let (wrote, write_fails) = write_retry es n hard xs h stops in
    (got_bytes, read_fails, wrote, write_fails)
