-- ===== src/Wrap/Lines/Buffering.antt =====
-- `my_read` of LinuxC/socket/TCP/wrap.c: the static buffer and the replies behind it.
use linux_note.Base.{
  ℕ, zero, suc, ◌+◌, ◌≤◌, ◌<◌, ◌≡◌, refl, false, List, [], ◌∷◌, ◌++◌, arith, length, get_or, take,
  drop, length-append, take-append, length-drop,
}
use linux_note.Wrap.{eintr, Reply, got, fail, returns}
use linux_note.Wrap.Lines.{
  Count, left, minus_one, Buffer, Fetched, one, fetch, stored, refill, my_read_at, my_read,
}
use linux_note.Wrap.Transfer.Replies.{data_of, has_end, has_error}

-- `sizeof (read_buf)`
abbrev pub buffer_size : ℕ
buffer_size = 100

abbrev pending_at : Count → ℕ → List ℕ → List ℕ
pending_at (left k) i buf = take k (drop i buf)
pending_at minus_one i buf = []

-- The bytes that were read and not yet fetched.
abbrev pub pending : Buffer → List ℕ
pending b = pending_at b.read_cnt b.at b.read_buf

abbrev InBounds : Count → ℕ → List ℕ → Type 0
InBounds (left k) i buf = i + k ≤ length buf
InBounds minus_one i buf = Unit {0}

-- The array keeps its size, and what is pending lies inside it.
pub record IsValid (b : Buffer) : Type 0 where
  pub sized : length b.read_buf ≡ buffer_size
  pub at_in : b.at ≤ length b.read_buf
  pub inside : InBounds b.read_cnt b.at b.read_buf

-- `read` stores at most as many bytes as `my_read` asks for.
abbrev pub Fits : List Reply → Type 0
Fits [] = Unit {0}
Fits (got bs ∷ rs) = (length bs ≤ buffer_size) × Fits rs
Fits (fail e ∷ rs) = Fits rs

take-drop :
    (k i : ℕ) (xs : List ℕ)
    → i < length xs
    → take (suc k) (drop i xs) ≡ get_or xs i 0 ∷ take k (drop (i + 1) xs)
take-drop k i [] h = absurd (omega arith)
take-drop k zero (x ∷ xs) h = refl
take-drop k (suc i) (x ∷ xs) h =
    let shift : suc i + 1 ≡ suc (i + 1) = omega arith in rw shift (take-drop k i xs (omega arith))

-- What a fetch says of the bytes to come before it, `before`, and after it.
abbrev Delivered : Fetched → List ℕ → List ℕ → Type 0
Delivered (one c) before after = c ∷ after ≡ before
Delivered _ before after = after ≡ before

pub record Fetch (before : List ℕ) (f : Fetched) (b : Buffer) (rest : List Reply) : Type 0 where
  pub valid : IsValid b
  pub fits : Fits rest
  pub delivered : Delivered f before (pending b ++ data_of rest)

fetch-Fetch :
    (k : ℕ) (b : Buffer) (rs : List Reply) {f : Fetched} {b' : Buffer} {rest : List Reply}
    → length b.read_buf ≡ buffer_size
    → b.at + suc k ≤ length b.read_buf
    → Fits rs
    → fetch k b rs ≡ returns (f, b') rest
    → Fetch (take (suc k) (drop b.at b.read_buf) ++ data_of rs) f b' rest
fetch-Fetch k b rs sized inside fits e = ground (arith, take-drop k b.at b.read_buf)

stored_sized :
    (bs buf : List ℕ) → length bs ≤ length buf → length (bs ++ drop (length bs) buf) ≡ length buf
stored_sized bs buf h =
    omega (arith, length-append bs (drop (length bs) buf), length-drop (length bs) buf)

refill-Fetch :
    (b : Buffer) (rs : List Reply) {f : Fetched} {b' : Buffer} {rest : List Reply}
    → length b.read_buf ≡ buffer_size
    → b.at ≤ length b.read_buf
    → Fits rs
    → refill b rs ≡ returns (f, b') rest
    → Fetch (data_of rs) f b' rest
unfolding refill
refill-Fetch b [] sized at_in fits e = cc
refill-Fetch b (got [] ∷ rs) sized at_in fits e = ground arith
refill-Fetch b (got (c ∷ cs) ∷ rs) sized at_in fits e =
    let long : length (stored (c ∷ cs) b).read_buf ≡ buffer_size =
      omega (arith, stored_sized (c ∷ cs) b.read_buf) in
    let fetched = fetch-Fetch (length cs) (stored (c ∷ cs) b) rs long (omega arith) fits.1 e in
    rw (take-append cs (drop (length (c ∷ cs)) b.read_buf)) at fetched
refill-Fetch b (fail e' ∷ rs) {f} {b'} {rest} sized at_in fits e =
    ground
      (arith, refill-Fetch (record b { read_cnt = minus_one }) rs {f = f} {b' = b'} {rest = rest})

-- From a valid buffer, if `read` returns no more bytes than it is asked for: whatever `my_read` returns,
-- the buffer stays valid; a byte is the next one of what was pending
-- and to come, and at an end of file or a failure nothing was pending and nothing is lost.
pub my_read-Fetch :
    (b : Buffer) (rs : List Reply) {f : Fetched} {b' : Buffer} {rest : List Reply}
    → IsValid b
    → Fits rs
    → my_read b rs ≡ returns (f, b') rest
    → Fetch (pending b ++ data_of rs) f b' rest
unfolding my_read my_read_at
my_read-Fetch b rs {f} {b'} {rest} valid fits e = go b.read_cnt refl valid.inside e
  where
    go :
        (n : Count)
        → b.read_cnt ≡ n
        → InBounds n b.at b.read_buf
        → my_read_at n b rs ≡ returns (f, b') rest
        → Fetch (pending_at n b.at b.read_buf ++ data_of rs) f b' rest
    go minus_one here inside e = refill-Fetch b rs valid.sized valid.at_in fits e
    go (left zero) here inside e = refill-Fetch b rs valid.sized valid.at_in fits e
    go (left (suc k)) here inside e = fetch-Fetch k b rs valid.sized inside fits e

refill_full :
    (c : ℕ) (s : List ℕ) (b : Buffer) (rs : List Reply)
    → data_of rs ≡ c ∷ s
    → has_end rs ≡ false
    → has_error rs ≡ false
    → (b' : Buffer) × (rest : List Reply) × (refill b rs ≡ returns (one c, b') rest)
      × (has_end rest ≡ false)
      × (has_error rest ≡ false)
unfolding refill
refill_full c s b [] coming no_end no_error = cc
refill_full c s b (got [] ∷ rs) coming no_end no_error = cc
refill_full c s b (got (d ∷ ds) ∷ rs) coming no_end no_error =
    let first : d ≡ c = cc in
    let full : Buffer = stored (d ∷ ds) b in
    (record full { read_cnt = left (length ds); at = 0 + 1 }, rs, ground arith, no_end, no_error)
refill_full c s b (fail eintr ∷ rs) coming no_end no_error =
    refill_full c s (record b { read_cnt = minus_one }) rs coming no_end no_error
refill_full c s b (fail e' ∷ rs) coming no_end no_error = cc

my_read_at_full :
    (n : Count) (c : ℕ) (s : List ℕ) (b : Buffer) (rs : List Reply)
    → IsValid b
    → InBounds n b.at b.read_buf
    → pending_at n b.at b.read_buf ++ data_of rs ≡ c ∷ s
    → has_end rs ≡ false
    → has_error rs ≡ false
    → (b' : Buffer) × (rest : List Reply) × (my_read_at n b rs ≡ returns (one c, b') rest)
      × (has_end rest ≡ false)
      × (has_error rest ≡ false)
unfolding my_read_at
my_read_at_full minus_one c s b rs v inside coming no_end no_error =
    refill_full c s b rs coming no_end no_error
my_read_at_full (left zero) c s b rs v inside coming no_end no_error =
    refill_full c s b rs coming no_end no_error
my_read_at_full (left (suc k)) c s b rs v inside coming no_end no_error = (
  record b { read_cnt = left k; at = b.at + 1 },
  rs,
  ground (arith, take-drop k b.at b.read_buf),
  no_end,
  no_error,
)

-- If a byte is pending or to come, and no end of file or error, then `my_read` returns the first.
pub my_read_full :
    (c : ℕ) (s : List ℕ) (b : Buffer) (rs : List Reply)
    → IsValid b
    → pending b ++ data_of rs ≡ c ∷ s
    → has_end rs ≡ false
    → has_error rs ≡ false
    → (b' : Buffer) × (rest : List Reply) × (my_read b rs ≡ returns (one c, b') rest)
      × (has_end rest ≡ false)
      × (has_error rest ≡ false)
unfolding my_read
my_read_full c s b rs v = my_read_at_full b.read_cnt c s b rs v v.inside
