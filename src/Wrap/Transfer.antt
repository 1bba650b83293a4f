-- ===== src/Wrap/Transfer.antt =====
-- `Readn` and `Writen` of LinuxC/socket/TCP/wrap.c: transfers of exactly `n` bytes.
pub mod Replies
pub mod Readn
pub mod Writen
mod Tests
use linux_note.Base.{
  ℕ, zero, suc, ◌+◌, ◌-◌, ◌*◌, ◌/◌, ◌%◌, ◌^◌, ◌≤◌, ◌<◌, ◌≡◌, refl, sym, ap, ◌∙◌, ◌≢◌, ◌⊎◌, inl, inr,
  Bool, true, false, not, ◌&&◌, ◌||◌, Option, none, some, List, [], ◌∷◌, ◌++◌, map, append-nil,
  append_assoc, arith, ltb, leb, ◌==◌, if◌then◌else◌, Bool-cases, ==_refl, eq_of_==, ne_of_==,
  ltb→lt, leb→le, length, get_elem?, get_or, set, take, drop, replicate, length-append, length-set,
  get_or-append, set-append, get_or-set_self, get_or-set_ne, take-append, drop-append,
  length-replicate, length-drop, newline, blank, is_space, first_line, to_nul, string_at, ◌>>=◌,
  ◌>>◌, guard, load, store, load-append, store-append,
}
use linux_note.Wrap.{
  Reply, got, fail, Answer, val, err, Outcome, returns, waits, is_eintr, sub_size,
}

-- `return n - nleft`, with the bytes stored from `vptr` on and the replies that are left.
abbrev finished : {R : Type 0} → (n nleft : ℕ) → List ℕ → List R → Outcome R (Option ℕ × List ℕ)
finished n nleft out rs = returns (some (sub_size n nleft), out) rs

-- The loop of `Readn`, with the bytes stored so far. The value is the returned number, `none` for
-- -1, beside the bytes stored from `vptr` on.
pub readn_loop : (n nleft : ℕ) → List ℕ → List Reply → Outcome Reply (Option ℕ × List ℕ)
readn_loop n nleft out [] = if nleft == 0 then finished n nleft out [] else waits
readn_loop n nleft out (got [] ∷ rs) =
    if nleft == 0 then finished n nleft out (got [] ∷ rs) else finished n nleft out rs
readn_loop n nleft out (got (b ∷ bs) ∷ rs) =
    if nleft == 0
    then finished n nleft out (got (b ∷ bs) ∷ rs)
    else readn_loop n (sub_size nleft (length (b ∷ bs))) (out ++ (b ∷ bs)) rs
readn_loop n nleft out (fail e ∷ rs) =
    if nleft == 0
    then finished n nleft out (fail e ∷ rs)
    else let again = readn_loop n nleft out rs in
      if is_eintr e then again else returns (none, out) rs

pub readn : ℕ → List Reply → Outcome Reply (Option ℕ × List ℕ)
unfolding readn_loop
readn n rs = readn_loop n n [] rs

-- The loop of `Writen` over the bytes from `ptr` on, with the bytes handed to the kernel so far. A
-- reply `val k` is that the kernel took the first `k` bytes offered.
pub writen_loop :
    (n nleft : ℕ) → (ptr sent : List ℕ) → List Answer → Outcome Answer (Option ℕ × List ℕ)
writen_loop n nleft ptr sent [] = if nleft == 0 then returns (some n, sent) [] else waits
writen_loop n nleft ptr sent (val zero ∷ xs) =
    if nleft == 0 then returns (some n, sent) (val zero ∷ xs) else returns (none, sent) xs
writen_loop n nleft ptr sent (val (suc k) ∷ xs) =
    if nleft == 0
    then returns (some n, sent) (val (suc k) ∷ xs)
    else writen_loop n (sub_size nleft (suc k)) (drop (suc k) ptr) (sent ++ take (suc k) ptr) xs
writen_loop n nleft ptr sent (err e ∷ xs) =
    if nleft == 0
    then returns (some n, sent) (err e ∷ xs)
    else let again = writen_loop n nleft ptr sent xs in
      if is_eintr e then again else returns (none, sent) xs

-- `Writen (fd, vptr, n)`: the number returned (`none` for -1), beside the bytes sent.
pub writen : List ℕ → ℕ → List Answer → Outcome Answer (Option ℕ × List ℕ)
unfolding writen_loop
writen vptr n xs = writen_loop n n vptr [] xs
