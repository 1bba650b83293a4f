-- ===== src/Wrap/Transfer/Readn.antt =====
-- `Readn` of LinuxC/socket/TCP/wrap.c: what it stores, what it returns, and when it returns.
use linux_note.Base.{
  ℕ, ◌+◌, ◌-◌, ◌^◌, ◌≤◌, ◌<◌, ◌≡◌, refl, sym, ◌⊎◌, inl, inr, true, false, Option, none, some, List,
  [], ◌∷◌, ◌++◌, append_assoc, arith, ◌==◌, Bool-cases, length, take, length-append, take-append,
}
use linux_note.Wrap.{eintr, Reply, got, fail, Outcome, returns, exits, waits, sub_size}
use linux_note.Wrap.Transfer.{readn_loop, readn}
use linux_note.Wrap.Transfer.Replies.{data_of, Obeys, has_end, has_error, drop_interrupts}

-- What the returned number says.
abbrev pub Verdict : ℕ → List ℕ → List Reply → Option ℕ → Type 0
Verdict n out rs (some c) = (c ≡ length out) × ((c ≡ n) ⊎ (has_end rs ≡ true))
Verdict n out rs none = has_error rs ≡ true

pub sub_size_le : (a b : ℕ) → a < 2 ^ 64 → b ≤ a → sub_size a b ≡ a - b
sub_size_le a b h k = omega arith

readn_loop_sound :
    (n nleft : ℕ) (out : List ℕ) (rs : List Reply) (r : Option ℕ) (out' : List ℕ)
    (rest : List Reply)
    → n < 2 ^ 64
    → length out + nleft ≡ n
    → Obeys nleft rs
    → readn_loop n nleft out rs ≡ returns (r, out') rest
    → (out' ++ data_of rest ≡ out ++ data_of rs) × (length out' ≤ n) × Verdict n out' rs r
unfolding readn_loop
readn_loop_sound n nleft out [] r out' rest small sum ob e = ground arith
readn_loop_sound n nleft out (got [] ∷ rs) r out' rest small sum ob e = ground arith
readn_loop_sound n nleft out (got (b ∷ bs) ∷ rs) r out' rest small sum ob e = ground (
  arith,
  readn_loop_sound n (sub_size nleft (length (b ∷ bs))) (out ++ (b ∷ bs)) rs r out' rest,
  length-append out (b ∷ bs),
  append_assoc out (b ∷ bs) (data_of rs),
  sub_size_le nleft (length (b ∷ bs)),
)
readn_loop_sound n nleft out (fail e' ∷ rs) r out' rest small sum ob e =
    ground (arith, readn_loop_sound n nleft out rs r out' rest)

-- If `read` returns no more bytes than it is asked for, and `n` is a `size_t`: `Readn` stores the bytes
-- that came, in order, and none is lost: what it stored and what the
-- replies left hold is the data of all replies. It never stores more than `n` bytes. A result other
-- than -1 counts them, and is short only at an end of file; -1 comes from an error of `read`.
pub readn_sound :
    (n : ℕ) (rs : List Reply) (r : Option ℕ) (out : List ℕ) (rest : List Reply)
    → n < 2 ^ 64
    → Obeys n rs
    → readn n rs ≡ returns (r, out) rest
    → (out ++ data_of rest ≡ data_of rs) × (length out ≤ n) × Verdict n out rs r
unfolding readn
readn_sound n rs r out rest small ob e =
    readn_loop_sound n n [] rs r out rest small (omega arith) ob e

readn_loop_full :
    (n nleft : ℕ) (out : List ℕ) (rs : List Reply)
    → n < 2 ^ 64
    → length out + nleft ≡ n
    → Obeys nleft rs
    → nleft ≤ length (data_of rs)
    → has_end rs ≡ false
    → has_error rs ≡ false
    → (out' : List ℕ) × (rest : List Reply) × (readn_loop n nleft out rs
        ≡ returns (some n, out') rest)
unfolding readn_loop
readn_loop_full n nleft out [] small sum ob enough no_end no_error = (out, [], ground arith)
readn_loop_full n nleft out (got [] ∷ rs) small sum ob enough no_end no_error = cc
readn_loop_full n nleft out (got (b ∷ bs) ∷ rs) small sum ob enough no_end no_error =
    elim (Bool-cases (nleft == 0)) [
      | inl zero_left ↦ (out, got (b ∷ bs) ∷ rs, ground arith)
      | inr more ↦
          let (out', rest, e) =
            readn_loop_full n (sub_size nleft (length (b ∷ bs))) (out ++ (b ∷ bs)) rs small
              (omega (arith, length-append out (b ∷ bs), sub_size_le nleft (length (b ∷ bs))))
              (rw (sub_size_le nleft (length (b ∷ bs)) (omega arith) ob.0) ob.1)
              (omega
                (arith, length-append (b ∷ bs) (data_of rs), sub_size_le nleft (length (b ∷ bs))))
              no_end no_error in
          (out', rest, rw more e)
    ]
readn_loop_full n nleft out (fail eintr ∷ rs) small sum ob enough no_end no_error =
    elim (Bool-cases (nleft == 0)) [
      | inl zero_left ↦ (out, fail eintr ∷ rs, ground arith)
      | inr more ↦
          let (out', rest, e) =
            readn_loop_full n nleft out rs small sum ob enough no_end no_error in
          (out', rest, rw more e)
    ]
readn_loop_full n nleft out (fail e' ∷ rs) small sum ob enough no_end no_error = cc

take_of_append : (n : ℕ) (xs ys zs : List ℕ) → xs ++ ys ≡ zs → length xs ≡ n → xs ≡ take n zs
take_of_append n xs ys zs joined long = rw (← joined, ← long) (sym (take-append xs ys))

-- If `read` returns no more bytes than it is asked for, and `n` is a `size_t`: if the replies hold `n`
-- bytes and no end of file or error, whatever interruptions come between,
-- then `Readn` returns, with `n`, and has stored the first `n` bytes.
pub readn_full :
    (n : ℕ) (rs : List Reply)
    → n < 2 ^ 64
    → Obeys n rs
    → n ≤ length (data_of rs)
    → has_end rs ≡ false
    → has_error rs ≡ false
    → (rest : List Reply) × (readn n rs ≡ returns (some n, take n (data_of rs)) rest)
unfolding readn
readn_full n rs small ob enough no_end no_error =
    let (out, rest, e) = readn_loop_full n n [] rs small (omega arith) ob enough no_end no_error in
    let (kept, limit, verdict) = readn_sound n rs (some n) out rest small ob e in
    (rest, rw (take_of_append n out (data_of rest) (data_of rs) kept (sym verdict.0)) at e)

-- The result of a call, without the replies that are left.
abbrev result : {A : Type 0} → Outcome Reply A → Outcome Reply A
result (returns a rest) = returns a []
result (exits s) = exits s
result waits = waits

-- With nothing left to read the replies are not looked at.
readn_loop_done :
    (n nleft : ℕ) (out : List ℕ) (rs : List Reply)
    → (nleft == 0) ≡ true
    → result (readn_loop n nleft out rs) ≡ returns (some (sub_size n nleft), out) []
unfolding readn_loop
readn_loop_done n nleft out [] h = ground arith
readn_loop_done n nleft out (got [] ∷ rs) h = ground arith
readn_loop_done n nleft out (got (b ∷ bs) ∷ rs) h = ground arith
readn_loop_done n nleft out (fail e ∷ rs) h = ground arith

readn_loop-drop_interrupts :
    (n nleft : ℕ) (out : List ℕ) (rs : List Reply)
    → result (readn_loop n nleft out (drop_interrupts rs)) ≡ result (readn_loop n nleft out rs)
unfolding readn_loop
readn_loop-drop_interrupts n nleft out [] = refl
readn_loop-drop_interrupts n nleft out (got [] ∷ rs) = ground arith
readn_loop-drop_interrupts n nleft out (got (b ∷ bs) ∷ rs) =
    ground
      (arith, readn_loop-drop_interrupts n (sub_size nleft (length (b ∷ bs))) (out ++ (b ∷ bs)) rs)
readn_loop-drop_interrupts n nleft out (fail eintr ∷ rs) = ground (
  arith,
  readn_loop-drop_interrupts n nleft out rs,
  readn_loop_done n nleft out (drop_interrupts rs),
)
readn_loop-drop_interrupts n nleft out (fail e ∷ rs) =
    ground (arith, readn_loop-drop_interrupts n nleft out rs)

-- Interruptions by signals make no difference to what `Readn` returns and stores.
readn-drop_interrupts :
    (n : ℕ) (rs : List Reply) → result (readn n (drop_interrupts rs)) ≡ result (readn n rs)
unfolding readn
readn-drop_interrupts n rs = readn_loop-drop_interrupts n n [] rs
