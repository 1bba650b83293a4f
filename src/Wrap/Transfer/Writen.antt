-- ===== src/Wrap/Transfer/Writen.antt =====
-- `Writen` of LinuxC/socket/TCP/wrap.c: what it hands to the kernel, and what it returns.
use linux_note.Base.{
  ℕ, zero, suc, ◌+◌, ◌-◌, ◌^◌, ◌≤◌, ◌<◌, ◌≡◌, refl, sym, ap, ◌∙◌, inl, inr, Bool, true, false, not,
  ◌||◌, Option, none, some, List, [], ◌∷◌, ◌++◌, append-nil, append_assoc, arith, ◌==◌, Bool-cases,
  length, take, drop, length-drop,
}
use linux_note.Wrap.{eintr, Reply, Answer, val, err, returns, is_eintr, sub_size}
use linux_note.Wrap.Transfer.{writen_loop, writen, readn}
use linux_note.Wrap.Transfer.Replies.{data_of, Obeys, has_end, has_error}
use linux_note.Wrap.Transfer.Readn.{sub_size_le, readn_full}

-- `write` takes at most as many bytes as it is offered, here of a writer that offers what is left
-- of `n`.
abbrev Accepts : ℕ → List Answer → Type 0
Accepts n [] = Unit {0}
Accepts n (val k ∷ xs) = (k ≤ n) × Accepts (n - k) xs
Accepts n (err e ∷ xs) = Accepts n xs

-- How many bytes the answers take, together.
abbrev taken : List Answer → ℕ
taken [] = 0
taken (val k ∷ xs) = k + taken xs
taken (err e ∷ xs) = taken xs

-- An answer that ends the transfer: an error that is no interruption, or no byte taken.
abbrev refuses : List Answer → Bool
refuses [] = false
refuses (val zero ∷ xs) = true
refuses (val (suc k) ∷ xs) = refuses xs
refuses (err e ∷ xs) = not (is_eintr e) || refuses xs

-- What the returned number says of the bytes not sent.
abbrev pub Sent : ℕ → List ℕ → List Answer → Option ℕ → Type 0
Sent n unsent xs (some c) = (c ≡ n) × (unsent ≡ [])
Sent n unsent xs none = refuses xs ≡ true

take-append-drop : (n : ℕ) (xs : List ℕ) → take n xs ++ drop n xs ≡ xs
take-append-drop zero xs = refl
take-append-drop (suc n) [] = refl
take-append-drop (suc n) (x ∷ xs) = ap (λ l. x ∷ l) (take-append-drop n xs)

empty_of_length : (xs : List ℕ) → length xs ≡ 0 → xs ≡ []
empty_of_length [] h = refl
empty_of_length (x ∷ xs) h = absurd (omega arith)

module _ (n : ℕ) (vptr : List ℕ) (small : n < 2 ^ 64) where
  writen_loop_sound :
      (nleft : ℕ) (ptr sent : List ℕ) (xs : List Answer) (r : Option ℕ) (sent' : List ℕ)
      (rest : List Answer)
      → sent ++ ptr ≡ vptr
      → length ptr ≡ nleft
      → nleft ≤ n
      → Accepts nleft xs
      → writen_loop n nleft ptr sent xs ≡ returns (r, sent') rest
      → (unsent : List ℕ) × (sent' ++ unsent ≡ vptr) × Sent n unsent xs r
  unfolding writen_loop
  writen_loop_sound nleft ptr sent [] r sent' rest joined long le acc e =
      (ptr, ground arith, ground (arith, empty_of_length ptr))
  writen_loop_sound nleft ptr sent (val zero ∷ xs) r sent' rest joined long le acc e =
      (ptr, ground arith, ground (arith, empty_of_length ptr))
  writen_loop_sound nleft ptr sent (val (suc k) ∷ xs) r sent' rest joined long le acc e =
      elim (Bool-cases (nleft == 0)) [
        | inl done ↦ (ptr, ground arith, ground (arith, empty_of_length ptr))
        | inr more ↦
            writen_loop_sound (sub_size nleft (suc k)) (drop (suc k) ptr) (sent ++ take (suc k) ptr)
              xs r sent' rest (rw (append_assoc, take-append-drop) joined)
              (omega (arith, length-drop (suc k) ptr, sub_size_le nleft (suc k)))
              (omega (arith, sub_size_le nleft (suc k)))
              (rw (sub_size_le nleft (suc k) (omega arith) acc.0) acc.1) (rw more at e)
      ]
  writen_loop_sound nleft ptr sent (err eintr ∷ xs) r sent' rest joined long le acc e =
      elim (Bool-cases (nleft == 0)) [
        | inl done ↦ (ptr, ground arith, ground (arith, empty_of_length ptr))
        | inr more ↦
            writen_loop_sound nleft ptr sent xs r sent' rest joined long le acc (rw more at e)
      ]
  writen_loop_sound nleft ptr sent (err e' ∷ xs) r sent' rest joined long le acc e =
      (ptr, ground arith, ground (arith, empty_of_length ptr))

-- If `write` takes no more bytes than it is offered, and `vptr` has `n` bytes, a `size_t`: `Writen` hands
-- over the bytes at `vptr` from the first on, in order and each once. A result other
-- than -1 is `n`, and then all are sent; -1 comes from an error of `write`, or from a 0.
pub writen_sound :
    (vptr : List ℕ) (n : ℕ) (xs : List Answer) (r : Option ℕ) (sent : List ℕ) (rest : List Answer)
    → n < 2 ^ 64
    → length vptr ≡ n
    → Accepts n xs
    → writen vptr n xs ≡ returns (r, sent) rest
    → (unsent : List ℕ) × (sent ++ unsent ≡ vptr) × Sent n unsent xs r
unfolding writen
writen_sound vptr n xs r sent rest small long acc e =
    writen_loop_sound n vptr small n vptr [] xs r sent rest refl long (omega arith) acc e

writen_loop_full :
    (n nleft : ℕ) (ptr sent : List ℕ) (xs : List Answer)
    → n < 2 ^ 64
    → nleft ≤ n
    → Accepts nleft xs
    → nleft ≤ taken xs
    → refuses xs ≡ false
    → (sent' : List ℕ) × (rest : List Answer) × (writen_loop n nleft ptr sent xs
        ≡ returns (some n, sent') rest)
unfolding writen_loop
writen_loop_full n nleft ptr sent [] small le acc enough willing = (sent, [], ground arith)
writen_loop_full n nleft ptr sent (val zero ∷ xs) small le acc enough willing = cc
writen_loop_full n nleft ptr sent (val (suc k) ∷ xs) small le acc enough willing =
    elim (Bool-cases (nleft == 0)) [
      | inl done ↦ (sent, val (suc k) ∷ xs, ground arith)
      | inr more ↦
          let (sent', rest, e) =
            writen_loop_full n (sub_size nleft (suc k)) (drop (suc k) ptr)
              (sent ++ take (suc k) ptr) xs small (omega (arith, sub_size_le nleft (suc k)))
              (rw (sub_size_le nleft (suc k) (omega arith) acc.0) acc.1)
              (omega (arith, sub_size_le nleft (suc k))) willing in
          (sent', rest, rw more e)
    ]
writen_loop_full n nleft ptr sent (err eintr ∷ xs) small le acc enough willing =
    elim (Bool-cases (nleft == 0)) [
      | inl done ↦ (sent, err eintr ∷ xs, ground arith)
      | inr more ↦
          let (sent', rest, e) = writen_loop_full n nleft ptr sent xs small le acc enough willing in
          (sent', rest, rw more e)
    ]
writen_loop_full n nleft ptr sent (err e' ∷ xs) small le acc enough willing = cc

all_sent : (s u v : List ℕ) → s ++ u ≡ v → u ≡ [] → s ≡ v
all_sent s u v joined none_left = sym (append-nil s) ∙ (ap (λ l. s ++ l) (sym none_left) ∙ joined)

take_all : (n : ℕ) (xs : List ℕ) → length xs ≡ n → take n xs ≡ xs
take_all zero [] h = refl
take_all zero (x ∷ xs) h = absurd (omega arith)
take_all (suc n) [] h = refl
take_all (suc n) (x ∷ xs) h = ap (λ l. x ∷ l) (take_all n xs (omega arith))

-- If `write` takes no more bytes than it is offered, and `vptr` has `n` bytes, a `size_t`: if the answers
-- take `n` bytes together and none refuses, then `Writen` returns, with `n`, and has
-- sent exactly the bytes at `vptr`.
pub writen_full :
    (vptr : List ℕ) (n : ℕ) (xs : List Answer)
    → n < 2 ^ 64
    → length vptr ≡ n
    → Accepts n xs
    → n ≤ taken xs
    → refuses xs ≡ false
    → (rest : List Answer) × (writen vptr n xs ≡ returns (some n, vptr) rest)
unfolding writen
writen_full vptr n xs small long acc enough willing =
    let (sent, rest, e) = writen_loop_full n n vptr [] xs small (omega arith) acc enough willing in
    let (unsent, joined, verdict) = writen_sound vptr n xs (some n) sent rest small long acc e in
    (rest, rw (all_sent sent unsent vptr joined verdict.1) at e)

-- From `Writen` to `Readn`, where `read` and `write` move no more bytes than they are asked to, and `vptr`
-- has `n` bytes, a `size_t`: if the replies to the reader hold the bytes that a successful `Writen`
-- handed over, and no end of file or error, then `Readn` returns and has stored what was at `vptr`.
pub readn-writen :
    (vptr : List ℕ) (n : ℕ) (xs : List Answer) (sent : List ℕ) (rest : List Answer)
    (rs : List Reply)
    → n < 2 ^ 64
    → length vptr ≡ n
    → Accepts n xs
    → writen vptr n xs ≡ returns (some n, sent) rest
    → data_of rs ≡ sent
    → Obeys n rs
    → has_end rs ≡ false
    → has_error rs ≡ false
    → (rest' : List Reply) × (readn n rs ≡ returns (some n, vptr) rest')
readn-writen vptr n xs sent rest rs small long acc e arrived ob no_end no_error =
    let (unsent, joined, verdict) = writen_sound vptr n xs (some n) sent rest small long acc e in
    let whole : data_of rs ≡ vptr = arrived ∙ all_sent sent unsent vptr joined verdict.1 in
    let (rest', got_all) =
      readn_full n rs small ob (rw (whole, long) (omega arith)) no_end no_error in
    (rest', rw (ap (take n) whole ∙ take_all n vptr long) at got_all)
