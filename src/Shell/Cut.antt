-- ===== src/Shell/Cut.antt =====
-- The loop of bite/pctrl/shell.c that cuts a line in place, and the words of the line.
use linux_note.Base.{
  ℕ, zero, suc, ◌+◌, ◌<◌, ◌≡◌, refl, sym, ap, ◌∙◌, ◌≢◌, inl, inr, true, false, not, ◌&&◌, Option,
  some, List, [], ◌∷◌, ◌++◌, map, append-nil, append_assoc, arith, ◌==◌, Bool-cases, length,
  length-append, is_space, string_at, load, store, load-append, store-append,
}
use linux_note.Shell.{argv_size, skip_word, Command, cut}
use linux_note.Shell.Words.{
  words, take_word, drop_word, NoNul, IsWord, words-word, take-append-drop_word, take_word-IsWord,
  IsWord-NoNul, Stops, drop_word-Stops, NoNul-append, string_at-append,
}

length-snoc : (done : List ℕ) (c : ℕ) → length (done ++ (c ∷ [])) ≡ length done + 1
length-snoc done c = omega (arith, length-append done (c ∷ []))

-- `skip_word` stops behind the word.
skip_word_lem :
    (fuel : ℕ) (done w r : List ℕ) (d i : ℕ) (buf : List ℕ)
    → length w < fuel
    → IsWord w
    → (not (d == 0) && not (is_space d)) ≡ false
    → buf ≡ done ++ (w ++ (d ∷ r))
    → i ≡ length done
    → skip_word fuel buf i ≡ some (length done + length w)
unfolding skip_word
skip_word_lem zero done w r d i buf enough word stop e at = absurd (omega arith)
skip_word_lem (suc fuel) done [] r d i buf enough word stop e at =
    rw (e, at, load-append done r d, stop) (ap some (omega arith))
skip_word_lem (suc fuel) done (c ∷ w) r d i buf enough word stop e at =
    let here : load buf i ≡ some c = rw (e, at) (load-append done (w ++ (d ∷ r)) c) in
    let rest =
      skip_word_lem fuel (done ++ (c ∷ [])) w r d (i + 1) buf (omega arith) word.2 stop
        (e ∙ sym (append_assoc done (c ∷ []) (w ++ (d ∷ r)))) (omega (arith, length-snoc done c)) in
    rw (here, word.0, word.1) (rest ∙ ap some (omega (arith, length-snoc done c)))

-- The loop leaves what stands before the text, `done`, and adds pointers to the strings `ws`.
unfoldable pub CutsTo : (done argv : List ℕ) → List (List ℕ) → Option Command → Type 0
CutsTo done argv ws o =
    (rest ptrs : List ℕ) × (o ≡ some (record { buf = done ++ rest; argv = argv ++ ptrs }))
    × (map (string_at (done ++ rest)) ptrs ≡ ws)

-- A word of `s` from its first letter on: the loop records it, ends it by a 0 and goes on behind.
cut_word :
    (fuel : ℕ) (done : List ℕ) (c : ℕ) (w r : List ℕ) (d : ℕ) (argv : List ℕ) (buf : List ℕ) (i : ℕ)
    → IsWord (c ∷ w)
    → (not (d == 0) && not (is_space d)) ≡ false
    → length argv < argv_size
    → buf ≡ done ++ ((c ∷ w) ++ (d ∷ r))
    → i ≡ length done
    → cut (suc fuel) buf i argv
      ≡ cut fuel
          ((done ++ (c ∷ w)) ++ (0 ∷ r))
          (length done + length (c ∷ w) + 1)
          (argv ++ (i ∷ []))
unfolding cut
cut_word fuel done c w r d argv buf i word stop room e at =
    let here : load buf i ≡ some c = rw (e, at) (load-append done (w ++ (d ∷ r)) c) in
    let end =
      skip_word_lem (length buf) done (c ∷ w) r d i buf
        (omega (
          arith,
          ap length e,
          length-append done ((c ∷ w) ++ (d ∷ r)),
          length-append (c ∷ w) (d ∷ r),
        ))
        word stop e at in
    let put : store buf (length done + length (c ∷ w)) 0 ≡ some ((done ++ (c ∷ w)) ++ (0 ∷ r)) =
      rw (e, ← append_assoc done (c ∷ w) (d ∷ r), ← length-append done (c ∷ w))
        (store-append (done ++ (c ∷ w)) r d 0) in
    ground (arith, here, word, end, put)

-- The loop ends at a 0.
cut_stop :
    (fuel : ℕ) (buf : List ℕ) (i : ℕ) (argv : List ℕ)
    → 0 < fuel
    → load buf i ≡ some 0
    → cut fuel buf i argv ≡ some (record { buf = buf; argv = argv })
unfolding cut
cut_stop zero buf i argv h here = absurd (omega arith)
cut_stop (suc fuel) buf i argv h here = rw here refl

-- The text before the two 0 bytes that end it, from index `i` of the buffer on.
pub record Ready (fuel : ℕ) (done s tail argv buf : List ℕ) (i : ℕ) : Type 0 where
  pub enough : length s < fuel
  pub text : NoNul s
  pub room : length argv + length (words s) < argv_size
  pub split : buf ≡ done ++ (s ++ (0 ∷ 0 ∷ tail))
  pub at : i ≡ length done

nul_no_space : is_space 0 ≡ false
unfolding is_space
nul_no_space = refl

second_nul :
    (done tail : List ℕ) (i : ℕ) → i ≡ length done + 1 → load (done ++ (0 ∷ 0 ∷ tail)) i ≡ some 0
second_nul done tail i at =
    rw (at, ← length-snoc done 0, ← append_assoc done (0 ∷ []) (0 ∷ tail))
      (load-append (done ++ (0 ∷ [])) tail 0)

regroup : (done w rest : List ℕ) → ((done ++ w) ++ (0 ∷ [])) ++ rest ≡ done ++ (w ++ (0 ∷ rest))
regroup done w rest = append_assoc (done ++ w) (0 ∷ []) rest ∙ append_assoc done w (0 ∷ rest)

module _ (fuel : ℕ)
    (later : (done s tail argv buf : List ℕ) (i : ℕ)
      → Ready fuel done s tail argv buf i
      → CutsTo done argv (words s) (cut fuel buf i argv)) where
  cut_space :
      (done : List ℕ) (c : ℕ) (s tail argv buf : List ℕ) (i : ℕ)
      → is_space c ≡ true
      → Ready (suc fuel) done (c ∷ s) tail argv buf i
      → CutsTo done argv (words s) (cut (suc fuel) buf i argv)
  unfolding CutsTo cut
  cut_space done c s tail argv buf i space ready =
      let here : load buf i ≡ some c =
        rw (ready.split, ready.at) (load-append done (s ++ (0 ∷ 0 ∷ tail)) c) in
      let (rest, ptrs, e, ws) = later (done ++ (c ∷ [])) s tail argv buf (i + 1) (record {
        enough = omega (arith, ready.enough);
        text = ready.text.1;
        room = let r = ready.room in rw space at r;
        split = ready.split ∙ sym (append_assoc done (c ∷ []) (s ++ (0 ∷ 0 ∷ tail)));
        at = omega (arith, ready.at, length-snoc done c);
      }) in
      (
        c ∷ rest,
        ptrs,
        ground (arith, here, space, ready.text, e, append_assoc done (c ∷ []) rest),
        rw (append_assoc done (c ∷ []) rest) at ws,
      )

  -- A word `w` of at least one letter, with `s` behind it.
  cut_letter :
      (done w s tail argv buf : List ℕ) (i : ℕ)
      → w ≢ []
      → IsWord w
      → Stops s
      → NoNul s
      → length (w ++ s) < suc fuel
      → suc (length argv + length (words s)) < argv_size
      → buf ≡ done ++ (w ++ (s ++ (0 ∷ 0 ∷ tail)))
      → i ≡ length done
      → CutsTo done argv (w ∷ words s) (cut (suc fuel) buf i argv)
  unfolding CutsTo
  cut_letter done [] s tail argv buf i some_letter word stops text enough room e at =
      absurd (some_letter refl)
  cut_letter done (c ∷ w) [] tail argv buf i some_letter word stops text enough room e at =
      let next =
        cut_word fuel done c w (0 ∷ tail) 0 argv buf i word refl (omega (arith, room)) e at in
      let stop =
        cut_stop fuel ((done ++ (c ∷ w)) ++ (0 ∷ 0 ∷ tail)) (length done + length (c ∷ w) + 1)
          (argv ++ (i ∷ [])) (omega arith)
          (second_nul (done ++ (c ∷ w)) tail (length done + length (c ∷ w) + 1)
            (omega (arith, length-append done (c ∷ w)))) in
      (
        (c ∷ w) ++ (0 ∷ 0 ∷ tail),
        i ∷ [],
        next ∙ rw (stop, append_assoc done (c ∷ w) (0 ∷ 0 ∷ tail)) refl,
        rw (at, string_at-append done (c ∷ w) (0 ∷ tail) (IsWord-NoNul (c ∷ w) word)) refl,
      )
  cut_letter done (c ∷ w) (d ∷ s) tail argv buf i some_letter word stops text enough room e at =
      let same : words (d ∷ s) ≡ words s = ground arith in
      let next =
        cut_word fuel done c w (s ++ (0 ∷ 0 ∷ tail)) d argv buf i word (ground arith)
          (omega (arith, room)) e at in
      let (rest, ptrs, later_e, ws) =
        later ((done ++ (c ∷ w)) ++ (0 ∷ [])) s tail (argv ++ (i ∷ []))
          ((done ++ (c ∷ w)) ++ (0 ∷ (s ++ (0 ∷ 0 ∷ tail)))) (length done + length (c ∷ w) + 1)
          (record {
            enough = omega (arith, length-append w (d ∷ s));
            text = text.1;
            room = omega (arith, length-append argv (i ∷ []), ap length same);
            split = sym (append_assoc (done ++ (c ∷ w)) (0 ∷ []) (s ++ (0 ∷ 0 ∷ tail)));
            at = omega (arith, length-snoc (done ++ (c ∷ w)) 0, length-append done (c ∷ w));
          }) in
      let joined = regroup done (c ∷ w) rest in
      let after : List ℕ = done ++ ((c ∷ w) ++ (0 ∷ rest)) in
      let first : string_at after i ≡ c ∷ w =
        ap (string_at after) at ∙ string_at-append done (c ∷ w) rest (IsWord-NoNul (c ∷ w) word) in
      let others : map (string_at after) ptrs ≡ words s = rw joined at ws in
      (
        (c ∷ w) ++ (0 ∷ rest),
        i ∷ ptrs,
        ground (arith, next, later_e, joined, append_assoc argv (i ∷ []) ptrs),
        rw (first, others, same) refl,
      )

-- Over a line with no 0 in it that `argv` has room for, the loop ends, makes no access out of
-- bounds, and leaves in `argv` pointers to the words of the line, in order.
pub cut_lem :
    (fuel : ℕ) (done s tail argv buf : List ℕ) (i : ℕ)
    → Ready fuel done s tail argv buf i
    → CutsTo done argv (words s) (cut fuel buf i argv)
unfolding CutsTo
cut_lem zero done s tail argv buf i ready = absurd (omega (arith, ready.enough))
cut_lem (suc fuel) done [] tail argv buf i ready = (
  0 ∷ 0 ∷ tail,
  [],
  rw
      (
        cut_stop (suc fuel) buf i argv (omega arith)
            (rw (ready.split, ready.at) (load-append done (0 ∷ tail) 0)),
        append-nil,
        ← ready.split,
      )
      refl,
  refl,
)
cut_lem (suc fuel) done (c ∷ s) tail argv buf i ready = elim (Bool-cases (is_space c)) [
  | inl space ↦ rw space (cut_space fuel (cut_lem fuel) done c s tail argv buf i space ready)
  | inr letter ↦
      let line : words (c ∷ s) ≡ (c ∷ take_word s) ∷ words (drop_word s) = words-word c s letter in
      let whole = take-append-drop_word s in
      let room = ready.room in
      let split = ready.split in
      rw line (
        cut_letter fuel (cut_lem fuel) done (c ∷ take_word s) (drop_word s) tail argv buf i
          (λ e. cc) (letter, ready.text.0, take_word-IsWord s ready.text.1) (drop_word-Stops s)
          (NoNul-append (take_word s) (drop_word s) (rw whole ready.text.1)) (rw whole ready.enough)
          (omega (arith, room, ap length line))
          (rw (← append_assoc (c ∷ take_word s) (drop_word s) (0 ∷ 0 ∷ tail), whole) split)
          ready.at)
]
