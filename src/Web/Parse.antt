-- ===== src/Web/Parse.antt =====
-- The parser of LinuxC/socket/Webserver/Webserver.c on the requests of Webclient.c.
use linux_note.Base.{
  ℕ, zero, suc, ◌+◌, ◌<◌, ◌≡◌, refl, sym, ap, ◌∙◌, ◌≢◌, true, false, Option, some, List, [], ◌∷◌,
  ◌++◌, append_assoc, arith, ◌==◌, length, drop, length-append, length-drop, blank, is_space,
  to_nul, load, store, load-append, store-append,
}
use linux_note.Shell.Words.{IsWord}
use linux_note.Web.{codes, skip_blanks, move_path, copy_http, Arrays, parse_request}

-- The characters of a path: no blank and no 0.
abbrev pub IsPath : List ℕ → Type 0
IsPath [] = Unit {0}
IsPath (c ∷ s) = ((c == blank) ≡ false) × ((c == 0) ≡ false) × IsPath s

to_nul-path : (w r : List ℕ) → IsPath w → to_nul (w ++ (0 ∷ r)) ≡ w
to_nul-path [] r h = refl
to_nul-path (c ∷ w) r h = rw (h.1, to_nul-path w r h.2) refl

snoc_cons :
    (gap : List ℕ) (c : ℕ)
    → (g' : ℕ) × (gap' : List ℕ) × (gap ++ (c ∷ []) ≡ g' ∷ gap') × (length gap' ≡ length gap)
snoc_cons [] c = (c, [], refl, refl)
snoc_cons (g ∷ gap) c = (g, gap ++ (c ∷ []), refl, omega (arith, length-append gap (c ∷ [])))

-- What `move_path` leaves: the text moved to the front, a gap behind it as long as before.
Moved : (front gap w r : List ℕ) → Option (List ℕ × ℕ × ℕ) → Type 0
Moved front gap w r o =
    (gap' : List ℕ) × (length gap' ≡ length gap)
    × (o
        ≡ some (
          front ++ (w ++ (gap' ++ (blank ∷ r))),
          length front + length gap + length w,
          length front + length w,
        ))

module _ (n : ℕ) (r : List ℕ) where
  move_path_lem :
      (fuel : ℕ) (front : List ℕ) (g : ℕ) (gap w buf : List ℕ) (i j : ℕ)
      → length w < fuel
      → IsPath w
      → buf ≡ front ++ ((g ∷ gap) ++ (w ++ (blank ∷ r)))
      → i ≡ length front + length (g ∷ gap)
      → j ≡ length front
      → i + length w < n
      → Moved front (g ∷ gap) w r (move_path fuel n buf i j)
  unfolding Moved move_path
  move_path_lem zero front g gap w buf i j enough path e at_i at_j below = absurd (omega arith)
  move_path_lem (suc fuel) front g gap [] buf i j enough path e at_i at_j below =
      let here : load buf i ≡ some blank =
        rw (e, ← append_assoc front (g ∷ gap) (blank ∷ r), at_i, ← length-append front (g ∷ gap))
          (load-append (front ++ (g ∷ gap)) r blank) in
      (g ∷ gap, refl, ground (arith, here))
  move_path_lem (suc fuel) front g gap (c ∷ w) buf i j enough path e at_i at_j below =
      let here : load buf i ≡ some c =
        rw
          (
            e,
            ← append_assoc front (g ∷ gap) ((c ∷ w) ++ (blank ∷ r)),
            at_i,
            ← length-append front (g ∷ gap),
          )
          (load-append (front ++ (g ∷ gap)) (w ++ (blank ∷ r)) c) in
      let after = gap ++ ((c ∷ w) ++ (blank ∷ r)) in
      let put : store buf j c ≡ some (front ++ (c ∷ after)) =
        rw (e, at_j) (store-append front after g c) in
      let (g', gap', turned, long) = snoc_cons gap c in
      let text = w ++ (blank ∷ r) in
      let shifted : front ++ (c ∷ after) ≡ (front ++ (c ∷ [])) ++ ((g' ∷ gap') ++ text) =
        ap (λ l. front ++ (c ∷ l))
          (sym (append_assoc gap (c ∷ []) text) ∙ ap (λ l. l ++ text) turned)
        ∙ sym (append_assoc front (c ∷ []) ((g' ∷ gap') ++ text)) in
      let (gap'', same, rest) =
        move_path_lem fuel (front ++ (c ∷ [])) g' gap' w (front ++ (c ∷ after)) (i + 1) (j + 1)
          (omega arith) path.2 shifted (omega (arith, length-append front (c ∷ [])))
          (omega (arith, length-append front (c ∷ []))) (omega arith) in
      (
        gap'',
        omega arith,
        ground (
          arith,
          here,
          put,
          path.0,
          rest,
          append_assoc front (c ∷ []) (w ++ (gap'' ++ (blank ∷ r))),
          length-append front (c ∷ []),
        ),
      )

-- The array `http` after `copy_http` of a text.
copy_http_lem :
    (fuel n : ℕ) (done w r : List ℕ) (d : ℕ) (front old buf http : List ℕ) (i j : ℕ)
    → length w < fuel
    → IsWord w
    → is_space d ≡ true
    → buf ≡ done ++ (w ++ (d ∷ r))
    → http ≡ front ++ old
    → i ≡ length done
    → j ≡ length front
    → length w < length old
    → i + length w < n
    → copy_http fuel n buf http i j
      ≡ some (front ++ (w ++ drop (length w) old), length front + length w)
unfolding copy_http
copy_http_lem zero n done w r d front old buf http i j enough word space e h at_i at_j room below =
    absurd (omega arith)
copy_http_lem (suc fuel) n done [] r d front old buf http i j enough word space e h at_i at_j room
      below =
    let here : load buf i ≡ some d = rw (e, at_i) (load-append done r d) in ground (arith, here)
copy_http_lem (suc fuel) n done (c ∷ w) r d front [] buf http i j enough word space e h at_i at_j
      room below =
    absurd (omega arith)
copy_http_lem (suc fuel) n done (c ∷ w) r d front (o ∷ old) buf http i j enough word space e h at_i
      at_j room below =
    let here : load buf i ≡ some c = rw (e, at_i) (load-append done (w ++ (d ∷ r)) c) in
    let put : store http j c ≡ some (front ++ (c ∷ old)) =
      rw (h, at_j) (store-append front old o c) in
    ground (
      arith,
      here,
      put,
      word.0,
      copy_http_lem fuel n (done ++ (c ∷ [])) w r d (front ++ (c ∷ [])) old buf (front ++ (c ∷ old))
          (i + 1) (j + 1),
      append_assoc done (c ∷ []) (w ++ (d ∷ r)),
      append_assoc front (c ∷ []) old,
      append_assoc front (c ∷ []) (w ++ drop (length w) old),
      length-append done (c ∷ []),
      length-append front (c ∷ []),
    )

-- `skip_blanks` over one blank in front of a character that is none.
skip_blanks_one :
    (fuel n : ℕ) (done r : List ℕ) (c : ℕ) (buf : List ℕ) (i : ℕ)
    → (c == blank) ≡ false
    → buf ≡ done ++ (blank ∷ c ∷ r)
    → i ≡ length done
    → i + 1 < n
    → skip_blanks (suc (suc fuel)) n buf i ≡ some (i + 1)
unfolding skip_blanks
skip_blanks_one fuel n done r c buf i other e at below =
    let here : load buf i ≡ some blank = rw (e, at) (load-append done (c ∷ r) blank) in
    let next : load buf (i + 1) ≡ some c =
      rw (e, at, ← append_assoc done (blank ∷ []) (c ∷ r), ← length-append done (blank ∷ []))
        (load-append (done ++ (blank ∷ [])) r c) in
    ground (arith, here, next, other)

abbrev pub version : List ℕ
version = codes "HTTP/1.1"

version-IsWord : IsWord version
unfolding is_space
version-IsWord = search tt depth 30

carriage_return : is_space 13 ≡ true
unfolding is_space
carriage_return = refl

drop_cons : (k : ℕ) (xs : List ℕ) → k < length xs → (x : ℕ) × (xs' : List ℕ) × (drop k xs ≡ x ∷ xs')
drop_cons k [] h = absurd (omega arith)
drop_cons zero (x ∷ xs) h = (x, xs, refl)
drop_cons (suc k) (x ∷ xs) h = drop_cons k xs (omega arith)

-- The second half of the parser, from a buffer that holds the path and what is left of the request.
module _ (n : ℕ) (front rest : List ℕ) (http : List ℕ) where
  abbrev parsed_buf : List ℕ
  parsed_buf = front ++ (blank ∷ (version ++ (13 ∷ rest)))

  parse_http :
      (k i : ℕ)
      → n ≡ suc k
      → i ≡ length front
      → i + 9 < n
      → 8 < length http
      → (http₁ http₂ : List ℕ) × (skip_blanks (suc n) n parsed_buf i ≡ some (i + 1))
        × (copy_http (suc n) n parsed_buf http (i + 1) 0 ≡ some (http₁, 8))
        × (store http₁ 8 0 ≡ some http₂)
        × (to_nul http₂ ≡ version)
        × (length http₂ ≡ length http)
  parse_http k i size at below room =
      let (o, old, drop_e) = drop_cons 8 http room in
      let skipped : skip_blanks (suc n) n parsed_buf i ≡ some (i + 1) = rw size (
        skip_blanks_one k (suc k) front (codes "TTP/1.1" ++ (13 ∷ rest)) b'H' parsed_buf i refl refl
          at (omega arith)) in
      let copied : copy_http (suc n) n parsed_buf http (i + 1) 0 ≡ some (version ++ (o ∷ old), 8) =
        rw (← drop_e) (
          copy_http_lem (suc n) n (front ++ (blank ∷ [])) version rest 13 [] http parsed_buf http
            (i + 1) 0 (omega arith) version-IsWord carriage_return
            (sym (append_assoc front (blank ∷ []) (version ++ (13 ∷ rest)))) refl
            (omega (arith, length-append front (blank ∷ []))) refl room (omega arith)) in
      (
        version ++ (o ∷ old),
        version ++ (0 ∷ old),
        skipped,
        copied,
        store-append version old o 0,
        refl,
        omega (arith, ap length drop_e, length-drop 8 http),
      )

-- What a parsed request leaves: the strings in `buf` and `http`, and the other arrays as they were.
unfoldable pub Parsed : Arrays → (p : List ℕ) → Option Arrays → Type 0
Parsed a p o =
    (b : Arrays) × (o ≡ some b)
    × (to_nul b.buf ≡ p)
    × (to_nul b.http ≡ version)
    × (length b.buf ≡ length a.buf)
    × (length b.http ≡ length a.http)
    × (b.path ≡ a.path)
    × (b.kind ≡ a.kind)

-- The parser from the moved path on, with the gap `z ∷ gap` behind the path.
module _ (a : Arrays) (p rest : List ℕ) (n : ℕ) (path : IsPath p) (room : 8 < length a.http)
    (size : n ≡ length p + 17) (long : length a.buf ≡ length p + 14 + length rest) where
  abbrev http_part : List ℕ
  http_part = version ++ (13 ∷ rest)

  parse_moved :
      (z : ℕ) (gap : List ℕ)
      → length gap ≡ 3
      → skip_blanks (suc n) n a.buf 3 ≡ some 4
      → move_path (suc n) n a.buf 4 0
        ≡ some (p ++ ((z ∷ gap) ++ (blank ∷ http_part)), 0 + 4 + length p, 0 + length p)
      → Parsed a p (parse_request n a)
  unfolding Parsed parse_request
  parse_moved z gap gap_long skipped moved =
      let front = p ++ (0 ∷ gap) in
      let j_e : 0 + length p ≡ length p = omega arith in
      let stored : store (p ++ ((z ∷ gap) ++ (blank ∷ http_part))) (0 + length p) 0
          ≡ some (front ++ (blank ∷ http_part)) =
        rw (j_e, append_assoc p (0 ∷ gap) (blank ∷ http_part))
          (store-append p (gap ++ (blank ∷ http_part)) z 0) in
      let sized : n ≡ suc (length p + 16) = omega arith in
      let (http₁, http₂, skipped₂, copied, ended, found, http_size) =
        parse_http n front rest a.http (length p + 16) (0 + 4 + length p) sized
          (omega (arith, length-append p (0 ∷ gap))) (omega arith) room in
      (
        record a { buf = front ++ (blank ∷ http_part); http = http₂ },
        rw (skipped, moved, stored, skipped₂, copied, ended) refl,
        rw (append_assoc p (0 ∷ gap) (blank ∷ http_part))
            (to_nul-path p (gap ++ (blank ∷ http_part)) path),
        found,
        omega (arith, length-append front (blank ∷ http_part), length-append p (0 ∷ gap)),
        http_size,
        refl,
        refl,
      )

  parse_from :
      (gap : List ℕ)
      → length gap ≡ 4
      → skip_blanks (suc n) n a.buf 3 ≡ some 4
      → move_path (suc n) n a.buf 4 0
        ≡ some (p ++ (gap ++ (blank ∷ http_part)), 0 + 4 + length p, 0 + length p)
      → Parsed a p (parse_request n a)
  parse_from [] four skipped moved = absurd (omega arith)
  parse_from (z ∷ gap) four skipped moved = parse_moved z gap (omega arith) skipped moved

-- Over a request `GET <p> HTTP/1.1`, with a path that is not empty and has no blank and no 0, the parser
-- ends with no access out of bounds: the path stands at the start of `buf`, `HTTP/1.1` in `http`, and the
-- lengths of the arrays and the other arrays are as before.
pub parse_request_get :
    (a : Arrays) (p rest : List ℕ) (n : ℕ)
    → p ≢ []
    → IsPath p
    → 8 < length a.http
    → a.buf ≡ codes "GET " ++ (p ++ (blank ∷ (version ++ (13 ∷ rest))))
    → n ≡ length p + 17
    → Parsed a p (parse_request n a)
unfolding Moved
parse_request_get a [] rest n some_path path room e size = absurd (some_path refl)
parse_request_get a (c ∷ p) rest n some_path path room e size =
    let part = version ++ (13 ∷ rest) in
    let sized : n ≡ suc (length p + 17) = omega arith in
    let skipped : skip_blanks (suc n) n a.buf 3 ≡ some 4 = rw sized (
      skip_blanks_one (length p + 17) (suc (length p + 17)) (codes "GET") (p ++ (blank ∷ part)) c
        a.buf 3 path.0 e refl (omega arith)) in
    let (gap, four, moved) =
      move_path_lem n part (suc n) [] 71 (69 ∷ 84 ∷ 32 ∷ []) (c ∷ p) a.buf 4 0 (omega arith) path e
        (omega arith) refl (omega arith) in
    parse_from a (c ∷ p) rest n path room size
      (omega (arith, ap length e, length-append p (blank ∷ part))) gap four skipped moved
