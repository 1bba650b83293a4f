-- ===== src/Web/Branches.antt =====
-- The answers of LinuxC/socket/Webserver/Webserver.c with a file and without.
use linux_note.Base.{
  ℕ, zero, suc, ◌≤◌, ◌≡◌, refl, ap, ◌∙◌, true, Option, none, some, List, [], ◌∷◌, ◌++◌, arith, ltb,
  length, drop, length-append, length-drop, to_nul,
}
use linux_note.Web.{
  max_line, codes, Arrays, sprintf, file_path, content_type, header, read_into, read_all, up_to_end,
  send_file, send_missing, send, answer,
}
use linux_note.Web.Parse.{IsPath, version}
use linux_note.Web.Fits.{
  IsSized, Printed, sprintf_lem, file_path_fits, content_type_fits, header_fits,
}

-- Pieces of a file: some bytes each, and at most as many as `read` is asked for.
abbrev pub AllFit : List (List ℕ) → Type 0
AllFit [] = Unit {0}
AllFit ([] ∷ pieces) = ⊥
AllFit ((c ∷ cs) ∷ pieces) = (length (c ∷ cs) ≤ max_line) × AllFit pieces

up_to_end_all : (pieces : List (List ℕ)) → AllFit pieces → up_to_end pieces ≡ pieces
unfolding up_to_end
up_to_end_all [] fit = refl
up_to_end_all ([] ∷ pieces) fit = absurd fit
up_to_end_all ((c ∷ cs) ∷ pieces) fit = ap (λ l. (c ∷ cs) ∷ l) (up_to_end_all pieces fit.1)

length-read_all :
    (buf : List ℕ) (pieces : List (List ℕ))
    → length buf ≡ max_line
    → AllFit pieces
    → length (read_all buf pieces) ≡ max_line
length-read_all buf [] size fit = size
length-read_all buf ([] ∷ pieces) size fit = absurd fit
length-read_all buf ((c ∷ cs) ∷ pieces) size fit =
    let bs : List ℕ = c ∷ cs in
    length-read_all (read_into buf bs) pieces
      (omega (arith, length-append bs (drop (length bs) buf), length-drop (length bs) buf, fit.0))
      fit.1

abbrev fin : List ℕ
fin = codes "FIN\n"

abbrev body_404 : List ℕ
body_404 = codes "<html><body>request file not found</body></html>\r\n"

-- The chunks of the answer to a request for the path `p`: for a file that was opened as descriptor
-- 1 or above a whole buffer with the header in it, the pieces of the file and `FIN`; else two whole
-- buffers with the header of 404 and its page, and `FIN`.
unfoldable pub Reply : List ℕ → Option ℕ → List (List ℕ) → List (List ℕ) → Type 0
Reply p (some (suc k)) pieces chunks =
    (h : List ℕ) × (chunks ≡ (h ∷ pieces) ++ (fin ∷ []))
    × (length h ≡ max_line)
    × (to_nul h ≡ header version (codes " 200 OK") (content_type (file_path p)))
Reply p _ pieces chunks =
    (h b : List ℕ) × (chunks ≡ (h ∷ b ∷ []) ++ (fin ∷ []))
    × (length h ≡ max_line)
    × (to_nul h ≡ header version (codes " 404 Not Found") (content_type (file_path p)))
    × (length b ≡ max_line)
    × (to_nul b ≡ body_404)

module _ (p buf : List ℕ) (sized : length buf ≡ max_line) where
  abbrev kind : List ℕ
  kind = content_type (file_path p)

  Missing : Option (List (List ℕ) × List ℕ) → Type 0
  Missing o =
      (h b : List ℕ) × (o ≡ some (h ∷ b ∷ [], b))
      × (length h ≡ max_line)
      × (to_nul h ≡ header version (codes " 404 Not Found") kind)
      × (length b ≡ max_line)
      × (to_nul b ≡ body_404)

  send_missing_lem : Missing (send_missing buf version kind)
  unfolding send_missing Printed Missing
  send_missing_lem =
      let fits = content_type_fits (file_path p) in
      let ok =
        header_fits (codes " 404 Not Found") kind (search tt depth 40) fits.0 (omega arith)
          fits.1 in
      let (h, first, size, found) =
        sprintf_lem buf (header version (codes " 404 Not Found") kind) (rw sized ok.1) ok.0 in
      let (b, second, size', found') =
        sprintf_lem h body_404 (omega (arith, size, sized)) (search tt depth 120) in
      (h, b, rw (first, second) refl, size ∙ sized, found, size' ∙ (size ∙ sized), found')

  Found : List (List ℕ) → Option (List (List ℕ) × List ℕ) → Type 0
  Found pieces o =
      (h b : List ℕ) × (o ≡ some (h ∷ pieces, b))
      × (length h ≡ max_line)
      × (to_nul h ≡ header version (codes " 200 OK") kind)
      × (length b ≡ max_line)

  send_file_lem :
      (pieces : List (List ℕ)) → AllFit pieces → Found pieces (send_file buf version kind pieces)
  unfolding send_file Printed Found
  send_file_lem pieces fit =
      let fits = content_type_fits (file_path p) in
      let ok =
        header_fits (codes " 200 OK") kind (search tt depth 40) fits.0 (omega arith) fits.1 in
      let (h, first, size, found) =
        sprintf_lem buf (header version (codes " 200 OK") kind) (rw sized ok.1) ok.0 in
      (
        h,
        read_all h pieces,
        rw (first, up_to_end_all pieces fit) refl,
        size ∙ sized,
        found,
        length-read_all h pieces (size ∙ sized) fit,
      )

-- What `answer` leaves: an answer as above, and arrays of their sizes.
unfoldable pub Answers :
    List ℕ → Option ℕ → List (List ℕ) → Option (List (List ℕ) × Arrays) → Type 0
Answers p fd pieces o =
    (chunks : List (List ℕ)) × (a : Arrays) × (o ≡ some (chunks, a))
    × IsSized a
    × Reply p fd pieces chunks

ltb_pos : (k : ℕ) → ltb 0 (suc k) ≡ true
ltb_pos k = ground arith

Sends : List ℕ → Option ℕ → List (List ℕ) → Option (List (List ℕ) × List ℕ) → Type 0
Sends p fd pieces o =
    (chunks : List (List ℕ)) × (buf : List ℕ) × (o ≡ some (chunks, buf))
    × (length buf ≡ max_line)
    × Reply p fd pieces (chunks ++ (fin ∷ []))

branch_lem :
    (p buf : List ℕ) (fd : Option ℕ) (pieces : List (List ℕ))
    → length buf ≡ max_line
    → AllFit pieces
    → Sends p fd pieces (send buf version (content_type (file_path p)) fd pieces)
unfolding Sends Reply Missing Found send
branch_lem p buf none pieces sized fit =
    let (h, b, e, h_size, h_text, b_size, b_text) = send_missing_lem p buf sized in
    (h ∷ b ∷ [], b, e, b_size, (h, b, refl, h_size, h_text, b_size, b_text))
branch_lem p buf (some zero) pieces sized fit =
    let (h, b, e, h_size, h_text, b_size, b_text) = send_missing_lem p buf sized in
    (h ∷ b ∷ [], b, e, b_size, (h, b, refl, h_size, h_text, b_size, b_text))
branch_lem p buf (some (suc k)) pieces sized fit =
    let (h, b, e, h_size, h_text, b_size) = send_file_lem p buf sized pieces fit in
    (h ∷ pieces, b, rw (ltb_pos k) e, b_size, (h, refl, h_size, h_text))

answer_eq :
    (a : Arrays) (p : List ℕ) (fd : Option ℕ) (pieces : List (List ℕ))
    (path_out kind_out buf out : List ℕ) (chunks : List (List ℕ))
    → to_nul a.buf ≡ p
    → to_nul a.http ≡ version
    → sprintf a.path (file_path p) ≡ some path_out
    → to_nul path_out ≡ file_path p
    → sprintf a.kind (content_type (file_path p)) ≡ some kind_out
    → to_nul kind_out ≡ content_type (file_path p)
    → send a.buf version (content_type (file_path p)) fd pieces ≡ some (chunks, buf)
    → sprintf buf fin ≡ some out
    → to_nul out ≡ fin
    → answer a fd pieces
      ≡ some (
        chunks ++ (fin ∷ []),
        record { buf = out; http = a.http; path = path_out; kind = kind_out },
      )
unfolding answer
answer_eq a p fd pieces path_out kind_out buf out chunks p_e http_e path_put path_found kind_put
      kind_found sent fin_put fin_found =
    rw (p_e, path_put, path_found, kind_put, kind_found, http_e, sent, fin_put, fin_found) refl

pub answer_lem :
    (a : Arrays) (p : List ℕ) (fd : Option ℕ) (pieces : List (List ℕ))
    → IsSized a
    → IsPath p
    → length p ≤ 182
    → to_nul a.buf ≡ p
    → to_nul a.http ≡ version
    → AllFit pieces
    → Answers p fd pieces (answer a fd pieces)
unfolding Answers Sends Printed answer
answer_lem a p fd pieces sized path short p_e http_e fit =
    let (path_text, path_fits) = file_path_fits p path short in
    let (path_out, path_put, path_size, path_found) =
      sprintf_lem a.path (file_path p) (rw (sized.path) path_fits) path_text in
    let (kind_text, kind_fits) = content_type_fits (file_path p) in
    let (kind_out, kind_put, kind_size, kind_found) =
      sprintf_lem a.kind (content_type (file_path p)) (omega (arith, kind_fits, sized.kind))
        kind_text in
    let (chunks, buf, sent, buf_size, reply) = branch_lem p a.buf fd pieces sized.buf fit in
    let (out, fin_put, out_size, fin_found) =
      sprintf_lem buf fin (omega (arith, buf_size)) (search tt depth 20) in
    (
      chunks ++ (fin ∷ []),
      record { buf = out; http = a.http; path = path_out; kind = kind_out },
      answer_eq a p fd pieces path_out kind_out buf out chunks p_e http_e path_put path_found
          kind_put kind_found sent fin_put fin_found,
      record {
        buf = out_size ∙ buf_size;
        http = sized.http;
        path = path_size ∙ sized.path;
        kind = kind_size ∙ sized.kind;
      },
      reply,
    )
