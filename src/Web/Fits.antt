-- ===== src/Web/Fits.antt =====
-- The lengths of the texts that LinuxC/socket/Webserver/Webserver.c prints into its arrays.
use linux_note.Base.{
  ℕ, ◌+◌, ◌≤◌, ◌<◌, ◌≡◌, inl, inr, some, List, [], ◌∷◌, ◌++◌, arith, ◌==◌, Bool-cases, length, drop,
  length-append, length-drop, to_nul,
}
use linux_note.Shell.Words.{NoNul, to_nul-append}
use linux_note.Web.{
  max_line, codes, web_path, Arrays, sprintf, contains, file_path, content_type, header,
}
use linux_note.Web.Parse.{IsPath, version}

-- The arrays have the sizes that `server` declares.
pub record IsSized (a : Arrays) : Type 0 where
  pub buf : length a.buf ≡ max_line
  pub http : length a.http ≡ max_line
  pub path : length a.path ≡ max_line
  pub kind : length a.kind ≡ max_line

length-sprintf :
    (buf text : List ℕ)
    → length text < length buf
    → length (text ++ (0 ∷ drop (length text + 1) buf)) ≡ length buf
length-sprintf buf text h =
    omega (
      arith,
      length-append text (0 ∷ drop (length text + 1) buf),
      length-drop (length text + 1) buf,
    )

-- What `sprintf` leaves of a text that fits.
unfoldable pub Printed : (buf text : List ℕ) → Type 0
Printed buf text =
    (out : List ℕ) × (sprintf buf text ≡ some out) × (length out ≡ length buf) × (to_nul out ≡ text)

pub sprintf_lem : (buf text : List ℕ) → length text < length buf → NoNul text → Printed buf text
unfolding Printed
sprintf_lem buf text h no_nul = (
  text ++ (0 ∷ drop (length text + 1) buf),
  ground arith,
  length-sprintf buf text h,
  to_nul-append text (drop (length text + 1) buf) no_nul,
)

NoNul-join : (s t : List ℕ) → NoNul s → NoNul t → NoNul (s ++ t)
NoNul-join [] t hs ht = ht
NoNul-join (c ∷ s) t hs ht = (hs.0, NoNul-join s t hs.1 ht)

IsPath-NoNul : (p : List ℕ) → IsPath p → NoNul p
IsPath-NoNul [] h = tt
IsPath-NoNul (c ∷ p) h = (h.1, IsPath-NoNul p h.2)

-- The path of a file is a string that fits its array.
pub file_path_fits :
    (p : List ℕ)
    → IsPath p
    → length p ≤ 182
    → NoNul (file_path p) × (length (file_path p) < max_line)
unfolding file_path
file_path_fits [] path short = (search tt depth 30, omega arith)
file_path_fits (c ∷ []) path short = elim (Bool-cases (c == b'/')) [
  | inl root ↦ rw root (search tt depth 40, omega arith)
  | inr file ↦ rw file (NoNul-join web_path (c ∷ []) (search tt depth 30) (path.1, tt), omega arith)
]
file_path_fits (c ∷ d ∷ p) path short = (
  NoNul-join web_path (c ∷ d ∷ p) (search tt depth 30) (IsPath-NoNul (c ∷ d ∷ p) path),
  omega arith,
)

pub content_type_fits :
    (path : List ℕ) → NoNul (content_type path) × (length (content_type path) ≤ 9)
unfolding content_type
content_type_fits path = elim (Bool-cases (contains (codes "jpg") path)) [
  | inl jpg ↦ rw jpg (search tt depth 40, omega arith)
  | inr other ↦ elim (Bool-cases (contains (codes "png") path)) [
    | inl png ↦ rw (other, png) (search tt depth 40, omega arith)
    | inr text ↦ rw (other, text) (search tt depth 40, omega arith)
  ]
]

pub header_fits :
    (status kind : List ℕ)
    → NoNul status
    → NoNul kind
    → length status ≤ 14
    → length kind ≤ 9
    → NoNul (header version status kind) × (length (header version status kind) < max_line)
header_fits status kind s k ls lk = (
  NoNul-join version (status ++ (codes "\r\nContent-Type: " ++ (kind ++ codes "\r\n\r\n")))
      (search tt depth 40)
      (NoNul-join status (codes "\r\nContent-Type: " ++ (kind ++ codes "\r\n\r\n")) s (
        NoNul-join (codes "\r\nContent-Type: ") (kind ++ codes "\r\n\r\n") (search tt depth 60)
          (NoNul-join kind (codes "\r\n\r\n") k (search tt depth 20)))),
  omega (
    arith,
    length-append status (codes "\r\nContent-Type: " ++ (kind ++ codes "\r\n\r\n")),
    length-append kind (codes "\r\n\r\n"),
  ),
)
