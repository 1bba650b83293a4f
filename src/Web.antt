-- ===== src/Web.antt =====
-- LinuxC/socket/Webserver/Webserver.c: `server`, which answers the requests of one connection, and
-- the requests of LinuxC/socket/Webserver/Webclient.c.
pub mod Parse
mod Fits
mod Branches
pub mod Answer
pub mod Rounds
mod Tests
use linux_note.Base.{
  ℕ, zero, suc, ◌+◌, ◌-◌, ◌*◌, ◌/◌, ◌%◌, ◌^◌, ◌≤◌, ◌<◌, ◌≡◌, refl, sym, ap, ◌∙◌, ◌≢◌, ◌⊎◌, inl, inr,
  Bool, true, false, not, ◌&&◌, ◌||◌, Option, none, some, List, [], ◌∷◌, ◌++◌, map, append-nil,
  append_assoc, arith, ltb, leb, ◌==◌, if◌then◌else◌, Bool-cases, ==_refl, eq_of_==, ne_of_==,
  ltb→lt, leb→le, length, get_elem?, get_or, set, take, drop, replicate, length-append, length-set,
  get_or-append, set-append, get_or-set_self, get_or-set_ne, take-append, drop-append,
  length-replicate, length-drop, newline, blank, is_space, first_line, to_nul, string_at, ◌>>=◌,
  ◌>>◌, guard, load, store, load-append, store-append,
}
use Prim.Native.Char.{code}
use Prim.Native.String.{String}

abbrev pub max_line : ℕ
max_line = 200

-- The bytes of a text.
abbrev pub codes : String → List ℕ
codes String.[] = []
codes (String.◌∷◌ c s) = code c ∷ codes s

abbrev pub web_path : List ℕ
web_path = codes "/var/tmp"

-- `for (; i < n && buf[i] == ' '; ) i++;`
pub skip_blanks : ℕ → ℕ → List ℕ → ℕ → Option ℕ
skip_blanks zero n buf i = none
skip_blanks (suc fuel) n buf i = do
  let more = do c ← load buf i; if c == blank then skip_blanks fuel n buf (i + 1) else some i
  if ltb i n then more else some i

-- `for (; i < n && buf[i] != ' '; ) buf[j++] = buf[i++];`, which moves the path to the start of the
-- buffer that it is read from.
pub move_path : ℕ → ℕ → List ℕ → ℕ → ℕ → Option (List ℕ × ℕ × ℕ)
move_path zero n buf i j = none
move_path (suc fuel) n buf i j = do
  let more = do
    c ← load buf i
    let moved = do buf' ← store buf j c; move_path fuel n buf' (i + 1) (j + 1)
    if c == blank then some (buf, i, j) else moved
  if ltb i n then more else some (buf, i, j)

-- `for (; i < n && !isspace(buf[i]); ) http[j++] = buf[i++];`, over the array `http`.
pub copy_http : ℕ → ℕ → List ℕ → List ℕ → ℕ → ℕ → Option (List ℕ × ℕ)
copy_http zero n buf http i j = none
copy_http (suc fuel) n buf http i j = do
  let more = do
    c ← load buf i
    let moved = do http' ← store http j c; copy_http fuel n buf http' (i + 1) (j + 1)
    if is_space c then some (http, j) else moved
  if ltb i n then more else some (http, j)

-- The arrays `buf`, `http`, `path` and `contentType` of `server`, which it keeps over the requests.
pub record Arrays : Type 0 where
  pub buf : List ℕ
  pub http : List ℕ
  pub path : List ℕ
  pub kind : List ℕ

-- `n > 2 && buf[0] == 'G' && buf[1] == 'E' && buf[2] == 'T'`
abbrev pub is_get : ℕ → List ℕ → Bool
is_get n buf = ltb 2 n && get_or buf 0 0 == b'G' && get_or buf 1 0 == b'E' && get_or buf 2 0 == b'T'

-- The body of the `if` up to `http[j] = '\0'`: the path at the start of `buf`, and `http`.
pub parse_request : ℕ → Arrays → Option Arrays
unfolding skip_blanks move_path copy_http
parse_request n a = do
  i ← skip_blanks (suc n) n a.buf 3
  (buf₁, i₁, j) ← move_path (suc n) n a.buf i 0
  buf₂ ← store buf₁ j 0
  i₂ ← skip_blanks (suc n) n buf₂ i₁
  (http₁, k) ← copy_http (suc n) n buf₂ a.http i₂ 0
  http₂ ← store http₁ k 0
  some (record a { buf = buf₂; http = http₂ })

-- `sprintf` of a text into an array: the text and a 0 at the start of it, if they fit.
abbrev pub sprintf : List ℕ → List ℕ → Option (List ℕ)
sprintf buf text =
    if ltb (length text) (length buf) then some (text ++ (0 ∷ drop (length text + 1) buf)) else none

abbrev starts_with : List ℕ → List ℕ → Bool
starts_with [] s = true
starts_with (p ∷ ps) [] = false
starts_with (p ∷ ps) (c ∷ s) = p == c && starts_with ps s

-- `strstr (s, p) != NULL`
abbrev pub contains : List ℕ → List ℕ → Bool
contains p [] = starts_with p []
contains p (c ∷ s) = starts_with p (c ∷ s) || contains p s

-- The path of the file: `strcmp (buf, "/") == 0` holds if the string is that one character.
unfoldable pub file_path : List ℕ → List ℕ
file_path (c ∷ []) = web_path ++ (if c == b'/' then codes "/index.html" else c ∷ [])
file_path s = web_path ++ s

unfoldable pub content_type : List ℕ → List ℕ
content_type path =
    if contains (codes "jpg") path
    then codes "image/jpg"
    else if contains (codes "png") path
    then codes "image/png"
    else codes "text/html"

-- The header of an answer, the status given.
abbrev pub header : List ℕ → List ℕ → List ℕ → List ℕ
header http status kind =
    http ++ (status ++ (codes "\r\nContent-Type: " ++ (kind ++ codes "\r\n\r\n")))

-- `read` of the bytes `bs` to the start of an array.
abbrev pub read_into : List ℕ → List ℕ → List ℕ
read_into buf bs = bs ++ drop (length bs) buf

abbrev pub read_all : List ℕ → List (List ℕ) → List ℕ
read_all buf [] = buf
read_all buf (bs ∷ pieces) = read_all (read_into buf bs) pieces

-- What comes before the `read` of no bytes that ends the loop.
pub up_to_end : List (List ℕ) → List (List ℕ)
up_to_end [] = []
up_to_end ([] ∷ pieces) = []
up_to_end ((c ∷ cs) ∷ pieces) = (c ∷ cs) ∷ up_to_end pieces

-- The branch of a file that was opened: what is written to the connection, chunk by chunk, and
-- `buf`. The pieces are what `read` returns of the file, up to no bytes, or to an error behind the last.
pub send_file : List ℕ → List ℕ → List ℕ → List (List ℕ) → Option (List (List ℕ) × List ℕ)
unfolding up_to_end
send_file buf http kind pieces = do
  buf₁ ← sprintf buf (header http (codes " 200 OK") kind)
  let read = up_to_end pieces
  some (buf₁ ∷ read, read_all buf₁ read)

-- The branch of a file that was not.
pub send_missing : List ℕ → List ℕ → List ℕ → Option (List (List ℕ) × List ℕ)
send_missing buf http kind = do
  buf₁ ← sprintf buf (header http (codes " 404 Not Found") kind)
  buf₂ ← sprintf buf₁ (codes "<html><body>request file not found</body></html>\r\n")
  some (buf₁ ∷ buf₂ ∷ [], buf₂)

-- The branches on `fd > 0`.
pub send : List ℕ → List ℕ → List ℕ → Option ℕ → List (List ℕ) → Option (List (List ℕ) × List ℕ)
unfolding send_file send_missing
send buf http kind none pieces = send_missing buf http kind
send buf http kind (some k) pieces =
    if ltb 0 k then send_file buf http kind pieces else send_missing buf http kind

-- The rest of the body of the `if`. What `open` returns is an argument (`none` for -1).
pub answer : Arrays → Option ℕ → List (List ℕ) → Option (List (List ℕ) × Arrays)
unfolding file_path content_type send
answer a fd pieces = do
  path ← sprintf a.path (file_path (to_nul a.buf))
  kind ← sprintf a.kind (content_type (to_nul path))
  (chunks, buf₁) ← send a.buf (to_nul a.http) (to_nul kind) fd pieces
  buf₂ ← sprintf buf₁ (codes "FIN\n")
  some
      (chunks ++ (to_nul buf₂ ∷ []), record { buf = buf₂; http = a.http; path = path; kind = kind })

-- What happens on a connection: bytes come, and then `open` and the reads of the file return what
-- they return; or `read` returns -1.
pub data Event : Type 0 where
  request : List ℕ → Option ℕ → List (List ℕ) → Event
  read_error : Event

-- A round of the `while` loop that reads at least a byte: what is written, and the arrays.
pub serve : Arrays → List ℕ → Option ℕ → List (List ℕ) → Option (List (List ℕ) × Arrays)
unfolding parse_request answer
serve a bs fd pieces = do
  let a₁ = record a { buf = read_into a.buf bs }
  let parsed = do a₂ ← parse_request (length bs) a₁; answer a₂ fd pieces
  if is_get (length bs) a₁.buf then parsed else some ([], a₁)

-- `server`: what it writes until the other side closes (no bytes) or no more event comes. After an
-- error of `read` the loop goes on.
pub server : Arrays → List Event → Option (List (List ℕ))
unfolding serve
server a [] = some []
server a (request [] fd pieces ∷ es) = some []
server a (request (b ∷ bs) fd pieces ∷ es) = do
  (chunks, a') ← serve a (b ∷ bs) fd pieces
  more ← server a' es
  some (chunks ++ more)
server a (read_error ∷ es) = server a es

-- The request that Webclient.c sends for a line: `GET %s HTTP/1.1\r\n\r\n`.
pub request_of : List ℕ → List ℕ
request_of input = codes "GET " ++ (input ++ codes " HTTP/1.1\r\n\r\n")
