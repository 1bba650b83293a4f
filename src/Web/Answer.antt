-- ===== src/Web/Answer.antt =====
-- `server` of LinuxC/socket/Webserver/Webserver.c over the requests of Webclient.c.
use linux_note.Base.{
  ℕ, ◌+◌, ◌≤◌, ◌≡◌, refl, ap, ◌∙◌, true, Option, some, List, [], ◌∷◌, ◌++◌, append_assoc, arith,
  length, drop, length-append, length-drop, blank,
}
use linux_note.Web.{
  max_line, codes, Arrays, is_get, read_into, Event, request, read_error, serve, server, request_of,
}
use linux_note.Web.Parse.{IsPath, version, Parsed, parse_request_get}
use linux_note.Web.Fits.{IsSized}
use linux_note.Web.Branches.{AllFit, Reply, Answers, answer_lem}

-- What follows a request in the buffer, from behind its first carriage return on.
abbrev behind : List ℕ → List ℕ → List ℕ
behind p buf = 10 ∷ 13 ∷ 10 ∷ drop (length (request_of p)) buf

request_in_buffer :
    (p buf : List ℕ)
    → (read_into buf (request_of p)
        ≡ codes "GET " ++ (p ++ (blank ∷ (version ++ (13 ∷ behind p buf)))))
      × (length (request_of p) ≡ length p + 17)
unfolding request_of
request_in_buffer p buf =
    let size : length (codes "GET " ++ (p ++ codes " HTTP/1.1\r\n\r\n")) ≡ length p + 17 =
      omega (arith, length-append p (codes " HTTP/1.1\r\n\r\n")) in
    (
      ap (λ l. codes "GET " ++ l)
          (append_assoc p (codes " HTTP/1.1\r\n\r\n") (drop (length (request_of p)) buf)),
      size,
    )

serve_get :
    (a : Arrays) (q : List ℕ) (fd : Option ℕ) (pieces : List (List ℕ))
    → IsSized a
    → IsPath q
    → length q ≤ 181
    → AllFit pieces
    → Answers (b'/' ∷ q) fd pieces (serve a (request_of (b'/' ∷ q)) fd pieces)
unfolding Answers Parsed serve
serve_get a q fd pieces sized path short fit =
    let p : List ℕ = b'/' ∷ q in
    let (placed, size) = request_in_buffer p a.buf in
    let buf = read_into a.buf (request_of p) in
    let n = length (request_of p) in
    let a₁ : Arrays = record a { buf = buf } in
    let got : is_get n buf ≡ true = rw placed (ground (arith, size)) in
    let (b, parsed, p_e, http_e, buf_size, http_size, path_same, kind_same) =
      parse_request_get a₁ p (behind p a.buf) n (λ e. cc) (refl, refl, path)
        (omega (arith, sized.http)) placed size in
    let buf_sized : length buf ≡ max_line =
      omega (
        arith,
        size,
        sized.buf,
        length-append (request_of p) (drop n a.buf),
        length-drop n a.buf,
      ) in
    let (chunks, a₂, answered, sized₂, reply) =
      answer_lem b p fd pieces
        (record {
          buf = buf_size ∙ buf_sized;
          http = http_size ∙ sized.http;
          path = ap length path_same ∙ sized.path;
          kind = ap length kind_same ∙ sized.kind;
        })
        (refl, refl, path) (omega arith) p_e http_e fit in
    (chunks, a₂, rw (got, parsed) answered, sized₂, reply)

-- The events of a connection with the client: each request is that of a line which starts with a
-- `/` and has no blank or 0 in it, of at most 182 characters, and is read whole; each `read`
-- of a file before its end returns some bytes, and at most as many as it is asked for.
abbrev pub Asks : List Event → Type 0
Asks [] = Unit {0}
Asks (request bs fd pieces ∷ es) =
    ((q : List ℕ) × (bs ≡ request_of (b'/' ∷ q)) × IsPath q × (length q ≤ 181))
    × AllFit pieces
    × Asks es
Asks (read_error ∷ es) = Asks es

-- What is written holds the answer to each request, in order.
abbrev pub Replies : List Event → List (List ℕ) → Type 0
Replies [] out = out ≡ []
Replies (request bs fd pieces ∷ es) out =
    (q : List ℕ) × (chunks rest : List (List ℕ)) × (bs ≡ request_of (b'/' ∷ q))
    × Reply (b'/' ∷ q) fd pieces chunks
    × (out ≡ chunks ++ rest)
    × Replies es rest
Replies (read_error ∷ es) out = Replies es out

server-request :
    (a a' : Arrays) (q : List ℕ) (fd : Option ℕ) (pieces : List (List ℕ)) (es : List Event)
    (chunks rest : List (List ℕ))
    → serve a (request_of (b'/' ∷ q)) fd pieces ≡ some (chunks, a')
    → server a' es ≡ some rest
    → server a (request (request_of (b'/' ∷ q)) fd pieces ∷ es) ≡ some (chunks ++ rest)
unfolding server request_of
server-request a a' q fd pieces es chunks rest served later = rw (served, later) refl

-- Over the requests that Webclient.c sends, for paths of at most 182 bytes without blank and 0, and pieces
-- of a file that fit in `buf`, `server` makes no access out of bounds, and writes for each in order the
-- answer: a header, the pieces of the file and `FIN`, or the page of 404.
pub server_answers :
    (a : Arrays) (es : List Event)
    → IsSized a
    → Asks es
    → (out : List (List ℕ)) × (server a es ≡ some out) × Replies es out
unfolding server Answers
server_answers a [] sized asks = ([], refl, refl)
server_answers a (read_error ∷ es) sized asks = server_answers a es sized asks
server_answers a (request bs fd pieces ∷ es) sized asks =
    let (q, bs_e, path, short) = asks.0 in
    let (chunks, a', served, sized', reply) = serve_get a q fd pieces sized path short asks.1 in
    let (rest, later, replies) = server_answers a' es sized' asks.2 in
    (
      chunks ++ rest,
      ap (λ l. server a (request l fd pieces ∷ es)) bs_e
          ∙ server-request a a' q fd pieces es chunks rest served later,
      (q, chunks, rest, bs_e, reply, refl, replies),
    )
