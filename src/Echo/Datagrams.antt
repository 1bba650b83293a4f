-- ===== src/Echo/Datagrams.antt =====
-- The client of LinuxC/socket/UDP/client.c with the server of LinuxC/socket/UDP/server.c.
use linux_note.Base.{
  ℕ, zero, suc, ◌+◌, ◌<◌, ◌≡◌, refl, ap, false, some, List, [], ◌∷◌, ◌++◌, map, arith, ◌==◌, length,
  take, drop, length-append, drop-append, length-drop,
}
use linux_note.Select.{Reading, failed, bytes, to_upper}
use linux_note.Shell.Words.{NoNul, to_nul-append}
use linux_note.Echo.{max_line, Datagram, sends, perr, udp_serve, udp_ask}

-- What `recvfrom` returns in the client for what the server does.
abbrev reply : Datagram → Reading
reply (sends b) = bytes b
reply perr = failed

to_upper-zero : (c : ℕ) → (c == 0) ≡ false → (to_upper c == 0) ≡ false
unfolding to_upper
to_upper-zero c h = ground (arith, h)

pub NoNul-capitals : (s : List ℕ) → NoNul s → NoNul (map to_upper s)
NoNul-capitals [] h = tt
NoNul-capitals (c ∷ s) h = (to_upper-zero c h.0, NoNul-capitals s h.1)

pub length-capitals : (s : List ℕ) → length (map to_upper s) ≡ length s
length-capitals [] = refl
length-capitals (c ∷ s) = ap suc (length-capitals s)

take-capitals : (s rest : List ℕ) → take (length (s ++ rest)) (map to_upper s) ≡ map to_upper s
take-capitals [] rest = take-nil (length rest)
  where
    take-nil : (n : ℕ) → take {A = ℕ} n [] ≡ []
    take-nil zero = refl
    take-nil (suc n) = refl
take-capitals (c ∷ s) rest = ap (λ l. to_upper c ∷ l) (take-capitals s rest)

-- With the server's answer, the client prints its line in capitals, whatever the buffer held before:
-- the 0 that `fgets` put behind the line ends the answer, which has no end of its own. The buffer keeps
-- its length if the line fits.
ask_lem :
    (buf line : List ℕ)
    → NoNul line
    → length buf ≡ max_line
    → length line < max_line
    → (got : List ℕ) × (length got ≡ max_line)
      × (udp_ask buf line (λ sent. reply (udp_serve (bytes sent))) ≡ some (got, map to_upper line))
unfolding udp_ask udp_serve
ask_lem buf line clean size short =
    let tail = drop (length line + 1) buf in
    let back : drop (length (map to_upper line)) (line ++ 0 ∷ tail) ≡ 0 ∷ tail =
      rw (length-capitals line) (drop-append line (0 ∷ tail)) in
    (
      map to_upper line ++ 0 ∷ tail,
      omega (
        arith,
        length-append (map to_upper line) (0 ∷ tail),
        length-capitals line,
        length-drop (length line + 1) buf,
        size,
        short,
      ),
      rw
          (
            to_nul-append line tail clean,
            take-capitals line (0 ∷ tail),
            back,
            to_nul-append (map to_upper line) tail (NoNul-capitals line clean),
          )
          refl,
    )
