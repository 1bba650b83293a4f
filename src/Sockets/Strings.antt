-- ===== src/Sockets/Strings.antt =====
-- C strings that pass `Send` and `Recv` of bite/socket/TCPsocket.hpp, and port numbers in network order.
use linux_note.Base.{
  ℕ, zero, suc, ◌-◌, ◌^◌, ◌<◌, ◌≡◌, refl, ap, ◌∙◌, ◌≢◌, inl, inr, true, some, List, [], ◌∷◌, ◌++◌,
  arith, ◌==◌, Bool-cases, length, replicate, to_nul,
}
use linux_note.Select.{bytes}
use linux_note.Sockets.{htons, call_recv, TcpSocket, bufsiz, c_string, recv}

pub c_string-zeros : (b : List ℕ) (n : ℕ) → 0 < n → c_string (b ++ replicate n 0) ≡ some (to_nul b)
unfolding c_string
c_string-zeros [] zero h = absurd (omega (arith, h))
c_string-zeros [] (suc n) h = refl
c_string-zeros (c ∷ b) n h = elim (Bool-cases (c == 0)) [
  | inl e ↦ rw (e) refl
  | inr e ↦ rw (e, c_string-zeros b n h) refl
]

pub to_nul-append : (b t : List ℕ) → to_nul (to_nul b ++ 0 ∷ t) ≡ to_nul b
to_nul-append [] t = refl
to_nul-append (c ∷ b) t = elim (Bool-cases (c == 0)) [
  | inl e ↦ rw (e) refl
  | inr e ↦ rw (e, e) (ap (λ l. c ∷ l) (to_nul-append b t))
]

to_nul_idem : (b : List ℕ) → to_nul (to_nul b) ≡ to_nul b
to_nul_idem [] = refl
to_nul_idem (c ∷ b) = elim (Bool-cases (c == 0)) [
  | inl e ↦ rw (e) refl
  | inr e ↦ rw (e, e) (ap (λ l. c ∷ l) (to_nul_idem b))
]

-- A message that is not empty and shorter than the buffer arrives as the C string that it starts with.
pub recv_lem :
    (s : TcpSocket) (buf : List ℕ) (c : ℕ) (cs : List ℕ)
    → length (c ∷ cs) < bufsiz
    → recv s buf (bytes (c ∷ cs)) ≡ some (to_nul (c ∷ cs), call_recv s.m_socket bufsiz, true)
unfolding recv
recv_lem s buf c cs h =
    rw (c_string-zeros (c ∷ cs) (bufsiz - length (c ∷ cs)) (omega (arith, h))) refl

-- What `Send` can pass on in one message that `Recv` takes.
abbrev pub IsMessage : List ℕ → Type 0
IsMessage w = (to_nul w ≢ []) × (length (to_nul w) < bufsiz)

whole_lem :
    (s : TcpSocket) (buf b : List ℕ)
    → b ≢ []
    → length b < bufsiz
    → recv s buf (bytes b) ≡ some (to_nul b, call_recv s.m_socket bufsiz, true)
whole_lem s buf [] some_byte short = absurd (some_byte refl)
whole_lem s buf (c ∷ cs) some_byte short = recv_lem s buf c cs short

-- The whole message arrives.
pub message_lem :
    (s : TcpSocket) (buf w : List ℕ)
    → IsMessage w
    → recv s buf (bytes (to_nul w)) ≡ some (to_nul w, call_recv s.m_socket bufsiz, true)
message_lem s buf w (some_byte, short) =
    whole_lem s buf (to_nul w) some_byte short
    ∙ ap (λ t. some (t, call_recv s.m_socket bufsiz, true)) (to_nul_idem w)

pub htons_involutive : (p : ℕ) → p < 2 ^ 16 → htons (htons p) ≡ p
unfolding htons
htons_involutive p h = omega (arith, h)
