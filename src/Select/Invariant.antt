-- ===== src/Select/Invariant.antt =====
-- The invariant of the server of LinuxC/socket/TCP/server.c: its descriptor set, its bounds and its
-- array of connections.
use linux_note.Base.{
  ℕ, zero, suc, ◌+◌, ◌≤◌, ◌<◌, ◌≡◌, refl, sym, ap, ◌∙◌, ◌≢◌, ◌⊎◌, inl, inr, Bool, false, ◌||◌,
  Option, none, some, List, [], ◌∷◌, arith, ltb, ◌==◌, if◌then◌else◌, Bool-cases, length, ◌>>=◌,
}
use mathlib.Core.Path.{subst}
use linux_note.Select.{
  fd_setsize, Server, with_fd, fd_set, save, place, Connected, too_many, out_of_set, joined,
  connect,
}

-- The connections in the array hold a descriptor.
abbrev pub has : ℕ → List (Option ℕ) → Bool
has fd [] = false
has fd (none ∷ cl) = has fd cl
has fd (some x ∷ cl) = x == fd || has fd cl

abbrev pub Distinct : List (Option ℕ) → Type 0
Distinct [] = Unit {0}
Distinct (none ∷ cl) = Distinct cl
Distinct (some x ∷ cl) = (has x cl ≡ false) × Distinct cl

abbrev pub AllBelow : ℕ → List (Option ℕ) → Type 0
AllBelow m [] = Unit {0}
AllBelow m (none ∷ cl) = AllBelow m cl
AllBelow m (some x ∷ cl) = (x ≤ m) × AllBelow m cl

-- From index `k` on the slots are free.
abbrev pub FreeFrom : ℕ → List (Option ℕ) → Type 0
FreeFrom k [] = Unit {0}
FreeFrom zero (none ∷ cl) = FreeFrom zero cl
FreeFrom zero (some x ∷ cl) = ⊥
FreeFrom (suc k) (x ∷ cl) = FreeFrom k cl

-- The set holds the listening descriptor and those of the connections, and no other; these are all
-- different, at most `maxfd`, which is inside the set, and in slots up to `maxi`.
pub record Inv (listenfd : ℕ) (s : Server) : Type 0 where
  pub size : length s.client ≡ fd_setsize
  pub watched : (fd : ℕ) → s.allset fd ≡ (fd == listenfd || has fd s.client)
  pub distinct : Distinct s.client
  pub fresh : has listenfd s.client ≡ false
  pub below : AllBelow s.maxfd s.client
  pub listening : listenfd ≤ s.maxfd
  pub in_set : s.maxfd < fd_setsize
  pub free : FreeFrom s.bound s.client

-- What `save` makes of the array.
record Saved (connfd m : ℕ) (cl cl' : List (Option ℕ)) (i bound : ℕ) : Type 0 where
  size : length cl' ≡ length cl
  holds : (fd : ℕ) → has fd cl' ≡ (fd == connfd || has fd cl)
  distinct : has connfd cl ≡ false → Distinct cl → Distinct cl'
  below : connfd ≤ m → AllBelow m cl → AllBelow m cl'
  free : FreeFrom bound cl → FreeFrom (if ltb i bound then bound else i + 1) cl'

abbrev SavedIn : (connfd m bound : ℕ) → List (Option ℕ) → Option (List (Option ℕ) × ℕ) → Type 0
SavedIn connfd m bound cl none = Unit {0}
SavedIn connfd m bound cl (some (cl', i)) = Saved connfd m cl cl' i bound

bound-suc :
    (i k : ℕ)
    → (if ltb (i + 1) (suc k) then suc k else i + 1 + 1) ≡ suc (if ltb i k then k else i + 1)
bound-suc i k = ground arith

module _ (connfd m x k : ℕ) (cl : List (Option ℕ)) where
  free-cons :
      (bound i : ℕ) (cl' : List (Option ℕ))
      → (bound ≡ suc k) ⊎ (bound ≡ 0)
      → (FreeFrom k cl → FreeFrom (if ltb i k then k else i + 1) cl')
      → FreeFrom bound (some x ∷ cl)
      → FreeFrom (if ltb (i + 1) bound then bound else i + 1 + 1) (some x ∷ cl')
  free-cons zero i cl' b keep h = elim h [ ]
  free-cons (suc l) i cl' (inl e) keep h =
      let same : l ≡ k = omega arith in
      subst (λ n. FreeFrom n (some x ∷ cl')) (sym (bound-suc i l))
        (rw (sym same) at (keep (rw same at h)))
  free-cons (suc l) i cl' (inr e) keep h = absurd (omega arith)

  SavedIn-cons :
      (bound : ℕ) (o : Option (List (Option ℕ) × ℕ))
      → (bound ≡ suc k) ⊎ (bound ≡ 0)
      → SavedIn connfd m k cl o
      → SavedIn connfd m bound (some x ∷ cl) (do (cl', i) ← o; some (some x ∷ cl', i + 1))
  SavedIn-cons bound none b ih = tt
  SavedIn-cons bound (some (cl', i)) b ih = record {
    size = ap suc ih.size;
    holds = λ fd. ground (arith, ih.holds fd);
    distinct = λ out d. (ground (arith, ih.holds x), ih.distinct (ground arith) d.1);
    below = λ c h. (h.0, ih.below c h.1);
    free = free-cons bound i cl' b ih.free;
  }

free-first :
    (connfd bound : ℕ) (cl : List (Option ℕ))
    → FreeFrom bound (none ∷ cl)
    → FreeFrom (if ltb 0 bound then bound else 1) (some connfd ∷ cl)
free-first connfd zero cl h = h
free-first connfd (suc k) cl h =
    let same : suc k ≡ (if ltb 0 (suc k) then suc k else 1) = ground arith in
    subst (λ n. FreeFrom n (some connfd ∷ cl)) same h

save-Saved :
    (connfd m bound : ℕ) (cl : List (Option ℕ)) → SavedIn connfd m bound cl (save connfd cl)
unfolding save
save-Saved connfd m bound [] = tt
save-Saved connfd m bound (none ∷ cl) = record {
  size = refl;
  holds = λ fd. ground arith;
  distinct = λ out d. (out, d);
  below = λ c h. (c, h);
  free = free-first connfd bound cl;
}
save-Saved connfd m zero (some x ∷ cl) =
    SavedIn-cons connfd m x 0 cl 0 (save connfd cl) (inr refl) (save-Saved connfd m 0 cl)
save-Saved connfd m (suc k) (some x ∷ cl) =
    SavedIn-cons connfd m x k cl (suc k) (save connfd cl) (inl refl) (save-Saved connfd m k cl)

AllBelow-mono : (m m' : ℕ) (cl : List (Option ℕ)) → m ≤ m' → AllBelow m cl → AllBelow m' cl
AllBelow-mono m m' [] le h = tt
AllBelow-mono m m' (none ∷ cl) le h = AllBelow-mono m m' cl le h
AllBelow-mono m m' (some x ∷ cl) le h = (omega (arith, h.0), AllBelow-mono m m' cl le h.1)

place-Inv :
    (listenfd connfd : ℕ) (s : Server) (cl : List (Option ℕ)) (i : ℕ)
    → Inv listenfd s
    → connfd < fd_setsize
    → connfd ≢ listenfd
    → has connfd s.client ≡ false
    → Saved connfd (if ltb s.maxfd connfd then connfd else s.maxfd) s.client cl i s.bound
    → Inv listenfd (place connfd s (with_fd connfd s.allset) cl i)
place-Inv listenfd connfd s cl i inv small new unused saved = record {
  size = saved.size ∙ inv.size;
  watched = λ fd. ground (arith, saved.holds fd, inv.watched fd);
  distinct = saved.distinct unused inv.distinct;
  fresh = ground (arith, saved.holds listenfd, inv.fresh);
  below = saved.below (ground arith) (
      AllBelow-mono s.maxfd (if ltb s.maxfd connfd then connfd else s.maxfd) s.client (ground arith)
        inv.below);
  listening = ground (arith, inv.listening);
  in_set = ground (arith, inv.in_set, small);
  free = saved.free inv.free;
}

joined_eq : {s t : Server} → joined s ≡ joined t → s ≡ t
joined_eq e = cc

connect-from :
    (listenfd connfd : ℕ) (s s' : Server) (o : Option (List (Option ℕ) × ℕ))
    → Inv listenfd s
    → connfd ≢ listenfd
    → has connfd s.client ≡ false
    → SavedIn connfd (if ltb s.maxfd connfd then connfd else s.maxfd) s.bound s.client o
    → elim o as (λ o. Connected) [
      | none ↦ too_many
      | some (cl, i) ↦ elim (fd_set connfd s.allset) as (λ o. Connected) [
        | none ↦ out_of_set
        | some allset' ↦ joined (place connfd s allset' cl i)
      ]
    ]
      ≡ joined s'
    → Inv listenfd s'
connect-from listenfd connfd s s' none inv new unused saved e = cc
connect-from listenfd connfd s s' (some (cl, i)) inv new unused saved e =
    elim (Bool-cases (ltb connfd fd_setsize)) [
      | inl small ↦
          subst (Inv listenfd) (joined_eq (rw (small) at e))
            (place-Inv listenfd connfd s cl i inv (ground (arith, small)) new unused saved)
      | inr big ↦ let overruns : out_of_set ≡ joined s' = rw (big) at e in cc
    ]

-- A new connection, whose descriptor is not in use, keeps the invariant.
pub connect-Inv :
    (listenfd connfd : ℕ) (s s' : Server)
    → Inv listenfd s
    → connfd ≢ listenfd
    → has connfd s.client ≡ false
    → connect connfd s ≡ joined s'
    → Inv listenfd s'
unfolding connect
connect-Inv listenfd connfd s s' inv new unused e =
    connect-from listenfd connfd s s' (save connfd s.client) inv new unused
      (save-Saved connfd (if ltb s.maxfd connfd then connfd else s.maxfd) s.bound s.client) e
