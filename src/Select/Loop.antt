-- ===== src/Select/Loop.antt =====
-- The second loop of LinuxC/socket/TCP/server.c, over the connections.
use linux_note.Base.{
  ℕ, zero, suc, ◌-◌, ◌^◌, ◌<◌, ◌≡◌, refl, ap, inl, inr, Bool, true, false, ◌&&◌, ◌||◌, Option, none,
  some, List, [], ◌∷◌, map, arith, ltb, ◌==◌, if◌then◌else◌, Bool-cases, length,
}
use linux_note.Select.{
  fd_setsize, Reading, failed, bytes, Effect, close, write, to_upper, fd_clr, Round, attend,
  check_slot, check,
}
use linux_note.Select.Invariant.{has, Distinct, AllBelow, FreeFrom}

-- The other watched descriptors, `others`, and those of the rest `cl` of the array.
pub record Part (others : ℕ → Bool) (m : ℕ) (cl : List (Option ℕ)) (allset : ℕ → Bool)
    : Type 0 where
  pub watched : (fd : ℕ) → allset fd ≡ (others fd || has fd cl)
  pub apart : (fd : ℕ) → others fd ≡ true → has fd cl ≡ false
  pub distinct : Distinct cl
  pub below : AllBelow m cl

pub record Kept (others : ℕ → Bool) (m : ℕ) (cl : List (Option ℕ)) (r : Round) : Type 0 where
  pub part : Part others m r.client r.allset
  pub size : length r.client ≡ length cl
  pub fewer : (fd : ℕ) → has fd r.client ≡ true → has fd cl ≡ true
  pub free : (k : ℕ) → FreeFrom k cl → FreeFrom k r.client

module _ (others : ℕ → Bool) (m : ℕ) (cl : List (Option ℕ)) where
  free-none :
      (cl' : List (Option ℕ))
      → ((k : ℕ) → FreeFrom k cl → FreeFrom k cl')
      → (k : ℕ) → FreeFrom k (none ∷ cl)
      → FreeFrom k (none ∷ cl')
  free-none cl' h zero f = h 0 f
  free-none cl' h (suc k) f = h k f

  Kept-none :
      (r : Round)
      → Kept others m cl r
      → Kept others m (none ∷ cl) (record r { client = none ∷ r.client })
  Kept-none r kept = record {
    part = record {
      watched = kept.part.watched;
      apart = kept.part.apart;
      distinct = kept.part.distinct;
      below = kept.part.below;
    };
    size = ap suc kept.size;
    fewer = kept.fewer;
    free = free-none r.client kept.free;
  }

  module _ (x : ℕ) where
    -- The slot of `x` counts as one of the others for the rest of the array.
    abbrev with_slot : ℕ → Bool
    with_slot fd = others fd || x == fd

    Part-slot :
        (allset : ℕ → Bool) → Part others m (some x ∷ cl) allset → Part with_slot m cl allset
    Part-slot allset part = record {
      watched = λ fd. ground (arith, part.watched fd);
      apart = λ fd h. ground (arith, part.apart fd, part.distinct);
      distinct = part.distinct.1;
      below = part.below.1;
    }

    Part-clr :
        (allset : ℕ → Bool)
        → Part others m (some x ∷ cl) allset
        → Part others m cl (fd_clr x allset)
    Part-clr allset part = record {
      watched = λ fd. ground (arith, part.watched fd, part.apart fd, part.distinct);
      apart = λ fd h. ground (arith, part.apart fd);
      distinct = part.distinct.1;
      below = part.below.1;
    }

    free-some :
        (slot : Option ℕ) (cl' : List (Option ℕ))
        → ((k : ℕ) → FreeFrom k cl → FreeFrom k cl')
        → (k : ℕ) → FreeFrom k (some x ∷ cl)
        → FreeFrom k (slot ∷ cl')
    free-some slot cl' h zero f = elim f [ ]
    free-some slot cl' h (suc k) f = h k f

    Kept-slot :
        (allset : ℕ → Bool) (r : Round) (es : List Effect) (b : Bool)
        → Part others m (some x ∷ cl) allset
        → Kept with_slot m cl r
        → Kept others m
            (some x ∷ cl)
            (record { client = some x ∷ r.client; allset = r.allset; effects = es; in_set = b })
    Kept-slot allset r es b part kept = record {
      part = record {
        watched = λ fd. ground (arith, kept.part.watched fd);
        apart = λ fd h. ground (arith, kept.part.apart fd, part.apart fd);
        distinct = (ground (arith, kept.part.apart x), kept.part.distinct);
        below = (part.below.0, kept.part.below);
      };
      size = ap suc kept.size;
      fewer = λ fd h. ground (arith, kept.fewer fd);
      free = free-some (some x) r.client kept.free;
    }

    Kept-clr :
        (r : Round) (es : List Effect) (b : Bool)
        → Kept others m cl r
        → Kept others m
            (some x ∷ cl)
            (record { client = none ∷ r.client; allset = r.allset; effects = es; in_set = b })
    Kept-clr r es b kept = record {
      part = record {
        watched = kept.part.watched;
        apart = kept.part.apart;
        distinct = kept.part.distinct;
        below = kept.part.below;
      };
      size = ap suc kept.size;
      fewer = λ fd h. ground (arith, kept.fewer fd);
      free = free-some none r.client kept.free;
    }

Kept-same :
    (others : ℕ → Bool) (m : ℕ) (cl : List (Option ℕ)) (allset : ℕ → Bool) (es : List Effect)
    (b : Bool)
    → Part others m cl allset
    → Kept others m cl (record { client = cl; allset = allset; effects = es; in_set = b })
Kept-same others m cl allset es b part = record {
  part = part;
  size = refl;
  fewer = λ fd h. h;
  free = λ k h. h;
}

Kept-in_set :
    (others : ℕ → Bool) (m : ℕ) (cl : List (Option ℕ)) (r : Round) (b : Bool)
    → Kept others m cl r
    → Kept others m cl (record r { in_set = b })
Kept-in_set others m cl r b kept = record {
  part = kept.part;
  size = kept.size;
  fewer = kept.fewer;
  free = kept.free;
}

-- A slot in use, with the rest of the loop given by what it keeps.
module _ (others : ℕ → Bool) (m x nready : ℕ) (cl : List (Option ℕ)) (allset : ℕ → Bool)
    (part : Part others m (some x ∷ cl) allset) (more : ℕ → (ℕ → Bool) → Round)
    (later : (n : ℕ) (a o : ℕ → Bool) → Part o m cl a → Kept o m cl (more n a)) where
  Kept-stay :
      (e : Effect)
      → Kept others m (some x ∷ cl) (
          if nready == 1
          then record { client = some x ∷ cl; allset = allset; effects = e ∷ []; in_set = true }
          else (let r = more (nready - 1) allset in
              record r { client = some x ∷ r.client; effects = e ∷ r.effects }))
  Kept-stay e = elim (Bool-cases (nready == 1)) [
    | inl last ↦ rw last (Kept-same others m (some x ∷ cl) allset (e ∷ []) true part)
    | inr on ↦
        let r = more (nready - 1) allset in
        rw on (
          Kept-slot others m cl x allset r (e ∷ r.effects) r.in_set part (
            later (nready - 1) allset (with_slot others m cl x)
              (Part-slot others m cl x allset part)))
  ]

  Kept-some :
      (b : Bool) (reading : Reading)
      → Kept others m (some x ∷ cl) (check_slot b reading nready x more cl allset)
  unfolding check_slot attend
  Kept-some false reading =
      let r = more nready allset in
      Kept-slot others m cl x allset r r.effects r.in_set part
        (later nready allset (with_slot others m cl x) (Part-slot others m cl x allset part))
  Kept-some true failed = Kept-stay (write x (2 ^ 64 - 1) [])
  Kept-some true (bytes (c ∷ cs)) = Kept-stay (write x (length (c ∷ cs)) (map to_upper (c ∷ cs)))
  Kept-some true (bytes []) =
      let cleared = Part-clr others m cl x allset part in
      let same = Kept-same others m cl (fd_clr x allset) [] true cleared in
      elim (Bool-cases (nready == 1)) [
        | inl last ↦ rw last (
            Kept-clr others m cl x
              (record { client = cl; allset = fd_clr x allset; effects = []; in_set = true })
              (close x ∷ []) true same)
        | inr on ↦
            let r = more (nready - 1) (fd_clr x allset) in
            rw on (
              Kept-clr others m cl x r (close x ∷ r.effects) r.in_set
                (later (nready - 1) (fd_clr x allset) others cleared))
      ]

-- The second loop keeps the array, the set and the bounds in agreement.
pub check-Kept :
    (ready : ℕ → Bool) (reads : ℕ → Reading) (left nready m : ℕ) (cl : List (Option ℕ))
    (allset others : ℕ → Bool)
    → Part others m cl allset
    → Kept others m cl (check ready reads left nready cl allset)
unfolding check
check-Kept ready reads zero nready m cl allset others part =
    Kept-same others m cl allset [] true part
check-Kept ready reads (suc left) nready m [] allset others part =
    Kept-same others m [] allset [] true part
check-Kept ready reads (suc left) nready m (none ∷ cl) allset others part =
    Kept-none others m cl (check ready reads left nready cl allset) (
      check-Kept ready reads left nready m cl allset others (record {
        watched = part.watched;
        apart = part.apart;
        distinct = part.distinct;
        below = part.below;
      }))
check-Kept ready reads (suc left) nready m (some x ∷ cl) allset others part =
    let more = λ (n : ℕ) (a : ℕ → Bool). check ready reads left n cl a in
    let r = check_slot (ready x) (reads x) nready x more cl allset in
    Kept-in_set others m (some x ∷ cl) r (ltb x fd_setsize && r.in_set) (
      Kept-some others m x nready cl allset part more
        (λ n a o. check-Kept ready reads left n m cl a o) (ready x) (reads x))

-- With descriptors inside the set the loop stays inside.
pub check-in_set :
    (ready : ℕ → Bool) (reads : ℕ → Reading) (left nready m : ℕ) (cl : List (Option ℕ))
    (allset : ℕ → Bool)
    → m < fd_setsize
    → AllBelow m cl
    → (check ready reads left nready cl allset).in_set ≡ true
unfolding check check_slot
check-in_set ready reads zero nready m cl allset small below = refl
check-in_set ready reads (suc left) nready m [] allset small below = refl
check-in_set ready reads (suc left) nready m (none ∷ cl) allset small below =
    check-in_set ready reads left nready m cl allset small below
check-in_set ready reads (suc left) nready m (some fd ∷ cl) allset small below = ground (
  arith,
  check-in_set ready reads left nready m cl allset small below.1,
  check-in_set ready reads left (nready - 1) m cl (attend fd (reads fd) allset).1 small below.1,
)
