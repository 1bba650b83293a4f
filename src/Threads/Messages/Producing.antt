-- ===== src/Threads/Messages/Producing.antt =====
-- The invariant of the programs of LinuxC/pthread/conditionVariable with a list, and the steps of the producer.
use linux_note.Base.{
  ℕ, ◌+◌, ◌%◌, ◌≡◌, refl, ◌≢◌, inl, inr, Bool, true, false, ◌&&◌, ◌||◌, Option, none, some, List,
  [], ◌∷◌, ◌++◌, append-nil, append_assoc, arith, Bool-cases,
}
use mathlib.Core.Path.{subst}
use linux_note.Threads.Messages.{
  Consumer, c_lock, c_test, c_asleep, c_awake, c_take, c_unlock, c_print, Producer, p_make, p_lock,
  p_insert, p_unlock, p_signal, State, wake, produce,
}

-- The number that the consumer has taken and not printed.
abbrev pub in_hand : Consumer → List ℕ
in_hand (c_unlock n) = n ∷ []
in_hand (c_print n) = n ∷ []
in_hand _ = []

-- The number that the producer has printed and not inserted.
abbrev pub in_making : Producer → List ℕ
in_making (p_lock n) = n ∷ []
in_making (p_insert n) = n ∷ []
in_making _ = []

abbrev pub c_inside : Consumer → Bool
c_inside c_test = true
c_inside c_take = true
c_inside (c_unlock n) = true
c_inside _ = false

abbrev pub p_inside : Producer → Bool
p_inside (p_insert n) = true
p_inside p_unlock = true
p_inside _ = false

-- Whether the producer is going to signal before it makes another message.
abbrev is_signalling : Producer → Bool
is_signalling p_unlock = true
is_signalling p_signal = true
is_signalling _ = false

-- What the list and the producer are where the consumer sleeps, or is about to take.
abbrev pub IsAwaited : Consumer → List ℕ → Producer → Type 0
IsAwaited c_asleep (n ∷ head) p = is_signalling p ≡ true
IsAwaited c_take [] p = ⊥
IsAwaited c head p = Unit

-- How what was produced compares to what there is, for an insertion: a relation that it respects.
pub record Keeps (R : List ℕ → List ℕ → Type 0) (insert : List ℕ → ℕ → List ℕ) : Type 0 where
  pub empty : R [] []
  pub append : (l r : List ℕ) (n : ℕ) → R l r → R (l ++ n ∷ []) (r ++ n ∷ [])
  pub inserted : (l a r : List ℕ) (n : ℕ) → R l (a ++ (r ++ n ∷ [])) → R l (a ++ insert r n)
  pub filled : (r : List ℕ) (n : ℕ) → insert r n ≢ []

pub record Inv (R : List ℕ → List ℕ → Type 0) (s : State) : Type 0 where
  pub order : R s.produced (s.consumed ++ in_hand s.consumer ++ s.head ++ in_making s.producer)
  pub holder : s.locked ≡ (c_inside s.consumer || p_inside s.producer)
  pub one_inside : (c_inside s.consumer && p_inside s.producer) ≡ false
  pub awaited : IsAwaited s.consumer s.head s.producer

abbrev pub Holds : (List ℕ → List ℕ → Type 0) → Option State → Type 0
Holds R none = Unit
Holds R (some s) = Inv R s

pub in_hand-wake : (c : Consumer) → in_hand (wake c) ≡ in_hand c
in_hand-wake c = ground arith

pub c_inside-wake : (c : Consumer) → c_inside (wake c) ≡ c_inside c
c_inside-wake c = ground arith

pub IsAwaited-wake :
    (c : Consumer) (l : List ℕ) (p q : Producer) → IsAwaited c l p → IsAwaited (wake c) l q
IsAwaited-wake c_asleep l p q h = tt
IsAwaited-wake c_take [] p q h = h
IsAwaited-wake c_take (n ∷ l) p q h = tt
IsAwaited-wake c_lock l p q h = tt
IsAwaited-wake c_test l p q h = tt
IsAwaited-wake c_awake l p q h = tt
IsAwaited-wake (c_unlock n) l p q h = tt
IsAwaited-wake (c_print n) l p q h = tt

IsAwaited-step :
    (c : Consumer) (l : List ℕ) (p q : Producer)
    → (is_signalling p ≡ true → is_signalling q ≡ true)
    → IsAwaited c l p
    → IsAwaited c l q
IsAwaited-step c_asleep [] p q on h = tt
IsAwaited-step c_asleep (n ∷ l) p q on h = on h
IsAwaited-step c_take [] p q on h = h
IsAwaited-step c_take (n ∷ l) p q on h = tt
IsAwaited-step c_lock l p q on h = tt
IsAwaited-step c_test l p q on h = tt
IsAwaited-step c_awake l p q on h = tt
IsAwaited-step (c_unlock n) l p q on h = tt
IsAwaited-step (c_print n) l p q on h = tt

-- After an insertion.
IsAwaited-filled : (c : Consumer) (l : List ℕ) → l ≢ [] → IsAwaited c l p_unlock
IsAwaited-filled c [] h = absurd (h refl)
IsAwaited-filled c (x ∷ l) h = ground arith

at_end : (a b l : List ℕ) (n : ℕ) → (a ++ b ++ l ++ []) ++ n ∷ [] ≡ a ++ b ++ l ++ n ∷ []
at_end a b l n = simp (append_assoc, append-nil)

grouped : (a b l m : List ℕ) → a ++ b ++ l ++ m ≡ (a ++ b) ++ (l ++ m)
grouped a b l m = simp (append_assoc)

flat : (a b l : List ℕ) → (a ++ b) ++ l ≡ a ++ b ++ l ++ []
flat a b l = simp (append_assoc, append-nil)

pub printed : (a l m : List ℕ) (n : ℕ) → a ++ (n ∷ []) ++ l ++ m ≡ (a ++ n ∷ []) ++ [] ++ l ++ m
printed a l m n = simp (append_assoc, append-nil)

pub taken_first : (a l m : List ℕ) (n : ℕ) → a ++ [] ++ (n ∷ l) ++ m ≡ a ++ (n ∷ []) ++ l ++ m
taken_first a l m n = simp (append_assoc, append-nil)

pub produce-Inv :
    (R : List ℕ → List ℕ → Type 0) (insert : List ℕ → ℕ → List ℕ)
    → Keeps R insert
    → (random : ℕ) (s : State) (at : Producer) → s.producer ≡ at
    → Inv R s
    → Holds R (produce insert random s at)
unfolding produce
produce-Inv R insert keeps random s p_make here inv =
    let made = random % 1000 + 1 in
    let order : R s.produced (s.consumed ++ in_hand s.consumer ++ s.head ++ []) =
      rw (here) at inv.order in
    record {
      order =
          subst (R (s.produced ++ made ∷ [])) (at_end s.consumed (in_hand s.consumer) s.head made)
            (keeps.append s.produced (s.consumed ++ in_hand s.consumer ++ s.head ++ []) made order);
      holder = rw (here) at inv.holder;
      one_inside = rw (here) at inv.one_inside;
      awaited =
          IsAwaited-step s.consumer s.head p_make (p_lock made) (λ h. h) (rw (here) at inv.awaited);
    }
produce-Inv R insert keeps random s (p_lock made) here inv =
    let holder : s.locked ≡ (c_inside s.consumer || false) = rw (here) at inv.holder in
    elim (Bool-cases s.locked) [
      | inl taken ↦ rw (taken) tt
      | inr open_now ↦
          let out : c_inside s.consumer ≡ false = ground (arith, holder, open_now) in
          rw (open_now) record {
            order = rw (here) at inv.order;
            holder = ground (arith, out);
            one_inside = rw (out) refl;
            awaited =
                IsAwaited-step s.consumer s.head (p_lock made) (p_insert made) (λ h. h)
                  (rw (here) at inv.awaited);
          }
    ]
produce-Inv R insert keeps random s (p_insert made) here inv = record {
  order =
      let order : R s.produced (s.consumed ++ in_hand s.consumer ++ s.head ++ made ∷ []) =
        rw (here) at inv.order in
      subst (R s.produced) (flat s.consumed (in_hand s.consumer) (insert s.head made)) (
        keeps.inserted s.produced (s.consumed ++ in_hand s.consumer) s.head made (
          subst (R s.produced) (grouped s.consumed (in_hand s.consumer) s.head (made ∷ [])) order));
  holder = rw (here) at inv.holder;
  one_inside = rw (here) at inv.one_inside;
  awaited = IsAwaited-filled s.consumer (insert s.head made) (keeps.filled s.head made);
}
produce-Inv R insert keeps random s p_unlock here inv =
    let one : (c_inside s.consumer && true) ≡ false = rw (here) at inv.one_inside in
    let out : c_inside s.consumer ≡ false = ground (arith, one) in
    record {
      order = rw (here) at inv.order;
      holder = rw (out) refl;
      one_inside = rw (out) refl;
      awaited =
          IsAwaited-step s.consumer s.head p_unlock p_signal (λ h. refl) (rw (here) at inv.awaited);
    }
produce-Inv R insert keeps random s p_signal here inv = record {
  order = rw (in_hand-wake s.consumer) (rw (here) at inv.order);
  holder = rw (c_inside-wake s.consumer) (rw (here) at inv.holder);
  one_inside = rw (c_inside-wake s.consumer) (rw (here) at inv.one_inside);
  awaited = IsAwaited-wake s.consumer s.head s.producer p_make inv.awaited;
}
