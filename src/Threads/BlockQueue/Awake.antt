-- ===== src/Threads/BlockQueue/Awake.antt =====
-- Who goes on in bite/pthread/pro_con.cpp: the holder of the mutex, and for each role a thread that is up or
-- that is going to signal it, as long as the queue lets that role work.
use linux_note.Base.{
  ℕ, ◌≡◌, refl, sym, ap, ◌∙◌, ◌⊎◌, inl, inr, Bool, true, false, not, ◌&&◌, Option, some, List,
  arith, length, get_elem?, set,
}
use linux_note.Threads.Picks.{Found, Found-set}
use linux_note.Threads.Entries.{Role, productor, consumer, Entry}
use linux_note.Threads.BlockQueue.{
  Point, asleep, at_unlock, at_signal, Thread, State, Next, waits, fault, goes, must_wait,
}
use linux_note.Threads.BlockQueue.Invariant.{inside}

abbrev pub role_is : Role → Role → Bool
role_is productor productor = true
role_is consumer consumer = true
role_is _ _ = false

abbrev pub other : Role → Role
other productor = consumer
other consumer = productor

abbrev pub is_asleep : Point → Bool
is_asleep asleep = true
is_asleep _ = false

abbrev pub is_signalling : Point → Bool
is_signalling at_unlock = true
is_signalling at_signal = true
is_signalling _ = false

abbrev pub has_role : Role → Thread → Bool
has_role r t = role_is r t.role

abbrev pub is_up : Role → Thread → Bool
is_up r t = role_is r t.role && not (is_asleep t.point)

-- The thread has worked, and is going to signal threads of role `r`.
abbrev pub signals : Role → Thread → Bool
signals r t = role_is (other r) t.role && is_signalling t.point

abbrev pub stands_inside : Thread → Bool
stands_inside t = inside t.point

-- A thread of role `r` is up, or will be woken.
abbrev pub IsAwake : Role → List Thread → Type 0
IsAwake r ts = ((j : ℕ) × Found (is_up r) ts j) ⊎ ((j : ℕ) × Found (signals r) ts j)

pub record Live (s : State) : Type 0 where
  pub back : (j : ℕ) → s.holder ≡ some j → Found stands_inside s.threads j
  pub somebody : (r : Role) → (j : ℕ) × Found (has_role r) s.threads j
  pub awake : (r : Role) → must_wait r (length s.queue) s.capacity ≡ false → IsAwake r s.threads

abbrev pub Goes : Next → Type 0
Goes waits = Unit
Goes fault = Unit
Goes (goes s) = Live s

-- Thread `i` becomes `t'`; the threads that are up or signal stay so.
pub IsAwake-set :
    (r : Role) (ts : List Thread) (i : ℕ) (t t' : Thread)
    → get_elem? ts i ≡ some t
    → (is_up r t ≡ true → is_up r t' ≡ true)
    → (signals r t ≡ true → signals r t' ≡ true)
    → IsAwake r ts
    → IsAwake r (set ts i t')
IsAwake-set r ts i t t' at_i up signal h = elim h [
  | inl (j, found) ↦ inl (j, Found-set (is_up r) ts i j t t' at_i (λ e. up) found)
  | inr (j, found) ↦ inr (j, Found-set (signals r) ts i j t t' at_i (λ e. signal) found)
]

-- A step of thread `i`, by what becomes of the holder and of the threads that are up.
pub step-Live :
    (i : ℕ) (s : State) (t t' : Thread) (holder : Option ℕ) (queue : List ℕ)
    (pushed popped : List Entry)
    → get_elem? s.threads i ≡ some t
    → t.role ≡ t'.role
    → ((j : ℕ) → holder ≡ some j → Found stands_inside (set s.threads i t') j)
    → ((r : Role) → must_wait r (length queue) s.capacity ≡ false → IsAwake r (set s.threads i t'))
    → Live s
    → Live (record s {
      holder = holder;
      queue = queue;
      threads = set s.threads i t';
      pushed = pushed;
      popped = popped;
    })
step-Live i s t t' holder queue pushed popped at_i same back up_or_woken live = record {
  back = back;
  somebody = λ r.
      let (j, found) = live.somebody r in
      (
        j,
        Found-set (has_role r) s.threads i j t t' at_i (λ e h. ap (role_is r) (sym same) ∙ h) found,
      );
  awake = up_or_woken;
}

still_up :
    (r role : Role) (p p' : Point) (n n' : ℕ)
    → is_asleep p' ≡ false
    → is_up r (record { role = role; point = p; number = n }) ≡ true
    → is_up r (record { role = role; point = p'; number = n' }) ≡ true
still_up r role p p' n n' up h = ground (arith, up, h)

pub still_signals : (a b c : Bool) → (b ≡ true → c ≡ true) → (a && b) ≡ true → (a && c) ≡ true
still_signals true b c on h = on h
still_signals false b c on h = h

-- A step on the lock, of a thread that is not going to signal or still is.
pub moves-Live :
    (i n : ℕ) (s : State) (t : Thread) (p : Point) (holder : Option ℕ)
    → get_elem? s.threads i ≡ some t
    → is_asleep p ≡ false
    → (is_signalling t.point ≡ true → is_signalling p ≡ true)
    → ((j : ℕ)
        → holder ≡ some j
        → Found stands_inside (set s.threads i (record t { point = p; number = n })) j)
    → Live s
    → Live (record s {
      holder = holder;
      threads = set s.threads i (record t { point = p; number = n });
    })
moves-Live i n s t p holder at_i up signal back live =
    step-Live i s t (record t { point = p; number = n }) holder s.queue s.pushed s.popped at_i refl
      back
      (λ r free.
        IsAwake-set r s.threads i t (record t { point = p; number = n }) at_i
          (still_up r t.role t.point p t.number n up)
          (still_signals (role_is (other r) t.role) (is_signalling t.point) (is_signalling p)
            signal)
          (live.awake r free))
      live
