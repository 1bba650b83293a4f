-- ===== src/Threads/BlockQueue/Signals.antt =====
-- The signals of bite/pthread/pro_con.cpp, and each step of a thread.
use linux_note.Base.{
  ℕ, ◌≡◌, refl, inl, inr, true, false, none, some, List, arith, Bool-cases, length, get_elem?, set,
}
use mathlib.Core.Path.{subst}
use linux_note.Threads.Crew.{change, get_elem?-set_self}
use linux_note.Threads.Picks.{Found, Found-set, Found-change, Found-pick, may_pick}
use linux_note.Threads.Entries.{Role}
use linux_note.Threads.BlockQueue.{
  Point, at_lock, at_test, asleep, awake, at_work, at_unlock, at_signal, at_print, Thread, State,
  must_wait, wakes, sleeps_on, printed, act,
}
use linux_note.Threads.BlockQueue.Invariant.{inside}
use linux_note.Threads.BlockQueue.Awake.{
  other, has_role, is_up, signals, stands_inside, is_signalling, Live, Goes, moves-Live,
}
use linux_note.Threads.BlockQueue.Turns.{locks-Goes, sleeps-Live, back-set, work-Goes, role_cases}

-- What a signal of `role` does with a thread, whose role, point and number are given.
has_role-wakes :
    (r role q : Role) (p : Point) (n : ℕ)
    → let t : Thread = record { role = q; point = p; number = n } in
      has_role r t ≡ true → has_role r (wakes role t) ≡ true
unfolding wakes
has_role-wakes r role q p n h = ground (arith, h)

is_up-wakes :
    (r role q : Role) (p : Point) (n : ℕ)
    → let t : Thread = record { role = q; point = p; number = n } in
      is_up r t ≡ true → is_up r (wakes role t) ≡ true
unfolding wakes
is_up-wakes r role q p n h = ground (arith, h)

signals-wakes :
    (r role q : Role) (p : Point) (n : ℕ)
    → let t : Thread = record { role = q; point = p; number = n } in
      signals r t ≡ true → signals r (wakes role t) ≡ true
unfolding wakes
signals-wakes r role q p n h = ground (arith, h)

inside-wakes :
    (role q : Role) (p : Point) (n : ℕ)
    → let t : Thread = record { role = q; point = p; number = n } in
      inside p ≡ true → stands_inside (wakes role t) ≡ true
unfolding wakes
inside-wakes role q p n h = ground (arith, h)

woken-is_up :
    (role q : Role) (p : Point) (n : ℕ)
    → let t : Thread = record { role = q; point = p; number = n } in
      sleeps_on role t ≡ true → is_up (other role) (wakes role t) ≡ true
unfolding wakes
woken-is_up role q p n h = ground (arith, h)

awake-is_up :
    (role q : Role) (p : Point) (n : ℕ)
    → let t : Thread = record { role = q; point = p; number = n } in
      has_role (other role) t ≡ true → sleeps_on role t ≡ false → is_up (other role) t ≡ true
awake-is_up role q p n h up = ground (arith, h, up)

-- A signal, or a return of `pthread_cond_wait`, leaves those up that are.
pub change-Live :
    (s : State) (role : Role) (k : ℕ)
    → Live s
    → Live (record s { threads = change (wakes role) s.threads k })
change-Live s role k live = record {
  back = λ j is_j.
      Found-change stands_inside (wakes role) s.threads k j
        (λ t. inside-wakes role t.role t.point t.number) (live.back j is_j);
  somebody = λ r.
      let (j, found) = live.somebody r in
      (
        j,
        Found-change (has_role r) (wakes role) s.threads k j
            (λ t. has_role-wakes r role t.role t.point t.number) found,
      );
  awake = λ r free. elim (live.awake r free) [
    | inl (j, found) ↦ inl (
      j,
      Found-change (is_up r) (wakes role) s.threads k j
          (λ t. is_up-wakes r role t.role t.point t.number) found,
    )
    | inr (j, found) ↦ inr (
      j,
      Found-change (signals r) (wakes role) s.threads k j
          (λ t. signals-wakes r role t.role t.point t.number) found,
    )
  ];
}

-- After the signal of a role a thread of the other role is up.
picks_up :
    (role : Role) (ts : List Thread) (k : ℕ)
    → may_pick (sleeps_on role) k ts ≡ true
    → ((j : ℕ) × Found (has_role (other role)) ts j)
    → (j : ℕ) × Found (is_up (other role)) (change (wakes role) ts k) j
picks_up role ts k may (j, (t, at_j, has)) =
    Found-pick (sleeps_on role) (is_up (other role)) (wakes role) ts k j t may
      (λ u. woken-is_up role u.role u.point u.number)
      (λ u. is_up-wakes (other role) role u.role u.point u.number) at_j
      (awake-is_up role t.role t.point t.number has)

signal-Live :
    (i k : ℕ) (s : State) (t : Thread)
    → get_elem? s.threads i ≡ some t
    → t.point ≡ at_signal
    → may_pick (sleeps_on t.role) k (set s.threads i (record t { point = at_print })) ≡ true
    → Live s
    → Live (record s {
      threads = change (wakes t.role) (set s.threads i (record t { point = at_print })) k;
    })
signal-Live i k s t at_i here may live =
    let t' : Thread = record t { point = at_print } in
    let ts = set s.threads i t' in
    let at_i' : get_elem? ts i ≡ some t' = get_elem?-set_self s.threads i t t' at_i in
    let somebody : (r : Role) → (j : ℕ) × Found (has_role r) ts j = λ r.
      let (j, found) = live.somebody r in
      (j, Found-set (has_role r) s.threads i j t t' at_i (λ e h. h) found) in
    record {
      back = λ j is_j.
          Found-change stands_inside (wakes t.role) ts k j
            (λ u. inside-wakes t.role u.role u.point u.number)
            (back-set i j s t t' at_i (λ h. let out : inside t.point ≡ false = rw (here) refl in cc)
              live is_j);
      somebody = λ r.
          let (j, found) = somebody r in
          (
            j,
            Found-change (has_role r) (wakes t.role) ts k j
                (λ u. has_role-wakes r t.role u.role u.point u.number) found,
          );
      awake = λ r free. elim (role_cases r t.role) [
        | inl same ↦ inl (
          i,
          Found-change (is_up r) (wakes t.role) ts k i
              (λ u. is_up-wakes r t.role u.role u.point u.number) (t', at_i', rw (same) refl),
        )
        | inr (_, differs) ↦ inl (
            subst (λ q. (j : ℕ) × Found (is_up q) (change (wakes t.role) ts k) j) differs
              (picks_up t.role ts k may (somebody (other t.role))))
      ];
    }

pub act-Goes :
    (i k : ℕ) (s : State) (t : Thread) (p : Point)
    → get_elem? s.threads i ≡ some t
    → t.point ≡ p
    → Live s
    → Goes (act i k s t p)
unfolding act
act-Goes i k s t at_lock at_i here live = locks-Goes i s t at_i (rw (here) refl) live
act-Goes i k s t at_test at_i here live =
    elim (Bool-cases (must_wait t.role (length s.queue) s.capacity)) [
      | inl full ↦ rw (full) (sleeps-Live i s t at_i here full live)
      | inr free ↦ rw (free) (
          moves-Live i t.number s t at_work s.holder at_i refl
            (λ h. let quiet : is_signalling t.point ≡ false = rw (here) refl in cc)
            (λ j is_j. back-set i j s t (record t { point = at_work }) at_i (λ h. refl) live is_j)
            live)
    ]
act-Goes i k s t asleep at_i here live = tt
act-Goes i k s t awake at_i here live = locks-Goes i s t at_i (rw (here) refl) live
act-Goes i k s t at_work at_i here live = work-Goes i s t t.role at_i live
act-Goes i k s t at_unlock at_i here live =
    moves-Live i t.number s t at_signal none at_i refl (λ h. refl) (λ j is_j. cc) live
act-Goes i k s t at_signal at_i here live =
    elim (Bool-cases
      (may_pick (sleeps_on t.role) k (set s.threads i (record t { point = at_print })))) [
        | inl may ↦ rw (may) (signal-Live i k s t at_i here may live)
        | inr cannot ↦ rw (cannot) tt
      ]
act-Goes i k s t at_print at_i here live =
    moves-Live i (printed t.role t.number) s t at_lock s.holder at_i refl
      (λ h. let quiet : is_signalling t.point ≡ false = rw (here) refl in cc)
      (λ j is_j.
        back-set i j s t (record t { point = at_lock; number = printed t.role t.number }) at_i
          (λ h. let out : inside t.point ≡ false = rw (here) refl in cc) live is_j)
      live
