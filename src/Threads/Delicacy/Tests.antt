-- ===== src/Threads/Delicacy/Tests.antt =====
-- A chief of bite/pthread/cond.c cooks the first bowl.
use linux_note.Base.{◌+◌, ◌≤◌, ◌≡◌, refl, true, ◌∷◌, ◌++◌, replicate}
use linux_note.Threads.Delicacy.{
  chief, gourmet, at_lock, at_unlock, Kitchen, act, turn, start, Reach, begin, next,
}
use linux_note.Threads.Delicacy.Bowls.{bowls_alternate}

abbrev cooked_one : Kitchen
cooked_one = record start {
  have_delicacy = 1;
  locked = true;
  cooked = 1;
  threads =
      replicate 4 (record { role = gourmet; point = at_lock })
      ++ record { role = chief; point = at_unlock }
        ∷ replicate 3 (record { role = chief; point = at_lock });
}

cooked_one-Reach : Reach cooked_one
unfolding turn act
cooked_one-Reach = next 4 0 (next 4 0 (next 4 0 begin refl) refl) refl

bowls_alternate_example :
    (cooked_one.have_delicacy ≤ 1)
    × (cooked_one.eaten + cooked_one.have_delicacy ≡ cooked_one.cooked)
    × (cooked_one.eaten ≤ cooked_one.cooked)
    × (cooked_one.cooked ≤ cooked_one.eaten + 1)
bowls_alternate_example = bowls_alternate cooked_one cooked_one-Reach
