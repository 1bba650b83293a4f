-- ===== src/Wrap/Transfer/Replies.antt =====
-- What a list of replies to `read` holds: data, ends of file, interruptions and errors.
use linux_note.Base.{
  ℕ, ◌-◌, ◌≤◌, Bool, true, false, not, ◌||◌, List, [], ◌∷◌, ◌++◌, if◌then◌else◌, length,
}
use linux_note.Wrap.{Reply, got, fail, is_eintr}

-- The bytes of all replies, in order.
abbrev pub data_of : List Reply → List ℕ
data_of [] = []
data_of (got bs ∷ rs) = bs ++ data_of rs
data_of (fail e ∷ rs) = data_of rs

-- `read` stores at most as many bytes as it is asked for, here of a reader that asks for what is
-- left of `n`.
abbrev pub Obeys : ℕ → List Reply → Type 0
Obeys n [] = Unit {0}
Obeys n (got bs ∷ rs) = (length bs ≤ n) × Obeys (n - length bs) rs
Obeys n (fail e ∷ rs) = Obeys n rs

abbrev pub has_end : List Reply → Bool
has_end [] = false
has_end (got [] ∷ rs) = true
has_end (got (b ∷ bs) ∷ rs) = has_end rs
has_end (fail e ∷ rs) = has_end rs

-- A failure that is no interruption.
abbrev pub has_error : List Reply → Bool
has_error [] = false
has_error (got bs ∷ rs) = has_error rs
has_error (fail e ∷ rs) = not (is_eintr e) || has_error rs

abbrev pub drop_interrupts : List Reply → List Reply
drop_interrupts [] = []
drop_interrupts (got bs ∷ rs) = got bs ∷ drop_interrupts rs
drop_interrupts (fail e ∷ rs) =
    if is_eintr e then drop_interrupts rs else fail e ∷ drop_interrupts rs
