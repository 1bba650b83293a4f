-- ===== src/Base/Memory.antt =====
-- Reads and writes of an array that fault out of bounds, and the sequencing of steps that may fault.
use Prim.Native.Nat.{ℕ}
use mathlib.Core.Path.{◌≡◌, refl}
use mathlib.Core.Bool.{Bool, true, false}
use mathlib.Core.Option.{Option, none, some}
use mathlib.Core.List.{List, [], ◌∷◌, ◌++◌}
use native.Mathlib.Omega.{arith}
use linux_note.Base.Tests.{ltb, if◌then◌else◌}
use linux_note.Base.Lists.{get_elem?, set, length, length-append, set-append}

infixl 5 ◌>>=◌ ◌>>◌
abbrev pub ◌>>=◌ {ℓ κ} : {A : Type ℓ} {B : Type κ} → Option A → (A → Option B) → Option B
none >>= f = none
some a >>= f = f a

abbrev pub ◌>>◌ {ℓ} : {B : Type ℓ} → Option (Unit {0}) → Option B → Option B
m >> k = m >>= λ _. k

-- A fault unless the test holds.
abbrev pub guard : Bool → Option (Unit {0})
guard true = some tt
guard false = none

-- `buf[i]`
abbrev pub load : List ℕ → ℕ → Option ℕ
load buf i = get_elem? buf i

-- `buf[i] = v`
abbrev pub store : List ℕ → ℕ → ℕ → Option (List ℕ)
store buf i v = if ltb i (length buf) then some (set buf i v) else none

pub load-append : (done r : List ℕ) (c : ℕ) → load (done ++ (c ∷ r)) (length done) ≡ some c
load-append [] r c = refl
load-append (d ∷ done) r c = load-append done r c

pub store-append :
    (done r : List ℕ) (c v : ℕ) → store (done ++ (c ∷ r)) (length done) v ≡ some (done ++ (v ∷ r))
store-append done r c v = ground (arith, length-append done (c ∷ r), set-append done c r v)
