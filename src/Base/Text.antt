-- ===== src/Base/Text.antt =====
-- C strings in buffers of bytes: the character tests, and the functions of the C library.
use Prim.Native.Nat.{ℕ, zero, suc}
use mathlib.Core.Bool.{Bool, ◌&&◌, ◌||◌}
use mathlib.Core.List.{List, [], ◌∷◌}
use linux_note.Base.Tests.{◌==◌, leb, if◌then◌else◌}
use linux_note.Base.Lists.{drop}

abbrev pub newline : ℕ
newline = b'\n'

abbrev pub blank : ℕ
blank = b' '

-- `isspace`: blank, tab, newline, vertical tab, form feed and carriage return.
unfoldable pub is_space : ℕ → Bool
is_space c = c == blank || (leb 9 c && leb c 13)

-- The first line of a text with its newline, of at most `m` bytes.
abbrev pub first_line : ℕ → List ℕ → List ℕ
first_line zero s = []
first_line (suc m) [] = []
first_line (suc m) (c ∷ s) = if c == newline then c ∷ [] else c ∷ first_line m s

-- The string that stands at the start of a buffer, up to its first 0.
abbrev pub to_nul : List ℕ → List ℕ
to_nul [] = []
to_nul (c ∷ s) = if c == 0 then [] else c ∷ to_nul s

-- The string at index `i` of a buffer.
abbrev pub string_at : List ℕ → ℕ → List ℕ
string_at buf i = to_nul (drop i buf)
