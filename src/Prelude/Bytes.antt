-- ===== src/Prelude/Bytes.antt =====
-- Byte strings: the code points of a literal, C's view of a buffer as a string, whitespace, and
-- the case-insensitive comparison of amiga.lib (`stricmp`, `strnicmp`).
use Prim.Native.Nat.{ℕ, zero, suc, ◌+◌, ◌/◌, ◌%◌}
use Prim.Native.Char.{code}
use Prim.Native.String.{String}
use mathlib.Core.Bool.{Bool, true, false, ◌&&◌, ◌||◌}
use mathlib.Core.List.{List, [], ◌∷◌}
use amigactl.Prelude.Tests.{ltb, leb, ◌==◌, if◌then◌else◌}

abbrev pub codes : String → List ℕ
codes String.[] = []
codes (String.◌∷◌ c s) = code c ∷ codes s

abbrev pub nul : ℕ
nul = 0

abbrev pub lf : ℕ
lf = 10

abbrev pub cr : ℕ
cr = 13

abbrev pub dot : ℕ
dot = 46

-- A space or a tab.
unfoldable pub is_blank : ℕ → Bool
is_blank c = (c == 32) || (c == 9)

-- What a C function sees of a buffer: the bytes before the first NUL.
unfoldable pub c_str : List ℕ → List ℕ
c_str [] = []
c_str (c ∷ s) = if c == nul then [] else c ∷ c_str s

-- `while (*p == ' ' || *p == '\t') p++`
unfoldable pub skip_blanks : List ℕ → List ℕ
unfolding is_blank
skip_blanks [] = []
skip_blanks (c ∷ s) = if is_blank c then skip_blanks s else c ∷ s

-- The bytes up to the first blank.
unfoldable pub word : List ℕ → List ℕ
unfolding is_blank
word [] = []
word (c ∷ s) = if is_blank c then [] else c ∷ word s

-- What is left from the first blank on.
unfoldable pub after_word : List ℕ → List ℕ
unfolding is_blank
after_word [] = []
after_word (c ∷ s) = if is_blank c then c ∷ s else after_word s

unfoldable pub to_lower : ℕ → ℕ
to_lower c = if leb 65 c && leb c 90 then c + 32 else c

unfoldable pub beq : List ℕ → List ℕ → Bool
beq [] [] = true
beq [] (b ∷ t) = false
beq (a ∷ s) [] = false
beq (a ∷ s) (b ∷ t) = (a == b) && beq s t

-- `stricmp (s, t) == 0`
unfoldable pub same_word : List ℕ → List ℕ → Bool
unfolding to_lower
same_word [] [] = true
same_word [] (b ∷ t) = false
same_word (a ∷ s) [] = false
same_word (a ∷ s) (b ∷ t) = (to_lower a == to_lower b) && same_word s t

-- The decimal digits of a number, as `%d` prints it; `fuel` is above the number.
unfoldable pub decimal_from : ℕ → ℕ → List ℕ → List ℕ
decimal_from zero n rest = rest
decimal_from (suc fuel) n rest =
    let more = decimal_from fuel (n / 10) ((48 + n % 10) ∷ rest) in
    if ltb n 10 then (48 + n) ∷ rest else more

unfoldable pub decimal : ℕ → List ℕ
unfolding decimal_from
decimal n = decimal_from (suc n) n []
