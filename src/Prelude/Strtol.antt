-- ===== src/Prelude/Strtol.antt =====
-- `strtol (s, &end, 10)` of C for a 32-bit `long`: the value, and what stands at `end`.
use Prim.Native.Nat.{ℕ, zero, suc, ◌+◌, ◌-◌, ◌*◌, ◌%◌}
use mathlib.Core.Bool.{Bool, true, false, ◌&&◌, ◌||◌}
use mathlib.Core.List.{List, [], ◌∷◌}
use amigactl.Prelude.Tests.{ltb, leb, ◌==◌, if◌then◌else◌}
use amigactl.Prelude.Int.{ℤ, pos, negsuc}

-- `isspace`
unfoldable pub is_space : ℕ → Bool
is_space c = (c == 32) || (leb 9 c && leb c 13)

unfoldable pub is_digit : ℕ → Bool
is_digit c = leb 48 c && leb c 57

unfoldable pub skip_spaces : List ℕ → List ℕ
unfolding is_space
skip_spaces [] = []
skip_spaces (c ∷ s) = if is_space c then skip_spaces s else c ∷ s

-- The digits read onto `n`, and the rest.
unfoldable pub digits_from : ℕ → List ℕ → ℕ × List ℕ
unfolding is_digit
digits_from n [] = (n, [])
digits_from n (c ∷ s) = if is_digit c then digits_from (n * 10 + (c - 48)) s else (n, c ∷ s)

unfoldable pub starts_with_digit : List ℕ → Bool
unfolding is_digit
starts_with_digit [] = false
starts_with_digit (c ∷ s) = is_digit c

-- Out of range the value is the nearest bound.
unfoldable pub clamp : Bool → ℕ → ℤ
clamp negative n =
    if negative
    then (elim n [
      | zero ↦ pos 0
      | suc m ↦ if leb 0x80000000 (suc m) then negsuc 0x7FFFFFFF else negsuc m
    ])
    else (if leb 0x7FFFFFFF n then pos 0x7FFFFFFF else pos n)

-- Without a digit nothing is read.
unfoldable pub signed : Bool → List ℕ → List ℕ → ℤ × List ℕ
unfolding starts_with_digit digits_from clamp
signed negative whole s =
    if starts_with_digit s
    then (let (n, rest) = digits_from 0 s in (clamp negative n, rest))
    else (pos 0, whole)

unfoldable pub with_sign : List ℕ → List ℕ → ℤ × List ℕ
unfolding signed
with_sign whole [] = (pos 0, whole)
with_sign whole (c ∷ s) =
    if c == 45
    then signed true whole s
    else if c == 43
    then signed false whole s
    else signed false whole (c ∷ s)

unfoldable pub strtol : List ℕ → ℤ × List ℕ
unfolding with_sign skip_spaces
strtol s = with_sign s (skip_spaces s)

-- `strtoul (s, &end, 10)` for a 32-bit `unsigned long`: a minus sign negates the value modulo 2^32.
unfoldable pub clamp_unsigned : Bool → ℕ → ℕ
clamp_unsigned negative n =
    if ltb 0xFFFFFFFF n then 0xFFFFFFFF else if negative then (0x100000000 - n) % 0x100000000 else n

unfoldable pub unsigned : Bool → List ℕ → List ℕ → ℕ × List ℕ
unfolding starts_with_digit digits_from clamp_unsigned
unsigned negative whole s =
    if starts_with_digit s
    then (clamp_unsigned negative (digits_from 0 s).0, (digits_from 0 s).1)
    else (0, whole)

unfoldable pub unsigned_sign : List ℕ → List ℕ → ℕ × List ℕ
unfolding unsigned
unsigned_sign whole [] = (0, whole)
unsigned_sign whole (c ∷ s) =
    if c == 45
    then unsigned true whole s
    else if c == 43
    then unsigned false whole s
    else unsigned false whole (c ∷ s)

unfoldable pub strtoul : List ℕ → ℕ × List ℕ
unfolding unsigned_sign skip_spaces
strtoul s = unsigned_sign s (skip_spaces s)
