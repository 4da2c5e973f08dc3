-- ===== src/Prelude/Scan.antt =====
-- `%d` of `sscanf`, and that it reads what `%d` prints.
use amigactl.Prelude.{
  ℕ, zero, suc, Bool, true, false, List, [], ◌∷◌, ◌++◌, Option, none, some, ◌≡◌, refl, ap, arith,
  ◌==◌, if◌then◌else◌, decimal,
}
use amigactl.Prelude.Int.{ℤ, pos, negsuc}
use amigactl.Prelude.Strtol.{is_space, is_digit, skip_spaces, digits_from, starts_with_digit}
use amigactl.Prelude.Numbers.{digits_from-decimal, starts-decimal-append}

-- `%d` of `sscanf`. For a number out of the range of int, where C says nothing, this is its value.
unfoldable pub signed_value : Bool → ℕ → ℤ
signed_value negative zero = pos 0
signed_value negative (suc n) = if negative then negsuc n else pos (suc n)

unfoldable pub scan_digits : Bool → List ℕ → Option (ℤ × List ℕ)
unfolding signed_value
scan_digits negative s =
    if starts_with_digit s
    then some (signed_value negative (digits_from 0 s).0, (digits_from 0 s).1)
    else none

unfoldable pub scan_signed : List ℕ → Option (ℤ × List ℕ)
scan_signed [] = none
scan_signed (c ∷ s) =
    if c == 45
    then scan_digits true s
    else if c == 43
    then scan_digits false s
    else scan_digits false (c ∷ s)

unfoldable pub scan_int : List ℕ → Option (ℤ × List ℕ)
scan_int s = scan_signed (skip_spaces s)

pub scan_int-digits :
    (l : List ℕ) {n : ℕ} {rest : List ℕ}
    → starts_with_digit l ≡ true
    → digits_from 0 l ≡ (n, rest)
    → scan_int l ≡ some (pos n, rest)
unfolding scan_int scan_signed scan_digits skip_spaces starts_with_digit is_digit is_space
    signed_value
scan_int-digits [] h d = absurd (ground arith)
scan_int-digits (c ∷ s) {n} {rest} h d =
    let no_space : is_space c ≡ false = ground arith in
    let no_minus : (c == 45) ≡ false = ground arith in
    let no_plus : (c == 43) ≡ false = ground arith in
    rw (no_space, no_minus, no_plus, h, d) (ap (λ v. some (v, rest)) (positive n))
  where
    positive : (n : ℕ) → signed_value false n ≡ pos n
    positive zero = refl
    positive (suc n) = refl

pub scan_int-decimal :
    (n : ℕ) (rest : List ℕ)
    → starts_with_digit rest ≡ false
    → scan_int (decimal n ++ rest) ≡ some (pos n, rest)
scan_int-decimal n rest h =
    scan_int-digits (decimal n ++ rest) (starts-decimal-append n rest)
      (digits_from-decimal n rest h)
