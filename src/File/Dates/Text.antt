-- ===== src/File/Dates/Text.antt =====
-- The text of a stamp, read back.
use amigactl.Prelude.{
  ℕ, zero, suc, ◌-◌, true, false, List, [], ◌∷◌, ◌++◌, append_assoc, append-nil, some, ◌≡◌, refl,
  ap, sym, ◌∙◌, arith, length, replicate, decimal, ◌==◌,
}
use amigactl.Prelude.Int.{pos}
use amigactl.Prelude.Strtol.{skip_spaces, is_space, is_digit, digits_from, starts_with_digit}
use amigactl.Prelude.Numbers.{digits_from-decimal, starts-decimal-append}
use amigactl.Prelude.Scan.{scan_int, scan_int-digits}
use amigactl.Arexx.{DateStamp}
use amigactl.File.Dates.{
  Civil, padded, print_civil, format_datestamp, expect, scan_then, scan_blank, scan_end, natural,
  scan_fields, scan_civil, parse_datestamp,
}
use amigactl.File.Dates.Calendar.{IsClock, whole_seconds, civil_of-Fields}

-- Zeros in front of a number.
zeros-digits :
    (k n : ℕ) (rest : List ℕ)
    → starts_with_digit rest ≡ false
    → digits_from 0 (replicate k 48 ++ (decimal n ++ rest)) ≡ (n, rest)
unfolding digits_from is_digit
zeros-digits zero n rest h = digits_from-decimal n rest h
zeros-digits (suc k) n rest h = zeros-digits k n rest h

zeros-start :
    (k n : ℕ) (rest : List ℕ) → starts_with_digit (replicate k 48 ++ (decimal n ++ rest)) ≡ true
unfolding starts_with_digit is_digit
zeros-start zero n rest = starts-decimal-append n rest
zeros-start (suc k) n rest = refl

scan_int-padded :
    (width n : ℕ) (rest : List ℕ)
    → starts_with_digit rest ≡ false
    → scan_int (padded width n ++ rest) ≡ some (pos n, rest)
unfolding padded
scan_int-padded width n rest h =
    let k = width - length (decimal n) in
    rw (append_assoc (replicate k 48) (decimal n) rest) (
      scan_int-digits (replicate k 48 ++ (decimal n ++ rest)) (zeros-start k n rest)
        (zeros-digits k n rest h))

scan_then-padded :
    (width n c : ℕ) (rest : List ℕ)
    → is_digit c ≡ false
    → scan_then c (padded width n ++ (c ∷ rest)) ≡ some (pos n, rest)
unfolding scan_then expect starts_with_digit
scan_then-padded width n c rest h =
    let same : (c == c) ≡ true = ground arith in
    rw (scan_int-padded width n (c ∷ rest) h, scan_then, same) refl

skip_spaces-digit : (s : List ℕ) → starts_with_digit s ≡ true → skip_spaces s ≡ s
unfolding skip_spaces starts_with_digit is_digit is_space
skip_spaces-digit [] h = refl
skip_spaces-digit (c ∷ s) h = let no_space : is_space c ≡ false = ground arith in rw no_space refl

skip_spaces-padded :
    (width n : ℕ) (rest : List ℕ) → skip_spaces (padded width n ++ rest) ≡ padded width n ++ rest
unfolding padded
skip_spaces-padded width n rest =
    let k = width - length (decimal n) in
    skip_spaces-digit _ (rw (append_assoc (replicate k 48) (decimal n) rest) (zeros-start k n rest))

scan_blank-padded :
    (width n w m : ℕ) (rest : List ℕ)
    → scan_blank (padded width n ++ (32 ∷ (padded w m ++ rest))) ≡ some (pos n, padded w m ++ rest)
unfolding scan_blank starts_with_digit skip_spaces is_space
scan_blank-padded width n w m rest =
    rw
      (
        scan_int-padded width n (32 ∷ (padded w m ++ rest)) refl,
        scan_blank,
        skip_spaces-padded w m rest,
      )
      refl

scan_end-padded : (width n : ℕ) → scan_end (padded width n) ≡ some (pos n)
unfolding scan_end starts_with_digit
scan_end-padded width n =
    let e : scan_int (padded width n) ≡ some (pos n, []) =
      ap scan_int (sym (append-nil (padded width n))) ∙ scan_int-padded width n [] refl in
    rw (e, scan_end) refl

scan_fields-print_civil :
    (c : Civil)
    → scan_fields (print_civil c)
      ≡ some (pos c.year, pos c.month, pos c.day, pos c.hours, pos c.minutes, pos c.seconds)
unfolding scan_fields print_civil is_digit
scan_fields-print_civil c =
    rw
      (
        scan_then-padded 4 c.year 45 _ refl,
        scan_then-padded 2 c.month 45 _ refl,
        scan_blank-padded 2 c.day 2 c.hours _,
        scan_then-padded 2 c.hours 58 _ refl,
        scan_then-padded 2 c.minutes 58 _ refl,
        scan_end-padded 2 c.seconds,
      )
      refl

scan_civil-print_civil : (c : Civil) → scan_civil (print_civil c) ≡ some c
unfolding scan_civil natural
scan_civil-print_civil c = rw (scan_fields-print_civil c) refl

-- For the stamp of a clock, the text that `format_datestamp` writes is read by `parse_datestamp` as
-- the same stamp without the part of a second.
pub parse_datestamp-format_datestamp :
    (ds : DateStamp)
    → IsClock ds
    → (text : List ℕ) × (format_datestamp ds ≡ some text)
      × (parse_datestamp text ≡ some (whole_seconds ds))
unfolding format_datestamp parse_datestamp
parse_datestamp-format_datestamp ds v =
    let (c, e, f) = civil_of-Fields ds v in
    (
      print_civil c,
      rw (e, format_datestamp) refl,
      rw (scan_civil-print_civil c, parse_datestamp, f.range, f.stamp) refl,
    )
