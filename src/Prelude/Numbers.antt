-- ===== src/Prelude/Numbers.antt =====
-- `strtol` reads back what `%d` prints.
use amigactl.Prelude.{
  ℕ, zero, suc, ◌+◌, ◌-◌, ◌*◌, ◌/◌, ◌%◌, ◌<◌, ◌≤◌, true, false, List, [], ◌∷◌, ◌++◌,
  decimal_from-append, ◌≡◌, refl, arith, ltb, leb, ◌==◌, if_intro, decimal, decimal_from, ap, sym,
  ◌∙◌, append-nil, length, lt→ltb, le→ltb_false, Bool-cases, lt→leb_false, inl, inr,
}
use amigactl.Prelude.Int.{pos}
use amigactl.Prelude.Strtol.{
  is_space, is_digit, skip_spaces, digits_from, starts_with_digit, clamp, signed, with_sign, strtol,
  clamp_unsigned, unsigned, unsigned_sign, strtoul,
}

digits_from-digit :
    (m d : ℕ) (rest : List ℕ)
    → d < 10
    → digits_from m ((48 + d) ∷ rest) ≡ digits_from (m * 10 + d) rest
unfolding digits_from is_digit
digits_from-digit m d rest h = ground arith

digits_from-decimal_from :
    (fuel n : ℕ) (rest : List ℕ)
    → n < fuel
    → digits_from 0 (decimal_from fuel n rest) ≡ digits_from n rest
unfolding decimal_from
digits_from-decimal_from zero n rest h = absurd (omega (arith, h))
digits_from-decimal_from (suc fuel) n rest h = elim (Bool-cases (ltb n 10)) [
  | inl e ↦
      rw e (digits_from-digit 0 n rest (ground arith) ∙ ap (λ k. digits_from k rest) (omega arith))
  | inr e ↦ rw e (
      digits_from-decimal_from fuel (n / 10) ((48 + n % 10) ∷ rest) (ground arith)
      ∙ digits_from-digit (n / 10) (n % 10) rest (omega arith)
      ∙ ap (λ k. digits_from k rest) (omega arith))
]

starts-decimal_from :
    (fuel n : ℕ) (rest : List ℕ)
    → starts_with_digit rest ≡ true
    → starts_with_digit (decimal_from fuel n rest) ≡ true
unfolding decimal_from starts_with_digit is_digit
starts-decimal_from zero n rest h = h
starts-decimal_from (suc fuel) n rest h =
    if_intro (λ l. starts_with_digit l ≡ true) (ltb n 10) _ _ (λ e. ground arith)
      (λ e. starts-decimal_from fuel (n / 10) ((48 + n % 10) ∷ rest) (ground arith))

pub starts-decimal : (n : ℕ) → starts_with_digit (decimal n) ≡ true
unfolding decimal decimal_from starts_with_digit is_digit
starts-decimal n =
    if_intro (λ l. starts_with_digit l ≡ true) (ltb n 10) _ _ (λ e. ground arith)
      (λ e. starts-decimal_from n (n / 10) ((48 + n % 10) ∷ []) (ground arith))

strtol-digits :
    (l : List ℕ) {n : ℕ}
    → starts_with_digit l ≡ true
    → digits_from 0 l ≡ (n, [])
    → n < 0x7FFFFFFF
    → strtol l ≡ (pos n, [])
unfolding strtol skip_spaces with_sign signed starts_with_digit is_digit is_space clamp
strtol-digits [] h d lt = absurd (ground arith)
strtol-digits (c ∷ s) {n} h d lt =
    let no_space : is_space c ≡ false = ground arith in
    let no_minus : (c == 45) ≡ false = ground arith in
    let no_plus : (c == 43) ≡ false = ground arith in
    let small : leb 0x7FFFFFFF n ≡ false = lt→leb_false 0x7FFFFFFF n lt in
    let d' : digits_from (0 * 10 + (c - 48)) s ≡ (n, []) = rw h at d in
    rw (no_space, no_minus, no_plus, h, d', small) refl

pub strtol-decimal : (n : ℕ) → n < 0x7FFFFFFF → strtol (decimal n) ≡ (pos n, [])
unfolding decimal digits_from
strtol-decimal n lt =
    strtol-digits (decimal n) (starts-decimal n)
      (digits_from-decimal_from (suc n) n [] (omega arith)) lt

-- A number in front of a text that goes on with no digit.
digits_from-end :
    (n : ℕ) (rest : List ℕ) → starts_with_digit rest ≡ false → digits_from n rest ≡ (n, rest)
unfolding digits_from starts_with_digit
digits_from-end n [] h = refl
digits_from-end n (c ∷ s) h = rw h refl

pub digits_from-decimal :
    (n : ℕ) (rest : List ℕ)
    → starts_with_digit rest ≡ false
    → digits_from 0 (decimal n ++ rest) ≡ (n, rest)
unfolding decimal
digits_from-decimal n rest h =
    rw (decimal_from-append (suc n) n [] rest)
      (digits_from-decimal_from (suc n) n rest (omega arith) ∙ digits_from-end n rest h)

pub starts-decimal-append : (n : ℕ) (rest : List ℕ) → starts_with_digit (decimal n ++ rest) ≡ true
unfolding starts_with_digit
starts-decimal-append n rest = starts-append (decimal n) rest (starts-decimal n)
  where
    starts-append : (l m : List ℕ) → starts_with_digit l ≡ true → starts_with_digit (l ++ m) ≡ true
    starts-append [] m h = absurd cc
    starts-append (c ∷ l) m h = h

digits_from-text : (n : ℕ) → digits_from 0 (decimal n) ≡ (n, [])
unfolding starts_with_digit
digits_from-text n =
    ap (digits_from 0) (sym (append-nil (decimal n))) ∙ digits_from-decimal n [] refl

unsigned-digits :
    (whole l : List ℕ) {n : ℕ}
    → starts_with_digit l ≡ true
    → digits_from 0 l ≡ (n, [])
    → n ≤ 0xFFFFFFFF
    → unsigned false whole l ≡ (n, [])
unfolding unsigned clamp_unsigned
unsigned-digits whole l {n} h d le =
    let small : ltb 0xFFFFFFFF n ≡ false = le→ltb_false 0xFFFFFFFF n le in rw (h, d, small) refl

strtoul-digits :
    (l : List ℕ) {n : ℕ}
    → starts_with_digit l ≡ true
    → digits_from 0 l ≡ (n, [])
    → n ≤ 0xFFFFFFFF
    → strtoul l ≡ (n, [])
unfolding strtoul skip_spaces unsigned_sign starts_with_digit is_digit is_space
strtoul-digits [] h d le = absurd (ground arith)
strtoul-digits (c ∷ s) {n} h d le =
    let no_space : is_space c ≡ false = ground arith in
    let no_minus : (c == 45) ≡ false = ground arith in
    let no_plus : (c == 43) ≡ false = ground arith in
    rw (no_space, no_minus, no_plus) (unsigned-digits (c ∷ s) (c ∷ s) h d le)

-- `strtoul` reads back what `%d` prints.
pub strtoul-decimal : (n : ℕ) → n ≤ 0xFFFFFFFF → strtoul (decimal n) ≡ (n, [])
strtoul-decimal n le = strtoul-digits (decimal n) (starts-decimal n) (digits_from-text n) le

unfoldable pub ten_to : ℕ → ℕ
ten_to zero = 1
ten_to (suc k) = 10 * ten_to k

length-decimal_from :
    (k fuel n : ℕ) (rest : List ℕ)
    → n < 10 * ten_to k
    → n < fuel
    → length (decimal_from fuel n rest) ≤ suc k + length rest
unfolding decimal_from ten_to
length-decimal_from k zero n rest small lt = absurd (omega arith)
length-decimal_from zero (suc fuel) n rest small lt =
    let one : ltb n 10 ≡ true = lt→ltb n 10 (omega arith) in rw one (omega arith)
length-decimal_from (suc k) (suc fuel) n rest small lt =
    if_intro (λ (l : List ℕ). length l ≤ suc (suc k) + length rest) (ltb n 10) _ _
      (λ e. omega arith)
      (λ e.
        let big : 10 ≤ n = ground arith in
        omega (
          arith,
          length-decimal_from k fuel (n / 10) ((48 + n % 10) ∷ rest) (omega arith) (omega arith),
        ))

-- A number below 10^(k + 1) has at most k + 1 digits.
pub length-decimal : (k n : ℕ) → n < 10 * ten_to k → length (decimal n) ≤ suc k
unfolding decimal
length-decimal k n small = omega (arith, length-decimal_from k (suc n) n [] small (omega arith))
