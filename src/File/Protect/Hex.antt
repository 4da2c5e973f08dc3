-- ===== src/File/Protect/Hex.antt =====
-- Numbers to base 16, written and read.
use amigactl.Prelude.{
  ℕ, zero, suc, ◌+◌, ◌*◌, ◌/◌, ◌%◌, ◌^◌, ◌<◌, true, false, List, [], ◌∷◌, ◌++◌, none, some, length,
  arith, ◌≡◌, refl, is_blank, Bool-cases, inl, inr, length-append,
}
use amigactl.File.Arguments.{split_last}
use amigactl.File.Checksum.{hex, hex_digit}
use amigactl.File.Protect.{is_hex, all_hex, digit_value, hex_value}

hex_digit-is_hex : (d : ℕ) → d < 16 → is_hex (hex_digit d) ≡ true
unfolding is_hex hex_digit
hex_digit-is_hex d h = ground arith

digit_value-hex_digit : (d : ℕ) → d < 16 → digit_value (hex_digit d) ≡ d
unfolding digit_value hex_digit
digit_value-hex_digit d h = ground arith

all_hex-end :
    (s : List ℕ) (c : ℕ) → all_hex s ≡ true → is_hex c ≡ true → all_hex (s ++ (c ∷ [])) ≡ true
unfolding all_hex
all_hex-end [] c h e = rw e refl
all_hex-end (x ∷ s) c h e = elim (Bool-cases (is_hex x)) [
  | inl i ↦ let h' : all_hex s ≡ true = rw i at h in rw i (all_hex-end s c h' e)
  | inr i ↦ let h' : false ≡ true = rw i at h in absurd cc
]

hex_value-end :
    (n : ℕ) (s : List ℕ) (c : ℕ) → hex_value n (s ++ (c ∷ [])) ≡ hex_value n s * 16 + digit_value c
unfolding hex_value
hex_value-end n [] c = refl
hex_value-end n (x ∷ s) c = hex_value-end (n * 16 + digit_value x) s c

pub all_hex-hex : (w n : ℕ) → all_hex (hex w n) ≡ true
unfolding hex all_hex
all_hex-hex zero n = refl
all_hex-hex (suc w) n =
    all_hex-end (hex w (n / 16)) (hex_digit (n % 16)) (all_hex-hex w (n / 16))
      (hex_digit-is_hex (n % 16) (omega arith))

pub length-hex : (w n : ℕ) → length (hex w n) ≡ w
unfolding hex
length-hex zero n = refl
length-hex (suc w) n =
    omega (arith, length-append (hex w (n / 16)) (hex_digit (n % 16) ∷ []), length-hex w (n / 16))

pub hex_value-hex : (w n : ℕ) → n < 16 ^ w → hex_value 0 (hex w n) ≡ n
unfolding hex hex_value
hex_value-hex zero n h = omega arith
hex_value-hex (suc w) n h =
    let below : n < 16 * 16 ^ w = omega arith in
    let again : hex_value 0 (hex w (n / 16)) ≡ n / 16 = hex_value-hex w (n / 16) (omega arith) in
    rw
      (
        hex_value-end 0 (hex w (n / 16)) (hex_digit (n % 16)),
        again,
        digit_value-hex_digit (n % 16) (omega arith),
      )
      (omega arith)

no_blank-split_last : (s : List ℕ) → all_hex s ≡ true → split_last s ≡ none
unfolding split_last all_hex is_blank is_hex
no_blank-split_last [] h = refl
no_blank-split_last (x ∷ s) h = elim (Bool-cases (is_hex x)) [
  | inl i ↦
      let h' : all_hex s ≡ true = rw i at h in
      let b : is_blank x ≡ false = ground arith in rw (no_blank-split_last s h', b) refl
  | inr i ↦ let h' : false ≡ true = rw i at h in absurd cc
]

pub split_last-behind :
    (path s : List ℕ) → all_hex s ≡ true → split_last (path ++ (32 ∷ s)) ≡ some (path, s)
unfolding split_last is_blank
split_last-behind [] s h = rw (no_blank-split_last s h) refl
split_last-behind (x ∷ path) s h = rw (split_last-behind path s h) refl
