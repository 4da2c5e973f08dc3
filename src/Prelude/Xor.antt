-- ===== src/Prelude/Xor.antt =====
-- The exclusive or of the bits of two numbers: a group in which every number is its own inverse.
use Prim.Native.Nat.{
  ℕ, zero, suc, ◌+◌, ◌*◌, ◌/◌, ◌%◌, ◌≤◌, ◌<◌, bit_xor, bit_xor-bitwise, digits, differ,
}
use mathlib.Core.Path.{◌≡◌, refl, ap, sym, ◌∙◌}
use native.Mathlib.Omega.{arith}

-- The operation with a count of digits that need not be the first number.
abbrev counted : ℕ → ℕ → ℕ → ℕ
counted count a b = digits (λ rest. rest) differ count a b

-- Any count from the first number on will do.
counted-bit_xor :
    (bound count a b : ℕ) → a ≤ count → count ≤ bound → counted count a b ≡ bit_xor a b
counted-bit_xor bound count zero b le low = out_of_digits count ∙ sym (bit_xor-bitwise 0 b)
  where
    out_of_digits : (count : ℕ) → counted count 0 b ≡ b
    out_of_digits zero = refl
    out_of_digits (suc count) = refl
counted-bit_xor bound zero (suc a) b le low = absurd (omega arith)
counted-bit_xor zero (suc count) (suc a) b le low = absurd (omega arith)
counted-bit_xor (suc bound) (suc count) (suc a) b le low =
    let here = counted-bit_xor bound count (suc a / 2) (b / 2) (omega arith) (omega arith) in
    let there = counted-bit_xor bound a (suc a / 2) (b / 2) (omega arith) (omega arith) in
    omega (arith, here, there, bit_xor-bitwise (suc a) b)

differ_digits : (x y : ℕ) → x < 2 → y < 2 → differ x y ≡ (x + y) % 2
differ_digits zero y p q = omega arith
differ_digits (suc zero) zero p q = refl
differ_digits (suc zero) (suc zero) p q = refl
differ_digits (suc zero) (suc (suc y)) p q = absurd (omega arith)
differ_digits (suc (suc x)) y p q = absurd (omega arith)

pub zero-bit_xor : (b : ℕ) → bit_xor 0 b ≡ b
zero-bit_xor b = bit_xor-bitwise 0 b

-- The law for the lowest bit.
pub bit_xor_step : (a b : ℕ) → bit_xor a b ≡ 2 * bit_xor (a / 2) (b / 2) + (a + b) % 2
bit_xor_step zero b = omega (arith, zero-bit_xor b, zero-bit_xor (b / 2))
bit_xor_step (suc a) b =
    let rest = counted-bit_xor a a (suc a / 2) (b / 2) (omega arith) (omega arith) in
    let digit = differ_digits (suc a % 2) (b % 2) (omega arith) (omega arith) in
    omega (arith, bit_xor-bitwise (suc a) b, rest, digit)

pub half-bit_xor : (a b : ℕ) → bit_xor a b / 2 ≡ bit_xor (a / 2) (b / 2)
half-bit_xor a b = omega (arith, bit_xor_step a b)

pub parity-bit_xor : (a b : ℕ) → bit_xor a b % 2 ≡ (a + b) % 2
parity-bit_xor a b = omega (arith, bit_xor_step a b)

comm_below : (n a b : ℕ) → a + b ≤ n → bit_xor a b ≡ bit_xor b a
comm_below n zero zero h = refl
comm_below zero (suc a) b h = absurd (omega arith)
comm_below zero zero (suc b) h = absurd (omega arith)
comm_below (suc n) a b h =
    omega (arith, bit_xor_step a b, bit_xor_step b a, comm_below n (a / 2) (b / 2) (omega arith))

pub bit_xor_comm : (a b : ℕ) → bit_xor a b ≡ bit_xor b a
bit_xor_comm a b = comm_below (a + b) a b (omega arith)

assoc_below : (n a b c : ℕ) → a + b + c ≤ n → bit_xor (bit_xor a b) c ≡ bit_xor a (bit_xor b c)
assoc_below zero zero zero zero h = refl
assoc_below zero (suc a) b c h = absurd (omega arith)
assoc_below zero zero (suc b) c h = absurd (omega arith)
assoc_below zero zero zero (suc c) h = absurd (omega arith)
assoc_below (suc n) a b c h = omega (
  arith,
  bit_xor_step (bit_xor a b) c,
  bit_xor_step a (bit_xor b c),
  ap (λ x. bit_xor x (c / 2)) (half-bit_xor a b),
  ap (λ x. bit_xor (a / 2) x) (half-bit_xor b c),
  parity-bit_xor a b,
  parity-bit_xor b c,
  assoc_below n (a / 2) (b / 2) (c / 2) (omega arith),
)

pub bit_xor_assoc : (a b c : ℕ) → bit_xor (bit_xor a b) c ≡ bit_xor a (bit_xor b c)
bit_xor_assoc a b c = assoc_below (a + b + c) a b c (omega arith)

self_below : (n a : ℕ) → a ≤ n → bit_xor a a ≡ 0
self_below zero zero h = refl
self_below zero (suc a) h = absurd (omega arith)
self_below (suc n) a h = omega (arith, bit_xor_step a a, self_below n (a / 2) (omega arith))

pub bit_xor_self : (a : ℕ) → bit_xor a a ≡ 0
bit_xor_self a = self_below a a (omega arith)

pub bit_xor-zero : (a : ℕ) → bit_xor a 0 ≡ a
bit_xor-zero a = bit_xor_comm a 0 ∙ zero-bit_xor a

-- 2^k * h, and 2^k.
unfoldable pub shifted : ℕ → ℕ → ℕ
shifted zero h = h
shifted (suc k) h = 2 * shifted k h

pub bit_xor_bound : (k a b : ℕ) → a < shifted k 1 → b < shifted k 1 → bit_xor a b < shifted k 1
unfolding shifted
bit_xor_bound zero zero zero p q = omega (arith, zero-bit_xor 0)
bit_xor_bound zero (suc a) b p q = absurd (omega arith)
bit_xor_bound zero zero (suc b) p q = absurd (omega arith)
bit_xor_bound (suc k) a b p q =
    omega (arith, bit_xor_step a b, bit_xor_bound k (a / 2) (b / 2) (omega arith) (omega arith))

-- Numbers that have no bit in common.
pub bit_xor-shifted :
    (k low h : ℕ) → low < shifted k 1 → bit_xor low (shifted k h) ≡ low + shifted k h
unfolding shifted
bit_xor-shifted zero zero h p = omega (arith, zero-bit_xor h)
bit_xor-shifted zero (suc low) h p = absurd (omega arith)
bit_xor-shifted (suc k) low h p =
    let half : 2 * shifted k h / 2 ≡ shifted k h = omega arith in
    omega (
      arith,
      bit_xor_step low (2 * shifted k h),
      ap (bit_xor (low / 2)) half,
      bit_xor-shifted k (low / 2) h (omega arith),
    )
