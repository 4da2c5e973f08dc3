-- ===== src/File/Crc/Bits.antt =====
-- The table against the definition of the CRC by single bits.
use Prim.Native.Nat.{bit_xor}
use amigactl.Prelude.{
  get_elem?, some, ℕ, zero, suc, ◌+◌, ◌*◌, ◌/◌, ◌%◌, ◌<◌, true, false, List, [], ◌∷◌, ◌≡◌, refl, ap,
  sym, ◌∙◌, arith, ◌==◌, if◌then◌else◌, Bool-cases, inl, inr, All,
}
use amigactl.Prelude.Xor.{
  half-bit_xor, parity-bit_xor, bit_xor_assoc, bit_xor_comm, bit_xor_self, bit_xor-zero, shifted,
  bit_xor_bound, bit_xor-shifted,
}
use amigactl.File.Crc.{crc32_table, table_at, crc32_update}

-- IEEE 802.3, with the lowest bit first.
abbrev pub polynomial : ℕ
polynomial = 0xEDB88320

-- One bit of the remainder.
unfoldable pub crc_bit : ℕ → ℕ
crc_bit x = if x % 2 == 1 then bit_xor (x / 2) polynomial else x / 2

unfoldable pub crc_bits : ℕ → ℕ → ℕ
crc_bits zero x = x
crc_bits (suc k) x = crc_bits k (crc_bit x)

-- A message, one bit at a time.
unfoldable pub crc_bytes : ℕ → List ℕ → ℕ
crc_bytes crc [] = crc
crc_bytes crc (b ∷ buf) = crc_bytes (crc_bits 8 (bit_xor crc b)) buf

-- Two terms cancel.
xor_cancel : (a b p : ℕ) → bit_xor (bit_xor a p) (bit_xor b p) ≡ bit_xor a b
xor_cancel a b p =
    bit_xor_assoc a p (bit_xor b p)
    ∙ ap (bit_xor a) (
        ap (bit_xor p) (bit_xor_comm b p)
        ∙ sym (bit_xor_assoc p p b)
        ∙ ap (λ z. bit_xor z b) (bit_xor_self p)
        ∙ bit_xor_comm 0 b
        ∙ bit_xor-zero b)

xor_swap : (a b p : ℕ) → bit_xor (bit_xor a p) b ≡ bit_xor (bit_xor a b) p
xor_swap a b p = bit_xor_assoc a p b ∙ ap (bit_xor a) (bit_xor_comm p b) ∙ sym (bit_xor_assoc a b p)

-- A bit of the remainder is linear.
crc_bit-bit_xor : (a b : ℕ) → crc_bit (bit_xor a b) ≡ bit_xor (crc_bit a) (crc_bit b)
unfolding crc_bit
crc_bit-bit_xor a b =
    rw (half-bit_xor a b, parity-bit_xor a b)
      (elim (Bool-cases (a % 2 == 1)) [
        | inl e ↦ elim (Bool-cases (b % 2 == 1)) [
          | inl f ↦
              let even : ((a + b) % 2 == 1) ≡ false = ground arith in
              rw (e, f, even) (sym (xor_cancel (a / 2) (b / 2) polynomial))
          | inr f ↦
              let odd : ((a + b) % 2 == 1) ≡ true = ground arith in
              rw (e, f, odd) (sym (xor_swap (a / 2) (b / 2) polynomial))
        ]
        | inr e ↦ elim (Bool-cases (b % 2 == 1)) [
          | inl f ↦
              let odd : ((a + b) % 2 == 1) ≡ true = ground arith in
              rw (e, f, odd) (bit_xor_assoc (a / 2) (b / 2) polynomial)
          | inr f ↦ let even : ((a + b) % 2 == 1) ≡ false = ground arith in rw (e, f, even) refl
        ]
      ])

crc_bits-bit_xor : (k a b : ℕ) → crc_bits k (bit_xor a b) ≡ bit_xor (crc_bits k a) (crc_bits k b)
unfolding crc_bits
crc_bits-bit_xor zero a b = refl
crc_bits-bit_xor (suc k) a b =
    ap (crc_bits k) (crc_bit-bit_xor a b) ∙ crc_bits-bit_xor k (crc_bit a) (crc_bit b)

-- Zero bits go out unchanged.
crc_bits-shifted : (k h : ℕ) → crc_bits k (shifted k h) ≡ h
unfolding crc_bits shifted crc_bit
crc_bits-shifted zero h = refl
crc_bits-shifted (suc k) h =
    let even : (2 * shifted k h % 2 == 1) ≡ false = ground arith in
    let half : 2 * shifted k h / 2 ≡ shifted k h = omega arith in
    rw (even, half) (crc_bits-shifted k h)

-- The remainders of so many numbers from `first` on.
remainders : ℕ → ℕ → List ℕ
remainders zero first = []
remainders (suc size) first = crc_bits 8 first ∷ remainders size (first + 1)

-- The table has the remainders of all bytes.
crc32_table-remainders : crc32_table ≡ remainders 256 0
unfolding remainders crc_bits crc_bit
crc32_table-remainders = refl

get_elem?-remainders :
    (size first i : ℕ)
    → i < size
    → get_elem? (remainders size first) i ≡ some (crc_bits 8 (first + i))
unfolding remainders
get_elem?-remainders zero first i lt = absurd (omega arith)
get_elem?-remainders (suc size) first zero lt = ap (λ n. some (crc_bits 8 n)) (omega arith)
get_elem?-remainders (suc size) first (suc i) lt =
    get_elem?-remainders size (first + 1) i (omega arith)
    ∙ ap (λ n. some (crc_bits 8 n)) (omega arith)

table_at-crc_bits : (i : ℕ) → i < 256 → table_at i ≡ crc_bits 8 i
unfolding table_at
table_at-crc_bits i lt =
    let e : get_elem? crc32_table i ≡ some (crc_bits 8 (0 + i)) =
      ap (λ t. get_elem? t i) crc32_table-remainders ∙ get_elem?-remainders 256 0 i lt in
    let same : 0 + i ≡ i = omega arith in rw (e, table_at) (ap (crc_bits 8) same)

-- A step of the table is eight bits of the remainder.
crc_bits-byte :
    (crc b : ℕ)
    → b < 256
    → crc_bits 8 (bit_xor crc b)
      ≡ bit_xor (table_at (bit_xor (crc % 256) (b % 256) % 256)) (crc / 256)
unfolding shifted
crc_bits-byte crc b lt =
    let low = crc % 256 in
    let h = crc / 256 in
    let y = bit_xor low b in
    let y_low : y < 256 = bit_xor_bound 8 low b (omega arith) (omega arith) in
    let whole : crc ≡ bit_xor low (shifted 8 h) =
      omega (arith, bit_xor-shifted 8 low h (omega arith)) in
    let split : bit_xor crc b ≡ bit_xor y (shifted 8 h) =
      ap (λ c. bit_xor c b) whole ∙ xor_swap low b (shifted 8 h) in
    let small : b % 256 ≡ b = omega arith in
    let index : y % 256 ≡ y = omega arith in
    ap (crc_bits 8) split
    ∙ crc_bits-bit_xor 8 y (shifted 8 h)
    ∙ ap (bit_xor (crc_bits 8 y)) (crc_bits-shifted 8 h)
    ∙ rw (small, index, table_at-crc_bits y y_low) refl

abbrev pub IsByte : ℕ → Type 0
IsByte b = b < 256

-- `crc32_update` with its table computes the CRC that is defined bit by bit.
pub crc32_update-crc_bytes :
    (buf : List ℕ) (crc : ℕ) → All IsByte buf → crc32_update crc buf ≡ crc_bytes crc buf
unfolding crc32_update crc_bytes
crc32_update-crc_bytes [] crc v = refl
crc32_update-crc_bytes (b ∷ buf) crc (lt, v) = rw (crc_bits-byte crc b lt) (
    crc32_update-crc_bytes buf
      (bit_xor (table_at (bit_xor (crc % 256) (b % 256) % 256)) (crc / 256)) v)
