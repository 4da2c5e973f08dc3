-- ===== src/Prelude/Decimal.antt =====
-- What `%d` prints: a run of digits.
use Prim.Native.Nat.{ℕ, zero, suc, ◌+◌, ◌/◌, ◌%◌, ◌<◌}
use mathlib.Core.Path.{◌≡◌, refl}
use mathlib.Core.List.{List, [], ◌∷◌, ◌++◌}
use native.Mathlib.Omega.{arith}
use amigactl.Prelude.Tests.{ltb, if_intro}
use amigactl.Prelude.Bytes.{decimal, decimal_from}

pub decimal_from-append :
    (fuel n : ℕ) (rest l : List ℕ) → decimal_from fuel n rest ++ l ≡ decimal_from fuel n (rest ++ l)
unfolding decimal_from
decimal_from-append zero n rest l = refl
decimal_from-append (suc fuel) n rest l =
    ground (arith, decimal_from-append fuel (n / 10) ((48 + n % 10) ∷ rest) l)

module _ {κ} (P : List ℕ → Type κ)
    (digit : (d : ℕ) (l : List ℕ) → d < 10 → P l → P ((48 + d) ∷ l)) where
  decimal_from_keeps : (fuel n : ℕ) (l : List ℕ) → P l → P (decimal_from fuel n l)
  unfolding decimal_from
  decimal_from_keeps zero n l h = h
  decimal_from_keeps (suc fuel) n l h =
      if_intro P (ltb n 10) _ _ (λ e. digit n l (ground arith) h)
        (λ e.
          decimal_from_keeps fuel (n / 10) ((48 + n % 10) ∷ l) (digit (n % 10) l (omega arith) h))

-- What holds of a text and is kept by a digit in front of it holds with a number in front.
pub decimal_keeps {κ} :
    (P : List ℕ → Type κ)
    → ((d : ℕ) (l : List ℕ) → d < 10 → P l → P ((48 + d) ∷ l))
    → (n : ℕ) (l : List ℕ) → P l
    → P (decimal n ++ l)
unfolding decimal
decimal_keeps P digit n l h =
    rw (decimal_from-append (suc n) n [] l) (decimal_from_keeps P digit (suc n) n l h)
