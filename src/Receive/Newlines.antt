-- ===== src/Receive/Newlines.antt =====
-- The first newline of a buffer and of the bytes behind it.
use amigactl.Prelude.{
  ℕ, suc, ◌+◌, ◌≤◌, false, List, [], ◌∷◌, ◌++◌, append_assoc, Option, none, some, ◌≡◌, refl, ap,
  ◌∙◌, arith, length, length-append, Option-cases, inl, inr, Bool-cases, lf, ◌==◌, ==_iff,
}
use amigactl.Inbound.{split_line}
use amigactl.Inbound.Lines.{split_line-append-lf}

-- A found line is followed by the newline, and has none.
Found : List ℕ → Option (List ℕ × List ℕ) → Type 0
Found p none = split_line p ≡ none
Found p (some (line, rest)) = (p ≡ line ++ (lf ∷ rest)) × (split_line line ≡ none)

split_line-none :
    (c : ℕ) (p : List ℕ) → (c == lf) ≡ false → split_line p ≡ none → split_line (c ∷ p) ≡ none
unfolding split_line
split_line-none c p n e = rw (n, e) refl

split_line-Found : (p : List ℕ) → Found p (split_line p)
unfolding split_line Found
split_line-Found [] = refl
split_line-Found (c ∷ p) = elim (Bool-cases (c == lf)) [
  | inl e ↦ rw e (ap (λ d. d ∷ p) ((==_iff c lf).0 e), refl)
  | inr n ↦ rw n (elim (Option-cases (split_line p)) [
    | inl e ↦ rw e (split_line-none c p n e)
    | inr ((line, rest), e) ↦
        let ih : Found p (some (line, rest)) = rw e at (split_line-Found p) in
        rw e (ap (λ q. c ∷ q) ih.0, split_line-none c line n ih.1)
  ])
]

split_line-some :
    (p line rest : List ℕ)
    → split_line p ≡ some (line, rest)
    → (p ≡ line ++ (lf ∷ rest)) × (split_line line ≡ none)
unfolding Found
split_line-some p line rest e = rw e at (split_line-Found p)

-- A line in the buffer is the first line of all.
pub split_line-append :
    (p s line rest : List ℕ)
    → split_line p ≡ some (line, rest)
    → split_line (p ++ s) ≡ some (line, rest ++ s)
split_line-append p s line rest h =
    let (whole, bare) = split_line-some p line rest h in
    ap (λ q. split_line (q ++ s)) whole
    ∙ ap split_line (append_assoc line (lf ∷ rest) s)
    ∙ split_line-append-lf line (rest ++ s) bare

pub split_line-length :
    (p line rest : List ℕ)
    → split_line p ≡ some (line, rest)
    → length p ≡ length line + suc (length rest)
split_line-length p line rest h =
    ap length (split_line-some p line rest h).0 ∙ length-append line (lf ∷ rest)

-- A line that ends behind the buffer is no shorter than the buffer.
newline-beyond :
    (p s line rest : List ℕ)
    → split_line p ≡ none
    → p ++ s ≡ line ++ (lf ∷ rest)
    → length p ≤ length line
unfolding split_line
newline-beyond [] s line rest h e = omega arith
newline-beyond (c ∷ p) s [] rest h e =
    let first : c ≡ lf = cc in
    let found : split_line (c ∷ p) ≡ some ([], p) = rw first refl in absurd cc
newline-beyond (c ∷ p) s (d ∷ line) rest h e =
    let rest_same : p ++ s ≡ line ++ (lf ∷ rest) = cc in
    omega (arith, newline-beyond p s line rest (tail_none h) rest_same)
  where
    tail_none : split_line (c ∷ p) ≡ none → split_line p ≡ none
    tail_none h = ground arith

pub split_line-beyond :
    (p s line rest : List ℕ)
    → split_line p ≡ none
    → split_line (p ++ s) ≡ some (line, rest)
    → length p ≤ length line
split_line-beyond p s line rest h e =
    newline-beyond p s line rest h (split_line-some (p ++ s) line rest e).0
