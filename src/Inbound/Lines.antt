-- ===== src/Inbound/Lines.antt =====
-- Lines in a buffer.
use amigactl.Prelude.{
  ℕ, ◌+◌, ◌≤◌, ◌<◌, false, List, [], ◌∷◌, ◌++◌, none, some, ◌≡◌, refl, arith, ◌==◌, length, lf,
  lt→leb_false,
}
use amigactl.Inbound.{recv_buf_size, max_cmd_len, split_line, strip_cr, clip}

pub nil_partial : split_line [] ≡ none
unfolding split_line
nil_partial = refl

pub split_line-append-lf :
    (p cs : List ℕ) → split_line p ≡ none → split_line (p ++ (lf ∷ cs)) ≡ some (p, cs)
unfolding split_line
split_line-append-lf [] cs h = refl
split_line-append-lf (c ∷ p) cs h = ground (arith, split_line-append-lf p cs)

pub split_line-append_ne :
    (p : List ℕ) (c : ℕ)
    → split_line p ≡ none
    → (c == lf) ≡ false
    → split_line (p ++ (c ∷ [])) ≡ none
unfolding split_line
split_line-append_ne [] c h n = ground arith
split_line-append_ne (d ∷ p) c h n = ground (arith, split_line-append_ne p c)

pub length-strip_cr : (s : List ℕ) → length (strip_cr s) ≤ length s
unfolding strip_cr
length-strip_cr [] = omega arith
length-strip_cr (c ∷ []) = ground arith
length-strip_cr (c ∷ d ∷ s) = omega (arith, length-strip_cr (d ∷ s))

pub clip_short : (s : List ℕ) → length s < recv_buf_size → clip (max_cmd_len + 1) s ≡ s
unfolding clip
clip_short s h = rw (lt→leb_false (max_cmd_len + 1) (length s) h)
