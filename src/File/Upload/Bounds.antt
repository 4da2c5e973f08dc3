-- ===== src/File/Upload/Bounds.antt =====
-- The sizes of a transfer: of its chunks, and of all of them under APPEND's cap.
use amigactl.Prelude.{
  ℕ, zero, suc, ◌+◌, ◌<◌, ◌≤◌, ◌%◌, ◌^◌, Bool, true, false, not, ◌||◌, List, [], ◌∷◌, Option, none,
  some, concat, All, ◌==◌, ◌≡◌, arith, length, length-append, drop, if_intro, beq, c_str, codes,
  ltb,
}
use amigactl.Prelude.Strtol.{strtoul}
use amigactl.Wire.Client.{starts_with}
use amigactl.Receive.Pending.{next_line, next_bytes}
use amigactl.File.Dos.{Dos}
use amigactl.File.Arguments.{Header, end_line, data_line, malformed, header}
use amigactl.File.Upload.Stream.{
  Sent, sent_bytes, sent_header, sent_line, sent_by, sent, IsChunk, Stored, store, store_next,
}
use amigactl.File.Upload.Rounds.{Counted, next_bytes-Counted}

InBounds : Header → Type 0
InBounds end_line = Unit
InBounds (data_line n) = (0 < n) × (n ≤ 4096)
InBounds malformed = Unit

header-InBounds : (line : List ℕ) → InBounds (header line)
unfolding header InBounds
header-InBounds line =
    let text = c_str line in
    let n : ℕ = (strtoul (drop 5 text)).0 in
    let end : List ℕ = (strtoul (drop 5 text)).1 in
    if_intro InBounds (beq text (codes "END")) _ _ (λ _. tt)
      (λ _.
        if_intro InBounds (starts_with text (codes "DATA ")) _ _
          (λ _.
            if_intro InBounds (not (length end == 0) || ((n == 0) || ltb 4096 n)) _ _ (λ _. tt)
              (λ e. (ground arith, ground arith)))
          (λ _. tt))

module _ (again : List ℕ → Sent) (ih : (p : List ℕ) → All IsChunk (again p).chunks) where
  bytes-IsChunk :
      (n : ℕ) (p : List ℕ) (o : Option (List ℕ × List ℕ))
      → (0 < n) × (n ≤ 4096)
      → Counted n p o
      → All IsChunk (sent_bytes again o).chunks
  unfolding sent_bytes Counted IsChunk
  bytes-IsChunk n p none v counted = tt
  bytes-IsChunk n p (some (bytes, rest)) (pos, le) (counted, _) =
      ((omega (arith, pos, counted), omega (arith, le, counted)), ih rest)

  header-IsChunk :
      (p : List ℕ) (h : Header) → InBounds h → All IsChunk (sent_header again p h).chunks
  unfolding sent_header InBounds
  header-IsChunk p end_line v = tt
  header-IsChunk p (data_line n) v = bytes-IsChunk n p (next_bytes n p) v (next_bytes-Counted n p)
  header-IsChunk p malformed v = tt

  line-IsChunk : (o : Option (List ℕ × List ℕ)) → All IsChunk (sent_line again o).chunks
  unfolding sent_line
  line-IsChunk none = tt
  line-IsChunk (some (line, rest)) = header-IsChunk rest (header line) (header-InBounds line)

sent_by-IsChunk : (fuel : ℕ) (p : List ℕ) → All IsChunk (sent_by fuel p).chunks
unfolding sent_by
sent_by-IsChunk zero p = tt
sent_by-IsChunk (suc fuel) p =
    line-IsChunk (sent_by fuel) (λ q. sent_by-IsChunk fuel q) (next_line 128 p)

-- Whatever a client sends, every chunk that is taken has 1 to 4096 bytes, so that it fits into the
-- handlers' buffer.
pub sent-IsChunk : (p : List ℕ) → All IsChunk (sent p).chunks
unfolding sent
sent-IsChunk p = sent_by-IsChunk (suc (length p)) p

module _ (dos : Dos) (path : List ℕ) (declared_size : ℕ) (small : declared_size ≤ 0x7FFFFFFF)
    (over : ℕ → Bool) (cap : (total : ℕ) → over total ≡ false → total ≤ declared_size + 4096) where
  next-exact :
      (chunks : List (List ℕ)) (total : ℕ) (bytes : List ℕ) (w : Bool × dos.Disk)
      → total ≤ declared_size + 4096
      → IsChunk bytes
      → ((total' : ℕ)
          → total' ≤ declared_size + 4096
          → (store dos path over chunks total' w.1).success ≡ true
          → (store dos path over chunks total' w.1).total ≡ total' + length (concat chunks))
      → (store_next dos path over (store dos path over chunks) total (length bytes) w).success
        ≡ true
      → (store_next dos path over (store dos path over chunks) total (length bytes) w).total
        ≡ total + length (concat (bytes ∷ chunks))
  unfolding store_next IsChunk
  next-exact chunks total bytes (false, d) low v ih = λ h. absurd cc
  next-exact chunks total bytes (true, d) low (pos, le) ih =
      let total' = (total + length bytes) % 2 ^ 32 in
      if_intro
        (λ (r : Stored dos path over).
          r.success ≡ true → r.total ≡ total + length (concat (bytes ∷ chunks)))
        (over total') _ _ (λ _ h. absurd cc)
        (λ e h.
          omega (
            arith,
            ih total' (cap total' e) h,
            length-append bytes (concat chunks),
            low,
            le,
            small,
          ))

  -- Under the cap the count of the bytes never wraps.
  pub store-exact :
      (chunks : List (List ℕ)) (total : ℕ) (d : dos.Disk)
      → total ≤ declared_size + 4096
      → All IsChunk chunks
      → (store dos path over chunks total d).success ≡ true
      → (store dos path over chunks total d).total ≡ total + length (concat chunks)
  unfolding store
  store-exact [] total d low v = λ h. omega arith
  store-exact (bytes ∷ chunks) total d low (v, vs) =
      next-exact chunks total bytes (dos.write path bytes d) low v
        (λ total' low'. store-exact chunks total' (dos.write path bytes d).1 low' vs)
