-- ===== src/File/Read/Loop.antt =====
-- The loop of READ, for any answers of its reads and sends.
use amigactl.Prelude.{
  ℕ, zero, suc, ◌+◌, ◌-◌, ◌<◌, ◌≤◌, Bool, true, false, List, [], ◌∷◌, ◌++◌, Option, none, some,
  concat, ◌≡◌, refl, ap, sym, ◌∙◌, arith, length, length-take, length-drop, take, drop, min,
  take-add,
}
use amigactl.File.Read.{
  Delivery, complete, read_failed, send_failed, Transmitted, stop, with_chunk, after_bytes,
  after_part, read_loop,
}

-- The loop ends, and the chunks are the first bytes of what is left; if it is complete and the
-- file has enough bytes, they are all that were wanted.
unfoldable pub Slice : ℕ → List ℕ → Transmitted → Type 0
Slice remaining left r =
    (n : ℕ) × (concat r.chunks ≡ take n left)
    × (n ≤ remaining)
    × (r.ending ≡ complete → remaining ≤ length left → n ≡ remaining)

unfoldable pub EndsSlice : ℕ → List ℕ → Option Transmitted → Type 0
EndsSlice remaining left o = (r : Transmitted) × (o ≡ some r) × Slice remaining left r

take-length : (m : ℕ) (xs : List ℕ) → take (length (take m xs)) xs ≡ take m xs
take-length zero xs = refl
take-length (suc m) [] = refl
take-length (suc m) (x ∷ xs) = ap (λ l. x ∷ l) (take-length m xs)

module _ (again : ℕ → List ℕ → Option Transmitted) (remaining : ℕ) where
  bytes-EndsSlice :
      (delivered : Bool) (m : ℕ) (left : List ℕ)
      → 0 < m
      → m ≤ remaining
      → ((rest : List ℕ) (n : ℕ)
          → 0 < n
          → EndsSlice (remaining - n) rest (again (remaining - n) rest))
      → 0 < remaining
      → EndsSlice remaining left (after_bytes again delivered remaining left (take m left))
  unfolding after_bytes stop with_chunk EndsSlice Slice
  bytes-EndsSlice delivered zero left pos le ih want = absurd (omega arith)
  bytes-EndsSlice delivered (suc m) [] pos le ih want = (
    record { chunks = []; ending = complete },
    refl,
    (0, refl, omega arith, λ h low. omega arith),
  )
  bytes-EndsSlice false (suc m) (b ∷ left) pos le ih want = (
    record { chunks = []; ending = send_failed },
    refl,
    (0, refl, omega arith, λ h low. absurd cc),
  )
  bytes-EndsSlice true (suc m) (b ∷ left) pos le ih want =
      let t = length (take m left) in
      let size = length-take m left in
      let rest = drop t left in
      let left_over = length-drop t left in
      let (r, e, (k, bytes, short, all_sent)) = ih rest (suc t) (omega arith) in
      let joined : (b ∷ take m left) ++ concat r.chunks ≡ take (suc (t + k)) (b ∷ left) =
        ap (λ l. b ∷ l)
          (ap (λ l. take m left ++ l) bytes
            ∙ ap (λ l. l ++ take k rest) (sym (take-length m left))
            ∙ sym (take-add t k left)) in
      (
        record r { chunks = (b ∷ take m left) ∷ r.chunks },
        rw e refl,
        (
          suc (t + k),
          joined,
          omega arith,
          λ h low. let same = all_sent h (omega arith) in omega arith,
        ),
      )

  after_part-EndsSlice :
      (delivered : Bool) (left : List ℕ) (o : Option ℕ)
      → ((rest : List ℕ) (n : ℕ)
          → 0 < n
          → EndsSlice (remaining - n) rest (again (remaining - n) rest))
      → 0 < remaining
      → EndsSlice remaining left (after_part again delivered remaining left o)
  unfolding after_part stop EndsSlice Slice
  after_part-EndsSlice delivered left none ih want = (
    record { chunks = []; ending = read_failed },
    refl,
    (0, refl, omega arith, λ h low. absurd cc),
  )
  after_part-EndsSlice delivered left (some k) ih want =
      bytes-EndsSlice delivered (min (suc k) (min remaining 4096)) left (omega arith) (omega arith)
        ih want

pub read_loop-EndsSlice :
    (sys : Delivery) (fuel call remaining : ℕ) (left : List ℕ)
    → remaining < fuel
    → EndsSlice remaining left (read_loop sys fuel call remaining left)
unfolding read_loop stop EndsSlice Slice
read_loop-EndsSlice sys zero call remaining left lt = absurd (omega arith)
read_loop-EndsSlice sys (suc fuel) call zero left lt =
    (record { chunks = []; ending = complete }, refl, (0, refl, omega arith, λ h low. refl))
read_loop-EndsSlice sys (suc fuel) call (suc remaining) left lt =
    after_part-EndsSlice (read_loop sys fuel (call + 1)) (suc remaining) (sys.delivers call) left
      (sys.gives call)
      (λ rest n pos. read_loop-EndsSlice sys fuel (call + 1) (suc remaining - n) rest (omega arith))
      (omega arith)
