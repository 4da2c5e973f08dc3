-- ===== src/File/Read/Slice.antt =====
-- What READ sends: the part of the file that was asked for.
use amigactl.Prelude.{
  ℕ, false, List, ◌∷◌, ◌++◌, Option, some, concat, ◌≡◌, refl, length, take, drop, decimal, ◌⊎◌, inl,
}
use amigactl.Effects.{Effect, reply}
use amigactl.Wire.Frames.{ok}
use amigactl.File.Dos.{Dos, Laws}
use amigactl.File.Upload.{says_ok}
use amigactl.File.Read.{
  Delivery, complete, Transmitted, after_offset, start_of, at_most, chunk_replies, ending_replies,
}

-- The bytes that a READ is about.
unfoldable pub wanted : Option ℕ → Option ℕ → List ℕ → List ℕ
wanted offset count content =
    take (at_most count (after_offset offset (length content))) (drop (start_of offset) content)

-- The reply of a READ that says OK: the size of what is wanted, and then its bytes in order, up to
-- where a read or a send failed.
pub record Served (bytes : List ℕ) (output : List Effect) : Type 0 where
  pub copied : Transmitted
  pub frames :
      output
      ≡ reply (ok (some (decimal (length bytes))))
        ∷ (chunk_replies copied.chunks ++ ending_replies copied.ending)
  pub sent : ℕ
  pub prefix : concat copied.chunks ≡ take sent bytes
  pub whole : copied.ending ≡ complete → concat copied.chunks ≡ bytes

abbrev pub Answered : List ℕ → Option (List Effect) → Type 0
Answered bytes o =
    (output : List Effect) × (o ≡ some output) × ((says_ok output ≡ false) ⊎ Served bytes output)

refused :
    (bytes : List ℕ) (output : List Effect) → says_ok output ≡ false → Answered bytes (some output)
refused bytes output silent = (output, refl, inl silent)

module _ (dos : Dos) (sys : Delivery) {contents : dos.Disk → List ℕ → Option (List ℕ)}
    {Apart : List ℕ → List ℕ → Type 0} (laws : Laws dos contents Apart) (content : List ℕ)
    (offset count : Option ℕ) (path : List ℕ) where
  abbrev Goal : Option (List Effect) → Type 0
  Goal o = Answered (wanted offset count content) o

  abbrev refused_here : (output : List Effect) → says_ok output ≡ false → Goal (some output)
  refused_here output silent = refused (wanted offset count content) output silent
