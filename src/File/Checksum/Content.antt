-- ===== src/File/Checksum/Content.antt =====
-- The loop of CHECKSUM and the CRC of all the bytes of a file.
use Prim.Native.Nat.{bit_xor}
use amigactl.Prelude.{
  ℕ, zero, suc, ◌+◌, ◌<◌, Bool, true, false, List, [], ◌∷◌, ◌++◌, Option, none, some, ◌≡◌, refl, ap,
  sym, ◌∙◌, arith, length, length-drop, take, drop, min, codes, decimal, All, take-nil, inl, inr,
  ◌⊎◌, if_intro, ◌==◌,
}
use amigactl.Effects.{Effect, reply, refuse, err_syntax, err_io, err_internal}
use amigactl.Wire.Frames.{ok, payload, sentinel}
use amigactl.File.Dos.{Dos, send_dos_error}
use amigactl.File.Upload.{says_ok}
use amigactl.File.Crc.{crc32_update}
use amigactl.File.Crc.Bits.{crc_bytes, IsByte, crc32_update-crc_bytes}
use amigactl.File.Checksum.{
  Reader, given, after_read, checksum_loop, hex, checksum_reply, checksum_opened, checksum_examined,
  checksum_locked, cmd_checksum, csum_buf_size,
}

crc32_update-append :
    (xs ys : List ℕ) (crc : ℕ) → crc32_update crc (xs ++ ys) ≡ crc32_update (crc32_update crc xs) ys
unfolding crc32_update
crc32_update-append [] ys crc = refl
crc32_update-append (b ∷ xs) ys crc = crc32_update-append xs ys _

-- The loop ends with the CRC of all the bytes, or with an error.
Ends : ℕ → Option (Option ℕ) → Type 0
Ends crc r = (r ≡ some (some crc)) ⊎ (r ≡ some none)

crc32_update-nil : (crc : ℕ) → crc32_update crc [] ≡ crc
unfolding crc32_update
crc32_update-nil crc = refl

take-append-length : (m : ℕ) (xs : List ℕ) → take m xs ++ drop (length (take m xs)) xs ≡ xs
take-append-length zero xs = refl
take-append-length (suc m) [] = refl
take-append-length (suc m) (x ∷ xs) = ap (λ l. x ∷ l) (take-append-length m xs)

round-Ends :
    (again : ℕ → List ℕ → Option (Option ℕ)) (crc : ℕ) (left : List ℕ) (o : Option ℕ)
    → ((crc' : ℕ) (rest : List ℕ)
        → length rest < length left
        → Ends (crc32_update crc' rest) (again crc' rest))
    → Ends (crc32_update crc left) (after_read again crc left (given o left))
unfolding after_read given Ends
round-Ends again crc left none ih = inr refl
round-Ends again crc [] (some k) ih =
    rw (take-nil {A = ℕ} (min (suc k) csum_buf_size))
      (inl (ap (λ c. some (some c)) (sym (crc32_update-nil crc))))
round-Ends again crc (b ∷ left) (some k) ih =
    let m = min k 4095 in
    let n : min (suc k) csum_buf_size ≡ suc m = omega arith in
    let first = b ∷ take m left in
    let rest = drop (length (take m left)) left in
    let whole : first ++ rest ≡ b ∷ left = ap (λ l. b ∷ l) (take-append-length m left) in
    let total : crc32_update crc (b ∷ left) ≡ crc32_update (crc32_update crc first) rest =
      ap (crc32_update crc) (sym whole) ∙ crc32_update-append first rest crc in
    let ends : Ends (crc32_update (crc32_update crc first) rest)
        (again (crc32_update crc first) rest) =
      ih (crc32_update crc first) rest (omega (arith, length-drop (length (take m left)) left)) in
    rw (n, total) ends

checksum_loop-Ends :
    (reader : Reader) (fuel call crc : ℕ) (left : List ℕ)
    → length left < fuel
    → Ends (crc32_update crc left) (checksum_loop reader fuel call crc left)
unfolding checksum_loop
checksum_loop-Ends reader zero call crc left lt = absurd (omega arith)
checksum_loop-Ends reader (suc fuel) call crc left lt =
    round-Ends (checksum_loop reader fuel (call + 1)) crc left (reader.gives call)
      (λ crc' rest shorter. checksum_loop-Ends reader fuel (call + 1) crc' rest (omega arith))

-- The reply with the CRC of a file's bytes as it is defined bit by bit, inverted before and after.
abbrev pub crc_reply : List ℕ → ℕ → List Effect
crc_reply content size =
    reply (ok none)
    ∷ reply (payload (codes "crc32=" ++ hex 8 (bit_xor (crc_bytes 0xFFFFFFFF content) 0xFFFFFFFF)))
    ∷ reply (payload (codes "size=" ++ decimal size))
    ∷ reply sentinel
    ∷ []

-- The command ends, with that reply or with none that says OK.
abbrev pub Answered : List ℕ → Option (List Effect) → Type 0
Answered content o =
    (output : List Effect) × (o ≡ some output)
    × ((says_ok output ≡ false) ⊎ ((size : ℕ) × (output ≡ crc_reply content size)))

module _ (dos : Dos) (reader : Reader) (content : List ℕ) (v : All IsByte content) where
  failed : (output : List Effect) → says_ok output ≡ false → Answered content (some output)
  failed output silent = (output, refl, inl silent)

  opened-Answered :
      (size : ℕ) (w : Bool × dos.Disk)
      → Answered content (checksum_opened dos reader content size w)
  unfolding checksum_opened checksum_reply Ends says_ok send_dos_error
  opened-Answered size (false, d) = failed (send_dos_error dos "Open failed" d) refl
  opened-Answered size (true, d) =
      elim (checksum_loop-Ends reader (suc (length content)) 0 0xFFFFFFFF content (omega arith)) [
        | inl e ↦
            rw (e, crc32_update-crc_bytes content 0xFFFFFFFF v)
              (crc_reply content size, refl, inr (size, refl))
        | inr e ↦ rw e (failed (send_dos_error dos "Read failed" d) refl)
      ]

  examined-Answered :
      (args : List ℕ) (w : Bool × dos.Disk)
      → Answered content (checksum_examined dos reader content args w)
  unfolding checksum_examined says_ok send_dos_error
  examined-Answered args (false, d) = failed (send_dos_error dos "Examine failed" d) refl
  examined-Answered args (true, d) =
      if_intro (Answered content) (dos.is_directory args d) _ _
        (λ _. failed (refuse err_io "Is a directory") refl)
        (λ _. opened-Answered (dos.file_size args d) (dos.open_old args d))

  locked-Answered :
      (args : List ℕ) (w : Bool × dos.Disk)
      → Answered content (checksum_locked dos reader content args w)
  unfolding checksum_locked says_ok send_dos_error
  locked-Answered args (false, d) = failed (send_dos_error dos "Lock failed" d) refl
  locked-Answered args (true, d) =
      if_intro (Answered content) (dos.alloc_fib d) _ _
        (λ _. examined-Answered args (dos.examine args d))
        (λ _. failed (refuse err_internal "Out of memory") refl)

  -- However `Read` cuts a file of bytes, CHECKSUM ends; if its reply says OK, it has the CRC of
  -- these bytes as it is defined bit by bit, inverted before and after.
  pub cmd_checksum-Answered :
      (args : List ℕ) (d : dos.Disk) → Answered content (cmd_checksum dos reader content args d)
  unfolding cmd_checksum says_ok
  cmd_checksum-Answered args d =
      if_intro (Answered content) (length args == 0) _ _
        (λ _. failed (refuse err_syntax "Missing path argument") refl)
        (λ _. locked-Answered args (dos.lock args d))
