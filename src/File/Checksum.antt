-- ===== src/File/Checksum.antt =====
-- `cmd_checksum` of daemon/file.c.
pub mod Content
mod Tests
use Prim.Native.Nat.{bit_xor}
use amigactl.Prelude.{
  ℕ, zero, suc, ◌+◌, ◌/◌, ◌%◌, Bool, true, false, List, [], ◌∷◌, ◌++◌, Option, none, some, ltb,
  ◌==◌, if◌then◌else◌, length, take, drop, min, codes, decimal,
}
use amigactl.Effects.{Effect, reply, refuse, err_syntax, err_io, err_internal}
use amigactl.Wire.Frames.{Frame, ok, payload, sentinel}
use amigactl.File.Dos.{Dos, send_dos_error}
use amigactl.File.Crc.{crc32_update}

-- What `Read` does on an open file: the call of that number fails, or gives one byte more than
-- this, if the file has so many left and so many are asked for.
pub record Reader : Type 0 where
  pub gives : ℕ → Option ℕ

abbrev pub csum_buf_size : ℕ
csum_buf_size = 4096

unfoldable pub given : Option ℕ → List ℕ → Option (List ℕ)
given none left = none
given (some k) left = some (take (min (suc k) csum_buf_size) left)

-- Behind a call of `Read`; `again` is the next round, on what it gives and what is left.
unfoldable pub after_read :
    (ℕ → List ℕ → Option (Option ℕ)) → ℕ → List ℕ → Option (List ℕ) → Option (Option ℕ)
after_read again crc left none = some none
after_read again crc left (some []) = some (some crc)
after_read again crc left (some (b ∷ bytes)) =
    again (crc32_update crc (b ∷ bytes)) (drop (length (b ∷ bytes)) left)

-- The loop; `none` for the whole means that the fuel ran out, `none` inside is an error.
unfoldable pub checksum_loop : Reader → ℕ → ℕ → ℕ → List ℕ → Option (Option ℕ)
unfolding after_read given
checksum_loop reader zero call crc left = none
checksum_loop reader (suc fuel) call crc left =
    after_read (checksum_loop reader fuel (call + 1)) crc left (given (reader.gives call) left)

unfoldable pub hex_digit : ℕ → ℕ
hex_digit d = if ltb d 10 then 48 + d else 87 + d

-- The lowest `width` hexadecimal digits, with zeros in front.
unfoldable pub hex : ℕ → ℕ → List ℕ
hex zero n = []
hex (suc width) n = hex width (n / 16) ++ (hex_digit (n % 16) ∷ [])

module _ (dos : Dos) (reader : Reader) (content : List ℕ) where
  unfoldable pub checksum_reply : ℕ → dos.Disk → Option (Option ℕ) → Option (List Effect)
  unfolding hex
  checksum_reply size d none = none
  checksum_reply size d (some none) = some (send_dos_error dos "Read failed" d)
  checksum_reply size d (some (some crc)) = some (
      reply (ok none)
      ∷ reply (payload (codes "crc32=" ++ hex 8 (bit_xor crc 0xFFFFFFFF)))
      ∷ reply (payload (codes "size=" ++ decimal size))
      ∷ reply sentinel
      ∷ [])

  unfoldable pub checksum_opened : ℕ → Bool × dos.Disk → Option (List Effect)
  unfolding checksum_reply checksum_loop
  checksum_opened size (false, d) = some (send_dos_error dos "Open failed" d)
  checksum_opened size (true, d) =
      checksum_reply size d (checksum_loop reader (suc (length content)) 0 0xFFFFFFFF content)

  unfoldable pub checksum_examined : List ℕ → Bool × dos.Disk → Option (List Effect)
  unfolding checksum_opened
  checksum_examined args (false, d) = some (send_dos_error dos "Examine failed" d)
  checksum_examined args (true, d) =
      if dos.is_directory args d
      then some (refuse err_io "Is a directory")
      else checksum_opened (dos.file_size args d) (dos.open_old args d)

  unfoldable pub checksum_locked : List ℕ → Bool × dos.Disk → Option (List Effect)
  unfolding checksum_examined
  checksum_locked args (false, d) = some (send_dos_error dos "Lock failed" d)
  checksum_locked args (true, d) =
      if dos.alloc_fib d
      then checksum_examined args (dos.examine args d)
      else some (refuse err_internal "Out of memory")

  -- The sends of CHECKSUM, where `content` is what the file holds while it is read.
  unfoldable pub cmd_checksum : List ℕ → dos.Disk → Option (List Effect)
  unfolding checksum_locked
  cmd_checksum args d =
      if length args == 0
      then some (refuse err_syntax "Missing path argument")
      else checksum_locked args (dos.lock args d)
