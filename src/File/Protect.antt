-- ===== src/File/Protect.antt =====
-- PROTECT, `cmd_protect` of daemon/file.c. The lock and the FileInfoBlock are given back on every
-- way; that they are is not modelled.
pub mod Hex
pub mod Echo
mod Tests
use amigactl.Prelude.{
  ℕ, ◌+◌, ◌-◌, ◌*◌, Bool, true, false, ◌&&◌, ◌||◌, List, [], ◌∷◌, ◌++◌, Option, none, some, ◌==◌,
  leb, if◌then◌else◌, length, codes, is_blank,
}
use amigactl.Effects.{Effect, reply, refuse, err_syntax, err_internal}
use amigactl.Wire.Frames.{ok, payload, sentinel}
use amigactl.Inbound.{clip, max_cmd_len}
use amigactl.Receive.{Conn}
use amigactl.File.Dos.{Dos, send_dos_error}
use amigactl.File.Checksum.{hex}
use amigactl.File.Upload.{Reply, reply_with}
use amigactl.File.Arguments.{split_last, trim_end}

unfoldable pub is_hex : ℕ → Bool
is_hex c = (leb 48 c && leb c 57) || ((leb 97 c && leb c 102) || (leb 65 c && leb c 70))

unfoldable pub all_hex : List ℕ → Bool
unfolding is_hex
all_hex [] = true
all_hex (c ∷ s) = is_hex c && all_hex s

unfoldable pub digit_value : ℕ → ℕ
digit_value c = if leb c 57 then c - 48 else if leb 97 c then c - 87 else c - 55

-- `strtoul` to base 16 on digits alone, after `n`; it reads them all.
unfoldable pub hex_value : ℕ → List ℕ → ℕ
unfolding digit_value
hex_value n [] = n
hex_value n (c ∷ s) = hex_value (n * 16 + digit_value c) s

-- The path and the bits of the SET mode.
unfoldable pub set_mode : List ℕ → Option (List ℕ × ℕ)
unfolding split_last all_hex hex_value trim_end
set_mode path = elim (split_last path) [
  | none ↦ none
  | some (before, token) ↦
      if leb 1 (length token) && (leb (length token) 8 && all_hex token)
      then some (trim_end before, hex_value 0 token)
      else none
]

-- The reply with the bits.
abbrev pub bits_lines : ℕ → List Effect
bits_lines bits =
    reply (ok none) ∷ reply (payload (codes "protection=" ++ hex 8 bits)) ∷ reply sentinel ∷ []

module _ (dos : Dos) (path : List ℕ) (c : Conn) where
  unfoldable pub after_examine : Bool × dos.Disk → Reply dos
  after_examine (false, d) = reply_with dos (send_dos_error dos "Examine failed" d) c d
  after_examine (true, d) = reply_with dos (bits_lines (dos.protection path d)) c d

  unfoldable pub after_lock : Bool × dos.Disk → Reply dos
  unfolding after_examine
  after_lock (false, d) = reply_with dos (send_dos_error dos "Lock failed" d) c d
  after_lock (true, d) =
      if dos.alloc_fib d
      then after_examine (dos.examine path d)
      else reply_with dos (refuse err_internal "Out of memory") c d

  unfoldable pub after_protection : Bool × dos.Disk → Reply dos
  unfolding after_lock
  after_protection (false, d) = reply_with dos (send_dos_error dos "SetProtection failed" d) c d
  after_protection (true, d) = after_lock (dos.lock path d)

module _ (dos : Dos) where
  unfoldable pub run_mode : List ℕ → Option (List ℕ × ℕ) → Conn → dos.Disk → Reply dos
  unfolding after_lock after_protection
  run_mode path none c d =
      if length path == 0
      then reply_with dos (refuse err_syntax "Missing path argument") c d
      else after_lock dos path c (dos.lock path d)
  run_mode args (some (path, bits)) c d =
      if length path == 0
      then reply_with dos (refuse err_syntax "Missing path argument") c d
      else after_protection dos path c (dos.set_protection path bits d)

  unfoldable pub cmd_protect : List ℕ → Conn → dos.Disk → Reply dos
  unfolding run_mode set_mode
  cmd_protect args c d =
      if length args == 0
      then reply_with dos (refuse err_syntax "Missing path argument") c d
      else run_mode (clip (max_cmd_len + 1) args) (set_mode (clip (max_cmd_len + 1) args)) c d
