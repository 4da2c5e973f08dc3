-- ===== src/File/Protect/Tests.antt =====
-- Bits are set, and shown.
use amigactl.Prelude.{ℕ, List, [], ◌∷◌, ◌++◌, some, ◌≡◌, refl, arith, codes, is_blank}
use amigactl.Inbound.{empty, clip}
use amigactl.Receive.{Conn}
use amigactl.File.Arguments.{trim_end, split_last}
use amigactl.File.Checksum.{hex}
use amigactl.File.Ram.{Ram, ram, set_bits, beq_self}
use amigactl.File.Upload.{reply_with}
use amigactl.File.Protect.{
  cmd_protect, run_mode, set_mode, is_hex, all_hex, bits_lines, after_lock, after_examine,
}
use amigactl.File.Protect.Echo.{KeepsBits, Protected, cmd_protect-Protected}

abbrev script : List ℕ
script = codes "S:go now"

abbrev disk : Ram
disk = record { files = λ q. some []; err = 0; bits = λ q. 15; pos = λ q. 0 }

abbrev client : Conn
client = record { inbox = empty; stream = []; calls = 0 }

-- The last word is no number: the bits are shown.
show_run : cmd_protect ram script client disk ≡ reply_with ram (bits_lines 15) client disk
unfolding cmd_protect run_mode set_mode split_last is_hex all_hex is_blank clip after_lock
    after_examine
show_run = refl

ram-KeepsBits : KeepsBits ram
unfolding set_bits
ram-KeepsBits = record {
  set_bits = λ p n d h. rw (beq_self p) refl;
  locked = λ p d. refl;
  examined = λ p d. refl;
}

no_blank : trim_end script ≡ script
unfolding trim_end is_blank
no_blank = refl

cmd_protect-Protected_example :
    Protected ram script 64 client (cmd_protect ram (script ++ (32 ∷ hex 8 64)) client disk)
cmd_protect-Protected_example =
    cmd_protect-Protected ram ram-KeepsBits script 64 client disk (omega arith) (omega arith)
      (omega arith) no_blank
