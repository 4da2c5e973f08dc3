-- ===== src/File/Checksum/Tests.antt =====
-- The CRC of a small file, read in pieces.
use Prim.Native.Nat.{bit_xor}
use amigactl.Prelude.{
  ℕ, List, [], ◌∷◌, some, none, decimal, decimal_from, ◌≡◌, refl, arith, codes, All,
}
use amigactl.Effects.{reply}
use amigactl.Wire.Frames.{ok, payload, sentinel}
use amigactl.File.Ram.{size_of, Ram, ram}
use amigactl.File.Crc.{crc32_update, table_at}
use amigactl.File.Crc.Bits.{crc_bytes, IsByte, crc32_update-crc_bytes}
use amigactl.File.Checksum.{
  Reader, cmd_checksum, checksum_locked, checksum_examined, checksum_opened, checksum_loop,
  after_read, given, checksum_reply, hex, hex_digit,
}
use amigactl.File.Checksum.Content.{Answered, cmd_checksum-Answered}

abbrev nine : List ℕ
nine = codes "123456789"

nine-IsByte : All IsByte nine
nine-IsByte = (
  omega arith,
  (
    omega arith,
    (
      omega arith,
      (omega arith, (omega arith, (omega arith, (omega arith, (omega arith, (omega arith, tt)))))),
    ),
  ),
)

-- The check value of CRC-32.
check_value : bit_xor (crc32_update 0xFFFFFFFF nine) 0xFFFFFFFF ≡ 0xCBF43926
unfolding crc32_update table_at
check_value = refl

abbrev disk : Ram
disk = record { files = λ q. some nine; err = 0; bits = λ q. 0; pos = λ q. 0 }

abbrev four_bytes : Reader
four_bytes = record { gives = λ call. some 3 }

run_checksum :
    cmd_checksum ram four_bytes nine (codes "RAM:nine") disk
    ≡ some (
        reply (ok none)
        ∷ reply (payload (codes "crc32=cbf43926"))
        ∷ reply (payload (codes "size=9"))
        ∷ reply sentinel
        ∷ [])
unfolding cmd_checksum checksum_locked checksum_examined checksum_opened checksum_loop after_read
    given crc32_update table_at checksum_reply hex hex_digit decimal decimal_from size_of
run_checksum = refl

crc32_update-crc_bytes_example : crc32_update 0xFFFFFFFF nine ≡ crc_bytes 0xFFFFFFFF nine
crc32_update-crc_bytes_example = crc32_update-crc_bytes nine 0xFFFFFFFF nine-IsByte

cmd_checksum-Answered_example :
    Answered nine (cmd_checksum ram four_bytes nine (codes "RAM:nine") disk)
cmd_checksum-Answered_example =
    cmd_checksum-Answered ram four_bytes nine nine-IsByte (codes "RAM:nine") disk
