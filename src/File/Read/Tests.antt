-- ===== src/File/Read/Tests.antt =====
-- A part of a small file, sent in pieces.
use amigactl.Prelude.{
  ℕ, true, List, [], ◌∷◌, some, ◌≡◌, refl, codes, decimal, decimal_from, same_word, to_lower,
  is_blank, beq,
}
use amigactl.Prelude.Int.{pos}
use amigactl.Prelude.Strtol.{
  strtol, with_sign, skip_spaces, signed, starts_with_digit, digits_from, clamp, is_digit, is_space,
}
use amigactl.Effects.{reply}
use amigactl.Wire.Frames.{ok, chunk, end_data, sentinel}
use amigactl.Inbound.{clip}
use amigactl.File.Ram.{Ram, ram, set_pos, size_of}
use amigactl.File.Arguments.{split_last, trim_end}
use amigactl.File.Read.{
  Delivery, parse_read, trailing_option, last_number, keyword_value, value_of, is_negative,
  cmd_read, read_request, read_locked, read_examined, read_opened, read_sought, send_content,
  read_loop, after_part, after_bytes, stop, with_chunk, chunk_replies, ending_replies, after_offset,
  at_most, start_of,
}

abbrev nine : List ℕ
nine = codes "123456789"

abbrev disk : Ram
disk = record { files = λ q. some nine; err = 0; bits = λ q. 0; pos = λ q. 0 }

abbrev two_bytes : Delivery
two_bytes = record { gives = λ call. some 1; delivers = λ call. true }

abbrev args : List ℕ
args = codes "RAM:nine offset 3 LENGTH 5"

parse_args :
    parse_read args
    ≡ record { path = codes "RAM:nine"; offset = some (pos 3); count = some (pos 5) }
unfolding parse_read trailing_option last_number keyword_value split_last is_blank trim_end strtol
    with_sign skip_spaces signed starts_with_digit digits_from clamp is_digit is_space clip
    same_word to_lower
parse_args = refl

run_read :
    cmd_read ram two_bytes nine args disk
    ≡ some (
        reply (ok (some (codes "5")))
        ∷ reply (chunk (codes "45"))
        ∷ reply (chunk (codes "67"))
        ∷ reply (chunk (codes "8"))
        ∷ reply end_data
        ∷ reply sentinel
        ∷ [])
unfolding cmd_read parse_read trailing_option last_number keyword_value split_last is_blank trim_end
    strtol with_sign skip_spaces signed starts_with_digit digits_from clamp is_digit is_space clip
    same_word to_lower read_request value_of is_negative read_locked read_examined read_opened
    read_sought send_content read_loop after_part after_bytes stop with_chunk chunk_replies
    ending_replies after_offset at_most start_of decimal decimal_from set_pos size_of beq
run_read = refl
