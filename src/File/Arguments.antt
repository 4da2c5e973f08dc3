-- ===== src/File/Arguments.antt =====
-- The arguments of WRITE and APPEND, the path of WRITE's temporary file, and the lines of a transfer,
-- as daemon/file.c reads them.
pub mod Sizes
use amigactl.Prelude.{
  ℕ, ◌+◌, ◌-◌, not, ◌||◌, List, [], ◌∷◌, ◌++◌, Option, none, some, ◌==◌, ltb, if◌then◌else◌, length,
  take, drop, codes, String, c_str, is_blank, beq,
}
use amigactl.Prelude.Strtol.{strtoul}
use amigactl.Wire.Client.{starts_with}
use amigactl.Inbound.{clip, max_cmd_len}

-- The bytes before the last blank and those behind it.
unfoldable pub split_last : List ℕ → Option (List ℕ × List ℕ)
split_last [] = none
split_last (c ∷ s) = elim (split_last s) [
  | none ↦ if is_blank c then some ([], s) else none
  | some (before, behind) ↦ some (c ∷ before, behind)
]

-- Without the blanks at its end.
unfoldable pub trim_end : List ℕ → List ℕ
trim_end [] = []
trim_end (c ∷ s) = elim (trim_end s) [ [] ↦ if is_blank c then [] else c ∷ [] | d ∷ t ↦ c ∷ d ∷ t ]

pub data Request : Type 0 where
  bad : String → Request
  upload : List ℕ → ℕ → Request

-- The size behind the last blank.
unfoldable pub parse_size : List ℕ → List ℕ → Request
parse_size path size_str =
    let (declared_size, endp) = strtoul size_str in
    if starts_with size_str (codes "-")
    then bad "Invalid size"
    else if not (length endp == 0)
    then bad "Invalid size"
    else if ltb 0x7FFFFFFF declared_size
    then bad "Invalid size"
    else upload path declared_size

-- The arguments of both commands, with their usage text.
unfoldable pub parse_upload : String → List ℕ → Request
parse_upload usage args = elim (split_last args) [
  | none ↦ bad usage
  | some (before, size_str) ↦
      if length before == 0
      then bad usage
      else if length size_str == 0
      then bad usage
      else if length (trim_end (clip (max_cmd_len + 1) before)) == 0
      then bad usage
      else parse_size (trim_end (clip (max_cmd_len + 1) before)) size_str
]

-- The bytes up to the last `c` and with it.
unfoldable pub up_to_last : ℕ → List ℕ → Option (List ℕ)
up_to_last c [] = none
up_to_last c (d ∷ s) = elim (up_to_last c s) [
  | some dir ↦ some (d ∷ dir)
  | none ↦ if d == c then some (d ∷ []) else none
]

unfoldable pub directory_of : List ℕ → List ℕ
directory_of path = elim (up_to_last 47 path) [
  | some dir ↦ dir
  | none ↦ elim (up_to_last 58 path) [ some dir ↦ dir | none ↦ [] ]
]

abbrev pub temp_path_size : ℕ
temp_path_size = 512

unfoldable pub build_temp_path : List ℕ → List ℕ
build_temp_path path =
    let dir = directory_of path in
    let name = codes "~act.tmp" in
    let size = length name + 1 in
    (if ltb temp_path_size (length dir + size) then take (temp_path_size - size) dir else dir)
    ++ name

pub data Header : Type 0 where
  end_line : Header
  data_line : ℕ → Header
  malformed : Header

-- A line of the transfer.
unfoldable pub header : List ℕ → Header
header line =
    let text = c_str line in
    let (chunk_len, endp) = strtoul (drop 5 text) in
    if beq text (codes "END")
    then end_line
    else if starts_with text (codes "DATA ")
    then (if not (length endp == 0) || ((chunk_len == 0) || ltb 4096 chunk_len)
        then malformed
        else data_line chunk_len)
    else malformed
