-- ===== src/Inbound.antt =====
-- The receive buffer of a client: `recv_into_buf` and `extract_command` of daemon/net.c, and the
-- discard mode of `handle_client` in daemon/main.c. The record holds the first `recv_len` bytes of `recv_buf`;
-- what lies beyond them is never read.
pub mod Lines
use amigactl.Prelude.{
  ℕ, zero, suc, ◌+◌, ◌-◌, Bool, true, false, List, [], ◌∷◌, ◌++◌, Option, none, some, leb, ◌==◌,
  if◌then◌else◌, length, take, drop, min, lf, cr, c_str, skip_blanks,
}

abbrev pub max_cmd_len : ℕ
max_cmd_len = 4096

abbrev pub recv_buf_size : ℕ
recv_buf_size = 4097

pub record Inbox : Type 0 where
  pub buf : List ℕ
  pub discarding : Bool

abbrev pub empty : Inbox
empty = record { buf = []; discarding = false }

-- The bytes that the last `recv` delivered go behind the buffered ones.
unfoldable pub recv_into_buf : Inbox → List ℕ → Inbox
recv_into_buf c chunk = record c { buf = c.buf ++ chunk }

pub data Extracted : Type 0 where
  command : List ℕ → Extracted
  overflow : Extracted
  incomplete : Extracted

-- The bytes before the first newline and those after it.
unfoldable pub split_line : List ℕ → Option (List ℕ × List ℕ)
split_line [] = none
split_line (c ∷ s) =
    if c == lf
    then some ([], s)
    else elim (split_line s) [ none ↦ none | some (line, rest) ↦ some (c ∷ line, rest) ]

unfoldable pub strip_cr : List ℕ → List ℕ
strip_cr [] = []
strip_cr (c ∷ []) = if c == cr then [] else c ∷ []
strip_cr (c ∷ d ∷ s) = c ∷ strip_cr (d ∷ s)

-- `if (cmd_len >= cmd_max) cmd_len = cmd_max - 1`
unfoldable pub clip : ℕ → List ℕ → List ℕ
clip cmd_max line = if leb cmd_max (length line) then take (cmd_max - 1) line else line

unfoldable pub extract_command : Inbox → ℕ → Extracted × Inbox
extract_command c cmd_max = elim (split_line c.buf) [
  | none ↦
      if leb recv_buf_size (length c.buf)
      then (overflow, record c { discarding = true })
      else (incomplete, c)
  | some (line, rest) ↦ (command (clip cmd_max (strip_cr line)), record c { buf = rest })
]

-- A line with nothing but blanks, as C sees it.
unfoldable pub is_empty_command : List ℕ → Bool
is_empty_command cmd = elim (skip_blanks (c_str cmd)) [ [] ↦ true | _ ∷ _ ↦ false ]

-- Discard mode: drop everything up to the first newline, or everything.
unfoldable pub end_discard : Inbox → Inbox
end_discard c = elim (split_line c.buf) [
  | none ↦ record c { buf = [] }
  | some (line, rest) ↦ record { buf = rest; discarding = false }
]
