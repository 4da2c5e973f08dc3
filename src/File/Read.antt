-- ===== src/File/Read.antt =====
-- `cmd_read` of daemon/file.c.
pub mod Loop
pub mod Slice
mod Tests
use amigactl.Prelude.{
  ℕ, zero, suc, ◌+◌, ◌-◌, Bool, true, false, not, ◌&&◌, ◌||◌, List, [], ◌∷◌, ◌++◌, Option, none,
  some, ltb, leb, ◌==◌, if◌then◌else◌, length, take, drop, min, codes, decimal, String, same_word,
}
use amigactl.Prelude.Int.{ℤ, pos, negsuc}
use amigactl.Prelude.Strtol.{strtol}
use amigactl.Effects.{Effect, reply, refuse, err_syntax, err_io, err_internal}
use amigactl.Wire.Frames.{Frame, ok, chunk, end_data, error, sentinel}
use amigactl.Inbound.{clip, max_cmd_len}
use amigactl.File.Dos.{Dos, send_dos_error}
use amigactl.File.Arguments.{split_last, trim_end}

-- A keyword and a number at the end of the arguments, and what stands before them.
unfoldable pub keyword_value : String → List ℕ → ℤ → Option (List ℕ × List ℕ) → Option ℤ × List ℕ
keyword_value keyword path value none = (none, path)
keyword_value keyword path value (some (before, word)) =
    if (length word == 6) && same_word word (codes keyword)
    then (some value, trim_end before)
    else (none, path)

unfoldable pub last_number : String → List ℕ → Option (List ℕ × List ℕ) → Option ℤ × List ℕ
unfolding keyword_value
last_number keyword path none = (none, path)
last_number keyword path (some (before, token)) =
    let (value, endp) = strtol token in
    if (length endp == 0) && not (length token == 0)
    then keyword_value keyword path value (split_last (trim_end before))
    else (none, path)

unfoldable pub trailing_option : String → List ℕ → Option ℤ × List ℕ
unfolding last_number
trailing_option keyword path = last_number keyword path (split_last path)

pub record ReadArgs : Type 0 where
  pub path : List ℕ
  pub offset : Option ℤ
  pub count : Option ℤ

unfoldable pub parse_read : List ℕ → ReadArgs
unfolding trailing_option
parse_read args =
    let (count, rest) = trailing_option "LENGTH" (clip (max_cmd_len + 1) args) in
    let (offset, path) = trailing_option "OFFSET" rest in
    record { path = trim_end path; offset = offset; count = count }

unfoldable pub is_negative : Option ℤ → Bool
is_negative none = false
is_negative (some (pos n)) = false
is_negative (some (negsuc n)) = true

-- The value of an option that is not negative.
unfoldable pub value_of : Option ℤ → Option ℕ
value_of none = none
value_of (some (pos n)) = some n
value_of (some (negsuc n)) = none

-- `offset_val`, where it is given and not negative; else 0.
unfoldable pub start_of : Option ℕ → ℕ
start_of none = 0
start_of (some offset) = offset

unfoldable pub after_offset : Option ℕ → ℕ → ℕ
after_offset none size = size
after_offset (some offset) size = if leb size offset then 0 else size - offset

unfoldable pub at_most : Option ℕ → ℕ → ℕ
at_most none bytes = bytes
at_most (some count) bytes = if ltb count bytes then count else bytes

-- The answers of the system: for the number of the call, whether `Read` fails or gives one byte
-- more than this, if there are so many, and whether `send_data_chunk` succeeds.
pub record Delivery : Type 0 where
  pub gives : ℕ → Option ℕ
  pub delivers : ℕ → Bool

-- How the loop ends: all bytes are sent or the file is at its end, `Read` failed, or a send did.
pub data Ending : Type 0 where
  complete read_failed send_failed : Ending

pub record Transmitted : Type 0 where
  pub chunks : List (List ℕ)
  pub ending : Ending

unfoldable pub stop : Ending → Option Transmitted
stop ending = some (record { chunks = []; ending = ending })

unfoldable pub with_chunk : List ℕ → Option Transmitted → Option Transmitted
with_chunk bytes none = none
with_chunk bytes (some r) = some (record r { chunks = bytes ∷ r.chunks })

-- Behind `Read`, for the bytes that it gives; `again` is the next round.
unfoldable pub after_bytes :
    (ℕ → List ℕ → Option Transmitted) → Bool → ℕ → List ℕ → List ℕ → Option Transmitted
unfolding stop with_chunk
after_bytes again delivered remaining left [] = stop complete
after_bytes again false remaining left (b ∷ bytes) = stop send_failed
after_bytes again true remaining left (b ∷ bytes) =
    with_chunk (b ∷ bytes) (again (remaining - length (b ∷ bytes)) (drop (length (b ∷ bytes)) left))

unfoldable pub after_part :
    (ℕ → List ℕ → Option Transmitted) → Bool → ℕ → List ℕ → Option ℕ → Option Transmitted
unfolding after_bytes
after_part again delivered remaining left none = stop read_failed
after_part again delivered remaining left (some k) =
    after_bytes again delivered remaining left (take (min (suc k) (min remaining 4096)) left)

-- The loop on chunks; `none` means that the fuel ran out.
unfoldable pub read_loop : Delivery → ℕ → ℕ → ℕ → List ℕ → Option Transmitted
unfolding after_part
read_loop sys zero call remaining left = none
read_loop sys (suc fuel) call zero left = stop complete
read_loop sys (suc fuel) call (suc remaining) left =
    after_part (read_loop sys fuel (call + 1)) (sys.delivers call) (suc remaining) left
      (sys.gives call)

unfoldable pub chunk_replies : List (List ℕ) → List Effect
chunk_replies [] = []
chunk_replies (bytes ∷ chunks) = reply (chunk bytes) ∷ chunk_replies chunks

unfoldable pub ending_replies : Ending → List Effect
ending_replies complete = reply end_data ∷ reply sentinel ∷ []
ending_replies read_failed = refuse err_io "Read failed"
ending_replies send_failed = []

module _ (dos : Dos) (sys : Delivery) (content : List ℕ) (offset count : Option ℕ)
    (path : List ℕ) where
  unfoldable pub send_content : ℕ → Option Transmitted → Option (List Effect)
  send_content actual none = none
  send_content actual (some r) =
      some
        (reply (ok (some (decimal actual))) ∷ (chunk_replies r.chunks ++ ending_replies r.ending))

  -- Behind `Seek`, if it was called; the reads go on from the file's position.
  unfoldable pub read_sought : ℕ → Bool × dos.Disk → Option (List Effect)
  unfolding send_content
  read_sought actual (false, d) = some (send_dos_error dos "Seek failed" d)
  read_sought actual (true, d) =
      send_content actual (read_loop sys (suc actual) 0 actual (drop (dos.position path d) content))

  unfoldable pub read_opened : ℕ → Bool × dos.Disk → Option (List Effect)
  unfolding read_sought
  read_opened actual (false, d) = some (send_dos_error dos "Open failed" d)
  read_opened actual (true, d) =
      if not (start_of offset == 0) && not (actual == 0)
      then read_sought actual (dos.seek_to path (start_of offset) d)
      else read_sought actual (true, d)

  unfoldable pub read_examined : Bool × dos.Disk → Option (List Effect)
  unfolding read_opened
  read_examined (false, d) = some (send_dos_error dos "Examine failed" d)
  read_examined (true, d) =
      if dos.is_directory path d
      then some (refuse err_io "Is a directory")
      else read_opened (at_most count (after_offset offset (dos.file_size path d)))
          (dos.open_old path d)

  unfoldable pub read_locked : Bool × dos.Disk → Option (List Effect)
  unfolding read_examined
  read_locked (false, d) = some (send_dos_error dos "Lock failed" d)
  read_locked (true, d) =
      if dos.alloc_fib d
      then read_examined (dos.examine path d)
      else some (refuse err_internal "Out of memory")

module _ (dos : Dos) (sys : Delivery) (content : List ℕ) where
  unfoldable pub read_request : ReadArgs → dos.Disk → Option (List Effect)
  unfolding read_locked is_negative value_of
  read_request r d =
      if length r.path == 0
      then some (refuse err_syntax "Missing path argument")
      else if is_negative r.offset
      then some (refuse err_syntax "Invalid offset")
      else if is_negative r.count
      then some (refuse err_syntax "Invalid length")
      else read_locked dos sys content (value_of r.offset) (value_of r.count) r.path
          (dos.lock r.path d)

  -- The sends of READ, where `content` is what the file holds while it is read.
  unfoldable pub cmd_read : List ℕ → dos.Disk → Option (List Effect)
  unfolding read_request parse_read
  cmd_read args d =
      if length args == 0
      then some (refuse err_syntax "Missing path argument")
      else read_request (parse_read args) d
