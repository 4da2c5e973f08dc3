-- ===== src/File/SetDate.antt =====
-- SETDATE, `cmd_setdate` of daemon/file.c. A stamp whose text has more than 19 bytes does not fit the
-- source's buffer `datebuf`; the text is written out as a whole here.
pub mod Echo
mod Tests
use amigactl.Prelude.{
  ℕ, ◌+◌, ◌-◌, Bool, true, false, ◌&&◌, List, [], ◌∷◌, ◌++◌, Option, none, some, ◌==◌, leb,
  if◌then◌else◌, length, take, drop, get_elem?, codes, is_blank,
}
use amigactl.Effects.{Effect, reply, refuse, err_syntax}
use amigactl.Wire.Frames.{ok, payload, sentinel}
use amigactl.Inbound.{clip, max_cmd_len}
use amigactl.Receive.{Conn}
use amigactl.Arexx.{DateStamp}
use amigactl.File.Dos.{Dos, send_dos_error}
use amigactl.File.Dates.{format_datestamp, parse_datestamp}
use amigactl.File.Arguments.{trim_end}
use amigactl.File.Upload.{Reply, reply_with}

unfoldable pub blank_at : ℕ → List ℕ → Bool
blank_at i s = elim (get_elem? s i) [ none ↦ false | some c ↦ is_blank c ]

unfoldable pub with_path : DateStamp → List ℕ → Option (List ℕ × DateStamp)
with_path ds path =
    if leb 1 (length path) && leb (length path) max_cmd_len then some (path, ds) else none

-- The path and the stamp of arguments that end in a datestamp of 19 bytes.
unfoldable pub explicit : List ℕ → Option (List ℕ × DateStamp)
unfolding blank_at with_path trim_end
explicit args =
    let n = length args in
    let found : Option (List ℕ × DateStamp) = elim (parse_datestamp (drop (n - 19) args)) [
      | none ↦ none
      | some ds ↦ with_path ds (trim_end (take (n - 20) args))
    ] in
    if leb 21 n && blank_at (n - 20) args then found else none

-- The reply that echoes the applied datestamp.
abbrev pub echo : List ℕ → List Effect
echo text = reply (ok none) ∷ reply (payload (codes "datestamp=" ++ text)) ∷ reply sentinel ∷ []

module _ (dos : Dos) where
  -- From the label `apply` on.
  unfoldable pub after_set : DateStamp → Conn → Bool × dos.Disk → Option (Reply dos)
  after_set ds c (false, d) = some (reply_with dos (send_dos_error dos "SetFileDate failed" d) c d)
  after_set ds c (true, d) = elim (format_datestamp ds) [
    | none ↦ none
    | some text ↦ some (reply_with dos (echo text) c d)
  ]

  unfoldable pub path_and_stamp :
      List ℕ → dos.Disk → Option (List ℕ × DateStamp) → List ℕ × DateStamp
  unfolding trim_end
  path_and_stamp args d (some found) = found
  path_and_stamp args d none = (trim_end (clip (max_cmd_len + 1) args), dos.date_stamp d)

  unfoldable pub cmd_setdate : List ℕ → Conn → dos.Disk → Option (Reply dos)
  unfolding after_set path_and_stamp explicit
  cmd_setdate args c d =
      let (path, ds) = path_and_stamp args d (explicit args) in
      if length args == 0
      then some (reply_with dos (refuse err_syntax "Missing arguments") c d)
      else after_set ds c (dos.set_file_date path ds d)
