-- ===== src/File/Short.antt =====
-- The shortest file commands of daemon/file.c: `cmd_delete`, `cmd_rename`, `cmd_makedir` and
-- `cmd_setcomment`.
pub mod Rename
mod Tests
use amigactl.Prelude.{
  ℕ, Bool, true, false, List, [], ◌∷◌, ◌++◌, Option, none, some, ◌==◌, if◌then◌else◌, length,
  String, ◌+◌, codes, c_str, skip_blanks,
}
use amigactl.Effects.{Effect, reply, refuse, err_syntax}
use amigactl.Wire.Frames.{ok, sentinel}
use amigactl.Inbound.{clip, max_cmd_len}
use amigactl.Receive.{Incoming, Conn, recv_line_blocking}
use amigactl.File.Dos.{Dos, send_dos_error}
use amigactl.File.Upload.{Reply, reply_with, disconnect}

abbrev pub plain_ok : List Effect
plain_ok = reply (ok none) ∷ reply sentinel ∷ []

-- Behind the call of dos.library.
unfoldable pub after_call : (dos : Dos) → String → Conn → Bool × dos.Disk → Reply dos
after_call dos message c (true, d) = reply_with dos plain_ok c d
after_call dos message c (false, d) = reply_with dos (send_dos_error dos message d) c d

-- The bytes before the first tab and those behind it.
unfoldable pub split_tab : List ℕ → Option (List ℕ × List ℕ)
split_tab [] = none
split_tab (c ∷ s) =
    if c == 9
    then some ([], s)
    else elim (split_tab s) [ none ↦ none | some (path, comment) ↦ some (c ∷ path, comment) ]

module _ (dos : Dos) where
  unfoldable pub cmd_delete : List ℕ → Conn → dos.Disk → Reply dos
  unfolding after_call
  cmd_delete args c d =
      if length args == 0
      then reply_with dos (refuse err_syntax "Missing path argument") c d
      else after_call dos "Delete failed" c (dos.delete_file args d)

  unfoldable pub cmd_makedir : List ℕ → Conn → dos.Disk → Reply dos
  unfolding after_call
  cmd_makedir args c d =
      if length args == 0
      then reply_with dos (refuse err_syntax "Missing path argument") c d
      else after_call dos "CreateDir failed" c (dos.create_dir args d)

  unfoldable pub after_split : Option (List ℕ × List ℕ) → Conn → dos.Disk → Reply dos
  unfolding after_call
  after_split none c d = reply_with dos (refuse err_syntax "Missing tab separator") c d
  after_split (some (path, comment)) c d =
      if length path == 0
      then reply_with dos (refuse err_syntax "Missing path") c d
      else after_call dos "SetComment failed" c
          (dos.set_comment (clip (max_cmd_len + 1) path) comment d)

  unfoldable pub cmd_setcomment : List ℕ → Conn → dos.Disk → Reply dos
  unfolding after_split split_tab
  cmd_setcomment args c d =
      if length args == 0
      then reply_with dos (refuse err_syntax "Missing arguments") c d
      else after_split (split_tab args) c d

  module _ (net : Incoming) where
    -- Behind the read of the new path.
    unfoldable pub with_new :
        List ℕ → dos.Disk → Option (Option (List ℕ) × Conn) → Option (Reply dos)
    unfolding after_call
    with_new old_path d none = none
    with_new old_path d (some (none, c)) = some (disconnect dos c d)
    with_new old_path d (some (some new_path, c)) =
        some (after_call dos "Rename failed" c (dos.rename (c_str old_path) (c_str new_path) d))

    -- Behind the read of the old path.
    unfoldable pub with_old : dos.Disk → Option (Option (List ℕ) × Conn) → Option (Reply dos)
    unfolding with_new
    with_old d none = none
    with_old d (some (none, c)) = some (disconnect dos c d)
    with_old d (some (some old_path, c)) =
        with_new old_path d (recv_line_blocking net (max_cmd_len + 1) c)

    unfoldable pub cmd_rename : List ℕ → Conn → dos.Disk → Option (Reply dos)
    unfolding with_old
    cmd_rename args c d =
        if length (skip_blanks args) == 0
        then with_old d (recv_line_blocking net (max_cmd_len + 1) c)
        else some (
            reply_with dos (refuse err_syntax "RENAME takes no arguments; use three-line format") c
              d)
