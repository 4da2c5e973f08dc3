-- ===== src/File/Write.antt =====
-- `cmd_write` of daemon/file.c.
pub mod Outcome
use amigactl.Prelude.{
  ℕ, zero, suc, ◌+◌, ◌-◌, ◌*◌, ◌%◌, ◌^◌, Bool, true, false, not, ◌&&◌, ◌||◌, List, [], ◌∷◌, ◌++◌,
  Option, none, some, ◌==◌, ltb, leb, if◌then◌else◌, length, take, drop, codes, String, decimal,
  c_str, is_blank, beq,
}
use amigactl.Prelude.Strtol.{strtoul}
use amigactl.Effects.{Effect, reply, refuse, err_syntax, err_io, err_internal}
use amigactl.Wire.Frames.{Frame, ok, error, ready, sentinel}
use amigactl.Wire.Client.{starts_with}
use amigactl.Inbound.{clip, max_cmd_len}
use amigactl.Receive.{Incoming, Conn, recv_line_blocking, recv_exact_from_client}
use amigactl.Receive.Pending.{pending}
use amigactl.File.Dos.{Dos, send_dos_error}
use amigactl.File.Arguments.{Request, bad, upload, parse_upload, build_temp_path}
use amigactl.File.Upload.{Progress, receive, Reply, reply_with, disconnect, received, never}

module _ (net : Incoming) (dos : Dos) where
  module _ (path : List ℕ) where
    abbrev temp_path : List ℕ
    temp_path = build_temp_path path

    abbrev remove_temp : dos.Disk → dos.Disk
    remove_temp d = (dos.delete_file temp_path d).1

    unfoldable pub after_rename : ℕ → Conn → Bool × dos.Disk → Reply dos
    after_rename total c (true, d) = reply_with dos (received total) c d
    after_rename total c (false, d) =
        let d' = remove_temp d in reply_with dos (send_dos_error dos "Rename failed" d') c d'

    unfoldable pub after_delete : ℕ → Conn → Bool × dos.Disk → Reply dos
    unfolding after_rename
    after_delete total c (true, d) = after_rename total c (dos.rename temp_path path d)
    after_delete total c (false, d) =
        let err = dos.io_err d in
        let d' = dos.set_io_err err (remove_temp d) in
        if err == 205
        then after_rename total c (dos.rename temp_path path d)
        else reply_with dos (send_dos_error dos "Delete failed" d') c d'

    -- Behind the loop; the disk is that before `Close`.
    unfoldable pub finish_write :
        ℕ → Option (Bool × Progress net dos temp_path never) → Option (Reply dos)
    unfolding after_delete
    finish_write declared_size none = none
    finish_write declared_size (some (false, t)) =
        some (disconnect dos t.conn (remove_temp (dos.close temp_path t.disk)))
    finish_write declared_size (some (true, t)) =
        let d = dos.close temp_path t.disk in
        some (
          if t.total == declared_size
          then after_delete t.total t.conn (dos.delete_file path d)
          else reply_with dos (refuse err_io "Size mismatch") t.conn (remove_temp d))

    unfoldable pub write_opened : ℕ → Conn → Bool × dos.Disk → Option (Reply dos)
    unfolding finish_write
    write_opened declared_size c (false, d) =
        some (reply_with dos (send_dos_error dos "Open failed" d) c d)
    write_opened declared_size c (true, d) =
        let rest = finish_write declared_size (
          receive net dos temp_path never (suc (length (pending c)))
            (record { total = 0; conn = c; disk = d })) in
        elim rest [ none ↦ none | some r ↦ some (record r { output = reply ready ∷ r.output }) ]

  unfoldable pub write_request : Request → Conn → dos.Disk → Option (Reply dos)
  unfolding write_opened
  write_request (bad message) c d = some (reply_with dos (refuse err_syntax message) c d)
  write_request (upload path declared_size) c d =
      if ltb 497 (length path)
      then some (reply_with dos (refuse err_io "Path too long") c d)
      else write_opened path declared_size c (dos.open_new (build_temp_path path) d)

  unfoldable pub cmd_write : List ℕ → Conn → dos.Disk → Option (Reply dos)
  unfolding write_request
  cmd_write args c d = write_request (parse_upload "Usage: WRITE <path> <size>" args) c d
