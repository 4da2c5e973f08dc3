-- ===== src/File/Append.antt =====
-- `cmd_append` of daemon/file.c.
pub mod Growth
use amigactl.Prelude.{
  ℕ, zero, suc, ◌+◌, ◌-◌, ◌*◌, ◌%◌, ◌^◌, Bool, true, false, not, ◌&&◌, ◌||◌, List, [], ◌∷◌, ◌++◌,
  Option, none, some, ◌==◌, ltb, leb, if◌then◌else◌, length, take, drop, codes, String, decimal,
  c_str, is_blank, beq,
}
use amigactl.Prelude.Strtol.{strtoul}
use amigactl.Effects.{Effect, reply, refuse, err_syntax, err_io, err_internal}
use amigactl.Wire.Frames.{Frame, ok, error, ready, sentinel}
use amigactl.Wire.Client.{starts_with}
use amigactl.Inbound.{clip, max_cmd_len}
use amigactl.Receive.{Incoming, Conn, recv_line_blocking, recv_exact_from_client}
use amigactl.Receive.Pending.{pending}
use amigactl.File.Dos.{Dos, send_dos_error}
use amigactl.File.Arguments.{Request, bad, upload, parse_upload, build_temp_path}
use amigactl.File.Upload.{Progress, receive, Reply, reply_with, disconnect, received, never}

module _ (net : Incoming) (dos : Dos) where
  module _ (path : List ℕ) (declared_size : ℕ) where
    -- Far too much data.
    abbrev pub capped : ℕ → Bool
    capped total = ltb ((declared_size + 4096) % 2 ^ 32) total

    unfoldable pub finish_append : Option (Bool × Progress net dos path capped) → Option (Reply dos)
    finish_append none = none
    finish_append (some (false, t)) = some (disconnect dos t.conn (dos.close path t.disk))
    finish_append (some (true, t)) =
        let d = dos.close path t.disk in
        some (
          reply_with dos
            (if t.total == declared_size then received t.total else refuse err_io "Size mismatch")
            t.conn d)

    unfoldable pub append_sought : Conn → Bool × dos.Disk → Option (Reply dos)
    unfolding finish_append
    append_sought c (false, d) =
        some (reply_with dos (send_dos_error dos "Seek failed" d) c (dos.close path d))
    append_sought c (true, d) =
        let rest = finish_append (
          receive net dos path capped (suc (length (pending c)))
            (record { total = 0; conn = c; disk = d })) in
        elim rest [ none ↦ none | some r ↦ some (record r { output = reply ready ∷ r.output }) ]

    unfoldable pub append_opened : Conn → Bool × dos.Disk → Option (Reply dos)
    unfolding append_sought
    append_opened c (false, d) = some (reply_with dos (send_dos_error dos "Open failed" d) c d)
    append_opened c (true, d) = append_sought c (dos.seek_end path d)

    unfoldable pub append_examined : Conn → Bool × dos.Disk → Option (Reply dos)
    unfolding append_opened
    append_examined c (false, d) = some (reply_with dos (send_dos_error dos "Examine failed" d) c d)
    append_examined c (true, d) =
        if dos.is_directory path d
        then some (reply_with dos (refuse err_io "Is a directory") c d)
        else append_opened c (dos.open_old path d)

    unfoldable pub append_locked : Conn → Bool × dos.Disk → Option (Reply dos)
    unfolding append_examined
    append_locked c (false, d) = some (reply_with dos (send_dos_error dos "Lock failed" d) c d)
    append_locked c (true, d) =
        if dos.alloc_fib d
        then append_examined c (dos.examine path d)
        else some (reply_with dos (refuse err_internal "Out of memory") c d)

  unfoldable pub append_request : Request → Conn → dos.Disk → Option (Reply dos)
  unfolding append_locked
  append_request (bad message) c d = some (reply_with dos (refuse err_syntax message) c d)
  append_request (upload path declared_size) c d =
      append_locked path declared_size c (dos.lock path d)

  unfoldable pub cmd_append : List ℕ → Conn → dos.Disk → Option (Reply dos)
  unfolding append_request
  cmd_append args c d = append_request (parse_upload "Usage: APPEND <path> <size>" args) c d
