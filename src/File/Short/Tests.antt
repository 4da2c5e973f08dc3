-- ===== src/File/Short/Tests.antt =====
-- A file is renamed.
use amigactl.Prelude.{
  ℕ, ◌+◌, List, [], ◌∷◌, ◌++◌, Option, none, some, ◌≡◌, refl, arith, codes, lf, length, beq,
  if◌then◌else◌, c_str, skip_blanks,
}
use amigactl.Inbound.{
  empty, max_cmd_len, split_line, strip_cr, clip, extract_command, recv_into_buf,
}
use amigactl.Receive.{
  Incoming, Conn, recv_line_blocking, line_loop, after_extract, after_recv, recv,
}
use amigactl.Receive.Pending.{pending, next_line}
use amigactl.File.Ram.{Ram, ram, on_ram, ram-Laws, put, rename_to}
use amigactl.File.Upload.{Reply}
use amigactl.File.Short.{cmd_rename, with_old, with_new, after_call}
use amigactl.File.Short.Rename.{Renamed, cmd_rename-Renamed}

abbrev log : List ℕ
log = codes "RAM:log"

abbrev backup : List ℕ
backup = codes "RAM:backup"

abbrev disk : Ram
disk = record {
  files = λ q. if beq log q then some (codes "abc") else none;
  err = 0;
  bits = λ q. 0;
  pos = λ q. 0;
}

abbrev after_old : List ℕ
after_old = backup ++ (lf ∷ codes "PING")

abbrev client : Conn
client = record { inbox = empty; stream = log ++ (lf ∷ after_old); calls = 0 }

abbrev five_bytes : Incoming
five_bytes = record { gives = λ call. 4 }

abbrev file_after : List ℕ → Option (Reply ram) → Option (List ℕ)
file_after path none = none
file_after path (some r) = r.disk.files path

run_rename : file_after backup (cmd_rename ram five_bytes [] client disk) ≡ some (codes "abc")
unfolding cmd_rename with_old with_new after_call recv_line_blocking line_loop after_extract
    after_recv recv recv_into_buf extract_command split_line strip_cr clip c_str skip_blanks put
    rename_to beq
run_rename = refl

old_line : next_line (max_cmd_len + 1) (pending client) ≡ some (log, after_old)
unfolding next_line split_line strip_cr clip
old_line = refl

new_line : next_line (max_cmd_len + 1) after_old ≡ some (backup, codes "PING")
unfolding next_line split_line strip_cr clip
new_line = refl

bare : length (skip_blanks []) ≡ 0
unfolding skip_blanks
bare = refl

cmd_rename-Renamed_example :
    (r : Reply ram) × (cmd_rename ram five_bytes [] client disk ≡ some r)
    × Renamed ram on_ram (c_str log) (c_str backup) (codes "PING") disk r
cmd_rename-Renamed_example =
    cmd_rename-Renamed five_bytes ram ram-Laws [] log backup after_old (codes "PING") client disk
      (omega arith) bare old_line new_line
