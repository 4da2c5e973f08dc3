-- ===== src/File/Tests.antt =====
-- A client uploads and appends on a small disk, and the theorems at these runs.
use amigactl.Prelude.{
  suc, length, is_blank, c_str, ℕ, List, ◌∷◌, ◌++◌, Option, none, some, ◌≡◌, refl, arith, codes, lf,
  concat, All, beq, if◌then◌else◌,
}
use amigactl.Prelude.Strtol.{
  strtoul, skip_spaces, unsigned_sign, unsigned, starts_with_digit, digits_from, clamp_unsigned,
  is_digit, is_space,
}
use amigactl.Wire.Client.{starts_with}
use amigactl.Inbound.{empty, clip, recv_into_buf, extract_command, split_line, strip_cr}
use amigactl.Receive.{
  Incoming, Conn, recv_line_blocking, line_loop, after_extract, after_recv, recv,
  recv_exact_from_client, exact_loop,
}
use amigactl.Receive.Pending.{pending}
use amigactl.File.Dos.{overwrite}
use amigactl.File.Ram.{
  set_pos, put, write_to, delete_at, rename_to, Ram, ram, on_ram, Differ, ram-Laws,
}
use amigactl.File.Arguments.{
  split_last, trim_end, parse_size, header, directory_of, up_to_last, upload, parse_upload,
  build_temp_path,
}
use amigactl.File.Upload.{never, Reply, receive, after_line, after_header, after_data, after_write}
use amigactl.File.Upload.Stream.{sent, IsChunk, store, Ends}
use amigactl.File.Upload.Rounds.{receive-sent}
use amigactl.File.Upload.Client.{send_data_chunks, sent-send_data_chunks}
use amigactl.File.Upload.Bounds.{sent-IsChunk}
use amigactl.File.Write.{
  cmd_write, write_request, write_opened, finish_write, after_delete, after_rename,
}
use amigactl.File.Write.Outcome.{Outcome, cmd_write-Outcome}
use amigactl.File.Append.{cmd_append}
use amigactl.File.Append.Growth.{Appended, cmd_append-Appended}

abbrev target : List ℕ
target = codes "RAM:log"

abbrev disk : Ram
disk = record {
  files = λ q. if beq target q then some (codes "abc") else none;
  err = 0;
  bits = λ q. 0;
  pos = λ q. 0;
}

-- The client sends its bytes behind the command that is being handled.
abbrev client : Conn
client = record {
  inbox = empty;
  stream = codes "DATA 3" ++ (lf ∷ codes "xyzEND") ++ (lf ∷ codes "PING");
  calls = 0;
}

abbrev two_bytes : Incoming
two_bytes = record { gives = λ call. 1 }

abbrev file_after : Option (Reply ram) → Option (List ℕ)
file_after none = none
file_after (some r) = r.disk.files target

run_write :
    file_after (cmd_write two_bytes ram (codes "RAM:log 3") client disk) ≡ some (codes "xyz")
unfolding cmd_write write_request parse_upload split_last is_blank trim_end clip parse_size strtoul
    skip_spaces unsigned_sign unsigned starts_with_digit digits_from clamp_unsigned is_digit
    is_space starts_with build_temp_path directory_of up_to_last write_opened receive after_line
    after_header after_data after_write recv_line_blocking line_loop after_extract after_recv recv
    recv_into_buf extract_command split_line strip_cr header c_str beq recv_exact_from_client
    exact_loop finish_write after_delete after_rename put write_to delete_at rename_to set_pos
    overwrite
run_write = refl

write_args : parse_upload "Usage: WRITE <path> <size>" (codes "RAM:log 3") ≡ upload target 3
unfolding parse_upload split_last is_blank trim_end clip parse_size strtoul skip_spaces
    unsigned_sign unsigned starts_with_digit digits_from clamp_unsigned is_digit is_space
    starts_with
write_args = refl

append_args : parse_upload "Usage: APPEND <path> <size>" (codes "RAM:log 3") ≡ upload target 3
unfolding parse_upload split_last is_blank trim_end clip parse_size strtoul skip_spaces
    unsigned_sign unsigned starts_with_digit digits_from clamp_unsigned is_digit is_space
    starts_with
append_args = refl

temp-Differ : Differ (build_temp_path target) target
unfolding build_temp_path directory_of up_to_last beq
temp-Differ = refl

target-Differ : Differ target (build_temp_path target)
unfolding build_temp_path directory_of up_to_last beq
target-Differ = refl

target_content : on_ram disk target ≡ some (codes "abc")
unfolding beq
target_content = refl

cmd_write-Outcome_example :
    (r : Reply ram) × (cmd_write two_bytes ram (codes "RAM:log 3") client disk ≡ some r)
    × Outcome ram on_ram target (on_ram disk target) (concat (sent (pending client)).chunks) 3 r
cmd_write-Outcome_example =
    cmd_write-Outcome two_bytes ram ram-Laws target temp-Differ target-Differ client (omega arith)
      (codes "RAM:log 3") 3 disk write_args

cmd_append-Appended_example :
    (r : Reply ram) × (cmd_append two_bytes ram (codes "RAM:log 3") client disk ≡ some r)
    × Appended ram on_ram Differ target disk
        (codes "abc")
        (concat (sent (pending client)).chunks)
        3
        r
cmd_append-Appended_example =
    cmd_append-Appended two_bytes ram ram-Laws target (codes "abc") (codes "RAM:log 3") client 3
      disk (omega arith) append_args target_content

sent-send_data_chunks_example :
    (concat (sent (send_data_chunks (codes "xyz") ++ codes "PING")).chunks ≡ codes "xyz")
    × (sent (send_data_chunks (codes "xyz") ++ codes "PING")).behind ≡ some (codes "PING")
sent-send_data_chunks_example = sent-send_data_chunks (codes "xyz") (codes "PING")

sent-IsChunk_example : All IsChunk (sent (pending client)).chunks
sent-IsChunk_example = sent-IsChunk (pending client)

receive-sent_example :
    Ends two_bytes ram target never
      (sent (pending client)).behind
      (store ram target never (sent (pending client)).chunks 0 disk)
      (receive two_bytes ram target never
        (suc (length (pending client)))
        (record { total = 0; conn = client; disk = disk }))
receive-sent_example = receive-sent two_bytes ram target never client disk (omega arith)
