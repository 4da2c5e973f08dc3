-- ===== src/Receive/Tests.antt =====
-- Reads from a client whose bytes arrive in pieces.
use amigactl.Prelude.{◌∷◌, ◌++◌, some, ◌≡◌, refl, arith, codes, lf, false}
use amigactl.Inbound.{Inbox, extract_command, split_line, strip_cr, clip, recv_into_buf}
use amigactl.Receive.{
  Incoming, Conn, recv_line_blocking, recv_exact_from_client, line_loop, after_extract, after_recv,
  recv,
}
use amigactl.Receive.Pending.{pending, next_bytes, Reads, recv_exact_from_client-Reads}

abbrev three_bytes : Incoming
three_bytes = record { gives = λ call. 2 }

abbrev half_line : Inbox
half_line = record { buf = codes "DAT"; discarding = false }

abbrev client : Conn
client = record { inbox = half_line; stream = codes "A 12" ++ (lf ∷ codes "hello"); calls = 0 }

run_line :
    recv_line_blocking three_bytes 128 client
    ≡ some (
      some (codes "DATA 12"),
      record {
        inbox = record { buf = codes "h"; discarding = false };
        stream = codes "ello";
        calls = 2;
      },
    )
unfolding recv_line_blocking line_loop after_extract after_recv recv extract_command split_line
    strip_cr clip recv_into_buf
run_line = refl

recv_exact_from_client-Reads_example :
    Reads (next_bytes 5 (pending client)) (recv_exact_from_client three_bytes 5 client)
recv_exact_from_client-Reads_example =
    recv_exact_from_client-Reads three_bytes 5 client (omega arith)
