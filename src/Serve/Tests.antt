-- ===== src/Serve/Tests.antt =====
-- A client whose commands are recorded: LINE reads the next line as its argument, QUIT leaves, and
-- TAIL starts a mode in which the bytes are no commands.
use amigactl.Prelude.{
  ℕ, true, false, not, List, [], ◌∷◌, ◌++◌, Option, none, some, ◌≡◌, refl, codes, c_str,
  skip_blanks, lf, cr, same_word, to_lower, if◌then◌else◌,
}
use amigactl.Inbound.{
  empty, split_line, recv_into_buf, extract_command, is_empty_command, clip, strip_cr,
}
use amigactl.Receive.{
  Incoming, Conn, recv_line_blocking, line_loop, after_extract, after_recv, recv,
}
use amigactl.Receive.Pending.{next_line}
use amigactl.Serve.{
  Turn, Loop, Event, readable, meanwhile, open_turn, closed_turn, perform, after_command,
  after_extracted, run_commands, after_discard, left_discard, after_bytes, handle_client,
}
use amigactl.Serve.Run
use amigactl.Serve.Run.{Handler}

abbrev Log : Type 0
Log = List (List ℕ)

abbrev two_bytes : Incoming
two_bytes = record { gives = λ call. 1 }

unfoldable with_line : Log → Option (Option (List ℕ) × Conn) → Turn Log
with_line log none = closed_turn log (record { inbox = empty; stream = []; calls = 0 })
with_line log (some (none, c)) = closed_turn log c
with_line log (some (some line, c)) =
    open_turn (line ∷ log) (record c { inbox = record c.inbox { discarding = false } })

unfoldable record_command : Log → List ℕ → Conn → Turn Log
record_command log cmd c =
    if same_word cmd (codes "QUIT")
    then closed_turn (cmd ∷ log) c
    else if same_word cmd (codes "LINE")
    then with_line log (recv_line_blocking two_bytes 128 c)
    else open_turn (cmd ∷ log) c

unfoldable take_line : Log → Option (List ℕ × List ℕ) → Log × Option (List ℕ)
take_line log none = (log, none)
take_line log (some (line, rest)) = (line ∷ log, some rest)

unfoldable described : Handler Log
described log cmd p =
    if same_word cmd (codes "QUIT")
    then (cmd ∷ log, none)
    else if same_word cmd (codes "LINE")
    then take_line log (next_line 128 p)
    else (cmd ∷ log, some p)

abbrev recording : Loop Log
recording = record {
  dispatch = record_command;
  too_long = λ log. codes "<too long>" ∷ log;
  running = λ log. true;
  takes_commands = λ log. not (same_word (elim log [ [] ↦ [] | c ∷ s ↦ c ]) (codes "TAIL"));
  input = λ log c. open_turn log (record c { inbox = empty });
}

abbrev bytes : List ℕ
bytes =
    codes "PING"
    ++ (cr ∷ lf ∷ codes "LINE")
    ++ (lf ∷ codes "a line")
    ++ (lf ∷ codes " ")
    ++ (lf ∷ codes "QUIT")
    ++ (lf ∷ [])

abbrev client : Conn
client = record { inbox = empty; stream = bytes; calls = 0 }

abbrev whole : Incoming
whole = record { gives = λ call. 99 }

run_lines :
    handle_client record_command (λ log. log) whole [] client
    ≡ some (
        closed_turn
          (codes "QUIT" ∷ codes "a line" ∷ codes "PING" ∷ [])
          (record { inbox = empty; stream = []; calls = 1 }))
unfolding handle_client after_bytes after_discard left_discard run_commands after_extracted
    after_command perform record_command with_line recv_line_blocking line_loop after_extract
    after_recv recv recv_into_buf extract_command split_line is_empty_command skip_blanks c_str clip
    strip_cr same_word to_lower
run_lines = refl

abbrev rounds : List (Event Log)
rounds = readable ∷ readable ∷ meanwhile (λ log. codes "tick" ∷ log) ∷ readable ∷ readable ∷ []
