-- ===== src/Trace.antt =====
-- The send buffer of a tracing client, daemon/trace.c: events are put into it as DATA chunks, and
-- the network takes them when it can. What the filters and the formatting of an event make of it is
-- the line that is given here.
pub mod History
pub mod Runs
mod Tests
use amigactl.Prelude.{
  ℕ, zero, suc, ◌+◌, ◌%◌, ◌^◌, Bool, true, false, ◌&&◌, List, [], ◌∷◌, ◌++◌, ltb, leb, ◌==◌,
  if◌then◌else◌, length, take, drop, min, codes, decimal, lf,
}

abbrev pub trace_sendbuf_size : ℕ
trace_sendbuf_size = 16384

pub record Sendbuf : Type 0 where
  pub buf : List ℕ
  pub events_dropped : ℕ

abbrev pub sendbuf_init : Sendbuf
sendbuf_init = record { buf = []; events_dropped = 0 }

-- "DATA <len>\n<payload>"
unfoldable pub data_chunk : List ℕ → List ℕ
data_chunk line = codes "DATA " ++ (decimal (length line) ++ (lf ∷ line))

unfoldable pub drop_msg : ℕ → List ℕ
drop_msg n = codes "# DROPPED " ++ (decimal n ++ codes " events")

-- The notification of dropped events, if there is room for it.
unfoldable pub notify : Sendbuf → Sendbuf
notify sb =
    if ltb 0 sb.events_dropped
      && leb (length sb.buf + length (data_chunk (drop_msg sb.events_dropped))) trace_sendbuf_size
    then record { buf = sb.buf ++ data_chunk (drop_msg sb.events_dropped); events_dropped = 0 }
    else sb

unfoldable pub put_chunk : Sendbuf → List ℕ → Bool × Sendbuf
put_chunk sb line =
    if ltb trace_sendbuf_size (length sb.buf + length (data_chunk line))
    then (false, sb)
    else (true, record sb { buf = sb.buf ++ data_chunk line })

-- True is the result 0.
unfoldable pub sendbuf_append_data_chunk : Sendbuf → List ℕ → Bool × Sendbuf
unfolding notify put_chunk
sendbuf_append_data_chunk sb line = put_chunk (notify sb) line

-- What `send` does: it takes one byte more than this, or all; or it would block; or it fails.
pub data Sending : Type 0 where
  takes : ℕ → Sending
  would_block : Sending
  fails : Sending

-- A client: its buffer, the bytes that the network took, and whether the socket is open.
pub record Tracer : Type 0 where
  pub sendbuf : Sendbuf
  pub sent : List ℕ
  pub connected : Bool

abbrev pub start : Tracer
start = record { sendbuf = sendbuf_init; sent = []; connected = true }

-- The bytes taken, with the rest moved to the front of the buffer.
unfoldable pub taken : ℕ → Tracer → Tracer
taken n c = record c {
  sendbuf = record c.sendbuf { buf = drop n c.sendbuf.buf };
  sent = c.sent ++ take n c.sendbuf.buf;
}

-- `sendbuf_drain` on a buffer that is not empty; false is the result -1.
unfoldable pub drain_some : Sending → Tracer → Bool × Tracer
unfolding taken
drain_some (takes k) c = (true, taken (min (suc k) (length c.sendbuf.buf)) c)
drain_some would_block c = (true, c)
drain_some fails c = (false, c)

unfoldable pub sendbuf_drain : Sending → Tracer → Bool × Tracer
unfolding drain_some
sendbuf_drain answer c = if length c.sendbuf.buf == 0 then (true, c) else drain_some answer c

-- The socket is broken: nothing is kept.
unfoldable pub close_tracer : Tracer → Tracer
close_tracer c = record c { sendbuf = sendbuf_init; connected = false }

-- An event that is lost is counted.
unfoldable pub retry : List ℕ → Bool × Tracer → Tracer
unfolding close_tracer
retry line (false, c) = close_tracer c
retry line (true, c) =
    let (stored, sb) = sendbuf_append_data_chunk c.sendbuf line in
    record c {
      sendbuf =
          if stored then sb else record sb { events_dropped = (sb.events_dropped + 1) % 2 ^ 32 };
    }

-- The line of an event for one client, and the drain at the end of a poll.
pub data Action : Type 0 where
  event : List ℕ → Sending → Action
  drained : Sending → Action

unfoldable pub after_drain : Bool × Tracer → Tracer
unfolding close_tracer
after_drain (false, c) = close_tracer c
after_drain (true, c) = c

unfoldable pub trace_step : Action → Tracer → Tracer
unfolding retry after_drain
trace_step (event line answer) c =
    let (stored, sb) = sendbuf_append_data_chunk c.sendbuf line in
    let c' : Tracer = record c { sendbuf = sb } in
    if stored then c' else retry line (sendbuf_drain answer c')
trace_step (drained answer) c = after_drain (sendbuf_drain answer c)

-- The polls of one client; a client whose socket is closed is passed over.
unfoldable pub trace_run : List Action → Tracer → Tracer
unfolding trace_step
trace_run [] c = c
trace_run (a ∷ actions) c = if c.connected then trace_run actions (trace_step a c) else c
