-- ===== src/Trace/Tests.antt =====
-- Events for a client that reads slowly.
use amigactl.Prelude.{true, List, [], ◌∷◌, ◌++◌, ◌≡◌, refl, arith, codes, lf, decimal, decimal_from}
use amigactl.Trace.{
  start, Action, event, drained, takes, would_block, trace_run, trace_step,
  sendbuf_append_data_chunk, notify, put_chunk, data_chunk, drop_msg, sendbuf_drain, drain_some,
  taken, after_drain,
}
use amigactl.Trace.Runs.{After, events_of, trace_run-After}

abbrev polls : List Action
polls =
    event (codes "Open") would_block
    ∷ drained (takes 3)
    ∷ event (codes "Lock") would_block
    ∷ drained would_block
    ∷ []

run_polls : trace_run polls start ≡ record {
  sendbuf = record {
    buf = codes " 4" ++ (lf ∷ codes "OpenDATA 4") ++ (lf ∷ codes "Lock");
    events_dropped = 0;
  };
  sent = codes "DATA";
  connected = true;
}
unfolding trace_run trace_step sendbuf_append_data_chunk notify put_chunk data_chunk drop_msg
    decimal decimal_from sendbuf_drain drain_some taken after_drain
run_polls = refl

trace_run-After_example : After (trace_run polls start) (events_of polls [])
trace_run-After_example = trace_run-After polls (omega arith)
