-- ===== src/Trace/Runs.antt =====
-- A tracing client over many polls, until its socket is closed.
use amigactl.Prelude.{
  ℕ, suc, ◌+◌, ◌%◌, ◌^◌, ◌<◌, ◌≤◌, Bool, true, false, List, [], ◌∷◌, ◌++◌, ◌≡◌, refl, arith,
  if◌then◌else◌, if_intro, length, inl, inr, subst, ◌⊎◌,
}
use amigactl.Trace.{
  Sendbuf, sendbuf_append_data_chunk, Sending, Tracer, start, sendbuf_drain, close_tracer, retry,
  Action, event, drained, after_drain, trace_step, trace_run,
}
use amigactl.Trace.History.{
  Item, stream, History, silent, miss, HoldsAt, Put, append-Put, drain-Holds,
}

-- What the client has of a history whose end it may not have.
pub record Partial (sent : List ℕ) : Type 0 where
  pub items : List Item
  pub lost : ℕ
  pub events : List (List ℕ)
  pub history : History items lost events
  pub rest : List ℕ
  pub bytes : sent ++ rest ≡ stream items

-- The client has the whole history up to its buffer, or its socket is closed.
unfoldable pub After : Tracer → List (List ℕ) → Type 0
After c events = HoldsAt c events ⊎ ((c.connected ≡ false) × Partial c.sent)

part_of : (c : Tracer) (events : List (List ℕ)) → HoldsAt c events → Partial c.sent
part_of c held h = record {
  items = h.items;
  lost = c.sendbuf.events_dropped;
  events = held;
  history = h.history;
  rest = c.sendbuf.buf;
  bytes = h.bytes;
}

part_of_After : (c : Tracer) (events : List (List ℕ)) → After c events → Partial c.sent
unfolding After
part_of_After c events (inl h) = part_of c events h
part_of_After c events (inr (closed, part)) = part

close-After :
    (c : Tracer) (held events : List (List ℕ)) → HoldsAt c held → After (close_tracer c) events
unfolding close_tracer After
close-After c held events h = inr (refl, part_of c held h)

-- The event is stored at last, or it is counted.
second-After :
    (c : Tracer) (line : List ℕ) (events : List (List ℕ)) (r : Bool × Sendbuf)
    → Put c.sent line events r
    → length events + 1 < 2 ^ 32
    → After
        (record c {
          sendbuf =
              if r.0
              then r.1
              else record r.1 { events_dropped = (r.1.events_dropped + 1) % 2 ^ 32 };
        })
        (line ∷ events)
unfolding After Put
second-After c line events (true, sb) put few = inl put
second-After c line events (false, sb) put few =
    let count : suc sb.events_dropped ≡ (sb.events_dropped + 1) % 2 ^ 32 =
      omega (arith, put.few, few) in
    inl (record {
      items = put.items;
      history = subst (λ n. History put.items n (line ∷ events)) count (miss line put.history);
      bytes = put.bytes;
      room = put.room;
      few = omega (arith, put.few);
    })

retry-After :
    (line : List ℕ) (events : List (List ℕ)) (r : Bool × Tracer)
    → HoldsAt r.1 events
    → length events + 1 < 2 ^ 32
    → After (retry line r) (line ∷ events)
unfolding retry
retry-After line events (false, c) h few = close-After c events (line ∷ events) h
retry-After line events (true, c) h few =
    second-After c line events (sendbuf_append_data_chunk c.sendbuf line)
      (append-Put c.sent line c.sendbuf events h) few

event-After :
    (line : List ℕ) (answer : Sending) (c : Tracer) (events : List (List ℕ)) (r : Bool × Sendbuf)
    → Put c.sent line events r
    → length events + 1 < 2 ^ 32
    → After
        (if r.0
          then record c { sendbuf = r.1 }
          else retry line (sendbuf_drain answer (record c { sendbuf = r.1 })))
        (line ∷ events)
unfolding After Put
event-After line answer c events (true, sb) put few = inl put
event-After line answer c events (false, sb) put few =
    let c' : Tracer = record c { sendbuf = sb } in
    retry-After line events (sendbuf_drain answer c') (drain-Holds answer c' events put) few

after_drain-After :
    (r : Bool × Tracer) (events : List (List ℕ)) → HoldsAt r.1 events → After (after_drain r) events
unfolding after_drain After
after_drain-After (false, c) events h = close-After c events events h
after_drain-After (true, c) events h = inl h

-- The events among the actions, the last first, in front of the earlier ones.
unfoldable pub events_of : List Action → List (List ℕ) → List (List ℕ)
events_of [] events = events
events_of (event line answer ∷ actions) events = events_of actions (line ∷ events)
events_of (drained answer ∷ actions) events = events_of actions events

-- One action with the socket open, and what follows it.
step-After :
    (a : Action) (c : Tracer) (events : List (List ℕ))
    → HoldsAt c events
    → length events + 1 < 2 ^ 32
    → After (trace_step a c) (events_of (a ∷ []) events)
unfolding trace_step events_of
step-After (event line answer) c events h few =
    event-After line answer c events (sendbuf_append_data_chunk c.sendbuf line)
      (append-Put c.sent line c.sendbuf events h) few
step-After (drained answer) c events h few =
    after_drain-After (sendbuf_drain answer c) events (drain-Holds answer c events h)

length-events_of :
    (a : Action) (events : List (List ℕ)) → length (events_of (a ∷ []) events) ≤ length events + 1
unfolding events_of
length-events_of (event line answer) events = omega arith
length-events_of (drained answer) events = omega arith

events_of-nil : (events : List (List ℕ)) → events_of [] events ≡ events
unfolding events_of
events_of-nil events = refl

events_of-step :
    (a : Action) (actions : List Action) (events : List (List ℕ))
    → events_of (a ∷ actions) events ≡ events_of actions (events_of (a ∷ []) events)
unfolding events_of
events_of-step (event line answer) actions events = refl
events_of-step (drained answer) actions events = refl

run_open-After :
    (actions : List Action) (c : Tracer) (events : List (List ℕ))
    → length actions + length events < 2 ^ 32
    → After c events
    → After (trace_run actions c) (events_of actions events)
unfolding trace_run After
run_open-After [] c events few h = rw (events_of-nil events) h
run_open-After (a ∷ actions) c events few h = rw (events_of-step a actions events) (
    if_intro (λ t. After t (events_of actions (events_of (a ∷ []) events))) c.connected _ _
      (λ live.
        run_open-After actions (trace_step a c) (events_of (a ∷ []) events)
          (omega (arith, length-events_of a events))
          (step-After a c events (held live h) (omega arith)))
      (λ closed. inr (closed, part_of_After c events h)))
  where
    held : c.connected ≡ true → After c events → HoldsAt c events
    held live (inl h) = h
    held live (inr (closed, part)) = absurd cc

-- For fewer than 2^32 actions: as long as the socket of a tracing client is open, what the network
-- took and what is in the buffer are the chunks of a history of all its events, and the buffer is
-- within its bound; if the socket was closed, what the network took is a part of such chunks.
pub trace_run-After :
    (actions : List Action)
    → length actions < 2 ^ 32
    → After (trace_run actions start) (events_of actions [])
unfolding After stream
trace_run-After actions few = run_open-After actions start [] (omega arith) (
    inl (record {
      items = [];
      history = silent;
      bytes = refl;
      room = omega arith;
      few = omega arith;
    }))
