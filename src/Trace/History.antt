-- ===== src/Trace/History.antt =====
-- What a tracing client gets: whole chunks in the order of the events, and the number of those that
-- were lost in between.
use amigactl.Prelude.{
  ℕ, zero, suc, ◌+◌, ◌<◌, ◌≤◌, Bool, true, false, ◌&&◌, List, [], ◌∷◌, ◌++◌, append_assoc, ◌≡◌, ap,
  sym, ◌∙◌, arith, ltb, leb, ◌==◌, if_intro, length, length-append, length-drop, take, drop, min,
  take-append-drop,
}
use amigactl.Trace.{
  trace_sendbuf_size, Sendbuf, data_chunk, drop_msg, notify, put_chunk, sendbuf_append_data_chunk,
  Sending, takes, would_block, fails, Tracer, taken, drain_some, sendbuf_drain,
}

-- What a chunk is about: an event, or a number of events that were lost.
pub data Item : Type 0 where
  carried : List ℕ → Item
  told : ℕ → Item

unfoldable pub item_text : Item → List ℕ
item_text (carried line) = data_chunk line
item_text (told n) = data_chunk (drop_msg n)

-- The bytes of the chunks, of which the last comes first in the list.
unfoldable pub stream : List Item → List ℕ
stream [] = []
stream (item ∷ items) = stream items ++ item_text item

-- The chunks tell this of the events, of which the last comes first: each was carried, or it was
-- lost and counted, and the count was told before the next event was carried, or still is to be.
pub data History : List Item → ℕ → List (List ℕ) → Type 0 where
  silent : History [] 0 []
  carry :
      {items : List Item} {lost : ℕ} {events : List (List ℕ)} (line : List ℕ)
      → History items lost events
      → History (carried line ∷ items) lost (line ∷ events)
  miss :
      {items : List Item} {lost : ℕ} {events : List (List ℕ)} (line : List ℕ)
      → History items lost events
      → History items (suc lost) (line ∷ events)
  tell :
      {items : List Item} {lost : ℕ} {events : List (List ℕ)}
      → History items (suc lost) events
      → History (told (suc lost) ∷ items) 0 events

-- A client that is connected, after these events: what was sent and what is in the buffer are the
-- chunks of such a history.
pub record Holds (sent : List ℕ) (sb : Sendbuf) (events : List (List ℕ)) : Type 0 where
  pub items : List Item
  pub history : History items sb.events_dropped events
  pub bytes : sent ++ sb.buf ≡ stream items
  pub room : length sb.buf ≤ trace_sendbuf_size
  pub few : sb.events_dropped ≤ length events

tell-Holds :
    (sent buf : List ℕ) (lost : ℕ) (events : List (List ℕ))
    → Holds sent (record { buf = buf; events_dropped = lost }) events
    → 0 < lost
    → length buf + length (data_chunk (drop_msg lost)) ≤ trace_sendbuf_size
    → Holds sent (record { buf = buf ++ data_chunk (drop_msg lost); events_dropped = 0 }) events
unfolding stream item_text
tell-Holds sent buf zero events h pos fits = absurd (omega arith)
tell-Holds sent buf (suc lost) events h pos fits = record {
  items = told (suc lost) ∷ h.items;
  history = tell h.history;
  bytes =
      sym (append_assoc sent buf (data_chunk (drop_msg (suc lost))))
      ∙ ap (λ l. l ++ data_chunk (drop_msg (suc lost))) h.bytes;
  room = omega (arith, length-append buf (data_chunk (drop_msg (suc lost))));
  few = omega arith;
}

notify-Holds :
    (sent : List ℕ) (sb : Sendbuf) (events : List (List ℕ))
    → Holds sent sb events
    → Holds sent (notify sb) events
unfolding notify
notify-Holds sent sb events h =
    let text = data_chunk (drop_msg sb.events_dropped) in
    if_intro (λ s. Holds sent s events)
      (ltb 0 sb.events_dropped && leb (length sb.buf + length text) trace_sendbuf_size) _ _
      (λ e. tell-Holds sent sb.buf sb.events_dropped events h (ground arith) (ground arith))
      (λ _. h)

-- A chunk was put into the buffer, or nothing has changed.
unfoldable pub Put : List ℕ → List ℕ → List (List ℕ) → Bool × Sendbuf → Type 0
Put sent line events (true, sb) = Holds sent sb (line ∷ events)
Put sent line events (false, sb) = Holds sent sb events

put_chunk-Put :
    (sent line : List ℕ) (sb : Sendbuf) (events : List (List ℕ))
    → Holds sent sb events
    → Put sent line events (put_chunk sb line)
unfolding put_chunk Put stream item_text
put_chunk-Put sent line sb events h =
    if_intro (Put sent line events)
      (ltb trace_sendbuf_size (length sb.buf + length (data_chunk line))) _ _ (λ _. h)
      (λ e.
        let fits : length sb.buf + length (data_chunk line) ≤ trace_sendbuf_size = ground arith in
        record {
          items = carried line ∷ h.items;
          history = carry line h.history;
          bytes =
              sym (append_assoc sent sb.buf (data_chunk line))
              ∙ ap (λ l. l ++ data_chunk line) h.bytes;
          room = omega (arith, length-append sb.buf (data_chunk line));
          few = omega (arith, h.few);
        })

pub append-Put :
    (sent line : List ℕ) (sb : Sendbuf) (events : List (List ℕ))
    → Holds sent sb events
    → Put sent line events (sendbuf_append_data_chunk sb line)
unfolding sendbuf_append_data_chunk
append-Put sent line sb events h =
    put_chunk-Put sent line (notify sb) events (notify-Holds sent sb events h)

abbrev pub HoldsAt : Tracer → List (List ℕ) → Type 0
HoldsAt c events = Holds c.sent c.sendbuf events

taken-Holds :
    (n : ℕ) (c : Tracer) (events : List (List ℕ)) → HoldsAt c events → HoldsAt (taken n c) events
unfolding taken
taken-Holds n c events h = record {
  items = h.items;
  history = h.history;
  bytes =
      append_assoc c.sent (take n c.sendbuf.buf) (drop n c.sendbuf.buf)
      ∙ ap (λ l. c.sent ++ l) (take-append-drop n c.sendbuf.buf)
      ∙ h.bytes;
  room = omega (arith, h.room, length-drop n c.sendbuf.buf);
  few = h.few;
}

drain_some-Holds :
    (answer : Sending) (c : Tracer) (events : List (List ℕ))
    → HoldsAt c events
    → HoldsAt (drain_some answer c).1 events
unfolding drain_some
drain_some-Holds (takes k) c events h = taken-Holds (min (suc k) (length c.sendbuf.buf)) c events h
drain_some-Holds would_block c events h = h
drain_some-Holds fails c events h = h

pub drain-Holds :
    (answer : Sending) (c : Tracer) (events : List (List ℕ))
    → HoldsAt c events
    → HoldsAt (sendbuf_drain answer c).1 events
unfolding sendbuf_drain
drain-Holds answer c events h =
    if_intro (λ (r : Bool × Tracer). HoldsAt r.1 events) (length c.sendbuf.buf == 0) _ _ (λ _. h)
      (λ _. drain_some-Holds answer c events h)
