-- ===== src/Serve/Commands.antt =====
-- The command loop of `handle_client` ends, and takes lines from the bytes to come.
use amigactl.Prelude.{
  ℕ, zero, suc, ◌+◌, ◌≤◌, ◌<◌, true, false, List, [], Option, none, some, ◌≡◌, refl, ap, ◌∙◌, arith,
  length, length-append, leb, Option-cases, Bool-cases, inl, inr,
}
use amigactl.Inbound.{
  Inbox, command, recv_buf_size, max_cmd_len, split_line, strip_cr, extract_command,
  is_empty_command,
}
use amigactl.Inbound.Lines.{length-strip_cr, clip_short, nil_partial}
use amigactl.Receive.{Conn}
use amigactl.Receive.Pending.{pending}
use amigactl.Receive.Newlines.{split_line-append, split_line-length}
use amigactl.Receive.Lines.{extract-line, extract-full, extract-partial}
use amigactl.Serve.{
  Turn, Loop, closed_turn, open_turn, perform, after_command, after_extracted, run_commands,
}
use amigactl.Serve.Run.{
  Point, open_at, point_by, point_of, Handler, Does, blank, handled, closes, oversized, Runs, stays,
  more, append_Runs, Acts, NoMore, IsIdle, Reads,
}

module _ {S : Type 0} (loop : Loop S) (handler : Handler S) where
  -- The code ends, from a point, by such steps and with this property.
  abbrev pub Ends : (Turn S → Type 0) → Point S → Option (Turn S) → Type 0
  Ends P x o = (t : Turn S) × (o ≡ some t) × Runs loop handler x (point_of t) × P t

  pub after_step :
      {P : Turn S → Type 0} {x y : Point S} {o : Option (Turn S)}
      → Does loop handler x y
      → Ends P y o
      → Ends P x o
  after_step d (t, e, r, room) = (t, e, append_Runs loop handler (more stays d) r, room)

  abbrev commands_loop : ℕ → S → Conn → Option (Turn S)
  commands_loop = run_commands loop.dispatch loop.too_long

  -- A line that is no blank one, for what its handler does.
  line_case :
      (again : S → Conn → Option (Turn S)) (s : S) (p line rest : List ℕ) (h : S × Option (List ℕ))
      (t : Turn S)
      → split_line p ≡ some (line, rest)
      → length line < recv_buf_size
      → is_empty_command (strip_cr line) ≡ false
      → handler s (strip_cr line) rest ≡ h
      → Acts h t
      → NoMore rest h
      → ((s' : S) (c' : Conn)
          → length (pending c') ≤ length rest
          → length c'.inbox.buf ≤ recv_buf_size
          → c'.inbox.discarding ≡ false
          → Ends IsIdle (open_at s' false (pending c')) (again s' c'))
      → Ends IsIdle
          (open_at s false p)
          (after_command loop.dispatch loop.too_long again t.connected t)
  unfolding Acts NoMore after_command point_of point_by
  line_case again s p line rest (s', none) t found short full act (e, dead) less ih = rw dead (
    closed_turn t.state t.conn,
    refl,
    rw e (more stays (closes s s' p line rest found short full act)),
    λ live. absurd cc,
  )
  line_case again s p line rest (s', some rest') t found short full act (e, live, left, low, clean)
        less ih =
      rw (live, e)
        (after_step (handled s s' p line rest rest' found short full act)
          (rw (e, left) at (ih t.state t.conn (omega (arith, ap length left, less)) low clean)))

  full_case :
      (fuel : ℕ) (s : S) (c : Conn)
      → split_line c.inbox.buf ≡ none
      → leb recv_buf_size (length c.inbox.buf) ≡ true
      → length c.inbox.buf ≤ recv_buf_size
      → Ends IsIdle (open_at s false (pending c)) (commands_loop (suc fuel) s c)
  unfolding run_commands after_extracted point_of point_by
  full_case fuel s c e full low = (
    open_turn (loop.too_long s) (record c { inbox = record { buf = []; discarding = true } }),
    rw (extract-full c.inbox (max_cmd_len + 1) e full, run_commands) refl,
    more stays (
        oversized s (pending c) c.stream c.inbox.buf refl
          (let big : recv_buf_size ≤ length c.inbox.buf = ground arith in omega (arith, big, low))
          e),
    λ live. (omega arith, nil_partial),
  )

  room_case :
      (fuel : ℕ) (s : S) (c : Conn)
      → split_line c.inbox.buf ≡ none
      → leb recv_buf_size (length c.inbox.buf) ≡ false
      → c.inbox.discarding ≡ false
      → Ends IsIdle (open_at s false (pending c)) (commands_loop (suc fuel) s c)
  unfolding run_commands after_extracted point_of point_by
  room_case fuel s c e room clean = (
    open_turn s c,
    rw (extract-partial c.inbox (max_cmd_len + 1) e room, run_commands) refl,
    rw clean stays,
    λ live. (ground arith, e),
  )

  extracted :
      (inbox : Inbox) (line rest : List ℕ)
      → split_line inbox.buf ≡ some (line, rest)
      → length line < recv_buf_size
      → extract_command inbox (max_cmd_len + 1)
        ≡ (command (strip_cr line), record inbox { buf = rest })
  extracted inbox line rest e short =
      extract-line inbox (max_cmd_len + 1) line rest e
      ∙ ap (λ l. (command l, record inbox { buf = rest }))
          (clip_short (strip_cr line) (omega (arith, length-strip_cr line, short)))

  module _ (reads : Reads loop handler) where
    command_case :
        (again : S → Conn → Option (Turn S)) (s : S) (p line : List ℕ) (c : Conn)
        → split_line p ≡ some (line, pending c)
        → length line < recv_buf_size
        → length c.inbox.buf ≤ recv_buf_size
        → c.inbox.discarding ≡ false
        → ((s' : S) (c' : Conn)
            → length (pending c') ≤ length (pending c)
            → length c'.inbox.buf ≤ recv_buf_size
            → c'.inbox.discarding ≡ false
            → Ends IsIdle (open_at s' false (pending c')) (again s' c'))
        → Ends IsIdle (open_at s false p) (
            after_command loop.dispatch loop.too_long again
              (perform loop.dispatch loop.too_long s (strip_cr line) c).connected
              (perform loop.dispatch loop.too_long s (strip_cr line) c))
    unfolding perform after_command
    command_case again s p line c found short low clean ih =
        elim (Bool-cases (is_empty_command (strip_cr line))) [
          | inl e ↦ rw e (
              after_step (blank s p line (pending c) found short e)
                (ih s c (omega arith) low clean))
          | inr e ↦ rw e (
              line_case again s p line (pending c) (handler s (strip_cr line) (pending c))
                (loop.dispatch s (strip_cr line) c) found short e refl
                (reads.acts s (strip_cr line) c low clean)
                (reads.no_more s (strip_cr line) (pending c)) ih)
        ]

    pub run_commands-Ends :
        (fuel : ℕ) (s : S) (c : Conn)
        → length (pending c) < fuel
        → length c.inbox.buf ≤ recv_buf_size
        → c.inbox.discarding ≡ false
        → Ends IsIdle (open_at s false (pending c)) (commands_loop fuel s c)
    unfolding run_commands after_extracted perform point_of point_by
    run_commands-Ends zero s c lt low clean = absurd (omega arith)
    run_commands-Ends (suc fuel) s c lt low clean = elim (Option-cases (split_line c.inbox.buf)) [
      | inl e ↦ elim (Bool-cases (leb recv_buf_size (length c.inbox.buf))) [
        | inl full ↦ full_case fuel s c e full low
        | inr room ↦ room_case fuel s c e room clean
      ]
      | inr ((line, rest), e) ↦
          let size = split_line-length c.inbox.buf line rest e in
          let short : length line < recv_buf_size = omega (arith, size, low) in
          let c' = record c { inbox = record c.inbox { buf = rest } } in
          let shorter : length (pending c') < fuel =
            omega
              (arith, size, lt, length-append c.inbox.buf c.stream, length-append rest c.stream) in
          rw (extracted c.inbox line rest e short, run_commands)
            (command_case (commands_loop fuel) s (pending c) line c'
              (split_line-append c.inbox.buf c.stream line rest e) short (omega (arith, size, low))
              clean
              (λ s'' c'' less low'' clean''.
                run_commands-Ends fuel s'' c'' (omega (arith, less, shorter)) low'' clean''))
    ]
