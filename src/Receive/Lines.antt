-- ===== src/Receive/Lines.antt =====
-- The blocking read of a line, whatever the network delivers.
use amigactl.Prelude.{
  ℕ, zero, suc, ◌+◌, ◌-◌, ◌≤◌, ◌<◌, true, false, List, [], ◌∷◌, ◌++◌, append_assoc, append-nil,
  none, some, ◌≡◌, refl, ap, ◌∙◌, arith, leb, ltb, length, length-append, length-take, length-drop,
  take, drop, min, Option-cases, inl, inr, take-append-drop, take-nil, Bool-cases, lt→ltb,
  le→ltb_false,
}
use amigactl.Inbound.{
  Inbox, command, overflow, incomplete, recv_buf_size, recv_into_buf, extract_command, split_line,
  strip_cr, clip,
}
use amigactl.Receive.{
  Incoming, Conn, recv, after_recv, after_extract, line_loop, recv_line_blocking,
}
use amigactl.Receive.Pending.{pending, next_line, Reads}
use amigactl.Receive.Newlines.{split_line-append, split_line-length, split_line-beyond}

pub next_line-found :
    (cmd_max : ℕ) (p line rest : List ℕ)
    → split_line p ≡ some (line, rest)
    → length line < recv_buf_size
    → next_line cmd_max p ≡ some (clip cmd_max (strip_cr line), rest)
unfolding next_line
next_line-found cmd_max p line rest h lt =
    rw (h, next_line, lt→ltb (length line) recv_buf_size lt) refl

-- A full buffer without a newline.
next_line-full :
    (cmd_max : ℕ) (p s : List ℕ)
    → split_line p ≡ none
    → recv_buf_size ≤ length p
    → next_line cmd_max (p ++ s) ≡ none
unfolding next_line
next_line-full cmd_max p s h full = elim (Option-cases (split_line (p ++ s))) [
  | inl e ↦ rw (e, next_line) refl
  | inr ((line, rest), e) ↦
      let long : ltb (length line) recv_buf_size ≡ false =
        le→ltb_false _ _ (omega (arith, split_line-beyond p s line rest h e)) in
      rw (e, next_line, long) refl
]

module _ (inbox : Inbox) (cmd_max : ℕ) where
  pub extract-line :
      (line rest : List ℕ)
      → split_line inbox.buf ≡ some (line, rest)
      → extract_command inbox cmd_max
        ≡ (command (clip cmd_max (strip_cr line)), record inbox { buf = rest })
  unfolding extract_command
  extract-line line rest e = rw (e, extract_command) refl

  pub extract-full :
      split_line inbox.buf ≡ none
      → leb recv_buf_size (length inbox.buf) ≡ true
      → extract_command inbox cmd_max ≡ (overflow, record inbox { discarding = true })
  unfolding extract_command
  extract-full e full = rw (e, extract_command, full) refl

  pub extract-partial :
      split_line inbox.buf ≡ none
      → leb recv_buf_size (length inbox.buf) ≡ false
      → extract_command inbox cmd_max ≡ (incomplete, inbox)
  unfolding extract_command
  extract-partial e room = rw (e, extract_command, room) refl

module _ (net : Incoming) where
  -- Nothing to show but for a buffer with room and without a line.
  line_loop-step :
      (fuel cmd_max : ℕ) (inbox : Inbox) (stream : List ℕ) (calls : ℕ)
      → (split_line inbox.buf ≡ none
          → leb recv_buf_size (length inbox.buf) ≡ false
          → Reads (next_line cmd_max (inbox.buf ++ stream)) (
              line_loop net
                (suc fuel)
                cmd_max
                (record { inbox = inbox; stream = stream; calls = calls })))
      → length inbox.buf ≤ recv_buf_size
      → Reads (next_line cmd_max (inbox.buf ++ stream)) (
          line_loop net
            (suc fuel)
            cmd_max
            (record { inbox = inbox; stream = stream; calls = calls }))
  unfolding line_loop after_extract Reads
  line_loop-step fuel cmd_max inbox stream calls more low =
      elim (Option-cases (split_line inbox.buf)) [
        | inr ((line, rest), e) ↦
            let size = split_line-length inbox.buf line rest e in
            let found =
              next_line-found cmd_max (inbox.buf ++ stream) line (rest ++ stream)
                (split_line-append inbox.buf stream line rest e) (omega arith) in
            let left : Inbox = record inbox { buf = rest } in
            rw (found, extract-line inbox cmd_max line rest e, line_loop)
              (record { inbox = left; stream = stream; calls = calls }, refl, refl, omega arith)
        | inl e ↦ elim (Bool-cases (leb recv_buf_size (length inbox.buf))) [
          | inl full ↦
              rw
                (
                  next_line-full cmd_max inbox.buf stream e (ground arith),
                  extract-full inbox cmd_max e full,
                  line_loop,
                )
                (
                  record {
                    inbox = record inbox { discarding = true };
                    stream = stream;
                    calls = calls;
                  },
                  refl,
                )
          | inr room ↦ more e room
        ]
      ]

  line_loop-Reads :
      (fuel cmd_max : ℕ) (inbox : Inbox) (stream : List ℕ) (calls : ℕ)
      → length stream < fuel
      → length inbox.buf ≤ recv_buf_size
      → Reads
          (next_line cmd_max (inbox.buf ++ stream))
          (line_loop net fuel cmd_max (record { inbox = inbox; stream = stream; calls = calls }))
  unfolding line_loop after_extract after_recv recv Reads recv_into_buf next_line
  line_loop-Reads zero cmd_max inbox stream calls lt low = absurd (omega arith)
  line_loop-Reads (suc fuel) cmd_max inbox [] calls lt low =
      let n = min (suc (net.gives calls)) (recv_buf_size - length inbox.buf) in
      line_loop-step fuel cmd_max inbox [] calls
        (λ e room.
          rw
            (
              append-nil inbox.buf,
              e,
              next_line,
              extract-partial inbox cmd_max e room,
              line_loop,
              take-nil {A = ℕ} n,
            )
            (record { inbox = inbox; stream = drop n []; calls = calls + 1 }, refl))
        low
  line_loop-Reads (suc fuel) cmd_max inbox (b ∷ stream) calls lt low =
      let m = min (net.gives calls) (recv_buf_size - length inbox.buf - 1) in
      let whole : (inbox.buf ++ (b ∷ take m stream)) ++ drop m stream ≡ inbox.buf ++ (b ∷ stream) =
        append_assoc inbox.buf (b ∷ take m stream) (drop m stream)
        ∙ ap (λ l. inbox.buf ++ (b ∷ l)) (take-append-drop m stream) in
      line_loop-step fuel cmd_max inbox (b ∷ stream) calls
        (λ e room.
          let n : min (suc (net.gives calls)) (recv_buf_size - length inbox.buf) ≡ suc m =
            omega (arith, leb_false_lt room) in
          rw (extract-partial inbox cmd_max e room, line_loop, n, ← whole)
            (line_loop-Reads fuel cmd_max (record inbox { buf = inbox.buf ++ (b ∷ take m stream) })
              (drop m stream) (calls + 1) (omega (arith, length-drop m stream))
              (omega (
                arith,
                length-append inbox.buf (b ∷ take m stream),
                length-take m stream,
                leb_false_lt room,
              ))))
        low
    where
      leb_false_lt : leb recv_buf_size (length inbox.buf) ≡ false → length inbox.buf < recv_buf_size
      leb_false_lt h = ground arith

  pub recv_line_blocking-Reads :
      (cmd_max : ℕ) (c : Conn)
      → length c.inbox.buf ≤ recv_buf_size
      → Reads (next_line cmd_max (pending c)) (recv_line_blocking net cmd_max c)
  unfolding recv_line_blocking
  recv_line_blocking-Reads cmd_max c low =
      line_loop-Reads (suc (length c.stream)) cmd_max c.inbox c.stream c.calls (omega arith) low
