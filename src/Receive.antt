-- ===== src/Receive.antt =====
-- Reads from a client in the middle of a command: `recv_exact_from_client` and `recv_line_blocking`
-- of daemon/net.c, on the buffer that `extract_command` shares with the event loop.
pub mod Pending
pub mod Newlines
pub mod Lines
mod Tests
use amigactl.Prelude.{
  ℕ, zero, suc, ◌+◌, ◌-◌, List, [], ◌∷◌, ◌++◌, Option, none, some, leb, if◌then◌else◌, length, take,
  drop, min,
}
use amigactl.Inbound.{
  Inbox, Extracted, command, overflow, incomplete, recv_buf_size, recv_into_buf, extract_command,
}

-- The network's choices: the call of that number delivers one byte more than `gives` says, if there
-- are so many, and if so many are asked for.
pub record Incoming : Type 0 where
  pub gives : ℕ → ℕ

-- A connection: the buffer, the bytes that arrive before the client is gone, and the calls of
-- `recv` so far.
pub record Conn : Type 0 where
  pub inbox : Inbox
  pub stream : List ℕ
  pub calls : ℕ

module _ (net : Incoming) where
  -- `recv (fd, buf, len, 0)`: nothing for a result that is not positive.
  unfoldable pub recv : ℕ → Conn → List ℕ × Conn
  recv len c =
      let n = min (suc (net.gives c.calls)) len in
      (take n c.stream, record c { stream = drop n c.stream; calls = c.calls + 1 })

  -- The loop behind the buffered bytes, for the number that is missing. `none` for the whole means
  -- that the fuel ran out, `none` inside is the result -1.
  unfoldable pub exact_loop : ℕ → List ℕ → ℕ → Conn → Option (Option (List ℕ) × Conn)
  unfolding recv
  exact_loop zero got missing c = none
  exact_loop (suc fuel) got zero c = some (some got, c)
  exact_loop (suc fuel) got (suc missing) c = elim (recv (suc missing) c).0 [
    | [] ↦ some (none, (recv (suc missing) c).1)
    | b ∷ bytes ↦
        exact_loop fuel (got ++ (b ∷ bytes)) (suc missing - length (b ∷ bytes))
          (recv (suc missing) c).1
  ]

  unfoldable pub recv_exact_from_client : ℕ → Conn → Option (Option (List ℕ) × Conn)
  unfolding exact_loop
  recv_exact_from_client len c =
      let from_buf = min (length c.inbox.buf) len in
      exact_loop (suc len) (take from_buf c.inbox.buf) (len - from_buf)
        (record c { inbox = record c.inbox { buf = drop from_buf c.inbox.buf } })

  -- Behind the call of `recv`; `again` is the next round.
  unfoldable pub after_recv :
      (Conn → Option (Option (List ℕ) × Conn)) → List ℕ × Conn → Option (Option (List ℕ) × Conn)
  after_recv again ([], c) = some (none, c)
  after_recv again (b ∷ bytes, c) = again (record c { inbox = recv_into_buf c.inbox (b ∷ bytes) })

  unfoldable pub after_extract :
      (Conn → Option (Option (List ℕ) × Conn))
      → Conn
      → Extracted × Inbox
      → Option (Option (List ℕ) × Conn)
  unfolding after_recv recv
  after_extract again c (command cmd, inbox) = some (some cmd, record c { inbox = inbox })
  after_extract again c (overflow, inbox) = some (none, record c { inbox = inbox })
  after_extract again c (incomplete, inbox) =
      after_recv again (recv (recv_buf_size - length inbox.buf) (record c { inbox = inbox }))

  unfoldable pub line_loop : ℕ → ℕ → Conn → Option (Option (List ℕ) × Conn)
  unfolding after_extract
  line_loop zero cmd_max c = none
  line_loop (suc fuel) cmd_max c =
      after_extract (line_loop fuel cmd_max) c (extract_command c.inbox cmd_max)

  unfoldable pub recv_line_blocking : ℕ → Conn → Option (Option (List ℕ) × Conn)
  unfolding line_loop
  recv_line_blocking cmd_max c = line_loop (suc (length c.stream)) cmd_max c
