-- ===== src/Serve.antt =====
-- `handle_client` of daemon/main.c and the part of its event loop that serves one connection. A
-- handler may read on from the connection, buffer and socket, and may leave the client in a mode in
-- which its bytes are no commands.
pub mod Run
pub mod Commands
pub mod Rounds
mod Tests
use amigactl.Prelude.{
  ℕ, zero, suc, ◌+◌, ◌-◌, Bool, true, false, ◌&&◌, List, [], ◌∷◌, ◌++◌, Option, none, some,
  if◌then◌else◌, length,
}
use amigactl.Inbound.{
  Inbox, Extracted, command, overflow, incomplete, empty, recv_buf_size, max_cmd_len, recv_into_buf,
  extract_command, is_empty_command, end_discard,
}
use amigactl.Receive.{Incoming, Conn, recv}
use amigactl.Receive.Pending.{pending}

-- What a call leaves: the state that the commands acted on, the connection, and whether it is still
-- open.
pub record Turn (S : Type 0) : Type 0 where
  pub state : S
  pub conn : Conn
  pub connected : Bool

-- `disconnect_client`
abbrev pub closed_turn : {S : Type 0} → S → Conn → Turn S
closed_turn s c = record { state = s; conn = record c { inbox = empty }; connected = false }

abbrev pub open_turn : {S : Type 0} → S → Conn → Turn S
open_turn s c = record { state = s; conn = c; connected = true }

-- `dispatch_command` on a state of any kind, and the reply to an oversized line.
module _ {S : Type 0} (dispatch : S → List ℕ → Conn → Turn S) (too_long : S → S) where
  -- One command line: a blank one is skipped.
  unfoldable pub perform : S → List ℕ → Conn → Turn S
  perform s cmd c = if is_empty_command cmd then open_turn s c else dispatch s cmd c

  -- Behind a command; `again` is the next round.
  unfoldable pub after_command : (S → Conn → Option (Turn S)) → Bool → Turn S → Option (Turn S)
  after_command again true t = again t.state t.conn
  after_command again false t = some (closed_turn t.state t.conn)

  unfoldable pub after_extracted :
      (S → Conn → Option (Turn S)) → S → Conn → Extracted × Inbox → Option (Turn S)
  unfolding after_command perform
  after_extracted again s c (command cmd, inbox) =
      let t = perform s cmd (record c { inbox = inbox }) in after_command again t.connected t
  after_extracted again s c (overflow, inbox) =
      some (open_turn (too_long s) (record c { inbox = record inbox { buf = [] } }))
  after_extracted again s c (incomplete, inbox) = some (open_turn s (record c { inbox = inbox }))

  -- The `while` loop over complete commands and the overflow check behind it. `none` means that
  -- the fuel ran out.
  unfoldable pub run_commands : ℕ → S → Conn → Option (Turn S)
  unfolding after_extracted
  run_commands zero s c = none
  run_commands (suc fuel) s c =
      after_extracted (run_commands fuel) s c (extract_command c.inbox (max_cmd_len + 1))

  -- Behind the test of the discard mode.
  unfoldable pub after_discard : S → Conn → Bool → Option (Turn S)
  unfolding run_commands
  after_discard s c true = some (open_turn s c)
  after_discard s c false = run_commands (suc (length (pending c))) s c

  unfoldable pub left_discard : Inbox → Bool → Inbox
  left_discard inbox true = end_discard inbox
  left_discard inbox false = inbox

  -- Behind `recv`, for the bytes that it delivered.
  unfoldable pub after_bytes : S → List ℕ × Conn → Option (Turn S)
  unfolding after_discard left_discard
  after_bytes s ([], c) = some (closed_turn s c)
  after_bytes s (b ∷ bytes, c) =
      let got = recv_into_buf c.inbox (b ∷ bytes) in
      let inbox = left_discard got got.discarding in
      after_discard s (record c { inbox = inbox }) inbox.discarding

  unfoldable pub handle_client : Incoming → S → Conn → Option (Turn S)
  unfolding after_bytes recv
  handle_client net s c = after_bytes s (recv net (recv_buf_size - length c.inbox.buf) c)

-- What the event loop does next: the client's socket is readable, or something else happens to the
-- state (another client, a reply, a poll).
pub data Event (S : Type 0) : Type 0 where
  readable : Event S
  meanwhile : (S → S) → Event S

-- `running` is that of the daemon. A client `takes_commands` if it has no TRACE, no TAIL and no
-- ARexx command under way; `input` is what is done with its bytes in the first two cases, and
-- nothing in the third.
pub record Loop (S : Type 0) : Type 0 where
  pub dispatch : S → List ℕ → Conn → Turn S
  pub too_long : S → S
  pub running : S → Bool
  pub takes_commands : S → Bool
  pub input : S → Conn → Turn S

module _ {S : Type 0} (loop : Loop S) (net : Incoming) where
  unfoldable pub by_mode : S → Conn → Bool → Option (Turn S)
  unfolding handle_client
  by_mode s c true = handle_client loop.dispatch loop.too_long net s c
  by_mode s c false = some (loop.input s c)

  unfoldable pub on_event : Turn S → Event S → Option (Turn S)
  unfolding by_mode
  on_event t (meanwhile f) = some (record t { state = f t.state })
  on_event t readable =
      if t.connected && loop.running t.state
      then by_mode t.state t.conn (loop.takes_commands t.state)
      else some t

  unfoldable pub serve : Turn S → List (Event S) → Option (Turn S)
  unfolding on_event
  serve t [] = some t
  serve t (e ∷ es) = elim (on_event t e) [ none ↦ none | some t' ↦ serve t' es ]
