-- ===== src/Dispatch/Described.antt =====
-- `dispatch_command` in the event loop: what a command does to the bytes that are still to come.
use amigactl.Prelude.{
  ℕ, ◌≤◌, Bool, false, List, [], ◌∷◌, ◌++◌, Option, none, some, ◌≡◌, length, codes, c_str,
  skip_blanks, word, after_word,
}
use amigactl.Effects.{Effect, reply, refuse, err_syntax}
use amigactl.Wire.Frames.{ok, payload, sentinel}
use amigactl.Config.{Config}
use amigactl.Inbound.{recv_buf_size}
use amigactl.Receive.{Conn}
use amigactl.Receive.Pending.{pending}
use amigactl.Serve.{Turn, Loop}
use amigactl.Serve.Run.{Handler, Acts, NoMore}
use amigactl.Dispatch.{
  Verb, Command, version, ping, quit, shutdown, reboot, unknown, handled, commands, lookup_command,
  Daemon, with_replies, too_long, Handlers, cmd_shutdown, cmd_reboot, dispatch_command,
}

-- What a handler does, by the bytes to come in place of the connection; `none` if it returns -1.
abbrev pub Description : Type 0 → Type 0
Description S = Verb → S → List ℕ → List ℕ → S × List Effect × Option (List ℕ)

-- The daemon behind a handler.
abbrev behind : {S : Type 0} → Daemon S → S → List Effect → Daemon S
behind d s replies = record d { state = s; output = d.output ++ replies }

unfoldable pub SameVerb :
    {S : Type 0} → S × List Effect × Option (List ℕ) → S × List Effect × Conn × Bool → Type 0
SameVerb (s, replies, o) (s', replies', c, returned) =
    (replies' ≡ replies) × Acts (s, o) (record { state = s'; conn = c; connected = returned })

-- The handlers act as described, and a handler adds no bytes to those to come.
pub record FitsHandlers {S : Type 0} (handlers : Handlers S) (described : Description S)
    : Type 0 where
  pub acts :
      (verb : Verb) (s : S) (rest : List ℕ) (c : Conn)
      → length c.inbox.buf ≤ recv_buf_size
      → c.inbox.discarding ≡ false
      → SameVerb (described verb s rest (pending c)) (handlers verb s rest c)
  pub no_more :
      (verb : Verb) (s : S) (rest p : List ℕ)
      → NoMore p ((described verb s rest p).0, (described verb s rest p).2)

module _ {S : Type 0} (handlers : Handlers S) (config : Config) (described : Description S) where
  unfoldable by_verb : Daemon S → S × List Effect × Option (List ℕ) → Daemon S × Option (List ℕ)
  by_verb d (s, replies, o) = (behind d s replies, o)

  unfoldable run_described : Command → List ℕ → Daemon S → List ℕ → Daemon S × Option (List ℕ)
  unfolding by_verb
  run_described version rest d p = (
    with_replies (reply (ok none) ∷ reply (payload (codes "amigactld 0.8.2")) ∷ reply sentinel ∷ [])
        d,
    some p,
  )
  run_described ping rest d p = (with_replies (reply (ok none) ∷ reply sentinel ∷ []) d, some p)
  run_described quit rest d p =
      (with_replies (reply (ok (some (codes "Goodbye"))) ∷ reply sentinel ∷ []) d, none)
  run_described shutdown rest d p = (cmd_shutdown handlers config rest d, some p)
  run_described reboot rest d p = (cmd_reboot handlers config rest d, some p)
  run_described unknown rest d p = (with_replies (refuse err_syntax "Unknown command") d, some p)
  run_described (handled verb) rest d p = by_verb d (described verb d.state rest p)

  -- What a command line does to the daemon and to the bytes behind it.
  unfoldable pub line_described : Handler (Daemon S)
  unfolding run_described
  line_described d cmd p =
      let line = c_str cmd in
      run_described (lookup_command commands (word line)) (skip_blanks (after_word line)) d p

  -- The event loop with this dispatch; the modes of a client are in the state of the handlers.
  abbrev pub daemon_loop : (S → Bool) → (Daemon S → Conn → Turn (Daemon S)) → Loop (Daemon S)
  daemon_loop takes_commands input = record {
    dispatch = dispatch_command handlers config;
    too_long = too_long;
    running = λ d. d.running;
    takes_commands = λ d. takes_commands d.state;
    input = input;
  }
