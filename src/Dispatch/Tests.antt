-- ===== src/Dispatch/Tests.antt =====
-- A client that tries to end the daemon, and one whose WRITE reads on from the connection.
use amigactl.Prelude.{
  ℕ, ◌+◌, Bool, true, false, List, [], ◌∷◌, ◌++◌, Option, none, some, ◌≡◌, refl, leb, lf, length,
  codes, c_str, skip_blanks, word, after_word, same_word, to_lower, is_blank,
}
use amigactl.Effects.{Effect, refuse, err_permission}
use amigactl.Config.{Config}
use amigactl.Inbound.{empty}
use amigactl.Receive.{Incoming, Conn, recv_line_blocking}
use amigactl.Receive.Pending.{next_line}
use amigactl.Serve.{Turn, Event, readable, meanwhile, open_turn}
use amigactl.Dispatch.{
  Verb, write, Daemon, Handlers, dispatch_command, perform_command, lookup_command, cmd_shutdown,
  confirmed,
}
use amigactl.Dispatch.Described.{Description}
use amigactl.Dispatch.Stays.{Permitted, dispatch_command-Permitted}

-- Handlers that only count their calls.
abbrev counting : Handlers ℕ
counting verb n rest c = (n + 1, [], c, true)

abbrev locked : Config
locked = record {
  port = 6800;
  allow_remote_shutdown = false;
  allow_remote_reboot = false;
  acl = [];
}

abbrev unlocked : Config
unlocked = record locked { allow_remote_shutdown = true }

abbrev daemon : Daemon ℕ
daemon = record { state = 0; running = true; rebooted = false; output = [] }

abbrev client : Conn
client = record { inbox = empty; stream = []; calls = 0 }

run_shutdown :
    dispatch_command counting locked daemon (codes "shutdown Confirm now") client
    ≡ open_turn
        (record daemon { output = refuse err_permission "Remote shutdown not permitted" })
        client
unfolding dispatch_command lookup_command same_word to_lower word after_word is_blank c_str
    skip_blanks perform_command cmd_shutdown confirmed
run_shutdown = refl

abbrev last_words : List ℕ
last_words = codes "Shutdown confirm"

stopped : (dispatch_command counting unlocked daemon last_words client).state.running ≡ false
unfolding dispatch_command lookup_command same_word to_lower word after_word is_blank c_str
    skip_blanks perform_command cmd_shutdown confirmed
stopped = refl

dispatch_command-Permitted_example : Permitted unlocked last_words
dispatch_command-Permitted_example =
    dispatch_command-Permitted counting unlocked daemon last_words client refl stopped

-- Here WRITE reads one line behind the command, and the others do nothing; after five lines the
-- client is in a mode in which its bytes are no commands.
abbrev Seen : Type 0
Seen = List (List ℕ)

unfoldable after_read : Seen → Option (Option (List ℕ) × Conn) → Seen × List Effect × Conn × Bool
after_read s none = (s, [], record { inbox = empty; stream = []; calls = 0 }, false)
after_read s (some (none, c)) = (s, [], c, false)
after_read s (some (some line, c)) =
    (line ∷ s, [], record c { inbox = record c.inbox { discarding = false } }, true)

abbrev two_bytes : Incoming
two_bytes = record { gives = λ call. 1 }

unfoldable is_write : Verb → Bool
is_write write = true
is_write verb = false

unfoldable read_if : Bool → Seen → Conn → Seen × List Effect × Conn × Bool
unfolding after_read
read_if true s c = after_read s (recv_line_blocking two_bytes 128 c)
read_if false s c = (s, [], c, true)

abbrev reading : Handlers Seen
reading verb s rest c = read_if (is_write verb) s c

unfoldable took : Seen → Option (List ℕ × List ℕ) → Seen × List Effect × Option (List ℕ)
took s none = (s, [], none)
took s (some (line, rest)) = (line ∷ s, [], some rest)

unfoldable took_if : Bool → Seen → List ℕ → Seen × List Effect × Option (List ℕ)
unfolding took
took_if true s p = took s (next_line 128 p)
took_if false s p = (s, [], some p)

abbrev read_by : Description Seen
read_by verb s rest p = took_if (is_write verb) s p

abbrev few : Seen → Bool
few s = leb (length s) 5

abbrev ignored : Daemon Seen → Conn → Turn (Daemon Seen)
ignored d c = open_turn d (record c { inbox = empty })

abbrev bytes : List ℕ
bytes =
    codes "WRITE x"
    ++ (lf ∷ codes "QUIT")
    ++ (lf ∷ codes "nonsense")
    ++ (lf ∷ codes "Quit")
    ++ (lf ∷ [])

abbrev connection : Turn (Daemon Seen)
connection =
    open_turn (record { state = []; running = true; rebooted = false; output = [] })
      (record { inbox = empty; stream = bytes; calls = 0 })

abbrev rounds : List (Event (Daemon Seen))
rounds = readable ∷ readable ∷ meanwhile (λ d. d) ∷ readable ∷ readable ∷ []
