-- ===== src/Dispatch.antt =====
-- `dispatch_command` of daemon/main.c: the verb of a command line, the commands that it answers
-- itself, and the choice of the handler for the others. The handlers, and UPTIME's clock, are a
-- parameter.
pub mod Stays
pub mod Described
mod Tests
use amigactl.Prelude.{
  ℕ, Bool, true, false, not, ◌&&◌, ◌||◌, List, [], ◌∷◌, ◌++◌, Option, none, some, ◌==◌,
  if◌then◌else◌, length, take, codes, String, c_str, skip_blanks, word, after_word, same_word,
}
use amigactl.Effects.{Effect, reply, refuse, err_syntax, err_permission}
use amigactl.Wire.Frames.{Frame, ok, payload, sentinel}
use amigactl.Config.{Config}
use amigactl.Receive.{Conn}
use amigactl.Serve.{Turn, open_turn, closed_turn}

-- The commands that go to a handler.
pub data Verb : Type 0 where
  dir stat read write delete rename makedir protect copy append checksum setcomment : Verb
  exec proclist procstat signal kill setdate sysinfo assigns assign ports volumes tasks : Verb
  libver env setenv devices capabilities uptime arexx tail trace : Verb

-- What the first words of a command line stand for.
pub data Command : Type 0 where
  version ping quit shutdown reboot unknown : Command
  handled : Verb → Command

-- The tests of the chain, in its order.
abbrev pub commands : List (String × Command)
commands =
    ("VERSION", version)
    ∷ ("PING", ping)
    ∷ ("QUIT", quit)
    ∷ ("SHUTDOWN", shutdown)
    ∷ ("REBOOT", reboot)
    ∷ ("DIR", handled dir)
    ∷ ("STAT", handled stat)
    ∷ ("READ", handled read)
    ∷ ("WRITE", handled write)
    ∷ ("DELETE", handled delete)
    ∷ ("RENAME", handled rename)
    ∷ ("MAKEDIR", handled makedir)
    ∷ ("PROTECT", handled protect)
    ∷ ("COPY", handled copy)
    ∷ ("APPEND", handled append)
    ∷ ("CHECKSUM", handled checksum)
    ∷ ("SETCOMMENT", handled setcomment)
    ∷ ("EXEC", handled exec)
    ∷ ("PROCLIST", handled proclist)
    ∷ ("PROCSTAT", handled procstat)
    ∷ ("SIGNAL", handled signal)
    ∷ ("KILL", handled kill)
    ∷ ("SETDATE", handled setdate)
    ∷ ("SYSINFO", handled sysinfo)
    ∷ ("ASSIGNS", handled assigns)
    ∷ ("ASSIGN", handled assign)
    ∷ ("PORTS", handled ports)
    ∷ ("VOLUMES", handled volumes)
    ∷ ("TASKS", handled tasks)
    ∷ ("LIBVER", handled libver)
    ∷ ("ENV", handled env)
    ∷ ("SETENV", handled setenv)
    ∷ ("DEVICES", handled devices)
    ∷ ("CAPABILITIES", handled capabilities)
    ∷ ("UPTIME", handled uptime)
    ∷ ("AREXX", handled arexx)
    ∷ ("TAIL", handled tail)
    ∷ ("TRACE", handled trace)
    ∷ []

unfoldable pub lookup_command : List (String × Command) → List ℕ → Command
lookup_command [] verb = unknown
lookup_command ((name, command) ∷ rest) verb =
    if same_word verb (codes name) then command else lookup_command rest verb

-- `keyword` takes 15 bytes of the first word.
unfoldable pub confirmed : List ℕ → Bool
confirmed rest =
    let keyword = take 15 (word rest) in
    not (length keyword == 0) && same_word keyword (codes "CONFIRM")

-- The daemon: what the handlers act on, `running`, whether `ColdReboot` was called, and the sends
-- so far.
pub record Daemon (S : Type 0) : Type 0 where
  pub state : S
  pub running : Bool
  pub rebooted : Bool
  pub output : List Effect

abbrev pub with_replies : {S : Type 0} → List Effect → Daemon S → Daemon S
with_replies replies d = record d { output = d.output ++ replies }

-- `handle_client` on a line that is too long.
abbrev pub too_long : {S : Type 0} → Daemon S → Daemon S
too_long d = with_replies (refuse err_syntax "Command too long") d

-- A handler: the state (all of the daemon but what is here), its sends, the connection, from which
-- it may have read on, and whether it returns 0.
abbrev pub Handlers : Type 0 → Type 0
Handlers S = Verb → S → List ℕ → Conn → S × List Effect × Conn × Bool

module _ {S : Type 0} (handlers : Handlers S) (config : Config) where
  unfoldable pub cmd_shutdown : List ℕ → Daemon S → Daemon S
  cmd_shutdown rest d =
      if not (confirmed rest)
      then with_replies (refuse err_syntax "SHUTDOWN requires CONFIRM keyword") d
      else if not config.allow_remote_shutdown
      then with_replies (refuse err_permission "Remote shutdown not permitted") d
      else record d {
        running = false;
        output = d.output ++ (reply (ok (some (codes "Shutting down"))) ∷ reply sentinel ∷ []);
      }

  unfoldable pub cmd_reboot : List ℕ → Daemon S → Daemon S
  cmd_reboot rest d =
      if not (confirmed rest)
      then with_replies (refuse err_syntax "REBOOT requires CONFIRM keyword") d
      else if not config.allow_remote_reboot
      then with_replies (refuse err_permission "Remote reboot not permitted") d
      else record d {
        rebooted = true;
        output = d.output ++ (reply (ok (some (codes "Rebooting"))) ∷ reply sentinel ∷ []);
      }

  unfoldable pub handle : Verb → List ℕ → Daemon S → Conn → Turn (Daemon S)
  handle verb rest d c =
      let (state, replies, c', returned) = handlers verb d.state rest c in
      record {
        state = record d { state = state; output = d.output ++ replies };
        conn = c';
        connected = returned;
      }

  -- With whether the client stays connected.
  unfoldable pub perform_command : Command → List ℕ → Daemon S → Conn → Turn (Daemon S)
  unfolding cmd_shutdown cmd_reboot handle
  perform_command version rest d c =
      open_turn
        (with_replies
          (reply (ok none) ∷ reply (payload (codes "amigactld 0.8.2")) ∷ reply sentinel ∷ []) d)
        c
  perform_command ping rest d c =
      open_turn (with_replies (reply (ok none) ∷ reply sentinel ∷ []) d) c
  perform_command quit rest d c =
      closed_turn (with_replies (reply (ok (some (codes "Goodbye"))) ∷ reply sentinel ∷ []) d) c
  perform_command shutdown rest d c = open_turn (cmd_shutdown rest d) c
  perform_command reboot rest d c = open_turn (cmd_reboot rest d) c
  perform_command unknown rest d c =
      open_turn (with_replies (refuse err_syntax "Unknown command") d) c
  perform_command (handled verb) rest d c = handle verb rest d c

  unfoldable pub dispatch_command : Daemon S → List ℕ → Conn → Turn (Daemon S)
  unfolding perform_command lookup_command
  dispatch_command d cmd c =
      let line = c_str cmd in
      perform_command (lookup_command commands (word line)) (skip_blanks (after_word line)) d c
