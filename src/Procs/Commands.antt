-- ===== src/Procs/Commands.antt =====
-- The handlers of daemon/exec.c on the process table: PROCLIST, PROCSTAT, SIGNAL, KILL, the EXEC
-- entry that leads to `exec_async`, and `exec_shutdown_procs`.
use amigactl.Prelude.{
  ℕ, zero, suc, ◌+◌, Bool, true, false, not, ◌||◌, List, [], ◌∷◌, ◌++◌, Option, none, some, ◌==◌,
  ltb, if◌then◌else◌, codes, decimal, is_blank, skip_blanks, same_word,
}
use amigactl.Prelude.Int.{ℤ, pos, negsuc}
use amigactl.Prelude.Strtol.{strtol}
use amigactl.Effects.{
  Effect, reply, raise, rem_task, refuse, Signal, ctrl_c, ctrl_d, ctrl_e, ctrl_f, err_syntax,
  err_not_found, err_permission,
}
use amigactl.Wire.Frames.{ok, payload, sentinel}
use amigactl.Procs.{exited, Proc, Table, is_running, update}
use amigactl.Procs.Launch.{unlock_if}

-- `sprintf ("%d", n)`
unfoldable pub decimal_int : ℤ → List ℕ
decimal_int (pos n) = decimal n
decimal_int (negsuc n) = codes "-" ++ decimal (suc n)

pub data Target : Type 0 where
  missing : Target
  invalid : Target
  target : ℕ → List ℕ → Target

-- The end of the number must be a blank or the end of the text, and the number positive.
unfoldable pub ends_number : List ℕ → Bool
ends_number [] = true
ends_number (c ∷ s) = is_blank c

unfoldable pub checked_id : ℤ → List ℕ → Target
checked_id (pos zero) rest = invalid
checked_id (pos (suc n)) rest = target (suc n) rest
checked_id (negsuc n) rest = invalid

unfoldable pub parse_id : List ℕ → Target
unfolding ends_number checked_id
parse_id [] = missing
parse_id (c ∷ args) =
    let (value, rest) = strtol (c ∷ args) in
    if ends_number rest then checked_id value rest else invalid

-- The first slot with the id, from the slot number `i` on.
unfoldable pub find_from : List Proc → ℕ → ℕ → Option (ℕ × Proc)
find_from [] i id = none
find_from (p ∷ ps) i id = if p.id == id then some (i, p) else find_from ps (i + 1) id

unfoldable pub find_id : List Proc → ℕ → Option (ℕ × Proc)
find_id procs id = find_from procs 0 id

unfoldable pub list_line : Proc → List ℕ
list_line p =
    decimal p.id
    ++ (codes "\t"
        ++ (p.command
            ++ (if is_running p
                then codes "\tRUNNING\t-"
                else codes "\tEXITED\t" ++ decimal_int p.rc)))

unfoldable pub list_lines : List Proc → List Effect
list_lines [] = []
list_lines (p ∷ ps) =
    let rest = list_lines ps in if ltb 0 p.id then reply (payload (list_line p)) ∷ rest else rest

unfoldable pub cmd_proclist : Table → List Effect
cmd_proclist t = reply (ok none) ∷ (list_lines t.procs ++ (reply sentinel ∷ []))

unfoldable pub stat_lines : Proc → List Effect
stat_lines p =
    reply (ok none)
    ∷ reply (payload (codes "id=" ++ decimal p.id))
    ∷ reply (payload (codes "command=" ++ p.command))
    ∷ reply
        (payload (codes "status=" ++ (if is_running p then codes "RUNNING" else codes "EXITED")))
    ∷ reply (payload (codes "rc=" ++ (if is_running p then codes "-" else decimal_int p.rc)))
    ∷ reply sentinel
    ∷ []

unfoldable pub stat_found : Option (ℕ × Proc) → List Effect
stat_found none = refuse err_not_found "Process not found"
stat_found (some (i, p)) = stat_lines p

unfoldable pub stat_target : Table → Target → List Effect
stat_target t missing = refuse err_syntax "Missing process ID"
stat_target t invalid = refuse err_syntax "Invalid process ID"
stat_target t (target id rest) = stat_found (find_id t.procs id)

unfoldable pub cmd_procstat : List ℕ → Table → List Effect
cmd_procstat args t = stat_target t (parse_id args)

-- The name of a signal, CTRL_C if there is none.
unfoldable pub parse_signal : List ℕ → Option Signal
parse_signal [] = some ctrl_c
parse_signal (c ∷ name) =
    if same_word (c ∷ name) (codes "CTRL_C")
    then some ctrl_c
    else if same_word (c ∷ name) (codes "CTRL_D")
    then some ctrl_d
    else if same_word (c ∷ name) (codes "CTRL_E")
    then some ctrl_e
    else if same_word (c ∷ name) (codes "CTRL_F")
    then some ctrl_f
    else none

unfoldable pub done_reply : List Effect
done_reply = reply (ok none) ∷ reply sentinel ∷ []

unfoldable pub signal_named : Proc → Option Signal → List Effect
signal_named p none = refuse err_syntax "Invalid signal name"
signal_named p (some sig) =
    if p.completed
    then refuse err_not_found "Process not running"
    else raise p.task sig ∷ done_reply

unfoldable pub signal_slot : List ℕ → Proc → List Effect
signal_slot rest p =
    if not (is_running p)
    then refuse err_not_found "Process not running"
    else signal_named p (parse_signal (skip_blanks rest))

unfoldable pub signal_found : List ℕ → Option (ℕ × Proc) → List Effect
signal_found rest none = refuse err_not_found "Process not found"
signal_found rest (some (i, p)) = signal_slot rest p

unfoldable pub signal_target : Table → Target → List Effect
signal_target t missing = refuse err_syntax "Missing process ID"
signal_target t invalid = refuse err_syntax "Invalid process ID"
signal_target t (target id rest) = signal_found rest (find_id t.procs id)

unfoldable pub cmd_signal_proc : List ℕ → Table → List Effect
cmd_signal_proc args t = signal_target t (parse_id args)

-- What KILL makes of a running slot.
unfoldable pub killed : Proc → Proc
killed p =
    if p.completed
    then record p { status = exited; completed = false; task = 0 }
    else record p { status = exited; rc = negsuc 0; task = 0; cd_lock = 0 }

unfoldable pub kill_effects : Proc → List Effect
kill_effects p = if p.completed then [] else rem_task p.task ∷ unlock_if p.cd_lock

unfoldable pub kill_slot : ℕ → Proc → Table → Table × List Effect
kill_slot i p t =
    if not (is_running p)
    then (t, refuse err_not_found "Process not running")
    else (record t { procs = update t.procs i killed }, kill_effects p ++ done_reply)

unfoldable pub kill_found : Table → Option (ℕ × Proc) → Table × List Effect
kill_found t none = (t, refuse err_not_found "Process not found")
kill_found t (some (i, p)) = kill_slot i p t

unfoldable pub kill_target : Table → Target → Table × List Effect
kill_target t missing = (t, refuse err_syntax "Missing process ID")
kill_target t invalid = (t, refuse err_syntax "Invalid process ID")
kill_target t (target id rest) = kill_found t (find_id t.procs id)

unfoldable pub cmd_kill : List ℕ → Table → Table × List Effect
cmd_kill args t =
    if not t.allow_remote_shutdown
    then (t, refuse err_permission "Remote kill not permitted")
    else kill_target t (parse_id args)

-- One slot at the end of the daemon: a process that still runs is asked to stop.
unfoldable pub shut_slot : Proc → Proc × List Effect
shut_slot p =
    if (p.id == 0) || not (is_running p)
    then (p, [])
    else if p.completed
    then (record p { status = exited; task = 0 }, [])
    else (record p { status = exited; rc = negsuc 0; task = 0 }, raise p.task ctrl_c ∷ [])

unfoldable pub shut_slots : List Proc → List Proc × List Effect
shut_slots [] = ([], [])
shut_slots (p ∷ ps) = ((shut_slot p).0 ∷ (shut_slots ps).0, (shut_slot p).1 ++ (shut_slots ps).1)

unfoldable pub exec_shutdown_procs : Table → Table × List Effect
exec_shutdown_procs t = (record t { procs = (shut_slots t.procs).0 }, (shut_slots t.procs).1)
