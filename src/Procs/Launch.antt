-- ===== src/Procs/Launch.antt =====
-- `exec_async` of daemon/exec.c, with `parse_cd_prefix` and the name of the new process.
use amigactl.Prelude.{
  ℕ, ◌+◌, Bool, false, not, ◌||◌, List, [], ◌∷◌, ◌++◌, Option, none, some, ◌==◌, leb, if◌then◌else◌,
  length, take, drop, codes, decimal, word, after_word, skip_blanks, same_word,
}
use amigactl.Prelude.Int.{pos}
use amigactl.Effects.{Effect, reply, unlock, refuse, err_syntax, err_not_found, err_internal}
use amigactl.Wire.Frames.{ok, sentinel}
use amigactl.Procs.{running, exited, Proc, Table, choose_slot, update}

pub data CdPrefix : Type 0 where
  rejected : CdPrefix
  parsed : ℕ → List ℕ → CdPrefix

-- The optional `CD=<path>` in front of a command. `lock` is the system's `Lock`: the lock on a
-- directory, or 0.
unfoldable pub parse_cd_prefix : (List ℕ → ℕ) → List ℕ → CdPrefix
parse_cd_prefix lock args =
    if not (same_word (take 3 args) (codes "CD="))
    then parsed 0 args
    else let path = word (drop 3 args) in
      if (length path == 0) || leb 512 (length path)
      then rejected
      else if lock path == 0
      then rejected
      else parsed (lock path) (skip_blanks (after_word (drop 3 args)))

skip_spaces : List ℕ → List ℕ
skip_spaces [] = []
skip_spaces (c ∷ s) = if c == 32 then skip_spaces s else c ∷ s

first_word : List ℕ → List ℕ
first_word [] = []
first_word (c ∷ s) = if c == 32 then [] else c ∷ first_word s

-- What follows the last `/` or `:`; `base` is what follows the last one so far.
basename : List ℕ → List ℕ → List ℕ
basename base [] = base
basename base (c ∷ s) = basename (if (c == 47) || (c == 58) then s else base) s

-- The name of the new process: the base name of the command, at most 31 bytes of it.
unfoldable pub process_name : List ℕ → List ℕ
unfolding skip_spaces first_word basename
process_name command =
    let w = first_word (skip_spaces command) in
    elim (take 31 (basename w w)) [ [] ↦ codes "amigactld-exec" | c ∷ s ↦ c ∷ s ]

-- The slot before the process is created, after a success, and after a failure.
unfoldable pub populate : ℕ → List ℕ → ℕ → Proc → Proc
populate next_id command cd_lock p = record p {
  command = take 255 command;
  status = running;
  completed = false;
  rc = pos 0;
  id = next_id;
  cd_lock = cd_lock;
  proc_name = process_name command;
}

unfoldable pub started : ℕ → Proc → Proc
started task p = record p { task = task }

unfoldable pub not_started : Proc → Proc
not_started p = record p { id = 0; status = exited; task = 0; cd_lock = 0 }

-- `if (cd_lock) UnLock (cd_lock)`
unfoldable pub unlock_if : ℕ → List Effect
unlock_if cd_lock = if cd_lock == 0 then [] else unlock cd_lock ∷ []

-- The launch in the chosen slot; `task` is what `CreateNewProcTags` returned, 0 for a failure.
unfoldable pub launch : ℕ → ℕ → ℕ → List ℕ → Table → Table × List Effect
launch slot task cd_lock command t =
    let filled = update t.procs slot (populate t.next_proc_id command cd_lock) in
    let t' = record t { next_proc_id = t.next_proc_id + 1 } in
    if task == 0
    then (
      record t' { procs = update filled slot not_started },
      unlock_if cd_lock ++ refuse err_internal "Failed to create process",
    )
    else (
      record t' { procs = update filled slot (started task) },
      reply (ok (some (decimal t.next_proc_id))) ∷ reply sentinel ∷ [],
    )

unfoldable pub launch_chosen : ℕ → ℕ → List ℕ → Table → Option ℕ → Table × List Effect
launch_chosen task cd_lock command t none =
    (t, unlock_if cd_lock ++ refuse err_internal "Process table full")
launch_chosen task cd_lock command t (some slot) = launch slot task cd_lock command t

unfoldable pub exec_parsed : ℕ → Table → CdPrefix → Table × List Effect
exec_parsed task t rejected = (t, refuse err_not_found "Directory not found")
exec_parsed task t (parsed cd_lock []) =
    (t, unlock_if cd_lock ++ refuse err_syntax "Missing command")
exec_parsed task t (parsed cd_lock (c ∷ command)) =
    launch_chosen task cd_lock (c ∷ command) t (choose_slot t.procs)

unfoldable pub exec_async : Bool → (List ℕ → ℕ) → ℕ → List ℕ → Table → Table × List Effect
exec_async has_signal lock task args t =
    if not has_signal
    then (t, refuse err_internal "Async exec unavailable")
    else exec_parsed task t (parse_cd_prefix lock args)
