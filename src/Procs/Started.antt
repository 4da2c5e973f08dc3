-- ===== src/Procs/Started.antt =====
-- EXEC ASYNC and then PROCSTAT.
use amigactl.Prelude.{
  ℕ, ◌<◌, true, false, List, [], ◌∷◌, ◌++◌, none, some, ◌≡◌, ◌≢◌, refl, ap, ◌∙◌, ◌==◌, arith,
  get_elem?, get_elem?-set_found, decimal, take, codes,
}
use amigactl.Effects.{Effect, reply}
use amigactl.Wire.Frames.{ok, payload, sentinel}
use amigactl.Procs.{Proc, Table, choose_slot, int_max, is_running}
use amigactl.Procs.Launch.{
  parsed, parse_cd_prefix, populate, started, launch, launch_chosen, exec_parsed, exec_async,
}
use amigactl.Procs.Commands.{
  target, parse_id, find_id, stat_lines, stat_found, stat_target, cmd_procstat,
}
use amigactl.Procs.Invariant.{IsValid}
use amigactl.Procs.Steps.{launch-started, launch-IsValid}
use amigactl.Procs.Lookup.{choose_slot-there, find_id-found, parse_id-decimal}

-- The answer of PROCSTAT for a process that runs.
abbrev pub running_report : ℕ → List ℕ → List Effect
running_report id command =
    reply (ok none)
    ∷ reply (payload (codes "id=" ++ decimal id))
    ∷ reply (payload (codes "command=" ++ command))
    ∷ reply (payload (codes "status=" ++ codes "RUNNING"))
    ∷ reply (payload (codes "rc=" ++ codes "-"))
    ∷ reply sentinel
    ∷ []

stat_lines-running : (p : Proc) → is_running p ≡ true → stat_lines p ≡ running_report p.id p.command
unfolding stat_lines
stat_lines-running p r = rw r refl

procstat-found :
    (args : List ℕ) (t : Table) {id k : ℕ} {p : Proc}
    → parse_id args ≡ target id []
    → find_id t.procs id ≡ some (k, p)
    → cmd_procstat args t ≡ stat_lines p
unfolding cmd_procstat stat_target stat_found
procstat-found args t e f = rw (e, f) refl

launch-reply :
    (slot task cd_lock : ℕ) (command : List ℕ) (t : Table)
    → (task == 0) ≡ false
    → (launch slot task cd_lock command t).1
      ≡ reply (ok (some (decimal t.next_proc_id))) ∷ reply sentinel ∷ []
unfolding launch
launch-reply slot task cd_lock command t e = rw e refl

procstat-launch :
    (slot task cd_lock : ℕ) (command : List ℕ) (t : Table) {p : Proc}
    → IsValid t
    → get_elem? t.procs slot ≡ some p
    → (task == 0) ≡ false
    → t.next_proc_id ≢ 0
    → t.next_proc_id < int_max
    → cmd_procstat (decimal t.next_proc_id) (launch slot task cd_lock command t).0
      ≡ running_report t.next_proc_id (take 255 command)
unfolding populate started is_running
procstat-launch slot task cd_lock command t {p} v h e nz lt =
    let n = t.next_proc_id in
    let q = started task (populate n command cd_lock p) in
    let t' = (launch slot task cd_lock command t).0 in
    let v' : IsValid t' = launch-IsValid slot task cd_lock command t h v in
    let made = launch-started slot task cd_lock command t h e in
    let there : get_elem? t'.procs slot ≡ some q =
      ap (λ u. get_elem? u.procs slot) made ∙ get_elem?-set_found t.procs slot q h in
    procstat-found (decimal n) t' (parse_id-decimal n nz lt) (find_id-found t' slot q v' there nz)
    ∙ stat_lines-running q refl

exec_async-chosen :
    (lock : List ℕ → ℕ) (task : ℕ) (args : List ℕ) (t : Table) {cd_lock slot c : ℕ}
    {command : List ℕ}
    → parse_cd_prefix lock args ≡ parsed cd_lock (c ∷ command)
    → choose_slot t.procs ≡ some slot
    → exec_async true lock task args t ≡ launch slot task cd_lock (c ∷ command) t
unfolding exec_async exec_parsed launch_chosen
exec_async-chosen lock task args t e f = rw (e, f) refl

-- In a sound table, when the arguments parse to a command that is not empty, there is a slot, the
-- system creates the process, and the next id is positive and below the largest int: EXEC ASYNC
-- replies with that id, and PROCSTAT for what it printed reports this id, the command up to its
-- first 255 bytes, the status RUNNING and no return code.
pub cmd_procstat-exec_async :
    (lock : List ℕ → ℕ) (task : ℕ) (args : List ℕ) (t : Table) {cd_lock slot c : ℕ}
    {command : List ℕ}
    → IsValid t
    → parse_cd_prefix lock args ≡ parsed cd_lock (c ∷ command)
    → choose_slot t.procs ≡ some slot
    → task ≢ 0
    → t.next_proc_id ≢ 0
    → t.next_proc_id < int_max
    → ((exec_async true lock task args t).1
        ≡ reply (ok (some (decimal t.next_proc_id))) ∷ reply sentinel ∷ [])
      × (cmd_procstat (decimal t.next_proc_id) (exec_async true lock task args t).0
          ≡ running_report t.next_proc_id (take 255 (c ∷ command)))
cmd_procstat-exec_async lock task args t {cd_lock} {slot} {c} {command} v e f some_task nz lt =
    let is_task : (task == 0) ≡ false = ground arith in
    let (p, h) = choose_slot-there t slot v lt f in
    let launched = exec_async-chosen lock task args t e f in
    (
      ap (λ r. r.1) launched ∙ launch-reply slot task cd_lock (c ∷ command) t is_task,
      ap (λ r. cmd_procstat (decimal t.next_proc_id) r.0) launched
          ∙ procstat-launch slot task cd_lock (c ∷ command) t v h is_task nz lt,
    )
