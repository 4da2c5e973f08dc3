-- ===== src/Procs.antt =====
-- The process table of daemon/exec.c: the slots for asynchronous commands, the choice of a slot,
-- the launch, the end of a process as its wrapper writes it, and the harvest by the event loop.
pub mod Launch
pub mod Commands
pub mod Slots
pub mod Invariant
pub mod Steps
pub mod Lookup
pub mod Started
pub mod Safety
pub mod Again
mod Tests
use amigactl.Prelude.{
  ℕ, zero, suc, ◌+◌, ◌≤◌, Bool, true, false, not, ◌&&◌, List, [], ◌∷◌, Option, none, some, map,
  ◌==◌, ltb, if◌then◌else◌, get_elem?, set, replicate,
}
use amigactl.Prelude.Int.{ℤ, pos, negsuc}

abbrev pub max_tracked_procs : ℕ
max_tracked_procs = 16

-- PROC_RUNNING is 0, so a slot that was never used counts as running, with the id 0.
pub data Status : Type 0 where
  running exited : Status

-- `struct tracked_proc`. Tasks and locks are addresses, 0 for none. An id is an int in the source;
-- the theorems on launches ask for a next id below the largest int.
pub record Proc : Type 0 where
  pub id : ℕ
  pub task : ℕ
  pub command : List ℕ
  pub status : Status
  pub rc : ℤ
  pub completed : Bool
  pub cd_lock : ℕ
  pub proc_name : List ℕ

-- The part of `struct daemon_state` that exec.c works on.
pub record Table : Type 0 where
  pub procs : List Proc
  pub next_proc_id : ℕ
  pub allow_remote_shutdown : Bool

-- The table of a daemon that starts: all zero, but for the next id.
unfoldable pub unused_proc : Proc
unused_proc = record {
  id = 0;
  task = 0;
  command = [];
  status = running;
  rc = pos 0;
  completed = false;
  cd_lock = 0;
  proc_name = [];
}

unfoldable pub initial_table : Bool → Table
initial_table allow_remote_shutdown = record {
  procs = replicate max_tracked_procs unused_proc;
  next_proc_id = 1;
  allow_remote_shutdown = allow_remote_shutdown;
}

unfoldable pub is_running : Proc → Bool
is_running p = elim p.status [ running ↦ true | exited ↦ false ]

-- A slot that is running and has left its mark becomes an exited one.
unfoldable pub harvest : Proc → Proc
unfolding is_running
harvest p =
    if is_running p && p.completed
    then record p { status = exited; completed = false; task = 0 }
    else p

unfoldable pub exec_scan_completed : Table → Table
exec_scan_completed t = record t { procs = map harvest t.procs }

-- The loop over the slots in `exec_async`: the first slot that was never used, or else the exited
-- slot of the smallest id below `oldest_id`.
unfoldable pub choose_from : List Proc → ℕ → Option ℕ → ℕ → Option ℕ
unfolding is_running
choose_from [] i oldest_slot oldest_id = oldest_slot
choose_from (p ∷ ps) i oldest_slot oldest_id =
    let better = not (is_running p) && ltb p.id oldest_id in
    let rest =
      choose_from ps (i + 1) (if better then some i else oldest_slot)
        (if better then p.id else oldest_id) in
    if p.id == 0 then some i else rest

abbrev pub int_max : ℕ
int_max = 0x7FFFFFFF

unfoldable pub choose_slot : List Proc → Option ℕ
choose_slot procs = choose_from procs 0 none int_max

unfoldable pub update : List Proc → ℕ → (Proc → Proc) → List Proc
update procs i f = elim (get_elem? procs i) [ none ↦ procs | some p ↦ set procs i (f p) ]

-- The last writes of `async_wrapper` to its slot, each of them a step of its own; it has unlocked
-- its directory before the first. The mark is set under Forbid.
unfoldable pub clear_lock : ℕ → Table → Table
clear_lock i t = record t { procs = update t.procs i (λ p. record p { cd_lock = 0 }) }

unfoldable pub store_rc : ℕ → ℤ → Table → Table
store_rc i rc t = record t { procs = update t.procs i (λ p. record p { rc = rc }) }

unfoldable pub set_completed : ℕ → Table → Table
set_completed i t = record t { procs = update t.procs i (λ p. record p { completed = true }) }
