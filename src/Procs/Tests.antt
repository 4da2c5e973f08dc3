-- ===== src/Procs/Tests.antt =====
-- The process table at work: one command is started, looked at, killed and forgotten.
use amigactl.Prelude.{
  ℕ, true, List, [], ◌∷◌, some, ◌≡◌, refl, arith, All, codes, same_word, word, after_word,
  skip_blanks, decimal,
}
use amigactl.Prelude.Int.{pos}
use amigactl.Effects.{reply}
use amigactl.Wire.Frames.{ok, sentinel}
use amigactl.Procs.{
  exited, clear_lock, store_rc, set_completed, is_running, Proc, Table, initial_table, unused_proc,
  choose_slot, choose_from,
}
use amigactl.Procs.Launch.{parse_cd_prefix, parsed, exec_async}
use amigactl.Procs.Commands.{cmd_procstat, cmd_signal_proc, cmd_kill}
use amigactl.Procs.Invariant.{IsValid, initial_table-IsValid}
use amigactl.Procs.Slots.{Free, choose_slot-Free}
use amigactl.Procs.Steps.{exec_async-IsValid}
use amigactl.Procs.Started.{running_report, cmd_procstat-exec_async}
use amigactl.Procs.Safety.{Safe, handlers-Safe}
use amigactl.Procs.Again.{Quiet, cmd_kill-again}

-- One directory exists; its lock is 5.
abbrev lock_work : List ℕ → ℕ
lock_work path = 5

abbrev at_start : Table
at_start = initial_table true

abbrev cd_list : List ℕ
cd_list = codes "CD=Work: list all"

abbrev listing : Table
listing = (exec_async true lock_work 77 cd_list at_start).0

listing-IsValid : IsValid listing
listing-IsValid = exec_async-IsValid true lock_work 77 cd_list at_start (initial_table-IsValid true)

-- A process that runs and two that ended; the one with the smaller id goes.
abbrev mixed : List Proc
mixed =
    record unused_proc { id = 5; task = 9 }
    ∷ record unused_proc { id = 3; status = exited }
    ∷ record unused_proc { id = 2; status = exited }
    ∷ []

mixed_choice : choose_slot mixed ≡ some 2
unfolding choose_slot choose_from is_running unused_proc
mixed_choice = refl

choose_slot-Free_example : Free mixed (choose_slot mixed)
choose_slot-Free_example = choose_slot-Free mixed (omega arith, (omega arith, (omega arith, tt)))

abbrev lister : Proc
lister = record unused_proc {
  id = 1;
  task = 77;
  command = codes "list all";
  cd_lock = 5;
  proc_name = codes "list";
}

abbrev ended : Table
ended = set_completed 0 (store_rc 0 (pos 0) (clear_lock 0 listing))

handlers-Safe_example :
    All (Safe listing) (cmd_signal_proc (codes "1 CTRL_D") listing)
    × All (Safe listing) (cmd_kill (codes "1 CTRL_D") listing).1
handlers-Safe_example = handlers-Safe (codes "1 CTRL_D") listing listing-IsValid

cmd_kill-again_example :
    Quiet (cmd_kill (codes "1") listing).0 (cmd_kill (codes "1") (cmd_kill (codes "1") listing).0)
cmd_kill-again_example = cmd_kill-again (codes "1") listing

cd_list-parsed : parse_cd_prefix lock_work cd_list ≡ parsed 5 (codes "list all")
unfolding parse_cd_prefix same_word word after_word skip_blanks
cd_list-parsed = refl

slot_zero : choose_slot at_start.procs ≡ some 0
unfolding choose_slot choose_from initial_table unused_proc
slot_zero = refl

cmd_procstat-exec_async_example :
    ((exec_async true lock_work 77 cd_list at_start).1
      ≡ reply (ok (some (codes "1"))) ∷ reply sentinel ∷ [])
    × (cmd_procstat (codes "1") (exec_async true lock_work 77 cd_list at_start).0
        ≡ running_report 1 (codes "list all"))
unfolding initial_table decimal
cmd_procstat-exec_async_example =
    cmd_procstat-exec_async lock_work 77 cd_list at_start (initial_table-IsValid true)
      cd_list-parsed slot_zero (omega arith) (omega arith) (omega arith)
