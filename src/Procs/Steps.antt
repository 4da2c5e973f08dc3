-- ===== src/Procs/Steps.antt =====
-- The events that change the process table, and what every sequence of them keeps.
use amigactl.Prelude.{
  ℕ, ◌+◌, ◌<◌, Bool, true, false, not, List, [], ◌∷◌, Option, none, some, ◌≡◌, refl, arith, ◌==◌,
  if_intro, get_elem?, set, get_elem?-set_found, set-set, Bool-cases, Option-cases, inl, inr,
}
use amigactl.Prelude.Int.{ℤ}
use amigactl.Effects.{Effect}
use amigactl.Procs.{
  running, Proc, Table, is_running, exec_scan_completed, update, clear_lock, store_rc,
  set_completed, choose_slot, int_max,
}
use amigactl.Procs.Launch.{
  CdPrefix, rejected, parsed, parse_cd_prefix, populate, started, not_started, launch,
  launch_chosen, exec_parsed, exec_async,
}
use amigactl.Procs.Commands.{
  Target, missing, invalid, target, parse_id, find_id, killed, kill_slot, kill_found, kill_target,
  cmd_kill,
}
use amigactl.Procs.Invariant.{
  SlotOk, IsValid, update-found, update-absent, set-IsValid, next-IsValid, update-IsValid,
}

update-update :
    (ps : List Proc) (i : ℕ) (f g : Proc → Proc) {p : Proc}
    → get_elem? ps i ≡ some p
    → update (update ps i f) i g ≡ set ps i (g (f p))
update-update ps i f g {p} h = rw (update-found ps i f h) (
    rw (update-found (set ps i (f p)) i g (get_elem?-set_found ps i (f p) h))
      (set-set ps i (f p) (g (f p))))

-- The two outcomes of a launch as one write.
pub launch-started :
    (slot task cd_lock : ℕ) (command : List ℕ) (t : Table) {p : Proc}
    → get_elem? t.procs slot ≡ some p
    → (task == 0) ≡ false
    → (launch slot task cd_lock command t).0 ≡ record t {
      procs = set t.procs slot (started task (populate t.next_proc_id command cd_lock p));
      next_proc_id = t.next_proc_id + 1;
    }
unfolding launch
launch-started slot task cd_lock command t h e =
    rw e
      (rw (update-update t.procs slot (populate t.next_proc_id command cd_lock) (started task) h))

launch-failed :
    (slot task cd_lock : ℕ) (command : List ℕ) (t : Table) {p : Proc}
    → get_elem? t.procs slot ≡ some p
    → (task == 0) ≡ true
    → (launch slot task cd_lock command t).0 ≡ record t {
      procs = set t.procs slot (not_started (populate t.next_proc_id command cd_lock p));
      next_proc_id = t.next_proc_id + 1;
    }
unfolding launch
launch-failed slot task cd_lock command t h e =
    rw e (rw (update-update t.procs slot (populate t.next_proc_id command cd_lock) not_started h))

not_started-SlotOk :
    (next cd_lock : ℕ) (command : List ℕ) (p : Proc)
    → SlotOk (next + 1) (not_started (populate next command cd_lock p))
unfolding populate not_started
not_started-SlotOk next cd_lock command p = record {
  known = omega arith;
  live = λ nz e. cc;
  task_gone = λ e. refl;
  mark_gone = λ e. refl;
  lock_gone = λ e. refl;
  marked = λ e. refl;
}

started-SlotOk :
    (next task cd_lock : ℕ) (command : List ℕ) (p : Proc)
    → (task == 0) ≡ false
    → SlotOk (next + 1) (started task (populate next command cd_lock p))
unfolding populate started
started-SlotOk next task cd_lock command p some_task = record {
  known = omega arith;
  live = λ nz e. ground arith;
  task_gone = λ e. cc;
  mark_gone = λ e. refl;
  lock_gone = λ e. cc;
  marked = λ e. cc;
}

id-not_started :
    (next cd_lock : ℕ) (command : List ℕ) (p : Proc)
    → (not_started (populate next command cd_lock p)).id ≡ 0
unfolding not_started
id-not_started next cd_lock command p = refl

pub id-started :
    (next task cd_lock : ℕ) (command : List ℕ) (p : Proc)
    → (started task (populate next command cd_lock p)).id ≡ next
unfolding populate started
id-started next task cd_lock command p = refl

pub launch-IsValid :
    (slot task cd_lock : ℕ) (command : List ℕ) (t : Table) {p : Proc}
    → get_elem? t.procs slot ≡ some p
    → IsValid t
    → IsValid (launch slot task cd_lock command t).0
launch-IsValid slot task cd_lock command t {p} h v = elim (Bool-cases (task == 0)) [
  | inl e ↦ rw (launch-failed slot task cd_lock command t h e) (
      set-IsValid t slot (t.next_proc_id + 1)
        (not_started (populate t.next_proc_id command cd_lock p)) v (omega arith)
        (not_started-SlotOk t.next_proc_id cd_lock command p)
        (λ j q g n same nz. nz (id-not_started t.next_proc_id cd_lock command p)))
  | inr e ↦ rw (launch-started slot task cd_lock command t h e) (
      set-IsValid t slot (t.next_proc_id + 1)
        (started task (populate t.next_proc_id command cd_lock p)) v (omega arith)
        (started-SlotOk t.next_proc_id task cd_lock command p e)
        (λ j q g n same nz.
          omega (arith, (v.slots j q g).known, id-started t.next_proc_id task cd_lock command p)))
]

-- Where there is no such slot nothing is written.
launch_absent :
    (slot task cd_lock : ℕ) (command : List ℕ) (t : Table)
    → get_elem? t.procs slot ≡ none
    → (launch slot task cd_lock command t).0 ≡ record t { next_proc_id = t.next_proc_id + 1 }
unfolding launch
launch_absent slot task cd_lock command t h =
    if_intro {A = Table × List Effect} (λ r. r.0 ≡ record t { next_proc_id = t.next_proc_id + 1 })
      (task == 0) _ _ (λ e. twice not_started) (λ e. twice (started task))
  where
    twice :
        (f : Proc → Proc)
        → record t {
          next_proc_id = t.next_proc_id + 1;
          procs = update (update t.procs slot (populate t.next_proc_id command cd_lock)) slot f;
        }
          ≡ record t { next_proc_id = t.next_proc_id + 1 }
    twice f =
        rw (update-absent t.procs slot (populate t.next_proc_id command cd_lock) h)
          (rw (update-absent t.procs slot f h))

launch_anywhere-IsValid :
    (slot task cd_lock : ℕ) (command : List ℕ) (t : Table)
    → IsValid t
    → IsValid (launch slot task cd_lock command t).0
launch_anywhere-IsValid slot task cd_lock command t v =
    elim (Option-cases (get_elem? t.procs slot)) [
      | inl e ↦
          rw (launch_absent slot task cd_lock command t e)
            (next-IsValid t (t.next_proc_id + 1) (omega arith) v)
      | inr (p, e) ↦ launch-IsValid slot task cd_lock command t e v
    ]

launch_chosen-IsValid :
    (task cd_lock : ℕ) (command : List ℕ) (t : Table) (r : Option ℕ)
    → IsValid t
    → IsValid (launch_chosen task cd_lock command t r).0
unfolding launch_chosen
launch_chosen-IsValid task cd_lock command t none v = v
launch_chosen-IsValid task cd_lock command t (some slot) v =
    launch_anywhere-IsValid slot task cd_lock command t v

exec_parsed-IsValid :
    (task : ℕ) (t : Table) (r : CdPrefix) → IsValid t → IsValid (exec_parsed task t r).0
unfolding exec_parsed
exec_parsed-IsValid task t rejected v = v
exec_parsed-IsValid task t (parsed cd_lock []) v = v
exec_parsed-IsValid task t (parsed cd_lock (c ∷ command)) v =
    launch_chosen-IsValid task cd_lock (c ∷ command) t (choose_slot t.procs) v

pub exec_async-IsValid :
    (has_signal : Bool) (lock : List ℕ → ℕ) (task : ℕ) (args : List ℕ) (t : Table)
    → IsValid t
    → IsValid (exec_async has_signal lock task args t).0
unfolding exec_async
exec_async-IsValid has_signal lock task args t v =
    if_intro {A = Table × List Effect} (λ r. IsValid r.0) (not has_signal) _ _ (λ e. v)
      (λ e. exec_parsed-IsValid task t (parse_cd_prefix lock args) v)

killed-SlotOk : {n : ℕ} (p : Proc) → SlotOk n p → SlotOk n (killed p) × ((killed p).id ≡ p.id)
unfolding killed
killed-SlotOk p o = elim (Bool-cases p.completed) [
  | inl e ↦ rw e (
    record {
      known = o.known;
      live = λ nz e'. cc;
      task_gone = λ e'. refl;
      mark_gone = λ e'. refl;
      lock_gone = λ e'. o.marked e;
      marked = λ e'. cc;
    },
    refl,
  )
  | inr e ↦ rw e (
    record {
      known = o.known;
      live = λ nz e'. cc;
      task_gone = λ e'. refl;
      mark_gone = λ e'. refl;
      lock_gone = λ e'. refl;
      marked = λ e'. refl;
    },
    refl,
  )
]

kill_slot-IsValid : (i : ℕ) (p : Proc) (t : Table) → IsValid t → IsValid (kill_slot i p t).0
unfolding kill_slot
kill_slot-IsValid i p t v =
    if_intro {A = Table × List Effect} (λ r. IsValid r.0) (not (is_running p)) _ _ (λ e. v)
      (λ e. update-IsValid t i killed v (λ q g. killed-SlotOk q (v.slots i q g)))

kill_target-IsValid : (t : Table) (r : Target) → IsValid t → IsValid (kill_target t r).0
unfolding kill_target kill_found
kill_target-IsValid t missing v = v
kill_target-IsValid t invalid v = v
kill_target-IsValid t (target id rest) v = of_found (find_id t.procs id)
  where
    of_found : (r : Option (ℕ × Proc)) → IsValid (kill_found t r).0
    of_found none = v
    of_found (some (i, p)) = kill_slot-IsValid i p t v

pub cmd_kill-IsValid : (args : List ℕ) (t : Table) → IsValid t → IsValid (cmd_kill args t).0
unfolding cmd_kill
cmd_kill-IsValid args t v =
    if_intro {A = Table × List Effect} (λ r. IsValid r.0) (not t.allow_remote_shutdown) _ _ (λ e. v)
      (λ e. kill_target-IsValid t (parse_id args) v)

-- One event: an EXEC ASYNC, as long as `next_proc_id` can be incremented as an int; one of the
-- three last writes of a wrapper whose process runs, in their order (the lock in the slot of a
-- wrapper that sets its mark is cleared); the harvest of the event loop; and a KILL.
pub data Step (t : Table) : Table → Type 0 where
  run_async :
      (has_signal : Bool) (lock : List ℕ → ℕ) (task : ℕ) (args : List ℕ)
      → t.next_proc_id < int_max
      → Step t (exec_async has_signal lock task args t).0
  wrapper_clears :
      (i : ℕ) {p : Proc}
      → get_elem? t.procs i ≡ some p
      → p.status ≡ running
      → Step t (clear_lock i t)
  wrapper_stores :
      (i : ℕ) (rc : ℤ) {p : Proc}
      → get_elem? t.procs i ≡ some p
      → p.status ≡ running
      → Step t (store_rc i rc t)
  wrapper_completes :
      (i : ℕ) {p : Proc}
      → get_elem? t.procs i ≡ some p
      → p.status ≡ running
      → p.cd_lock ≡ 0
      → Step t (set_completed i t)
  scan : Step t (exec_scan_completed t)
  kill : (args : List ℕ) → Step t (cmd_kill args t).0

pub data Reach (t : Table) : Table → Type 0 where
  start : Reach t t
  next : {u w : Table} → Reach t u → Step u w → Reach t w
