-- ===== src/Procs/Safety.antt =====
-- Which tasks SIGNAL and KILL touch.
use amigactl.Prelude.{
  ℕ, zero, suc, true, false, not, List, [], ◌∷◌, ◌++◌, Option, none, some, ◌≡◌, ◌≢◌, refl, sym, ◌∙◌,
  arith, ◌==◌, if_intro, get_elem?, All, skip_blanks,
}
use amigactl.Prelude.Int.{ℤ, pos, negsuc}
use amigactl.Prelude.Strtol.{strtol}
use amigactl.Effects.{Effect, reply, unlock, raise, rem_task, Signal}
use amigactl.Procs.{Status, running, exited, Proc, Table, is_running}
use amigactl.Procs.Launch.{unlock_if}
use amigactl.Procs.Commands.{
  Target, missing, invalid, target, parse_id, ends_number, checked_id, find_id, done_reply,
  parse_signal, signal_named, signal_slot, signal_found, signal_target, cmd_signal_proc,
  kill_effects, kill_slot, kill_found, kill_target, cmd_kill,
}
use amigactl.Procs.Invariant.{IsValid}
use amigactl.Procs.Lookup.{find_id-there}

-- The task of a process that runs and has not left its mark.
pub record Live (t : Table) (task : ℕ) : Type 0 where
  pub slot : ℕ
  pub proc : Proc
  pub there : get_elem? t.procs slot ≡ some proc
  pub runs : is_running proc ≡ true
  pub unmarked : proc.completed ≡ false
  pub known : proc.id ≢ 0
  pub same : proc.task ≡ task
  pub created : task ≢ 0

abbrev pub Safe : Table → Effect → Type 0
Safe t (reply f) = Unit
Safe t (unlock lock) = lock ≢ 0
Safe t (raise task sig) = Live t task
Safe t (rem_task task) = Live t task

is_running-status : (p : Proc) → is_running p ≡ true → p.status ≡ running
unfolding is_running
is_running-status p h = by_status p.status h
  where
    by_status : (s : Status) → (elim s [ running ↦ true | exited ↦ false ]) ≡ true → s ≡ running
    by_status running h = refl
    by_status exited h = absurd cc

slot-Live :
    (t : Table) (i : ℕ) (p : Proc)
    → IsValid t
    → get_elem? t.procs i ≡ some p
    → p.id ≢ 0
    → is_running p ≡ true
    → p.completed ≡ false
    → Live t p.task
slot-Live t i p v h nz r c = record {
  slot = i;
  proc = p;
  there = h;
  runs = r;
  unmarked = c;
  known = nz;
  same = refl;
  created = (v.slots i p h).live nz (is_running-status p r);
}

-- An id that was accepted is positive.
abbrev Positive : Target → Type 0
Positive missing = Unit
Positive invalid = Unit
Positive (target id rest) = id ≢ 0

checked_id-Positive : (value : ℤ) (rest : List ℕ) → Positive (checked_id value rest)
unfolding checked_id
checked_id-Positive (pos zero) rest = tt
checked_id-Positive (pos (suc n)) rest = λ z. omega arith
checked_id-Positive (negsuc n) rest = tt

parse_id-Positive : (args : List ℕ) → Positive (parse_id args)
unfolding parse_id
parse_id-Positive [] = tt
parse_id-Positive (c ∷ args) =
    if_intro Positive (ends_number (strtol (c ∷ args)).1) _ _
      (λ e. checked_id-Positive (strtol (c ∷ args)).0 (strtol (c ∷ args)).1) (λ e. tt)

signal_slot-Safe :
    (t : Table) (i : ℕ) (p : Proc) (rest : List ℕ)
    → IsValid t
    → get_elem? t.procs i ≡ some p
    → p.id ≢ 0
    → All (Safe t) (signal_slot rest p)
unfolding signal_slot signal_named done_reply
signal_slot-Safe t i p rest v h nz =
    if_intro (All (Safe t)) (not (is_running p)) _ _ (λ e. (tt, (tt, tt)))
      (λ e. by_signal (ground arith) (parse_signal (skip_blanks rest)))
  where
    by_signal : is_running p ≡ true → (sig : Option Signal) → All (Safe t) (signal_named p sig)
    by_signal r none = (tt, (tt, tt))
    by_signal r (some sig) =
        if_intro (All (Safe t)) p.completed _ _ (λ e. (tt, (tt, tt)))
          (λ e. (slot-Live t i p v h nz r e, (tt, (tt, tt))))

kill_effects-Safe :
    (t : Table) (i : ℕ) (p : Proc) (more : List Effect)
    → IsValid t
    → get_elem? t.procs i ≡ some p
    → p.id ≢ 0
    → is_running p ≡ true
    → All (Safe t) more
    → All (Safe t) (kill_effects p ++ more)
unfolding kill_effects unlock_if
kill_effects-Safe t i p more v h nz r m =
    if_intro (λ es. All (Safe t) (es ++ more)) p.completed _ _ (λ e. m)
      (λ e. (
        slot-Live t i p v h nz r e,
        if_intro (λ es. All (Safe t) (es ++ more)) (p.cd_lock == 0) _ _ (λ z. m)
            (λ z. ((λ w. ground arith), m)),
      ))

kill_slot-Safe :
    (t : Table) (i : ℕ) (p : Proc)
    → IsValid t
    → get_elem? t.procs i ≡ some p
    → p.id ≢ 0
    → All (Safe t) (kill_slot i p t).1
unfolding kill_slot done_reply
kill_slot-Safe t i p v h nz =
    if_intro {A = Table × List Effect} (λ r. All (Safe t) r.1) (not (is_running p)) _ _
      (λ e. (tt, (tt, tt)))
      (λ e. kill_effects-Safe t i p done_reply v h nz (ground arith) (tt, (tt, tt)))

signal_target-Safe :
    (t : Table) (r : Target) → IsValid t → Positive r → All (Safe t) (signal_target t r)
unfolding signal_target signal_found
signal_target-Safe t missing v positive = (tt, (tt, tt))
signal_target-Safe t invalid v positive = (tt, (tt, tt))
signal_target-Safe t (target id rest) v positive = of_found (find_id t.procs id) refl
  where
    of_found : (r : Option (ℕ × Proc)) → find_id t.procs id ≡ r → All (Safe t) (signal_found rest r)
    of_found none e = (tt, (tt, tt))
    of_found (some (i, p)) e =
        let (h, same) = find_id-there t.procs id i p e in
        signal_slot-Safe t i p rest v h (λ z. positive (sym same ∙ z))

kill_target-Safe :
    (t : Table) (r : Target) → IsValid t → Positive r → All (Safe t) (kill_target t r).1
unfolding kill_target kill_found
kill_target-Safe t missing v positive = (tt, (tt, tt))
kill_target-Safe t invalid v positive = (tt, (tt, tt))
kill_target-Safe t (target id rest) v positive = of_found (find_id t.procs id) refl
  where
    of_found : (r : Option (ℕ × Proc)) → find_id t.procs id ≡ r → All (Safe t) (kill_found t r).1
    of_found none e = (tt, (tt, tt))
    of_found (some (i, p)) e =
        let (h, same) = find_id-there t.procs id i p e in
        kill_slot-Safe t i p v h (λ z. positive (sym same ∙ z))

-- In a sound table, whatever the arguments: a task that SIGNAL signals, and a task that KILL
-- removes, is that of a slot with an id whose process runs and has not left its completion mark,
-- and is no null pointer; and KILL unlocks no null lock.
pub handlers-Safe :
    (args : List ℕ) (t : Table)
    → IsValid t
    → All (Safe t) (cmd_signal_proc args t) × All (Safe t) (cmd_kill args t).1
unfolding cmd_signal_proc cmd_kill
handlers-Safe args t v = (
  signal_target-Safe t (parse_id args) v (parse_id-Positive args),
  if_intro {A = Table × List Effect} (λ r. All (Safe t) r.1) (not t.allow_remote_shutdown) _ _
      (λ e. (tt, (tt, tt))) (λ e. kill_target-Safe t (parse_id args) v (parse_id-Positive args)),
)
