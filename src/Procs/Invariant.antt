-- ===== src/Procs/Invariant.antt =====
-- What holds of the process table between two events.
use amigactl.Prelude.{
  ℕ, ◌≤◌, ◌<◌, Bool, true, false, ◌&&◌, List, none, some, ◌≡◌, ◌≢◌, refl, ap, sym, ◌∙◌, arith,
  get_elem?, set, get_elem?-replicate, length, length-set, get_elem?-set_cases, get_elem?-map,
  Bool-cases, Option-cases, inl, inr, length-map, subst,
}
use amigactl.Prelude.Int.{ℤ}
use amigactl.Procs.{
  running, exited, Proc, Table, is_running, harvest, exec_scan_completed, update, unused_proc,
  initial_table, clear_lock, store_rc, set_completed, max_tracked_procs,
}

-- One slot: its id was handed out, a running process has a task, and an exited slot has neither a
-- task nor a mark nor a lock; the wrapper gives its lock back before it leaves its mark.
pub record SlotOk (next : ℕ) (p : Proc) : Type 0 where
  pub known : p.id < next
  pub live : p.id ≢ 0 → p.status ≡ running → p.task ≢ 0
  pub task_gone : p.status ≡ exited → p.task ≡ 0
  pub mark_gone : p.status ≡ exited → p.completed ≡ false
  pub lock_gone : p.status ≡ exited → p.cd_lock ≡ 0
  pub marked : p.completed ≡ true → p.cd_lock ≡ 0

-- Sixteen slots, each of them sound, and no id in two slots.
pub record IsValid (t : Table) : Type 0 where
  pub size : length t.procs ≡ max_tracked_procs
  pub slots : (i : ℕ) (p : Proc) → get_elem? t.procs i ≡ some p → SlotOk t.next_proc_id p
  pub distinct :
      (i j : ℕ) (p q : Proc)
      → get_elem? t.procs i ≡ some p
      → get_elem? t.procs j ≡ some q
      → p.id ≡ q.id
      → p.id ≢ 0
      → i ≡ j

pub update-found :
    (ps : List Proc) (i : ℕ) (f : Proc → Proc) {p : Proc}
    → get_elem? ps i ≡ some p
    → update ps i f ≡ set ps i (f p)
unfolding update
update-found ps i f h = rw (h, update)

SlotOk-mono : {n m : ℕ} {p : Proc} → n ≤ m → SlotOk n p → SlotOk m p
SlotOk-mono le o = record {
  known = omega arith;
  live = o.live;
  task_gone = o.task_gone;
  mark_gone = o.mark_gone;
  lock_gone = o.lock_gone;
  marked = o.marked;
}

pub update-absent :
    (ps : List Proc) (i : ℕ) (f : Proc → Proc) → get_elem? ps i ≡ none → update ps i f ≡ ps
unfolding update
update-absent ps i f h = rw (h, update)

-- To write a slot is safe if the new slot is sound and its id, if any, is in no other slot.
pub set-IsValid :
    (t : Table) (i next : ℕ) (p : Proc)
    → IsValid t
    → t.next_proc_id ≤ next
    → SlotOk next p
    → ((j : ℕ) (q : Proc) → get_elem? t.procs j ≡ some q → j ≢ i → p.id ≡ q.id → p.id ≢ 0 → ⊥)
    → IsValid (record t { procs = set t.procs i p; next_proc_id = next })
set-IsValid t i next p v le s alone = record {
  size = length-set t.procs i p ∙ v.size;
  slots = λ j q h. elim (get_elem?-set_cases t.procs i j p h) [
    | inl (e, w) ↦ rw w s
    | inr (n, g) ↦ SlotOk-mono le (v.slots j q g)
  ];
  distinct = λ j k q r hj hk same nz. elim (get_elem?-set_cases t.procs i j p hj) [
    | inl (e, w) ↦ elim (get_elem?-set_cases t.procs i k p hk) [
      | inl (e', w') ↦ e ∙ sym e'
      | inr (n', g') ↦
          absurd (alone k r g' n' (ap (λ x. x.id) (sym w) ∙ same) (λ z. nz (ap (λ x. x.id) w ∙ z)))
    ]
    | inr (n, g) ↦ elim (get_elem?-set_cases t.procs i k p hk) [
      | inl (e', w') ↦ absurd (
          alone j q g n (ap (λ x. x.id) (sym w') ∙ sym same)
            (λ z. nz (same ∙ ap (λ x. x.id) w' ∙ z)))
      | inr (n', g') ↦ v.distinct j k q r g g' same nz
    ]
  ];
}

-- Ids that were handed out stay so.
pub next-IsValid :
    (t : Table) (next : ℕ)
    → t.next_proc_id ≤ next
    → IsValid t
    → IsValid (record t { next_proc_id = next })
next-IsValid t next le v = record {
  size = v.size;
  slots = λ i p h. SlotOk-mono le (v.slots i p h);
  distinct = v.distinct;
}

-- A change of one slot that keeps its id.
pub update-IsValid :
    (t : Table) (i : ℕ) (f : Proc → Proc)
    → IsValid t
    → ((p : Proc) → get_elem? t.procs i ≡ some p → SlotOk t.next_proc_id (f p) × ((f p).id ≡ p.id))
    → IsValid (record t { procs = update t.procs i f })
update-IsValid t i f v keeps = elim (Option-cases (get_elem? t.procs i)) [
  | inl e ↦ rw (update-absent t.procs i f e) v
  | inr (p, e) ↦
      let k = keeps p e in
      rw (update-found t.procs i f e) (
        set-IsValid t i t.next_proc_id (f p) v (omega arith) k.0 (λ j q g n same nz.
          n (sym (v.distinct i j p q e g (sym k.1 ∙ same) (λ z. nz (k.1 ∙ z))))))
]

harvest-SlotOk : {n : ℕ} (p : Proc) → SlotOk n p → SlotOk n (harvest p) × ((harvest p).id ≡ p.id)
unfolding harvest
harvest-SlotOk p o = elim (Bool-cases (is_running p && p.completed)) [
  | inl e ↦ rw e (
    record {
      known = o.known;
      live = λ nz e'. cc;
      task_gone = λ e'. refl;
      mark_gone = λ e'. refl;
      lock_gone = λ e'. o.marked (ground arith);
      marked = λ e'. cc;
    },
    refl,
  )
  | inr e ↦ rw e (o, refl)
]

pub exec_scan_completed-IsValid : {t : Table} → IsValid t → IsValid (exec_scan_completed t)
unfolding exec_scan_completed
exec_scan_completed-IsValid {t} v = record {
  size = length-map t.procs harvest ∙ v.size;
  slots = λ i p h.
      let (q, g, e) = get_elem?-map harvest t.procs i h in
      rw (← e) ((harvest-SlotOk q (v.slots i q g)).0);
  distinct = λ i j p q hi hj same nz.
      let (p', gp, ep) = get_elem?-map harvest t.procs i hi in
      let (q', gq, eq) = get_elem?-map harvest t.procs j hj in
      let kp = (harvest-SlotOk p' (v.slots i p' gp)).1 in
      let kq = (harvest-SlotOk q' (v.slots j q' gq)).1 in
      v.distinct i j p' q' gp gq (sym kp ∙ ap (λ x. x.id) ep ∙ same ∙ sym (ap (λ x. x.id) eq) ∙ kq)
        (λ z. nz (sym (ap (λ x. x.id) ep) ∙ kp ∙ z));
}

-- A write of a wrapper to its own slot, while its process runs.
own-IsValid :
    (t : Table) (i : ℕ) (f : Proc → Proc) {p : Proc}
    → IsValid t
    → get_elem? t.procs i ≡ some p
    → (SlotOk t.next_proc_id p → SlotOk t.next_proc_id (f p) × ((f p).id ≡ p.id))
    → IsValid (record t { procs = update t.procs i f })
own-IsValid t i f {p} v h keeps = update-IsValid t i f v λ q g.
    let same : p ≡ q = cc in
    subst (λ r. SlotOk t.next_proc_id (f r) × ((f r).id ≡ r.id)) same (keeps (v.slots i p h))

pub clear_lock-IsValid :
    (t : Table) (i : ℕ) {p : Proc}
    → IsValid t
    → get_elem? t.procs i ≡ some p
    → p.status ≡ running
    → IsValid (clear_lock i t)
unfolding clear_lock
clear_lock-IsValid t i v h r =
    own-IsValid t i (λ p. record p { cd_lock = 0 }) v h
      λ o. (
        record {
          known = o.known;
          live = o.live;
          task_gone = o.task_gone;
          mark_gone = o.mark_gone;
          lock_gone = λ e. refl;
          marked = λ e. refl;
        },
        refl,
      )

pub store_rc-IsValid :
    (t : Table) (i : ℕ) (rc : ℤ) {p : Proc}
    → IsValid t
    → get_elem? t.procs i ≡ some p
    → IsValid (store_rc i rc t)
unfolding store_rc
store_rc-IsValid t i rc v h =
    own-IsValid t i (λ p. record p { rc = rc }) v h
      λ o. (
        record {
          known = o.known;
          live = o.live;
          task_gone = o.task_gone;
          mark_gone = o.mark_gone;
          lock_gone = o.lock_gone;
          marked = o.marked;
        },
        refl,
      )

pub set_completed-IsValid :
    (t : Table) (i : ℕ) {p : Proc}
    → IsValid t
    → get_elem? t.procs i ≡ some p
    → p.status ≡ running
    → p.cd_lock ≡ 0
    → IsValid (set_completed i t)
unfolding set_completed
set_completed-IsValid t i v h r cleared =
    own-IsValid t i (λ p. record p { completed = true }) v h
      λ o. (
        record {
          known = o.known;
          live = o.live;
          task_gone = o.task_gone;
          mark_gone = λ e. cc;
          lock_gone = o.lock_gone;
          marked = λ e. cleared;
        },
        refl,
      )

unused_proc-SlotOk : SlotOk 1 unused_proc
unfolding unused_proc
unused_proc-SlotOk = record {
  known = omega arith;
  live = λ nz e. absurd (nz refl);
  task_gone = λ e. refl;
  mark_gone = λ e. refl;
  lock_gone = λ e. refl;
  marked = λ e. refl;
}

pub initial_table-IsValid : (allow : Bool) → IsValid (initial_table allow)
unfolding initial_table unused_proc
initial_table-IsValid allow = record {
  size = refl;
  slots = λ i p h. rw (get_elem?-replicate max_tracked_procs i unused_proc h) unused_proc-SlotOk;
  distinct = λ i j p q hi hj same nz.
      absurd (nz (ap (λ x. x.id) (get_elem?-replicate max_tracked_procs i unused_proc hi)));
}
