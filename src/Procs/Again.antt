-- ===== src/Procs/Again.antt =====
-- A second KILL with the same arguments.
use amigactl.Prelude.{
  ℕ, zero, suc, ◌+◌, true, false, not, List, [], ◌∷◌, Option, none, some, ◌≡◌, refl, ap, sym, ◌∙◌,
  arith, ◌==◌, ==_iff, if_intro, set, Bool-cases, Option-cases, inl, inr, All, subst,
}
use amigactl.Effects.{Effect, reply, unlock, raise, rem_task}
use amigactl.Procs.{Proc, Table, is_running, update}
use amigactl.Procs.Commands.{
  Target, missing, invalid, target, parse_id, find_from, find_id, killed, kill_slot, kill_found,
  kill_target, cmd_kill,
}
use amigactl.Procs.Invariant.{update-found}
use amigactl.Procs.Lookup.{find_id-there}

abbrev IsReply : Effect → Type 0
IsReply (reply f) = Unit
IsReply (unlock lock) = ⊥
IsReply (raise task sig) = ⊥
IsReply (rem_task task) = ⊥

-- The table is as it was, and nothing happened but replies.
abbrev pub Quiet : Table → Table × List Effect → Type 0
Quiet t r = (r.0 ≡ t) × All IsReply r.1

find_from-set :
    (ps : List Proc) (n id k : ℕ) (p q : Proc)
    → find_from ps n id ≡ some (n + k, p)
    → q.id ≡ id
    → find_from (set ps k q) n id ≡ some (n + k, q)
unfolding find_from
find_from-set [] n id k p q h same = absurd cc
find_from-set (x ∷ xs) n id zero p q h same =
    let e : (q.id == id) ≡ true = (==_iff q.id id).1 same in
    rw e (ap (λ m. some (m, q)) (omega arith))
find_from-set (x ∷ xs) n id (suc k) p q h same = elim (Bool-cases (x.id == id)) [
  | inl e ↦
      let h' : ◌≡◌ {A = Option (ℕ × Proc)} (some (n, x)) (some (n + suc k, p)) = rw e at h in
      let at : n ≡ n + suc k = cc in absurd (omega arith)
  | inr e ↦
      let h' : find_from xs (n + 1) id ≡ some (n + suc k, p) = rw e at h in
      let shift : n + 1 + k ≡ n + suc k = omega arith in
      rw e (
        find_from-set xs (n + 1) id k p q (h' ∙ ap (λ m. some (m, p)) (sym shift)) same
        ∙ ap (λ m. some (m, q)) shift)
]

killed-id : (p : Proc) → (killed p).id ≡ p.id
unfolding killed
killed-id p = if_intro {A = Proc} (λ q. q.id ≡ p.id) p.completed _ _ (λ e. refl) (λ e. refl)

killed-stopped : (p : Proc) → is_running (killed p) ≡ false
unfolding killed is_running
killed-stopped p = if_intro (λ q. is_running q ≡ false) p.completed _ _ (λ e. refl) (λ e. refl)

find_id-killed :
    (procs : List Proc) (id i : ℕ) (p : Proc)
    → find_id procs id ≡ some (i, p)
    → find_id (update procs i killed) id ≡ some (i, killed p)
unfolding find_id
find_id-killed procs id i p h =
    let (there, same) = find_id-there procs id i p h in
    rw (update-found procs i killed there) (
      find_from-set procs 0 id i p (killed p) (h ∙ ap (λ m. some (m, p)) (omega arith))
        (killed-id p ∙ same)
      ∙ ap (λ m. some (m, killed p)) (omega arith))

kill_target-found :
    (t : Table) (id : ℕ) (rest : List ℕ) (i : ℕ) (p : Proc)
    → find_id t.procs id ≡ some (i, p)
    → kill_target t (target id rest) ≡ kill_slot i p t
unfolding kill_target kill_found
kill_target-found t id rest i p e = rw e refl

kill_target-absent :
    (t : Table) (id : ℕ) (rest : List ℕ)
    → find_id t.procs id ≡ none
    → Quiet t (kill_target t (target id rest))
unfolding kill_target kill_found
kill_target-absent t id rest e = rw e (refl, (tt, (tt, tt)))

kill_slot-Quiet : (i : ℕ) (p : Proc) (t : Table) → is_running p ≡ false → Quiet t (kill_slot i p t)
unfolding kill_slot
kill_slot-Quiet i p t e = rw e (refl, (tt, (tt, tt)))

kill_slot-kills :
    (i : ℕ) (p : Proc) (t : Table)
    → is_running p ≡ true
    → (kill_slot i p t).0 ≡ record t { procs = update t.procs i killed }
unfolding kill_slot
kill_slot-kills i p t e = rw e refl

-- A handler that is quiet is quiet again.
again-Quiet :
    (f : Table → Table × List Effect) (t : Table) → Quiet t (f t) → Quiet (f t).0 (f (f t).0)
again-Quiet f t (same, quiet) = rw same (same, quiet)

abbrev kill_by : Target → Table → Table × List Effect
kill_by r t = kill_target t r

kill_target-again :
    (t : Table) (r : Target) → Quiet (kill_target t r).0 (kill_target (kill_target t r).0 r)
unfolding kill_target
kill_target-again t missing = (refl, (tt, (tt, tt)))
kill_target-again t invalid = (refl, (tt, (tt, tt)))
kill_target-again t (target id rest) = elim (Option-cases (find_id t.procs id)) [
  | inl e ↦ again-Quiet (kill_by (target id rest)) t (kill_target-absent t id rest e)
  | inr ((i, p), e) ↦ elim (Bool-cases (is_running p)) [
    | inl run ↦
        let t' = record t { procs = update t.procs i killed } in
        let became : (kill_target t (target id rest)).0 ≡ t' =
          ap (λ r. r.0) (kill_target-found t id rest i p e) ∙ kill_slot-kills i p t run in
        let found : find_id t'.procs id ≡ some (i, killed p) = find_id-killed t.procs id i p e in
        subst (λ u. Quiet u (kill_target u (target id rest))) (sym became)
          (subst (Quiet t') (sym (kill_target-found t' id rest i (killed p) found))
            (kill_slot-Quiet i (killed p) t' (killed-stopped p)))
    | inr stopped ↦
        again-Quiet (kill_by (target id rest)) t (
          subst (Quiet t) (sym (kill_target-found t id rest i p e)) (kill_slot-Quiet i p t stopped))
  ]
]

kill_target-allowed :
    (t : Table) (r : Target) → (kill_target t r).0.allow_remote_shutdown ≡ t.allow_remote_shutdown
unfolding kill_target kill_found kill_slot
kill_target-allowed t missing = refl
kill_target-allowed t invalid = refl
kill_target-allowed t (target id rest) = of_found (find_id t.procs id)
  where
    of_found :
        (r : Option (ℕ × Proc)) → (kill_found t r).0.allow_remote_shutdown ≡ t.allow_remote_shutdown
    of_found none = refl
    of_found (some (i, p)) =
        if_intro {A = Table × List Effect}
          (λ r. r.0.allow_remote_shutdown ≡ t.allow_remote_shutdown) (not (is_running p)) _ _
          (λ e. refl) (λ e. refl)

cmd_kill-allowed :
    (args : List ℕ) (t : Table)
    → not t.allow_remote_shutdown ≡ false
    → cmd_kill args t ≡ kill_target t (parse_id args)
unfolding cmd_kill
cmd_kill-allowed args t e = rw e refl

cmd_kill-refused :
    (args : List ℕ) (t : Table) → not t.allow_remote_shutdown ≡ true → Quiet t (cmd_kill args t)
unfolding cmd_kill
cmd_kill-refused args t e = rw e (refl, (tt, (tt, tt)))

-- Whatever the table and the arguments, after a KILL the same KILL changes nothing and does nothing
-- but reply: no task is removed twice and no lock is unlocked twice by it.
pub cmd_kill-again :
    (args : List ℕ) (t : Table) → Quiet (cmd_kill args t).0 (cmd_kill args (cmd_kill args t).0)
cmd_kill-again args t = elim (Bool-cases (not t.allow_remote_shutdown)) [
  | inl e ↦ again-Quiet (cmd_kill args) t (cmd_kill-refused args t e)
  | inr e ↦
      let t' = (kill_target t (parse_id args)).0 in
      let became : (cmd_kill args t).0 ≡ t' = ap (λ r. r.0) (cmd_kill-allowed args t e) in
      let e' : not t'.allow_remote_shutdown ≡ false =
        ap (λ b. not b) (kill_target-allowed t (parse_id args)) ∙ e in
      subst (λ u. Quiet u (cmd_kill args u)) (sym became)
        (subst (Quiet t') (sym (cmd_kill-allowed args t' e')) (kill_target-again t (parse_id args)))
]
