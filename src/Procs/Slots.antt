-- ===== src/Procs/Slots.antt =====
-- Which slot `exec_async` takes.
use amigactl.Prelude.{
  ℕ, suc, ◌+◌, ◌≤◌, ◌<◌, true, false, not, ◌&&◌, List, [], ◌∷◌, Option, none, some, ◌≡◌, ◌≢◌, refl,
  arith, ◌==◌, ltb, get_elem?, All, Bool-cases, ==_iff, ◌∙◌, inl, inr, ap, ◌⊎◌,
}
use amigactl.Procs.{Proc, is_running, choose_from, choose_slot, int_max}

abbrev pub Used : List Proc → Type 0
Used = All (λ p. p.id ≢ 0)

-- Every exited slot has at least this id.
abbrev pub NoOlder : ℕ → List Proc → Type 0
NoOlder n = All (λ p. is_running p ≡ false → n ≤ p.id)

-- What the scan from slot number `i` on returns, when it has `best` of id `bid` so far.
data Scan (ps : List Proc) (i : ℕ) (best : Option ℕ) (bid : ℕ) (r : Option ℕ) : Type 0 where
  unused :
      (j : ℕ) (p : Proc)
      → get_elem? ps j ≡ some p
      → p.id ≡ 0
      → r ≡ some (i + j)
      → Scan ps i best bid r
  older :
      (j : ℕ) (p : Proc)
      → get_elem? ps j ≡ some p
      → is_running p ≡ false
      → p.id < bid
      → Used ps
      → NoOlder p.id ps
      → r ≡ some (i + j)
      → Scan ps i best bid r
  kept : Used ps → NoOlder bid ps → r ≡ best → Scan ps i best bid r

shift : (i j : ℕ) (r : Option ℕ) → r ≡ some (i + 1 + j) → r ≡ some (i + suc j)
shift i j r e = e ∙ ap (λ k. some k) (omega arith)

first : (i : ℕ) (r : Option ℕ) → r ≡ some i → r ≡ some (i + 0)
first i r e = e ∙ ap (λ k. some k) (omega arith)

-- A slot that becomes the best so far, and one that does not.
take_slot :
    (p : Proc) (ps : List Proc) (i : ℕ) (best : Option ℕ) (bid : ℕ) {r : Option ℕ}
    → p.id ≢ 0
    → is_running p ≡ false
    → p.id < bid
    → Scan ps (i + 1) (some i) p.id r
    → Scan (p ∷ ps) i best bid r
take_slot p ps i best bid {r} used dead lt (unused j q g z e) = unused (suc j) q g z (shift i j r e)
take_slot p ps i best bid {r} used dead lt (older j q g d l u low e) =
    older (suc j) q g d (omega arith) (used, u) ((λ _. omega arith), low) (shift i j r e)
take_slot p ps i best bid {r} used dead lt (kept u low e) =
    older 0 p refl dead lt (used, u) ((λ _. omega arith), low) (first i r e)

skip_slot :
    (p : Proc) (ps : List Proc) (i : ℕ) (best : Option ℕ) (bid : ℕ) {r : Option ℕ}
    → p.id ≢ 0
    → (is_running p ≡ false → bid ≤ p.id)
    → Scan ps (i + 1) best bid r
    → Scan (p ∷ ps) i best bid r
skip_slot p ps i best bid {r} used no_better (unused j q g z e) =
    unused (suc j) q g z (shift i j r e)
skip_slot p ps i best bid {r} used no_better (older j q g d l u low e) =
    older (suc j) q g d l (used, u) ((λ dead. omega (arith, no_better dead)), low) (shift i j r e)
skip_slot p ps i best bid used no_better (kept u low e) = kept (used, u) (no_better, low) e

choose_from-Scan :
    (ps : List Proc) (i : ℕ) (best : Option ℕ) (bid : ℕ)
    → Scan ps i best bid (choose_from ps i best bid)
unfolding choose_from
choose_from-Scan [] i best bid = kept tt tt refl
choose_from-Scan (p ∷ ps) i best bid = elim (Bool-cases (p.id == 0)) [
  | inl e ↦ unused 0 p refl ((==_iff p.id 0).0 e) (rw e (ap (λ k. some k) (omega arith)))
  | inr e ↦ elim (Bool-cases (not (is_running p) && ltb p.id bid)) [
    | inl better ↦
        rw (e, better)
          (take_slot p ps i best bid (ground arith) (ground arith) (ground arith)
            (choose_from-Scan ps (i + 1) (some i) p.id))
    | inr worse ↦
        rw (e, worse)
          (skip_slot p ps i best bid (ground arith) (λ dead. ground arith)
            (choose_from-Scan ps (i + 1) best bid))
  ]
]

-- What the choice of a slot promises: a slot that was never used, or else the exited slot of the
-- smallest id, or else nothing, and then every slot is in use and runs.
pub data Choice (ps : List Proc) (r : Option ℕ) : Type 0 where
  unused_slot : (k : ℕ) (p : Proc) → get_elem? ps k ≡ some p → p.id ≡ 0 → r ≡ some k → Choice ps r
  oldest_exited :
      (k : ℕ) (p : Proc)
      → get_elem? ps k ≡ some p
      → is_running p ≡ false
      → Used ps
      → NoOlder p.id ps
      → r ≡ some k
      → Choice ps r
  table_full : Used ps → All (λ p. is_running p ≡ true) ps → r ≡ none → Choice ps r

zero_add : (k : ℕ) (r : Option ℕ) → r ≡ some (0 + k) → r ≡ some k
zero_add k r e = e ∙ ap (λ n. some n) (omega arith)

nobody_exited :
    (ps : List Proc)
    → All (λ p. p.id < int_max) ps
    → NoOlder int_max ps
    → All (λ p. is_running p ≡ true) ps
nobody_exited [] h low = tt
nobody_exited (p ∷ ps) h low = (
  elim (Bool-cases (is_running p)) [
    | inl live ↦ live
    | inr dead ↦ absurd (omega (arith, low.0 dead, h.0))
  ],
  nobody_exited ps h.1 low.1,
)

-- As long as the ids stay below the largest int.
pub choose_slot-Choice :
    (ps : List Proc) → All (λ p. p.id < int_max) ps → Choice ps (choose_slot ps)
unfolding choose_slot
choose_slot-Choice ps h = by_scan (choose_from-Scan ps 0 none int_max)
  where
    by_scan : {r : Option ℕ} → Scan ps 0 none int_max r → Choice ps r
    by_scan {r} (unused j p g z e) = unused_slot j p g z (zero_add j r e)
    by_scan {r} (older j p g d l u low e) = oldest_exited j p g d u low (zero_add j r e)
    by_scan (kept u low e) = table_full u (nobody_exited ps h low) e

-- A slot that is unused or exited; or none, and then every slot is in use and runs.
pub data Free (ps : List Proc) (r : Option ℕ) : Type 0 where
  free_slot :
      (k : ℕ) (p : Proc)
      → get_elem? ps k ≡ some p
      → (p.id ≡ 0) ⊎ (is_running p ≡ false)
      → r ≡ some k
      → Free ps r
  no_slot : Used ps → All (λ p. is_running p ≡ true) ps → r ≡ none → Free ps r

-- As long as the ids stay below the largest int: the slot for a new process was never used or has
-- exited, and there is none only if every slot is in use and runs; so a process that runs is never
-- evicted, and a slot that could be taken is never overlooked.
pub choose_slot-Free : (ps : List Proc) → All (λ p. p.id < int_max) ps → Free ps (choose_slot ps)
choose_slot-Free ps h = by_choice (choose_slot-Choice ps h)
  where
    by_choice : {r : Option ℕ} → Choice ps r → Free ps r
    by_choice (unused_slot k p g z e) = free_slot k p g (inl z) e
    by_choice (oldest_exited k p g d u low e) = free_slot k p g (inr d) e
    by_choice (table_full u live e) = no_slot u live e
