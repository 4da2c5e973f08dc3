-- ===== src/Procs/Lookup.antt =====
-- The process that a command names is the one with that id, and one that EXEC ASYNC started is
-- found under the id of its reply.
use amigactl.Prelude.{
  ℕ, zero, suc, ◌+◌, ◌<◌, true, List, [], ◌∷◌, Option, some, ◌≡◌, ◌≢◌, refl, ap, sym, ◌∙◌, arith,
  ◌==◌, ==_iff, get_elem?, Bool-cases, inl, inr, decimal, All,
}
use amigactl.Prelude.Int.{pos}
use amigactl.Prelude.Strtol.{strtol, starts_with_digit}
use amigactl.Prelude.Numbers.{strtol-decimal, starts-decimal}
use amigactl.Procs.{Proc, Table, choose_slot, int_max}
use amigactl.Procs.Commands.{target, parse_id, ends_number, checked_id, find_from, find_id}
use amigactl.Procs.Invariant.{IsValid}
use amigactl.Procs.Slots.{Choice, unused_slot, oldest_exited, table_full, choose_slot-Choice}

-- What a search finds stands in the table and has the id.
pub find_from-found :
    (ps : List Proc) (n id i : ℕ) (p : Proc)
    → find_from ps n id ≡ some (i, p)
    → (k : ℕ) × (i ≡ n + k) × (get_elem? ps k ≡ some p) × (p.id ≡ id)
unfolding find_from
find_from-found [] n id i p h = absurd cc
find_from-found (q ∷ ps) n id i p h = elim (Bool-cases (q.id == id)) [
  | inl e ↦
      let h' : ◌≡◌ {A = Option (ℕ × Proc)} (some (n, q)) (some (i, p)) = rw e at h in
      let first : n ≡ i = cc in
      let same : q ≡ p = cc in
      (0, omega arith, ap (λ x. some x) same, ap (λ x. x.id) (sym same) ∙ (==_iff q.id id).0 e)
  | inr e ↦
      let (k, at, there, same) = find_from-found ps (n + 1) id i p (rw e at h) in
      (suc k, omega arith, there, same)
]

-- A process whose id is in no other slot is the one that is found.
find_from-only :
    (ps : List Proc) (n k : ℕ) (p : Proc)
    → get_elem? ps k ≡ some p
    → ((j : ℕ) (q : Proc) → get_elem? ps j ≡ some q → q.id ≡ p.id → j ≡ k)
    → find_from ps n p.id ≡ some (n + k, p)
unfolding find_from
find_from-only [] n k p h only = absurd cc
find_from-only (q ∷ ps) n zero p h only =
    let same : q ≡ p = cc in
    let e : (q.id == p.id) ≡ true = (==_iff q.id p.id).1 (ap (λ x. x.id) same) in
    rw e (ap (λ x. some (n, x)) same ∙ ap (λ m. some (m, p)) (omega arith))
find_from-only (q ∷ ps) n (suc k) p h only = elim (Bool-cases (q.id == p.id)) [
  | inl e ↦ absurd (omega (arith, only 0 q refl ((==_iff q.id p.id).0 e)))
  | inr e ↦ rw e (
      find_from-only ps (n + 1) k p h (λ j r g s. omega (arith, only (suc j) r g s))
      ∙ ap (λ m. some (m, p)) (omega arith))
]

-- The id of a process in a sound table leads to its slot.
pub find_id-found :
    (t : Table) (k : ℕ) (p : Proc)
    → IsValid t
    → get_elem? t.procs k ≡ some p
    → p.id ≢ 0
    → find_id t.procs p.id ≡ some (k, p)
unfolding find_id
find_id-found t k p v h nz =
    find_from-only t.procs 0 k p h
      (λ j q g same. v.distinct j k q p g h same (λ z. nz (sym same ∙ z)))
    ∙ ap (λ m. some (m, p)) (omega arith)

pub find_id-there :
    (procs : List Proc) (id i : ℕ) (p : Proc)
    → find_id procs id ≡ some (i, p)
    → (get_elem? procs i ≡ some p) × (p.id ≡ id)
unfolding find_id
find_id-there procs id i p h =
    let (k, at, there, same) = find_from-found procs 0 id i p h in
    let at' : k ≡ i = omega arith in (ap (λ m. get_elem? procs m) (sym at') ∙ there, same)

-- PROCSTAT reads the id that EXEC ASYNC prints.
parse_id-digits :
    (l : List ℕ) {n : ℕ}
    → starts_with_digit l ≡ true
    → strtol l ≡ (pos (suc n), [])
    → parse_id l ≡ target (suc n) []
unfolding parse_id ends_number checked_id starts_with_digit
parse_id-digits [] h e = absurd cc
parse_id-digits (c ∷ s) h e = rw e refl

pub parse_id-decimal : (n : ℕ) → n ≢ 0 → n < 0x7FFFFFFF → parse_id (decimal n) ≡ target n []
parse_id-decimal zero nz lt = absurd (nz refl)
parse_id-decimal (suc n) nz lt =
    parse_id-digits (decimal (suc n)) (starts-decimal (suc n)) (strtol-decimal (suc n) lt)

All-of :
    (P : Proc → Type 0) (ps : List Proc)
    → ((i : ℕ) (p : Proc) → get_elem? ps i ≡ some p → P p)
    → All P ps
All-of P [] h = tt
All-of P (p ∷ ps) h = (h 0 p refl, All-of P ps (λ i. h (suc i)))

-- The chosen slot is one of the table.
Choice-there :
    {ps : List Proc} {r : Option ℕ} (slot : ℕ)
    → Choice ps r
    → r ≡ some slot
    → (p : Proc) × (get_elem? ps slot ≡ some p)
Choice-there {ps} slot (unused_slot k p g z e) h =
    let same : k ≡ slot = cc in (p, ap (λ m. get_elem? ps m) (sym same) ∙ g)
Choice-there {ps} slot (oldest_exited k p g d u low e) h =
    let same : k ≡ slot = cc in (p, ap (λ m. get_elem? ps m) (sym same) ∙ g)
Choice-there slot (table_full u r e) h = absurd cc

pub choose_slot-there :
    (t : Table) (slot : ℕ)
    → IsValid t
    → t.next_proc_id < int_max
    → choose_slot t.procs ≡ some slot
    → (p : Proc) × (get_elem? t.procs slot ≡ some p)
choose_slot-there t slot v lt h =
    Choice-there slot
      (choose_slot-Choice t.procs
        (All-of (λ p. p.id < int_max) t.procs (λ i p g. omega (arith, (v.slots i p g).known))))
      h
