-- ===== src/Arexx/Served.antt =====
-- What holds between two events: who waits is connected, and its message is still on its way.
use amigactl.Prelude.{
  ℕ, suc, ◌+◌, Bool, true, false, List, [], ◌∷◌, some, ◌≡◌, ◌≢◌, refl, ap, sym, ◌∙◌, arith,
  get_elem?, get_elem?-set_found, get_elem?-set_ne, get_elem?-modify_cases, Bool-cases, inl, inr,
}
use amigactl.Arexx.{Pending, Client, Bridge, System, first_slot, wait_for_reply, record_pending}
use amigactl.Arexx.Waiting.{Connected, Awaited}

pub record Served (b : Bridge) : Type 0 where
  pub connected : Connected b.clients
  pub awaited :
      (i : ℕ) (c : Client)
      → get_elem? b.clients i ≡ some c
      → c.arexx_pending ≡ true
      → Awaited b.slots i

-- A search finds a slot of the table that passes the test.
pub first_slot-found :
    (test : Pending → Bool) (ss : List Pending) (i k : ℕ)
    → first_slot test ss i ≡ some k
    → (j : ℕ) × (s : Pending) × (k ≡ i + j) × (get_elem? ss j ≡ some s) × (test s ≡ true)
unfolding first_slot
first_slot-found test [] i k h = absurd cc
first_slot-found test (s ∷ ss) i k h = elim (Bool-cases (test s)) [
  | inl e ↦
      let h' : some i ≡ some k = rw e at h in let same : i ≡ k = cc in (0, s, omega arith, refl, e)
  | inr e ↦
      let (j, q, at, there, t) = first_slot-found test ss (i + 1) k (rw e at h) in
      (suc j, q, omega arith, there, t)
]

pub slot_at :
    (test : Pending → Bool) (ss : List Pending) (k : ℕ)
    → first_slot test ss 0 ≡ some k
    → (s : Pending) × (get_elem? ss k ≡ some s) × (test s ≡ true)
slot_at test ss k h =
    let (j, s, at, there, t) = first_slot-found test ss 0 k h in
    let at' : j ≡ k = omega arith in (s, ap (λ m. get_elem? ss m) (sym at') ∙ there, t)

-- A slot of client `i` that stays is one that it still waits for.
pub Awaited-kept :
    {ss ss' : List Pending} {i : ℕ}
    → (a : Awaited ss i) → get_elem? ss' a.slot ≡ some a.pending
    → Awaited ss' i
Awaited-kept a h = record {
  slot = a.slot;
  pending = a.pending;
  there = h;
  active = a.active;
  asker = a.asker;
}

-- A message of a connected client goes into a slot that was free.
pub record_pending-Served :
    (sys : System) (idx k : ℕ) (b : Bridge) {s : Pending} {c : Client}
    → Served b
    → get_elem? b.slots k ≡ some s
    → s.active ≡ false
    → get_elem? b.clients idx ≡ some c
    → c.connected ≡ true
    → Served (record_pending sys idx k b)
unfolding record_pending wait_for_reply
record_pending-Served sys idx k b {s} {c} v h free g live = record {
  connected = λ i d at w. elim (get_elem?-modify_cases b.clients idx i wait_for_reply at) [
    | inl (e, x, g', same) ↦
        let x' : x ≡ c = cc in ap (λ y. y.connected) same ∙ ap (λ y. y.connected) x' ∙ live
    | inr (n, g') ↦ v.connected i d g' w
  ];
  awaited = λ i d at w. elim (get_elem?-modify_cases b.clients idx i wait_for_reply at) [
    | inl (e, x, g', same) ↦ record {
      slot = k;
      pending = record {
        active = true;
        client_idx = some idx;
        epoch = b.arexx_epoch;
        msg = sys.new_message;
        send_time = sys.now;
      };
      there = get_elem?-set_found b.slots k _ h;
      active = refl;
      asker = ap (λ m. some m) (sym e);
    }
    | inr (n, g') ↦
        let a = v.awaited i d g' w in
        let apart : k ≢ a.slot = λ e.
          (let twice : some s ≡ some a.pending =
              sym h ∙ ap (λ m. get_elem? b.slots m) e ∙ a.there in
            let same : s ≡ a.pending = cc in
            let on : s.active ≡ true = ap (λ x. x.active) same ∙ a.active in absurd cc) in
        Awaited-kept a (get_elem?-set_ne b.slots _ apart ∙ a.there)
  ];
}
