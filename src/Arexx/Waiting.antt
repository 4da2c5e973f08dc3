-- ===== src/Arexx/Waiting.antt =====
-- Who waits for a reply.
use amigactl.Prelude.{
  ℕ, zero, suc, Bool, true, false, ◌&&◌, List, [], ◌∷◌, Option, none, some, ◌≡◌, ◌≢◌, ap, sym, ◌∙◌,
  arith, get_elem?, get_elem?-modify_cases, Bool-cases, inl, inr,
}
use amigactl.Arexx.{
  DateStamp, Pending, Client, is_waiting, settle, answered, expired, orphaned, sweep,
}

-- A client waits only while it is connected.
abbrev pub Connected : List Client → Type 0
Connected clients =
    (i : ℕ) (c : Client)
    → get_elem? clients i ≡ some c
    → c.arexx_pending ≡ true
    → c.connected ≡ true

-- The slot of a message that a client waits for.
pub record Awaited (slots : List Pending) (i : ℕ) : Type 0 where
  pub slot : ℕ
  pub pending : Pending
  pub there : get_elem? slots slot ≡ some pending
  pub active : pending.active ≡ true
  pub asker : pending.client_idx ≡ some i

-- A client that is told its answer waits no longer.
settle-waits :
    (c : Client)
    → (c.arexx_pending ≡ true → c.connected ≡ true)
    → (settle c).arexx_pending ≡ true
    → ⊥
unfolding settle is_waiting
settle-waits c live w = elim (Bool-cases (c.connected && c.arexx_pending)) [
  | inl e ↦ let w' : false ≡ true = rw e at w in absurd cc
  | inr e ↦ let w' : c.arexx_pending ≡ true = rw e at w in absurd (ground (arith, live w'))
]

-- Who waits after an answer waited before, and is another client.
pub answered-waits :
    (r : Option ℕ) (clients : List Client) (i : ℕ) (c : Client)
    → Connected clients
    → get_elem? (answered r clients) i ≡ some c
    → c.arexx_pending ≡ true
    → (get_elem? clients i ≡ some c) × (r ≢ some i)
unfolding answered
answered-waits none clients i c live h w = (h, λ e. cc)
answered-waits (some k) clients i c live h w = elim (get_elem?-modify_cases clients k i settle h) [
  | inl (e, x, g, same) ↦
      absurd (settle-waits x (live k x g) (ap (λ y. y.arexx_pending) (sym same) ∙ w))
  | inr (n, g) ↦ (g, λ e. n (ground arith))
]

pub answered-Connected :
    (r : Option ℕ) (clients : List Client) → Connected clients → Connected (answered r clients)
answered-Connected r clients live i c h w = live i c ((answered-waits r clients i c live h w).0) w

-- The slots of client `i` in a table are in another one as they were, and their time is not up.
abbrev pub LeftAlone : DateStamp → List Pending → List Pending → ℕ → Type 0
LeftAlone now ss ss' i =
    (k : ℕ) (s : Pending)
    → get_elem? ss k ≡ some s
    → s.active ≡ true
    → s.client_idx ≡ some i
    → (get_elem? ss' k ≡ some s) × (expired now s ≡ false)

other_client :
    (now : DateStamp) (s s' : Pending) (ss ss' : List Pending) (i : ℕ)
    → s.client_idx ≢ some i
    → LeftAlone now ss ss' i
    → LeftAlone now (s ∷ ss) (s' ∷ ss') i
other_client now s s' ss ss' i n l zero q g a e =
    let same : s ≡ q = cc in absurd (n (ap (λ x. x.client_idx) same ∙ e))
other_client now s s' ss ss' i n l (suc k) q g a e = l k q g a e

right_false : (a b : Bool) → (a && b) ≡ false → a ≡ true → b ≡ false
right_false true b e h = e
right_false false b e h = absurd cc

in_time :
    (now : DateStamp) (s : Pending) (ss ss' : List Pending) (i : ℕ)
    → (s.active && expired now s) ≡ false
    → LeftAlone now ss ss' i
    → LeftAlone now (s ∷ ss) (s ∷ ss') i
in_time now s ss ss' i still l zero q g a e =
    let same : s ≡ q = cc in
    let a' : s.active ≡ true = ap (λ x. x.active) same ∙ a in
    (g, ap (λ x. expired now x) (sym same) ∙ right_false s.active (expired now s) still a')
in_time now s ss ss' i still l (suc k) q g a e = l k q g a e

-- The sweep over the slots: who still waits afterwards waited before, and each slot of that client
-- was left alone because its time is not up.
pub sweep-LeftAlone :
    (now : DateStamp) (ss : List Pending) (cs : List Client) (i : ℕ) (c : Client)
    → Connected cs
    → get_elem? (sweep now ss cs).clients i ≡ some c
    → c.arexx_pending ≡ true
    → (get_elem? cs i ≡ some c) × LeftAlone now ss (sweep now ss cs).slots i
unfolding sweep
sweep-LeftAlone now [] cs i c live h w = (h, λ k s g a e. absurd cc)
sweep-LeftAlone now (s ∷ ss) cs i c live h w = elim (Bool-cases (s.active && expired now s)) [
  | inl up ↦
      let (waited, l) =
        sweep-LeftAlone now ss (answered s.client_idx cs) i c
          (answered-Connected s.client_idx cs live) (rw up at h) w in
      let (before, other) = answered-waits s.client_idx cs i c live waited w in
      (
        before,
        rw up (
            other_client now s (orphaned s) ss (sweep now ss (answered s.client_idx cs)).slots i
              other l),
      )
  | inr still ↦
      let (waited, l) = sweep-LeftAlone now ss cs i c live (rw still at h) w in
      (waited, rw still (in_time now s ss (sweep now ss cs).slots i still l))
]
