-- ===== src/Arexx/Steps.antt =====
-- The events that change the bridge, and what every sequence of them keeps.
use amigactl.Prelude.{
  ℕ, Bool, true, false, not, ◌&&◌, ◌||◌, List, [], ◌∷◌, Option, none, some, ◌≡◌, ◌≢◌, refl, ap, sym,
  ◌∙◌, arith, ◌==◌, ==_iff, if_intro, get_elem?, modify, get_elem?-modify_ne,
  get_elem?-modify_cases, get_elem?-map-some, replicate, get_elem?-replicate, Bool-cases,
  Option-cases, inl, inr, leb, length, word, after_word, skip_blanks,
}
use amigactl.Effects.{Effect}
use amigactl.Arexx.{
  DateStamp, Pending, Client, Bridge, System, first_slot, free_slot, send_message, cmd_arexx,
  RexxReply, cleared, client_of, reply_in, handle_reply, arexx_handle_replies, expired,
  arexx_check_timeouts, is_client, orphan, disconnect_client, free_client, handle_accept, closed,
  opened, initial_bridge, idle_client, max_clients,
}
use amigactl.Arexx.Waiting.{Awaited, answered-waits, answered-Connected, sweep-LeftAlone}
use amigactl.Arexx.Served.{Served, slot_at, Awaited-kept, record_pending-Served}

send_message-Served :
    (sys : System) (idx : ℕ) (port : List ℕ) (b : Bridge) {c : Client}
    → Served b
    → get_elem? b.clients idx ≡ some c
    → c.connected ≡ true
    → (r : Option ℕ) → free_slot b.slots ≡ r
    → Served (send_message sys idx port b r).0
unfolding send_message free_slot
send_message-Served sys idx port b v g live none e = v
send_message-Served sys idx port b v g live (some k) e =
    let (s, h, test) = slot_at (λ s. not s.active) b.slots k e in
    let free : s.active ≡ false = ground arith in
    if_intro {A = Bridge × List Effect} (λ r. Served r.0) (sys.new_message == 0) _ _ (λ z. v)
      (λ z.
        if_intro {A = Bridge × List Effect} (λ r. Served r.0) (not sys.has_argstring) _ _ (λ z. v)
          (λ z.
            if_intro {A = Bridge × List Effect} (λ r. Served r.0) (not (sys.has_port port)) _ _
              (λ z. v) (λ z. record_pending-Served sys idx k b v h free g live)))

cmd_arexx-Served :
    (sys : System) (idx : ℕ) (args : List ℕ) (b : Bridge) {c : Client}
    → Served b
    → get_elem? b.clients idx ≡ some c
    → c.connected ≡ true
    → Served (cmd_arexx sys idx args b).0
unfolding cmd_arexx
cmd_arexx-Served sys idx args b v g live =
    if_intro {A = Bridge × List Effect} (λ r. Served r.0)
      ((length (word args) == 0) || leb 128 (length (word args))) _ _ (λ z. v)
      (λ z.
        if_intro {A = Bridge × List Effect} (λ r. Served r.0)
          (length (skip_blanks (after_word args)) == 0) _ _ (λ z. v)
          (λ z.
            if_intro {A = Bridge × List Effect} (λ r. Served r.0) (not sys.has_library) _ _ (λ z. v)
              (λ z. send_message-Served sys idx (word args) b v g live (free_slot b.slots) refl)))

pub client_of-there :
    (ss : List Pending) (k : ℕ) {s : Pending}
    → get_elem? ss k ≡ some s
    → client_of ss k ≡ s.client_idx
unfolding client_of
client_of-there ss k h = rw (h, client_of) refl

reply_in-Served : (r : RexxReply) (b : Bridge) (k : Option ℕ) → Served b → Served (reply_in r b k).0
unfolding reply_in
reply_in-Served r b none v = v
reply_in-Served r b (some k) v = record {
  connected = answered-Connected (client_of b.slots k) b.clients v.connected;
  awaited = λ i c h w.
      let (before, other) = answered-waits (client_of b.slots k) b.clients i c v.connected h w in
      let a = v.awaited i c before w in
      let apart : a.slot ≢ k = λ e.
        other
          (client_of-there b.slots k (ap (λ m. get_elem? b.slots m) (sym e) ∙ a.there) ∙ a.asker) in
      Awaited-kept a (get_elem?-modify_ne b.slots k a.slot cleared apart ∙ a.there);
}

handle_replies-Served :
    (rs : List RexxReply) (b : Bridge) → Served b → Served (arexx_handle_replies rs b).0
unfolding arexx_handle_replies handle_reply
handle_replies-Served [] b v = v
handle_replies-Served (r ∷ rs) b v =
    handle_replies-Served rs (handle_reply r b).0
      (reply_in-Served r b (first_slot (λ s. s.active && (s.msg == r.message)) b.slots 0) v)

check_timeouts-Served :
    (now : DateStamp) (b : Bridge) → Served b → Served (arexx_check_timeouts now b).0
unfolding arexx_check_timeouts
check_timeouts-Served now b v = record {
  connected =
      λ i c h w. v.connected i c ((sweep-LeftAlone now b.slots b.clients i c v.connected h w).0) w;
  awaited = λ i c h w.
      let (before, alone) = sweep-LeftAlone now b.slots b.clients i c v.connected h w in
      let a = v.awaited i c before w in
      Awaited-kept a ((alone a.slot a.pending a.there a.active a.asker).0);
}

is_client-same : (r : Option ℕ) (idx : ℕ) → is_client r idx ≡ true → r ≡ some idx
unfolding is_client
is_client-same none idx e = absurd cc
is_client-same (some i) idx e = ap (λ m. some m) ((==_iff i idx).0 e)

right_true : (a b : Bool) → (a && b) ≡ true → b ≡ true
right_true true b e = e
right_true false b e = absurd cc

orphan-other : (idx i : ℕ) (s : Pending) → s.client_idx ≡ some i → i ≢ idx → orphan idx s ≡ s
unfolding orphan
orphan-other idx i s e n = elim (Bool-cases (s.active && is_client s.client_idx idx)) [
  | inl t ↦
      let own : some i ≡ some idx =
        sym e
        ∙ is_client-same s.client_idx idx (right_true s.active (is_client s.client_idx idx) t) in
      absurd (n cc)
  | inr f ↦ rw f refl
]

disconnect_client-Served : (idx : ℕ) (b : Bridge) → Served b → Served (disconnect_client idx b)
unfolding disconnect_client
disconnect_client-Served idx b v = record {
  connected = λ i c h w. elim (get_elem?-modify_cases b.clients idx i closed h) [
    | inl (e, x, g, same) ↦
        let off : c.arexx_pending ≡ false = ap (λ y. y.arexx_pending) same in absurd cc
    | inr (n, g) ↦ v.connected i c g w
  ];
  awaited = λ i c h w. elim (get_elem?-modify_cases b.clients idx i closed h) [
    | inl (e, x, g, same) ↦
        let off : c.arexx_pending ≡ false = ap (λ y. y.arexx_pending) same in absurd cc
    | inr (n, g) ↦
        let a = v.awaited i c g w in
        Awaited-kept a (
          get_elem?-map-some (orphan idx) b.slots a.slot a.there
          ∙ ap (λ m. some m) (orphan-other idx i a.pending a.asker n))
  ];
}

accept_into-Served :
    (k : ℕ) (b : Bridge) → Served b → Served (record b { clients = modify b.clients k opened })
accept_into-Served k b v = record {
  connected = λ i c h w. elim (get_elem?-modify_cases b.clients k i opened h) [
    | inl (e, x, g, same) ↦
        let off : c.arexx_pending ≡ false = ap (λ y. y.arexx_pending) same in absurd cc
    | inr (n, g) ↦ v.connected i c g w
  ];
  awaited = λ i c h w. elim (get_elem?-modify_cases b.clients k i opened h) [
    | inl (e, x, g, same) ↦
        let off : c.arexx_pending ≡ false = ap (λ y. y.arexx_pending) same in absurd cc
    | inr (n, g) ↦ v.awaited i c g w
  ];
}

handle_accept-Served : (b : Bridge) → Served b → Served (handle_accept b)
unfolding handle_accept
handle_accept-Served b v = elim (Option-cases (free_client b.clients 0)) [
  | inl e ↦ rw (e, handle_accept) v
  | inr (k, e) ↦ rw (e, handle_accept) (accept_into-Served k b v)
]

pub initial_bridge-Served : Served initial_bridge
unfolding initial_bridge
initial_bridge-Served = record {
  connected = λ i c h w. absurd (waits i c h w);
  awaited = λ i c h w. absurd (waits i c h w);
}
  where
    waits :
        (i : ℕ) (c : Client)
        → get_elem? (replicate max_clients idle_client) i ≡ some c
        → c.arexx_pending ≡ true
        → ⊥
    waits i c h w =
        let off : c.arexx_pending ≡ false =
          ap (λ y. y.arexx_pending) (get_elem?-replicate max_clients i idle_client h) in
        absurd cc

-- One event: an AREXX of a client that is connected, the replies at the port, the check for
-- time-outs, a client that goes and one that comes.
pub data Step (b : Bridge) : Bridge → Type 0 where
  arexx :
      (sys : System) (idx : ℕ) (args : List ℕ) {c : Client}
      → get_elem? b.clients idx ≡ some c
      → c.connected ≡ true
      → Step b (cmd_arexx sys idx args b).0
  replies : (rs : List RexxReply) → Step b (arexx_handle_replies rs b).0
  timeouts : (now : DateStamp) → Step b (arexx_check_timeouts now b).0
  disconnect : (idx : ℕ) → Step b (disconnect_client idx b)
  accept : Step b (handle_accept b)

pub data Reach (b : Bridge) : Bridge → Type 0 where
  start : Reach b b
  next : {u w : Bridge} → Reach b u → Step u w → Reach b w

Step-Served : {b w : Bridge} → Step b w → Served b → Served w
Step-Served {b} (arexx sys idx args g live) v = cmd_arexx-Served sys idx args b v g live
Step-Served {b} (replies rs) v = handle_replies-Served rs b v
Step-Served {b} (timeouts now) v = check_timeouts-Served now b v
Step-Served {b} (disconnect idx) v = disconnect_client-Served idx b v
Step-Served {b} accept v = handle_accept-Served b v

-- If every client that waits for an ARexx reply is connected and has an active slot of its own, then
-- this is still so after every sequence of AREXX commands of connected clients, replies, time-out
-- checks, disconnects and accepts.
pub Reach-Served : {b w : Bridge} → Served b → Reach b w → Served w
Reach-Served v start = v
Reach-Served v (next r s) = Step-Served s (Reach-Served v r)

-- The slot of a client that waits is not older than the limit.
pub record InTime (now : DateStamp) (slots : List Pending) (i : ℕ) : Type 0 where
  pub own : Awaited slots i
  pub young : expired now own.pending ≡ false
