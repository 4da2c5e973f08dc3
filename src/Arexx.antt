-- ===== src/Arexx.antt =====
-- The ARexx bridge of daemon/arexx.c: the slots for messages that wait for their reply, and the
-- clients that wait with them. The places where daemon/main.c accepts and drops a client are here
-- as far as they touch these.
pub mod Waiting
pub mod Served
pub mod Steps
pub mod Answers
mod Tests
use amigactl.Prelude.{
  ℕ, zero, suc, ◌+◌, ◌/◌, Bool, true, false, not, ◌&&◌, ◌||◌, List, [], ◌∷◌, ◌++◌, Option, none,
  some, map, ◌==◌, leb, if◌then◌else◌, get_elem?, set, modify, replicate, length, take, codes, word,
  after_word, skip_blanks,
}
use amigactl.Prelude.Int.{ℤ, pos, negsuc, ◌+ℤ◌, ◌-ℤ◌, ◌*ℤ◌, sub_ℕ, ltb_ℤ}
use amigactl.Effects.{Effect, reply, refuse, err_syntax, err_not_found, err_timeout, err_internal}
use amigactl.Wire.Frames.{Frame, ok, error, chunk, end_data, sentinel}
use amigactl.Procs.Commands.{decimal_int}

-- `struct DateStamp`: days, minutes of the day, and 50ths of a second of the minute.
pub record DateStamp : Type 0 where
  pub days : ℕ
  pub minute : ℕ
  pub tick : ℕ

-- `struct arexx_pending`. The client -1, an orphan, is `none`; a message is an address.
pub record Pending : Type 0 where
  pub active : Bool
  pub client_idx : Option ℕ
  pub epoch : ℕ
  pub msg : ℕ
  pub send_time : DateStamp

-- The part of `struct client` that matters: whether `fd` is open, and `arexx_pending`.
pub record Client : Type 0 where
  pub connected : Bool
  pub arexx_pending : Bool

pub record Bridge : Type 0 where
  pub clients : List Client
  pub slots : List Pending
  pub arexx_epoch : ℕ

-- A daemon that starts: no client, no message.
abbrev pub idle_client : Client
idle_client = record { connected = false; arexx_pending = false }

abbrev pub free_pending : Pending
free_pending = record {
  active = false;
  client_idx = some 0;
  epoch = 0;
  msg = 0;
  send_time = record { days = 0; minute = 0; tick = 0 };
}

abbrev pub max_clients : ℕ
max_clients = 8

unfoldable pub initial_bridge : Bridge
initial_bridge = record {
  clients = replicate max_clients idle_client;
  slots = replicate max_clients free_pending;
  arexx_epoch = 0;
}

-- The answers of the system during one AREXX: whether the library is open, the new message (0 for
-- none), whether there is memory for its argument, whether a port of a name exists, and the time.
pub record System : Type 0 where
  pub has_library : Bool
  pub new_message : ℕ
  pub has_argstring : Bool
  pub has_port : List ℕ → Bool
  pub now : DateStamp

-- The first slot that passes a test, from the slot number `i` on.
unfoldable pub first_slot : (Pending → Bool) → List Pending → ℕ → Option ℕ
first_slot test [] i = none
first_slot test (s ∷ ss) i = if test s then some i else first_slot test ss (i + 1)

unfoldable pub free_slot : List Pending → Option ℕ
free_slot slots = first_slot (λ s. not s.active) slots 0

unfoldable pub wait_for_reply : Client → Client
wait_for_reply c = record c { arexx_pending = true }

-- The message is on its way; nothing is sent to the client yet.
unfoldable pub record_pending : System → ℕ → ℕ → Bridge → Bridge
record_pending sys client_idx slot b = record {
  clients = modify b.clients client_idx wait_for_reply;
  slots = set b.slots slot (record {
    active = true;
    client_idx = some client_idx;
    epoch = b.arexx_epoch;
    msg = sys.new_message;
    send_time = sys.now;
  });
  arexx_epoch = b.arexx_epoch + 1;
}

abbrev usage : List Effect
usage = refuse err_syntax "Usage: AREXX <port> <command>"

-- From the search for a free slot on.
unfoldable pub send_message : System → ℕ → List ℕ → Bridge → Option ℕ → Bridge × List Effect
send_message sys client_idx port b none = (b, refuse err_internal "ARexx busy")
send_message sys client_idx port b (some slot) =
    if sys.new_message == 0
    then (b, refuse err_internal "Failed to create ARexx message")
    else if not sys.has_argstring
    then (b, refuse err_internal "Failed to create ARexx argstring")
    else if not (sys.has_port port)
    then (b, refuse err_not_found "ARexx port not found")
    else (record_pending sys client_idx slot b, [])

unfoldable pub cmd_arexx : System → ℕ → List ℕ → Bridge → Bridge × List Effect
cmd_arexx sys client_idx args b =
    let port = word args in
    if (length port == 0) || leb 128 (length port)
    then (b, usage)
    else if length (skip_blanks (after_word args)) == 0
    then (b, usage)
    else if not sys.has_library
    then (b, refuse err_internal "ARexx not available")
    else send_message sys client_idx port b (free_slot b.slots)

-- A reply at the port: its message, `rm_Result1`, and the result string, if there is one.
pub record RexxReply : Type 0 where
  pub message : ℕ
  pub rc : ℤ
  pub result : List ℕ

abbrev pub Output : Type 0
Output = List (ℕ × Frame)

unfoldable pub is_waiting : Client → Bool
is_waiting c = c.connected && c.arexx_pending

-- A client that is connected and waits gets the frames, and waits no longer.
unfoldable pub settle : Client → Client
unfolding is_waiting
settle c = if is_waiting c then record c { arexx_pending = false } else c

unfoldable pub to_client : ℕ → List Frame → Output
to_client i [] = []
to_client i (f ∷ frames) = (i, f) ∷ to_client i frames

unfoldable pub told : List Client → ℕ → List Frame → Output
unfolding is_waiting
told clients i frames = elim (get_elem? clients i) [
  | none ↦ []
  | some c ↦ if is_waiting c then to_client i frames else []
]

-- What the client of a slot gets, and what becomes of the clients.
unfoldable pub answered : Option ℕ → List Client → List Client
answered none clients = clients
answered (some i) clients = modify clients i settle

unfoldable pub answer : Option ℕ → List Client → List Frame → Output
answer none clients frames = []
answer (some i) clients frames = told clients i frames

-- The response to a reply; `result_buf` holds 4096 bytes, and the string counts for the return
-- code 0 only.
unfoldable pub result_frames : ℤ → List ℕ → List Frame
result_frames (pos zero) (c ∷ s) = chunk (take 4096 (c ∷ s)) ∷ []
result_frames rc s = []

unfoldable pub response : RexxReply → List Frame
response r =
    ok (some (codes "rc=" ++ decimal_int r.rc))
    ∷ (result_frames r.rc r.result ++ (end_data ∷ sentinel ∷ []))

unfoldable pub cleared : Pending → Pending
cleared s = record s { active = false; msg = 0 }

unfoldable pub client_of : List Pending → ℕ → Option ℕ
client_of slots k = elim (get_elem? slots k) [ none ↦ none | some s ↦ s.client_idx ]

unfoldable pub reply_in : RexxReply → Bridge → Option ℕ → Bridge × Output
reply_in r b none = (b, [])
reply_in r b (some k) = (
  record b { slots = modify b.slots k cleared; clients = answered (client_of b.slots k) b.clients },
  answer (client_of b.slots k) b.clients (response r),
)

-- One turn of the loop of `arexx_handle_replies`, and the loop over the replies at the port.
unfoldable pub handle_reply : RexxReply → Bridge → Bridge × Output
handle_reply r b = reply_in r b (first_slot (λ s. s.active && (s.msg == r.message)) b.slots 0)

unfoldable pub arexx_handle_replies : List RexxReply → Bridge → Bridge × Output
arexx_handle_replies [] b = (b, [])
arexx_handle_replies (r ∷ rs) b =
    let one = handle_reply r b in
    let rest = arexx_handle_replies rs one.0 in (rest.0, one.1 ++ rest.1)

-- C's division by 50, towards zero.
unfoldable pub seconds : ℤ → ℤ
seconds (pos n) = pos (n / 50)
seconds (negsuc n) = sub_ℕ 0 (suc n / 50)

-- The LONG of the source; within 32 bits as long as the dates are less than 24800 days apart.
unfoldable pub elapsed : DateStamp → DateStamp → ℤ
elapsed now then_at =
    ((pos now.days -ℤ pos then_at.days) *ℤ pos 86400)
    +ℤ ((pos now.minute -ℤ pos then_at.minute) *ℤ pos 60)
    +ℤ seconds (pos now.tick -ℤ pos then_at.tick)

abbrev pub arexx_timeout_secs : ℤ
arexx_timeout_secs = pos 30

unfoldable pub expired : DateStamp → Pending → Bool
expired now s = ltb_ℤ arexx_timeout_secs (elapsed now s.send_time)

unfoldable pub orphaned : Pending → Pending
orphaned s = record s { client_idx = none }

abbrev pub timeout_frames : List Frame
timeout_frames = error err_timeout (codes "ARexx command timed out") ∷ sentinel ∷ []

pub record Swept : Type 0 where
  pub slots : List Pending
  pub clients : List Client
  pub output : Output

-- The loop of `arexx_check_timeouts`, the clients handed from slot to slot.
unfoldable pub sweep : DateStamp → List Pending → List Client → Swept
sweep now [] clients = record { slots = []; clients = clients; output = [] }
sweep now (s ∷ ss) clients =
    let kept = sweep now ss clients in
    let rest = sweep now ss (answered s.client_idx clients) in
    if s.active && expired now s
    then record {
      slots = orphaned s ∷ rest.slots;
      clients = rest.clients;
      output = answer s.client_idx clients timeout_frames ++ rest.output;
    }
    else record kept { slots = s ∷ kept.slots }

unfoldable pub arexx_check_timeouts : DateStamp → Bridge → Bridge × Output
arexx_check_timeouts now b =
    let r = sweep now b.slots b.clients in
    (record b { slots = r.slots; clients = r.clients }, r.output)

unfoldable pub is_client : Option ℕ → ℕ → Bool
is_client none idx = false
is_client (some i) idx = i == idx

unfoldable pub orphan : ℕ → Pending → Pending
unfolding is_client orphaned
orphan idx s = if s.active && is_client s.client_idx idx then orphaned s else s

unfoldable pub arexx_orphan_client : ℕ → Bridge → Bridge
arexx_orphan_client idx b = record b { slots = map (orphan idx) b.slots }

abbrev pub closed : Client → Client
closed c = record { connected = false; arexx_pending = false }

abbrev pub opened : Client → Client
opened c = record { connected = true; arexx_pending = false }

unfoldable pub disconnect_client : ℕ → Bridge → Bridge
unfolding arexx_orphan_client
disconnect_client idx b =
    let left = arexx_orphan_client idx b in record left { clients = modify left.clients idx closed }

-- The first client slot that is not connected.
unfoldable pub free_client : List Client → ℕ → Option ℕ
free_client [] i = none
free_client (c ∷ cs) i = if not c.connected then some i else free_client cs (i + 1)

unfoldable pub handle_accept : Bridge → Bridge
handle_accept b = elim (free_client b.clients 0) [
  | none ↦ b
  | some i ↦ record b { clients = modify b.clients i opened }
]
