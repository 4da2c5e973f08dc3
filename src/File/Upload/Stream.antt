-- ===== src/File/Upload/Stream.antt =====
-- A transfer by the bytes that the client sends, with no buffer and no network in sight: the chunks
-- that arrive whole, and how they are stored.
use amigactl.Prelude.{
  ℕ, zero, suc, ◌+◌, ◌≤◌, ◌<◌, ◌%◌, ◌^◌, Bool, true, false, List, [], ◌∷◌, Option, none, some, ◌≡◌,
  if◌then◌else◌, length, ◌&&◌,
}
use amigactl.Inbound.{recv_buf_size}
use amigactl.Receive.{Incoming, Conn}
use amigactl.Receive.Pending.{pending, next_line, next_bytes}
use amigactl.File.Dos.{Dos}
use amigactl.File.Arguments.{Header, end_line, data_line, malformed, header}
use amigactl.File.Upload.{Progress}

-- The chunks, and the bytes behind END if the client gets so far.
pub record Sent : Type 0 where
  pub chunks : List (List ℕ)
  pub behind : Option (List ℕ)

abbrev pub broken : Sent
broken = record { chunks = []; behind = none }

unfoldable pub sent_bytes : (List ℕ → Sent) → Option (List ℕ × List ℕ) → Sent
sent_bytes again none = broken
sent_bytes again (some (bytes, rest)) = record {
  chunks = bytes ∷ (again rest).chunks;
  behind = (again rest).behind;
}

unfoldable pub sent_header : (List ℕ → Sent) → List ℕ → Header → Sent
unfolding sent_bytes
sent_header again rest end_line = record { chunks = []; behind = some rest }
sent_header again rest malformed = broken
sent_header again rest (data_line n) = sent_bytes again (next_bytes n rest)

unfoldable pub sent_line : (List ℕ → Sent) → Option (List ℕ × List ℕ) → Sent
unfolding sent_header
sent_line again none = broken
sent_line again (some (line, rest)) = sent_header again rest (header line)

unfoldable pub sent_by : ℕ → List ℕ → Sent
unfolding sent_line
sent_by zero p = broken
sent_by (suc fuel) p = sent_line (sent_by fuel) (next_line 128 p)

-- What the bytes `p` stand for. Every line takes at least one of them.
unfoldable pub sent : List ℕ → Sent
sent p = sent_by (suc (length p)) p

-- A chunk of 1 to 4096 bytes.
unfoldable pub IsChunk : List ℕ → Type 0
IsChunk bytes = (0 < length bytes) × (length bytes ≤ 4096)

module _ (dos : Dos) (path : List ℕ) (over : ℕ → Bool) where
  -- The chunks written one after another: whether all went well, the count and the disk.
  pub record Stored : Type 0 where
    pub success : Bool
    pub total : ℕ
    pub disk : dos.Disk

  unfoldable pub store_next : (ℕ → dos.Disk → Stored) → ℕ → ℕ → Bool × dos.Disk → Stored
  store_next again total n (false, d) = record { success = false; total = total; disk = d }
  store_next again total n (true, d) =
      let total' = (total + n) % 2 ^ 32 in
      if over total' then record { success = false; total = total'; disk = d } else again total' d

  unfoldable pub store : List (List ℕ) → ℕ → dos.Disk → Stored
  unfolding store_next
  store [] total d = record { success = true; total = total; disk = d }
  store (bytes ∷ chunks) total d =
      store_next (store chunks) total (length bytes) (dos.write path bytes d)

abbrev pub ended : Option (List ℕ) → Bool
ended none = false
ended (some rest) = true

-- The connection behind a transfer: what comes behind END is still pending.
unfoldable pub Left : Bool → Option (List ℕ) → Conn → Type 0
Left true (some rest) c = (pending c ≡ rest) × (length c.inbox.buf ≤ recv_buf_size)
Left true none c = Unit
Left false behind c = Unit

-- A transfer ends as the chunks and the end of the stream say: END is reached if the chunks were
-- all stored and END came behind them.
unfoldable pub Ends :
    (net : Incoming) (dos : Dos) (path : List ℕ) (over : ℕ → Bool)
    → Option (List ℕ)
    → Stored dos path over
    → Option (Bool × Progress net dos path over)
    → Type 0
Ends net dos path over behind r t =
    (c : Conn) × (t
      ≡ some (r.success && ended behind, record { total = r.total; conn = c; disk = r.disk }))
    × Left r.success behind c
