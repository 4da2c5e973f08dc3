-- ===== src/File/Upload.antt =====
-- The transfer of WRITE and APPEND, daemon/file.c: a client's DATA and END lines, received into a
-- file.
pub mod Stream
pub mod Rounds
pub mod Storage
pub mod Client
pub mod Bounds
use amigactl.Prelude.{
  ℕ, zero, suc, ◌+◌, ◌-◌, ◌*◌, ◌%◌, ◌^◌, Bool, true, false, not, ◌&&◌, ◌||◌, List, [], ◌∷◌, ◌++◌,
  Option, none, some, ◌==◌, ltb, leb, if◌then◌else◌, length, take, drop, codes, String, decimal,
  c_str, is_blank, beq,
}
use amigactl.Prelude.Strtol.{strtoul}
use amigactl.Effects.{Effect, reply, refuse, err_syntax, err_io, err_internal}
use amigactl.Wire.Frames.{Frame, ok, error, ready, sentinel}
use amigactl.Wire.Client.{starts_with}
use amigactl.Inbound.{clip, max_cmd_len}
use amigactl.Receive.{Incoming, Conn, recv_line_blocking, recv_exact_from_client}
use amigactl.Receive.Pending.{pending}
use amigactl.File.Dos.{Dos, send_dos_error}
use amigactl.File.Arguments.{Header, end_line, data_line, malformed, header}

module _ (net : Incoming) (dos : Dos) (path : List ℕ) (over : ℕ → Bool) where
  -- The transfer so far: `total_received`, the connection and the disk.
  pub record Progress : Type 0 where
    pub total : ℕ
    pub conn : Conn
    pub disk : dos.Disk

  -- What comes of a transfer: true if END was reached; `none` if the fuel ran out.
  abbrev pub Transfer : Type 0
  Transfer = Option (Bool × Progress)

  unfoldable pub after_write : (Progress → Transfer) → Progress → ℕ → Bool × dos.Disk → Transfer
  after_write again t n (false, d) = some (false, record t { disk = d })
  after_write again t n (true, d) =
      let t' : Progress = record t { total = (t.total + n) % 2 ^ 32; disk = d } in
      if over t'.total then some (false, t') else again t'

  unfoldable pub after_data :
      (Progress → Transfer) → Progress → ℕ → Option (Option (List ℕ) × Conn) → Transfer
  unfolding after_write
  after_data again t n none = none
  after_data again t n (some (none, c)) = some (false, record t { conn = c })
  after_data again t n (some (some bytes, c)) =
      after_write again (record t { conn = c }) n (dos.write path bytes t.disk)

  unfoldable pub after_header : (Progress → Transfer) → Progress → Header → Transfer
  unfolding after_data
  after_header again t end_line = some (true, t)
  after_header again t malformed = some (false, t)
  after_header again t (data_line n) = after_data again t n (recv_exact_from_client net n t.conn)

  unfoldable pub after_line :
      (Progress → Transfer) → Progress → Option (Option (List ℕ) × Conn) → Transfer
  unfolding after_header
  after_line again t none = none
  after_line again t (some (none, c)) = some (false, record t { conn = c })
  after_line again t (some (some line, c)) =
      after_header again (record t { conn = c }) (header line)

  -- The loop on DATA and END lines; `over` is the test of the bytes received at the end of a round.
  unfoldable pub receive : ℕ → Progress → Transfer
  unfolding after_line
  receive zero t = none
  receive (suc fuel) t = after_line (receive fuel) t (recv_line_blocking net 128 t.conn)

-- Whether the sends of a handler have an OK among them.
unfoldable pub says_ok : List Effect → Bool
says_ok [] = false
says_ok (reply (ok info) ∷ output) = true
says_ok (_ ∷ output) = says_ok output

-- What a handler leaves: its sends, whether the client stays connected, the connection, the disk.
pub record Reply (dos : Dos) : Type 0 where
  pub output : List Effect
  pub connected : Bool
  pub conn : Conn
  pub disk : dos.Disk

abbrev pub never : ℕ → Bool
never total = false

abbrev pub received : ℕ → List Effect
received total = reply (ok (some (decimal total))) ∷ reply sentinel ∷ []

module _ (dos : Dos) where
  -- `send_*`, and `return 0`.
  abbrev pub reply_with : List Effect → Conn → dos.Disk → Reply dos
  reply_with output c d = record { output = output; connected = true; conn = c; disk = d }

  abbrev pub disconnect : Conn → dos.Disk → Reply dos
  disconnect c d = record { output = []; connected = false; conn = c; disk = d }
