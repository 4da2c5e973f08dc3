-- ===== src/Tail.antt =====
-- TAIL and its polls, daemon/tail.c: what a client gets of a file that grows, shrinks or goes away.
-- The file holds the same bytes throughout one poll, and its size is their number; `Seek`, whose
-- result the code ignores, moves to the position.
pub mod Copy
pub mod Growth
mod Tests
use amigactl.Prelude.{
  ℕ, zero, suc, ◌+◌, ◌-◌, Bool, true, false, List, [], ◌∷◌, ◌++◌, Option, none, some, ◌==◌, ltb,
  leb, if◌then◌else◌, length, take, drop, min, codes, decimal,
}
use amigactl.Effects.{Effect, reply, refuse, err_io, err_syntax, err_not_found, err_internal}
use amigactl.Wire.Frames.{Frame, ok, error, chunk, sentinel}

-- `struct tail_state`.
pub record TailState : Type 0 where
  pub active : Bool
  pub path : List ℕ
  pub last_size : ℕ
  pub last_pos : ℕ

-- What the path of a TAIL command leads to: no lock (with whether the error says that something is
-- missing, and with the system's text for it), a lock that cannot be examined, a directory, or a
-- file.
pub data Entry : Type 0 where
  no_lock : Bool → List ℕ → Entry
  no_examine : Entry
  directory : Entry
  file : List ℕ → Entry

-- `path` has 512 bytes, the last of them for the NUL.
unfoldable pub start_tail : List ℕ → Entry → TailState → TailState × List Effect
start_tail args (no_lock is_missing fault) t = (
  t,
  reply (error (if is_missing then err_not_found else err_io) (codes "Lock failed" ++ fault))
      ∷ reply sentinel
      ∷ [],
)
start_tail args no_examine t = (t, refuse err_io "Cannot examine file")
start_tail args directory t = (t, refuse err_io "TAIL requires a file, not a directory")
start_tail args (file content) t = (
  record {
    active = true;
    path = take 511 args;
    last_size = length content;
    last_pos = length content;
  },
  reply (ok (some (decimal (length content)))) ∷ [],
)

unfoldable pub cmd_tail : Bool → List ℕ → Entry → TailState → TailState × List Effect
cmd_tail trace_active args entry t =
    if trace_active
    then (t, refuse err_internal "TRACE session active")
    else if length args == 0
    then (t, refuse err_syntax "Missing path argument")
    else start_tail args entry t

-- The answers of the system during one poll: for the number of the call, how many bytes `Read`
-- gives of those that it may give (0 for an error), and whether `send_data_chunk` succeeds; and
-- whether `Open` does. Whether the file can be locked and examined is in the file itself.
pub record Answers : Type 0 where
  pub reads : ℕ → ℕ
  pub delivers : ℕ → Bool
  pub opens : Bool

abbrev pub read_buf_size : ℕ
read_buf_size = 4096

pub record Copied : Type 0 where
  pub pos : ℕ
  pub chunks : List (List ℕ)
  pub success : Bool

-- The loop on chunks, from `last_pos` on; `none` means that the fuel ran out. A chunk whose send
-- fails is not counted.
unfoldable pub copy : Answers → ℕ → ℕ → List ℕ → ℕ → Option Copied
copy sys zero call content pos = none
copy sys (suc fuel) call content pos =
    let want = min read_buf_size (length content - pos) in
    let n = min (sys.reads call) want in
    let rest = copy sys fuel (call + 1) content (pos + n) in
    if leb (length content) pos
    then some (record { pos = pos; chunks = []; success = true })
    else if n == 0
    then some (record { pos = pos; chunks = []; success = true })
    else if sys.delivers call
    then (elim rest [
      | none ↦ none
      | some r ↦ some (record r { chunks = take n (drop pos content) ∷ r.chunks })
    ])
    else some (record { pos = pos; chunks = []; success = false })

unfoldable pub chunk_frames : List (List ℕ) → List Frame
chunk_frames [] = []
chunk_frames (c ∷ cs) = chunk c ∷ chunk_frames cs

pub record Polled : Type 0 where
  pub tail : TailState
  pub output : List Frame
  pub success : Bool

abbrev pub gone : TailState → Polled
gone t = record {
  tail = record t { active = false };
  output = error err_io (codes "File no longer accessible") ∷ sentinel ∷ [];
  success = true;
}

unfoldable pub after_copy : TailState → ℕ → Copied → Polled
after_copy t size r =
    if r.success
    then record {
      tail = record t { last_pos = r.pos; last_size = size };
      output = chunk_frames r.chunks;
      success = true;
    }
    else record {
      tail = record t { active = false; last_pos = r.pos };
      output = chunk_frames r.chunks;
      success = false;
    }

unfoldable pub poll_content : Answers → List ℕ → TailState → Option Polled
poll_content sys content t =
    let size = length content in
    let quiet : Polled = record {
      tail = record t { last_pos = size; last_size = size };
      output = [];
      success = true;
    } in
    if ltb size t.last_pos
    then some quiet
    else if size == t.last_pos
    then some quiet
    else if sys.opens
    then (elim (copy sys (suc size) 0 content t.last_pos) [
      | none ↦ none
      | some r ↦ some (after_copy t size r)
    ])
    else some (gone t)

-- `tail_poll_file` on what the file at the path of `t` holds, `none` for a file that is not accessible.
unfoldable pub tail_poll_file : Answers → Option (List ℕ) → TailState → Option Polled
tail_poll_file sys none t = some (gone t)
tail_poll_file sys (some content) t = poll_content sys content t
