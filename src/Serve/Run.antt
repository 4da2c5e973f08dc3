-- ===== src/Serve/Run.antt =====
-- What a connection promises, with no buffer and no reads in sight: lines are taken one after the
-- other from the bytes that are still to come, and a handler acts on those behind its line.
use amigactl.Prelude.{ℕ, ◌++◌, ◌≤◌, ◌<◌, Bool, true, false, List, Option, none, some, ◌≡◌, length}
use amigactl.Inbound.{recv_buf_size, split_line, strip_cr, is_empty_command}
use amigactl.Receive.{Conn}
use amigactl.Receive.Pending.{pending}
use amigactl.Serve.{Turn, Loop}

-- The state, whether the rest of a line is being dropped, and the bytes to come; or the state when
-- the client is gone.
pub data Point (S : Type 0) : Type 0 where
  open_at : S → Bool → List ℕ → Point S
  closed_at : S → Point S

unfoldable pub point_by : {S : Type 0} → Bool → Turn S → Point S
point_by true t = open_at t.state t.conn.inbox.discarding (pending t.conn)
point_by false t = closed_at t.state

unfoldable pub point_of : {S : Type 0} → Turn S → Point S
unfolding point_by
point_of t = point_by t.connected t

-- What a handler does to the state and to the bytes to come, `none` if it closes the connection.
abbrev pub Handler : Type 0 → Type 0
Handler S = S → List ℕ → List ℕ → S × Option (List ℕ)

module _ {S : Type 0} (loop : Loop S) (handler : Handler S) where
  -- One step: a blank line; a line of less than 4097 bytes, without its carriage return, that goes
  -- to its handler; 4097 bytes without a newline, which are answered once and dropped; more bytes of
  -- such a line, and its end; bytes that are no commands; something else in the daemon.
  pub data Does : Point S → Point S → Type 0 where
    blank :
        (s : S) (p line rest : List ℕ)
        → split_line p ≡ some (line, rest)
        → length line < recv_buf_size
        → is_empty_command (strip_cr line) ≡ true
        → Does (open_at s false p) (open_at s false rest)
    handled :
        (s s' : S) (p line rest rest' : List ℕ)
        → split_line p ≡ some (line, rest)
        → length line < recv_buf_size
        → is_empty_command (strip_cr line) ≡ false
        → handler s (strip_cr line) rest ≡ (s', some rest')
        → Does (open_at s false p) (open_at s' false rest')
    closes :
        (s s' : S) (p line rest : List ℕ)
        → split_line p ≡ some (line, rest)
        → length line < recv_buf_size
        → is_empty_command (strip_cr line) ≡ false
        → handler s (strip_cr line) rest ≡ (s', none)
        → Does (open_at s false p) (closed_at s')
    oversized :
        (s : S) (p rest : List ℕ) (long : List ℕ)
        → p ≡ long ++ rest
        → length long ≡ recv_buf_size
        → split_line long ≡ none
        → Does (open_at s false p) (open_at (loop.too_long s) true rest)
    dropped :
        (s : S) (part rest : List ℕ)
        → split_line part ≡ none
        → Does (open_at s true (part ++ rest)) (open_at s true rest)
    resumes :
        (s : S) (p line rest : List ℕ)
        → split_line p ≡ some (line, rest)
        → Does (open_at s true p) (open_at s false rest)
    gone :
        (s : S) (d : Bool) (p : List ℕ)
        → length p < recv_buf_size
        → Does (open_at s d p) (closed_at s)
    no_command :
        (s : S) (c : Conn)
        → loop.takes_commands s ≡ false
        → Does (open_at s c.inbox.discarding (pending c)) (point_of (loop.input s c))
    other : (s : S) (f : S → S) (d : Bool) (p : List ℕ) → Does (open_at s d p) (open_at (f s) d p)
    other_closed : (s : S) (f : S → S) → Does (closed_at s) (closed_at (f s))

  pub data Runs (x : Point S) : Point S → Type 0 where
    stays : Runs x x
    more : {y z : Point S} → Runs x y → Does y z → Runs x z

  pub append_Runs : {x y z : Point S} → Runs x y → Runs y z → Runs x z
  append_Runs r stays = r
  append_Runs r (more q d) = more (append_Runs r q) d

-- A handler of the source against its description: the same state, and if the client stays, the
-- bytes to come, with a buffer that is within its bounds.
unfoldable pub Acts : {S : Type 0} → S × Option (List ℕ) → Turn S → Type 0
Acts (s, none) t = (t.state ≡ s) × (t.connected ≡ false)
Acts (s, some rest) t =
    (t.state ≡ s)
    × (t.connected ≡ true)
    × (pending t.conn ≡ rest)
    × (length t.conn.inbox.buf ≤ recv_buf_size)
    × (t.conn.inbox.discarding ≡ false)

unfoldable pub NoMore : {S : Type 0} → List ℕ → S × Option (List ℕ) → Type 0
NoMore p (s, none) = Unit
NoMore p (s, some rest) = length rest ≤ length p

-- Between two events the buffer has room.
abbrev pub HasRoom : {S : Type 0} → Turn S → Type 0
HasRoom t = t.connected ≡ true → length t.conn.inbox.buf < recv_buf_size

-- Behind a call of `handle_client` the buffer holds no line, too: none was left undone.
abbrev pub IsIdle : {S : Type 0} → Turn S → Type 0
IsIdle t =
    t.connected ≡ true
    → (length t.conn.inbox.buf < recv_buf_size) × (split_line t.conn.inbox.buf ≡ none)

-- What the loop relies on: the handlers read from the connection only as `recv_line_blocking` and
-- `recv_exact_from_client` do, and the input of the other modes leaves room in the buffer.
pub record Reads {S : Type 0} (loop : Loop S) (handler : Handler S) : Type 0 where
  pub acts :
      (s : S) (cmd : List ℕ) (c : Conn)
      → length c.inbox.buf ≤ recv_buf_size
      → c.inbox.discarding ≡ false
      → Acts (handler s cmd (pending c)) (loop.dispatch s cmd c)
  pub no_more : (s : S) (cmd p : List ℕ) → NoMore p (handler s cmd p)
  pub room : (s : S) (c : Conn) → length c.inbox.buf < recv_buf_size → HasRoom (loop.input s c)
