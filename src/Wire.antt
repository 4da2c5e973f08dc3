-- ===== src/Wire.antt =====
-- The sending side of the protocol, daemon/net.c from `send_all` to `send_ready`: what each call
-- puts on the wire of one connection, over a socket whose `send` may take part of the bytes or fail.
pub mod Sends
pub mod Frames
pub mod Client
pub mod RoundTrip
mod Tests
use amigactl.Prelude.{
  ℕ, zero, suc, ◌+◌, ◌-◌, ◌≤◌, Bool, true, false, List, [], ◌∷◌, ◌++◌, Option, none, some, ◌==◌,
  if◌then◌else◌, length, take, drop, codes, decimal, lf, dot,
}

-- The network's choices: for the number of the call and `len`, the count of bytes that
-- `send (fd, buf, len, 0)` takes, with 0 for a result that is not positive. It takes at most `len`
-- bytes, whatever the count says.
pub record Network : Type 0 where
  pub accepts : ℕ → ℕ → ℕ

-- A connection: the calls of `send` so far and the bytes that they took.
pub record Socket : Type 0 where
  pub calls : ℕ
  pub sent : List ℕ

module _ (net : Network) where
  -- One call of `send`, which returns the count.
  unfoldable pub send : Socket → List ℕ → ℕ × Socket
  send s buf =
      let n = net.accepts s.calls (length buf) in
      (n, record { calls = s.calls + 1; sent = s.sent ++ take n buf })

  -- `send_all`: the loop on partial sends, with the bytes that are left. True is the result 0, and
  -- `none` means that the fuel ran out.
  unfoldable pub send_loop : ℕ → Socket → List ℕ → Option (Bool × Socket)
  send_loop zero s buf = none
  send_loop (suc fuel) s [] = some (true, s)
  send_loop (suc fuel) s (b ∷ buf) =
      let r = send s (b ∷ buf) in
      elim r.0 [ zero ↦ some (false, r.1) | suc n ↦ send_loop fuel r.1 (drop n buf) ]

  unfoldable pub send_all : List ℕ → Socket → Option (Bool × Socket)
  send_all buf s = send_loop (suc (length buf)) s buf

  -- `if (first < 0) return -1; return second`
  infixl 5 ◌then_send◌
  unfoldable pub ◌then_send◌ :
      (Socket → Option (Bool × Socket))
      → (Socket → Option (Bool × Socket))
      → Socket
      → Option (Bool × Socket)
  ◌then_send◌ m k s = elim (m s) [
    | none ↦ none
    | some (sent, s') ↦ elim sent [ true ↦ k s' | false ↦ some (false, s') ]
  ]

  unfoldable pub send_line : List ℕ → Socket → Option (Bool × Socket)
  send_line [] = send_all (lf ∷ [])
  send_line (b ∷ line) = send_all (b ∷ line) then_send send_all (lf ∷ [])

  unfoldable pub send_ok : Option (List ℕ) → Socket → Option (Bool × Socket)
  send_ok none = send_all (codes "OK" ++ (lf ∷ []))
  send_ok (some info) = send_all (codes "OK ") then_send send_all info then_send send_all (lf ∷ [])

  unfoldable pub send_error : ℕ → List ℕ → Socket → Option (Bool × Socket)
  send_error err_code message =
      send_all (codes "ERR " ++ (decimal err_code ++ codes " "))
      then_send send_all message
      then_send send_all (lf ∷ [])

  unfoldable pub send_banner : Socket → Option (Bool × Socket)
  send_banner = send_line (codes "AMIGACTL 0.8.2")

  -- A payload line that starts with a dot gets one more.
  unfoldable pub send_payload_line : List ℕ → Socket → Option (Bool × Socket)
  send_payload_line [] = send_line []
  send_payload_line (b ∷ line) =
      if b == dot then send_all (dot ∷ []) then_send send_line (b ∷ line) else send_line (b ∷ line)

  unfoldable pub send_sentinel : Socket → Option (Bool × Socket)
  send_sentinel = send_all (dot ∷ lf ∷ [])

  unfoldable pub send_data_chunk : List ℕ → Socket → Option (Bool × Socket)
  send_data_chunk bytes =
      send_all (codes "DATA " ++ (decimal (length bytes) ++ (lf ∷ []))) then_send send_all bytes

  unfoldable pub send_end : Socket → Option (Bool × Socket)
  send_end = send_all (codes "END" ++ (lf ∷ []))

  unfoldable pub send_ready : Socket → Option (Bool × Socket)
  send_ready = send_all (codes "READY" ++ (lf ∷ []))
