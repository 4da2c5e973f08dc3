-- ===== src/Wire/Client.antt =====
-- The receiving end of a text response: `read_line` and `read_response` of the Python client,
-- client/amigactl/protocol.py, on the bytes that the connection still delivers.
use amigactl.Prelude.{
  ℕ, zero, suc, Bool, true, false, List, [], ◌∷◌, none, some, ◌==◌, ◌&&◌, ◌||◌, if◌then◌else◌,
  length, drop, codes, dot, beq,
}
use amigactl.Inbound.{split_line, strip_cr}

-- `ProtocolError`, or what was read and the bytes behind it.
pub data Reading (A : Type 0) : Type 0 where
  done : A → List ℕ → Reading A
  protocol_error : Reading A
  out_of_fuel : Reading A

-- The status word (true for OK), the info text, and the payload lines.
pub record Response : Type 0 where
  pub is_ok : Bool
  pub info : List ℕ
  pub payload : List (List ℕ)

-- `line.startswith (prefix)`
unfoldable pub starts_with : List ℕ → List ℕ → Bool
starts_with line [] = true
starts_with [] (b ∷ start) = false
starts_with (a ∷ line) (b ∷ start) = (a == b) && starts_with line start

-- The bytes up to the newline, without a carriage return at their end.
unfoldable pub read_line : List ℕ → Reading (List ℕ)
read_line stream = elim (split_line stream) [
  | none ↦ protocol_error
  | some (line, rest) ↦ done (strip_cr line) rest
]

-- A line that starts with two dots loses one.
unfoldable pub unstuff : List ℕ → List ℕ
unfolding starts_with
unstuff line = if starts_with line (dot ∷ dot ∷ []) then drop 1 line else line

-- The loop to the sentinel, with the lines behind the current one read first.
unfoldable pub read_payload : ℕ → List ℕ → Reading (List (List ℕ))
read_payload zero stream = out_of_fuel
read_payload (suc fuel) stream = elim (read_line stream) [
  | protocol_error ↦ protocol_error
  | out_of_fuel ↦ out_of_fuel
  | done line rest ↦ if beq line (dot ∷ []) then done [] rest else elim (read_payload fuel rest) [
    | done lines rest' ↦ done (unstuff line ∷ lines) rest'
    | protocol_error ↦ protocol_error
    | out_of_fuel ↦ out_of_fuel
  ]
]

unfoldable pub with_payload : Bool → List ℕ → Reading (List (List ℕ)) → Reading Response
with_payload status info (done lines rest) =
    done (record { is_ok = status; info = info; payload = lines }) rest
with_payload status info protocol_error = protocol_error
with_payload status info out_of_fuel = out_of_fuel

unfoldable pub read_response : List ℕ → Reading Response
unfolding starts_with beq with_payload
read_response stream = elim (read_line stream) [
  | protocol_error ↦ protocol_error
  | out_of_fuel ↦ out_of_fuel
  | done status rest ↦
      if beq status (codes "OK") || starts_with status (codes "OK ")
      then with_payload true (drop 3 status) (read_payload (suc (length rest)) rest)
      else if beq status (codes "ERR") || starts_with status (codes "ERR ")
      then with_payload false (drop 4 status) (read_payload (suc (length rest)) rest)
      else protocol_error
]
