-- ===== src/Wire/Frames.antt =====
-- The calls of net.c that a handler makes, as values, and the text that each stands for.
use amigactl.Prelude.{
  ℕ, Bool, Bool-cases, inl, inr, List, [], ◌∷◌, ◌++◌, Option, none, some, ◌==◌, if◌then◌else◌,
  length, codes, decimal, lf, dot, append_assoc,
}
use amigactl.Wire.{
  Network, Socket, ◌then_send◌, send_all, send_line, send_ok, send_error, send_banner,
  send_payload_line, send_sentinel, send_data_chunk, send_end, send_ready,
}
use amigactl.Wire.Sends.{Sent, send_all-Sent, then_send-Sent}

pub data Frame : Type 0 where
  ok : Option (List ℕ) → Frame
  error : ℕ → List ℕ → Frame
  banner : Frame
  payload : List ℕ → Frame
  chunk : List ℕ → Frame
  end_data : Frame
  ready : Frame
  sentinel : Frame

unfoldable pub send_frame : Network → Frame → Socket → Option (Bool × Socket)
send_frame net (ok info) = send_ok net info
send_frame net (error err_code message) = send_error net err_code message
send_frame net banner = send_banner net
send_frame net (payload line) = send_payload_line net line
send_frame net (chunk bytes) = send_data_chunk net bytes
send_frame net end_data = send_end net
send_frame net ready = send_ready net
send_frame net sentinel = send_sentinel net

-- A payload line as it goes over the wire.
unfoldable pub stuff : List ℕ → List ℕ
stuff [] = []
stuff (b ∷ line) = if b == dot then dot ∷ b ∷ line else b ∷ line

-- The protocol's text for each frame, docs/protocol.md.
unfoldable pub text : Frame → List ℕ
unfolding stuff
text (ok none) = codes "OK" ++ (lf ∷ [])
text (ok (some info)) = codes "OK " ++ (info ++ (lf ∷ []))
text (error err_code message) =
    codes "ERR " ++ (decimal err_code ++ (codes " " ++ (message ++ (lf ∷ []))))
text banner = codes "AMIGACTL 0.8.2" ++ (lf ∷ [])
text (payload line) = stuff line ++ (lf ∷ [])
text (chunk bytes) = codes "DATA " ++ (decimal (length bytes) ++ (lf ∷ bytes))
text end_data = codes "END" ++ (lf ∷ [])
text ready = codes "READY" ++ (lf ∷ [])
text sentinel = dot ∷ lf ∷ []

unfoldable pub texts : List Frame → List ℕ
texts [] = []
texts (f ∷ fs) = text f ++ texts fs

module _ (net : Network) where
  -- Two calls of `send_all` in a row, and three.
  both :
      (t u : List ℕ) (s : Socket)
      → Sent s (t ++ u) (◌then_send◌ net (send_all net t) (send_all net u) s)
  both t u s =
      then_send-Sent net (send_all net t) (send_all net u) t u s (send_all-Sent net t s)
        (send_all-Sent net u)

  three :
      (t u v : List ℕ) (s : Socket)
      → Sent s
          (t ++ (u ++ v))
          (◌then_send◌ net (◌then_send◌ net (send_all net t) (send_all net u)) (send_all net v) s)
  three t u v s = rw (← append_assoc t u v) (
      then_send-Sent net (◌then_send◌ net (send_all net t) (send_all net u)) (send_all net v)
        (t ++ u) v s (both t u s) (send_all-Sent net v))

  send_line-Sent : (line : List ℕ) (s : Socket) → Sent s (line ++ (lf ∷ [])) (send_line net line s)
  unfolding send_line
  send_line-Sent [] s = send_all-Sent net (lf ∷ []) s
  send_line-Sent (b ∷ line) s = both (b ∷ line) (lf ∷ []) s

  send_payload_line-Sent :
      (line : List ℕ) (s : Socket) → Sent s (stuff line ++ (lf ∷ [])) (send_payload_line net line s)
  unfolding send_payload_line stuff
  send_payload_line-Sent [] s = send_line-Sent [] s
  send_payload_line-Sent (b ∷ line) s = elim (Bool-cases (b == dot)) [
    | inl e ↦ rw e (
        then_send-Sent net (send_all net (dot ∷ [])) (send_line net (b ∷ line)) (dot ∷ [])
          (b ∷ line ++ (lf ∷ [])) s (send_all-Sent net (dot ∷ []) s) (send_line-Sent (b ∷ line)))
    | inr e ↦ rw e (send_line-Sent (b ∷ line) s)
  ]

  -- Whatever part of the bytes each `send` takes, the call for a frame ends; it reports success
  -- exactly if the frame's text is on the wire as a whole, and a proper part of it is otherwise.
  pub send_frame-Sent : (f : Frame) (s : Socket) → Sent s (text f) (send_frame net f s)
  unfolding send_frame text send_ok send_error send_banner send_data_chunk send_end send_ready
      send_sentinel
  send_frame-Sent (ok none) s = send_all-Sent net _ s
  send_frame-Sent (ok (some info)) s = three (codes "OK ") info (lf ∷ []) s
  send_frame-Sent (error err_code message) s =
      rw (← append_assoc (decimal err_code) (codes " ") (message ++ (lf ∷ [])))
        (three (codes "ERR " ++ (decimal err_code ++ codes " ")) message (lf ∷ []) s)
  send_frame-Sent banner s = send_line-Sent (codes "AMIGACTL 0.8.2") s
  send_frame-Sent (payload line) s = send_payload_line-Sent line s
  send_frame-Sent (chunk bytes) s =
      rw (← append_assoc (decimal (length bytes)) (lf ∷ []) bytes)
        (both (codes "DATA " ++ (decimal (length bytes) ++ (lf ∷ []))) bytes s)
  send_frame-Sent end_data s = send_all-Sent net _ s
  send_frame-Sent ready s = send_all-Sent net _ s
  send_frame-Sent sentinel s = send_all-Sent net _ s
