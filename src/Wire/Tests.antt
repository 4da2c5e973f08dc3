-- ===== src/Wire/Tests.antt =====
-- Runs of the sending side and of the client, and the theorems at concrete inputs.
use amigactl.Prelude.{
  true, false, [], ◌∷◌, ◌++◌, some, ◌≡◌, refl, ◌==◌, if◌then◌else◌, codes, map, decimal,
}
use amigactl.Inbound.{split_line, strip_cr}
use amigactl.Wire.{
  Network, Socket, send_payload_line, send_line, send_all, send_loop, send, ◌then_send◌,
}
use amigactl.Wire.Sends.{Sent}
use amigactl.Wire.Frames.{ok, error, payload, sentinel, text, texts, send_frame, send_frame-Sent}
use amigactl.Wire.Client.{done, read_response}
use amigactl.Wire.RoundTrip.{AreLines, info_of, read_response-ok, read_response-error}

-- Two bytes a call, and the fourth call fails.
abbrev slow : Network
slow = record { accepts = λ call len. if call == 3 then 0 else 2 }

abbrev fresh : Socket
fresh = record { calls = 0; sent = [] }

slow_payload :
    send_frame slow (payload (codes ".ab")) fresh
    ≡ some (false, record { calls = 4; sent = codes "..ab" })
unfolding send_frame send_payload_line send_line send_all send_loop send ◌then_send◌
slow_payload = refl

send_frame-Sent_example :
    Sent fresh (text (payload (codes ".a"))) (send_frame slow (payload (codes ".a")) fresh)
send_frame-Sent_example = send_frame-Sent slow (payload (codes ".a")) fresh

dots-AreLines : AreLines (codes ".a" ∷ codes "." ∷ [])
unfolding split_line strip_cr
dots-AreLines = (
  record { no_newline = refl; no_return = refl },
  (record { no_newline = refl; no_return = refl }, tt),
)

read_response-ok_example :
    read_response (
      texts (ok (some (codes "hi")) ∷ map payload (codes ".a" ∷ codes "." ∷ []) ++ (sentinel ∷ []))
      ++ codes "next")
    ≡ done
        (record { is_ok = true; info = codes "hi"; payload = codes ".a" ∷ codes "." ∷ [] })
        (codes "next")
unfolding info_of split_line strip_cr
read_response-ok_example =
    read_response-ok (some (codes "hi")) (codes ".a" ∷ codes "." ∷ []) (codes "next")
      record { no_newline = refl; no_return = refl } dots-AreLines

read_response-error_example :
    read_response (texts (error 100 (codes "Missing command") ∷ sentinel ∷ []) ++ [])
    ≡ done
        (record {
          is_ok = false;
          info = decimal 100 ++ (codes " " ++ codes "Missing command");
          payload = [];
        })
        []
unfolding split_line strip_cr
read_response-error_example =
    read_response-error 100 (codes "Missing command") []
      record { no_newline = refl; no_return = refl }
