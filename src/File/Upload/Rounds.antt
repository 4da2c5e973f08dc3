-- ===== src/File/Upload/Rounds.antt =====
-- The loop on DATA and END lines against the bytes that the client sends.
use amigactl.Prelude.{
  ℕ, zero, suc, ◌+◌, ◌≤◌, ◌<◌, ◌%◌, ◌^◌, Bool, true, false, List, Option, none, some, ◌≡◌, refl, ap,
  arith, leb, ltb, length, length-take, length-drop, Option-cases, inl, inr, Bool-cases, if_intro,
  leb→le,
}
use amigactl.Inbound.{recv_buf_size, split_line}
use amigactl.Receive.{Incoming, Conn, recv_line_blocking, recv_exact_from_client}
use amigactl.Receive.Pending.{pending, next_line, next_bytes, Reads, recv_exact_from_client-Reads}
use amigactl.Receive.Newlines.{split_line-length}
use amigactl.Receive.Lines.{recv_line_blocking-Reads}
use amigactl.File.Dos.{Dos}
use amigactl.File.Arguments.{Header, end_line, data_line, malformed, header}
use amigactl.File.Upload.{Progress, receive, after_line, after_header, after_data, after_write}
use amigactl.File.Upload.Stream.{
  Sent, sent_bytes, sent_header, sent_line, sent_by, sent, store, store_next, Left, Ends,
}

-- Fewer bytes are left, if the read succeeds.
unfoldable pub Shorter : List ℕ → Option (List ℕ × List ℕ) → Type 0
Shorter p none = Unit
Shorter p (some (got, rest)) = length rest < length p

pub next_line-Shorter : (cmd_max : ℕ) (p : List ℕ) → Shorter p (next_line cmd_max p)
unfolding next_line Shorter
next_line-Shorter cmd_max p = elim (Option-cases (split_line p)) [
  | inl e ↦ rw (e, next_line) tt
  | inr ((line, rest), e) ↦
      rw (e, next_line)
        (if_intro (Shorter p) (ltb (length line) recv_buf_size) _ _
          (λ _. omega (arith, split_line-length p line rest e)) (λ _. tt))
]

-- As many bytes as were asked for, and no more left than before.
unfoldable pub Counted : ℕ → List ℕ → Option (List ℕ × List ℕ) → Type 0
Counted n p none = Unit
Counted n p (some (got, rest)) = (length got ≡ n) × (length rest ≤ length p)

pub next_bytes-Counted : (n : ℕ) (p : List ℕ) → Counted n p (next_bytes n p)
unfolding next_bytes Counted
next_bytes-Counted n p =
    if_intro (Counted n p) (leb n (length p)) _ _
      (λ e.
        let enough : n ≤ length p = leb→le n (length p) e in
        (omega (arith, length-take n p), omega (arith, length-drop n p)))
      (λ _. tt)

module _ (net : Incoming) (dos : Dos) (path : List ℕ) (over : ℕ → Bool) (bound : ℕ)
    (again : Progress net dos path over → Option (Bool × Progress net dos path over))
    (again_sent : List ℕ → Sent)
    (ih : (c : Conn) (total : ℕ) (d : dos.Disk)
      → length (pending c) < bound
      → length c.inbox.buf ≤ recv_buf_size
      → Ends net dos path over
          (again_sent (pending c)).behind
          (store dos path over (again_sent (pending c)).chunks total d)
          (again (record { total = total; conn = c; disk = d }))) where
  -- One round ends like this, for the part `s` of the stream and the part `t` of the round.
  abbrev Agrees : ℕ → dos.Disk → Sent → Option (Bool × Progress net dos path over) → Type 0
  Agrees total d s t = Ends net dos path over s.behind (store dos path over s.chunks total d) t

  write_case :
      (c : Conn) (total n : ℕ) (d : dos.Disk) (bytes rest : List ℕ) (w : Bool × dos.Disk)
      → dos.write path bytes d ≡ w
      → length bytes ≡ n
      → pending c ≡ rest
      → length c.inbox.buf ≤ recv_buf_size
      → length rest < bound
      → Agrees total d (sent_bytes again_sent (some (bytes, rest))) (
          after_write net dos path over again
            (record { total = total; conn = c; disk = d })
            n
            (dos.write path bytes d))
  unfolding after_write store store_next sent_bytes Ends Left
  write_case c total n d bytes rest (false, d') e counted same low short = rw e (c, refl, tt)
  write_case c total n d bytes rest (true, d') e counted same low short =
      let total' = (total + n) % 2 ^ 32 in
      elim (Bool-cases (over total')) [
        | inl o ↦ rw (e, counted, o) (c, refl, tt)
        | inr o ↦
            rw (e, counted, o, ← same) (ih c total' d' (omega (arith, short, ap length same)) low)
      ]

  data_case :
      (c : Conn) (total n : ℕ) (d : dos.Disk) (rest : List ℕ) (o : Option (List ℕ × List ℕ))
      (t : Option (Option (List ℕ) × Conn))
      → Reads o t
      → Counted n rest o
      → length rest < bound
      → Agrees total d
          (sent_bytes again_sent o)
          (after_data net dos path over again (record { total = total; conn = c; disk = d }) n t)
  unfolding after_data store sent_bytes Ends Left Reads Counted
  data_case c total n d rest none t (c', e) counted short = rw e (c', refl, tt)
  data_case c total n d rest (some (bytes, rest')) t (c', e, same, low) (counted, le) short = rw e (
      write_case c' total n d bytes rest' (dos.write path bytes d) refl counted same low
        (omega (arith, le, short)))

  header_case :
      (c : Conn) (total : ℕ) (d : dos.Disk) (rest : List ℕ) (h : Header)
      → pending c ≡ rest
      → length c.inbox.buf ≤ recv_buf_size
      → length rest < bound
      → Agrees total d
          (sent_header again_sent rest h)
          (after_header net dos path over again (record { total = total; conn = c; disk = d }) h)
  unfolding after_header store sent_header Ends Left
  header_case c total d rest end_line same low short = (c, refl, (same, low))
  header_case c total d rest malformed same low short = (c, refl, tt)
  header_case c total d rest (data_line n) same low short =
      data_case c total n d rest (next_bytes n rest) (recv_exact_from_client net n c)
        (rw (← same) (recv_exact_from_client-Reads net n c low)) (next_bytes-Counted n rest) short

  line_case :
      (c : Conn) (total : ℕ) (d : dos.Disk) (p : List ℕ) (o : Option (List ℕ × List ℕ))
      (t : Option (Option (List ℕ) × Conn))
      → Reads o t
      → Shorter p o
      → length p ≤ bound
      → Agrees total d
          (sent_line again_sent o)
          (after_line net dos path over again (record { total = total; conn = c; disk = d }) t)
  unfolding after_line store sent_line Ends Left Reads Shorter
  line_case c total d p none t (c', e) shorter le = rw e (c', refl, tt)
  line_case c total d p (some (line, rest)) t (c', e, same, low) shorter le =
      rw e (header_case c' total d rest (header line) same low (omega (arith, shorter, le)))

module _ (net : Incoming) (dos : Dos) (path : List ℕ) (over : ℕ → Bool) where
  receive-Ends :
      (fuel : ℕ) (c : Conn) (total : ℕ) (d : dos.Disk)
      → length (pending c) < fuel
      → length c.inbox.buf ≤ recv_buf_size
      → Ends net dos path over
          (sent_by fuel (pending c)).behind
          (store dos path over (sent_by fuel (pending c)).chunks total d)
          (receive net dos path over fuel (record { total = total; conn = c; disk = d }))
  unfolding receive sent_by
  receive-Ends zero c total d lt low = absurd (omega arith)
  receive-Ends (suc fuel) c total d lt low =
      line_case net dos path over fuel (receive net dos path over fuel) (sent_by fuel)
        (λ c total d lt low. receive-Ends fuel c total d lt low) c total d (pending c)
        (next_line 128 (pending c)) (recv_line_blocking net 128 c)
        (recv_line_blocking-Reads net 128 c low) (next_line-Shorter 128 (pending c)) (omega arith)

  -- However the network cuts the stream of the client into reads, the transfer of a command ends
  -- as the bytes of the stream say.
  pub receive-sent :
      (c : Conn) (d : dos.Disk)
      → length c.inbox.buf ≤ recv_buf_size
      → Ends net dos path over
          (sent (pending c)).behind
          (store dos path over (sent (pending c)).chunks 0 d)
          (receive net dos path over
            (suc (length (pending c)))
            (record { total = 0; conn = c; disk = d }))
  unfolding sent
  receive-sent c d low = receive-Ends (suc (length (pending c))) c 0 d (omega arith) low
