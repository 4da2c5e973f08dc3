-- ===== src/File/Append/Growth.antt =====
-- What an APPEND does to its file and to the others, and what the client is told.
use amigactl.Prelude.{
  ℕ, ◌+◌, ◌≤◌, Bool, true, false, List, ◌∷◌, ◌++◌, Option, some, concat, ◌==◌, ==_iff, ◌≡◌, refl,
  sym, ◌∙◌, arith, length, Bool-cases, inl, inr, if_intro, ◌&&◌,
}
use amigactl.Effects.{Effect, reply, refuse, err_io, err_internal}
use amigactl.Wire.Frames.{ready}
use amigactl.Inbound.{recv_buf_size}
use amigactl.Receive.{Incoming, Conn}
use amigactl.Receive.Pending.{pending}
use amigactl.File.Dos.{Dos, Laws, send_dos_error}
use amigactl.File.Arguments.{upload, parse_upload}
use amigactl.File.Upload.{Progress, Reply, reply_with, disconnect, received, says_ok}
use amigactl.File.Upload.Stream.{sent, store, ended, Ends}
use amigactl.File.Upload.Rounds.{receive-sent}
use amigactl.File.Upload.Storage.{and_left, store-other, store-Holds}
use amigactl.File.Upload.Bounds.{sent-IsChunk, store-exact}
use amigactl.File.Append.{
  capped, finish_append, append_sought, append_opened, append_examined, append_locked,
  append_request, cmd_append,
}
use amigactl.File.Arguments.Sizes.{Sized, parse_upload-Sized}

module _ (dos : Dos) (contents : dos.Disk → List ℕ → Option (List ℕ))
    (Apart : List ℕ → List ℕ → Type 0) (path : List ℕ) (d : dos.Disk) (old bytes : List ℕ)
    (declared_size : ℕ) where
  -- An OK says that the file has the bytes behind its old ones, as many as declared; the other
  -- files are as they were.
  pub record Appended (r : Reply dos) : Type 0 where
    pub told :
        says_ok r.output ≡ true
        → (contents r.disk path ≡ some (old ++ bytes)) × (length bytes ≡ declared_size)
    pub others : (q : List ℕ) → Apart path q → contents r.disk q ≡ contents d q

module _ (net : Incoming) (dos : Dos) {contents : dos.Disk → List ℕ → Option (List ℕ)}
    {Apart : List ℕ → List ℕ → Type 0} (laws : Laws dos contents Apart) (path old : List ℕ)
    (c : Conn) (low : length c.inbox.buf ≤ recv_buf_size) (declared_size : ℕ)
    (small : declared_size ≤ 0x7FFFFFFF) (start : dos.Disk) where
  abbrev data_sent : List ℕ
  data_sent = concat (sent (pending c)).chunks

  abbrev Settles : Option (Reply dos) → Type 0
  Settles o =
      (r : Reply dos) × (o ≡ some r)
      × Appended dos contents Apart path start old data_sent declared_size r

  -- The disk still holds what it did at the start.
  abbrev Same : dos.Disk → Type 0
  Same d = (q : List ℕ) → contents d q ≡ contents start q

  refused :
      (output : List Effect) (d : dos.Disk)
      → says_ok output ≡ false
      → Same d
      → Settles (some (reply_with dos output c d))
  refused output d silent same =
      (reply_with dos output c d, refl, record { told = λ h. absurd cc; others = λ q _. same q })

  finish-Appended :
      (success : Bool) (t : Progress net dos path (capped net dos path declared_size))
      → (success ≡ true
          → (contents t.disk path ≡ some (old ++ data_sent)) × (t.total ≡ length data_sent))
      → ((q : List ℕ) → Apart path q → contents t.disk q ≡ contents start q)
      → Settles (finish_append net dos path declared_size (some (success, t)))
  unfolding finish_append says_ok
  finish-Appended false t full others = (
    disconnect dos t.conn (dos.close path t.disk),
    refl,
    record { told = λ h. absurd cc; others = λ q a. laws.closed path q t.disk ∙ others q a },
  )
  finish-Appended true t full others =
      let d = dos.close path t.disk in
      let same : (q : List ℕ) → Apart path q → contents d q ≡ contents start q =
        λ q a. laws.closed path q t.disk ∙ others q a in
      elim (Bool-cases (t.total == declared_size)) [
        | inl e ↦
            let (whole, count) = full refl in
            (
              reply_with dos (received t.total) t.conn d,
              rw e refl,
              record {
                told = λ _. (
                  laws.closed path path t.disk ∙ whole,
                  sym count ∙ (==_iff t.total declared_size).0 e,
                );
                others = same;
              },
            )
        | inr e ↦ (
          reply_with dos (refuse err_io "Size mismatch") t.conn d,
          rw e refl,
          record { told = λ h. absurd cc; others = same },
        )
      ]

  capped-low :
      (total : ℕ) → capped net dos path declared_size total ≡ false → total ≤ declared_size + 4096
  capped-low total h = ground arith

  sought-Settles :
      (w : Bool × dos.Disk)
      → contents start path ≡ some old
      → Same w.1
      → (w.0 ≡ true → dos.position path w.1 ≡ length old)
      → Settles (append_sought net dos path declared_size c w)
  unfolding append_sought says_ok send_dos_error Ends
  sought-Settles (false, d) present same at =
      refused (send_dos_error dos "Seek failed" d) (dos.close path d) refl
        (λ q. laws.closed path q d ∙ same q)
  sought-Settles (true, d) present same at =
      let s = sent (pending c) in
      let over = capped net dos path declared_size in
      let stored = store dos path over s.chunks 0 d in
      let (c', e, left) = receive-sent net dos path over c d low in
      let (r, e', done) =
        finish-Appended (stored.success && ended s.behind)
          (record { total = stored.total; conn = c'; disk = stored.disk })
          (λ h.
            let all_stored = and_left _ _ h in
            let held =
              store-Holds dos laws path over s.chunks 0 d old (omega arith) (same path ∙ present)
                (at refl) all_stored in
            (
              held.bytes,
              store-exact dos path declared_size small over capped-low s.chunks 0 d (omega arith)
                    (sent-IsChunk (pending c)) all_stored
                  ∙ omega arith,
            ))
          (λ q a. store-other dos laws path over s.chunks 0 d q a ∙ same q) in
      (
        record r { output = reply ready ∷ r.output },
        rw (e, append_sought, e') refl,
        record { told = done.told; others = done.others },
      )

  opened-Settles :
      (w : Bool × dos.Disk)
      → contents start path ≡ some old
      → Same w.1
      → Settles (append_opened net dos path declared_size c w)
  unfolding append_opened says_ok send_dos_error
  opened-Settles (false, d) present same = refused (send_dos_error dos "Open failed" d) d refl same
  opened-Settles (true, d) present same =
      sought-Settles (dos.seek_end path d) present (λ q. laws.sought path q d ∙ same q)
        (laws.sought_end path old d (same path ∙ present))

  examined-Settles :
      (w : Bool × dos.Disk)
      → contents start path ≡ some old
      → Same w.1
      → Settles (append_examined net dos path declared_size c w)
  unfolding append_examined says_ok send_dos_error
  examined-Settles (false, d) present same =
      refused (send_dos_error dos "Examine failed" d) d refl same
  examined-Settles (true, d) present same =
      if_intro Settles (dos.is_directory path d) _ _
        (λ _. refused (refuse err_io "Is a directory") d refl same)
        (λ _. opened-Settles (dos.open_old path d) present (λ q. laws.opened_old path q d ∙ same q))

  locked-Settles :
      (w : Bool × dos.Disk)
      → contents start path ≡ some old
      → Same w.1
      → Settles (append_locked net dos path declared_size c w)
  unfolding append_locked says_ok send_dos_error
  locked-Settles (false, d) present same = refused (send_dos_error dos "Lock failed" d) d refl same
  locked-Settles (true, d) present same =
      if_intro Settles (dos.alloc_fib d) _ _
        (λ _. examined-Settles (dos.examine path d) present (λ q. laws.examined path q d ∙ same q))
        (λ _. refused (refuse err_internal "Out of memory") d refl same)

-- For an APPEND with well-formed arguments to a file that is there: however the network cuts what
-- the client sends into reads, the handler ends. If the client gets OK, the file has the bytes of
-- all the chunks sent behind its old ones, and they are as many as declared, with no wrap-around.
-- The other files are as they were in any case.
pub cmd_append-Appended :
    (net : Incoming) (dos : Dos) {contents : dos.Disk → List ℕ → Option (List ℕ)}
    {Apart : List ℕ → List ℕ → Type 0} (laws : Laws dos contents Apart) (path old args : List ℕ)
    (c : Conn) (declared_size : ℕ) (d : dos.Disk)
    → length c.inbox.buf ≤ recv_buf_size
    → parse_upload "Usage: APPEND <path> <size>" args ≡ upload path declared_size
    → contents d path ≡ some old
    → (r : Reply dos) × (cmd_append net dos args c d ≡ some r)
      × Appended dos contents Apart path d old (concat (sent (pending c)).chunks) declared_size r
unfolding cmd_append append_request Sized
cmd_append-Appended net dos laws path old args c declared_size d low parsed present =
    let small : declared_size ≤ 0x7FFFFFFF =
      rw parsed at (parse_upload-Sized "Usage: APPEND <path> <size>" args) in
    let (r, e, done) =
      locked-Settles net dos laws path old c low declared_size small d (dos.lock path d) present
        (λ q. laws.locked path q d) in
    (r, rw (parsed, cmd_append) e, done)
