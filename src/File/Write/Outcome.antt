-- ===== src/File/Write/Outcome.antt =====
-- What a WRITE does to its target, and what the client is told.
use amigactl.Prelude.{
  ℕ, ◌≤◌, ◌%◌, ◌^◌, Bool, true, false, List, [], ◌∷◌, Option, none, some, concat, ◌==◌, ==_iff, ◌≡◌,
  refl, ap, ◌∙◌, arith, length, Bool-cases, inl, inr, if_intro, ◌⊎◌, ltb, ◌&&◌,
}
use amigactl.Effects.{reply, refuse, err_io}
use amigactl.Wire.Frames.{ready}
use amigactl.Inbound.{recv_buf_size}
use amigactl.Receive.{Incoming, Conn}
use amigactl.Receive.Pending.{pending}
use amigactl.File.Dos.{Dos, Laws, send_dos_error}
use amigactl.File.Arguments.{upload, parse_upload, build_temp_path}
use amigactl.File.Upload.{says_ok, Progress, Reply, reply_with, disconnect, never}
use amigactl.File.Upload.Stream.{sent, store, ended, Ends}
use amigactl.File.Upload.Rounds.{receive-sent}
use amigactl.File.Upload.Storage.{and_left, store-other, store-Holds}
use amigactl.File.Write.{
  after_rename, after_delete, finish_write, write_opened, write_request, cmd_write,
}

module _ (dos : Dos) (contents : dos.Disk → List ℕ → Option (List ℕ)) (path : List ℕ)
    (old : Option (List ℕ)) (bytes : List ℕ) (declared_size : ℕ) where
  -- The target is as it was; or it holds the bytes, which are as many as declared, modulo 2^32; or
  -- they are as many as declared, but the rename failed behind the delete of the target.
  pub data Outcome (r : Reply dos) : Type 0 where
    kept : contents r.disk path ≡ old → says_ok r.output ≡ false → Outcome r
    replaced :
        contents r.disk path ≡ some bytes
        → declared_size ≡ length bytes % 2 ^ 32
        → says_ok r.output ≡ true
        → Outcome r
    lost :
        (d : dos.Disk)
        → (dos.rename (build_temp_path path) path d).0 ≡ false
        → contents d (build_temp_path path) ≡ some bytes
        → contents r.disk path ≡ none
        → declared_size ≡ length bytes % 2 ^ 32
        → says_ok r.output ≡ false
        → Outcome r

module _ (net : Incoming) (dos : Dos) {contents : dos.Disk → List ℕ → Option (List ℕ)}
    {Apart : List ℕ → List ℕ → Type 0} (laws : Laws dos contents Apart) (path : List ℕ)
    (apart : Apart (build_temp_path path) path) (apart' : Apart path (build_temp_path path))
    (old : Option (List ℕ)) (bytes : List ℕ) where
  abbrev temp : List ℕ
  temp = build_temp_path path

  abbrev Goal : ℕ → Reply dos → Type 0
  Goal declared_size r = Outcome dos contents path old bytes declared_size r

  remove-path : (d : dos.Disk) → contents (dos.delete_file temp d).1 path ≡ contents d path
  remove-path d = laws.delete_other temp path d apart

  -- Behind `Rename`, whose result is `w`.
  rename-Outcome :
      (total : ℕ) (c : Conn) (d : dos.Disk) (w : Bool × dos.Disk)
      → dos.rename temp path d ≡ w
      → (w.0 ≡ true → contents w.1 path ≡ contents d temp)
      → (w.0 ≡ false → contents w.1 path ≡ contents d path)
      → contents d temp ≡ some bytes
      → (contents d path ≡ old) ⊎ (contents d path ≡ none)
      → total ≡ length bytes % 2 ^ 32
      → Goal total (after_rename net dos path total c w)
  unfolding after_rename says_ok send_dos_error
  rename-Outcome total c d (true, d') ran done fails full before count =
      replaced (done refl ∙ full) count refl
  rename-Outcome total c d (false, d') ran done fails full (inl same) count =
      kept (remove-path d' ∙ fails refl ∙ same) refl
  rename-Outcome total c d (false, d') ran done fails full (inr none_left) count =
      lost d (ap (λ w. w.0) ran) full (remove-path d' ∙ fails refl ∙ none_left) count refl

  try_rename :
      (total : ℕ) (c : Conn) (d : dos.Disk)
      → contents d temp ≡ some bytes
      → (contents d path ≡ old) ⊎ (contents d path ≡ none)
      → total ≡ length bytes % 2 ^ 32
      → Goal total (after_rename net dos path total c (dos.rename temp path d))
  try_rename total c d =
      rename-Outcome total c d (dos.rename temp path d) refl (laws.renamed temp path d)
        (laws.rename_failed temp path path d)

  -- Behind `DeleteFile` on the target.
  delete-Outcome :
      (total : ℕ) (c : Conn) (w : Bool × dos.Disk)
      → contents w.1 temp ≡ some bytes
      → (w.0 ≡ true → contents w.1 path ≡ none)
      → (w.0 ≡ false → contents w.1 path ≡ old)
      → total ≡ length bytes % 2 ^ 32
      → Goal total (after_delete net dos path total c w)
  unfolding after_delete says_ok send_dos_error
  delete-Outcome total c (true, d) full done fails count =
      try_rename total c d full (inr (done refl)) count
  delete-Outcome total c (false, d) full done fails count =
      if_intro (Goal total) (dos.io_err d == 205) _ _
        (λ _. try_rename total c d full (inl (fails refl)) count)
        (λ _. kept (laws.set_same _ _ path ∙ remove-path d ∙ fails refl) refl)

  -- Behind the loop on DATA and END lines, where `t` has not touched the target.
  finish-Outcome :
      (declared_size : ℕ) (success : Bool) (t : Progress net dos temp never)
      → contents t.disk path ≡ old
      → (success ≡ true → (contents t.disk temp ≡ some bytes) × (t.total ≡ length bytes % 2 ^ 32))
      → (r : Reply dos) × (finish_write net dos path declared_size (some (success, t)) ≡ some r)
        × Goal declared_size r
  unfolding finish_write says_ok
  finish-Outcome declared_size false t same full =
      let d = dos.close temp t.disk in
      (
        disconnect dos t.conn (dos.delete_file temp d).1,
        refl,
        kept (remove-path d ∙ laws.closed temp path t.disk ∙ same) refl,
      )
  finish-Outcome declared_size true t same full =
      let d = dos.close temp t.disk in
      let (whole, count) = full refl in
      let w = dos.delete_file path d in
      elim (Bool-cases (t.total == declared_size)) [
        | inl e ↦
            let sizes : t.total ≡ declared_size = (==_iff t.total declared_size).0 e in
            (
              after_delete net dos path t.total t.conn w,
              rw e refl,
              rw (← sizes) (
                  delete-Outcome t.total t.conn w
                    (laws.delete_other path temp d apart' ∙ laws.closed temp temp t.disk ∙ whole)
                    (laws.deleted path d)
                    (λ h. laws.delete_failed path path d h ∙ laws.closed temp path t.disk ∙ same)
                    count),
            )
        | inr e ↦ (
          reply_with dos (refuse err_io "Size mismatch") t.conn (dos.delete_file temp d).1,
          rw e refl,
          kept (remove-path d ∙ laws.closed temp path t.disk ∙ same) refl,
        )
      ]

module _ (net : Incoming) (dos : Dos) {contents : dos.Disk → List ℕ → Option (List ℕ)}
    {Apart : List ℕ → List ℕ → Type 0} (laws : Laws dos contents Apart) (path : List ℕ)
    (apart : Apart (build_temp_path path) path) (apart' : Apart path (build_temp_path path))
    (c : Conn) (low : length c.inbox.buf ≤ recv_buf_size) where
  abbrev data_sent : List ℕ
  data_sent = concat (sent (pending c)).chunks

  -- The handler ends with such an outcome.
  abbrev Settles : Option (List ℕ) → ℕ → Option (Reply dos) → Type 0
  Settles old declared_size o =
      (r : Reply dos) × (o ≡ some r) × Outcome dos contents path old data_sent declared_size r

  ready-Outcome :
      (old : Option (List ℕ)) (declared_size : ℕ) (r : Reply dos)
      → Outcome dos contents path old data_sent declared_size r
      → Outcome dos contents path old data_sent declared_size
          (record r { output = reply ready ∷ r.output })
  unfolding says_ok
  ready-Outcome old declared_size r (kept same e) = kept same e
  ready-Outcome old declared_size r (replaced new count e) = replaced new count e
  ready-Outcome old declared_size r (lost d failed full gone count e) =
      lost d failed full gone count e

  opened-Settles :
      (old : Option (List ℕ)) (declared_size : ℕ) (w : Bool × dos.Disk)
      → contents w.1 path ≡ old
      → (w.0 ≡ true → contents w.1 (build_temp_path path) ≡ some [])
      → (w.0 ≡ true → dos.position (build_temp_path path) w.1 ≡ 0)
      → Settles old declared_size (write_opened net dos path declared_size c w)
  unfolding write_opened says_ok send_dos_error Ends
  opened-Settles old declared_size (false, d) same made at =
      (reply_with dos (send_dos_error dos "Open failed" d) c d, refl, kept same refl)
  opened-Settles old declared_size (true, d) same made at =
      let temp = build_temp_path path in
      let s = sent (pending c) in
      let stored = store dos temp never s.chunks 0 d in
      let (c', e, left) = receive-sent net dos temp never c d low in
      let (r, e', outcome) =
        finish-Outcome net dos laws path apart apart' old data_sent declared_size
          (stored.success && ended s.behind)
          (record { total = stored.total; conn = c'; disk = stored.disk })
          (store-other dos laws temp never s.chunks 0 d path apart ∙ same)
          (λ h.
            let held =
              store-Holds dos laws temp never s.chunks 0 d [] (omega arith) (made refl) (at refl)
                (and_left _ _ h) in
            (held.bytes, omega (arith, held.count))) in
      (
        record r { output = reply ready ∷ r.output },
        rw (e, write_opened, e') refl,
        ready-Outcome old declared_size r outcome,
      )

  -- For a WRITE with well-formed arguments, whose target is apart from its temporary file: however
  -- the network cuts what the client sends into reads, the handler ends. Either the target is as
  -- before and the client gets no OK; or the target holds the bytes of all the chunks sent, whose
  -- number modulo 2^32 is the declared size, and the client gets OK; or that number is the declared
  -- size and the temporary file had these bytes, but its rename failed: then the target is gone, and
  -- the client gets no OK.
  pub cmd_write-Outcome :
      (args : List ℕ) (declared_size : ℕ) (d : dos.Disk)
      → parse_upload "Usage: WRITE <path> <size>" args ≡ upload path declared_size
      → (r : Reply dos) × (cmd_write net dos args c d ≡ some r)
        × Outcome dos contents path (contents d path) data_sent declared_size r
  unfolding cmd_write write_request says_ok
  cmd_write-Outcome args declared_size d parsed = elim (Bool-cases (ltb 497 (length path))) [
    | inl e ↦ (
      reply_with dos (refuse err_io "Path too long") c d,
      rw (parsed, cmd_write, e) refl,
      kept refl refl,
    )
    | inr e ↦
        let temp = build_temp_path path in
        let (r, e', outcome) =
          opened-Settles (contents d path) declared_size (dos.open_new temp d)
            (laws.open_other temp path d apart) (laws.opened temp d) (laws.opened_at temp d) in
        (r, rw (parsed, cmd_write, e) e', outcome)
  ]
