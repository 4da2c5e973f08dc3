-- ===== src/File/Short/Rename.antt =====
-- RENAME with the two lines that follow it.
use amigactl.Prelude.{
  ℕ, ◌+◌, ◌≤◌, Bool, true, false, List, Option, some, ◌≡◌, refl, length, c_str, skip_blanks,
}
use amigactl.Inbound.{recv_buf_size, max_cmd_len}
use amigactl.Receive.{Incoming, Conn, recv_line_blocking}
use amigactl.Receive.Pending.{pending, next_line, Reads}
use amigactl.Receive.Lines.{recv_line_blocking-Reads}
use amigactl.File.Dos.{Dos, Laws, send_dos_error}
use amigactl.File.Upload.{Reply, says_ok}
use amigactl.File.Short.{after_call, with_new, with_old, cmd_rename}

module _ (dos : Dos) (contents : dos.Disk → List ℕ → Option (List ℕ)) (old new rest : List ℕ)
    (d : dos.Disk) where
  -- An OK says that the new name has what the old one had; without it no file has changed.
  pub record Renamed (r : Reply dos) : Type 0 where
    pub stays : r.connected ≡ true
    pub left : pending r.conn ≡ rest
    pub told : says_ok r.output ≡ true → contents r.disk new ≡ contents d old
    pub kept : says_ok r.output ≡ false → (q : List ℕ) → contents r.disk q ≡ contents d q

call-Renamed :
    (dos : Dos) {contents : dos.Disk → List ℕ → Option (List ℕ)} (old new rest : List ℕ) (c : Conn)
    (d : dos.Disk) (w : Bool × dos.Disk)
    → pending c ≡ rest
    → (w.0 ≡ true → contents w.1 new ≡ contents d old)
    → (w.0 ≡ false → (q : List ℕ) → contents w.1 q ≡ contents d q)
    → Renamed dos contents old new rest d (after_call dos "Rename failed" c w)
unfolding after_call says_ok send_dos_error
call-Renamed dos old new rest c d (true, d') left moved same = record {
  stays = refl;
  left = left;
  told = λ h. moved refl;
  kept = λ h. absurd cc;
}
call-Renamed dos old new rest c d (false, d') left moved same = record {
  stays = refl;
  left = left;
  told = λ h. absurd cc;
  kept = λ h. same refl;
}

-- For a RENAME without arguments whose two lines arrive: however the network cuts them, the handler
-- ends, keeps the client, and leaves what follows the two lines. An OK says that the file of the
-- second line has what that of the first one had; without it no file has changed.
pub cmd_rename-Renamed :
    (net : Incoming) (dos : Dos) {contents : dos.Disk → List ℕ → Option (List ℕ)}
    {Apart : List ℕ → List ℕ → Type 0} (laws : Laws dos contents Apart)
    (args old new rest rest' : List ℕ) (c : Conn) (d : dos.Disk)
    → length c.inbox.buf ≤ recv_buf_size
    → length (skip_blanks args) ≡ 0
    → next_line (max_cmd_len + 1) (pending c) ≡ some (old, rest)
    → next_line (max_cmd_len + 1) rest ≡ some (new, rest')
    → (r : Reply dos) × (cmd_rename dos net args c d ≡ some r)
      × Renamed dos contents (c_str old) (c_str new) rest' d r
unfolding cmd_rename with_old with_new Reads
cmd_rename-Renamed net dos laws args old new rest rest' c d low bare first second =
    let r1 = recv_line_blocking-Reads net (max_cmd_len + 1) c low in
    let (c1, e1, left1, low1) : Reads (some (old, rest))
        (recv_line_blocking net (max_cmd_len + 1) c) =
      rw first at r1 in
    let r2 = recv_line_blocking-Reads net (max_cmd_len + 1) c1 low1 in
    let (c2, e2, left2, low2) : Reads (some (new, rest'))
        (recv_line_blocking net (max_cmd_len + 1) c1) =
      rw (left1, second) at r2 in
    let w = dos.rename (c_str old) (c_str new) d in
    (
      after_call dos "Rename failed" c2 w,
      rw (bare, e1, e2) refl,
      call-Renamed dos (c_str old) (c_str new) rest' c2 d w left2
          (laws.renamed (c_str old) (c_str new) d)
          (λ h q. laws.rename_failed (c_str old) (c_str new) q d h),
    )
