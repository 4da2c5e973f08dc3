-- ===== src/File/Protect/Echo.antt =====
-- PROTECT with bits to set.
use amigactl.Prelude.{
  ℕ, ◌+◌, ◌^◌, ◌≤◌, ◌<◌, Bool, true, false, List, ◌∷◌, ◌++◌, some, ◌==◌, length, arith, ◌≡◌, refl,
  Bool-cases, inl, inr, length-append, ap, ◌∙◌,
}
use amigactl.Inbound.{max_cmd_len}
use amigactl.Inbound.Lines.{clip_short}
use amigactl.Receive.{Conn}
use amigactl.File.Arguments.{trim_end}
use amigactl.File.Checksum.{hex}
use amigactl.File.Dos.{Dos, send_dos_error}
use amigactl.File.Upload.{Reply, says_ok}
use amigactl.File.Protect.{
  set_mode, bits_lines, after_examine, after_lock, after_protection, run_mode, cmd_protect,
  hex_value, all_hex,
}
use amigactl.File.Protect.Hex.{all_hex-hex, length-hex, hex_value-hex, split_last-behind}

-- The bits of a file are those that were set last, and a lock or a look at the file keeps them.
pub record KeepsBits (dos : Dos) : Type 0 where
  pub set_bits :
      (p : List ℕ) (n : ℕ) (d : dos.Disk)
      → (dos.set_protection p n d).0 ≡ true
      → dos.protection p (dos.set_protection p n d).1 ≡ n
  pub locked : (p : List ℕ) (d : dos.Disk) → dos.protection p (dos.lock p d).1 ≡ dos.protection p d
  pub examined :
      (p : List ℕ) (d : dos.Disk) → dos.protection p (dos.examine p d).1 ≡ dos.protection p d

module _ (dos : Dos) (path : List ℕ) (bits : ℕ) (c : Conn) where
  -- An OK has the bits, and the file has them.
  pub record Protected (r : Reply dos) : Type 0 where
    pub stays : r.connected ≡ true
    pub same : r.conn ≡ c
    pub told : says_ok r.output ≡ true → r.output ≡ bits_lines bits
    pub kept : says_ok r.output ≡ true → dos.protection path r.disk ≡ bits

  after_examine-Protected :
      (w : Bool × dos.Disk)
      → dos.protection path w.1 ≡ bits
      → Protected (after_examine dos path c w)
  unfolding after_examine says_ok send_dos_error
  after_examine-Protected (false, d) e = record {
    stays = refl;
    same = refl;
    told = λ h. absurd cc;
    kept = λ h. absurd cc;
  }
  after_examine-Protected (true, d) e = record {
    stays = refl;
    same = refl;
    told = λ h. rw e refl;
    kept = λ h. e;
  }

  module _ (laws : KeepsBits dos) where
    after_lock-Protected :
        (w : Bool × dos.Disk) → dos.protection path w.1 ≡ bits → Protected (after_lock dos path c w)
    unfolding after_lock says_ok send_dos_error
    after_lock-Protected (false, d) e = record {
      stays = refl;
      same = refl;
      told = λ h. absurd cc;
      kept = λ h. absurd cc;
    }
    after_lock-Protected (true, d) e = elim (Bool-cases (dos.alloc_fib d)) [
      | inl a ↦
          let after : Protected (after_examine dos path c (dos.examine path d)) =
            after_examine-Protected (dos.examine path d) (rw (laws.examined path d) e) in
          rw (a, after_lock) after
      | inr a ↦
          rw (a, after_lock)
            (record { stays = refl; same = refl; told = λ h. absurd cc; kept = λ h. absurd cc })
    ]

    after_protection-Protected :
        (w : Bool × dos.Disk)
        → (w.0 ≡ true → dos.protection path w.1 ≡ bits)
        → Protected (after_protection dos path c w)
    unfolding after_protection says_ok send_dos_error
    after_protection-Protected (false, d) e = record {
      stays = refl;
      same = refl;
      told = λ h. absurd cc;
      kept = λ h. absurd cc;
    }
    after_protection-Protected (true, d) e =
        after_lock-Protected (dos.lock path d) (rw (laws.locked path d) (e refl))

set_mode-token :
    (path token : List ℕ)
    → all_hex token ≡ true
    → length token ≡ 8
    → trim_end path ≡ path
    → set_mode (path ++ (32 ∷ token)) ≡ some (path, hex_value 0 token)
unfolding set_mode
set_mode-token path token digits long trimmed =
    rw (split_last-behind path token digits, set_mode, long, digits, trimmed) refl

set_mode-hex :
    (path : List ℕ) (bits : ℕ)
    → bits < 2 ^ 32
    → trim_end path ≡ path
    → set_mode (path ++ (32 ∷ hex 8 bits)) ≡ some (path, bits)
set_mode-hex path bits low trimmed =
    let value : hex_value 0 (hex 8 bits) ≡ bits = hex_value-hex 8 bits (omega (arith, low)) in
    set_mode-token path (hex 8 bits) (all_hex-hex 8 bits) (length-hex 8 bits) trimmed
    ∙ ap (λ n. some (path, n)) value

-- For a path of 1 to 4087 bytes that does not end in a blank, and bits below 2^32: PROTECT with the
-- path, a space and the eight digits of the bits keeps the client. If it answers OK, the reply has
-- the same digits, and the file has these bits.
pub cmd_protect-Protected :
    (dos : Dos) (laws : KeepsBits dos) (path : List ℕ) (bits : ℕ) (c : Conn) (d : dos.Disk)
    → bits < 2 ^ 32
    → 1 ≤ length path
    → length path + 9 ≤ max_cmd_len
    → trim_end path ≡ path
    → Protected dos path bits c (cmd_protect dos (path ++ (32 ∷ hex 8 bits)) c d)
unfolding cmd_protect run_mode
cmd_protect-Protected dos laws path bits c d low some_path short trimmed =
    let args = path ++ (32 ∷ hex 8 bits) in
    let n : length args ≡ length path + 9 =
      omega (arith, length-append path (32 ∷ hex 8 bits), length-hex 8 bits) in
    let some_args : (length path + 9 == 0) ≡ false = ground arith in
    let not_empty : (length path == 0) ≡ false = ground arith in
    let w = dos.set_protection path bits d in
    let after : Protected dos path bits c (after_protection dos path c w) =
      after_protection-Protected dos path bits c laws w (laws.set_bits path bits d) in
    rw
      (
        cmd_protect,
        n,
        some_args,
        clip_short args (omega (arith, n, short)),
        set_mode-hex path bits low trimmed,
        run_mode,
        not_empty,
      )
      after
