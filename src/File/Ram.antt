-- ===== src/File/Ram.antt =====
-- A disk that is a table of files, to run the commands on.
use amigactl.Prelude.{
  ◌+◌, length, ℕ, Bool, true, false, List, [], ◌∷◌, Option, none, some, ◌≡◌, refl, if◌then◌else◌,
  beq, codes, ◌==◌, arith,
}
use amigactl.File.Dos.{Dos, Laws, overwrite}

pub record Ram : Type 0 where
  pub files : List ℕ → Option (List ℕ)
  pub err : ℕ
  pub bits : List ℕ → ℕ
  pub pos : List ℕ → ℕ

unfoldable pub put : List ℕ → Option (List ℕ) → Ram → Ram
put p v d = record d { files = λ q. if beq p q then v else d.files q }

unfoldable pub set_pos : List ℕ → ℕ → Ram → Ram
set_pos p n d = record d { pos = λ q. if beq p q then n else d.pos q }

unfoldable pub set_bits : List ℕ → ℕ → Ram → Ram
set_bits p n d = record d { bits = λ q. if beq p q then n else d.bits q }

abbrev pub missing : Ram → Bool × Ram
missing d = (false, record d { err = 205 })

unfoldable pub write_to : List ℕ → List ℕ → Ram → Option (List ℕ) → Bool × Ram
write_to p b d none = missing d
write_to p b d (some c) =
    (true, set_pos p (d.pos p + length b) (put p (some (overwrite (d.pos p) b c)) d))

unfoldable pub delete_at : List ℕ → Ram → Option (List ℕ) → Bool × Ram
delete_at p d none = missing d
delete_at p d (some c) = (true, put p none d)

unfoldable pub rename_to : List ℕ → List ℕ → Ram → Option (List ℕ) → Bool × Ram
rename_to p q d none = missing d
rename_to p q d (some c) = (true, put q (some c) (put p none d))

unfoldable pub size_of : Option (List ℕ) → ℕ
size_of none = 0
size_of (some c) = length c

abbrev pub ram : Dos
ram = record {
  Disk = Ram;
  io_err = λ d. d.err;
  set_io_err = λ e d. record d { err = e };
  fault = λ e. codes ": error";
  open_new = λ p d. (true, set_pos p 0 (put p (some []) d));
  write = λ p b d. write_to p b d (d.files p);
  close = λ p d. d;
  delete_file = λ p d. delete_at p d (d.files p);
  rename = λ p q d. rename_to p q d (d.files p);
  create_dir = λ p d. (true, d);
  set_comment = λ p text d. (true, d);
  set_file_date = λ p ds d. (true, d);
  date_stamp = λ d. record { days = 5300; minute = 907; tick = 1234 };
  set_protection = λ p n d. (true, set_bits p n d);
  protection = λ p d. d.bits p;
  lock = λ p d. (true, d);
  alloc_fib = λ d. true;
  examine = λ p d. (true, d);
  file_size = λ p d. size_of (d.files p);
  is_directory = λ p d. false;
  open_old = λ p d. (true, set_pos p 0 d);
  seek_end = λ p d. (true, set_pos p (size_of (d.files p)) d);
  seek_to = λ p n d. (true, set_pos p n d);
  position = λ p d. d.pos p;
}

abbrev pub on_ram : Ram → List ℕ → Option (List ℕ)
on_ram d q = d.files q

abbrev pub Differ : List ℕ → List ℕ → Type 0
Differ p q = beq p q ≡ false

pub beq_self : (p : List ℕ) → beq p p ≡ true
unfolding beq
beq_self [] = refl
beq_self (a ∷ p) = let same : (a == a) ≡ true = ground arith in rw same (beq_self p)

put_here : (p : List ℕ) (v : Option (List ℕ)) (d : Ram) → (put p v d).files p ≡ v
unfolding put
put_here p v d = rw (beq_self p) refl

put_else :
    (p q : List ℕ) (v : Option (List ℕ)) (d : Ram) → Differ p q → (put p v d).files q ≡ d.files q
unfolding put
put_else p q v d h = rw h refl

pos_here : (p : List ℕ) (n : ℕ) (d : Ram) → (set_pos p n d).pos p ≡ n
unfolding set_pos
pos_here p n d = rw (beq_self p) refl

write_to-pos :
    (p b : List ℕ) (d : Ram) (o : Option (List ℕ))
    → (write_to p b d o).0 ≡ true
    → (write_to p b d o).1.pos p ≡ d.pos p + length b
unfolding write_to
write_to-pos p b d none h = absurd cc
write_to-pos p b d (some c) h = pos_here p _ _

write_to-other :
    (p q b : List ℕ) (d : Ram) (o : Option (List ℕ))
    → Differ p q
    → (write_to p b d o).1.files q ≡ d.files q
unfolding write_to set_pos
write_to-other p q b d none h = refl
write_to-other p q b d (some c) h = put_else p q _ d h

delete_at-here :
    (p : List ℕ) (d : Ram) (o : Option (List ℕ))
    → (delete_at p d o).0 ≡ true
    → (delete_at p d o).1.files p ≡ none
unfolding delete_at
delete_at-here p d none h = absurd cc
delete_at-here p d (some c) h = put_here p none d

delete_at-failed :
    (p q : List ℕ) (d : Ram) (o : Option (List ℕ))
    → (delete_at p d o).0 ≡ false
    → (delete_at p d o).1.files q ≡ d.files q
unfolding delete_at
delete_at-failed p q d none h = refl
delete_at-failed p q d (some c) h = absurd cc

delete_at-other :
    (p q : List ℕ) (d : Ram) (o : Option (List ℕ))
    → Differ p q
    → (delete_at p d o).1.files q ≡ d.files q
unfolding delete_at
delete_at-other p q d none h = refl
delete_at-other p q d (some c) h = put_else p q none d h

rename_to-done :
    (p q : List ℕ) (d : Ram) (o : Option (List ℕ))
    → (rename_to p q d o).0 ≡ true
    → (rename_to p q d o).1.files q ≡ o
unfolding rename_to
rename_to-done p q d none h = absurd cc
rename_to-done p q d (some c) h = put_here q (some c) (put p none d)

rename_to-failed :
    (p q r : List ℕ) (d : Ram) (o : Option (List ℕ))
    → (rename_to p q d o).0 ≡ false
    → (rename_to p q d o).1.files r ≡ d.files r
unfolding rename_to
rename_to-failed p q r d none h = refl
rename_to-failed p q r d (some c) h = absurd cc

pub ram-Laws : Laws ram on_ram Differ
unfolding write_to set_pos size_of
ram-Laws = record {
  set_same = λ e d q. refl;
  opened = λ p d h. put_here p (some []) d;
  opened_at = λ p d h. pos_here p 0 (put p (some []) d);
  advanced = λ p b d h. write_to-pos p b d (d.files p) h;
  open_failed = λ p q d h. absurd cc;
  open_other = λ p q d h. put_else p q (some []) d h;
  written = λ p b c d e h. rw e (put_here p _ d);
  write_other = λ p q b d h. write_to-other p q b d (d.files p) h;
  closed = λ p q d. refl;
  deleted = λ p d h. delete_at-here p d (d.files p) h;
  delete_failed = λ p q d h. delete_at-failed p q d (d.files p) h;
  delete_other = λ p q d h. delete_at-other p q d (d.files p) h;
  renamed = λ p q d h. rename_to-done p q d (d.files p) h;
  rename_failed = λ p q r d h. rename_to-failed p q r d (d.files p) h;
  locked = λ p q d. refl;
  examined = λ p q d. refl;
  opened_old = λ p q d. refl;
  opened_old_at = λ p d h. pos_here p 0 d;
  sought = λ p q d. refl;
  sought_end = λ p c d e h. rw e (pos_here p (length c) d);
  sought_to = λ p n d h. pos_here p n d;
  sized = λ p c d e h. rw e refl;
}
