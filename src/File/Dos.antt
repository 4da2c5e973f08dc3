-- ===== src/File/Dos.antt =====
-- The calls of dos.library that the file commands make, as an interface: what a call does to the
-- disk is the library's, and `Laws` is what the commands rely on. With it stand `map_dos_error`
-- and `send_dos_error` of daemon/file.c.
use amigactl.Prelude.{
  ℕ, ◌+◌, length, take, drop, Bool, true, false, List, [], ◌∷◌, ◌++◌, Option, none, some, ◌==◌,
  ◌||◌, if◌then◌else◌, codes, String, ◌≡◌,
}
use amigactl.Effects.{Effect, reply, err_not_found, err_permission, err_io}
use amigactl.Wire.Frames.{error, sentinel}
use amigactl.Arexx.{DateStamp}

-- A file that is open is named by its path; `position` is where its next read or write starts.
-- `write` is true if all the bytes were written there. `io_err` is the error of the last call that failed, and `fault` its text;
-- `date_stamp` is the time of the clock.
pub record Dos : Type 1 where
  pub Disk : Type 0
  pub io_err : Disk → ℕ
  pub set_io_err : ℕ → Disk → Disk
  pub fault : ℕ → List ℕ
  pub open_new : List ℕ → Disk → Bool × Disk
  pub write : List ℕ → List ℕ → Disk → Bool × Disk
  pub close : List ℕ → Disk → Disk
  pub delete_file : List ℕ → Disk → Bool × Disk
  pub rename : List ℕ → List ℕ → Disk → Bool × Disk
  pub create_dir : List ℕ → Disk → Bool × Disk
  pub set_comment : List ℕ → List ℕ → Disk → Bool × Disk
  pub set_file_date : List ℕ → DateStamp → Disk → Bool × Disk
  pub date_stamp : Disk → DateStamp
  pub set_protection : List ℕ → ℕ → Disk → Bool × Disk
  pub protection : List ℕ → Disk → ℕ
  pub lock : List ℕ → Disk → Bool × Disk
  pub alloc_fib : Disk → Bool
  pub examine : List ℕ → Disk → Bool × Disk
  pub file_size : List ℕ → Disk → ℕ
  pub is_directory : List ℕ → Disk → Bool
  pub open_old : List ℕ → Disk → Bool × Disk
  pub seek_end : List ℕ → Disk → Bool × Disk
  pub seek_to : List ℕ → ℕ → Disk → Bool × Disk
  pub position : List ℕ → Disk → ℕ

-- The bytes `b` written over those of `c` from a position on.
unfoldable pub overwrite : ℕ → List ℕ → List ℕ → List ℕ
overwrite pos b c = take pos c ++ (b ++ drop (pos + length b) c)

-- What the calls do to the bytes of the files. Two paths are apart if they do not name one file.
pub record Laws (dos : Dos) (contents : dos.Disk → List ℕ → Option (List ℕ))
    (Apart : List ℕ → List ℕ → Type 0) : Type 0 where
  pub set_same :
      (e : ℕ) (d : dos.Disk) (q : List ℕ) → contents (dos.set_io_err e d) q ≡ contents d q
  pub opened :
      (p : List ℕ) (d : dos.Disk)
      → (dos.open_new p d).0 ≡ true
      → contents (dos.open_new p d).1 p ≡ some []
  pub opened_at :
      (p : List ℕ) (d : dos.Disk)
      → (dos.open_new p d).0 ≡ true
      → dos.position p (dos.open_new p d).1 ≡ 0
  pub open_failed :
      (p q : List ℕ) (d : dos.Disk)
      → (dos.open_new p d).0 ≡ false
      → contents (dos.open_new p d).1 q ≡ contents d q
  pub open_other :
      (p q : List ℕ) (d : dos.Disk) → Apart p q → contents (dos.open_new p d).1 q ≡ contents d q
  pub written :
      (p b c : List ℕ) (d : dos.Disk)
      → contents d p ≡ some c
      → (dos.write p b d).0 ≡ true
      → contents (dos.write p b d).1 p ≡ some (overwrite (dos.position p d) b c)
  pub advanced :
      (p b : List ℕ) (d : dos.Disk)
      → (dos.write p b d).0 ≡ true
      → dos.position p (dos.write p b d).1 ≡ dos.position p d + length b
  pub write_other :
      (p q b : List ℕ) (d : dos.Disk) → Apart p q → contents (dos.write p b d).1 q ≡ contents d q
  pub closed : (p q : List ℕ) (d : dos.Disk) → contents (dos.close p d) q ≡ contents d q
  pub deleted :
      (p : List ℕ) (d : dos.Disk)
      → (dos.delete_file p d).0 ≡ true
      → contents (dos.delete_file p d).1 p ≡ none
  pub delete_failed :
      (p q : List ℕ) (d : dos.Disk)
      → (dos.delete_file p d).0 ≡ false
      → contents (dos.delete_file p d).1 q ≡ contents d q
  pub delete_other :
      (p q : List ℕ) (d : dos.Disk) → Apart p q → contents (dos.delete_file p d).1 q ≡ contents d q
  pub renamed :
      (p q : List ℕ) (d : dos.Disk)
      → (dos.rename p q d).0 ≡ true
      → contents (dos.rename p q d).1 q ≡ contents d p
  pub rename_failed :
      (p q r : List ℕ) (d : dos.Disk)
      → (dos.rename p q d).0 ≡ false
      → contents (dos.rename p q d).1 r ≡ contents d r
  pub locked : (p q : List ℕ) (d : dos.Disk) → contents (dos.lock p d).1 q ≡ contents d q
  pub examined : (p q : List ℕ) (d : dos.Disk) → contents (dos.examine p d).1 q ≡ contents d q
  pub opened_old : (p q : List ℕ) (d : dos.Disk) → contents (dos.open_old p d).1 q ≡ contents d q
  pub opened_old_at :
      (p : List ℕ) (d : dos.Disk)
      → (dos.open_old p d).0 ≡ true
      → dos.position p (dos.open_old p d).1 ≡ 0
  pub sought : (p q : List ℕ) (d : dos.Disk) → contents (dos.seek_end p d).1 q ≡ contents d q
  pub sought_end :
      (p c : List ℕ) (d : dos.Disk)
      → contents d p ≡ some c
      → (dos.seek_end p d).0 ≡ true
      → dos.position p (dos.seek_end p d).1 ≡ length c
  pub sought_to :
      (p : List ℕ) (n : ℕ) (d : dos.Disk)
      → (dos.seek_to p n d).0 ≡ true
      → dos.position p (dos.seek_to p n d).1 ≡ n
  pub sized :
      (p c : List ℕ) (d : dos.Disk)
      → contents d p ≡ some c
      → (dos.examine p d).0 ≡ true
      → dos.file_size p (dos.examine p d).1 ≡ length c

abbrev pub err_exists : ℕ
err_exists = 202

unfoldable pub map_dos_error : ℕ → ℕ
map_dos_error ioerr =
    if (ioerr == 205) || ((ioerr == 204) || (ioerr == 218))
    then err_not_found
    else if (ioerr == 202)
        || ((ioerr == 214) || ((ioerr == 224) || ((ioerr == 222) || (ioerr == 216))))
    then err_permission
    else if ioerr == 203
    then err_exists
    else err_io

-- The reply for the error of the last call.
unfoldable pub send_dos_error : (dos : Dos) → String → dos.Disk → List Effect
unfolding map_dos_error
send_dos_error dos msg_prefix d =
    reply (error (map_dos_error (dos.io_err d)) (codes msg_prefix ++ dos.fault (dos.io_err d)))
    ∷ reply sentinel
    ∷ []
