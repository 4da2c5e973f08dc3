-- ===== src/File/SetDate/Echo.antt =====
-- SETDATE with the text of a stamp that `format_datestamp` writes.
use amigactl.Prelude.{
  ℕ, suc, ◌+◌, ◌-◌, ◌*◌, ◌/◌, ◌≤◌, Bool, true, false, List, [], ◌∷◌, ◌++◌, Option, some, ◌==◌,
  length, take, drop, get_elem?, arith, ◌≡◌, refl, le→leb, is_blank, length-append,
}
use amigactl.Inbound.{max_cmd_len}
use amigactl.Receive.{Conn}
use amigactl.Arexx.{DateStamp}
use amigactl.File.Arguments.{trim_end}
use amigactl.File.Dos.{Dos, send_dos_error}
use amigactl.File.Dates.{epoch_year, civil_of, civil, format_datestamp, parse_datestamp}
use amigactl.File.Dates.Years.{find_year-Found}
use amigactl.File.Dates.Calendar.{IsClock, whole_seconds}
use amigactl.File.Dates.Text.{parse_datestamp-format_datestamp}
use amigactl.File.Upload.{Reply, reply_with}
use amigactl.File.SetDate.{
  blank_at, with_path, explicit, echo, after_set, path_and_stamp, cmd_setdate,
}

get_elem?-behind :
    (path : List ℕ) (c : ℕ) (s : List ℕ) → get_elem? (path ++ (c ∷ s)) (length path) ≡ some c
get_elem?-behind [] c s = refl
get_elem?-behind (x ∷ path) c s = get_elem?-behind path c s

drop-behind : (path : List ℕ) (c : ℕ) (s : List ℕ) → drop (suc (length path)) (path ++ (c ∷ s)) ≡ s
drop-behind [] c s = refl
drop-behind (x ∷ path) c s = drop-behind path c s

take-before : (path s : List ℕ) → take (length path) (path ++ s) ≡ path
take-before [] s = refl
take-before (x ∷ path) s = rw (take-before path s) refl

civil-whole : (ds : DateStamp) (r : ℕ × ℕ) → civil (whole_seconds ds) r ≡ civil ds r
unfolding civil
civil-whole ds (year, remaining) =
    let e : ds.tick / 50 * 50 / 50 ≡ ds.tick / 50 = omega arith in rw (civil, e) refl

-- The text of a stamp does not show the part of a second.
format_datestamp-whole :
    (ds : DateStamp) → format_datestamp (whole_seconds ds) ≡ format_datestamp ds
unfolding format_datestamp civil_of
format_datestamp-whole ds =
    let f = find_year-Found (suc ds.days) ds.days epoch_year (omega arith) in
    let there : civil_of (whole_seconds ds)
        ≡ some (civil (whole_seconds ds) (epoch_year + f.later, f.left)) =
      rw (f.ends, civil_of) refl in
    let here : civil_of ds ≡ some (civil ds (epoch_year + f.later, f.left)) =
      rw (f.ends, civil_of) refl in
    let same : civil_of (whole_seconds ds) ≡ civil_of ds =
      rw (there, here, civil-whole ds (epoch_year + f.later, f.left)) refl in
    rw (format_datestamp, same) refl

explicit-dated :
    (path text : List ℕ) (ds : DateStamp)
    → parse_datestamp text ≡ some ds
    → length text ≡ 19
    → 1 ≤ length path
    → length path ≤ max_cmd_len
    → trim_end path ≡ path
    → explicit (path ++ (32 ∷ text)) ≡ some (path, ds)
unfolding explicit with_path blank_at is_blank
explicit-dated path text ds read long some_path short trimmed =
    let n : length (path ++ (32 ∷ text)) ≡ length path + 20 =
      omega (arith, length-append path (32 ∷ text), long) in
    let behind : length path + 20 - 19 ≡ suc (length path) = omega arith in
    let before : length path + 20 - 20 ≡ length path = omega arith in
    let blank : blank_at (length path) (path ++ (32 ∷ text)) ≡ true =
      rw (blank_at, get_elem?-behind path 32 text) refl in
    rw
      (
        n,
        behind,
        before,
        blank,
        drop-behind path 32 text,
        read,
        n,
        before,
        take-before path (32 ∷ text),
        trimmed,
        with_path,
        le→leb 1 (length path) some_path,
        le→leb (length path) max_cmd_len short,
        le→leb 21 (length path + 20) (omega (arith, some_path)),
      )
      refl

module _ (dos : Dos) (text : List ℕ) (c : Conn) (w : Bool × dos.Disk) where
  -- The disk after the call; the echo if the date was set, the error of the disk otherwise.
  pub record Dated (r : Reply dos) : Type 0 where
    pub stays : r.connected ≡ true
    pub same : r.conn ≡ c
    pub left : r.disk ≡ w.1
    pub told : w.0 ≡ true → r.output ≡ echo text
    pub failed : w.0 ≡ false → r.output ≡ send_dos_error dos "SetFileDate failed" w.1

after_set-Dated :
    (dos : Dos) (ds : DateStamp) (text : List ℕ) (c : Conn) (w : Bool × dos.Disk)
    → format_datestamp ds ≡ some text
    → (r : Reply dos) × (after_set dos ds c w ≡ some r) × Dated dos text c w r
unfolding after_set
after_set-Dated dos ds text c (true, d) printed = (
  reply_with dos (echo text) c d,
  rw (printed, after_set) refl,
  record { stays = refl; same = refl; left = refl; told = λ h. refl; failed = λ h. absurd cc },
)
after_set-Dated dos ds text c (false, d) printed = (
  reply_with dos (send_dos_error dos "SetFileDate failed" d) c d,
  refl,
  record { stays = refl; same = refl; left = refl; told = λ h. absurd cc; failed = λ h. refl },
)

-- For the stamp of a clock whose text has 19 bytes, and a path of 1 to 4096 bytes that does not end
-- in a blank: SETDATE with the path, a space and the text ends and sets the date of this path to
-- the stamp without the part of a second. The reply echoes the same text if the call succeeds, and
-- is the error of the disk otherwise; the client stays.
pub cmd_setdate-Dated :
    (dos : Dos) (ds : DateStamp) (path text : List ℕ) (c : Conn) (d : dos.Disk)
    → IsClock ds
    → format_datestamp ds ≡ some text
    → length text ≡ 19
    → 1 ≤ length path
    → length path ≤ max_cmd_len
    → trim_end path ≡ path
    → (r : Reply dos) × (cmd_setdate dos (path ++ (32 ∷ text)) c d ≡ some r)
      × Dated dos text c (dos.set_file_date path (whole_seconds ds) d) r
unfolding cmd_setdate path_and_stamp
cmd_setdate-Dated dos ds path text c d v printed long some_path short trimmed =
    let (text', e, read) = parse_datestamp-format_datestamp ds v in
    let same : ◌≡◌ {A = Option (List ℕ)} (some text') (some text) = cc in
    let same' : text' ≡ text = cc in
    let read' : parse_datestamp text ≡ some (whole_seconds ds) = rw same' at read in
    let whole : format_datestamp (whole_seconds ds) ≡ some text =
      rw (format_datestamp-whole ds) printed in
    let found = explicit-dated path text (whole_seconds ds) read' long some_path short trimmed in
    let n : length (path ++ (32 ∷ text)) ≡ length path + 20 =
      omega (arith, length-append path (32 ∷ text), long) in
    let some_args : (length path + 20 == 0) ≡ false = ground arith in
    let (r, ends, dated) =
      after_set-Dated dos (whole_seconds ds) text c (dos.set_file_date path (whole_seconds ds) d)
        whole in
    (r, rw (found, n, some_args) ends, dated)
