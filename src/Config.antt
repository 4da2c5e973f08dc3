-- ===== src/Config.antt =====
-- daemon/config.c: the configuration file and the access list.
pub mod Valid
pub mod Address
mod Tests
use amigactl.Prelude.{
  ℕ, zero, suc, ◌+◌, ◌-◌, ◌*◌, Bool, true, false, not, ◌&&◌, ◌||◌, List, [], ◌∷◌, ◌++◌, Option,
  none, some, ◌==◌, ltb, leb, if◌then◌else◌, length, codes, lf, cr, dot, is_blank, c_str,
  skip_blanks, word, after_word, same_word,
}
use amigactl.Prelude.Int.{ℤ, pos, negsuc}
use amigactl.Prelude.Scan.{scan_int}
use amigactl.Prelude.Strtol.{skip_spaces, digits_from, starts_with_digit}

-- `struct daemon_config`; the list has `acl_count` entries.
pub record Config : Type 0 where
  pub port : ℕ
  pub allow_remote_shutdown : Bool
  pub allow_remote_reboot : Bool
  pub acl : List ℕ

abbrev pub max_acl_entries : ℕ
max_acl_entries = 16

abbrev pub config_line_max : ℕ
config_line_max = 256

abbrev pub default_port : ℕ
default_port = 6800

unfoldable pub config_defaults : Config
config_defaults = record {
  port = default_port;
  allow_remote_shutdown = false;
  allow_remote_reboot = false;
  acl = [];
}

-- `%d.%d.%d` with the given number of dots, and what follows.
unfoldable pub scan_dotted : ℕ → List ℕ → Option (List ℤ × List ℕ)
scan_dotted zero s = elim (scan_int s) [ none ↦ none | some (v, rest) ↦ some (v ∷ [], rest) ]
scan_dotted (suc dots) s = elim (scan_int s) [
  | none ↦ none
  | some (v, []) ↦ none
  | some (v, c ∷ rest) ↦
      let more = scan_dotted dots rest in
      if c == dot then elim more [ none ↦ none | some (vs, after) ↦ some (v ∷ vs, after) ] else none
]

-- The bytes of an address, the most significant first.
unfoldable pub octets : ℕ → List ℤ → Option ℕ
octets acc [] = some acc
octets acc (pos n ∷ vs) = let rest = octets (acc * 256 + n) vs in if leb n 255 then rest else none
octets acc (negsuc n ∷ vs) = none

-- The four numbers that were scanned.
unfoldable pub address : List ℤ → Option ℕ
address [] = none
address (a ∷ []) = none
address (a ∷ b ∷ []) = none
address (a ∷ b ∷ c ∷ []) = none
address (a ∷ b ∷ c ∷ d ∷ []) = octets 0 (a ∷ b ∷ c ∷ d ∷ [])
address (a ∷ b ∷ c ∷ d ∷ e ∷ vs) = none

-- Nothing may follow: the `%c` would take it and `sscanf` return 5.
unfoldable pub whole : Option (List ℤ × List ℕ) → Option ℕ
whole none = none
whole (some (vs, [])) = address vs
whole (some (vs, c ∷ rest)) = none

unfoldable pub parse_ip : List ℕ → Option ℕ
parse_ip str = whole (scan_dotted 3 str)

is_trimmed : ℕ → Bool
is_trimmed c = (c == lf) || (c == cr) || is_blank c

unfoldable pub trim_trailing : List ℕ → List ℕ
unfolding is_trimmed
trim_trailing [] = []
trim_trailing (c ∷ s) = elim (trim_trailing s) [
  | [] ↦ if is_trimmed c then [] else c ∷ []
  | d ∷ t ↦ c ∷ d ∷ t
]

-- What one line does: the configuration after it, and whether the file is read on. An error leaves
-- what the lines before it have set.
unfoldable pub set_port : Option (ℤ × List ℕ) → Config → Config × Bool
set_port none cfg = (cfg, false)
set_port (some (negsuc n, rest)) cfg = (cfg, false)
set_port (some (pos n, rest)) cfg =
    if ltb n 1 || ltb 65535 n then (cfg, false) else (record cfg { port = n }, true)

unfoldable pub add_address : Option ℕ → Config → Config × Bool
add_address none cfg = (cfg, false)
add_address (some addr) cfg = (record cfg { acl = cfg.acl ++ (addr ∷ []) }, true)

unfoldable pub parse_flag : List ℕ → Option Bool
parse_flag value =
    if same_word value (codes "YES")
    then some true
    else if same_word value (codes "NO")
    then some false
    else none

unfoldable pub set_shutdown : Option Bool → Config → Config × Bool
set_shutdown none cfg = (cfg, false)
set_shutdown (some flag) cfg = (record cfg { allow_remote_shutdown = flag }, true)

unfoldable pub set_reboot : Option Bool → Config → Config × Bool
set_reboot none cfg = (cfg, false)
set_reboot (some flag) cfg = (record cfg { allow_remote_reboot = flag }, true)

unfoldable pub directive : List ℕ → List ℕ → Config → Config × Bool
directive keyword value cfg =
    if same_word keyword (codes "PORT")
    then set_port (scan_int value) cfg
    else if same_word keyword (codes "ALLOW")
    then (if leb max_acl_entries (length cfg.acl)
        then (cfg, false)
        else add_address (parse_ip value) cfg)
    else if same_word keyword (codes "ALLOW_REMOTE_SHUTDOWN")
    then set_shutdown (parse_flag value) cfg
    else if same_word keyword (codes "ALLOW_REMOTE_REBOOT")
    then set_reboot (parse_flag value) cfg
    else (cfg, false)

unfoldable pub config_words : List ℕ → Config → Config × Bool
config_words [] cfg = (cfg, true)
config_words (c ∷ s) cfg =
    if c == 35 then (cfg, true) else directive (word (c ∷ s)) (skip_blanks (after_word (c ∷ s))) cfg

unfoldable pub config_line : List ℕ → Config → Config × Bool
config_line line cfg = config_words (skip_blanks (trim_trailing (c_str line))) cfg

-- `fgets` with room for `n` bytes and the NUL: the line with its newline, and the rest of the file.
unfoldable pub fgets : ℕ → List ℕ → List ℕ × List ℕ
fgets n [] = ([], [])
fgets zero (c ∷ s) = ([], c ∷ s)
fgets (suc n) (c ∷ s) =
    let rest = fgets n s in if c == lf then (c ∷ [], s) else (c ∷ rest.0, rest.1)

-- The loop over the lines; `none` means that the fuel ran out. True is the result 0.
unfoldable pub load_lines : ℕ → List ℕ → Config → Option (Config × Bool)
load_lines zero file cfg = none
load_lines (suc fuel) [] cfg = some (cfg, true)
load_lines (suc fuel) (c ∷ s) cfg =
    let got = fgets (config_line_max - 1) (c ∷ s) in
    let after = config_line got.0 cfg in
    elim after.1 [ true ↦ load_lines fuel got.1 after.0 | false ↦ some (after.0, false) ]

-- `none` is a file that cannot be opened.
unfoldable pub config_load : Option (List ℕ) → Config → Option (Config × Bool)
config_load none cfg = some (cfg, true)
config_load (some file) cfg = load_lines (suc (length file)) file cfg

unfoldable pub acl_has : List ℕ → ℕ → Bool
acl_has [] addr = false
acl_has (a ∷ acl) addr = if a == addr then true else acl_has acl addr

unfoldable pub acl_check : Config → ℕ → Bool
acl_check cfg addr = if length cfg.acl == 0 then true else acl_has cfg.acl addr
