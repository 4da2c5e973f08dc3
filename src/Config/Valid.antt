-- ===== src/Config/Valid.antt =====
-- What holds of a configuration whatever the file says.
use amigactl.Prelude.{
  ℕ, zero, suc, ◌+◌, ◌*◌, ◌≤◌, ◌<◌, Bool, true, false, ◌||◌, List, [], ◌∷◌, ◌++◌, Option, none,
  some, ◌≡◌, refl, arith, ◌==◌, ltb, leb, if_intro, All, length, lf, codes, same_word, word,
  after_word, skip_blanks, c_str, Bool-cases, inl, inr, length-append,
}
use amigactl.Prelude.Int.{ℤ, pos, negsuc}
use amigactl.Config.{
  Config, max_acl_entries, config_defaults, scan_int, octets, address, whole, parse_ip, set_port,
  add_address, parse_flag, set_shutdown, set_reboot, directive, config_words, config_line, fgets,
  load_lines, config_load, trim_trailing, scan_dotted,
}

-- A port that TCP has, no more entries than the table holds, and addresses of 32 bits.
pub record ConfigOk (cfg : Config) : Type 0 where
  pub port_low : 1 ≤ cfg.port
  pub port_high : cfg.port ≤ 65535
  pub few : length cfg.acl ≤ max_acl_entries
  pub words : All (λ a. a < 0x100000000) cfg.acl

pub config_defaults-ConfigOk : ConfigOk config_defaults
unfolding config_defaults
config_defaults-ConfigOk = record {
  port_low = omega arith;
  port_high = omega arith;
  few = omega arith;
  words = tt;
}

set_port-ConfigOk :
    (r : Option (ℤ × List ℕ)) (cfg : Config) → ConfigOk cfg → ConfigOk (set_port r cfg).0
unfolding set_port
set_port-ConfigOk none cfg v = v
set_port-ConfigOk (some (negsuc n, rest)) cfg v = v
set_port-ConfigOk (some (pos n, rest)) cfg v =
    if_intro {A = Config × Bool} (λ r. ConfigOk r.0) (ltb n 1 || ltb 65535 n) _ _ (λ e. v)
      (λ e. record {
        port_low = ground arith;
        port_high = ground arith;
        few = v.few;
        words = v.words;
      })

octets-step :
    (acc : ℕ) (v : ℤ) (vs : List ℤ) {addr : ℕ}
    → octets acc (v ∷ vs) ≡ some addr
    → (n : ℕ) × (n ≤ 255) × (octets (acc * 256 + n) vs ≡ some addr)
unfolding octets
octets-step acc (negsuc n) vs h = absurd cc
octets-step acc (pos n) vs h = elim (Bool-cases (leb n 255)) [
  | inl e ↦ (n, ground arith, rw e at h)
  | inr e ↦ let h' : none ≡ some _ = rw e at h in absurd cc
]

octets_end : (acc : ℕ) {addr : ℕ} → octets acc [] ≡ some addr → acc ≡ addr
unfolding octets
octets_end acc h = cc

-- An address that the file gives has 32 bits.
address-bound : (vs : List ℤ) {addr : ℕ} → address vs ≡ some addr → addr < 0x100000000
unfolding address
address-bound [] h = absurd cc
address-bound (a ∷ []) h = absurd cc
address-bound (a ∷ b ∷ []) h = absurd cc
address-bound (a ∷ b ∷ c ∷ []) h = absurd cc
address-bound (a ∷ b ∷ c ∷ d ∷ []) h =
    let (n1, l1, h1) = octets-step 0 a (b ∷ c ∷ d ∷ []) h in
    let (n2, l2, h2) = octets-step (0 * 256 + n1) b (c ∷ d ∷ []) h1 in
    let (n3, l3, h3) = octets-step ((0 * 256 + n1) * 256 + n2) c (d ∷ []) h2 in
    let (n4, l4, h4) = octets-step (((0 * 256 + n1) * 256 + n2) * 256 + n3) d [] h3 in
    let e = octets_end ((((0 * 256 + n1) * 256 + n2) * 256 + n3) * 256 + n4) h4 in
    omega (arith, e, l1, l2, l3, l4)
address-bound (a ∷ b ∷ c ∷ d ∷ e ∷ vs) h = absurd cc

parse_ip-bound : (str : List ℕ) {addr : ℕ} → parse_ip str ≡ some addr → addr < 0x100000000
unfolding parse_ip whole
parse_ip-bound str h = of_scan (scan_dotted 3 str) h
  where
    of_scan : (r : Option (List ℤ × List ℕ)) {addr : ℕ} → whole r ≡ some addr → addr < 0x100000000
    of_scan none h = absurd cc
    of_scan (some (vs, [])) h = address-bound vs h
    of_scan (some (vs, c ∷ rest)) h = absurd cc

All-append : (P : ℕ → Type 0) (xs : List ℕ) {y : ℕ} → All P xs → P y → All P (xs ++ (y ∷ []))
All-append P [] h p = (p, tt)
All-append P (x ∷ xs) h p = (h.0, All-append P xs h.1 p)

add_address-ConfigOk :
    (r : Option ℕ) (cfg : Config)
    → ((addr : ℕ) → r ≡ some addr → addr < 0x100000000)
    → length cfg.acl < max_acl_entries
    → ConfigOk cfg
    → ConfigOk (add_address r cfg).0
unfolding add_address
add_address-ConfigOk none cfg b room v = v
add_address-ConfigOk (some addr) cfg b room v = record {
  port_low = v.port_low;
  port_high = v.port_high;
  few = omega (arith, length-append cfg.acl (addr ∷ []), room);
  words = All-append (λ a. a < 0x100000000) cfg.acl v.words (b addr refl);
}

set_shutdown-ConfigOk :
    (r : Option Bool) (cfg : Config) → ConfigOk cfg → ConfigOk (set_shutdown r cfg).0
unfolding set_shutdown
set_shutdown-ConfigOk none cfg v = v
set_shutdown-ConfigOk (some flag) cfg v = record {
  port_low = v.port_low;
  port_high = v.port_high;
  few = v.few;
  words = v.words;
}

set_reboot-ConfigOk :
    (r : Option Bool) (cfg : Config) → ConfigOk cfg → ConfigOk (set_reboot r cfg).0
unfolding set_reboot
set_reboot-ConfigOk none cfg v = v
set_reboot-ConfigOk (some flag) cfg v = record {
  port_low = v.port_low;
  port_high = v.port_high;
  few = v.few;
  words = v.words;
}

abbrev KeepsOk : Config × Bool → Type 0
KeepsOk r = ConfigOk r.0

directive-ConfigOk :
    (keyword value : List ℕ) (cfg : Config)
    → ConfigOk cfg
    → ConfigOk (directive keyword value cfg).0
unfolding directive
directive-ConfigOk keyword value cfg v =
    if_intro KeepsOk (same_word keyword (codes "PORT")) _ _
      (λ e. set_port-ConfigOk (scan_int value) cfg v)
      (λ e.
        if_intro KeepsOk (same_word keyword (codes "ALLOW")) _ _
          (λ e.
            if_intro KeepsOk (leb max_acl_entries (length cfg.acl)) _ _ (λ full. v)
              (λ room.
                add_address-ConfigOk (parse_ip value) cfg (λ addr h. parse_ip-bound value h)
                  (ground arith) v))
          (λ e.
            if_intro KeepsOk (same_word keyword (codes "ALLOW_REMOTE_SHUTDOWN")) _ _
              (λ e. set_shutdown-ConfigOk (parse_flag value) cfg v)
              (λ e.
                if_intro KeepsOk (same_word keyword (codes "ALLOW_REMOTE_REBOOT")) _ _
                  (λ e. set_reboot-ConfigOk (parse_flag value) cfg v) (λ e. v))))

config_line-ConfigOk :
    (line : List ℕ) (cfg : Config) → ConfigOk cfg → ConfigOk (config_line line cfg).0
unfolding config_line config_words
config_line-ConfigOk line cfg v = of_words (skip_blanks (trim_trailing (c_str line)))
  where
    of_words : (s : List ℕ) → ConfigOk (config_words s cfg).0
    of_words [] = v
    of_words (c ∷ s) =
        if_intro KeepsOk (c == 35) _ _ (λ e. v)
          (λ e. directive-ConfigOk (word (c ∷ s)) (skip_blanks (after_word (c ∷ s))) cfg v)

fgets-shrinks : (n : ℕ) (s : List ℕ) → length (fgets n s).1 ≤ length s
unfolding fgets
fgets-shrinks n [] = omega arith
fgets-shrinks zero (c ∷ s) = omega arith
fgets-shrinks (suc n) (c ∷ s) =
    if_intro {A = List ℕ × List ℕ} (λ r. length r.1 ≤ suc (length s)) (c == lf) _ _
      (λ e. omega arith) (λ e. omega (arith, fgets-shrinks n s))

-- A line that is read is not empty.
fgets-reads : (n c : ℕ) (s : List ℕ) → length (fgets (suc n) (c ∷ s)).1 ≤ length s
unfolding fgets
fgets-reads n c s =
    if_intro {A = List ℕ × List ℕ} (λ r. length r.1 ≤ length s) (c == lf) _ _ (λ e. omega arith)
      (λ e. fgets-shrinks n s)

-- The load ends, and leaves a configuration that is all right.
pub record Loaded (r : Option (Config × Bool)) : Type 0 where
  pub result : Config
  pub success : Bool
  pub ends : r ≡ some (result, success)
  pub result_ok : ConfigOk result

load_lines-Loaded :
    (fuel : ℕ) (file : List ℕ) (cfg : Config)
    → length file < fuel
    → ConfigOk cfg
    → Loaded (load_lines fuel file cfg)
unfolding load_lines
load_lines-Loaded zero file cfg lt v = absurd (omega arith)
load_lines-Loaded (suc fuel) [] cfg lt v = record {
  result = cfg;
  success = true;
  ends = refl;
  result_ok = v;
}
load_lines-Loaded (suc fuel) (c ∷ s) cfg lt v =
    let got = fgets 255 (c ∷ s) in
    let after = config_line got.0 cfg in
    let ok = config_line-ConfigOk got.0 cfg v in
    elim (Bool-cases after.1) [
      | inl e ↦
          rw (e, load_lines)
            (load_lines-Loaded fuel got.1 after.0 (omega (arith, lt, fgets-reads 254 c s)) ok)
      | inr e ↦
          rw (e, load_lines)
            (record { result = after.0; success = false; ends = refl; result_ok = ok })
    ]

-- Whatever the configuration file holds, and also if there is none: the load ends, and from a
-- configuration with a port from 1 to 65535 and at most sixteen addresses of 32 bits it leaves one
-- of this kind, whether it succeeds or stops at an error.
pub config_load-Loaded :
    (file : Option (List ℕ)) (cfg : Config) → ConfigOk cfg → Loaded (config_load file cfg)
unfolding config_load
config_load-Loaded none cfg v = record { result = cfg; success = true; ends = refl; result_ok = v }
config_load-Loaded (some file) cfg v =
    load_lines-Loaded (suc (length file)) file cfg (omega arith) v
