-- ===== src/Config/Tests.antt =====
-- A configuration file and an access list.
use amigactl.Prelude.{
  ℕ, true, false, List, [], ◌∷◌, ◌++◌, some, ◌≡◌, ◌+◌, ◌*◌, refl, arith, codes, lf, ◌⊎◌, ◌↔◌,
  get_elem?, same_word, word, after_word, skip_blanks, c_str,
}
use amigactl.Prelude.Strtol.{skip_spaces, digits_from, starts_with_digit}
use amigactl.Prelude.Scan.{scan_int, scan_signed, scan_digits}
use amigactl.Config.{
  Config, config_defaults, config_load, load_lines, fgets, config_line, config_words, directive,
  trim_trailing, scan_dotted, octets, address, whole, parse_ip, set_port, add_address, parse_flag,
  set_shutdown, acl_check,
}
use amigactl.Config.Valid.{config_defaults-ConfigOk, Loaded, config_load-Loaded}
use amigactl.Config.Address.{acl_check_lem, parse_ip-dotted, dotted}

abbrev file : List ℕ
file =
    codes "# amigactld"
    ++ (lf ∷ codes "  port 6801  ")
    ++ (lf ∷ codes "ALLOW 192.168.0.17")
    ++ (lf ∷ codes "ALLOW_REMOTE_SHUTDOWN yes")
    ++ (lf ∷ [])

load_file :
    config_load (some file) config_defaults
    ≡ some (
      record {
        port = 6801;
        allow_remote_shutdown = true;
        allow_remote_reboot = false;
        acl = 0xC0A80011 ∷ [];
      },
      true,
    )
unfolding config_load load_lines fgets config_line config_words directive trim_trailing
    config_defaults scan_int scan_signed scan_digits scan_dotted octets address whole parse_ip
    set_port add_address parse_flag set_shutdown skip_blanks skip_spaces digits_from
    starts_with_digit word after_word c_str same_word
load_file = refl

config_load-Loaded_example : Loaded (config_load (some file) config_defaults)
config_load-Loaded_example = config_load-Loaded (some file) config_defaults config_defaults-ConfigOk

abbrev one_peer : Config
one_peer = record {
  port = 6800;
  allow_remote_shutdown = false;
  allow_remote_reboot = false;
  acl = 0xC0A80011 ∷ [];
}

acl_check_lem_example :
    acl_check one_peer 0xC0A80012 ≡ true
    ↔ (one_peer.acl ≡ []) ⊎ ((i : ℕ) × (get_elem? one_peer.acl i ≡ some 0xC0A80012))
acl_check_lem_example = acl_check_lem one_peer 0xC0A80012

parse_ip-dotted_example :
    parse_ip (dotted 192 168 0 17) ≡ some (192 * 0x1000000 + 168 * 0x10000 + 0 * 0x100 + 17)
parse_ip-dotted_example =
    parse_ip-dotted 192 168 0 17 (omega arith) (omega arith) (omega arith) (omega arith)
