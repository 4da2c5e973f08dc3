-- ===== src/Config/Address.antt =====
-- The access list, and the addresses that stand in it.
use amigactl.Prelude.{
  ℕ, zero, suc, ◌+◌, ◌*◌, ◌≤◌, true, false, List, [], ◌∷◌, ◌++◌, some, ◌≡◌, refl, ap, ◌∙◌, arith,
  ◌==◌, ==_iff, le→leb, if◌then◌else◌, get_elem?, length, dot, decimal, Bool-cases, inl, inr, ◌⊎◌,
  ◌↔◌,
}
use amigactl.Prelude.Int.{ℤ, pos}
use amigactl.Prelude.Strtol.{is_digit, starts_with_digit}
use amigactl.Prelude.Scan.{scan_int-decimal}
use amigactl.Config.{Config, scan_dotted, octets, address, whole, parse_ip, acl_has, acl_check}

acl_has-listed :
    (acl : List ℕ) (addr : ℕ) → acl_has acl addr ≡ true → (i : ℕ) × (get_elem? acl i ≡ some addr)
unfolding acl_has
acl_has-listed [] addr h = absurd cc
acl_has-listed (a ∷ acl) addr h = elim (Bool-cases (a == addr)) [
  | inl e ↦ (0, ap (λ m. some m) ((==_iff a addr).0 e))
  | inr e ↦ let (i, g) = acl_has-listed acl addr (rw e at h) in (suc i, g)
]

listed-acl_has : (acl : List ℕ) (addr i : ℕ) → get_elem? acl i ≡ some addr → acl_has acl addr ≡ true
unfolding acl_has
listed-acl_has [] addr i h = absurd cc
listed-acl_has (a ∷ acl) addr zero h = let same : a ≡ addr = cc in rw ((==_iff a addr).1 same) refl
listed-acl_has (a ∷ acl) addr (suc i) h = elim (Bool-cases (a == addr)) [
  | inl e ↦ rw e refl
  | inr e ↦ rw e (listed-acl_has acl addr i h)
]

-- A peer is let in exactly if the access list is empty or its address is one of the entries.
pub acl_check_lem :
    (cfg : Config) (addr : ℕ)
    → acl_check cfg addr ≡ true ↔ (cfg.acl ≡ []) ⊎ ((i : ℕ) × (get_elem? cfg.acl i ≡ some addr))
unfolding acl_check
acl_check_lem cfg addr = by_list cfg.acl
  where
    by_list :
        (acl : List ℕ)
        → (if length acl == 0 then true else acl_has acl addr) ≡ true
          ↔ (acl ≡ []) ⊎ ((i : ℕ) × (get_elem? acl i ≡ some addr))
    by_list [] = ((λ h. inl refl), (λ h. refl))
    by_list (a ∷ acl) =
        let used : (suc (length acl) == 0) ≡ false = ground arith in
        (
          (λ h. inr (acl_has-listed (a ∷ acl) addr (rw used at h))),
          (λ r.
              rw used
                (elim r [ inl e ↦ absurd cc | inr (i, g) ↦ listed-acl_has (a ∷ acl) addr i g ])),
        )

scan_dotted-decimal :
    (dots n : ℕ) (rest : List ℕ) {vs : List ℤ} {after : List ℕ}
    → scan_dotted dots rest ≡ some (vs, after)
    → scan_dotted (suc dots) (decimal n ++ (dot ∷ rest)) ≡ some (pos n ∷ vs, after)
unfolding scan_dotted starts_with_digit is_digit
scan_dotted-decimal dots n rest e = rw (scan_int-decimal n (dot ∷ rest) refl, scan_dotted, e) refl

scan_dotted-last :
    (n : ℕ) (rest : List ℕ)
    → starts_with_digit rest ≡ false
    → scan_dotted 0 (decimal n ++ rest) ≡ some (pos n ∷ [], rest)
unfolding scan_dotted
scan_dotted-last n rest h = rw (scan_int-decimal n rest h, scan_dotted) refl

-- The usual text of an address.
abbrev pub dotted : ℕ → ℕ → ℕ → ℕ → List ℕ
dotted a b c d =
    decimal a ++ (dot ∷ (decimal b ++ (dot ∷ (decimal c ++ (dot ∷ (decimal d ++ []))))))

octets-digit :
    (acc n : ℕ) (vs : List ℤ) → n ≤ 255 → octets acc (pos n ∷ vs) ≡ octets (acc * 256 + n) vs
unfolding octets
octets-digit acc n vs h = rw (le→leb n 255 h) refl

octets_done : (acc : ℕ) → octets acc [] ≡ some acc
unfolding octets
octets_done acc = refl

-- The text of an address, four numbers up to 255 with dots between them, is read as the word that
-- has these four as its bytes.
pub parse_ip-dotted :
    (a b c d : ℕ)
    → a ≤ 255
    → b ≤ 255
    → c ≤ 255
    → d ≤ 255
    → parse_ip (dotted a b c d) ≡ some (a * 0x1000000 + b * 0x10000 + c * 0x100 + d)
unfolding parse_ip whole address starts_with_digit
parse_ip-dotted a b c d ha hb hc hd =
    let last = scan_dotted-last d [] refl in
    let three = scan_dotted-decimal 0 c (decimal d ++ []) last in
    let two = scan_dotted-decimal 1 b (decimal c ++ (dot ∷ (decimal d ++ []))) three in
    let one =
      scan_dotted-decimal 2 a (decimal b ++ (dot ∷ (decimal c ++ (dot ∷ (decimal d ++ []))))) two in
    rw one (
      octets-digit 0 a _ ha
      ∙ octets-digit (0 * 256 + a) b _ hb
      ∙ octets-digit ((0 * 256 + a) * 256 + b) c _ hc
      ∙ octets-digit (((0 * 256 + a) * 256 + b) * 256 + c) d _ hd
      ∙ octets_done ((((0 * 256 + a) * 256 + b) * 256 + c) * 256 + d)
      ∙ ap (λ w. some w) (omega arith))
