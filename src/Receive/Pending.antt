-- ===== src/Receive/Pending.antt =====
-- The blocking reads by the bytes that are still to come.
use amigactl.Prelude.{
  ℕ, zero, suc, ◌+◌, ◌-◌, ◌≤◌, ◌<◌, true, false, List, [], ◌∷◌, ◌++◌, append_assoc, append-nil,
  Option, none, some, ◌≡◌, refl, ap, sym, ◌∙◌, arith, length-drop, take-add, drop-add,
  take-append-le, take-append-add, take_all, dec_le, take-nil, drop-nil, leb, ltb, if◌then◌else◌,
  length, length-append, length-take, take, drop, min, inl, inr, Bool-cases, le→leb, lt→leb_false,
}
use amigactl.Inbound.{Inbox, recv_buf_size, split_line, strip_cr, clip}
use amigactl.Receive.{Incoming, Conn, recv, exact_loop, recv_exact_from_client}

-- The bytes that the daemon has not used yet.
abbrev pub pending : Conn → List ℕ
pending c = c.inbox.buf ++ c.stream

-- The first line of the bytes to come, if it fits into the buffer, and the bytes behind it.
unfoldable pub next_line : ℕ → List ℕ → Option (List ℕ × List ℕ)
next_line cmd_max p = elim (split_line p) [
  | none ↦ none
  | some (line, rest) ↦
      if ltb (length line) recv_buf_size then some (clip cmd_max (strip_cr line), rest) else none
]

unfoldable pub next_bytes : ℕ → List ℕ → Option (List ℕ × List ℕ)
next_bytes len p = if leb len (length p) then some (take len p, drop len p) else none

-- A read ends; it returns what is given, with the rest still pending, or the result -1.
unfoldable pub Reads : Option (List ℕ × List ℕ) → Option (Option (List ℕ) × Conn) → Type 0
Reads none r = (c : Conn) × (r ≡ some (none, c))
Reads (some (got, rest)) r =
    (c : Conn) × (r ≡ some (some got, c))
    × (pending c ≡ rest)
    × (length c.inbox.buf ≤ recv_buf_size)

-- The read past the buffer: `got` and what is missing of the stream, with the rest of the stream.
cut : List ℕ → ℕ → List ℕ → Option (List ℕ × List ℕ)
cut got missing stream =
    if leb missing (length stream)
    then some (got ++ take missing stream, drop missing stream)
    else none

Cut : Inbox → Option (List ℕ × List ℕ) → Option (Option (List ℕ) × Conn) → Type 0
Cut inbox none r = (c : Conn) × (r ≡ some (none, c))
Cut inbox (some (got, rest)) r =
    (c : Conn) × (r ≡ some (some got, c)) × (c.inbox ≡ inbox) × (c.stream ≡ rest)

-- Some bytes of the stream first, and then the others.
cut-drop :
    (got : List ℕ) (m missing : ℕ) (stream : List ℕ)
    → m ≤ missing
    → cut (got ++ take m stream) (missing - length (take m stream)) (drop m stream)
      ≡ cut got missing stream
unfolding cut
cut-drop got m missing stream le = elim (Bool-cases (leb missing (length stream))) [
  | inl e ↦
      let enough : missing ≤ length stream = ground arith in
      let took : length (take m stream) ≡ m = omega (arith, length-take m stream) in
      let fits : leb (missing - m) (length (drop m stream)) ≡ true =
        le→leb _ _ (omega (arith, length-drop m stream)) in
      let back : m + (missing - m) ≡ missing = omega arith in
      let same_take : (got ++ take m stream) ++ take (missing - m) (drop m stream)
          ≡ got ++ take missing stream =
        append_assoc got (take m stream) (take (missing - m) (drop m stream))
        ∙ ap (λ l. got ++ l)
            (sym (take-add m (missing - m) stream) ∙ ap (λ n. take n stream) back) in
      let same_drop : drop (missing - m) (drop m stream) ≡ drop missing stream =
        sym (drop-add m (missing - m) stream) ∙ ap (λ n. drop n stream) back in
      rw (e, took, fits, same_take, same_drop) refl
  | inr e ↦
      let few : leb (missing - length (take m stream)) (length (drop m stream)) ≡ false =
        lt→leb_false _ _ (omega (arith, length-drop m stream, length-take m stream, few_bytes e)) in
      rw (e, few) refl
]
  where
    few_bytes : leb missing (length stream) ≡ false → length stream < missing
    few_bytes e = ground arith

-- A number of bytes, taken from the buffer first.
take_both :
    (n : ℕ) (xs ys : List ℕ)
    → take (min (length xs) n) xs ++ take (n - min (length xs) n) ys ≡ take n (xs ++ ys)
take_both n xs ys = elim (dec_le n (length xs)) [
  | yes le ↦
      let e : min (length xs) n ≡ n = omega arith in
      let z : n - n ≡ 0 = omega arith in
      rw (e, z) (append-nil (take n xs) ∙ sym (take-append-le n xs ys le))
  | no gt ↦
      let e : min (length xs) n ≡ length xs = omega arith in
      let back : length xs + (n - length xs) ≡ n = omega arith in
      rw (e, take_all (length xs) xs (omega arith))
        (sym (take-append-add (n - length xs) xs ys) ∙ ap (λ k. take k (xs ++ ys)) back)
]

drop_both :
    (n : ℕ) (xs ys : List ℕ)
    → drop (min (length xs) n) xs ++ drop (n - min (length xs) n) ys ≡ drop n (xs ++ ys)
drop_both n [] ys = let e : n - min 0 n ≡ n = omega arith in rw (e, drop-nil {A = ℕ} (min 0 n)) refl
drop_both zero (x ∷ xs) ys = let e : min (length (x ∷ xs)) 0 ≡ 0 = omega arith in rw e refl
drop_both (suc n) (x ∷ xs) ys =
    let e : min (length (x ∷ xs)) (suc n) ≡ suc (min (length xs) n) = omega arith in
    let e' : suc n - suc (min (length xs) n) ≡ n - min (length xs) n = omega arith in
    rw (e, e') (drop_both n xs ys)

-- With the buffer in front of the rest.
glue : List ℕ → Option (List ℕ × List ℕ) → Option (List ℕ × List ℕ)
glue buf none = none
glue buf (some (got, rest)) = some (got, buf ++ rest)

Cut-Reads :
    (inbox : Inbox) (o : Option (List ℕ × List ℕ)) (r : Option (Option (List ℕ) × Conn))
    → length inbox.buf ≤ recv_buf_size
    → Cut inbox o r
    → Reads (glue inbox.buf o) r
unfolding Cut Reads glue
Cut-Reads inbox none r low h = h
Cut-Reads inbox (some (got, rest)) r low (c, e, same, left) =
    (c, e, rw (same, left) refl, rw same low)

glue-cut :
    (len : ℕ) (buf stream : List ℕ)
    → glue
        (drop (min (length buf) len) buf)
        (cut (take (min (length buf) len) buf) (len - min (length buf) len) stream)
      ≡ next_bytes len (buf ++ stream)
unfolding glue cut next_bytes
glue-cut len buf stream =
    let n = min (length buf) len in
    let same : leb (len - n) (length stream) ≡ leb len (length (buf ++ stream)) =
      rw (length-append buf stream) (leb_shift (length buf) len (length stream)) in
    rw same (elim (Bool-cases (leb len (length (buf ++ stream)))) [
      | inl e ↦ rw (e, take_both len buf stream, drop_both len buf stream) refl
      | inr e ↦ rw e refl
    ])
  where
    leb_shift : (b n s : ℕ) → leb (n - min b n) s ≡ leb n (b + s)
    leb_shift b n s = ground arith

module _ (net : Incoming) where
  exact_loop-Cut :
      (fuel : ℕ) (got : List ℕ) (missing : ℕ) (inbox : Inbox) (stream : List ℕ) (calls : ℕ)
      → missing < fuel
      → Cut inbox (cut got missing stream) (
          exact_loop net fuel got missing
            (record { inbox = inbox; stream = stream; calls = calls }))
  unfolding exact_loop Cut cut recv
  exact_loop-Cut zero got missing inbox stream calls lt = absurd (omega arith)
  exact_loop-Cut (suc fuel) got zero inbox stream calls lt =
      let c : Conn = record { inbox = inbox; stream = stream; calls = calls } in
      let always : leb 0 (length stream) ≡ true = le→leb _ _ (omega arith) in
      rw (always, append-nil got) (c, refl, refl, refl)
  exact_loop-Cut (suc fuel) got (suc missing) inbox [] calls lt =
      let few : leb (suc missing) 0 ≡ false = lt→leb_false _ _ (omega arith) in
      rw (few, take-nil {A = ℕ} (min (suc (net.gives calls)) (suc missing)), exact_loop)
        ((recv net (suc missing) (record { inbox = inbox; stream = []; calls = calls })).1, refl)
  exact_loop-Cut (suc fuel) got (suc missing) inbox (b ∷ stream) calls lt =
      let m = min (net.gives calls) missing in
      let e : min (suc (net.gives calls)) (suc missing) ≡ suc m = omega arith in
      rw (e, exact_loop, e, ← cut-drop got (suc m) (suc missing) (b ∷ stream) (omega arith))
        (exact_loop-Cut fuel (got ++ (b ∷ take m stream))
          (suc missing - suc (length (take m stream))) inbox (drop m stream) (calls + 1)
          (omega arith))

  -- Whatever the calls of `recv` deliver, the read of a number of bytes ends, and returns them if
  -- so many are pending; else the result is -1.
  pub recv_exact_from_client-Reads :
      (len : ℕ) (c : Conn)
      → length c.inbox.buf ≤ recv_buf_size
      → Reads (next_bytes len (pending c)) (recv_exact_from_client net len c)
  unfolding recv_exact_from_client next_bytes Reads
  recv_exact_from_client-Reads len c low =
      let n = min (length c.inbox.buf) len in
      let left : Inbox = record c.inbox { buf = drop n c.inbox.buf } in
      rw (← glue-cut len c.inbox.buf c.stream) (
        Cut-Reads left (cut (take n c.inbox.buf) (len - n) c.stream) _
          (omega (arith, length-drop n c.inbox.buf, low))
          (exact_loop-Cut (suc len) (take n c.inbox.buf) (len - n) left c.stream c.calls
            (omega arith)))
