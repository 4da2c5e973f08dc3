-- ===== src/Wire/RoundTrip.antt =====
-- The client reads back what a handler answered.
use amigactl.Prelude.{
  ℕ, zero, suc, ◌+◌, ◌≤◌, ◌<◌, true, false, List, [], ◌∷◌, ◌++◌, Option, none, some, ◌≡◌, refl, ap,
  arith, ◌==◌, length, length-append, codes, decimal, decimal_keeps, lf, dot, cr, map, append_assoc,
  if_intro, Bool-cases, inl, inr, beq,
}
use amigactl.Inbound.{split_line, strip_cr}
use amigactl.Inbound.Lines.{split_line-append-lf}
use amigactl.Wire.Frames.{Frame, ok, error, payload, sentinel, text, texts, stuff}
use amigactl.Wire.Client.{done, read_line, unstuff, read_payload, read_response}

-- A line that can be sent as text: no newline in it, and no carriage return at its end.
pub record IsLine (l : List ℕ) : Type 0 where
  pub no_newline : split_line l ≡ none
  pub no_return : strip_cr l ≡ l

read_line_lem : (l rest : List ℕ) → IsLine l → read_line (l ++ (lf ∷ rest)) ≡ done l rest
unfolding read_line
read_line_lem l rest h = rw (split_line-append-lf l rest h.no_newline, read_line) (rw h.no_return)

-- A printable byte in front of a line.
pub cons-IsLine :
    (b : ℕ) (l : List ℕ) → (b == lf) ≡ false → (b == cr) ≡ false → IsLine l → IsLine (b ∷ l)
unfolding split_line strip_cr
cons-IsLine b [] n r h = record { no_newline = rw n; no_return = rw r }
cons-IsLine b (c ∷ l) n r h = record {
  no_newline = rw n (rw (h.no_newline));
  no_return = ap (λ t. b ∷ t) h.no_return;
}

pub nil-IsLine : IsLine []
unfolding split_line strip_cr
nil-IsLine = record { no_newline = refl; no_return = refl }

pub digit-IsLine : (d : ℕ) (l : List ℕ) → d < 10 → IsLine l → IsLine ((48 + d) ∷ l)
digit-IsLine d l h v = cons-IsLine (48 + d) l (ground arith) (ground arith) v

stuff-IsLine : (l : List ℕ) → IsLine l → IsLine (stuff l)
unfolding stuff
stuff-IsLine [] h = h
stuff-IsLine (b ∷ l) h =
    if_intro IsLine (b == dot) _ _ (λ e. cons-IsLine dot (b ∷ l) refl refl h) (λ e. h)

unstuff-stuff : (l : List ℕ) → unstuff (stuff l) ≡ l
unfolding unstuff stuff
unstuff-stuff [] = refl
unstuff-stuff (b ∷ []) = ground arith
unstuff-stuff (b ∷ c ∷ l) = ground arith

-- No stuffed line is the sentinel.
stuff-ne-sentinel : (l : List ℕ) → beq (stuff l) (dot ∷ []) ≡ false
unfolding stuff beq
stuff-ne-sentinel [] = refl
stuff-ne-sentinel (b ∷ l) = elim (Bool-cases (b == dot)) [ inl e ↦ rw e | inr e ↦ rw e (rw e) ]

abbrev pub AreLines : List (List ℕ) → Type 0
AreLines [] = Unit
AreLines (l ∷ ls) = IsLine l × AreLines ls

-- The payload lines and the sentinel.
abbrev pub body : List (List ℕ) → List Frame
body ls = map payload ls ++ (sentinel ∷ [])

length-body : (ls : List (List ℕ)) → length ls ≤ length (texts (body ls))
unfolding texts text
length-body [] = omega arith
length-body (l ∷ ls) = omega (
  arith,
  length-body ls,
  length-append (stuff l ++ (lf ∷ [])) (texts (body ls)),
  length-append (stuff l) (lf ∷ []),
)

regroup : (a t r : List ℕ) → ((a ++ (lf ∷ [])) ++ t) ++ r ≡ a ++ (lf ∷ (t ++ r))
regroup a t r = simp append_assoc

read_payload-end :
    (fuel : ℕ) (rest : List ℕ) → read_payload (suc fuel) (dot ∷ lf ∷ rest) ≡ done [] rest
unfolding read_payload beq
read_payload-end fuel rest = rw (read_line_lem (dot ∷ []) rest dot-IsLine, read_payload)
  where
    dot-IsLine : IsLine (dot ∷ [])
    dot-IsLine = cons-IsLine dot [] refl refl nil-IsLine

read_payload-line :
    (l stream rest : List ℕ) (ls : List (List ℕ)) (fuel : ℕ)
    → IsLine l
    → read_payload fuel stream ≡ done ls rest
    → read_payload (suc fuel) (stuff l ++ (lf ∷ stream)) ≡ done (l ∷ ls) rest
unfolding read_payload
read_payload-line l stream rest ls fuel h e =
    rw (read_line_lem (stuff l) stream (stuff-IsLine l h), read_payload)
      (rw (stuff-ne-sentinel l) (rw e (rw (unstuff-stuff l))))

read_payload-body :
    (ls : List (List ℕ)) (fuel : ℕ) (rest : List ℕ)
    → AreLines ls
    → length ls < fuel
    → read_payload fuel (texts (body ls) ++ rest) ≡ done ls rest
unfolding texts text
read_payload-body ls zero rest h f = absurd (omega arith)
read_payload-body [] (suc fuel) rest h f = read_payload-end fuel rest
read_payload-body (l ∷ ls) (suc fuel) rest h f = rw (regroup (stuff l) (texts (body ls)) rest) (
    read_payload-line l (texts (body ls) ++ rest) rest ls fuel h.0
      (read_payload-body ls fuel rest h.1 (omega arith)))

-- The info text that the client sees: nothing behind a bare OK.
unfoldable pub info_of : Option (List ℕ) → List ℕ
info_of none = []
info_of (some info) = info

abbrev pub IsInfo : Option (List ℕ) → Type 0
IsInfo none = Unit
IsInfo (some info) = IsLine info

fuel_left :
    (ls : List (List ℕ)) (rest : List ℕ) → length ls < suc (length (texts (body ls) ++ rest))
fuel_left ls rest = omega (arith, length-body ls, length-append (texts (body ls)) rest)

prefix-IsLine : (info : List ℕ) → IsLine info → IsLine (codes "OK " ++ info)
prefix-IsLine info h =
    cons-IsLine b'O' _ refl refl (cons-IsLine b'K' _ refl refl (cons-IsLine b' ' info refl refl h))

read_status-bare :
    (stream rest : List ℕ) (ls : List (List ℕ))
    → read_payload (suc (length stream)) stream ≡ done ls rest
    → read_response (codes "OK" ++ (lf ∷ stream))
      ≡ done (record { is_ok = true; info = []; payload = ls }) rest
unfolding read_response
read_status-bare stream rest ls e =
    rw
      (
        read_line_lem (codes "OK") stream
            (cons-IsLine b'O' _ refl refl (cons-IsLine b'K' [] refl refl nil-IsLine)),
        read_response,
      )
      (rw e)

read_status-ok :
    (info stream rest : List ℕ) (ls : List (List ℕ))
    → IsLine info
    → read_payload (suc (length stream)) stream ≡ done ls rest
    → read_response (codes "OK " ++ (info ++ (lf ∷ stream)))
      ≡ done (record { is_ok = true; info = info; payload = ls }) rest
unfolding read_response
read_status-ok info stream rest ls h e =
    rw (read_line_lem (codes "OK " ++ info) stream (prefix-IsLine info h), read_response) (rw e)

read_status-error :
    (info stream rest : List ℕ) (ls : List (List ℕ))
    → IsLine info
    → read_payload (suc (length stream)) stream ≡ done ls rest
    → read_response (codes "ERR " ++ (info ++ (lf ∷ stream)))
      ≡ done (record { is_ok = false; info = info; payload = ls }) rest
unfolding read_response
read_status-error info stream rest ls h e =
    rw
      (
        read_line_lem (codes "ERR " ++ info) stream (
            cons-IsLine b'E' _ refl refl (
              cons-IsLine b'R' _ refl refl
                (cons-IsLine b'R' _ refl refl (cons-IsLine b' ' info refl refl h)))),
        read_response,
      )
      (rw e)

-- For an info and payload lines that have no line feed and no carriage return at their end (dots at
-- their start included): an OK response is read back by the client as it was sent, and what follows
-- the sentinel is left for the next response.
pub read_response-ok :
    (info : Option (List ℕ)) (ls : List (List ℕ)) (rest : List ℕ)
    → IsInfo info
    → AreLines ls
    → read_response (texts (ok info ∷ map payload ls ++ (sentinel ∷ [])) ++ rest)
      ≡ done (record { is_ok = true; info = info_of info; payload = ls }) rest
unfolding read_response info_of texts text
read_response-ok none ls rest i h =
    read_status-bare (texts (body ls) ++ rest) rest ls
      (read_payload-body ls _ rest h (fuel_left ls rest))
read_response-ok (some info) ls rest i h = rw (regroup info (texts (body ls)) rest) (
    read_status-ok info (texts (body ls) ++ rest) rest ls i
      (read_payload-body ls _ rest h (fuel_left ls rest)))

-- An error response is read back as its code in decimal and its message, with no payload.
pub read_response-error :
    (err_code : ℕ) (message rest : List ℕ)
    → IsLine message
    → read_response (texts (error err_code message ∷ sentinel ∷ []) ++ rest)
      ≡ done
          (record {
            is_ok = false;
            info = decimal err_code ++ (codes " " ++ message);
            payload = [];
          })
          rest
unfolding texts text
read_response-error err_code message rest h =
    rw
      (
        append_assoc (decimal err_code) (codes " " ++ (message ++ (lf ∷ []))) (dot ∷ lf ∷ []),
        append_assoc (decimal err_code) (codes " " ++ ((message ++ (lf ∷ [])) ++ (dot ∷ lf ∷ [])))
            rest,
        regroup message (dot ∷ lf ∷ []) rest,
        ← append_assoc (decimal err_code) (codes " " ++ message) (lf ∷ dot ∷ lf ∷ rest),
      )
      (read_status-error (decimal err_code ++ (codes " " ++ message)) (dot ∷ lf ∷ rest) rest []
        (decimal_keeps IsLine digit-IsLine err_code (codes " " ++ message)
          (cons-IsLine b' ' message refl refl h))
        (read_payload-end (suc (suc (length rest))) rest))
