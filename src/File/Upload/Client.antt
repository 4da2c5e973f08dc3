-- ===== src/File/Upload/Client.antt =====
-- What a client sends behind READY: `send_data_chunks` of client/amigactl/protocol.py, and how the
-- handlers take it.
use amigactl.Prelude.{
  ℕ, zero, suc, ◌+◌, ◌≤◌, ◌<◌, true, false, List, [], ◌∷◌, ◌++◌, append_assoc, append-nil, some,
  concat, ◌≡◌, refl, ap, ◌∙◌, arith, ◌==◌, subst, length, length-append, length-take, length-drop,
  take, drop, take-append-drop, take-append-le, take_all, All, codes, decimal, decimal_keeps, lf,
  cr, c_str, beq, lt→leb_false, le→leb, le→ltb_false, leb, ltb,
}
use amigactl.Prelude.Numbers.{strtoul-decimal, length-decimal, ten_to}
use amigactl.Inbound.{clip}
use amigactl.Inbound.Lines.{split_line-append-lf}
use amigactl.Wire.Frames.{chunk, end_data, text}
use amigactl.Wire.Client.{starts_with}
use amigactl.Wire.RoundTrip.{IsLine, cons-IsLine, nil-IsLine}
use amigactl.Receive.Pending.{next_line, next_bytes}
use amigactl.Receive.Lines.{next_line-found}
use amigactl.File.Arguments.{end_line, data_line, header}
use amigactl.File.Upload.Stream.{sent_bytes, sent_header, sent_line, sent_by, sent, IsChunk}

-- The loop on slices of `chunk_size` bytes, with END behind it; every round takes a byte, so the
-- length of the data is fuel enough.
unfoldable pub slices : ℕ → ℕ → List ℕ → List (List ℕ)
slices zero chunk_size bytes = []
slices (suc fuel) chunk_size [] = []
slices (suc fuel) chunk_size (b ∷ bytes) =
    take chunk_size (b ∷ bytes) ∷ slices fuel chunk_size (drop chunk_size (b ∷ bytes))

unfoldable pub chunk_texts : List (List ℕ) → List ℕ
chunk_texts [] = text end_data
chunk_texts (bytes ∷ chunks) = text (chunk bytes) ++ chunk_texts chunks

unfoldable pub send_data_chunks : List ℕ → List ℕ
send_data_chunks bytes = chunk_texts (slices (length bytes) 4096 bytes)

-- A line of the transfer: printable, as a C string too, and short.
record Plain (l : List ℕ) : Type 0 where
  line : IsLine l
  c_string : c_str l ≡ l

cons-Plain :
    (b : ℕ) (l : List ℕ)
    → (b == lf) ≡ false
    → (b == cr) ≡ false
    → (b == 0) ≡ false
    → Plain l
    → Plain (b ∷ l)
unfolding c_str
cons-Plain b l n r z h = record {
  line = cons-IsLine b l n r h.line;
  c_string = rw z (ap (λ t. b ∷ t) h.c_string);
}

nil-Plain : Plain []
unfolding c_str
nil-Plain = record { line = nil-IsLine; c_string = refl }

decimal-Plain : (n : ℕ) → Plain (decimal n)
decimal-Plain n = subst Plain (append-nil (decimal n)) (
    decimal_keeps Plain
      (λ d l lt h. cons-Plain (48 + d) l (ground arith) (ground arith) (ground arith) h) n []
      nil-Plain)

data_text-Plain : (n : ℕ) → Plain (codes "DATA " ++ decimal n)
data_text-Plain n = cons-Plain b'D' _ refl refl refl (
    cons-Plain b'A' _ refl refl refl (
      cons-Plain b'T' _ refl refl refl
        (cons-Plain b'A' _ refl refl refl (cons-Plain 32 _ refl refl refl (decimal-Plain n)))))

header-data : (n : ℕ) → 0 < n → n ≤ 4096 → header (codes "DATA " ++ decimal n) ≡ data_line n
unfolding header beq starts_with
header-data n pos le =
    let plain = data_text-Plain n in
    let not_zero : (n == 0) ≡ false = ground arith in
    let low : ltb 4096 n ≡ false = le→ltb_false 4096 n le in
    rw (plain.c_string, strtoul-decimal n (omega arith), not_zero, low) refl

-- A short line is read as it was sent.
next_line-Plain :
    (l rest : List ℕ) → Plain l → length l < 128 → next_line 128 (l ++ (lf ∷ rest)) ≡ some (l, rest)
unfolding clip
next_line-Plain l rest h short =
    let fits : leb 128 (length l) ≡ false = lt→leb_false 128 (length l) short in
    next_line-found 128 (l ++ (lf ∷ rest)) l rest (split_line-append-lf l rest h.line.no_newline)
      (omega arith)
    ∙ rw (h.line.no_return, fits) refl

drop-append : (xs ys : List ℕ) → drop (length xs) (xs ++ ys) ≡ ys
drop-append [] ys = refl
drop-append (x ∷ xs) ys = drop-append xs ys

next_bytes-append :
    (bytes more : List ℕ) → next_bytes (length bytes) (bytes ++ more) ≡ some (bytes, more)
unfolding next_bytes
next_bytes-append bytes more =
    let enough : leb (length bytes) (length (bytes ++ more)) ≡ true =
      le→leb _ _ (omega (arith, length-append bytes more)) in
    rw
      (
        enough,
        take-append-le (length bytes) bytes more (omega arith),
        take_all (length bytes) bytes (omega arith),
        drop-append bytes more,
      )
      refl

regroup_chunk :
    (a n bytes t r : List ℕ)
    → ((a ++ (n ++ (lf ∷ bytes))) ++ t) ++ r ≡ (a ++ n) ++ (lf ∷ (bytes ++ (t ++ r)))
regroup_chunk a n bytes t r = simp append_assoc

sent_by-chunk :
    (fuel : ℕ) (bytes more : List ℕ)
    → IsChunk bytes
    → sent_by (suc fuel) ((codes "DATA " ++ decimal (length bytes)) ++ (lf ∷ (bytes ++ more)))
      ≡ record { chunks = bytes ∷ (sent_by fuel more).chunks; behind = (sent_by fuel more).behind }
unfolding sent_by sent_line sent_header sent_bytes IsChunk ten_to
sent_by-chunk fuel bytes more (pos, le) =
    let n = length bytes in
    let digits = length-decimal 3 n (omega (arith, le)) in
    let line =
      next_line-Plain (codes "DATA " ++ decimal n) (bytes ++ more) (data_text-Plain n)
        (omega (arith, digits, length-append (codes "DATA ") (decimal n))) in
    rw (line, header-data n pos le, next_bytes-append bytes more) refl

end-Plain : Plain (codes "END")
end-Plain =
    cons-Plain b'E' _ refl refl refl
      (cons-Plain b'N' _ refl refl refl (cons-Plain b'D' _ refl refl refl nil-Plain))

header-end : header (codes "END") ≡ end_line
unfolding header c_str beq
header-end = refl

sent_by-end :
    (fuel : ℕ) (rest : List ℕ)
    → sent_by (suc fuel) (codes "END" ++ (lf ∷ rest)) ≡ record { chunks = []; behind = some rest }
unfolding sent_by sent_line sent_header
sent_by-end fuel rest =
    rw (next_line-Plain (codes "END") rest end-Plain (omega arith), header-end) refl

sent_by-chunk_texts :
    (fuel : ℕ) (chunks : List (List ℕ)) (rest : List ℕ)
    → All IsChunk chunks
    → length chunks < fuel
    → sent_by fuel (chunk_texts chunks ++ rest) ≡ record { chunks = chunks; behind = some rest }
unfolding chunk_texts text
sent_by-chunk_texts zero chunks rest v lt = absurd (omega arith)
sent_by-chunk_texts (suc fuel) [] rest v lt = sent_by-end fuel rest
sent_by-chunk_texts (suc fuel) (bytes ∷ chunks) rest (v, vs) lt =
    rw
      (
        regroup_chunk (codes "DATA ") (decimal (length bytes)) bytes (chunk_texts chunks) rest,
        sent_by-chunk fuel bytes (chunk_texts chunks ++ rest) v,
        sent_by-chunk_texts fuel chunks rest vs (omega arith),
      )
      refl

length-chunk_texts : (chunks : List (List ℕ)) → length chunks < length (chunk_texts chunks)
unfolding chunk_texts text
length-chunk_texts [] = omega arith
length-chunk_texts (bytes ∷ chunks) =
    omega
      (arith, length-chunk_texts chunks, length-append (text (chunk bytes)) (chunk_texts chunks))

slices-IsChunk : (fuel : ℕ) (bytes : List ℕ) → All IsChunk (slices fuel 4096 bytes)
unfolding slices IsChunk
slices-IsChunk zero bytes = tt
slices-IsChunk (suc fuel) [] = tt
slices-IsChunk (suc fuel) (b ∷ bytes) =
    let size = length-take 4096 (b ∷ bytes) in
    ((omega (arith, size), omega (arith, size)), slices-IsChunk fuel (drop 4096 (b ∷ bytes)))

concat-slices :
    (fuel : ℕ) (bytes : List ℕ) → length bytes ≤ fuel → concat (slices fuel 4096 bytes) ≡ bytes
unfolding slices
concat-slices zero [] le = refl
concat-slices zero (b ∷ bytes) le = absurd (omega arith)
concat-slices (suc fuel) [] le = refl
concat-slices (suc fuel) (b ∷ bytes) le =
    ap (λ t. take 4096 (b ∷ bytes) ++ t)
      (concat-slices fuel (drop 4096 (b ∷ bytes)) (omega (arith, length-drop 4096 (b ∷ bytes))))
    ∙ take-append-drop 4096 (b ∷ bytes)

-- What the client sends of some bytes is taken as chunks that are these bytes together, with END
-- behind them, and nothing is taken of what follows.
pub sent-send_data_chunks :
    (bytes rest : List ℕ)
    → (concat (sent (send_data_chunks bytes ++ rest)).chunks ≡ bytes)
      × (sent (send_data_chunks bytes ++ rest)).behind ≡ some rest
unfolding sent send_data_chunks
sent-send_data_chunks bytes rest =
    let chunks = slices (length bytes) 4096 bytes in
    let e =
      sent_by-chunk_texts (suc (length (chunk_texts chunks ++ rest))) chunks rest
        (slices-IsChunk (length bytes) bytes)
        (omega (arith, length-chunk_texts chunks, length-append (chunk_texts chunks) rest)) in
    (rw e (concat-slices (length bytes) bytes (omega arith)), rw e refl)
