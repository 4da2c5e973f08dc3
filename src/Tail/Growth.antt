-- ===== src/Tail/Growth.antt =====
-- One poll, and the polls of a file that only grows.
use amigactl.Prelude.{
  concat, take_all, ℕ, zero, suc, ◌+◌, ◌≤◌, true, false, List, [], ◌∷◌, ◌++◌, Option, none, some,
  ◌≡◌, refl, ap, sym, ◌∙◌, arith, ◌==◌, ==_iff, ltb, if◌then◌else◌, if_intro, length, length-drop,
  subst, take, drop, take-add, drop-add, Bool-cases, inl, inr, length-append, take-append-le,
  append_assoc,
}
use amigactl.Wire.Frames.{Frame, ok, error, banner, payload, chunk, end_data, ready, sentinel}
use amigactl.Tail.{
  file, start_tail, cmd_tail, TailState, Answers, Copied, chunk_frames, Polled, gone, after_copy,
  poll_content, tail_poll_file,
}
use amigactl.Tail.Copy.{CopyOk, copy-CopyEnds}

-- The file data in a client's frames.
unfoldable pub data_of : List Frame → List ℕ
data_of [] = []
data_of (chunk bytes ∷ fs) = bytes ++ data_of fs
data_of (ok info ∷ fs) = data_of fs
data_of (error err_code message ∷ fs) = data_of fs
data_of (banner ∷ fs) = data_of fs
data_of (payload line ∷ fs) = data_of fs
data_of (end_data ∷ fs) = data_of fs
data_of (ready ∷ fs) = data_of fs
data_of (sentinel ∷ fs) = data_of fs

data_of-chunk_frames : (cs : List (List ℕ)) → data_of (chunk_frames cs) ≡ concat cs
unfolding data_of chunk_frames
data_of-chunk_frames [] = refl
data_of-chunk_frames (c ∷ cs) = ap (λ l. c ++ l) (data_of-chunk_frames cs)

-- The client got the bytes from `pos` on, as many as the position moved; the path is the same.
pub record PollOk (content path : List ℕ) (pos : ℕ) (p : Polled) : Type 0 where
  pub same_path : p.tail.path ≡ path
  pub moved : ℕ
  pub new_pos : p.tail.last_pos ≡ pos + moved
  pub in_file : p.tail.last_pos ≤ length content
  pub bytes : data_of p.output ≡ take moved (drop pos content)

after_copy-PollOk :
    (t : TailState) (size : ℕ) (content : List ℕ) (r : Copied)
    → CopyOk content t.last_pos r
    → PollOk content t.path t.last_pos (after_copy t size r)
unfolding after_copy
after_copy-PollOk t size content r v = elim (Bool-cases r.success) [
  | inl e ↦ rw e (record {
    same_path = refl;
    moved = v.moved;
    new_pos = v.new_pos;
    in_file = v.in_file;
    bytes = data_of-chunk_frames r.chunks ∙ v.bytes;
  })
  | inr e ↦ rw e (record {
    same_path = refl;
    moved = v.moved;
    new_pos = v.new_pos;
    in_file = v.in_file;
    bytes = data_of-chunk_frames r.chunks ∙ v.bytes;
  })
]

pub record PollEnds (content path : List ℕ) (pos : ℕ) (o : Option Polled) : Type 0 where
  pub result : Polled
  pub ends : o ≡ some result
  pub ok : PollOk content path pos result

poll_content-PollEnds :
    (sys : Answers) (content : List ℕ) (t : TailState)
    → t.last_pos ≤ length content
    → PollEnds content t.path t.last_pos (poll_content sys content t)
unfolding poll_content data_of
poll_content-PollEnds sys content t le =
    let fits : ltb (length content) t.last_pos ≡ false = ground arith in
    elim (Bool-cases (length content == t.last_pos)) [
      | inl same ↦
          let e = (==_iff (length content) t.last_pos).0 same in
          rw (fits, same)
            (record {
              result = record {
                tail = record t { last_pos = length content; last_size = length content };
                output = [];
                success = true;
              };
              ends = refl;
              ok = record {
                same_path = refl;
                moved = 0;
                new_pos = omega (arith, e);
                in_file = omega arith;
                bytes = refl;
              };
            })
      | inr more ↦
          let c = copy-CopyEnds sys (suc (length content)) 0 content t.last_pos le (omega arith) in
          rw (fits, more)
            (if_intro (PollEnds content t.path t.last_pos) sys.opens _ _
              (λ o. rw c.ends (record {
                result = after_copy t (length content) c.result;
                ends = refl;
                ok = after_copy-PollOk t (length content) content c.result c.ok;
              }))
              (λ o. record {
                result = gone t;
                ends = refl;
                ok = record {
                  same_path = refl;
                  moved = 0;
                  new_pos = omega arith;
                  in_file = le;
                  bytes = refl;
                };
              }))
    ]

-- The polls of one client: before each, bytes are appended to the file. A client that is not active
-- is not polled.
unfoldable pub watch :
    List (Answers × List ℕ) → List ℕ → TailState → Option (TailState × List Frame)
watch [] content t = some (t, [])
watch ((sys, more) ∷ events) content t =
    if t.active
    then (elim (tail_poll_file sys (some (content ++ more)) t) [
      | none ↦ none
      | some p ↦ elim (watch events (content ++ more) p.tail) [
        | none ↦ none
        | some (t', frames) ↦ some (t', p.output ++ frames)
      ]
    ])
    else some (t, [])

abbrev pub appended : List (Answers × List ℕ) → List ℕ
appended [] = []
appended ((sys, more) ∷ events) = more ++ appended events

drop-append : (n : ℕ) (xs ys : List ℕ) → n ≤ length xs → drop n (xs ++ ys) ≡ drop n xs ++ ys
drop-append zero xs ys h = refl
drop-append (suc n) [] ys h = absurd (omega arith)
drop-append (suc n) (x ∷ xs) ys h = drop-append n xs ys (omega arith)

data_of-append : (fs gs : List Frame) → data_of (fs ++ gs) ≡ data_of fs ++ data_of gs
unfolding data_of
data_of-append [] gs = refl
data_of-append (chunk bytes ∷ fs) gs =
    ap (λ l. bytes ++ l) (data_of-append fs gs) ∙ sym (append_assoc bytes (data_of fs) (data_of gs))
data_of-append (ok info ∷ fs) gs = data_of-append fs gs
data_of-append (error err_code message ∷ fs) gs = data_of-append fs gs
data_of-append (banner ∷ fs) gs = data_of-append fs gs
data_of-append (payload line ∷ fs) gs = data_of-append fs gs
data_of-append (end_data ∷ fs) gs = data_of-append fs gs
data_of-append (ready ∷ fs) gs = data_of-append fs gs
data_of-append (sentinel ∷ fs) gs = data_of-append fs gs

-- The outcome of some polls, against the file as it is at their end.
pub record Watched (final path : List ℕ) (pos : ℕ) (o : Option (TailState × List Frame))
    : Type 0 where
  pub tail : TailState
  pub output : List Frame
  pub ends : o ≡ some (tail, output)
  pub same_path : tail.path ≡ path
  pub moved : ℕ
  pub new_pos : tail.last_pos ≡ pos + moved
  pub bytes : data_of output ≡ take moved (drop pos final)

join_bytes :
    (content rest : List ℕ) (pos m n : ℕ)
    → pos + m ≤ length content
    → take m (drop pos content) ++ take n (drop (pos + m) (content ++ rest))
      ≡ take (m + n) (drop pos (content ++ rest))
join_bytes content rest pos m n le =
    let split = drop-append pos content rest (omega arith) in
    let room : m ≤ length (drop pos content) = omega (arith, length-drop pos content, le) in
    let front : take m (drop pos (content ++ rest)) ≡ take m (drop pos content) =
      ap (λ l. take m l) split ∙ take-append-le m (drop pos content) rest room in
    ap (λ l. l ++ take n (drop (pos + m) (content ++ rest))) (sym front)
    ∙ ap (λ l. take m (drop pos (content ++ rest)) ++ take n l) (drop-add pos m (content ++ rest))
    ∙ sym (take-add m n (drop pos (content ++ rest)))

-- A poll, and then the polls of a file that has more bytes behind those.
then-Watched :
    (content rest path : List ℕ) (pos : ℕ) (p : Polled) {o : Option (TailState × List Frame)}
    → PollOk content path pos p
    → Watched (content ++ rest) p.tail.path p.tail.last_pos o
    → (r : Option (TailState × List Frame))
    → ((t : TailState) (frames : List Frame)
        → o ≡ some (t, frames)
        → r ≡ some (t, p.output ++ frames))
    → Watched (content ++ rest) path pos r
then-Watched content rest path pos p v w r same = record {
  same_path = w.same_path ∙ v.same_path;
  tail = w.tail;
  output = p.output ++ w.output;
  ends = same w.tail w.output w.ends;
  moved = v.moved + w.moved;
  new_pos = omega (arith, w.new_pos, v.new_pos);
  bytes =
      data_of-append p.output w.output
      ∙ ap (λ l. l ++ data_of w.output) v.bytes
      ∙ ap (λ l. take v.moved (drop pos content) ++ l)
          (w.bytes ∙ ap (λ k. take w.moved (drop k (content ++ rest))) v.new_pos)
      ∙ join_bytes content rest pos v.moved w.moved (omega (arith, v.in_file, v.new_pos));
}

pub watch-Watched :
    (events : List (Answers × List ℕ)) (content : List ℕ) (t : TailState)
    → t.last_pos ≤ length content
    → Watched (content ++ appended events) t.path t.last_pos (watch events content t)
unfolding watch tail_poll_file data_of
watch-Watched [] content t le = record {
  tail = t;
  output = [];
  ends = refl;
  same_path = refl;
  moved = 0;
  new_pos = omega arith;
  bytes = refl;
}
watch-Watched ((sys, more) ∷ events) content t le =
    let content' = content ++ more in
    let p = poll_content-PollEnds sys content' t (omega (arith, length-append content more)) in
    let w = watch-Watched events content' p.result.tail p.ok.in_file in
    subst (λ f. Watched f t.path t.last_pos (watch ((sys, more) ∷ events) content t))
      (append_assoc content more (appended events))
      (if_intro (Watched (content' ++ appended events) t.path t.last_pos) t.active _ _
        (λ a. rw p.ends (
          then-Watched content' (appended events) t.path t.last_pos p.result p.ok w _
            (λ t' frames e. rw e refl)))
        (λ a. record {
          tail = t;
          output = [];
          ends = refl;
          same_path = refl;
          moved = 0;
          new_pos = omega arith;
          bytes = refl;
        }))

drop_all : (xs ys : List ℕ) → drop (length xs) (xs ++ ys) ≡ ys
drop_all [] ys = refl
drop_all (x ∷ xs) ys = drop_all xs ys

-- The bytes that a client got, as a part of those that came to a file of `size` bytes.
pub record Follows (path : List ℕ) (size : ℕ) (new : List ℕ) (o : Option (TailState × List Frame))
    : Type 0 where
  pub tail : TailState
  pub output : List Frame
  pub ends : o ≡ some (tail, output)
  pub watched : tail.path ≡ path
  pub moved : ℕ
  pub new_pos : tail.last_pos ≡ size + moved
  pub bytes : data_of output ≡ take moved new

-- From the start of a TAIL on a file that can be read, with a path of 1 to 511 bytes and no TRACE
-- session, and as long as the file only grows: the polls read the file of this path and end, and the chunks that were sent with success are together the
-- beginning of the bytes that were appended after the start, as many as the position moved past the
-- old end of the file.
pub watch-cmd_tail :
    (args content : List ℕ) (t : TailState) (events : List (Answers × List ℕ))
    → (length args == 0) ≡ false
    → length args ≤ 511
    → Follows args
        (length content)
        (appended events)
        (watch events content (cmd_tail false args (file content) t).0)
unfolding cmd_tail start_tail
watch-cmd_tail args content t events has_path fits =
    let w =
      watch-Watched events content
        (record {
          active = true;
          path = take 511 args;
          last_size = length content;
          last_pos = length content;
        })
        (omega arith) in
    rw has_path (record {
      tail = w.tail;
      output = w.output;
      ends = w.ends;
      watched = w.same_path ∙ take_all 511 args fits;
      moved = w.moved;
      new_pos = w.new_pos;
      bytes = w.bytes ∙ ap (λ l. take w.moved l) (drop_all content (appended events));
    })
