-- ===== src/Tail/Copy.antt =====
-- The loop of a poll ends, and has sent the bytes from the old position to the new one.
use amigactl.Prelude.{
  ℕ, zero, suc, ◌+◌, ◌-◌, ◌≤◌, ◌<◌, Bool, true, false, List, [], ◌∷◌, ◌++◌, Option, some, ◌≡◌, refl,
  ap, sym, ◌∙◌, arith, ◌==◌, leb, length, take, drop, min, take-add, drop-add, Bool-cases, inl, inr,
  All, length-take, concat,
}
use amigactl.Tail.{Answers, read_buf_size, Copied, copy}

-- The copied bytes are those from `pos` on, as many as the position moved.
pub record CopyOk (content : List ℕ) (pos : ℕ) (r : Copied) : Type 0 where
  pub moved : ℕ
  pub new_pos : r.pos ≡ pos + moved
  pub in_file : r.pos ≤ length content
  pub bytes : concat r.chunks ≡ take moved (drop pos content)
  pub small : All (λ c. length c ≤ read_buf_size) r.chunks

nothing-CopyOk :
    (content : List ℕ) (pos : ℕ) (success : Bool)
    → pos ≤ length content
    → CopyOk content pos (record { pos = pos; chunks = []; success = success })
nothing-CopyOk content pos success le = record {
  moved = 0;
  new_pos = omega arith;
  in_file = le;
  bytes = refl;
  small = tt;
}

more-CopyOk :
    (content : List ℕ) (pos n : ℕ) (r : Copied)
    → n ≤ read_buf_size
    → CopyOk content (pos + n) r
    → CopyOk content pos (record r { chunks = take n (drop pos content) ∷ r.chunks })
more-CopyOk content pos n r le v = record {
  moved = n + v.moved;
  new_pos = omega (arith, v.new_pos);
  in_file = v.in_file;
  bytes =
      ap (λ l. take n (drop pos content) ++ l)
        (v.bytes ∙ ap (λ l. take v.moved l) (drop-add pos n content))
      ∙ sym (take-add n v.moved (drop pos content));
  small = (omega (arith, le, length-take n (drop pos content)), v.small);
}

pub record CopyEnds (content : List ℕ) (pos : ℕ) (o : Option Copied) : Type 0 where
  pub result : Copied
  pub ends : o ≡ some result
  pub ok : CopyOk content pos result

pub copy-CopyEnds :
    (sys : Answers) (fuel call : ℕ) (content : List ℕ) (pos : ℕ)
    → pos ≤ length content
    → length content < pos + fuel
    → CopyEnds content pos (copy sys fuel call content pos)
unfolding copy
copy-CopyEnds sys zero call content pos le lt = absurd (omega arith)
copy-CopyEnds sys (suc fuel) call content pos le lt =
    let want = min read_buf_size (length content - pos) in
    let n = min (sys.reads call) want in
    let stop : (success : Bool)
        → CopyEnds content pos (some (record { pos = pos; chunks = []; success = success })) =
      λ success. record {
        result = record { pos = pos; chunks = []; success = success };
        ends = refl;
        ok = nothing-CopyOk content pos success le;
      } in
    elim (Bool-cases (leb (length content) pos)) [
      | inl e ↦ rw e (stop true)
      | inr e ↦ elim (Bool-cases (n == 0)) [
        | inl z ↦ rw (e, z) (stop true)
        | inr nz ↦ elim (Bool-cases (sys.delivers call)) [
          | inl d ↦
              let some_left : 0 < n = ground arith in
              let rest =
                copy-CopyEnds sys fuel (call + 1) content (pos + n) (ground arith) (omega arith) in
              rw (e, nz, d, rest.ends)
                (record {
                  result = record rest.result {
                    chunks = take n (drop pos content) ∷ rest.result.chunks;
                  };
                  ends = refl;
                  ok = more-CopyOk content pos n rest.result (omega arith) rest.ok;
                })
          | inr d ↦ rw (e, nz, d) (stop false)
        ]
      ]
    ]
