-- ===== src/File/Upload/Storage.antt =====
-- The chunks of a transfer on the disk.
use Prim.Native.Nat.add
use amigactl.Prelude.{
  ℕ, ◌+◌, ◌<◌, ◌%◌, ◌^◌, Bool, true, false, List, [], ◌∷◌, ◌++◌, append_assoc, append-nil, Option,
  some, ◌≡◌, refl, ap, sym, ◌∙◌, arith, length, length-append, if_intro, concat, ◌&&◌, take, drop,
  drop-nil,
}
use amigactl.File.Dos.{Dos, Laws, overwrite}
use amigactl.File.Upload.Stream.{Stored, store, store_next}

pub and_left : (a b : Bool) → (a && b) ≡ true → a ≡ true
and_left true b h = refl
and_left false b h = absurd cc

take_all_of : (xs : List ℕ) → take (length xs) xs ≡ xs
take_all_of [] = refl
take_all_of (x ∷ xs) = ap (λ l. x ∷ l) (take_all_of xs)

drop_beyond : (xs : List ℕ) (n : ℕ) → drop (length xs + n) xs ≡ []
drop_beyond [] n = rw add.zero (drop-nil n)
drop_beyond (x ∷ xs) n = rw add.suc (drop_beyond xs n)

module _ (dos : Dos) {contents : dos.Disk → List ℕ → Option (List ℕ)}
    {Apart : List ℕ → List ℕ → Type 0} (laws : Laws dos contents Apart) (path : List ℕ)
    (over : ℕ → Bool) where
  next-other :
      (chunks : List (List ℕ)) (total n : ℕ) (d : dos.Disk) (q : List ℕ) (w : Bool × dos.Disk)
      → contents w.1 q ≡ contents d q
      → ((total' : ℕ) → contents (store dos path over chunks total' w.1).disk q ≡ contents w.1 q)
      → contents (store_next dos path over (store dos path over chunks) total n w).disk q
        ≡ contents d q
  unfolding store_next
  next-other chunks total n d q (false, d') e ih = e
  next-other chunks total n d q (true, d') e ih =
      if_intro (λ (r : Stored dos path over). contents r.disk q ≡ contents d q)
        (over ((total + n) % 2 ^ 32)) _ _ (λ _. e) (λ _. ih ((total + n) % 2 ^ 32) ∙ e)

  -- The other files are as they were.
  pub store-other :
      (chunks : List (List ℕ)) (total : ℕ) (d : dos.Disk) (q : List ℕ)
      → Apart path q
      → contents (store dos path over chunks total d).disk q ≡ contents d q
  unfolding store
  store-other [] total d q apart = refl
  store-other (bytes ∷ chunks) total d q apart =
      next-other chunks total (length bytes) d q (dos.write path bytes d)
        (laws.write_other path q bytes d apart)
        (λ total'. store-other chunks total' (dos.write path bytes d).1 q apart)

  -- A file that got all the chunks has their bytes behind its old ones, and the count is theirs.
  pub record Holds (old : List ℕ) (total : ℕ) (chunks : List (List ℕ)) (r : Stored dos path over)
      : Type 0 where
    pub bytes : contents r.disk path ≡ some (old ++ concat chunks)
    pub count : r.total ≡ (total + length (concat chunks)) % 2 ^ 32

  -- Behind the bytes that are there, `Write` appends.
  written_end :
      (d : dos.Disk) (old bytes : List ℕ)
      → contents d path ≡ some old
      → dos.position path d ≡ length old
      → (dos.write path bytes d).0 ≡ true
      → contents (dos.write path bytes d).1 path ≡ some (old ++ bytes)
  unfolding overwrite
  written_end d old bytes held at ok =
      laws.written path bytes old d held ok
      ∙ ap (λ n. some (overwrite n bytes old)) at
      ∙ ap some (
          ap (λ l. l ++ (bytes ++ drop (length old + length bytes) old)) (take_all_of old)
          ∙ ap (λ l. old ++ (bytes ++ l)) (drop_beyond old (length bytes))
          ∙ ap (λ l. old ++ l) (append-nil bytes))

  next-Holds :
      (chunks : List (List ℕ)) (total : ℕ) (d : dos.Disk) (old bytes : List ℕ) (w : Bool × dos.Disk)
      → (w.0 ≡ true → contents w.1 path ≡ some (old ++ bytes))
      → (w.0 ≡ true → dos.position path w.1 ≡ length (old ++ bytes))
      → ((total' : ℕ)
          → total' < 2 ^ 32
          → contents w.1 path ≡ some (old ++ bytes)
          → dos.position path w.1 ≡ length (old ++ bytes)
          → (store dos path over chunks total' w.1).success ≡ true
          → Holds (old ++ bytes) total' chunks (store dos path over chunks total' w.1))
      → (store_next dos path over (store dos path over chunks) total (length bytes) w).success
        ≡ true
      → Holds old total
          (bytes ∷ chunks)
          (store_next dos path over (store dos path over chunks) total (length bytes) w)
  unfolding store_next
  next-Holds chunks total d old bytes (false, d') e at ih = λ h. absurd cc
  next-Holds chunks total d old bytes (true, d') e at ih =
      let total' = (total + length bytes) % 2 ^ 32 in
      if_intro (λ (r : Stored dos path over). r.success ≡ true → Holds old total (bytes ∷ chunks) r)
        (over total') _ _ (λ _ h. absurd cc)
        (λ _ h.
          let r = ih total' (omega arith) (e refl) (at refl) h in
          record {
            bytes = r.bytes ∙ ap some (append_assoc old bytes (concat chunks));
            count = omega (arith, r.count, length-append bytes (concat chunks));
          })

  pub store-Holds :
      (chunks : List (List ℕ)) (total : ℕ) (d : dos.Disk) (old : List ℕ)
      → total < 2 ^ 32
      → contents d path ≡ some old
      → dos.position path d ≡ length old
      → (store dos path over chunks total d).success ≡ true
      → Holds old total chunks (store dos path over chunks total d)
  unfolding store
  store-Holds [] total d old lt h at =
      λ _. record { bytes = h ∙ ap some (sym (append-nil old)); count = omega arith }
  store-Holds (bytes ∷ chunks) total d old lt h at =
      next-Holds chunks total d old bytes (dos.write path bytes d) (written_end d old bytes h at)
        (λ ok. laws.advanced path bytes d ok ∙ omega (arith, at, length-append old bytes))
        (λ total' lt' e at'.
          store-Holds chunks total' (dos.write path bytes d).1 (old ++ bytes) lt' e at')
