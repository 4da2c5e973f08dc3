-- ===== src/Tail/Tests.antt =====
-- A file grows twice while a client watches it; the reads give two bytes at a time.
use amigactl.Prelude.{ℕ, true, false, List, [], ◌∷◌, some, ◌≡◌, refl, arith, codes}
use amigactl.Wire.Frames.{chunk}
use amigactl.Tail.{
  file, cmd_tail, TailState, Answers, copy, chunk_frames, after_copy, poll_content, tail_poll_file,
}
use amigactl.Tail.Growth.{watch, appended, Follows, watch-cmd_tail}

abbrev two_bytes : Answers
two_bytes = record { reads = λ call. 2; delivers = λ call. true; opens = true }

abbrev events : List (Answers × List ℕ)
events = (two_bytes, codes "hello") ∷ (two_bytes, []) ∷ (two_bytes, codes "!") ∷ []

abbrev at_end : TailState
at_end = record { active = true; path = codes "T:log"; last_size = 3; last_pos = 3 }

watch_hello :
    watch events (codes "abc") at_end
    ≡ some (
      record { active = true; path = codes "T:log"; last_size = 9; last_pos = 9 },
      chunk (codes "he") ∷ chunk (codes "ll") ∷ chunk (codes "o") ∷ chunk (codes "!") ∷ [],
    )
unfolding watch tail_poll_file poll_content after_copy chunk_frames copy
watch_hello = refl

watch-cmd_tail_example :
    Follows
      (codes "T:log")
      3
      (appended events)
      (watch events (codes "abc") (cmd_tail false (codes "T:log") (file (codes "abc")) at_end).0)
watch-cmd_tail_example =
    watch-cmd_tail (codes "T:log") (codes "abc") at_end events refl (omega arith)
