-- ===== src/File/Arguments/Sizes.antt =====
-- The size that the arguments of an upload declare.
use amigactl.Prelude.{
  ℕ, ◌+◌, ◌≤◌, not, List, ◌==◌, codes, String, arith, length, inl, inr, if_intro, Option-cases, ltb,
}
use amigactl.Prelude.Strtol.{strtoul}
use amigactl.Wire.Client.{starts_with}
use amigactl.Inbound.{clip, max_cmd_len}
use amigactl.File.Arguments.{Request, bad, upload, parse_upload, parse_size, split_last, trim_end}

unfoldable pub Sized : Request → Type 0
Sized (bad message) = Unit
Sized (upload path declared_size) = declared_size ≤ 0x7FFFFFFF

parse_size-Sized : (path size_str : List ℕ) → Sized (parse_size path size_str)
unfolding parse_size Sized
parse_size-Sized path size_str =
    let n : ℕ = (strtoul size_str).0 in
    let end : List ℕ = (strtoul size_str).1 in
    if_intro Sized (starts_with size_str (codes "-")) _ _ (λ _. tt)
      (λ _.
        if_intro Sized (not (length end == 0)) _ _ (λ _. tt)
          (λ _. if_intro Sized (ltb 0x7FFFFFFF n) _ _ (λ _. tt) (λ e. ground arith)))

-- A declared size is a positive `LONG`.
pub parse_upload-Sized : (usage : String) (args : List ℕ) → Sized (parse_upload usage args)
unfolding parse_upload Sized
parse_upload-Sized usage args = elim (Option-cases (split_last args)) [
  | inl e ↦ rw (e, parse_upload) tt
  | inr ((before, size_str), e) ↦
      let path = trim_end (clip (max_cmd_len + 1) before) in
      rw (e, parse_upload)
        (if_intro Sized (length before == 0) _ _ (λ _. tt)
          (λ _.
            if_intro Sized (length size_str == 0) _ _ (λ _. tt)
              (λ _.
                if_intro Sized (length path == 0) _ _ (λ _. tt)
                  (λ _. parse_size-Sized path size_str))))
]
