-- ===== src/Effects.antt =====
-- What a command handler does to the outside, in the order of its calls: what it sends to its
-- client, and the system calls on locks, tasks and messages whose order the handlers rely on.
-- The results of `send_*` are not checked by the handlers, so a handler's sends are a list.
use amigactl.Prelude.{ℕ, List, [], ◌∷◌, codes, String}
use amigactl.Wire.Frames.{Frame, error, sentinel}

-- SIGBREAKF_CTRL_C to SIGBREAKF_CTRL_F
pub data Signal : Type 0 where
  ctrl_c ctrl_d ctrl_e ctrl_f : Signal

pub data Effect : Type 0 where
  reply : Frame → Effect
  unlock : ℕ → Effect
  raise : ℕ → Signal → Effect
  rem_task : ℕ → Effect

-- `send_error (...); send_sentinel (...)`
abbrev pub refuse : ℕ → String → List Effect
refuse err_code message = reply (error err_code (codes message)) ∷ reply sentinel ∷ []

abbrev pub err_syntax : ℕ
err_syntax = 100

abbrev pub err_not_found : ℕ
err_not_found = 200

abbrev pub err_permission : ℕ
err_permission = 201

abbrev pub err_io : ℕ
err_io = 300

abbrev pub err_timeout : ℕ
err_timeout = 400

abbrev pub err_internal : ℕ
err_internal = 500
