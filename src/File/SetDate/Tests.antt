-- ===== src/File/SetDate/Tests.antt =====
-- A date is set, and two SETDATE that give none.
use amigactl.Prelude.{
  ℕ, List, [], ◌∷◌, ◌++◌, none, some, ◌≡◌, refl, arith, codes, is_blank, decimal,
}
use amigactl.Inbound.{empty, clip}
use amigactl.Receive.{Conn}
use amigactl.Effects.{refuse, err_syntax}
use amigactl.Arexx.{DateStamp}
use amigactl.File.Arguments.{trim_end}
use amigactl.File.Ram.{Ram, ram}
use amigactl.File.Upload.{Reply, reply_with}
use amigactl.File.Dates.{
  format_datestamp, civil_of, civil, find_year, find_month, is_leap, year_days, month_days, mdays,
  print_civil, padded,
}
use amigactl.File.Dates.Calendar.{IsClock, whole_seconds}
use amigactl.File.SetDate.{cmd_setdate, path_and_stamp}
use amigactl.File.SetDate.Echo.{Dated, cmd_setdate-Dated}

abbrev new_year : DateStamp
new_year = record { days = 365; minute = 61; tick = 155 }

abbrev stamp_text : List ℕ
stamp_text = codes "1979-01-01 01:01:03"

abbrev readme : List ℕ
readme = codes "RAM:read me"

abbrev disk : Ram
disk = record { files = λ q. none; err = 0; bits = λ q. 0; pos = λ q. 0 }

abbrev client : Conn
client = record { inbox = empty; stream = []; calls = 0 }

new_year-IsClock : IsClock new_year
new_year-IsClock = record { minute_low = omega arith; tick_low = omega arith }

format_run : format_datestamp new_year ≡ some stamp_text
unfolding format_datestamp civil_of civil find_year find_month is_leap year_days month_days mdays
    print_civil padded decimal
format_run = refl

no_blank : trim_end readme ≡ readme
unfolding trim_end is_blank
no_blank = refl

no_args_run :
    cmd_setdate ram [] client disk
    ≡ some (reply_with ram (refuse err_syntax "Missing arguments") client disk)
unfolding cmd_setdate
no_args_run = refl

now_run : (path_and_stamp ram (codes "RAM:read me ") disk none).0 ≡ readme
unfolding path_and_stamp trim_end is_blank clip
now_run = refl

cmd_setdate-Dated_example :
    (r : Reply ram) × (cmd_setdate ram (readme ++ (32 ∷ stamp_text)) client disk ≡ some r)
    × Dated ram stamp_text client (ram.set_file_date readme (whole_seconds new_year) disk) r
cmd_setdate-Dated_example =
    cmd_setdate-Dated ram new_year readme stamp_text client disk new_year-IsClock format_run refl
      (omega arith) (omega arith) no_blank
