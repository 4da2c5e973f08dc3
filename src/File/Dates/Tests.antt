-- ===== src/File/Dates/Tests.antt =====
-- The stamp of an afternoon in July 1992, there and back.
use amigactl.Prelude.{ℕ, List, some, ◌≡◌, refl, arith, codes}
use amigactl.Prelude.Scan.{scan_int, scan_signed, scan_digits, signed_value}
use amigactl.Prelude.Strtol.{skip_spaces, is_space, is_digit, digits_from, starts_with_digit}
use amigactl.Arexx.{DateStamp}
use amigactl.File.Dates.{
  Civil, civil_of, format_datestamp, parse_datestamp, amiga_days_to_ymd, ymd_year, leap_of, ymd_of,
  ymd_month, mdays, scan_civil, scan_fields, scan_then, scan_blank, scan_end, natural, expect,
  in_range, stamp_of, is_leap, month_days, add_years, add_months, year_days,
}
use amigactl.File.Dates.Calendar.{
  IsClock, whole_seconds, date_of, parse_datestamp-IsClock, amiga_days_to_ymd-civil_of,
}
use amigactl.File.Dates.Text.{parse_datestamp-format_datestamp}

abbrev afternoon : DateStamp
afternoon = record { days = 5300; minute = 907; tick = 1234 }

afternoon-IsClock : IsClock afternoon
afternoon-IsClock = record { minute_low = omega arith; tick_low = omega arith }

parse_datestamp-format_datestamp_example :
    (text : List ℕ) × (format_datestamp afternoon ≡ some text)
    × (parse_datestamp text ≡ some (whole_seconds afternoon))
parse_datestamp-format_datestamp_example =
    parse_datestamp-format_datestamp afternoon afternoon-IsClock

amiga_days_to_ymd-civil_of_example :
    (c : Civil) × (civil_of afternoon ≡ some c)
    × (amiga_days_to_ymd afternoon.days ≡ some (date_of c))
amiga_days_to_ymd-civil_of_example = amiga_days_to_ymd-civil_of afternoon

ymd_run : amiga_days_to_ymd 790 ≡ some (1980, 3, 1)
unfolding amiga_days_to_ymd ymd_year leap_of ymd_of ymd_month mdays
ymd_run = refl

abbrev new_year : DateStamp
new_year = record { days = 365; minute = 61; tick = 150 }

parse_run : parse_datestamp (codes "1979-01-01 01:01:03") ≡ some new_year
unfolding parse_datestamp scan_civil scan_fields scan_then scan_blank scan_end natural expect
    scan_int scan_signed scan_digits signed_value skip_spaces is_space is_digit digits_from
    starts_with_digit in_range stamp_of is_leap month_days mdays add_years add_months year_days
parse_run = refl

parse_datestamp-IsClock_example : IsClock new_year × (whole_seconds new_year ≡ new_year)
parse_datestamp-IsClock_example =
    parse_datestamp-IsClock (codes "1979-01-01 01:01:03") new_year parse_run
