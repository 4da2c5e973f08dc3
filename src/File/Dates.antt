-- ===== src/File/Dates.antt =====
-- Datestamps as text: `format_datestamp` and `parse_datestamp` of daemon/file.c, and the conversion
-- of a day's number in daemon/trace.c. Days count from 1 January 1978; the days of a stamp are not
-- negative here.
pub mod Years
pub mod Months
pub mod Calendar
pub mod Text
mod Tests
use amigactl.Prelude.{
  ℕ, zero, suc, ◌+◌, ◌-◌, ◌*◌, ◌/◌, ◌%◌, Bool, true, false, not, ◌&&◌, ◌||◌, List, [], ◌∷◌, ◌++◌,
  Option, none, some, ◌==◌, ltb, leb, if◌then◌else◌, length, get_elem?, replicate, decimal, codes,
}
use amigactl.Prelude.Int.{ℤ, pos, negsuc}
use amigactl.Prelude.Strtol.{skip_spaces}
use amigactl.Prelude.Scan.{scan_int}
use amigactl.Arexx.{DateStamp}

abbrev pub ticks_per_second : ℕ
ticks_per_second = 50

abbrev pub epoch_year : ℕ
epoch_year = 1978

unfoldable pub is_leap : ℕ → Bool
is_leap year = ((year % 4 == 0) && not (year % 100 == 0)) || (year % 400 == 0)

unfoldable pub year_days : Bool → ℕ
year_days leap = if leap then 366 else 365

-- The table `mdays`; 0 beyond its end, where the code never looks.
unfoldable pub mdays : ℕ → ℕ
mdays month =
    let days : List ℕ = 31 ∷ 28 ∷ 31 ∷ 30 ∷ 31 ∷ 30 ∷ 31 ∷ 31 ∷ 30 ∷ 31 ∷ 30 ∷ 31 ∷ [] in
    elim (get_elem? days month) [ none ↦ 0 | some d ↦ d ]

-- A month is counted from 0.
unfoldable pub month_days : Bool → ℕ → ℕ
month_days leap month = if (month == 1) && leap then 29 else mdays month

-- The year in which a day falls, and the days of that year before it; `none` if the fuel ran out.
unfoldable pub find_year : ℕ → ℕ → ℕ → Option (ℕ × ℕ)
find_year zero remaining year = none
find_year (suc fuel) remaining year =
    let dim = year_days (is_leap year) in
    let rest = find_year fuel (remaining - dim) (year + 1) in
    if ltb remaining dim then some (year, remaining) else rest

-- `while (month < 11)`, with the rounds that are left.
unfoldable pub find_month : Bool → ℕ → ℕ → ℕ → ℕ × ℕ
find_month leap zero month remaining = (month, remaining)
find_month leap (suc rounds) month remaining =
    let dim = month_days leap month in
    let rest = find_month leap rounds (month + 1) (remaining - dim) in
    if ltb remaining dim then (month, remaining) else rest

pub record Civil : Type 0 where
  pub year : ℕ
  pub month : ℕ
  pub day : ℕ
  pub hours : ℕ
  pub minutes : ℕ
  pub seconds : ℕ

-- The fields that `format_datestamp` prints.
unfoldable pub civil : DateStamp → ℕ × ℕ → Civil
civil ds (year, remaining) =
    let (month, days) = find_month (is_leap year) 11 0 remaining in
    record {
      year = year;
      month = month + 1;
      day = days + 1;
      hours = ds.minute / 60;
      minutes = ds.minute % 60;
      seconds = ds.tick / ticks_per_second;
    }

unfoldable pub civil_of : DateStamp → Option Civil
civil_of ds = elim (find_year (suc ds.days) ds.days epoch_year) [
  | none ↦ none
  | some r ↦ some (civil ds r)
]

-- `%0<width>d`
unfoldable pub padded : ℕ → ℕ → List ℕ
padded width n = replicate (width - length (decimal n)) 48 ++ decimal n

unfoldable pub print_civil : Civil → List ℕ
print_civil c =
    padded 4 c.year
    ++ (45
        ∷ (padded 2 c.month
            ++ (45
                ∷ (padded 2 c.day
                    ++ (32
                        ∷ (padded 2 c.hours
                            ++ (58 ∷ (padded 2 c.minutes ++ (58 ∷ padded 2 c.seconds)))))))))

unfoldable pub format_datestamp : DateStamp → Option (List ℕ)
format_datestamp ds = elim (civil_of ds) [ none ↦ none | some c ↦ some (print_civil c) ]

-- The literal `c` of a `sscanf` format.
unfoldable pub expect : ℕ → List ℕ → Option (List ℕ)
expect c [] = none
expect c (d ∷ s) = if d == c then some s else none

-- `%d` and a literal.
unfoldable pub scan_then : ℕ → List ℕ → Option (ℤ × List ℕ)
scan_then c s = elim (scan_int s) [
  | none ↦ none
  | some (v, rest) ↦ elim (expect c rest) [ none ↦ none | some rest' ↦ some (v, rest') ]
]

-- `%d` and a blank in the format, which stands for any spaces.
unfoldable pub scan_blank : List ℕ → Option (ℤ × List ℕ)
scan_blank s = elim (scan_int s) [ none ↦ none | some (v, rest) ↦ some (v, skip_spaces rest) ]

-- The last `%d`; a byte behind it goes to the `%c`, and the count is not 6.
unfoldable pub scan_end : List ℕ → Option ℤ
scan_end s = elim (scan_int s) [ none ↦ none | some (v, []) ↦ some v | some (v, c ∷ rest) ↦ none ]

infixl 5 ◌>>=◌
abbrev pub ◌>>=◌ : {A B : Type 0} → Option A → (A → Option B) → Option B
none >>= f = none
some a >>= f = f a

-- A number that the code tests to be at least 0 or 1.
unfoldable pub natural : ℤ → Option ℕ
natural (pos n) = some n
natural (negsuc n) = none

unfoldable pub scan_fields : List ℕ → Option (ℤ × ℤ × ℤ × ℤ × ℤ × ℤ)
scan_fields str = do
  (year, s1) ← scan_then 45 str
  (month, s2) ← scan_then 45 s1
  (day, s3) ← scan_blank s2
  (hours, s4) ← scan_then 58 s3
  (minutes, s5) ← scan_then 58 s4
  seconds ← scan_end s5
  some (year, month, day, hours, minutes, seconds)

-- The six numbers, none of them negative: a negative one fails a range test.
unfoldable pub scan_civil : List ℕ → Option Civil
scan_civil str = do
  (year, month, day, hours, minutes, seconds) ← scan_fields str
  y ← natural year
  m ← natural month
  d ← natural day
  h ← natural hours
  n ← natural minutes
  s ← natural seconds
  some (record { year = y; month = m; day = d; hours = h; minutes = n; seconds = s })

unfoldable pub in_range : Civil → Bool
in_range c =
    leb epoch_year c.year
    && (leb 1 c.month
        && (leb c.month 12
            && (leb c.hours 23
                && (leb c.minutes 59
                    && (leb c.seconds 59
                        && (leb 1 c.day
                            && leb c.day (month_days (is_leap c.year) (c.month - 1))))))))

-- The days of the years from `year` on, added to `total`.
unfoldable pub add_years : ℕ → ℕ → ℕ → ℕ
add_years zero year total = total
add_years (suc rounds) year total = add_years rounds (year + 1) (total + year_days (is_leap year))

unfoldable pub add_months : Bool → ℕ → ℕ → ℕ → ℕ
add_months leap zero i total = total
add_months leap (suc rounds) i total =
    add_months leap rounds (i + 1) (total + mdays i + (if (i == 1) && leap then 1 else 0))

unfoldable pub stamp_of : Civil → DateStamp
stamp_of c = record {
  days =
      add_months (is_leap c.year) (c.month - 1) 0 (add_years (c.year - epoch_year) epoch_year 0)
      + (c.day - 1);
  minute = c.hours * 60 + c.minutes;
  tick = c.seconds * ticks_per_second;
}

unfoldable pub parse_datestamp : List ℕ → Option DateStamp
parse_datestamp str = do c ← scan_civil str; if in_range c then some (stamp_of c) else none

-- `amiga_days_to_ymd` of daemon/trace.c: its leap year, and its loop over twelve months.
unfoldable pub leap_of : ℕ → Bool
leap_of y = (y % 4 == 0) && (not (y % 100 == 0) || (y % 400 == 0))

unfoldable pub ymd_year : ℕ → ℕ → ℕ → Option (ℕ × ℕ)
ymd_year zero days y = none
ymd_year (suc fuel) days y =
    let yd = 365 + (if leap_of y then 1 else 0) in
    let rest = ymd_year fuel (days - yd) (y + 1) in if ltb days yd then some (y, days) else rest

unfoldable pub ymd_month : Bool → ℕ → ℕ → ℕ → ℕ × ℕ
ymd_month leap zero m days = (m, days)
ymd_month leap (suc rounds) m days =
    let md = mdays m + (if (m == 1) && leap then 1 else 0) in
    let rest = ymd_month leap rounds (m + 1) (days - md) in if ltb days md then (m, days) else rest

unfoldable pub ymd_of : ℕ × ℕ → ℕ × ℕ × ℕ
ymd_of (y, left) = let (m, days) = ymd_month (leap_of y) 12 0 left in (y, m + 1, days + 1)

unfoldable pub amiga_days_to_ymd : ℕ → Option (ℕ × ℕ × ℕ)
amiga_days_to_ymd days = elim (ymd_year (suc days) days epoch_year) [
  | none ↦ none
  | some r ↦ some (ymd_of r)
]
