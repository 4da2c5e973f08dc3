-- ===== src/File/Dates/Calendar.antt =====
-- The fields of a stamp: they are in their ranges and give the stamp back, and both files of the
-- daemon find the same day.
use amigactl.Prelude.{
  ℕ, suc, ◌+◌, ◌-◌, ◌*◌, ◌/◌, ◌%◌, ◌≤◌, ◌<◌, Bool, true, ◌&&◌, Option, none, some, ◌≡◌, refl, arith,
  leb, le→leb, List, Option-cases, Bool-cases, inl, inr, subst, if◌then◌else◌,
}
use amigactl.Arexx.{DateStamp}
use amigactl.File.Dates.{
  epoch_year, ticks_per_second, is_leap, year_days, month_days, Civil, civil, civil_of, in_range,
  stamp_of, add_years, add_months, parse_datestamp, scan_civil, ymd_of, amiga_days_to_ymd,
}
use amigactl.File.Dates.Years.{find_year-Found, leap_of-is_leap, ymd_year-find_year}
use amigactl.File.Dates.Months.{find_month-InYear, add_months-total, ymd_month-in_year}

-- The stamp of a clock: a minute of the day and a tick of the minute.
pub record IsClock (ds : DateStamp) : Type 0 where
  pub minute_low : ds.minute < 1440
  pub tick_low : ds.tick < 3000

-- The stamp without the part of a second.
abbrev pub whole_seconds : DateStamp → DateStamp
whole_seconds ds = record ds { tick = ds.tick / ticks_per_second * ticks_per_second }

-- Fields that are in range and stand for the stamp.
pub record Fields (ds : DateStamp) (c : Civil) : Type 0 where
  pub range : in_range c ≡ true
  pub stamp : stamp_of c ≡ whole_seconds ds

and_true : (a b : Bool) → a ≡ true → b ≡ true → (a && b) ≡ true
and_true a b e f = rw (e, f) refl

and_leb : (i n : ℕ) (b : Bool) → i ≤ n → b ≡ true → (leb i n && b) ≡ true
and_leb i n b e f = and_true (leb i n) b (le→leb i n e) f

month-Fields :
    (ds : DateStamp) (later left month day : ℕ)
    → IsClock ds
    → add_years later epoch_year 0 + left ≡ ds.days
    → month ≤ 11
    → add_months (is_leap (epoch_year + later)) month 0 0 + day ≡ left
    → day < month_days (is_leap (epoch_year + later)) month
    → Fields ds (record {
      year = epoch_year + later;
      month = month + 1;
      day = day + 1;
      hours = ds.minute / 60;
      minutes = ds.minute % 60;
      seconds = ds.tick / ticks_per_second;
    })
unfolding in_range stamp_of
month-Fields ds later left month day v sum low sum' short =
    let leap = is_leap (epoch_year + later) in
    let month_back : month + 1 - 1 ≡ month = omega arith in
    let year_back : epoch_year + later - epoch_year ≡ later = omega arith in
    record {
      range = and_leb epoch_year (epoch_year + later) _ (omega arith) (
          and_leb 1 (month + 1) _ (omega arith) (
            and_leb (month + 1) 12 _ (omega arith) (
              and_leb (ds.minute / 60) 23 _ (omega (arith, v.minute_low)) (
                and_leb (ds.minute % 60) 59 _ (omega arith) (
                  and_leb (ds.tick / 50) 59 _ (omega (arith, v.tick_low)) (
                    and_leb 1 (day + 1) _ (omega arith)
                      (le→leb (day + 1) _ (rw month_back (omega (arith, short))))))))));
      stamp =
          let days : add_months leap month 0 (add_years later epoch_year 0) + (day + 1 - 1)
              ≡ ds.days =
            omega (arith, add_months-total leap month 0 (add_years later epoch_year 0)) in
          let minute : ds.minute / 60 * 60 + ds.minute % 60 ≡ ds.minute = omega arith in
          rw (month_back, year_back, days, minute) refl;
    }

civil-Fields :
    (ds : DateStamp) (later left : ℕ)
    → IsClock ds
    → add_years later epoch_year 0 + left ≡ ds.days
    → left < year_days (is_leap (epoch_year + later))
    → Fields ds (civil ds (epoch_year + later, left))
unfolding civil
civil-Fields ds later left v sum within =
    let f = find_month-InYear (is_leap (epoch_year + later)) left within in
    rw f.at (month-Fields ds later left f.month f.left v sum f.low f.sum f.within)

pub civil_of-Fields :
    (ds : DateStamp) → IsClock ds → (c : Civil) × (civil_of ds ≡ some c) × Fields ds c
unfolding civil_of
civil_of-Fields ds v =
    let f = find_year-Found (suc ds.days) ds.days epoch_year (omega arith) in
    (
      civil ds (epoch_year + f.later, f.left),
      rw (f.ends, civil_of) refl,
      civil-Fields ds f.later f.left v f.sum f.within,
    )

abbrev pub date_of : Civil → ℕ × ℕ × ℕ
date_of c = (c.year, c.month, c.day)

-- The converter of the trace service finds, for every day, a year, a month and a day of the month:
-- those that `format_datestamp` prints.
pub amiga_days_to_ymd-civil_of :
    (ds : DateStamp)
    → (c : Civil) × (civil_of ds ≡ some c) × (amiga_days_to_ymd ds.days ≡ some (date_of c))
unfolding civil_of amiga_days_to_ymd civil ymd_of
amiga_days_to_ymd-civil_of ds =
    let f = find_year-Found (suc ds.days) ds.days epoch_year (omega arith) in
    let year = epoch_year + f.later in
    let m = find_month-InYear (is_leap year) f.left f.within in
    let same_years = ymd_year-find_year (suc ds.days) ds.days epoch_year in
    let same_months = ymd_month-in_year (is_leap year) f.left f.within in
    (
      civil ds (year, f.left),
      rw (f.ends, civil_of) refl,
      rw (same_years, f.ends, amiga_days_to_ymd, leap_of-is_leap year, same_months, m.at) refl,
    )

range-IsClock : (c : Civil) → in_range c ≡ true → IsClock (stamp_of c)
unfolding in_range stamp_of
range-IsClock c h = record { minute_low = ground arith; tick_low = ground arith }

whole_stamp : (c : Civil) → whole_seconds (stamp_of c) ≡ stamp_of c
unfolding stamp_of
whole_stamp c = let e : c.seconds * 50 / 50 * 50 ≡ c.seconds * 50 = omega arith in rw e refl

-- Every stamp that `parse_datestamp` returns has a minute below 1440 and a tick below 3000, and
-- its ticks are whole seconds.
pub parse_datestamp-IsClock :
    (str : List ℕ) (ds : DateStamp)
    → parse_datestamp str ≡ some ds
    → IsClock ds × (whole_seconds ds ≡ ds)
unfolding parse_datestamp
parse_datestamp-IsClock str ds h = elim (Option-cases (scan_civil str)) [
  | inl e ↦ let h' : ◌≡◌ {A = Option DateStamp} none (some ds) = rw e at h in absurd cc
  | inr (c, e) ↦
      let h' : (if in_range c then some (stamp_of c) else none) ≡ some ds = rw e at h in
      elim (Bool-cases (in_range c)) [
        | inl r ↦
            let h2 : ◌≡◌ {A = Option DateStamp} (some (stamp_of c)) (some ds) = rw r at h' in
            let same : stamp_of c ≡ ds = cc in
            subst (λ ds. IsClock ds × (whole_seconds ds ≡ ds)) same
              (range-IsClock c r, whole_stamp c)
        | inr r ↦ let h2 : ◌≡◌ {A = Option DateStamp} none (some ds) = rw r at h' in absurd cc
      ]
]
