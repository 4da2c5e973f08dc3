-- ===== src/File/Dates/Years.antt =====
-- The loops over the years: the search for the year of a day ends, and is undone by the sum.
use amigactl.Prelude.{
  ℕ, zero, suc, ◌+◌, ◌-◌, ◌≤◌, ◌<◌, Bool, true, false, Option, some, ◌≡◌, refl, ap, ◌∙◌, arith, ltb,
  if◌then◌else◌, Bool-cases, inl, inr, subst,
}
use amigactl.File.Dates.{is_leap, leap_of, year_days, find_year, add_years, ymd_year}

pub year_days_positive : (leap : Bool) → 0 < year_days leap
unfolding year_days
year_days_positive true = omega arith
year_days_positive false = omega arith

pub add_years-total :
    (rounds year total : ℕ) → add_years rounds year total ≡ total + add_years rounds year 0
unfolding add_years
add_years-total zero year total = omega arith
add_years-total (suc rounds) year total =
    let d = year_days (is_leap year) in
    omega (
      arith,
      add_years-total rounds (year + 1) (total + d),
      add_years-total rounds (year + 1) (0 + d),
    )

-- The year lies `later` years after the first, and `left` days of it come before the day.
pub record Found (days year : ℕ) (r : Option (ℕ × ℕ)) : Type 0 where
  pub later : ℕ
  pub left : ℕ
  pub ends : r ≡ some (year + later, left)
  pub sum : add_years later year 0 + left ≡ days
  pub within : left < year_days (is_leap (year + later))

pub find_year-Found :
    (fuel days year : ℕ) → days < fuel → Found days year (find_year fuel days year)
unfolding find_year add_years
find_year-Found zero days year lt = absurd (omega arith)
find_year-Found (suc fuel) days year lt =
    let dim = year_days (is_leap year) in
    elim (Bool-cases (ltb days dim)) [
      | inl e ↦
          let same : year ≡ year + 0 = omega arith in
          rw e (record {
            later = 0;
            left = days;
            ends = ap (λ y. some (y, days)) same;
            sum = omega arith;
            within = subst (λ y. days < year_days (is_leap y)) same (ground arith);
          })
      | inr e ↦
          let big : dim ≤ days = ground arith in
          let f =
            find_year-Found fuel (days - dim) (year + 1)
              (omega (arith, year_days_positive (is_leap year))) in
          let same : year + 1 + f.later ≡ year + suc f.later = omega arith in
          rw e (record {
            later = suc f.later;
            left = f.left;
            ends = f.ends ∙ ap (λ y. some (y, f.left)) same;
            sum = omega (arith, f.sum, add_years-total f.later (year + 1) (0 + dim));
            within = subst (λ y. f.left < year_days (is_leap y)) same f.within;
          })
    ]

-- The two ways of writing the rule of leap years agree.
pub leap_of-is_leap : (year : ℕ) → leap_of year ≡ is_leap year
unfolding leap_of is_leap
leap_of-is_leap year = ground arith

days_in_year : (year : ℕ) → 365 + (if leap_of year then 1 else 0) ≡ year_days (is_leap year)
unfolding year_days
days_in_year year = rw (leap_of-is_leap year) (by_leap (is_leap year))
  where
    by_leap : (leap : Bool) → 365 + (if leap then 1 else 0) ≡ (if leap then 366 else 365)
    by_leap true = omega arith
    by_leap false = omega arith

pub ymd_year-find_year : (fuel days year : ℕ) → ymd_year fuel days year ≡ find_year fuel days year
unfolding ymd_year find_year
ymd_year-find_year zero days year = refl
ymd_year-find_year (suc fuel) days year =
    rw (days_in_year year, ymd_year-find_year fuel (days - year_days (is_leap year)) (year + 1))
      refl
