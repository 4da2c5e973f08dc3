-- ===== src/File/Dates/Months.antt =====
-- The loops over the months of a year.
use amigactl.Prelude.{
  ℕ, zero, suc, ◌+◌, ◌-◌, ◌≤◌, ◌<◌, Bool, true, false, ◌&&◌, ◌≡◌, refl, ap, ◌∙◌, subst, arith, ◌==◌,
  ==_iff, ltb, if◌then◌else◌, Bool-cases, inl, inr,
}
use amigactl.File.Dates.{mdays, month_days, year_days, find_month, add_months, ymd_month}

february : mdays 1 + 1 ≡ 29
unfolding mdays
february = refl

-- The two ways of writing the length of a month agree.
pub month_length :
    (leap : Bool) (i : ℕ) → mdays i + (if (i == 1) && leap then 1 else 0) ≡ month_days leap i
unfolding month_days
month_length false i = by_test (i == 1)
  where
    by_test :
        (b : Bool) → mdays i + (if b && false then 1 else 0) ≡ (if b && false then 29 else mdays i)
    by_test true = omega arith
    by_test false = omega arith
month_length true i = elim (Bool-cases (i == 1)) [
  | inl e ↦ rw ((==_iff i 1).0 e) february
  | inr e ↦ rw e (omega arith)
]

pub add_months-total :
    (leap : Bool) (rounds i total : ℕ)
    → add_months leap rounds i total ≡ total + add_months leap rounds i 0
unfolding add_months
add_months-total leap zero i total = omega arith
add_months-total leap (suc rounds) i total =
    let d = mdays i in
    let extra : ℕ = if (i == 1) && leap then 1 else 0 in
    omega (
      arith,
      add_months-total leap rounds (i + 1) (total + d + extra),
      add_months-total leap rounds (i + 1) (0 + d + extra),
    )

-- The days of a month and of so many months after it.
span : Bool → ℕ → ℕ → ℕ
span leap zero month = month_days leap month
span leap (suc rounds) month = month_days leap month + span leap rounds (month + 1)

record FoundMonth (leap : Bool) (rounds month days : ℕ) (r : ℕ × ℕ) : Type 0 where
  later : ℕ
  left : ℕ
  at : r ≡ (month + later, left)
  in_year : later ≤ rounds
  sum : add_months leap later month 0 + left ≡ days
  within : left < month_days leap (month + later)

find_month-FoundMonth :
    (leap : Bool) (rounds month days : ℕ)
    → days < span leap rounds month
    → FoundMonth leap rounds month days (find_month leap rounds month days)
unfolding find_month span add_months
find_month-FoundMonth leap zero month days lt =
    let same : month ≡ month + 0 = omega arith in
    record {
      later = 0;
      left = days;
      at = ap (λ m. (m, days)) same;
      in_year = omega arith;
      sum = omega arith;
      within = subst (λ m. days < month_days leap m) same lt;
    }
find_month-FoundMonth leap (suc rounds) month days lt =
    let dim = month_days leap month in
    elim (Bool-cases (ltb days dim)) [
      | inl e ↦
          let same : month ≡ month + 0 = omega arith in
          rw e (record {
            later = 0;
            left = days;
            at = ap (λ m. (m, days)) same;
            in_year = omega arith;
            sum = omega arith;
            within = subst (λ m. days < month_days leap m) same (ground arith);
          })
      | inr e ↦
          let big : dim ≤ days = ground arith in
          let f = find_month-FoundMonth leap rounds (month + 1) (days - dim) (omega arith) in
          let same : month + 1 + f.later ≡ month + suc f.later = omega arith in
          let extra : ℕ = if (month == 1) && leap then 1 else 0 in
          rw e (record {
            later = suc f.later;
            left = f.left;
            at = f.at ∙ ap (λ m. (m, f.left)) same;
            in_year = omega (arith, f.in_year);
            sum = omega (
              arith,
              f.sum,
              month_length leap month,
              add_months-total leap f.later (month + 1) (0 + mdays month + extra),
            );
            within = subst (λ m. f.left < month_days leap m) same f.within;
          })
    ]

year_span : (leap : Bool) → span leap 11 0 ≡ year_days leap
unfolding span month_days mdays year_days
year_span true = refl
year_span false = refl

pub record InYear (leap : Bool) (days : ℕ) (r : ℕ × ℕ) : Type 0 where
  pub month : ℕ
  pub left : ℕ
  pub at : r ≡ (month, left)
  pub low : month ≤ 11
  pub sum : add_months leap month 0 0 + left ≡ days
  pub within : left < month_days leap month

-- A day of a year falls into one of its twelve months.
pub find_month-InYear :
    (leap : Bool) (days : ℕ) → days < year_days leap → InYear leap days (find_month leap 11 0 days)
find_month-InYear leap days lt =
    let f = find_month-FoundMonth leap 11 0 days (omega (arith, year_span leap)) in
    let same : 0 + f.later ≡ f.later = omega arith in
    record {
      month = f.later;
      left = f.left;
      at = f.at ∙ ap (λ m. (m, f.left)) same;
      low = f.in_year;
      sum = f.sum;
      within = subst (λ m. f.left < month_days leap m) same f.within;
    }

ymd_month-find_month :
    (leap : Bool) (rounds m days : ℕ)
    → days < span leap rounds m
    → ymd_month leap (suc rounds) m days ≡ find_month leap rounds m days
unfolding ymd_month find_month span
ymd_month-find_month leap zero m days lt =
    let short : ltb days (month_days leap m) ≡ true = ground arith in
    rw (month_length leap m, short) refl
ymd_month-find_month leap (suc rounds) m days lt =
    elim (Bool-cases (ltb days (month_days leap m))) [
      | inl e ↦ rw (month_length leap m, e) refl
      | inr e ↦
          rw (month_length leap m, e)
            (ymd_month-find_month leap rounds (m + 1) (days - month_days leap m) (ground arith))
    ]

-- The loop of trace.c over twelve months stops where that of file.c does.
pub ymd_month-in_year :
    (leap : Bool) (days : ℕ)
    → days < year_days leap
    → ymd_month leap 12 0 days ≡ find_month leap 11 0 days
ymd_month-in_year leap days lt = ymd_month-find_month leap 11 0 days (omega (arith, year_span leap))
