-- ===== src/TimeExpr/Weekdays.antt =====
-- `most_recent_past` of src/time_expr.rs: the loop ends, and where.
use whenfs.Prelude.{
  ℕ, zero, suc, ◌+◌, ◌-◌, ◌≤◌, ◌<◌, ◌≡◌, refl, inl, inr, ◌⊎◌, ap, sym, subst, ◌∙◌, true, false,
  none, some, arith, if◌then◌else◌, ltb, eqb, Bool-cases, Option-cases,
}
use whenfs.TimeExpr.{
  Calendar, Weekday, mon, tue, wed, thu, fri, sat, sun, number, weekday_eq, days, Outcome, panicked,
}
use whenfs.TimeExpr.Resolve.{past_loop, end_of_day, most_recent_past}

abbrev pub day_before : Weekday → Weekday
day_before mon = sun
day_before tue = mon
day_before wed = tue
day_before thu = wed
day_before fri = thu
day_before sat = fri
day_before sun = sat

-- The day before a date has the weekday before its own.
abbrev pub HasWeeks : Calendar → Type 0
HasWeeks cal =
    (d e : cal.NaiveDate)
    → cal.date_minus days 1 d ≡ some e
    → cal.weekday e ≡ day_before (cal.weekday d)

-- How many days before one weekday the last other one lies, from 1 to 7.
abbrev pub days_since : Weekday → Weekday → ℕ
days_since a wd =
    if ltb (number wd) (number a) then number a - number wd else number a + 7 - number wd

number-day_before :
    (a : Weekday) → number (day_before a) ≡ (if eqb (number a) 0 then 6 else number a - 1)
number-day_before mon = refl
number-day_before tue = refl
number-day_before wed = refl
number-day_before thu = refl
number-day_before fri = refl
number-day_before sat = refl
number-day_before sun = refl

number_le : (a : Weekday) → number a ≤ 6
number_le mon = omega arith
number_le tue = omega arith
number_le wed = omega arith
number_le thu = omega arith
number_le fri = omega arith
number_le sat = omega arith
number_le sun = omega arith

days_since_step :
    (a wd : Weekday)
    → weekday_eq (day_before a) wd ≡ false
    → days_since a wd ≡ suc (days_since (day_before a) wd)
days_since_step a wd h =
    ground (arith, number-day_before a, number_le a, number_le wd, number_le (day_before a))

-- So many days before a date, which may be none, lies another.
pub data IsBack (cal : Calendar) : cal.NaiveDate → ℕ → cal.NaiveDate → Type 0 where
  same : {d : cal.NaiveDate} → IsBack cal d 0 d
  more :
      {n : ℕ} {d e f : cal.NaiveDate}
      → cal.date_minus days 1 d ≡ some e
      → IsBack cal e n f
      → IsBack cal d (suc n) f

-- The day on which the loop stops; or, before it is reached, a day that has none before it.
abbrev pub Past : (cal : Calendar) → Weekday → cal.NaiveDate → Outcome cal.DateTime → Type 0
Past cal wd d r =
    ((e : cal.NaiveDate) × IsBack cal d (days_since (cal.weekday d) wd) e
      × (weekday_eq (cal.weekday e) wd ≡ true)
      × (r ≡ end_of_day cal e))
    ⊎ ((k : ℕ) × (e : cal.NaiveDate) × (k < days_since (cal.weekday d) wd)
        × IsBack cal d k e
        × (cal.date_minus days 1 e ≡ none)
        × (r ≡ panicked))

days_since_here : (a wd : Weekday) → weekday_eq (day_before a) wd ≡ true → days_since a wd ≡ 1
days_since_here a wd h =
    ground (arith, number-day_before a, number_le a, number_le wd, number_le (day_before a))

days_since_pos : (a wd : Weekday) → 0 < days_since a wd
days_since_pos a wd = ground (arith, number_le wd)

module _ (cal : Calendar) (week : HasWeeks cal) (wd : Weekday) where
  here_in_one :
      (d e : cal.NaiveDate)
      → cal.date_minus days 1 d ≡ some e
      → weekday_eq (cal.weekday e) wd ≡ true
      → days_since (cal.weekday d) wd ≡ 1
  here_in_one d e step found = days_since_here (cal.weekday d) wd (rw (← week d e step) found)

  days_since_further :
      (d e : cal.NaiveDate)
      → cal.date_minus days 1 d ≡ some e
      → weekday_eq (cal.weekday e) wd ≡ false
      → days_since (cal.weekday d) wd ≡ suc (days_since (cal.weekday e) wd)
  days_since_further d e step other =
      days_since_step (cal.weekday d) wd (rw (← week d e step) other)
      ∙ ap (λ a. suc (days_since a wd)) (sym (week d e step))

  past_loop-Past :
      (rounds : ℕ) (d : cal.NaiveDate)
      → days_since (cal.weekday d) wd ≤ rounds
      → Past cal wd d (past_loop cal rounds wd d)
  unfolding past_loop
  past_loop-Past zero d h =
      let none_left : ⊥ = ground (arith, number_le wd, number_le (cal.weekday d)) in
      elim none_left [ ]
  past_loop-Past (suc rounds) d h = elim (Option-cases (cal.date_minus days 1 d)) [
    | inl e ↦ inr (0, d, days_since_pos (cal.weekday d) wd, same, e, rw (past_loop, e) refl)
    | inr (e, step) ↦ elim (Bool-cases (weekday_eq (cal.weekday e) wd)) [
      | inl found ↦ inl (
        e,
        subst (λ k. IsBack cal d k e) (sym (here_in_one d e step found)) (more step same),
        found,
        rw (past_loop, step, found) refl,
      )
      | inr other ↦
          let further = days_since_further d e step other in
          elim (past_loop-Past rounds e (omega (arith, further, h))) [
            | inl (f, way, found, r) ↦ inl (
              f,
              subst (λ k. IsBack cal d k f) (sym further) (more step way),
              found,
              rw (past_loop, step, other) r,
            )
            | inr (k, f, less, way, first, r) ↦ inr (
              suc k,
              f,
              omega (arith, further, less),
              more step way,
              first,
              rw (past_loop, step, other) r,
            )
          ]
    ]
  ]

  -- Where a week has its seven days, the loop of `most_recent_past` ends within seven rounds: on the
  -- last day before today that has the weekday, from one to seven days back, with the end of that
  -- day; or, only if the calendar has no day before today or before a day between that one and today,
  -- with the panic of the subtraction.
  pub most_recent_past-Past :
      (now : cal.DateTime)
      → Past cal wd (cal.date_naive now) (most_recent_past cal wd now)
        × (days_since (cal.weekday (cal.date_naive now)) wd ≤ 7)
  unfolding most_recent_past
  most_recent_past-Past now =
      let d = cal.date_naive now in
      let week_long : days_since (cal.weekday d) wd ≤ 7 =
        ground (arith, number_le wd, number_le (cal.weekday d)) in
      (past_loop-Past 7 d week_long, week_long)
