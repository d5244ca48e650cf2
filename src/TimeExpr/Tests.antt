-- ===== src/TimeExpr/Tests.antt =====
-- Runs of src/time_expr.rs on a small calendar, and the theorems there.
use whenfs.Prelude.{
  ℕ, zero, suc, ◌-◌, ◌/◌, ◌+◌, ◌*◌, ◌≤◌, ◌≡◌, refl, sym, ◌⊎◌, true, Option, none, some, List, [],
  ◌∷◌, leb, eqb, if◌then◌else◌, All, arith,
}
use whenfs.Prelude.Text.{Text, text, text_eq, strip_prefix}
use whenfs.Prelude.Member.{In, here}
use whenfs.FilePath.{FilePath, normal}
use whenfs.TimeExpr.{
  Calendar, Weekday, mon, tue, wed, thu, fri, sat, sun, Span, minutes, hours, days, weeks, DirEntry,
  done, weekday_from_str, parse_i64, split_once, split_digits, strip_suffix,
}
use whenfs.TimeExpr.Resolve.{
  resolve_target, most_recent_past, find_nearest, path_of_best, parse_snapshot_name, end_of_day,
  nearest_loop, past_loop, parse_relative, parse_unit,
}
use whenfs.TimeExpr.Weekdays.{HasWeeks, Past, day_before, days_since, most_recent_past-Past}
use whenfs.TimeExpr.Nearest.{IsOrder, candidate, best_le, find_nearest-Newest, find_nearest_hidden}

abbrev day_after : Weekday → Weekday
day_after mon = tue
day_after tue = wed
day_after wed = thu
day_after thu = fri
day_after fri = sat
day_after sat = sun
day_after sun = mon

abbrev weekday_of : ℕ → Weekday
weekday_of zero = mon
weekday_of (suc d) = day_after (weekday_of d)

abbrev seconds : Span → ℕ
seconds minutes = 60
seconds hours = 3600
seconds days = 86400
seconds weeks = 604800

abbrev span_days : Span → ℕ
span_days weeks = 7
span_days _ = 1

abbrev day_earlier : ℕ → Option ℕ
day_earlier zero = none
day_earlier (suc d) = some d

abbrev earlier : Span → ℕ → ℕ → Option ℕ
earlier days (suc zero) d = day_earlier d
earlier span n d = some (d - n * span_days span)

-- `@` and a character of the code c stand for the instant c.
abbrev parse : Text → Option ℕ
parse (a ∷ c ∷ []) = if eqb a b'@' then some c else none
parse _ = none

-- Seconds and days from a Monday on.
abbrev calendar : Calendar
calendar = record {
  DateTime = ℕ;
  NaiveDateTime = ℕ;
  NaiveDate = ℕ;
  format = λ f t. t ∷ [];
  parse_date_time = λ s f. parse s;
  parse_date = λ s f. none;
  local_single = λ t. some t;
  last_second = λ d. d * 86400 + 86399;
  date_naive = λ t. t / 86400;
  weekday = weekday_of;
  minus = λ span n t. some (t - n * seconds span);
  date_minus = earlier;
  checked_sub_months = λ n d. some (d - n * 30);
  le = leb;
}

day_before-day_after : (w : Weekday) → day_before (day_after w) ≡ w
day_before-day_after mon = refl
day_before-day_after tue = refl
day_before-day_after wed = refl
day_before-day_after thu = refl
day_before-day_after fri = refl
day_before-day_after sat = refl
day_before-day_after sun = refl

calendar-HasWeeks : HasWeeks calendar
calendar-HasWeeks zero e h = cc h
calendar-HasWeeks (suc d) e h =
    let same : d ≡ e = cc h in rw (← same) (sym (day_before-day_after (weekday_of d)))

calendar-IsOrder : IsOrder calendar
calendar-IsOrder = record { trans = λ a b c p q. ground arith; total = λ a b p. ground arith }

two_hours_ago : resolve_target calendar (text "2h-ago") 10000 ≡ done (some 2800)
unfolding resolve_target parse_snapshot_name parse_relative strip_suffix strip_prefix split_once
    split_digits parse_i64 parse_unit text_eq
two_hours_ago = refl

last_friday : resolve_target calendar (text "last-Friday") 864000 ≡ done (some 431999)
unfolding resolve_target parse_snapshot_name parse_relative strip_suffix strip_prefix
    weekday_from_str most_recent_past past_loop end_of_day text_eq
last_friday = refl

most_recent_past-Past_example :
    Past calendar fri 10 (most_recent_past calendar fri 864000)
    × (days_since (weekday_of 10) fri ≤ 7)
most_recent_past-Past_example = most_recent_past-Past calendar calendar-HasWeeks fri 864000

abbrev entry : Text → Text → Option DirEntry
entry name path = some (record { name = some name; path = normal path ∷ [] })

abbrev entries : List (Option DirEntry)
entries =
    entry (text "@a") (text "a")
    ∷ entry (text "notes") (text "n")
    ∷ entry (text "@c") (text "c")
    ∷ entry (text "@b") (text "b")
    ∷ []

finds_the_newest : find_nearest calendar (some entries) 98 ≡ some (normal (text "b") ∷ [])
unfolding find_nearest nearest_loop parse_snapshot_name
finds_the_newest = refl

find_nearest-Newest_example :
    (b : Option (ℕ × FilePath)) × (find_nearest calendar (some entries) 98
      ≡ path_of_best calendar (some b))
    × All (λ o. best_le calendar (candidate calendar 98 o) b ≡ true) entries
    × ((b ≡ none) ⊎ ((o : Option DirEntry) × In o entries × (candidate calendar 98 o ≡ b)))
find_nearest-Newest_example =
    find_nearest-Newest calendar calendar-IsOrder 98 entries (refl, (refl, (refl, (refl, tt))))

abbrev odd : Option DirEntry
odd = some (record { name = none; path = [] })

find_nearest_hidden_example : find_nearest calendar (some (odd ∷ entries)) 98 ≡ none
find_nearest_hidden_example = find_nearest_hidden calendar 98 odd (odd ∷ entries) here refl
