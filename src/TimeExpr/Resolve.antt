-- ===== src/TimeExpr/Resolve.antt =====
-- src/time_expr.rs: from an expression to an instant, and from that to a snapshot.
use whenfs.Prelude.{
  ℕ, zero, suc, ◌%◌, ◌^◌, Bool, true, false, ◌&&◌, not, Option, none, some, List, [], ◌∷◌,
  if◌then◌else◌,
}
use whenfs.Prelude.Text.{Text, text, text_eq, strip_prefix}
use whenfs.Prelude.Newest.{elem}
use whenfs.FilePath.{FilePath, of_text, join}
use whenfs.TimeExpr.{
  Calendar, Weekday, Span, minutes, hours, days, weeks, Outcome, done, panicked, unfinished, ◌>>=◌,
  or_panic, snapshot_fmt, weekday_from_str, weekday_eq, parse_i64, split_once, split_digits,
  strip_suffix, DirEntry,
}

module _ (cal : Calendar) where
  unfoldable pub format_snapshot_name : cal.DateTime → Text
  format_snapshot_name = cal.format snapshot_fmt

  unfoldable pub parse_snapshot_name : Text → Option cal.DateTime
  parse_snapshot_name name = elim (cal.parse_date_time name snapshot_fmt) [
    | none ↦ none
    | some naive ↦ cal.local_single naive
  ]

  unfoldable pub end_of_day : cal.NaiveDate → Outcome cal.DateTime
  end_of_day d = or_panic (cal.local_single (cal.last_second d))

  -- The loop, for so many rounds.
  unfoldable pub past_loop : ℕ → Weekday → cal.NaiveDate → Outcome cal.DateTime
  unfolding end_of_day
  past_loop zero wd d = unfinished
  past_loop (suc rounds) wd d = elim (cal.date_minus days 1 d) [
    | none ↦ panicked
    | some e ↦ elim (weekday_eq (cal.weekday e) wd) [
      | true ↦ end_of_day e
      | false ↦ past_loop rounds wd e
    ]
  ]

  -- Seven rounds see every weekday.
  unfoldable pub most_recent_past : Weekday → cal.DateTime → Outcome cal.DateTime
  unfolding past_loop
  most_recent_past wd now = past_loop 7 wd (cal.date_naive now)

  abbrev some_of : Outcome cal.DateTime → Outcome (Option cal.DateTime)
  some_of (done dt) = done (some dt)
  some_of panicked = panicked
  some_of unfinished = unfinished

  -- `d.map(end_of_day)`
  abbrev end_of : Option cal.NaiveDate → Outcome (Option cal.DateTime)
  end_of none = done none
  end_of (some d) = some_of (end_of_day d)

  abbrev pub Shift : Type 0
  Shift = ℕ → cal.DateTime → Outcome (Option cal.DateTime)

  abbrev back : Span → Shift
  back span n now = some_of (or_panic (cal.minus span n now))

  -- `n as u32` keeps the low 32 bits.
  abbrev months_back : Shift
  months_back n now = end_of (cal.checked_sub_months (n % 2 ^ 32) (cal.date_naive now))

  unfoldable pub parse_unit : Text → Option Shift
  unfolding end_of_day
  parse_unit s =
      if elem s (text "minute" ∷ text "minutes" ∷ text "min" ∷ text "m" ∷ [])
      then some (back minutes)
      else if elem s (text "hour" ∷ text "hours" ∷ text "hr" ∷ text "h" ∷ [])
      then some (back hours)
      else if elem s (text "day" ∷ text "days" ∷ text "d" ∷ [])
      then some (back days)
      else if elem s (text "week" ∷ text "weeks" ∷ text "w" ∷ [])
      then some (back weeks)
      else if elem s (text "month" ∷ text "months" ∷ text "mo" ∷ [])
      then some months_back
      else none

  -- A count and a unit, if both are read.
  abbrev shift_of : Option (Text × Text) → Option (ℕ × Shift)
  shift_of none = none
  shift_of (some (num, unit)) = elim (parse_i64 num) [
    | none ↦ none
    | some n ↦ elim (parse_unit unit) [ none ↦ none | some f ↦ some (n, f) ]
  ]

  unfoldable pub parse_relative : Text → cal.DateTime → Outcome (Option cal.DateTime)
  unfolding strip_suffix split_once split_digits parse_i64 parse_unit
  parse_relative expr now = elim (strip_suffix expr (text "-ago")) [
    | none ↦ done none
    | some head ↦ elim (shift_of (split_once head)) [
      | some (n, f) ↦ f n now
      | none ↦ elim (shift_of (split_digits head)) [ some (n, f) ↦ f n now | none ↦ done none ]
    ]
  ]

  abbrev weekday_before : Option Weekday → cal.DateTime → Outcome (Option cal.DateTime)
  weekday_before none now = done none
  weekday_before (some wd) now = some_of (most_recent_past wd now)

  abbrev last_weekday : Text → Option Weekday
  last_weekday expr = elim (strip_prefix expr (text "last-")) [
    | none ↦ none
    | some rest ↦ weekday_from_str rest
  ]

  abbrev or_else {ℓ} : {A : Type ℓ} → Outcome (Option A) → Outcome (Option A) → Outcome (Option A)
  or_else (done none) rest = rest
  or_else (done (some a)) rest = done (some a)
  or_else panicked rest = panicked
  or_else unfinished rest = unfinished

  -- `expr` after the match on the fixed words.
  abbrev resolve_phrase : Text → cal.DateTime → Outcome (Option cal.DateTime)
  resolve_phrase expr now = or_else (parse_relative expr now) (elim (last_weekday expr) [
    | some wd ↦ weekday_before (some wd) now
    | none ↦ weekday_before (weekday_from_str expr) now
  ])

  abbrev day_back : Span → cal.DateTime → Outcome (Option cal.DateTime)
  day_back span now =
      or_panic (cal.date_minus span 1 (cal.date_naive now)) >>= λ d. some_of (end_of_day d)

  abbrev resolve_word : Text → cal.DateTime → Outcome (Option cal.DateTime)
  resolve_word expr now =
      if elem expr (text "now" ∷ text "today" ∷ [])
      then done (some now)
      else if text_eq expr (text "yesterday")
      then day_back days now
      else if text_eq expr (text "last-week")
      then day_back weeks now
      else if text_eq expr (text "last-month")
      then end_of (cal.checked_sub_months 1 (cal.date_naive now))
      else if text_eq expr (text "last-year")
      then end_of (cal.checked_sub_months 12 (cal.date_naive now))
      else resolve_phrase expr now

  unfoldable pub resolve_target : Text → cal.DateTime → Outcome (Option cal.DateTime)
  unfolding parse_snapshot_name end_of_day parse_relative weekday_from_str most_recent_past
  resolve_target expr now = elim (parse_snapshot_name expr) [
    | some dt ↦ done (some dt)
    | none ↦ elim (cal.parse_date expr (text "%Y-%m-%d")) [
      | some naive ↦ some_of (end_of_day naive)
      | none ↦ resolve_word expr now
    ]
  ]

  -- The best entry so far.
  abbrev pub Best : Type 0
  Best = Option (cal.DateTime × FilePath)

  abbrev is_better : Best → cal.DateTime → Bool
  is_better none dt = true
  is_better (some (b, _)) dt = not (cal.le dt b)

  abbrev pub better : cal.DateTime → Best → Option cal.DateTime → FilePath → Best
  better target best none path = best
  better target best (some dt) path =
      if cal.le dt target && is_better best dt then some (dt, path) else best

  -- The loop over the entries. The outer none is a `?` that leaves the function.
  unfoldable pub nearest_loop : cal.DateTime → Best → List (Option DirEntry) → Option Best
  unfolding parse_snapshot_name
  nearest_loop target best [] = some best
  nearest_loop target best (none ∷ entries) = none
  nearest_loop target best (some e ∷ entries) = elim e.name [
    | none ↦ none
    | some name ↦ nearest_loop target (better target best (parse_snapshot_name name) e.path) entries
  ]

  abbrev pub path_of_best : Option Best → Option FilePath
  path_of_best (some (some (_, p))) = some p
  path_of_best (some none) = none
  path_of_best none = none

  unfoldable pub find_nearest : Option (List (Option DirEntry)) → cal.DateTime → Option FilePath
  unfolding nearest_loop
  find_nearest none target = none
  find_nearest (some entries) target = path_of_best (nearest_loop target none entries)

  unfoldable pub find_exact : (FilePath → Bool) → FilePath → Text → Option FilePath
  find_exact is_dir snap_root name =
      let p = join snap_root (of_text name) in if is_dir p then some p else none

  -- `now` is the clock at the call; `entries` is what `read_dir` gives for `snap_root`.
  unfoldable pub resolve :
      Option (List (Option DirEntry))
      → (FilePath → Bool)
      → cal.DateTime
      → FilePath
      → Text
      → Outcome (Option FilePath)
  unfolding resolve_target find_nearest find_exact
  resolve entries is_dir now snap_root expr = resolve_target expr now >>= λ target. elim target [
    | some t ↦ done (find_nearest entries t)
    | none ↦ done (find_exact is_dir snap_root expr)
  ]
