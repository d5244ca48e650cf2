-- ===== src/TimeExpr.antt =====
-- src/time_expr.rs. The library of dates is the parameter `Calendar`: what it offers, on types of its
-- own. A date arithmetic that leaves its range, and `unwrap` of a local time that is not unique, panic.
pub mod Resolve
pub mod Nearest
pub mod Weekdays
mod Tests
use whenfs.Prelude.{
  ℕ, zero, suc, ◌+◌, ◌-◌, ◌*◌, ◌%◌, ◌^◌, Bool, true, false, ◌&&◌, ◌||◌, not, Option, none, some,
  List, [], ◌∷◌, ◌++◌, reverse, if◌then◌else◌, ltb, leb, eqb,
}
use whenfs.Prelude.Text.{Text, text, text_eq, strip_prefix}
use whenfs.Prelude.Newest.{elem}
use whenfs.FilePath.{FilePath, of_text, join}

pub data Weekday : Type 0 where
  mon tue wed thu fri sat sun : Weekday

-- `Duration::minutes`, `hours`, `days` and `weeks`.
pub data Span : Type 0 where
  minutes hours days weeks : Span

pub record Calendar : Type 1 where
  pub DateTime : Type 0
  pub NaiveDateTime : Type 0
  pub NaiveDate : Type 0
  -- `dt.format(f)`, `NaiveDateTime::parse_from_str(s, f).ok()`, `NaiveDate::parse_from_str(s, f).ok()`
  pub format : Text → DateTime → Text
  pub parse_date_time : Text → Text → Option NaiveDateTime
  pub parse_date : Text → Text → Option NaiveDate
  -- `naive.and_local_timezone(Local).single()`, and `d.and_hms_opt(23, 59, 59).unwrap()`
  pub local_single : NaiveDateTime → Option DateTime
  pub last_second : NaiveDate → NaiveDateTime
  pub date_naive : DateTime → NaiveDate
  pub weekday : NaiveDate → Weekday
  -- `now - Duration::…(n)`, with none for a panic.
  pub minus : Span → ℕ → DateTime → Option DateTime
  pub date_minus : Span → ℕ → NaiveDate → Option NaiveDate
  pub checked_sub_months : ℕ → NaiveDate → Option NaiveDate
  -- `a <= b`
  pub le : DateTime → DateTime → Bool

-- The value of a function, a panic in it, or a loop that its rounds do not end.
pub data Outcome {ℓ} (A : Type ℓ) : Type ℓ where
  done : A → Outcome A
  panicked unfinished : Outcome A

infixl 10 ◌>>=◌
abbrev pub ◌>>=◌ {ℓ κ} : {A : Type ℓ} {B : Type κ} → Outcome A → (A → Outcome B) → Outcome B
done a >>= f = f a
panicked >>= f = panicked
unfinished >>= f = unfinished

-- `unwrap`, and an operator that panics.
abbrev pub or_panic {ℓ} : {A : Type ℓ} → Option A → Outcome A
or_panic none = panicked
or_panic (some a) = done a

abbrev pub snapshot_fmt : Text
snapshot_fmt = text "%Y-%m-%dT%H-%M-%S"

-- Lower case by ASCII. No character outside ASCII has a lower case that is a letter of a weekday.
abbrev lower : ℕ → ℕ
lower c = if leb b'A' c && leb c b'Z' then c + 32 else c

abbrev pub to_lowercase : Text → Text
to_lowercase [] = []
to_lowercase (c ∷ s) = lower c ∷ to_lowercase s

unfoldable pub weekday_from_str : Text → Option Weekday
weekday_from_str s =
    let l = to_lowercase s in
    if elem l (text "mon" ∷ text "monday" ∷ [])
    then some mon
    else if elem l (text "tue" ∷ text "tues" ∷ text "tuesday" ∷ [])
    then some tue
    else if elem l (text "wed" ∷ text "wednesday" ∷ [])
    then some wed
    else if elem l (text "thu" ∷ text "thur" ∷ text "thursday" ∷ [])
    then some thu
    else if elem l (text "fri" ∷ text "friday" ∷ [])
    then some fri
    else if elem l (text "sat" ∷ text "saturday" ∷ [])
    then some sat
    else if elem l (text "sun" ∷ text "sunday" ∷ [])
    then some sun
    else none

-- The discriminant, which `==` compares.
abbrev pub number : Weekday → ℕ
number mon = 0
number tue = 1
number wed = 2
number thu = 3
number fri = 4
number sat = 5
number sun = 6

abbrev pub weekday_eq : Weekday → Weekday → Bool
weekday_eq a b = eqb (number a) (number b)

abbrev is_ascii_digit : ℕ → Bool
is_ascii_digit c = leb b'0' c && leb c b'9'

abbrev digits : ℕ → Text → Option ℕ
digits acc [] = some acc
digits acc (c ∷ s) =
    let rest = digits (acc * 10 + (c - b'0')) s in if is_ascii_digit c then rest else none

abbrev in_i64 : Option ℕ → Option ℕ
in_i64 none = none
in_i64 (some n) = if ltb n (2 ^ 63) then some n else none

abbrev unsigned : Text → Option ℕ
unsigned [] = none
unsigned (c ∷ s) = in_i64 (digits 0 (c ∷ s))

-- `s.parse::<i64>().ok()` of a text without `-`: a `+` may stand before the digits.
unfoldable pub parse_i64 : Text → Option ℕ
parse_i64 [] = none
parse_i64 (c ∷ s) = if eqb c b'+' then unsigned s else unsigned (c ∷ s)

-- `s.split_once('-')`
unfoldable pub split_once : Text → Option (Text × Text)
split_once [] = none
split_once (c ∷ s) =
    let rest = split_once s in
    if eqb c b'-' then some ([], s) else elim rest [ none ↦ none | some (a, b) ↦ some (c ∷ a, b) ]

-- `s.split_at(s.find(|c| !c.is_ascii_digit())?)`
unfoldable pub split_digits : Text → Option (Text × Text)
split_digits [] = none
split_digits (c ∷ s) =
    let rest = split_digits s in
    if is_ascii_digit c
    then elim rest [ none ↦ none | some (a, b) ↦ some (c ∷ a, b) ]
    else some ([], c ∷ s)

abbrev on_some {ℓ κ} : {A : Type ℓ} {B : Type κ} → (A → B) → Option A → Option B
on_some f none = none
on_some f (some a) = some (f a)

-- `s.strip_suffix(p)`
unfoldable pub strip_suffix : Text → Text → Option Text
unfolding strip_prefix
strip_suffix s p = on_some reverse (strip_prefix (reverse s) (reverse p))

-- A directory as `read_dir` gives it: an entry that cannot be read, and a name that is not UTF-8, are
-- none.
pub record DirEntry : Type 0 where
  pub name : Option Text
  pub path : FilePath
