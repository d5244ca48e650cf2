-- ===== src/Whodid/Reader.antt =====
-- The lines of the log as src/bin/whodid.rs reads them.
use whenfs.Prelude.{
  ℕ, Bool, true, false, ◌&&◌, ◌||◌, Option, none, some, List, [], ◌∷◌, ◌++◌, if◌then◌else◌, eqb,
  leb, any,
}
use whenfs.Prelude.Text.{Text, text, strip_prefix}

pub record Event : Type 0 where
  pub ts : Text
  pub path : Text
  pub op : Text
  pub pid : Text
  pub comm : Text
  pub exe : Text
  pub cmdline : Text

-- The text behind the first place where the needle stands: `find`, and the slice from its end.
unfoldable pub after_first : Text → Text → Option Text
unfolding strip_prefix
after_first needle [] = strip_prefix [] needle
after_first needle (c ∷ s) = elim (strip_prefix (c ∷ s) needle) [
  | some rest ↦ some rest
  | none ↦ after_first needle s
]

-- What a character stands for behind a backslash.
abbrev pub reveal : ℕ → ℕ
reveal c = if eqb c b'n' then 10 else if eqb c b't' then 9 else c

-- The loop over the characters behind the opening quote.
unfoldable pub quoted : Text → Text
quoted [] = []
quoted (c ∷ []) = if eqb c b'\\' then [] else if eqb c b'"' then [] else c ∷ []
quoted (c ∷ d ∷ s) = elim (eqb c b'\\') [
  | true ↦ reveal d ∷ quoted s
  | false ↦ elim (eqb c b'"') [ true ↦ [] | false ↦ c ∷ quoted (d ∷ s) ]
]

-- `split([',', '}']).next()`
unfoldable pub until_delimiter : Text → Text
until_delimiter [] = []
until_delimiter (c ∷ s) =
    let rest = until_delimiter s in if eqb c b',' || eqb c b'}' then [] else c ∷ rest

unfoldable pub value : Text → Text
unfolding quoted until_delimiter
value [] = []
value (c ∷ s) = if eqb c b'"' then quoted s else until_delimiter (c ∷ s)

abbrev pub needle_of : Text → Text
needle_of key = b'"' ∷ key ++ b'"' ∷ b':' ∷ []

abbrev pub value_behind : Option Text → Text
value_behind none = []
value_behind (some rest) = value rest

unfoldable pub field : Text → Text → Text
unfolding after_first value
field line key = value_behind (after_first (needle_of key) line)

-- The characters that Unicode calls white space.
abbrev is_space : ℕ → Bool
is_space c =
    leb 9 c && leb c 13
    || leb 8192 c && leb c 8202
    || any (eqb c) (32 ∷ 133 ∷ 160 ∷ 5760 ∷ 8232 ∷ 8233 ∷ 8239 ∷ 8287 ∷ 12288 ∷ [])

-- `line.trim().is_empty()`
abbrev is_blank : Text → Bool
is_blank [] = true
is_blank (c ∷ s) = is_space c && is_blank s

unfoldable pub parse_line : Text → Option Event
unfolding field
parse_line line =
    if is_blank line
    then none
    else some (record {
      ts = field line (text "ts");
      path = field line (text "path");
      op = field line (text "op");
      pid = field line (text "pid");
      comm = field line (text "comm");
      exe = field line (text "exe");
      cmdline = field line (text "cmdline");
    })

abbrev push_front : ℕ → List Text → List Text
push_front c [] = (c ∷ []) ∷ []
push_front c (w ∷ ws) = (c ∷ w) ∷ ws

abbrev at_feed : Text → Bool
at_feed [] = false
at_feed (c ∷ s) = eqb c 10

-- `str::lines`: a line ends before its `\n`, or before `\r\n`.
unfoldable pub lines : Text → List Text
lines [] = []
lines (c ∷ s) =
    let rest = lines s in
    if eqb c 10 then [] ∷ rest else if eqb c 13 && at_feed s then rest else push_front c rest

-- `filter_map(parse_line)`
unfoldable pub parse_all : List Text → List Event
parse_all [] = []
parse_all (l ∷ ls) = elim (parse_line l) [ none ↦ parse_all ls | some e ↦ e ∷ parse_all ls ]
