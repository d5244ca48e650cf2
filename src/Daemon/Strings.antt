-- ===== src/Daemon/Strings.antt =====
-- The text that src/bin/whodidd.rs reads from /proc and writes to its log.
use whenfs.Prelude.{
  ℕ, zero, suc, ◌+◌, ◌-◌, ◌*◌, ◌/◌, ◌%◌, ◌^◌, Bool, ◌&&◌, ◌||◌, Option, none, some, List, [], ◌∷◌,
  ◌++◌, reverse, if◌then◌else◌, eqb, ltb, leb,
}
use whenfs.Prelude.Text.{Text}

abbrev pub hex_digit : ℕ → ℕ
hex_digit n = if ltb n 10 then b'0' + n else b'a' + (n - 10)

-- One character of `json_escape`: `\u{:04x}` below 0x20.
abbrev pub escape_char : ℕ → Text
escape_char c =
    if eqb c b'"'
    then b'\\' ∷ b'"' ∷ []
    else if eqb c b'\\'
    then b'\\' ∷ b'\\' ∷ []
    else if eqb c 10
    then b'\\' ∷ b'n' ∷ []
    else if eqb c 9
    then b'\\' ∷ b't' ∷ []
    else if ltb c 32
    then b'\\' ∷ b'u' ∷ b'0' ∷ b'0' ∷ hex_digit (c / 16) ∷ hex_digit (c % 16) ∷ []
    else c ∷ []

unfoldable pub json_escape : Text → Text
json_escape [] = []
json_escape (c ∷ s) = escape_char c ++ json_escape s

-- The pieces of `format!`, one behind the other.
abbrev pub concat : List Text → Text
concat [] = []
concat (s ∷ pieces) = s ++ concat pieces

-- Digits, the last one first; a number of 32 bits has ten at most.
abbrev pub digits_back : ℕ → ℕ → Text
digits_back zero n = []
digits_back (suc fuel) n =
    let rest = digits_back fuel (n / 10) in
    if ltb n 10 then (b'0' + n) ∷ [] else (b'0' + n % 10) ∷ rest

unfoldable pub decimal : ℕ → Text
decimal n = reverse (digits_back 10 n)

-- A pid, which is the bit pattern of an `i32`.
unfoldable pub signed : ℕ → Text
unfolding decimal
signed n = if ltb n (2 ^ 31) then decimal n else b'-' ∷ decimal (2 ^ 32 - n)

abbrev drop_newlines : Text → Text
drop_newlines [] = []
drop_newlines (c ∷ s) = let rest = drop_newlines s in if eqb c 10 then rest else c ∷ s

-- `trim_end_matches('\n')`
abbrev pub trim_newlines : Text → Text
trim_newlines s = reverse (drop_newlines (reverse s))

abbrev push_on : ℕ → List Text → List Text
push_on c [] = (c ∷ []) ∷ []
push_on c (w ∷ ws) = (c ∷ w) ∷ ws

-- The pieces between the characters that the test takes, empty ones included.
abbrev split_at : (ℕ → Bool) → Text → List Text
split_at p [] = [] ∷ []
split_at p (c ∷ s) = let rest = split_at p s in if p c then [] ∷ rest else push_on c rest

abbrev non_empty : List Text → List Text
non_empty [] = []
non_empty ([] ∷ ws) = non_empty ws
non_empty ((c ∷ w) ∷ ws) = (c ∷ w) ∷ non_empty ws

-- `split(|&b| b == 0).filter(|s| !s.is_empty())`
abbrev pub split_args : List ℕ → List (List ℕ)
split_args b = non_empty (split_at (λ c. eqb c 0) b)

-- `join(" ")`
abbrev pub join_spaces : List Text → Text
join_spaces [] = []
join_spaces (w ∷ []) = w
join_spaces (w ∷ v ∷ ws) = w ++ b' ' ∷ join_spaces (v ∷ ws)

-- The text behind the last `)`.
unfoldable pub after_last_paren : Text → Option Text
after_last_paren [] = none
after_last_paren (c ∷ s) = elim (after_last_paren s) [
  | some t ↦ some t
  | none ↦ if eqb c b')' then some s else none
]

-- White space, as far as the kernel writes it in this file.
abbrev is_space : ℕ → Bool
is_space c = eqb c 32 || (leb 9 c && leb c 13)

-- `split_whitespace()`
abbrev pub words : Text → List Text
words s = non_empty (split_at is_space s)

abbrev second : List Text → Option Text
second (a ∷ b ∷ ws) = some b
second _ = none

abbrev digits_from : ℕ → Text → Option ℕ
digits_from acc [] = some acc
digits_from acc (c ∷ s) =
    let rest = digits_from (acc * 10 + (c - b'0')) s in
    if leb b'0' c && leb c b'9' then rest else none

abbrev magnitude : Text → Option ℕ
magnitude [] = none
magnitude (c ∷ s) = digits_from 0 (c ∷ s)

abbrev at_most : ℕ → Option ℕ → Option ℕ
at_most bound none = none
at_most bound (some n) = if leb n bound then some n else none

abbrev negated : Option ℕ → Option ℕ
negated none = none
negated (some n) = some ((2 ^ 32 - n) % 2 ^ 32)

-- `parse::<i32>()`, to the bit pattern.
unfoldable pub parse_i32 : Text → Option ℕ
parse_i32 [] = none
parse_i32 (c ∷ s) =
    if eqb c b'-'
    then negated (at_most (2 ^ 31) (magnitude s))
    else if eqb c b'+'
    then at_most (2 ^ 31 - 1) (magnitude s)
    else at_most (2 ^ 31 - 1) (magnitude (c ∷ s))

abbrev parse_word : Option Text → Option ℕ
parse_word none = none
parse_word (some w) = parse_i32 w

abbrev ppid_behind : Option Text → Option ℕ
ppid_behind none = none
ppid_behind (some after) = parse_word (second (words after))

-- The body of `read_ppid`.
unfoldable pub parse_ppid : Text → Option ℕ
unfolding after_last_paren parse_i32
parse_ppid stat = ppid_behind (after_last_paren stat)
