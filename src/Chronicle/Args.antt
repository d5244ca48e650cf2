-- ===== src/Chronicle/Args.antt =====
-- `main` of src/bin/chronicle.rs: the loop over the arguments, and which command they ask for.
pub mod Written
use whenfs.Prelude.{
  ℕ, ◌≡◌, refl, ap, ◌∙◌, sym, inl, inr, Bool, true, false, Option, none, some, List, [], ◌∷◌, ◌++◌,
  if◌then◌else◌, arith, Bool-cases,
}
use whenfs.Prelude.Text.{Text, text, text_eq}

pub record Options : Type 0 where
  pub db_arg : Option Text
  pub snap_arg : Option Text
  pub live_arg : Option Text
  pub apply : Bool
  pub vacuum : Bool
  pub before_arg : Option Text
  pub rest : List Text

abbrev pub no_options : Options
no_options = record {
  db_arg = none;
  snap_arg = none;
  live_arg = none;
  apply = false;
  vacuum = false;
  before_arg = none;
  rest = [];
}

-- `rest.first() == Some("trace")`
unfoldable pub is_traced : List Text → Bool
unfolding text_eq
is_traced [] = false
is_traced (word ∷ _) = text_eq word (text "trace")

abbrev pub push : Text → Options → Options
push a o = record o { rest = o.rest ++ a ∷ [] }

-- An option that takes the argument behind it.
unfoldable pub pair : Text → Text → Options → Option Options
unfolding text_eq is_traced
pair a b o =
    if is_traced o.rest
    then none
    else if text_eq a (text "--db")
    then some (record o { db_arg = some b })
    else if text_eq a (text "--snap")
    then some (record o { snap_arg = some b })
    else if text_eq a (text "--live")
    then some (record o { live_arg = some b })
    else if text_eq a (text "--before")
    then some (record o { before_arg = some b })
    else none

-- Any other argument.
unfoldable pub single : Text → Options → Options
unfolding text_eq is_traced
single a o =
    if is_traced o.rest
    then push a o
    else if text_eq a (text "--apply")
    then record o { apply = true }
    else if text_eq a (text "--vacuum")
    then record o { vacuum = true }
    else push a o

unfoldable pub arg_loop : List Text → Options → Options
unfolding pair single
arg_loop [] o = o
arg_loop (a ∷ []) o = single a o
arg_loop (a ∷ b ∷ args) o = elim (pair a b o) [
  | some o' ↦ arg_loop args o'
  | none ↦ arg_loop (b ∷ args) (single a o)
]

pub data Command : Type 0 where
  log blame tree : Text → Command
  stat : Command
  prune : Text → Bool → Bool → Command
  revert : Text → Text → Text → Bool → Command
  trace : List Text → Command
  -- The complaints that end the program, the last of them the usage.
  needs_before needs_roots usage : Command

abbrev without_dashes : List Text → List Text
without_dashes [] = []
without_dashes (a ∷ args) = if text_eq a (text "--") then args else a ∷ args

abbrev prune_of : Options → Option Text → Command
prune_of o none = needs_before
prune_of o (some before) = prune before o.apply o.vacuum

abbrev revert_of : Options → Text → Option Text → Option Text → Command
revert_of o pid (some snap) (some live) = revert pid snap live o.apply
revert_of o pid _ _ = needs_roots

abbrev pub trace_of : List Text → Command
trace_of [] = usage
trace_of (a ∷ args) = trace (without_dashes (a ∷ args))

-- `match (rest[0].as_str(), rest.len())`
abbrev one_word : Text → Options → Command
one_word word o =
    if text_eq word (text "stat")
    then stat
    else if text_eq word (text "prune")
    then prune_of o o.before_arg
    else usage

abbrev two_words : Text → Text → Options → Command
two_words word a o =
    if text_eq word (text "log")
    then log a
    else if text_eq word (text "blame")
    then blame a
    else if text_eq word (text "tree")
    then tree a
    else if text_eq word (text "revert")
    then revert_of o a o.snap_arg o.live_arg
    else usage

unfoldable pub command_of : Options → List Text → Command
unfolding text_eq is_traced
command_of o [] = usage
command_of o (word ∷ args) = if is_traced (word ∷ args) then trace_of args else elim args [
  | [] ↦ one_word word o
  | a ∷ more ↦ elim more [ [] ↦ two_words word a o | _ ∷ _ ↦ usage ]
]

-- The command of `main`, behind the name of the program.
unfoldable pub parse_args : List Text → Command
unfolding arg_loop command_of
parse_args argv = let o = arg_loop argv no_options in command_of o o.rest
