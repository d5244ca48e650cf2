-- ===== src/Chronicle.antt =====
-- src/bin/chronicle.rs: what its commands share. `World` is what the environment, the clock and the
-- database's messages give; the disk is in Undo, where one command changes it.
pub mod Args
pub mod Queries
pub mod Pruning
pub mod Start
pub mod Trace
pub mod Manifest
pub mod DryRun
pub mod Apply
pub mod Undo
pub mod Calls
pub mod Safety
mod Tests
use whenfs.Prelude.{
  ℕ, zero, suc, Bool, true, false, Option, none, some, List, [], ◌∷◌, ◌++◌, if◌then◌else◌, is_some,
}
use whenfs.Prelude.Text.{Text, text}
use whenfs.Daemon.Strings.{concat, signed}
use whenfs.Graph.Types.{FileEvent}

pub record World : Type 0 where
  -- `fs::canonicalize`, lossy.
  pub canonical : Text → Option Text
  -- `env::var("WHENFS_GRAPH").ok()`, and whether a file is there.
  pub graph_variable : Option Text
  pub exists : Text → Bool
  -- The message of an error of the database.
  pub database_error : Text

-- What a command has written to its two outputs.
pub record Output : Type 0 where
  pub out : Text
  pub err : Text

abbrev pub newline : Text
newline = 10 ∷ []

-- `println!` and `eprintln!`
abbrev pub println : List Text → Output
println pieces = record { out = concat pieces ++ newline; err = [] }

abbrev pub eprintln : List Text → Output
eprintln pieces = record { out = []; err = concat pieces ++ newline }

infixl 20 ◌⊕◌
abbrev pub ◌⊕◌ : Output → Output → Output
a ⊕ b = record { out = a.out ++ b.out; err = a.err ++ b.err }

abbrev pub silent : Output
silent = record { out = []; err = [] }

abbrev pub dim : Text
dim = 27 ∷ text "[2m"

abbrev pub bold : Text
bold = 27 ∷ text "[1m"

abbrev pub cyan : Text
cyan = 27 ∷ text "[36m"

abbrev pub yellow : Text
yellow = 27 ∷ text "[33m"

abbrev pub reset : Text
reset = 27 ∷ text "[0m"

abbrev or_self : Text → Option Text → Text
or_self t none = t
or_self t (some u) = u

unfoldable pub normalize : World → Text → Text
normalize w path = or_self path (w.canonical path)

-- The name of the writer, or which of two ways it is missing.
unfoldable pub who : FileEvent → Text
who e = elim e.comm [
  | c ∷ s ↦ c ∷ s
  | [] ↦ elim e.exe [
    | c ∷ s ↦ c ∷ s
    | [] ↦
        if is_some e.proc_start
        then yellow ++ (text "<unnamed>" ++ reset)
        else yellow ++ (text "<unattributed>" ++ reset)
  ]
]

abbrev detail : Text → Text
detail [] = []
detail (c ∷ s) = text "  " ++ (dim ++ ((c ∷ s) ++ reset))

-- `{:<n}`
abbrev pub pad : ℕ → Text → Text
pad zero s = s
pad (suc n) [] = b' ' ∷ pad n []
pad (suc n) (c ∷ s) = c ∷ pad n s

abbrev renamed_from : Option Text → Text
renamed_from none = []
renamed_from (some from) =
    newline ++ (text "      " ++ (dim ++ (text "renamed from " ++ (from ++ reset))))

unfoldable pub print_event : FileEvent → Output
unfolding who signed
print_event e = println (
    text "  "
    ∷ cyan
    ∷ e.ts
    ∷ reset
    ∷ text "  "
    ∷ pad 12 e.op
    ∷ text " "
    ∷ who e
    ∷ text "  "
    ∷ dim
    ∷ text "pid "
    ∷ signed e.pid
    ∷ reset
    ∷ detail e.cmdline
    ∷ renamed_from e.other_path
    ∷ [])
