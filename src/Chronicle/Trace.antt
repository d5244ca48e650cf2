-- ===== src/Chronicle/Trace.antt =====
-- `cmd_trace` of src/bin/chronicle.rs, behind the run of the command: the search for its process and
-- the manifest of what it wrote. Each look at the graph finds it as the daemon has left it by then.
use whenfs.Prelude.{ℕ, Option, none, some, List, [], ◌∷◌, ◌++◌, if◌then◌else◌, any, length, eqb}
use whenfs.Prelude.Text.{Text, text, text_key, text_eq}
use whenfs.HashMap
use whenfs.HashMap.{HashMap}
use whenfs.Daemon.Strings.{decimal, signed}
use whenfs.Daemon.Buffer.{take}
use whenfs.Graph.Types.{FileEvent}
use whenfs.Graph.Sql.{Graph, Result, ok, failed}
use whenfs.Graph.{latest_start_ts}
use whenfs.Graph.Queries.{events_by_tree}
use whenfs.Chronicle.{
  World, Output, println, eprintln, ◌⊕◌, silent, dim, bold, cyan, yellow, reset, newline, who, pad,
}
use whenfs.Chronicle.Queries.{joined}

abbrev found : Result (Option Text) → Option Text
found (ok o) = o
found failed = none

abbrev or_else : Option Text → Option Text → Option Text
or_else (some s) o = some s
or_else none o = o

-- The first look that finds the process.
unfoldable pub poll : ℕ → List Graph → Option Text
unfolding latest_start_ts
poll pid [] = none
poll pid (g ∷ looks) = or_else (found (latest_start_ts pid g).0) (poll pid looks)

-- Forty looks while the command runs, and one behind it.
unfoldable pub find_start : ℕ → List Graph → Graph → Option Text
unfolding poll latest_start_ts
find_start pid looks last = or_else (poll pid (take 40 looks)) (found (latest_start_ts pid last).0)

-- The three collections that the loop over the events fills.
pub record Manifest : Type 0 where
  pub order : List Text
  pub ops : HashMap Text (List Text)
  pub by : HashMap Text Text

abbrev pub nothing : Manifest
nothing = record { order = []; ops = []; by = [] }

abbrev pub add_op : Text → List Text → List Text
add_op op entry = if any (text_eq op) entry then entry else entry ++ op ∷ []

-- `ops.entry(path).or_insert_with(…)`, and the push.
abbrev pub with_op : FileEvent → Manifest → Option (List Text) → Manifest
with_op e m (some entry) = record m { ops = HashMap.insert e.path (add_op e.op entry) m.ops }
with_op e m none = record m {
  order = m.order ++ e.path ∷ [];
  ops = HashMap.insert e.path (e.op ∷ []) m.ops;
}

-- `by.entry(path).or_insert_with(|| who(e))`
abbrev pub with_writer : FileEvent → Manifest → Manifest
with_writer e m =
    if HashMap.contains_key e.path m.by
    then m
    else record m { by = HashMap.insert e.path (who e) m.by }

unfoldable pub group : List FileEvent → Manifest → Manifest
unfolding who
group [] m = m
group (e ∷ events) m = group events (with_writer e (with_op e m (HashMap.get e.path m.ops)))

-- The distinct pids.
unfoldable pub writers : List FileEvent → List ℕ
writers [] = []
writers (e ∷ events) =
    let rest = writers events in if any (eqb e.pid) rest then rest else e.pid ∷ rest

abbrev or_empty : Option (List Text) → List Text
or_empty none = []
or_empty (some o) = o

abbrev or_default : Option Text → Text
or_default none = []
or_default (some t) = t

abbrev path_line : Manifest → Text → Output
path_line m path = println (
    text "  "
    ∷ cyan
    ∷ pad 22 (joined (text "+") (or_empty (HashMap.get path m.ops)))
    ∷ reset
    ∷ text " "
    ∷ path
    ∷ text "  "
    ∷ dim
    ∷ or_default (HashMap.get path m.by)
    ∷ reset
    ∷ [])

abbrev path_lines : Manifest → List Text → Output
path_lines m [] = silent
path_lines m (path ∷ order) = path_line m path ⊕ path_lines m order

abbrev no_writes : Output
no_writes = println (
    text "  "
    ∷ dim
    ∷ text "no recorded writes"
    ∷ reset
    ∷ text "  "
    ∷ dim
    ∷ text "(0 processes)"
    ∷ reset
    ∷ [])

abbrev undo_hint : ℕ → Output
undo_hint pid = println (
    newline
    ∷ text "  "
    ∷ dim
    ∷ text "undo:  chronicle revert "
    ∷ signed pid
    ∷ text " --snap <dir> --live <dir>"
    ∷ reset
    ∷ [])

abbrev written_paths : ℕ → List FileEvent → Manifest → Output
written_paths pid events m =
    println (
      text "  "
      ∷ bold
      ∷ decimal (length m.order)
      ∷ reset
      ∷ text " paths written by "
      ∷ bold
      ∷ decimal (length (writers events))
      ∷ reset
      ∷ text " processes"
      ∷ newline
      ∷ [])
    ⊕ path_lines m m.order
    ⊕ undo_hint pid

abbrev manifest_text : World → ℕ → Result (List FileEvent) → Output
manifest_text w pid failed = eprintln (text "query failed: " ∷ w.database_error ∷ [])
manifest_text w pid (ok []) = no_writes
manifest_text w pid (ok (e ∷ events)) = written_paths pid (e ∷ events) (group (e ∷ events) nothing)

abbrev never_recorded : Output
never_recorded = eprintln (
    text "  "
    ∷ yellow
    ∷ text "the daemon never recorded this process"
    ∷ reset
    ∷ text "\n  Is whodidd running, and watching the filesystem this ran on?"
    ∷ [])

abbrev report : World → ℕ → Option Text → Graph → Output
report w pid none g = never_recorded
report w pid (some start) g = manifest_text w pid (events_by_tree pid start g).0

-- The header of the report, with the exit code and the seconds as they are printed.
abbrev traced_line : List Text → Text → Text → ℕ → Output
traced_line argv code elapsed pid = println (
    newline
    ∷ bold
    ∷ text "traced"
    ∷ reset
    ∷ text " "
    ∷ joined (text " ") argv
    ∷ text "  "
    ∷ dim
    ∷ text "exit "
    ∷ code
    ∷ text ", "
    ∷ elapsed
    ∷ text "s, pid "
    ∷ signed pid
    ∷ reset
    ∷ [])

-- What the command says of a child that ran.
unfoldable pub trace_report : World → List Text → Text → Text → ℕ → List Graph → Graph → Output
unfolding find_start group writers events_by_tree decimal signed
trace_report w argv code elapsed pid looks last =
    traced_line argv code elapsed pid ⊕ report w pid (find_start pid looks last) last

-- What `child.wait()` gives: the code, or none for a signal; or an error.
pub data Status : Type 0 where
  exited : Option ℕ → Status
  wait_failed : Text → Status

abbrev code_text : Status → Text
code_text (exited (some code)) = signed code
code_text (exited none) = text "signal"
code_text (wait_failed e) = text "wait failed: " ++ e

-- A child that runs: its pid, the graph at each look while it runs and at the last look, how it ends,
-- and the seconds as they are printed.
pub record Child : Type 0 where
  pub pid : ℕ
  pub looks : List Graph
  pub last : Graph
  pub status : Status
  pub elapsed : Text

pub data Spawned : Type 0 where
  child : Child → Spawned
  not_spawned : Text → Spawned

abbrev on_spawn : World → Text → List Text → Spawned → Output
on_spawn w prog args (not_spawned e) = eprintln (text "cannot run " ∷ prog ∷ text ": " ∷ e ∷ [])
on_spawn w prog args (child c) =
    trace_report w (prog ∷ args) (code_text c.status) c.elapsed c.pid c.looks c.last

unfoldable pub cmd_trace : World → (Text → List Text → Spawned) → List Text → Output
unfolding trace_report signed
cmd_trace w spawn [] = eprintln (text "nothing to run" ∷ [])
cmd_trace w spawn (prog ∷ args) = on_spawn w prog args (spawn prog args)
