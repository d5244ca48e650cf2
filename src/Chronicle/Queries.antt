-- ===== src/Chronicle/Queries.antt =====
-- The commands of src/bin/chronicle.rs that only ask the graph: log, blame, tree and stat.
use whenfs.Prelude.{ℕ, Bool, true, false, Option, none, some, List, [], ◌∷◌, ◌++◌, map, find}
use whenfs.Prelude.Text.{Text, text}
use whenfs.Daemon.Strings.{decimal, signed, parse_i32}
use whenfs.Graph.Types.{FileEvent, ProcRow}
use whenfs.Graph.Sql.{Graph, Query, Result, ok, failed, ◌>>=◌, pure}
use whenfs.Graph.{live_start_ts, latest_start_ts, counts}
use whenfs.Graph.Queries.{log_file, blame, ancestry, descendants}
use whenfs.Chronicle.{
  World, Output, println, eprintln, ◌⊕◌, silent, dim, bold, cyan, reset, normalize, print_event,
}

abbrev query_failed : World → Output
query_failed w = eprintln (text "query failed: " ∷ w.database_error ∷ [])

abbrev no_history : Text → Output
no_history p = println (text "no recorded history for " ∷ p ∷ [])

abbrev title : Text → Output
title p = println (bold ∷ p ∷ reset ∷ [])

abbrev event_lines : List FileEvent → Output
event_lines [] = silent
event_lines (e ∷ events) = print_event e ⊕ event_lines events

abbrev log_text : World → Text → Result (List FileEvent) → Output
log_text w p failed = query_failed w
log_text w p (ok []) = no_history p
log_text w p (ok (e ∷ events)) = title p ⊕ event_lines (e ∷ events)

unfoldable pub cmd_log : World → Text → Graph → Output × Graph
unfolding normalize log_file print_event
cmd_log w path g = let p = normalize w path in let (r, g') = log_file p g in (log_text w p r, g')

abbrev name_or_pid : ProcRow → Text
name_or_pid p = elim p.comm [ [] ↦ text "pid " ++ signed p.pid | c ∷ s ↦ c ∷ s ]

-- `names.join(sep)`
abbrev pub joined : Text → List Text → Text
joined sep [] = []
joined sep (t ∷ []) = t
joined sep (t ∷ u ∷ texts) = t ++ (sep ++ joined sep (u ∷ texts))

abbrev has_cmdline : ProcRow → Bool
has_cmdline p = elim p.cmdline [ [] ↦ false | _ ∷ _ ↦ true ]

-- The nearest ancestor that knows what it was invoked as.
unfoldable pub origin : List ProcRow → Option ProcRow
origin [] = none
origin (writer ∷ ancestors) = find has_cmdline ancestors

abbrev origin_line : Option ProcRow → Output
origin_line none = silent
origin_line (some p) =
    println (text "  " ∷ dim ∷ text "started by:" ∷ reset ∷ text " " ∷ p.cmdline ∷ [])

-- What is said of the ancestry; a chain of one explains nothing.
abbrev because : World → Result (List ProcRow) → Output
because w failed = eprintln (text "ancestry query failed: " ∷ w.database_error ∷ [])
because w (ok []) = silent
because w (ok (writer ∷ [])) = silent
because w (ok (writer ∷ p ∷ chain)) =
    println (
      text "  "
      ∷ dim
      ∷ text "because:"
      ∷ reset
      ∷ text "    "
      ∷ joined (text " ← ") (map name_or_pid (writer ∷ p ∷ chain))
      ∷ [])
    ⊕ origin_line (origin (writer ∷ p ∷ chain))

abbrev unidentified : Output
unidentified =
    println (text "  " ∷ dim ∷ text "(writer was never identified — no ancestry)" ∷ reset ∷ [])

abbrev explain : World → FileEvent → Option Text → Graph → Output × Graph
explain w last none g = (unidentified, g)
explain w last (some start) g = let (r, g') = ancestry last.pid start g in (because w r, g')

abbrev blame_text : World → Text → Result (Option FileEvent) × Graph → Output × Graph
blame_text w p (failed, g) = (query_failed w, g)
blame_text w p (ok none, g) = (no_history p, g)
blame_text w p (ok (some last), g) =
    let (o, g') = explain w last last.proc_start g in (title p ⊕ print_event last ⊕ o, g')

unfoldable pub cmd_blame : World → Text → Graph → Output × Graph
unfolding normalize blame ancestry origin signed print_event
cmd_blame w path g = let p = normalize w path in blame_text w p (blame p g)

-- The incarnation that lives, else the latest.
abbrev or_latest : ℕ → Option Text → Query (Option Text)
or_latest pid (some s) = pure (some s)
or_latest pid none = latest_start_ts pid

unfoldable pub start_of : ℕ → Query (Option Text)
unfolding live_start_ts latest_start_ts
start_of pid = live_start_ts pid >>= or_latest pid

abbrev process_lines : List ProcRow → Output
process_lines [] = silent
process_lines (p ∷ procs) =
    println (
      text "  "
      ∷ cyan
      ∷ signed p.pid
      ∷ reset
      ∷ text "  "
      ∷ p.comm
      ∷ text "  "
      ∷ dim
      ∷ p.cmdline
      ∷ reset
      ∷ [])
    ⊕ process_lines procs

abbrev tree_text : World → ℕ → Result (List ProcRow) → Output
tree_text w pid failed = query_failed w
tree_text w pid (ok []) = println (text "no recorded process tree for pid " ∷ signed pid ∷ [])
tree_text w pid (ok (p ∷ procs)) =
    println (
      bold
      ∷ text "recorded processes under pid "
      ∷ signed pid
      ∷ reset
      ∷ text "  "
      ∷ dim
      ∷ text "(writers and their ancestors)"
      ∷ reset
      ∷ [])
    ⊕ process_lines (p ∷ procs)

abbrev tree_from : World → ℕ → Result (Option Text) × Graph → Output × Graph
tree_from w pid (failed, g) = (query_failed w, g)
tree_from w pid (ok none, g) =
    (println (text "no live process recorded with pid " ∷ signed pid ∷ []), g)
tree_from w pid (ok (some start), g) =
    let (r, g') = descendants pid start g in (tree_text w pid r, g')

abbrev tree_of_pid : World → Text → Option ℕ → Graph → Output × Graph
tree_of_pid w pid_arg none g = (eprintln (text "not a pid: " ∷ pid_arg ∷ []), g)
tree_of_pid w pid_arg (some pid) g = tree_from w pid (start_of pid g)

unfoldable pub cmd_tree : World → Text → Graph → Output × Graph
unfolding parse_i32 start_of descendants signed
cmd_tree w pid_arg g = tree_of_pid w pid_arg (parse_i32 pid_arg) g

abbrev stat_text : World → Text → Result (ℕ × ℕ) → Output
stat_text w db failed = query_failed w
stat_text w db (ok (procs, events)) =
    println (bold ∷ text "graph" ∷ reset ∷ text "   " ∷ db ∷ [])
    ⊕ println (text "  processes  " ∷ decimal procs ∷ [])
    ⊕ println (text "  events     " ∷ decimal events ∷ [])

unfoldable pub cmd_stat : World → Text → Graph → Output × Graph
unfolding counts decimal
cmd_stat w db g = let (r, g') = counts g in (stat_text w db r, g')
