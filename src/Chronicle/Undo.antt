-- ===== src/Chronicle/Undo.antt =====
-- `cmd_revert` of src/bin/chronicle.rs: the plan, what it prints, and its run.
use whenfs.Prelude.{ℕ, Bool, Option, none, some, List, [], ◌∷◌, keep, if◌then◌else◌, ltb, length}
use whenfs.Prelude.Text.{Text, text, text_le}
use whenfs.Prelude.Sort.{sort_by}
use whenfs.FilePath.{FilePath, root_dir, normal, cur_dir, parent_dir, of_text, strip_base}
use whenfs.Daemon.Strings.{decimal, parse_i32, signed}
use whenfs.Graph.Types.{FileEvent}
use whenfs.Graph.Sql.{Graph, Result, ok, failed}
use whenfs.Graph.{latest_start_ts}
use whenfs.Graph.Queries.{events_by_tree}
use whenfs.TimeExpr.{DirEntry}
use whenfs.Revert.{Step, restore, remove, skip, plan, is_restore, is_remove, is_skip}
use whenfs.Chronicle.{
  World, Output, println, eprintln, ◌⊕◌, silent, dim, bold, cyan, yellow, reset, newline,
}
use whenfs.Chronicle.Apply.{Call, Disk, Tally, apply_all}

-- The name of the snapshot that a version comes from.
abbrev snapshot_name : Option FilePath → Text
snapshot_name (some (normal name ∷ _)) = name
snapshot_name (some (root_dir ∷ _)) = text "/"
snapshot_name (some (cur_dir ∷ _)) = text "."
snapshot_name (some (parent_dir ∷ _)) = text ".."
snapshot_name _ = []

-- The line of the plan for a step.
unfoldable pub step_line : Text → Step → Output
unfolding of_text strip_base
step_line snap_root (restore path from) = println (
    text "  "
    ∷ cyan
    ∷ text "restore"
    ∷ reset
    ∷ text "  "
    ∷ path
    ∷ text "  "
    ∷ dim
    ∷ text "from "
    ∷ snapshot_name (strip_base from (of_text snap_root))
    ∷ reset
    ∷ [])
step_line snap_root (remove path) = println (
    text "  "
    ∷ yellow
    ∷ text "remove "
    ∷ reset
    ∷ text "  "
    ∷ path
    ∷ text "  "
    ∷ dim
    ∷ text "(created by this command)"
    ∷ reset
    ∷ [])
step_line snap_root (skip path why) =
    println (text "  " ∷ dim ∷ text "skip    " ∷ path ∷ text "  — " ∷ why ∷ reset ∷ [])

abbrev step_lines : Text → List Step → Output
step_lines snap_root [] = silent
step_lines snap_root (step ∷ steps) = step_line snap_root step ⊕ step_lines snap_root steps

abbrev how_many : (Step → Bool) → List Step → Text
how_many p steps = decimal (length (keep p steps))

abbrev plan_text : Bool → ℕ → Text → List Step → Output
plan_text apply pid snap_root steps =
    println (
      newline
      ∷ bold
      ∷ (if apply then text "applying" else text "dry run —")
      ∷ reset
      ∷ text " undo plan for pid "
      ∷ signed pid
      ∷ newline
      ∷ [])
    ⊕ step_lines snap_root steps
    ⊕ println (
        newline
        ∷ text "  "
        ∷ how_many is_restore steps
        ∷ text " to restore, "
        ∷ how_many is_remove steps
        ∷ text " to remove, "
        ∷ how_many is_skip steps
        ∷ text " skipped"
        ∷ [])

abbrev verdict : Tally → Output
verdict t =
    if ltb 0 t.kept
    then println (
        text "  "
        ∷ decimal t.applied
        ∷ text " applied, "
        ∷ decimal t.kept
        ∷ text " kept (not empty), "
        ∷ decimal t.failures
        ∷ text " failed"
        ∷ [])
    else println (
        text "  "
        ∷ decimal t.applied
        ∷ text " applied, "
        ∷ decimal t.failures
        ∷ text " failed"
        ∷ [])

-- What the command prints, and the calls it makes.
pub record Effects : Type 0 where
  pub printed : Output
  pub calls : List Call

abbrev pub only : Output → Effects
only o = record { printed = o; calls = [] }

abbrev pub zero_tally : Output → Tally
zero_tally o = record { applied = 0; kept = 0; failures = 0; printed = o; calls = [] }

abbrev pub applied_plan : Tally → Effects
applied_plan t = record { printed = t.printed ⊕ verdict t; calls = t.calls }

unfoldable pub run_plan : Disk → Bool → ℕ → Text → List Step → Effects
unfolding apply_all step_line decimal signed
run_plan disk apply pid snap_root steps =
    let shown = plan_text apply pid snap_root steps in
    if apply
    then applied_plan (apply_all disk steps (zero_tally shown))
    else only (
        shown
        ⊕ println (
            text "  "
            ∷ dim
            ∷ text "dry run: nothing was changed. Re-run with --apply."
            ∷ reset
            ∷ []))

-- `flatten`, the directories among them, and the names that are UTF-8.
abbrev dirs_of : (FilePath → Bool) → List (Option DirEntry) → List Text
dirs_of is_dir [] = []
dirs_of is_dir (none ∷ entries) = dirs_of is_dir entries
dirs_of is_dir (some e ∷ entries) =
    let rest = dirs_of is_dir entries in
    if is_dir e.path then elim e.name [ none ↦ rest | some name ↦ name ∷ rest ] else rest

abbrev entries_of : Option (List (Option DirEntry)) → List (Option DirEntry)
entries_of none = []
entries_of (some entries) = entries

unfoldable pub snapshots_of : Disk → List Text
unfolding sort_by
snapshots_of disk = sort_by text_le (dirs_of disk.is_snapshot (entries_of disk.snap_entries))

module _ (disk : Disk) (snap_root live_root : Text) (apply : Bool) where
  -- The plan, run or shown; none is its panic.
  abbrev pub planned : ℕ → Option (List Step) → Option Effects
  planned pid none = none
  planned pid (some steps) = some (run_plan disk apply pid snap_root steps)

  abbrev pub on_snapshots : ℕ → List FileEvent → List Text → Option Effects
  on_snapshots pid events [] = some (
      only (
        eprintln (text "no snapshots under " ∷ snap_root ∷ text " — nothing to restore from" ∷ [])))
  on_snapshots pid events (s ∷ snapshots) =
      planned pid (plan disk.exists events (s ∷ snapshots) snap_root live_root)

  abbrev pub on_events : World → ℕ → Result (List FileEvent) → Option Effects
  on_events w pid failed = some (only (eprintln (text "query failed: " ∷ w.database_error ∷ [])))
  on_events w pid (ok []) = some (
      only
        (println (text "nothing recorded for pid " ∷ signed pid ∷ text " — nothing to undo" ∷ [])))
  on_events w pid (ok (e ∷ events)) = on_snapshots pid (e ∷ events) (snapshots_of disk)

  abbrev no_process : ℕ → Option Effects
  no_process pid = some (only (eprintln (text "no process recorded with pid " ∷ signed pid ∷ [])))

  abbrev pub on_start : World → ℕ → Result (Option Text) × Graph → Option Effects
  on_start w pid (ok (some start), g) = on_events w pid (events_by_tree pid start g).0
  on_start w pid (ok none, g) = no_process pid
  on_start w pid (failed, g) = no_process pid

  abbrev on_pid : World → Graph → Text → Option ℕ → Option Effects
  on_pid w g pid_arg none = some (only (eprintln (text "not a pid: " ∷ pid_arg ∷ [])))
  on_pid w g pid_arg (some pid) = on_start w pid (latest_start_ts pid g)

  unfoldable pub cmd_revert : World → Graph → Text → Option Effects
  unfolding run_plan snapshots_of plan parse_i32 events_by_tree latest_start_ts signed
  cmd_revert w g pid_arg = on_pid w g pid_arg (parse_i32 pid_arg)
