-- ===== src/Graph/Tests.antt =====
-- Runs of src/graph.rs on concrete tables, after its own tests, and the theorems at such tables.
use whenfs.Prelude.{ℕ, ◌≡◌, refl, Option, none, some, List, [], ◌∷◌, length, keep, ◌+◌, map, ◌↔◌}
use whenfs.Prelude.Text.{Text, text, text_le, text_eq}
use whenfs.Prelude.Newest.{newest}
use mathlib.Core.List.{flat_map}
use whenfs.Graph.Types.{Process, EventRow, Tables, has_key}
use whenfs.Graph.Sql.{ok, clean, on_ok, ◌>>=◌, pure, statement, select}
use whenfs.Graph.{
  record_event_full, prune, prune_preview, is_stale, is_old, is_pinned, delete_processes,
  delete_events, insert_event, next_id, in_window, started, newest_start, query_row, or_query,
  record_event,
}
use whenfs.Graph.Queries.{log_file, lineage, tree, levels, is_parent_of, is_child_of}
use whenfs.Graph.Retention.{log_file-prune, prune-prune_preview}
use whenfs.Graph.Binding.{Binding, row, with_event, record_event_full-Binding}
use whenfs.Prelude.Member.{In}
use whenfs.Graph.Lineage.{Line, IsSeed, tree-Line, lineage-Line}

abbrev proc : ℕ → Text → Option ℕ → Option Text → Process
proc pid start ppid ended = record {
  pid = pid;
  start_ts = start;
  ppid = ppid;
  exe = [];
  comm = [];
  cmdline = [];
  uid = none;
  exit_ts = ended;
}

abbrev event_at : ℕ → Text → Text → ℕ → EventRow
event_at id ts path pid = record {
  id = id;
  ts = ts;
  path = path;
  op = text "modify";
  pid = pid;
  proc_start = none;
  other_path = none;
}

-- sh 10, which has ended; its child 20; and an unrelated child 30 of another process with pid 10.
abbrev stored : Tables
stored = record {
  processes =
      proc 10 (text "t1") none (some (text "t3"))
      ∷ proc 20 (text "t2") (some 10) none
      ∷ proc 10 (text "t6") none none
      ∷ proc 30 (text "t7") (some 10) none
      ∷ proc 40 (text "t0") none (some (text "t1"))
      ∷ [];
  events =
      event_at 1 (text "t1") (text "/w/a") 40
      ∷ event_at 2 (text "t5") (text "/w/a") 20
      ∷ event_at 3 (text "t8") (text "/w/a") 30
      ∷ [];
}

prune_removes : (prune (text "t4") (clean stored)).0 ≡ ok (2, 1)
unfolding prune delete_processes delete_events is_stale is_old is_pinned statement pure ◌>>=◌
    text_le
prune_removes = refl

log_file-prune_example :
    (log_file (text "/w/a") (prune (text "t4") (clean stored)).1).0
    ≡ on_ok (keep (λ e. text_le (text "t4") e.ts)) (log_file (text "/w/a") (clean stored)).0
log_file-prune_example = log_file-prune (text "t4") stored (text "/w/a")

prune-prune_preview_example :
    let after = (prune (text "t4") (clean stored)).1.tables in
    (prune_preview (text "t4") (clean stored) ≡ (ok (2, 1), clean stored))
    × (length after.processes + 2 ≡ length stored.processes)
    × (length after.events + 1 ≡ length stored.events)
prune-prune_preview_example = prune-prune_preview (text "t4") stored 2 1 prune_removes

abbrev bound : Tables → Text → ℕ → List (Option Text)
bound t now pid =
    map (λ e. e.proc_start)
      (record_event now (text "/w/b") (text "modify") pid (clean t)).1.tables.events

-- The pid was used again: the event goes to the incarnation that was alive.
binds_to_the_living : bound stored (text "t8") 10 ≡ none ∷ none ∷ none ∷ some (text "t6") ∷ []
unfolding record_event record_event_full query_row or_query newest_start newest in_window started
    statement select pure ◌>>=◌ insert_event next_id text_le
binds_to_the_living = refl

-- Nobody with the pid was alive: the event goes to the last one.
binds_to_the_last : bound stored (text "t5") 10 ≡ none ∷ none ∷ none ∷ some (text "t1") ∷ []
unfolding record_event record_event_full query_row or_query newest_start newest in_window started
    statement select pure ◌>>=◌ insert_event next_id text_le
binds_to_the_last = refl

record_event_full-Binding_example :
    (start : Option Text) × Binding stored 10 (text "t8") start
    × (record_event_full (text "t8") (text "/w/b") (text "modify") 10 none (clean stored) ≡ (
      ok tt,
      clean
          (with_event stored (row stored (text "t8") (text "/w/b") (text "modify") 10 start none)),
    ))
record_event_full-Binding_example =
    record_event_full-Binding stored (text "t8") (text "/w/b") (text "modify") 10 none

-- 30 is a child of the second process with pid 10, and is listed under the first one.
tree_of_reused_pid : map (λ p. p.pid) (tree stored 10 (text "t1")) ≡ 10 ∷ 20 ∷ 30 ∷ []
unfolding tree levels is_child_of has_key text_eq flat_map
tree_of_reused_pid = refl

ancestry_of_reused_pid :
    map (λ p. p.start_ts) (lineage stored 30 (text "t7")) ≡ text "t7" ∷ text "t6" ∷ []
unfolding lineage levels is_parent_of has_key text_eq flat_map text_le
ancestry_of_reused_pid = refl

tree-Line_example : In (proc 30 (text "t7") (some 10) none) (tree stored 10 (text "t1")) ↔ (
    (r : Process) × IsSeed stored 10 (text "t1") r
    × Line is_child_of stored.processes 256 r (proc 30 (text "t7") (some 10) none))
tree-Line_example = tree-Line stored 10 (text "t1") (proc 30 (text "t7") (some 10) none)

lineage-Line_example : In (proc 10 (text "t6") none none) (lineage stored 30 (text "t7")) ↔ (
    (r : Process) × IsSeed stored 30 (text "t7") r
    × Line is_parent_of stored.processes 64 r (proc 10 (text "t6") none none))
lineage-Line_example = lineage-Line stored 30 (text "t7") (proc 10 (text "t6") none none)
