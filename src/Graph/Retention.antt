-- ===== src/Graph/Retention.antt =====
-- `prune` of src/graph.rs as a whole: what it leaves of the history, and what it reports.
use whenfs.Prelude.{ℕ, ◌+◌, ◌≡◌, refl, ap, arith, keep, length, length-keep-not}
use whenfs.Prelude.Text.{Text, text_le}
use whenfs.Graph.Types.{Tables}
use whenfs.Graph.Sql.{ok, ◌>>=◌, pure, statement, select, clean, on_ok}
use whenfs.Graph.{is_stale, is_old, delete_processes, delete_events, prune, prune_preview}
use whenfs.Graph.Queries.{log_file}
use whenfs.Graph.Prune.{pruned, log_of-pruned}

module _ (before : Text) (t : Tables) where
  prune-pruned : (prune before (clean t)).1 ≡ clean (pruned before t)
  unfolding prune pruned ◌>>=◌ pure statement
  prune-pruned = refl

  -- A prune removes from the history of a path exactly the events before the cutoff: `log_file` then
  -- answers as it did before, less those. Each retained event keeps the writer, the names and the
  -- start that it had, also where its binding is resolved only by the query.
  pub log_file-prune :
      (path : Text)
      → (log_file path (prune before (clean t)).1).0
        ≡ on_ok (keep (λ e. text_le before e.ts)) (log_file path (clean t)).0
  unfolding log_file select statement
  log_file-prune path = rw prune-pruned (ap ok (log_of-pruned before t path))

  -- A prune and its dry run report the same two numbers; the dry run changes nothing, and the tables
  -- shrink by just those numbers.
  pub prune-prune_preview :
      (procs events : ℕ)
      → (prune before (clean t)).0 ≡ ok (procs, events)
      → let after = (prune before (clean t)).1.tables in
        (prune_preview before (clean t) ≡ (ok (procs, events), clean t))
        × (length after.processes + procs ≡ length t.processes)
        × (length after.events + events ≡ length t.events)
  unfolding prune prune_preview delete_processes delete_events ◌>>=◌ pure statement select
  prune-prune_preview procs events h =
      let s : length (keep (is_stale before t.events) t.processes) ≡ procs = cc h in
      let o : length (keep (is_old before) t.events) ≡ events = cc h in
      (
        cc (s, o),
        omega (arith, s, length-keep-not (is_stale before t.events) t.processes),
        omega (arith, o, length-keep-not (is_old before) t.events),
      )
