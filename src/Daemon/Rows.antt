-- ===== src/Daemon/Rows.antt =====
-- The rows of the graph under the calls that src/bin/whodidd.rs makes: none is lost.
use whenfs.Prelude.{ℕ, ◌∙◌, Option}
use whenfs.Prelude.Text.{Text}
use whenfs.ProcTree.{ProcNode}
use whenfs.Graph.Types.{Tables, Process, has_key}
use whenfs.Graph.{
  record_existing, record_exit_at, record_event_full, update_processes, insert_process,
  insert_event, set_exit,
}
use whenfs.Graph.Keeps.{Keeps, keeps_queries}
use whenfs.Daemon.{identity}
use whenfs.Daemon.Stored.{HasRow, exit-keeps_rows, insert-keeps_rows}

module _ (p : ℕ) (start : Text) where
  abbrev Row : Tables → Type 0
  Row t = HasRow p start t

  insert-Row : (new : Process) (t : Tables) → Row t → Row (insert_process new t).1
  insert-Row new t h = insert-keeps_rows new t p start h

  exit-Row :
      (pid : ℕ) (s ts : Text) (t : Tables)
      → Row t
      → Row (update_processes (has_key pid s) (set_exit ts) t).1
  unfolding update_processes
  exit-Row pid s ts t h = exit-keeps_rows (has_key pid s) ts t.processes p start ∙ h

  event-Row :
      (ts path op : Text) (pid : ℕ) (s o : Option Text) (t : Tables)
      → Row t
      → Row (insert_event ts path op pid s o t).1
  unfolding insert_event
  event-Row ts path op pid s o t h = h

  ruleset keeps_rows = (keeps_queries, insert-Row, exit-Row, event-Row)

  pub Keeps-record_existing :
      (n : ProcNode) (pid : ℕ) → Keeps Row (record_existing pid n.ppid (identity n.info) n.start_ts)
  unfolding record_existing
  Keeps-record_existing n pid = search keeps_rows

  pub Keeps-record_exit_at : (pid : ℕ) (s ts : Text) → Keeps Row (record_exit_at pid s ts)
  unfolding record_exit_at
  Keeps-record_exit_at pid s ts = search keeps_rows

  pub Keeps-record_event_full :
      (now path op : Text) (pid : ℕ) (other : Option Text)
      → Keeps Row (record_event_full now path op pid other)
  unfolding record_event_full
  Keeps-record_event_full now path op pid other = search keeps_rows
