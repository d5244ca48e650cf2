-- ===== src/Graph.antt =====
-- src/graph.rs: the statements that write. `now` is the value of `now_ts()` at the call. The tables
-- are lists of rows; each SQL statement is the function on them that its text says.
mod Tests
pub mod Types
pub mod Sql
pub mod Queries
pub mod Prune
pub mod Retention
pub mod Keys
pub mod Keeps
pub mod Blame
pub mod Binding
pub mod Lineage
use whenfs.Prelude.{
  ℕ, suc, ◌+◌, Bool, true, false, ◌&&◌, ◌||◌, not, Option, none, some, List, [], ◌∷◌, ◌++◌, map,
  if◌then◌else◌, eqb, leb, keep, any, length, is_none,
}
use whenfs.Prelude.Text.{Text, text_eq, text_le}
use whenfs.Prelude.Newest.{newest}
use whenfs.Graph.Types.{Identity, Process, EventRow, Tables, has_key}
use whenfs.Graph.Sql.{Query, Result, ok, failed, ◌>>=◌, ◌>>◌, pure, statement, select}

-- `INSERT OR IGNORE INTO processes`: the count of rows, and the table.
unfoldable pub insert_process : Process → Tables → ℕ × Tables
unfolding has_key
insert_process p t =
    if any (has_key p.pid p.start_ts) t.processes
    then (0, t)
    else (1, record t { processes = t.processes ++ p ∷ [] })

-- `UPDATE processes SET … WHERE …`
unfoldable pub update_rows : (Process → Bool) → (Process → Process) → List Process → List Process
update_rows matches f = map (λ p. if matches p then f p else p)

unfoldable pub update_processes : (Process → Bool) → (Process → Process) → Tables → ℕ × Tables
unfolding update_rows
update_processes matches f t =
    (length (keep matches t.processes), record t { processes = update_rows matches f t.processes })

-- `WHERE pid = ? AND exit_ts IS NULL`
unfoldable pub is_live : ℕ → Process → Bool
is_live pid p = eqb p.pid pid && is_none p.exit_ts

unfoldable pub record_fork : Text → ℕ → ℕ → Query (Unit {0})
record_fork now parent_pid child_pid = do
  statement (
      insert_process (record {
        pid = child_pid;
        start_ts = now;
        ppid = some parent_pid;
        exe = [];
        comm = [];
        cmdline = [];
        uid = none;
        exit_ts = none;
      }))
  pure tt

abbrev pub set_image : Identity → Process → Process
set_image i p = record p { exe = i.exe; comm = i.comm; cmdline = i.cmdline; uid = some i.uid }

unfoldable pub record_exec : Text → ℕ → Identity → Query (Unit {0})
record_exec now pid i = do
  updated ← statement (update_processes (is_live pid) (set_image i))
  if eqb updated 0
      then (do
        statement (
            insert_process (record {
              pid = pid;
              start_ts = now;
              ppid = none;
              exe = i.exe;
              comm = i.comm;
              cmdline = i.cmdline;
              uid = some i.uid;
              exit_ts = none;
            }))
        pure tt)
      else pure tt

unfoldable pub record_existing : ℕ → Option ℕ → Identity → Text → Query (Unit {0})
record_existing pid ppid i start_ts = do
  statement (
      insert_process (record {
        pid = pid;
        start_ts = start_ts;
        ppid = ppid;
        exe = i.exe;
        comm = i.comm;
        cmdline = i.cmdline;
        uid = some i.uid;
        exit_ts = none;
      }))
  pure tt

abbrev pub set_exit : Text → Process → Process
set_exit ts p = record p { exit_ts = some ts }

unfoldable pub record_exit : Text → ℕ → Query (Unit {0})
record_exit now pid = do statement (update_processes (is_live pid) (set_exit now)); pure tt

unfoldable pub record_exit_at : ℕ → Text → Text → Query (Unit {0})
record_exit_at pid start_ts exit_ts = do
  statement (update_processes (has_key pid start_ts) (set_exit exit_ts))
  pure tt

-- The incarnation had not ended before the time.
abbrev pub ends_after : Option Text → Text → Bool
ends_after none ts = true
ends_after (some e) ts = text_le ts e

-- `pid = ?1 AND start_ts <= ?2`
unfoldable pub started : ℕ → Text → Process → Bool
started pid ts p = eqb p.pid pid && text_le p.start_ts ts

-- The same, `AND (exit_ts IS NULL OR exit_ts >= ?2)`
unfoldable pub in_window : ℕ → Text → Process → Bool
unfolding started
in_window pid ts p = started pid ts p && ends_after p.exit_ts ts

abbrev pub starts : List Process → List Text
starts = map (λ p. p.start_ts)

-- `SELECT start_ts FROM processes WHERE … ORDER BY start_ts DESC LIMIT 1`
unfoldable pub newest_start : (Process → Bool) → Tables → Option Text
unfolding newest
newest_start matches t = newest (starts (keep matches t.processes))

abbrev pub or_none {ℓ} : {A : Type ℓ} → Result (Option A) → Option A
or_none (ok o) = o
or_none failed = none

-- `conn.query_row(…).ok()`: a query that fails counts as one with no row.
unfoldable pub query_row : (Tables → Option Text) → Query (Option Text)
query_row f g = let (r, g') = select f g in (ok (or_none r), g')

-- `first.or_else(|| …)`
unfoldable pub or_query : Option Text → (Query (Option Text)) → Query (Option Text)
or_query (some s) q g = (ok (some s), g)
or_query none q g = q g

-- The next `INTEGER PRIMARY KEY`: one more than the greatest.
unfoldable pub next_id : List EventRow → ℕ
next_id [] = 1
next_id (e ∷ events) = let rest = next_id events in if leb rest e.id then e.id + 1 else rest

unfoldable pub insert_event :
    Text → Text → Text → ℕ → Option Text → Option Text → Tables → ℕ × Tables
unfolding next_id
insert_event ts path op pid proc_start other_path t = (
  1,
  record t {
    events =
        t.events
        ++ record {
          id = next_id t.events;
          ts = ts;
          path = path;
          op = op;
          pid = pid;
          proc_start = proc_start;
          other_path = other_path;
        }
          ∷ [];
  },
)

unfoldable pub record_event_full : Text → Text → Text → ℕ → Option Text → Query (Unit {0})
record_event_full now path op pid other_path = do
  windowed ← query_row (newest_start (in_window pid now))
  proc_start ← or_query windowed (query_row (newest_start (started pid now)))
  statement (insert_event now path op pid proc_start other_path)
  pure tt

unfoldable pub record_event : Text → Text → Text → ℕ → Query (Unit {0})
unfolding record_event_full
record_event now path op pid = record_event_full now path op pid none

abbrev pub has_pid : ℕ → Process → Bool
has_pid pid p = eqb p.pid pid

unfoldable pub latest_start_ts : ℕ → Query (Option Text)
latest_start_ts pid = query_row (newest_start (has_pid pid))

unfoldable pub live_start_ts : ℕ → Query (Option Text)
live_start_ts pid = query_row (newest_start (is_live pid))

-- `NOT EXISTS (SELECT 1 FROM events e WHERE e.pid = … AND e.ts >= …)` is the negation of this.
unfoldable pub is_pinned : Text → List EventRow → Process → Bool
is_pinned before events p = any (λ e. eqb e.pid p.pid && text_le before e.ts) events

abbrev pub ended_before : Option Text → Text → Bool
ended_before none ts = false
ended_before (some e) ts = not (text_le ts e)

-- What the first statement of `prune` deletes.
unfoldable pub is_stale : Text → List EventRow → Process → Bool
unfolding is_pinned
is_stale before events p = ended_before p.exit_ts before && not (is_pinned before events p)

-- What the second one deletes: `ts < ?1`.
unfoldable pub is_old : Text → EventRow → Bool
is_old before e = not (text_le before e.ts)

unfoldable pub delete_processes : Text → Tables → ℕ × Tables
unfolding is_stale
delete_processes before t = (
  length (keep (is_stale before t.events) t.processes),
  record t { processes = keep (λ p. not (is_stale before t.events p)) t.processes },
)

unfoldable pub delete_events : Text → Tables → ℕ × Tables
unfolding is_old
delete_events before t = (
  length (keep (is_old before) t.events),
  record t { events = keep (λ e. not (is_old before e)) t.events },
)

unfoldable pub prune : Text → Query (ℕ × ℕ)
prune before = do
  procs ← statement (delete_processes before)
  events ← statement (delete_events before)
  pure (procs, events)

unfoldable pub prune_preview : Text → Query (ℕ × ℕ)
prune_preview before = do
  events ← select (λ t. length (keep (is_old before) t.events))
  procs ← select (λ t. length (keep (is_stale before t.events) t.processes))
  pure (procs, events)

-- `VACUUM` rewrites the file and leaves the rows.
unfoldable pub vacuum : Query (Unit {0})
vacuum = statement λ t. (tt, t)

unfoldable pub counts : Query (ℕ × ℕ)
counts = do
  procs ← select (λ t. length t.processes)
  events ← select (λ t. length t.events)
  pure (procs, events)
