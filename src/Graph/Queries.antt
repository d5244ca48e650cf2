-- ===== src/Graph/Queries.antt =====
-- src/graph.rs: the queries that read. Each SQL text is the function on the tables that it says; a
-- recursive query takes its rows level by level, as SQLite's queue does, so that its result is
-- already in the order of `depth`.
use mathlib.Core.List.{flat_map, get_last?}
use whenfs.Prelude.{
  ℕ, zero, suc, Bool, false, ◌&&◌, ◌||◌, not, Option, none, some, List, [], ◌∷◌, ◌++◌, map,
  if◌then◌else◌, eqb, leb, keep,
}
use whenfs.Prelude.Text.{Text, text_eq, text_le}
use whenfs.Prelude.Sort.{sort_by}
use whenfs.Graph.Types.{FileEvent, ProcRow, Process, EventRow, Tables, has_key}
use whenfs.Graph.Sql.{Query, ◌>>=◌, pure, select}
use whenfs.Graph.{in_window, ends_after, newest_start}

-- `COALESCE(e.proc_start, (SELECT MAX(p2.start_ts) FROM processes p2 WHERE …))`
unfoldable pub resolved_start : Tables → EventRow → Option Text
resolved_start t e = elim e.proc_start [
  | some s ↦ some s
  | none ↦ newest_start (in_window e.pid e.ts) t
]

-- `p.pid = r.pid AND p.start_ts = r.rstart`; a null start equals nothing.
abbrev pub is_writer : ℕ → Option Text → Process → Bool
is_writer pid none p = false
is_writer pid (some s) p = has_key pid s p

-- One row of the join, with the columns of a missing process read as ''.
abbrev pub file_event : EventRow → Option Text → Option Process → FileEvent
file_event e start none = record {
  ts = e.ts;
  path = e.path;
  op = e.op;
  pid = e.pid;
  comm = [];
  exe = [];
  cmdline = [];
  proc_start = start;
  other_path = e.other_path;
}
file_event e start (some p) = record {
  ts = e.ts;
  path = e.path;
  op = e.op;
  pid = e.pid;
  comm = p.comm;
  exe = p.exe;
  cmdline = p.cmdline;
  proc_start = start;
  other_path = e.other_path;
}

-- A row on its way to `ORDER BY ts ASC, id ASC`.
pub record Joined : Type 0 where
  pub id : ℕ
  pub event : FileEvent

-- `LEFT JOIN`: a row for each match, or one with no match.
abbrev pub left_join : EventRow → Option Text → List Process → List Joined
left_join e start [] = record { id = e.id; event = file_event e start none } ∷ []
left_join e start (p ∷ ps) =
    map (λ q. record { id = e.id; event = file_event e start (some q) }) (p ∷ ps)

-- `ORDER BY ts ASC, id ASC`
unfoldable pub in_order : Joined → Joined → Bool
in_order a b =
    text_le a.event.ts b.event.ts && (not (text_le b.event.ts a.event.ts) || leb a.id b.id)

-- The rows of `resolved` of one event, joined.
unfoldable pub log_rows : Tables → EventRow → List Joined
unfolding resolved_start
log_rows t e =
    left_join e (resolved_start t e) (keep (is_writer e.pid (resolved_start t e)) t.processes)

unfoldable pub joined_log : Tables → Text → List Joined
unfolding log_rows in_order
joined_log t path =
    sort_by in_order (flat_map (log_rows t) (keep (λ e. text_eq e.path path) t.events))

unfoldable pub log_of : Tables → Text → List FileEvent
unfolding joined_log
log_of t path = map (λ j. j.event) (joined_log t path)

unfoldable pub log_file : Text → Query (List FileEvent)
unfolding log_of
log_file path = select (λ t. log_of t path)

-- `self.log_file(path)?.pop()`
unfoldable pub blame : Text → Query (Option FileEvent)
blame path = do events ← log_file path; pure (get_last? events)

abbrev pub proc_row : Process → ProcRow
proc_row p = record {
  pid = p.pid;
  start_ts = p.start_ts;
  ppid = p.ppid;
  comm = p.comm;
  exe = p.exe;
  cmdline = p.cmdline;
}

-- A recursive query: the rows of this level, then those that they lead to, `rounds` times.
unfoldable pub levels : ℕ → (Process → List Process) → List Process → List Process
levels zero next rows = rows
levels (suc rounds) next rows = rows ++ levels rounds next (flat_map next rows)

abbrev pub is_pid : Option ℕ → ℕ → Bool
is_pid none pid = false
is_pid (some p) pid = eqb p pid

-- The parent's incarnation whose lifetime holds the child's birth.
unfoldable pub is_parent_of : Process → Process → Bool
is_parent_of c p =
    is_pid c.ppid p.pid && text_le p.start_ts c.start_ts && ends_after p.exit_ts c.start_ts

-- `p.ppid = t.pid`
unfoldable pub is_child_of : Process → Process → Bool
is_child_of t p = is_pid p.ppid t.pid

unfoldable pub lineage : Tables → ℕ → Text → List Process
unfolding is_parent_of levels
lineage t pid start_ts =
    levels 64 (λ c. keep (is_parent_of c) t.processes) (keep (has_key pid start_ts) t.processes)

unfoldable pub ancestry : ℕ → Text → Query (List ProcRow)
unfolding lineage
ancestry pid start_ts = select (λ t. map proc_row (lineage t pid start_ts))

unfoldable pub tree : Tables → ℕ → Text → List Process
unfolding is_child_of levels
tree t pid start_ts =
    levels 256 (λ c. keep (is_child_of c) t.processes) (keep (has_key pid start_ts) t.processes)

unfoldable pub descendants : ℕ → Text → Query (List ProcRow)
unfolding tree
descendants pid start_ts = select (λ t. map proc_row (tree t pid start_ts))

-- `e.pid = t.pid AND (e.proc_start = t.start_ts OR (e.proc_start IS NULL AND t.start_ts <= e.ts))`
unfoldable pub wrote : EventRow → Process → Bool
wrote e p =
    eqb e.pid p.pid
    && elim e.proc_start [ some s ↦ text_eq s p.start_ts | none ↦ text_le p.start_ts e.ts ]

-- The rows of one event joined with one row of the tree, and with the table of processes.
unfoldable pub tree_rows : Tables → EventRow → Process → List Joined
unfolding wrote
tree_rows t e w =
    if wrote e w
    then left_join e (some w.start_ts) (keep (has_key w.pid w.start_ts) t.processes)
    else []

unfoldable pub manifest : Tables → ℕ → Text → List FileEvent
unfolding tree_rows tree in_order
manifest t pid start_ts =
    map (λ j. j.event)
      (sort_by in_order (flat_map (λ e. flat_map (tree_rows t e) (tree t pid start_ts)) t.events))

unfoldable pub events_by_tree : ℕ → Text → Query (List FileEvent)
unfolding manifest
events_by_tree pid start_ts = select (λ t. manifest t pid start_ts)
