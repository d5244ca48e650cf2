-- ===== src/Daemon/Threads.antt =====
-- The threads of src/bin/whodidd.rs over the tree, the graph and the log. A step of a thread is what it
-- does while it holds one lock once, or one write to the log; `Place` is where a thread stands, with
-- its live locals. A schedule says which thread takes each step.
use whenfs.Prelude.{ℕ, Option, none, some, List, [], ◌∷◌, ◌++◌, if◌then◌else◌, eqb}
use whenfs.Prelude.Text.{Text}
use whenfs.ProcTree.{
  ProcTree, ProcInfo, ProcNode, new, on_fork, on_exec, on_exit, info, unpersisted_chain,
  mark_persisted, evict_stale,
}
use whenfs.Graph.Sql.{Graph, Result, ok, failed}
use whenfs.Graph.{record_existing, record_exit_at, record_event_full}
use whenfs.Daemon.{
  write_all, System, Daemon, Message, forked, execed, exited_now, identity, read_info, read_ppid,
  or_read, log_line, bootstrap,
}

-- A call of `log_event_full`.
pub record Job : Type 0 where
  pub system : System
  pub path : Text
  pub op : Text
  pub pid : ℕ
  pub other : Option Text

pub data Place : Type 0 where
  -- before the next read, receive or sleep
  idle : Place
  -- in the loop of `persist_chain`: before a row, between a row and its exit, before the mark
  stores : Job → List (ℕ × ProcNode) → Place
  writes_exit : Job → ℕ → ProcNode → Text → List (ℕ × ProcNode) → Place
  marks : Job → ℕ → ProcNode → List (ℕ × ProcNode) → Place
  -- before the look for the writer's names, and before the write of the line
  names : Job → Place
  logs : Job → ProcInfo → Place
  -- between `on_exit` and the exit of a stored row
  passes_on : ℕ → Text → Text → Place

-- What an idle thread may turn to: an event, a message of the connector, or the eviction with its cutoff.
pub data Task : Type 0 where
  event : Job → Task
  message : System → Message → Task
  evicts : Text → Task

abbrev pub first_place : Job → ProcTree → Option Graph → Place
first_place j t none = names j
first_place j t (some g) = stores j (unpersisted_chain t j.pid)

abbrev pub exit_place : ℕ → Text → Option Text → Option Graph → Place
exit_place pid ts (some start) (some g) = passes_on pid start ts
exit_place pid ts _ _ = idle

unfoldable pub begin : Task → Daemon → Daemon × Place
unfolding on_fork on_exec on_exit evict_stale unpersisted_chain
begin (event j) d = (d, first_place j d.table d.graph)
begin (message s (forked parent child)) d =
    (record d { table = on_fork d.table parent child s.now }, idle)
begin (message s (execed pid)) d =
    (record d { table = on_exec d.table pid (read_info s pid) (read_ppid s pid) s.now }, idle)
begin (message s (exited_now pid)) d =
    let (t, start) = on_exit d.table pid s.now in
    (record d { table = t }, exit_place pid s.now start d.graph)
begin (evicts cutoff) d = (record d { table = (evict_stale d.table cutoff).0 }, idle)

-- One call of the graph, if there is one.
abbrev pub call {ℓ} : {A : Type ℓ} → (Graph → Result A × Graph) → Option Graph → Option Graph
call q none = none
call q (some g) = some (q g).1

-- Behind a row: to its exit, if the copy of the node has one, or to the mark.
abbrev pub behind_row : Job → ℕ → ProcNode → List (ℕ × ProcNode) → Option Text → Place
behind_row j pid node chain none = marks j pid node chain
behind_row j pid node chain (some ts) = writes_exit j pid node ts chain

abbrev pub after_call :
    Job → ℕ → ProcNode → List (ℕ × ProcNode) → Result (Unit {0}) × Graph → Option Graph × Place
after_call j pid node chain (failed, g) = (some g, stores j chain)
after_call j pid node chain (ok _, g) = (some g, behind_row j pid node chain node.exited)

abbrev pub store_row :
    Job → ℕ → ProcNode → List (ℕ × ProcNode) → Option Graph → Option Graph × Place
store_row j pid node chain none = (none, names j)
store_row j pid node chain (some g) =
    after_call j pid node chain (record_existing pid node.ppid (identity node.info) node.start_ts g)

unfoldable pub advance : Place → Daemon → Daemon × Place
unfolding record_existing record_exit_at record_event_full mark_persisted info log_line write_all
advance idle d = (d, idle)
advance (stores j []) d = (
  record d {
    graph = call (record_event_full j.system.graph_now j.path j.op j.pid j.other) d.graph;
  },
  names j,
)
advance (stores j ((pid, node) ∷ chain)) d =
    let (g, p) = store_row j pid node chain d.graph in (record d { graph = g }, p)
advance (writes_exit j pid node ts chain) d = (
  record d { graph = call (record_exit_at pid node.start_ts ts) d.graph },
  marks j pid node chain,
)
advance (marks j pid node chain) d =
    (record d { table = mark_persisted d.table pid }, stores j chain)
advance (names j) d = (d, logs j (or_read j.system j.pid (info d.table j.pid)))
advance (logs j i) d =
    let line = log_line j.system j.path j.op j.pid i in
    (record d { log = d.log ++ write_all j.system.log_fails_at (line ++ 10 ∷ []) }, idle)
advance (passes_on pid start ts) d =
    (record d { graph = call (record_exit_at pid start ts) d.graph }, idle)

-- All the threads, by a number for each.
pub record Threads : Type 0 where
  pub memory : Daemon
  pub place : ℕ → Place

abbrev pub move_to : (ℕ → Place) → ℕ → Place → ℕ → Place
move_to place i p j = if eqb i j then p else place j

-- The thread that takes the next step, and what it turns to if it is idle.
pub record Turn : Type 0 where
  pub thread : ℕ
  pub task : Task

abbrev pub stepped : Task → Place → Daemon → Daemon × Place
stepped task idle d = begin task d
stepped task p d = advance p d

unfoldable pub turn : Turn → Threads → Threads
unfolding begin advance
turn t s =
    let (d, p) = stepped t.task (s.place t.thread) s.memory in
    record { memory = d; place = move_to s.place t.thread p }

unfoldable pub run : List Turn → Threads → Threads
unfolding turn
run [] s = s
run (t ∷ turns) s = run turns (turn t s)

-- Where `main` leaves the threads: the tree is seeded from /proc, and none has begun anything.
unfoldable pub started : System → List ℕ → Text → Option Graph → Threads
unfolding bootstrap new
started s pids log o =
    let memory : Daemon = record { table = bootstrap s pids new; graph = o; log = log } in
    record { memory = memory; place = λ i. idle }
