-- ===== src/Daemon/ThreadTests.antt =====
-- Schedules of the threads of src/bin/whodidd.rs, and the theorems at such schedules.
use whenfs.Prelude.{
  ℕ, ◌≡◌, refl, inl, inr, Bool, true, false, Option, none, some, List, [], ◌∷◌, map, eqb, All,
  Bool-cases,
}
use whenfs.Prelude.Text.{Text, text, text_eq}
use whenfs.HashMap
use whenfs.ProcTree.{
  ProcNode, new, get, seed, on_fork, on_exec, on_exit, unpersisted_chain, chain_loop,
  mark_persisted, default_info,
}
use whenfs.Graph.Sql.{Graph, statement, select, pure, ◌>>=◌}
use whenfs.Graph.Types.{Process, has_key}
use whenfs.Graph.{
  record_existing, record_exit_at, record_event_full, insert_process, insert_event,
  update_processes, update_rows, query_row, or_query,
}
use whenfs.Daemon.{System, forked, exited_now, bootstrap}
use whenfs.Daemon.Threads.{
  Job, Place, idle, event, message, begin, advance, Threads, Turn, turn, run, started, move_to,
}
use whenfs.Daemon.Interleaved.{InGraph, held, AreApart}
use whenfs.Daemon.Interleaved.Runs.{run-HasRow}

abbrev pub system : System
system = record {
  comm = λ pid. some (text "sh");
  stat = λ pid. none;
  args = λ pid. none;
  exe = λ pid. none;
  uid = λ pid. some 0;
  lossy = λ b. b;
  now = text "t";
  graph_now = text "u";
  log_now = text "u";
  self_pid = 1;
  log_fails_at = none;
}

abbrev pub later : System
later = record system { now = text "v" }

abbrev latest : System
latest = record system { now = text "w" }

abbrev pub job : Job
job = record { system = system; path = text "/w/a"; op = text "modify"; pid = 10; other = none }

abbrev no_rows : Option Graph
no_rows = some (record { tables = record { processes = []; events = [] }; faults = [] })

abbrev key : Process → ℕ × Text
key p = (p.pid, p.start_ts)

abbrev rows : Option Graph → List (ℕ × Text)
rows none = []
rows (some g) = map key g.tables.processes

abbrev pub start : Threads
start = started system (1 ∷ []) [] no_rows

-- Thread 0 reads the group of files, thread 1 the connector.
abbrev works : Turn
works = record { thread = 0; task = event job }

abbrev hears_fork : System → ℕ → Turn
hears_fork s child = record { thread = 1; task = message s (forked 1 child) }

abbrev hears_exit : Turn
hears_exit = record { thread = 1; task = message later (exited_now 10) }

-- A fork and an exit reach the connector while thread 0 stores the family of 10.
abbrev mixed : List Turn
mixed =
    hears_fork later 10
    ∷ works
    ∷ works
    ∷ hears_fork later 11
    ∷ works
    ∷ works
    ∷ hears_exit
    ∷ works
    ∷ works
    ∷ hears_exit
    ∷ works
    ∷ works
    ∷ []

keeps_order :
    map (λ e. e.1.persisted) (run mixed start).memory.table.procs ≡ true ∷ true ∷ false ∷ []
unfolding run turn begin advance started bootstrap seed new on_fork on_exec on_exit
    unpersisted_chain chain_loop mark_persisted record_existing record_exit_at record_event_full
    insert_process insert_event update_processes update_rows has_key statement select pure ◌>>=◌
    query_row or_query get HashMap.get HashMap.insert HashMap.update text_eq
keeps_order = refl

none_new : (chain : List (ℕ × ProcNode)) → All (λ e. false ≡ false) chain
none_new [] = tt
none_new (e ∷ chain) = (refl, none_new chain)

IsFree : (ℕ → Bool) → Place → Type 0
IsFree new p = All (λ e. new e.0 ≡ false) (held p)

move_to-IsFree :
    (new : ℕ → Bool) (place : ℕ → Place) (k : ℕ) (p : Place)
    → IsFree new p
    → ((i : ℕ) → IsFree new (place i))
    → (i : ℕ) → IsFree new (move_to place k p i)
unfolding IsFree
move_to-IsFree new place k p free others i = elim (Bool-cases (eqb k i)) [
  | inl here ↦ rw here free
  | inr other ↦ rw other (others i)
]

mixed-AreApart : AreApart mixed start
unfolding run turn begin advance started bootstrap seed new on_fork on_exec on_exit
    unpersisted_chain chain_loop mark_persisted record_existing record_exit_at record_event_full
    insert_process insert_event update_processes update_rows has_key statement select pure ◌>>=◌
    query_row or_query get HashMap.get HashMap.insert HashMap.update text_eq IsFree
mixed-AreApart = (
  λ i. tt,
  (
    λ i. none_new _,
    (
      λ i. none_new _,
      (
        move_to-IsFree (eqb 11) _ 0 _ (refl, (refl, tt))
            (move_to-IsFree (eqb 11) _ 0 _ (refl, (refl, tt))
              (move_to-IsFree (eqb 11) _ 1 idle tt (λ i. tt))),
        (
          λ i. none_new _,
          (
            λ i. none_new _,
            (
              λ i. none_new _,
              (
                λ i. none_new _,
                (λ i. none_new _, (λ i. none_new _, (λ i. none_new _, (λ i. none_new _, tt)))),
              ),
            ),
          ),
        ),
      ),
    ),
  ),
)

abbrev stored : ProcNode
stored = record {
  ppid = some 1;
  start_ts = text "v";
  info = default_info;
  exited = some (text "v");
  persisted = true;
}

has_ten : get (run mixed start).memory.table 10 ≡ some stored
unfolding run turn begin advance started bootstrap seed new on_fork on_exec on_exit
    unpersisted_chain chain_loop mark_persisted record_existing record_exit_at record_event_full
    insert_process insert_event update_processes update_rows has_key statement select pure ◌>>=◌
    query_row or_query get HashMap.get HashMap.insert HashMap.update text_eq
has_ten = refl

run-HasRow_example : InGraph 10 (text "v") (run mixed start).memory.graph
run-HasRow_example =
    run-HasRow system (1 ∷ []) [] no_rows mixed 10 stored mixed-AreApart has_ten refl

-- The pid is used again between the row and the mark: the mark falls on a process that has no row.
abbrev reused : List Turn
reused =
    hears_fork later 10
    ∷ works
    ∷ works
    ∷ works
    ∷ works
    ∷ hears_exit
    ∷ hears_fork latest 10
    ∷ works
    ∷ []

marks_a_stranger :
    let m = (run reused start).memory in
    (map (λ e. e.1.start_ts) m.table.procs ≡ text "t" ∷ text "w" ∷ [])
    × (map (λ e. e.1.persisted) m.table.procs ≡ true ∷ true ∷ [])
    × (rows m.graph ≡ (1, text "t") ∷ (10, text "v") ∷ [])
unfolding run turn begin advance started bootstrap seed new on_fork on_exec on_exit
    unpersisted_chain chain_loop mark_persisted record_existing record_exit_at record_event_full
    insert_process insert_event update_processes update_rows has_key statement select pure ◌>>=◌
    query_row or_query get HashMap.get HashMap.insert HashMap.update text_eq
marks_a_stranger = (refl, refl, refl)
