-- ===== src/Daemon/Tests.antt =====
-- Runs of src/bin/whodidd.rs, and the theorems at such runs.
use whenfs.Prelude.{◌≡◌, refl, true, Option, none, some, List, [], ◌∷◌, ◌++◌, map}
use whenfs.Prelude.Text.{Text, text, contains, starts_with}
use whenfs.ProcTree.{new, on_fork, on_exit, unpersisted_chain, chain_loop, mark_persisted}
use whenfs.Daemon.Strings.{parse_ppid, after_last_paren, parse_i32, json_escape}
use whenfs.Daemon.{System, Daemon, is_blocked, log_event_full, op_name, persist_all, persist_one}
use whenfs.HashMap
use whenfs.Graph.Sql.{Graph, statement, pure, ◌>>=◌}
use whenfs.Graph.{record_existing, insert_process}
use whenfs.Graph.Types.{has_key}
use whenfs.Daemon.Lines.{IsPrintable, log_event_full-IsPrintable}

abbrev system : System
system = record {
  comm = λ pid. some (text "sh");
  stat = λ pid. none;
  args = λ pid. none;
  exe = λ pid. none;
  uid = λ pid. some 0;
  lossy = λ b. b;
  now = text "t";
  graph_now = text "t";
  log_now = text "t";
  self_pid = 1;
  log_fails_at = none;
}

-- The first statement fails.
abbrev daemon : Daemon
daemon = record {
  table = on_fork new 1 10 (text "t");
  graph = some (record { tables = record { processes = []; events = [] }; faults = true ∷ [] });
  log = [];
}

reads_the_parent : parse_ppid (text "12 (a) 7 8 (x) S 34 12 0") ≡ some 34
unfolding parse_ppid after_last_paren parse_i32
reads_the_parent = refl

escapes : json_escape (text "a\"\n") ≡ text "a\\\"\\n"
unfolding json_escape
escapes = refl

blocks : is_blocked (text "/w/.git/index") ≡ true
unfolding is_blocked contains starts_with
blocks = refl

names_a_delete : op_name 512 ≡ text "delete"
unfolding op_name
names_a_delete = refl

log_event_full-IsPrintable_example :
    (line : Text) × ((log_event_full system (text "/w/\n") (text "modify") 10 none daemon).log
      ≡ line ++ 10 ∷ [])
    × IsPrintable line
log_event_full-IsPrintable_example =
    log_event_full-IsPrintable system (text "/w/\n") (text "modify") 10 none daemon refl (refl, tt)
      (refl, (refl, (refl, (refl, (refl, (refl, tt))))))

abbrev graph : Graph
graph = record { tables = record { processes = []; events = [] }; faults = true ∷ [] }

abbrev quiet : Graph
quiet = record { tables = record { processes = []; events = [] }; faults = [] }

abbrev exits : Graph → List (Option Text)
exits g = map (λ p. p.exit_ts) g.tables.processes

-- The chain is read, the process exits before its row is written, and the row never hears of it.
loses_an_exit :
    let t = on_fork new 1 10 (text "t") in
    let chain = unpersisted_chain t 10 in
    let (t', start) = on_exit t 10 (text "u") in
    (start ≡ none) × exits (persist_all chain (t', quiet)).1 ≡ none ∷ []
unfolding on_exit unpersisted_chain chain_loop persist_all persist_one record_existing
    insert_process has_key statement mark_persisted on_fork new HashMap.get HashMap.insert
    HashMap.update ◌>>=◌ pure
loses_an_exit = (refl, refl)
