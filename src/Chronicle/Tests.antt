-- ===== src/Chronicle/Tests.antt =====
-- Runs of src/bin/chronicle.rs, and the theorems there.
use whenfs.Prelude.{◌≡◌, refl, true, false, none, some, [], ◌∷◌, List}
use whenfs.Prelude.Text.{Text, text, text_eq}
use whenfs.HashMap
use whenfs.FilePath.{normal}
use whenfs.Graph.Types.{FileEvent, Process, EventRow, Tables}
use whenfs.Graph.Sql.{clean}
use whenfs.Graph.{prune}
use whenfs.Chronicle.{World, who, eprintln}
use whenfs.Chronicle.Args.{
  no_options, arg_loop, parse_args, pair, single, is_traced, command_of, trace,
}
use whenfs.Chronicle.Args.Written.{apply, db, written, set_all, IsAsked, arg_loop-written}
use whenfs.Chronicle.Undo.{cmd_revert}
use whenfs.Chronicle.Apply.{Disk}
use whenfs.Chronicle.Safety.{IsSafe, cmd_revert-IsSafe}
use whenfs.Chronicle.Pruning.{cmd_prune}
use whenfs.Chronicle.DryRun.{tables_left, tables-cmd_prune}
use whenfs.TimeExpr.{Calendar, done, mon}
use whenfs.TimeExpr.Resolve.{resolve_target, parse_snapshot_name, format_snapshot_name}
use whenfs.Chronicle.Trace.{group, nothing, cmd_trace, not_spawned}
use whenfs.Chronicle.Manifest.{Says, group-Says}
use whenfs.Chronicle.Start.{find_db}

abbrev world : World
world = record {
  canonical = λ p. none;
  graph_variable = none;
  exists = λ p. text_eq p (text "/var/lib/whenfs/graph.db");
  database_error = text "disk I/O error";
}

finds_the_second : find_db world none ≡ some (text "/var/lib/whenfs/graph.db")
unfolding find_db text_eq
finds_the_second = refl

-- An option behind `trace` belongs to the command.
leaves_the_options :
    parse_args (text "--db" ∷ text "x" ∷ text "trace" ∷ text "--" ∷ text "ls" ∷ text "--apply" ∷ [])
    ≡ trace (text "ls" ∷ text "--apply" ∷ [])
unfolding parse_args arg_loop pair single is_traced command_of text_eq
leaves_the_options = refl

arg_loop-written_example :
    let o =
      arg_loop
        (written (db (text "x") ∷ apply ∷ []) (text "trace" ∷ text "--" ∷ text "--apply" ∷ []))
        no_options in
    (o ≡ record (set_all (db (text "x") ∷ apply ∷ []) no_options) {
      rest = text "trace" ∷ text "--" ∷ text "--apply" ∷ [];
    })
    × IsAsked (text "--" ∷ text "--apply" ∷ []) (command_of o o.rest)
arg_loop-written_example =
    arg_loop-written (db (text "x") ∷ apply ∷ []) (text "--" ∷ text "--apply" ∷ [])

abbrev process : Process
process = record {
  pid = 7;
  start_ts = text "2";
  ppid = none;
  exe = [];
  comm = text "sh";
  cmdline = [];
  uid = none;
  exit_ts = none;
}

abbrev event : EventRow
event = record {
  id = 1;
  ts = text "3";
  path = text "/w/a";
  op = text "create";
  pid = 7;
  proc_start = some (text "2");
  other_path = none;
}

abbrev tables : Tables
tables = record { processes = process ∷ []; events = event ∷ [] }

abbrev disk : Disk
disk = record {
  answer = λ calls call. some (record { not_found = false; message = text "busy" });
  is_dir_itself = λ calls path. false;
  is_dir = λ calls path. false;
  has_entry = λ calls path. false;
  snap_entries =
      some (some (record { name = some (text "1"); path = normal (text "1") ∷ [] }) ∷ []);
  is_snapshot = λ path. true;
  exists = λ path. false;
}

cmd_revert-IsSafe_example :
    IsSafe disk world
      (clean tables)
      (text "7")
      (text "/s")
      (text "/w")
      true
      (cmd_revert disk (text "/s") (text "/w") true world (clean tables) (text "7"))
cmd_revert-IsSafe_example =
    cmd_revert-IsSafe disk world (clean tables) (text "7") (text "/s") (text "/w") true

-- A calendar that takes every text for a time.
abbrev calendar : Calendar
calendar = record {
  DateTime = Text;
  NaiveDateTime = Text;
  NaiveDate = Text;
  format = λ f t. t;
  parse_date_time = λ t f. some t;
  parse_date = λ t f. none;
  local_single = λ t. some t;
  last_second = λ t. t;
  date_naive = λ t. t;
  weekday = λ t. mon;
  minus = λ span n t. none;
  date_minus = λ span n t. none;
  checked_sub_months = λ n t. none;
  le = λ a b. true;
}

means_a_time : resolve_target calendar (text "4") (text "9") ≡ done (some (text "4"))
unfolding resolve_target parse_snapshot_name
means_a_time = refl

tables-cmd_prune_example :
    (tables_left (cmd_prune calendar (text "9") world (text "4") false true (clean tables))
      ≡ some tables)
    × (tables_left (cmd_prune calendar (text "9") world (text "4") true true (clean tables))
        ≡ some (prune (format_snapshot_name calendar (text "4")) (clean tables)).1.tables)
tables-cmd_prune_example =
    tables-cmd_prune calendar (text "9") (text "4") world (text "4") true (clean tables) tables
      means_a_time

abbrev wrote : Text → Text → FileEvent
wrote path op = record {
  ts = text "3";
  path = path;
  op = op;
  pid = 7;
  comm = text "sh";
  exe = [];
  cmdline = [];
  proc_start = none;
  other_path = none;
}

groups_by_path :
    (group
      (wrote (text "/a") (text "create")
        ∷ wrote (text "/b") (text "modify")
        ∷ wrote (text "/a") (text "modify")
        ∷ wrote (text "/a") (text "create")
        ∷ [])
      nothing).ops
    ≡ (text "/a", text "create" ∷ text "modify" ∷ []) ∷ (text "/b", text "modify" ∷ []) ∷ []
unfolding group HashMap.get HashMap.insert text_eq who
groups_by_path = refl

abbrev three : List FileEvent
three =
    wrote (text "/a") (text "create")
    ∷ wrote (text "/b") (text "modify")
    ∷ wrote (text "/a") (text "modify")
    ∷ []

group-Says_example : Says three (group three nothing)
group-Says_example = group-Says three

runs_nothing :
    cmd_trace world (λ prog args. not_spawned (text "no such file")) (text "x" ∷ [])
    ≡ eprintln (text "cannot run x: no such file" ∷ [])
unfolding cmd_trace
runs_nothing = refl
