-- ===== src/Daemon/SetupTests.antt =====
-- Runs of the set-ups and of `main` of src/bin/whodidd.rs, and the theorems at such runs.
use whenfs.Prelude.{
  false, All, true, Option, ◌≡◌, refl, ltb, length, none, some, List, [], ◌∷◌, if◌then◌else◌,
}
use whenfs.ProcTree.{ProcTree, ProcNode, default_info, get, on_fork, new}
use whenfs.Prelude.Text.{Text, text, text_eq, text_le}
use whenfs.FilePath.{root_dir, normal, of_text, split_slashes, join, parent}
use whenfs.Daemon.Connector.{subscription}
use whenfs.Daemon.Setup.{
  Kernel, fanotify_mark, opens, sends, ends, returns, connector_setup, fid_setup, issue,
  unless_negative, stop, pure, ◌>>=◌, c_string, mark_fid, anchor, fanotify_init_or_die,
}
use whenfs.Daemon.Descriptors.{
  Connects, connector_setup-Connects, Marks, fid_setup-Marks, held, marked,
}
use whenfs.Daemon.Main.{graph_path}
use whenfs.Daemon.Degrades.{serve_all, serve_all-log}
use whenfs.Daemon.Threads.{Task, event, message, evicts}
use whenfs.Daemon.{forked, log_event_full}
use whenfs.Daemon.ThreadTests.{job, later, start, system}
use whenfs.Daemon.Blame.{blame-log_event_full, IsAttributed}
use whenfs.HashMap
use whenfs.Graph.Types.{Tables, Process}
use whenfs.Graph.Sql.{clean, ok}
use whenfs.Graph.Binding.{row, with_event}
use whenfs.Graph.Queries.{file_event, blame}
use whenfs.Daemon.ReadTests.{libc, word}

-- A kernel without `FAN_RENAME`, in which nothing can be opened.
abbrev old_kernel : Kernel
old_kernel calls (fanotify_mark fd flags kinds path) = if ltb (length kinds) 8 then some 0 else none
old_kernel calls (opens path) = none
old_kernel calls (sends fd bytes) = none
old_kernel calls _ = some 3

-- The watcher returns and leaves its group open.
leaves_the_group :
    let (r, calls) = fid_setup old_kernel (text "/w") (text "/l") [] in
    (r ≡ ends returns) × (held old_kernel calls ≡ 3 ∷ []) × (length (marked old_kernel calls) ≡ 1)
unfolding fid_setup ◌>>=◌ issue unless_negative c_string mark_fid fanotify_init_or_die anchor pure
    stop
leaves_the_group = (refl, refl, refl)

fid_setup-Marks_example :
    Marks old_kernel (text "/w") (fid_setup old_kernel (text "/w") (text "/l") [])
fid_setup-Marks_example = fid_setup-Marks old_kernel (text "/w") (text "/l")

connector_setup-Connects_example :
    Connects old_kernel (subscription libc word 7) (connector_setup old_kernel libc word 7 [])
connector_setup-Connects_example = connector_setup-Connects old_kernel libc word 7

graph_is_beside_the_log :
    graph_path (text "/var/log/w.jsonl")
    ≡ root_dir ∷ normal (text "var") ∷ normal (text "log") ∷ normal (text "graph.db") ∷ []
unfolding graph_path of_text split_slashes text_eq join parent
graph_is_beside_the_log = refl

abbrev tasks : List Task
tasks = message later (forked 1 10) ∷ event job ∷ evicts (text "a") ∷ event job ∷ []

serve_all-log_example :
    (serve_all tasks start.memory).log
    ≡ (serve_all tasks (record start.memory { graph = none })).log
serve_all-log_example = serve_all-log tasks start.memory none

-- The path has an event already, a second before.
abbrev earlier : Tables
earlier = record {
  processes = [];
  events =
      record {
        id = 1;
        ts = text "t";
        path = text "/w/a";
        op = text "create";
        pid = 9;
        proc_start = none;
        other_path = none;
      }
      ∷ [];
}

not_later : All (λ e. text_le e.ts (text "u") ≡ true) earlier.events
unfolding text_le
not_later = (refl, tt)

abbrev family : ProcTree
family = on_fork new 1 10 (text "t")

abbrev child : ProcNode
child = record {
  ppid = some 1;
  start_ts = text "t";
  info = default_info;
  exited = none;
  persisted = false;
}

has_child : get family 10 ≡ some child
unfolding get on_fork new HashMap.get HashMap.insert
has_child = refl

born_before : text_le (text "t") (text "u") ≡ true
unfolding text_le
born_before = refl

blame-log_event_full_example :
    (stored : Tables) × (stored.events ≡ earlier.events)
    × (start : Option Text) × (o : Option Process) × IsAttributed stored 10 (text "u") start o
    × (let e = row stored (text "u") (text "/w/a") (text "modify") 10 start none in
        let g = clean (with_event stored e) in
        ((log_event_full system
            (text "/w/a")
            (text "modify")
            10
            none
            (record { table = family; graph = some (clean earlier); log = [] })).graph
          ≡ some g)
        × ((blame (text "/w/a") g).0 ≡ ok (some (file_event e start o))))
blame-log_event_full_example =
    blame-log_event_full system (text "/w/a") (text "modify") 10 none family [] earlier child
      has_child refl born_before not_later
