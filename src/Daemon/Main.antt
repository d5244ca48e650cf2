-- ===== src/Daemon/Main.antt =====
-- `main` of src/bin/whodidd.rs, to where the threads run, and the thread that evicts.
use whenfs.Prelude.{ℕ, Option, none, some, List, [], ◌∷◌}
use whenfs.Prelude.Text.{Text, text}
use whenfs.FilePath.{FilePath, of_text, join, parent}
use whenfs.TimeExpr.{Calendar, snapshot_fmt}
use whenfs.Graph.Sql.{Graph}
use whenfs.Daemon.{System}
use whenfs.Daemon.Threads.{Threads, Task, evicts, started}

-- What `main` finds: the pids of /proc, if it can be scanned; a graph, if one can be opened; and the
-- text that the log has already.
pub record Host : Type 0 where
  pub system : System
  pub pids : Option (List ℕ)
  pub open_graph : FilePath → Option Graph
  pub log : Text → Text

abbrev or_dot : Option FilePath → FilePath
or_dot none = of_text (text ".")
or_dot (some up) = up

-- `Path::new(&log_path).parent().unwrap_or_else(|| Path::new(".")).join("graph.db")`
unfoldable pub graph_path : Text → FilePath
unfolding of_text join parent
graph_path log_path = join (or_dot (parent (of_text log_path))) (of_text (text "graph.db"))

abbrev or_no_pids : Option (List ℕ) → List ℕ
or_no_pids none = []
or_no_pids (some pids) = pids

pub data Start : Type 0 where
  usage : Start
  -- the paths that the watchers are given, and the threads
  runs : Text → Text → Threads → Start

-- The first argument is the name of the program.
unfoldable pub main : Host → List Text → Start
unfolding graph_path started
main h (_ ∷ watch_path ∷ log_path ∷ []) =
    runs watch_path log_path
      (started h.system (or_no_pids h.pids) (h.log log_path) (h.open_graph (graph_path log_path)))
main h _ = usage

abbrev pub exited_grace_secs : ℕ
exited_grace_secs = 90

-- `minus_seconds n t` is `t - Duration::seconds(n)`.
module _ (cal : Calendar) (minus_seconds : ℕ → cal.DateTime → cal.DateTime) where
  -- What the evicting thread turns to when it wakes.
  unfoldable pub eviction : cal.DateTime → Task
  eviction now = evicts (cal.format snapshot_fmt (minus_seconds exited_grace_secs now))
