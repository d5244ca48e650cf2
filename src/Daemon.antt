-- ===== src/Daemon.antt =====
-- src/bin/whodidd.rs: what the daemon does with one message of the kernel. `System` is what /proc, the
-- clocks and the descriptors give while it does so.
pub mod Strings
pub mod Lines
pub mod Stored
pub mod Buffer
pub mod Legacy
pub mod Fid
pub mod Bounds
pub mod Rounds
pub mod Resolve
pub mod Connector
pub mod Setup
pub mod Descriptors
pub mod Blame
pub mod Clean
pub mod Threads
pub mod Main
pub mod Degrades
pub mod Rows
pub mod Interleaved
mod Tests
mod ReadTests
mod ThreadTests
mod SetupTests
use Prim.Native.Nat.{bit_and}
use whenfs.Prelude.{
  ℕ, zero, suc, ◌+◌, ◌-◌, ◌*◌, ◌/◌, ◌%◌, ◌^◌, Bool, true, false, ◌&&◌, ◌||◌, not, Option, none,
  some, List, [], ◌∷◌, ◌++◌, map, if◌then◌else◌, eqb, ltb, leb, any, keep,
}
use whenfs.Prelude.Text.{Text, text, contains}
use whenfs.ProcTree.{
  ProcTree, ProcInfo, ProcNode, seed, on_fork, on_exec, on_exit, info, unpersisted_chain,
  mark_persisted, evict_stale,
}
use whenfs.Graph.Types.{Identity}
use whenfs.Graph.Sql.{Graph, Result, ok, failed}
use whenfs.Graph.{record_existing, record_exit_at, record_event_full}
use whenfs.Daemon.Strings.{
  concat, json_escape, decimal, signed, trim_newlines, split_args, join_spaces, parse_ppid,
}

pub record System : Type 0 where
  -- `/proc/<pid>/…`: comm and stat as text, the arguments as bytes, the target of exe, and the owner.
  pub comm : ℕ → Option Text
  pub stat : ℕ → Option Text
  pub args : ℕ → Option (List ℕ)
  pub exe : ℕ → Option Text
  pub uid : ℕ → Option ℕ
  -- `String::from_utf8_lossy`
  pub lossy : List ℕ → Text
  -- `now_ts()` where the tree, the graph and the log ask for it.
  pub now : Text
  pub graph_now : Text
  pub log_now : Text
  -- `std::process::id()`
  pub self_pid : ℕ
  -- Where `write_all` of a line to the log fails, how many characters the file has taken before.
  pub log_fails_at : Option ℕ

-- What the threads share: the tree, the graph if it could be opened, and the text of the log.
pub record Daemon : Type 0 where
  pub table : ProcTree
  pub graph : Option Graph
  pub log : Text

abbrev pub blocklist_suffixes : List Text
blocklist_suffixes =
    text "/.git"
    ∷ text "/target"
    ∷ text "/.cache"
    ∷ text "/node_modules"
    ∷ text ".tmp"
    ∷ text ".swp"
    ∷ text ".lock"
    ∷ []

unfoldable pub is_blocked : Text → Bool
unfolding contains
is_blocked path = any (contains path) blocklist_suffixes

abbrev pub is_self : System → ℕ → Bool
is_self s pid = eqb s.self_pid pid

abbrev or_default : Option Text → Text
or_default none = []
or_default (some t) = t

-- `read_proc_str(pid, "comm")`
abbrev pub read_comm : System → ℕ → Text
read_comm s pid = trim_newlines (or_default (s.comm pid))

abbrev args_of : System → Option (List ℕ) → Text
args_of s none = []
args_of s (some b) = join_spaces (map s.lossy (split_args b))

abbrev pub read_cmdline : System → ℕ → Text
read_cmdline s pid = args_of s (s.args pid)

abbrev pub read_exe : System → ℕ → Text
read_exe s pid = or_default (s.exe pid)

-- `u32::MAX` for an unknown owner.
abbrev or_max : Option ℕ → ℕ
or_max none = 2 ^ 32 - 1
or_max (some u) = u

abbrev pub read_uid : System → ℕ → ℕ
read_uid s pid = or_max (s.uid pid)

abbrev ppid_of : Option Text → Option ℕ
ppid_of none = none
ppid_of (some stat) = parse_ppid stat

abbrev pub read_ppid : System → ℕ → Option ℕ
read_ppid s pid = ppid_of (s.stat pid)

abbrev pub read_info : System → ℕ → ProcInfo
read_info s pid = record {
  exe = read_exe s pid;
  comm = read_comm s pid;
  cmdline = read_cmdline s pid;
  uid = read_uid s pid;
}

abbrev is_empty_text : Text → Bool
is_empty_text [] = true
is_empty_text (c ∷ s) = false

-- A process that vanished during the scan.
abbrev is_gone : ProcInfo → Bool
is_gone i = is_empty_text i.comm && is_empty_text i.exe && is_empty_text i.cmdline

-- The loop of `bootstrap_process_table` over the pids that /proc lists.
unfoldable pub bootstrap : System → List ℕ → ProcTree → ProcTree
bootstrap s [] t = t
bootstrap s (pid ∷ pids) t =
    if is_gone (read_info s pid)
    then bootstrap s pids t
    else bootstrap s pids (seed t pid (read_ppid s pid) (read_info s pid) s.now)

abbrev pub identity : ProcInfo → Identity
identity i = record { exe = i.exe; comm = i.comm; cmdline = i.cmdline; uid = i.uid }

-- An exit that the tree knows is written behind the row.
abbrev pub write_exit : ℕ → ProcNode → Option Text → Graph → Graph
write_exit pid node none g = g
write_exit pid node (some ts) g = (record_exit_at pid node.start_ts ts g).1

abbrev pub after_row : ℕ → ProcNode → ProcTree → Result (Unit {0}) → Graph → ProcTree × Graph
after_row pid node t failed g = (t, g)
after_row pid node t (ok _) g = (mark_persisted t pid, write_exit pid node node.exited g)

unfoldable pub persist_one : ℕ → ProcNode → ProcTree × Graph → ProcTree × Graph
persist_one pid node (t, g) =
    let (r, g') = record_existing pid node.ppid (identity node.info) node.start_ts g in
    after_row pid node t r g'

-- The loop of `persist_chain`.
unfoldable pub persist_all : List (ℕ × ProcNode) → ProcTree × Graph → ProcTree × Graph
unfolding persist_one
persist_all [] s = s
persist_all ((pid, node) ∷ chain) s = persist_all chain (persist_one pid node s)

unfoldable pub persist_chain : ℕ → ProcTree × Graph → ProcTree × Graph
unfolding persist_all
persist_chain pid (t, g) = persist_all (unpersisted_chain t pid) (t, g)

-- What an event does to the graph, if there is one.
unfoldable pub to_graph :
    System → Text → Text → ℕ → Option Text → ProcTree → Option Graph → ProcTree × Option Graph
unfolding persist_chain
to_graph s path op pid other t none = (t, none)
to_graph s path op pid other t (some g) =
    let (t', g') = persist_chain pid (t, g) in
    (t', some (record_event_full s.graph_now path op pid other g').1)

abbrev pub or_read : System → ℕ → Option ProcInfo → ProcInfo
or_read s pid none = read_info s pid
or_read s pid (some i) = i

-- The arguments of `format!` for a line of the log, with the text between them.
unfoldable pub line_pieces : System → Text → Text → ℕ → ProcInfo → List Text
unfolding json_escape decimal signed
line_pieces s path op pid i =
    text "{\"ts\":\""
    ∷ s.log_now
    ∷ text "\",\"path\":\""
    ∷ json_escape path
    ∷ text "\",\"op\":\""
    ∷ op
    ∷ text "\",\"pid\":"
    ∷ signed pid
    ∷ text ",\"comm\":\""
    ∷ json_escape i.comm
    ∷ text "\",\"exe\":\""
    ∷ json_escape i.exe
    ∷ text "\",\"cmdline\":\""
    ∷ json_escape i.cmdline
    ∷ text "\",\"uid\":"
    ∷ decimal i.uid
    ∷ text "}"
    ∷ []

unfoldable pub log_line : System → Text → Text → ℕ → ProcInfo → Text
unfolding line_pieces
log_line s path op pid i = concat (line_pieces s path op pid i)

abbrev first_of : ℕ → Text → Text
first_of zero s = []
first_of (suc n) [] = []
first_of (suc n) (c ∷ s) = c ∷ first_of n s

-- What the file has of a line when `write_all` has returned.
unfoldable pub write_all : Option ℕ → Text → Text
write_all none line = line
write_all (some n) line = first_of n line

unfoldable pub log_event_full : System → Text → Text → ℕ → Option Text → Daemon → Daemon
unfolding to_graph log_line write_all
log_event_full s path op pid other d =
    let (t, g) = to_graph s path op pid other d.table d.graph in
    let line = log_line s path op pid (or_read s pid (info t pid)) in
    record { table = t; graph = g; log = d.log ++ write_all s.log_fails_at (line ++ 10 ∷ []) }

unfoldable pub log_event : System → Text → Text → ℕ → Daemon → Daemon
unfolding log_event_full
log_event s path op pid d = log_event_full s path op pid none d

-- What `legacy_watcher` does with an event whose descriptor has this path.
unfoldable pub on_legacy : System → Text → ℕ → ℕ → Daemon → Daemon
unfolding is_blocked log_event
on_legacy s path mask pid d =
    if not (is_empty_text path) && not (is_blocked path) && not (is_self s pid)
    then log_event s path (if eqb (bit_and mask 8) 0 then text "modify" else text "close_write") pid
        d
    else d

unfoldable pub op_name : ℕ → Text
op_name mask =
    if not (eqb (bit_and mask 256) 0)
    then text "create"
    else if not (eqb (bit_and mask 512) 0)
    then text "delete"
    else if not (eqb (bit_and mask 64) 0)
    then text "moved_from"
    else if not (eqb (bit_and mask 128) 0)
    then text "moved_to"
    else if not (eqb (bit_and mask 4) 0)
    then text "attrib"
    else text "fid_other"

abbrev unless_blocked : Text → (Daemon → Daemon) → Daemon → Daemon
unless_blocked path f d = if is_blocked path then d else f d

-- The match of `fid_watcher` on the names that the records of an event gave.
abbrev on_names : System → Option Text → Option Text → Option Text → ℕ → ℕ → Daemon → Daemon
on_names s (some from) (some to) dfid mask pid d =
    unless_blocked to (log_event_full s to (text "renamed") pid (some from)) d
on_names s (some from) none dfid mask pid d =
    unless_blocked from (log_event s from (text "moved_from") pid) d
on_names s none (some to) dfid mask pid d =
    unless_blocked to (log_event s to (text "moved_to") pid) d
on_names s none none (some path) mask pid d =
    unless_blocked path (log_event s path (op_name mask) pid) d
on_names s none none none mask pid d = d

unfoldable pub on_fid : System → Option Text → Option Text → Option Text → ℕ → ℕ → Daemon → Daemon
unfolding op_name is_blocked log_event log_event_full
on_fid s old_name new_name dfid_name mask pid d =
    if is_self s pid then d else on_names s old_name new_name dfid_name mask pid d

-- A message of the connector.
pub data Message : Type 0 where
  forked : ℕ → ℕ → Message
  execed exited_now : ℕ → Message

abbrev exit_through : System → ℕ → Option Text → Option Graph → Option Graph
exit_through s pid (some start) (some g) = some (record_exit_at pid start s.now g).1
exit_through s pid none g = g
exit_through s pid (some start) none = none

unfoldable pub on_message : System → Message → Daemon → Daemon
on_message s (forked parent child) d = record d { table = on_fork d.table parent child s.now }
on_message s (execed pid) d = record d {
  table = on_exec d.table pid (read_info s pid) (read_ppid s pid) s.now;
}
on_message s (exited_now pid) d =
    let (t, start) = on_exit d.table pid s.now in
    record d { table = t; graph = exit_through s pid start d.graph }
