-- ===== src/Lib.antt =====
-- whenfs: a file system of snapshots, and the daemon and tools that attribute changes to processes.
--
-- The development follows the files of the repository:
--   ProcTree      src/proctree.rs, the in-memory process tree of the daemon
--   Revert        src/revert.rs, the plan that undoes a traced command
--   Graph         src/graph.rs, the stored graph of processes and events
--   TimeExpr      src/time_expr.rs, from a time expression to a snapshot
--   Daemon        src/bin/whodidd.rs, how the threads open their descriptors, the loops over the kernel's
--                 buffers, what the daemon does with an event, the lines of its log, and the threads
--                 in any order of their steps
--   Whodid        src/bin/whodid.rs, the queries on the log of the daemon
--   Chronicle     src/bin/chronicle.rs, the commands on the graph
--   WhenFs        src/main.rs, the handlers of the mounted file system
-- Shared parts: Prelude (tests, keys, lists, text), HashMap (std's map), FilePath (std's paths).
--
-- Text is a list of code points; UTF-8 keeps their order, so Rust's comparison of strings is the
-- lexicographic order of these lists. A pid is the bit pattern of its `i32`, since the code only
-- compares pids for equality. A `PathBuf` is the list of its components where Rust compares paths by
-- components, and its text where the code reads the text. What exists on disk is a parameter.
--
-- The daemon keeps a ProcTree, writes what it needs of it to the Graph, and records events there;
-- the planner of Revert works on the events that the Graph lists for a process. Whodid reads the
-- lines that the Daemon wrote to its log. Chronicle asks the Graph, and applies the plans of Revert
-- and the retention of the Graph. WhenFs resolves the names in its root by TimeExpr. A statement of
-- the Graph fails where the environment says so. `levels` goes as deep as the queries' bounds on
-- depth, 64 and 256; the loop over weekdays has seven rounds, which see every weekday; the climb of
-- ProcTree has the code's own bound.
--
-- The log is its text. Where `write_all` of a line fails, `log_fails_at` says how many characters the file
-- has taken of it. A read that gives nothing ends the loop that made it, as `n <= 0` does.
--
-- A watcher's buffer is a list of bytes, and a read outside it a fault; its loops have as many
-- rounds as the read, the event or the record has bytes, and each takes one byte at least.
--
-- A step of a thread of the daemon is what it does under one lock, or one write to the log, and
-- Daemon/Threads has where a thread may stand between two of them; a schedule says which thread takes
-- each step, and what an idle one turns to. Daemon/Setup lists the calls by which a thread opens and
-- marks its descriptors; what the kernel answers to a call may depend on all the calls before it.
--
-- Not modelled: main of src/main.rs, which only mounts; Graph::open, which only sets up the database; and
-- the messages of src/bin/whodidd.rs on the standard error.
pub mod Prelude
pub mod HashMap
pub mod ProcTree
pub mod FilePath
pub mod Graph
pub mod Revert
pub mod TimeExpr
pub mod WhenFs
pub mod Daemon
pub mod Whodid
pub mod Chronicle
