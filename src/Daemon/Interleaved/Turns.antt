-- ===== src/Daemon/Interleaved/Turns.antt =====
-- Each step of one thread of src/bin/whodidd.rs, as a step of the tree and the graph.
use whenfs.Prelude.{ℕ, ◌≡◌, refl, inl, inr, false, Option, none, some, List, [], ◌∷◌, arith, All}
use whenfs.Prelude.Text.{Text}
use whenfs.ProcTree.{ProcTree, ProcNode, on_exit, unpersisted_chain}
use whenfs.ProcTree.Lifecycle.{IsValid}
use whenfs.ProcTree.Chain.{unpersisted_chain-IsLinked}
use whenfs.Graph.Sql.{Graph, Result, ok, failed}
use whenfs.Graph.{record_existing, record_exit_at, record_event_full}
use whenfs.Daemon.{Daemon, forked, execed, exited_now, identity}
use whenfs.Daemon.Stored.{
  HasRow, row_of, existing_cases, insert-HasRow, KnowsAll, IsLinked-KnowsAll,
}
use whenfs.Daemon.Rows.{Keeps-record_existing, Keeps-record_exit_at, Keeps-record_event_full}
use whenfs.Daemon.Threads.{
  Job, Place, idle, stores, writes_exit, marks, names, logs, passes_on, Task, event, message,
  evicts, begin, advance, behind_row, after_call, store_row, first_place, exit_place, stepped,
}
use whenfs.Daemon.Interleaved.{
  held, Agrees, Written, MarksHold, registers, registering, Grows, Grows-refl, Does, call-Grows,
}
use whenfs.Daemon.Interleaved.Steps.{
  same_tree, fork-Does, exec-Does, exit-Does, evict-Does, mark-Does,
}

KnowsAll-Agrees :
    (t : ProcTree) (chain : List (ℕ × ProcNode)) → KnowsAll t chain → All (Agrees t) chain
KnowsAll-Agrees t [] k = tt
KnowsAll-Agrees t ((p, n) ∷ chain) ((m, found, start), rest) =
    (λ m' e. ground (arith, found, e, start), KnowsAll-Agrees t chain rest)

first_place-Agrees :
    (j : Job) (t : ProcTree) (g : Option Graph) → All (Agrees t) (held (first_place j t g))
first_place-Agrees j t none = tt
first_place-Agrees j t (some g) =
    KnowsAll-Agrees t (unpersisted_chain t j.pid)
      (IsLinked-KnowsAll t (unpersisted_chain t j.pid) (unpersisted_chain-IsLinked t j.pid))

first_place-Written : (j : Job) (t : ProcTree) (g h : Option Graph) → Written h (first_place j t g)
first_place-Written j t none h = tt
first_place-Written j t (some g) h = tt

exit_place-free :
    (pid : ℕ) (ts : Text) (start : Option Text) (g h : Option Graph)
    → (held (exit_place pid ts start g) ≡ []) × Written h (exit_place pid ts start g)
exit_place-free pid ts (some start) (some g) h = (refl, tt)
exit_place-free pid ts (some start) none h = (refl, tt)
exit_place-free pid ts none g h = (refl, tt)

module _ (d : Daemon) (valid : IsValid d.table) (stored : MarksHold d.table d.graph) where
  begin-Does : (task : Task) → Does d (registers task d.table) (begin task d)
  unfolding begin
  begin-Does (event j) =
      same_tree d valid stored d.graph d.log (first_place j d.table d.graph) (Grows-refl d.graph)
        (first_place-Agrees j d.table d.graph) (first_place-Written j d.table d.graph d.graph)
  begin-Does (message s (forked parent child)) = fork-Does d valid stored parent child s.now
  begin-Does (message s (execed pid)) = exec-Does d valid stored s pid
  begin-Does (message s (exited_now pid)) =
      let (free, w) = exit_place-free pid s.now (on_exit d.table pid s.now).1 d.graph d.graph in
      exit-Does d valid stored pid s.now _ free w
  begin-Does (evicts cutoff) = evict-Does d valid stored cutoff

  row_ok :
      (j : Job) (pid : ℕ) (node : ProcNode) (chain : List (ℕ × ProcNode)) (g : Graph)
      (exited : Option Text)
      → Grows d.graph (some g)
      → HasRow pid node.start_ts g.tables
      → All (Agrees d.table) ((pid, node) ∷ chain)
      → Does d (λ p. false) (record d { graph = some g }, behind_row j pid node chain exited)
  row_ok j pid node chain g none up row a =
      same_tree d valid stored (some g) d.log (marks j pid node chain) up a row
  row_ok j pid node chain g (some ts) up row a =
      same_tree d valid stored (some g) d.log (writes_exit j pid node ts chain) up a row

  called :
      (j : Job) (pid : ℕ) (node : ProcNode) (chain : List (ℕ × ProcNode)) (r : Result (Unit {0}))
      (g : Graph)
      → Grows d.graph (some g)
      → (r ≡ ok tt → HasRow pid node.start_ts g.tables)
      → All (Agrees d.table) ((pid, node) ∷ chain)
      → let (g', p) = after_call j pid node chain (r, g) in
        Does d (λ p. false) (record d { graph = g' }, p)
  called j pid node chain failed g up row (_, rest) =
      same_tree d valid stored (some g) d.log (stores j chain) up rest tt
  called j pid node chain (ok u) g up row a = row_ok j pid node chain g node.exited up (row refl) a

existing-row :
    (pid : ℕ) (node : ProcNode) (g : Graph)
    → let (r, g') = record_existing pid node.ppid (identity node.info) node.start_ts g in
      r ≡ ok tt → HasRow pid node.start_ts g'.tables
existing-row pid node g e = elim (existing_cases pid node g.faults g.tables) [
  | inl (refused, _) ↦ absurd (ground (arith, refused, e))
  | inr (_, rows) ↦ rw rows (insert-HasRow (row_of pid node) g.tables)
]

store_row-Does :
    (log : Text) (t : ProcTree) (o : Option Graph)
    → IsValid t
    → MarksHold t o
    → (j : Job) (pid : ℕ) (node : ProcNode) (chain : List (ℕ × ProcNode))
    → All (Agrees t) ((pid, node) ∷ chain)
    → let d : Daemon = record { table = t; graph = o; log = log } in
      let (g, p) = store_row j pid node chain o in Does d (λ p. false) (record d { graph = g }, p)
store_row-Does log t none valid stored j pid node chain a =
    same_tree (record { table = t; graph = none; log = log }) valid stored none log (names j)
      (Grows-refl none) tt tt
store_row-Does log t (some g) valid stored j pid node chain a =
    let (r, g') = record_existing pid node.ppid (identity node.info) node.start_ts g in
    called (record { table = t; graph = some g; log = log }) valid stored j pid node chain r g'
      (λ p start h. (Keeps-record_existing p start node pid).at g h) (existing-row pid node g) a

module _ (d : Daemon) (valid : IsValid d.table) (stored : MarksHold d.table d.graph) where
  advance-Does :
      (p : Place)
      → All (Agrees d.table) (held p)
      → Written d.graph p
      → Does d (λ p. false) (advance p d)
  unfolding advance
  advance-Does idle a w = same_tree d valid stored d.graph d.log idle (Grows-refl d.graph) tt tt
  advance-Does (stores j []) a w =
      same_tree d valid stored _ d.log (names j)
        (call-Grows (record_event_full j.system.graph_now j.path j.op j.pid j.other) d.graph
          (λ p start. Keeps-record_event_full p start j.system.graph_now j.path j.op j.pid j.other))
        tt tt
  advance-Does (stores j ((pid, node) ∷ chain)) a w =
      store_row-Does d.log d.table d.graph valid stored j pid node chain a
  advance-Does (writes_exit j pid node ts chain) a w =
      let up =
        call-Grows (record_exit_at pid node.start_ts ts) d.graph
          (λ p start. Keeps-record_exit_at p start pid node.start_ts ts) in
      same_tree d valid stored _ d.log (marks j pid node chain) up a (up pid node.start_ts w)
  advance-Does (marks j pid node chain) a w = mark-Does d valid stored j pid node chain w a
  advance-Does (names j) a w = same_tree d valid stored d.graph d.log _ (Grows-refl d.graph) tt tt
  advance-Does (logs j i) a w = same_tree d valid stored d.graph _ idle (Grows-refl d.graph) tt tt
  advance-Does (passes_on pid start ts) a w =
      same_tree d valid stored _ d.log idle
        (call-Grows (record_exit_at pid start ts) d.graph
          (λ p s. Keeps-record_exit_at p s pid start ts))
        tt tt

  pub stepped-Does :
      (task : Task) (p : Place)
      → All (Agrees d.table) (held p)
      → Written d.graph p
      → Does d (registering task p d.table) (stepped task p d)
  stepped-Does task idle a w = begin-Does d valid stored task
  stepped-Does task (stores j c) a w = advance-Does (stores j c) a w
  stepped-Does task (writes_exit j pid n ts c) a w = advance-Does (writes_exit j pid n ts c) a w
  stepped-Does task (marks j pid n c) a w = advance-Does (marks j pid n c) a w
  stepped-Does task (names j) a w = advance-Does (names j) a w
  stepped-Does task (logs j i) a w = advance-Does (logs j i) a w
  stepped-Does task (passes_on p s ts) a w = advance-Does (passes_on p s ts) a w
