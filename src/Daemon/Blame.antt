-- ===== src/Daemon/Blame.antt =====
-- From an event of src/bin/whodidd.rs, whose process src/proctree.rs knows, through src/graph.rs to the
-- blame of src/bin/chronicle.rs: the writer that it names.
use whenfs.Prelude.{
  ℕ, ◌≡◌, ◌≢◌, subst, sym, ap, inl, inr, Bool, true, false, Option, none, some, List, [], ◌∷◌, All,
  any, keep, arith, Bool-cases,
}
use whenfs.Prelude.Text.{Text, text_le, text_eq_iff}
use whenfs.Prelude.Member.{In, here, there}
use whenfs.ProcTree.{ProcTree, ProcNode, get, unpersisted_chain}
use whenfs.ProcTree.Chain.{EndsAt, unpersisted_chain-IsLinked, unpersisted_chain-EndsAt}
use whenfs.Graph.Types.{Process, Tables, has_key}
use whenfs.Graph.Sql.{Graph, Result, ok, failed, clean, statement, pure, ◌>>=◌}
use whenfs.Graph.{record_existing, in_window, started, starts, insert_process}
use whenfs.Graph.Queries.{file_event, blame, is_writer}
use whenfs.Prelude.Newest.{elem}
use whenfs.Graph.Binding.{Binding, row, with_event}
use whenfs.Daemon.{
  System, log_event_full, to_graph, persist_chain, identity, persist_one, persist_all, after_row,
}
use whenfs.Daemon.Stored.{
  HasRow, row_of, insert-HasRow, IsLinked-KnowsAll, KnowsAll, Knows, write_exit-keeps_rows,
}
use whenfs.Graph.Blame.{Joins, blame-record_event_full}
use whenfs.Daemon.Clean.{persist_one-IsClean, persist_all-IsClean}
use whenfs.Daemon.Rows.{Keeps-record_existing}

module _ (p : ℕ) (start : Text) where
  after_row-keeps :
      (pid : ℕ) (n : ProcNode) (t : ProcTree) (r : Result (Unit {0})) (g : Graph)
      → HasRow p start g.tables
      → HasRow p start (after_row pid n t r g).1.tables
  after_row-keeps pid n t failed g h = h
  after_row-keeps pid n t (ok _) g h = write_exit-keeps_rows pid n n.exited g p start h

  persist_one-keeps :
      (pid : ℕ) (n : ProcNode) (t : ProcTree) (g : Graph)
      → HasRow p start g.tables
      → HasRow p start (persist_one pid n (t, g)).1.tables
  unfolding persist_one
  persist_one-keeps pid n t g h =
      let (r, g') = record_existing pid n.ppid (identity n.info) n.start_ts g in
      after_row-keeps pid n t r g' ((Keeps-record_existing p start n pid).at g h)

  persist_all-keeps :
      (chain : List (ℕ × ProcNode)) (t : ProcTree) (g : Graph)
      → HasRow p start g.tables
      → HasRow p start (persist_all chain (t, g)).1.tables
  unfolding persist_all
  persist_all-keeps [] t g h = h
  persist_all-keeps ((pid, n) ∷ chain) t g h =
      let (t', g') = persist_one pid n (t, g) in
      persist_all-keeps chain t' g' (persist_one-keeps pid n t g h)

-- Where no statement fails, each row of the chain is there.
persist_one-HasRow :
    (pid : ℕ) (n : ProcNode) (t : ProcTree) (tab : Tables)
    → HasRow pid n.start_ts (persist_one pid n (t, clean tab)).1.tables
unfolding persist_one record_existing statement pure ◌>>=◌
persist_one-HasRow pid n t tab =
    write_exit-keeps_rows pid n n.exited (clean (insert_process (row_of pid n) tab).1) pid
      n.start_ts (insert-HasRow (row_of pid n) tab)

persist_all-HasRow :
    (chain : List (ℕ × ProcNode)) (t : ProcTree) (tab : Tables) (pid : ℕ) (n : ProcNode)
    → In (pid, n) chain
    → HasRow pid n.start_ts (persist_all chain (t, clean tab)).1.tables
unfolding persist_all
persist_all-HasRow [] t tab pid n i = elim i [ ]
persist_all-HasRow (_ ∷ chain) t tab pid n here =
    let (t', g) = persist_one pid n (t, clean tab) in
    persist_all-keeps pid n.start_ts chain t' g (persist_one-HasRow pid n t tab)
persist_all-HasRow ((q, m) ∷ chain) t tab pid n (there i) =
    let (tab', is, events) = persist_one-IsClean q m t tab in
    let t' = (persist_one q m (t, clean tab)).0 in
    subst (λ (g : Graph). HasRow pid n.start_ts (persist_all chain (t', g)).1.tables) (sym is)
      (persist_all-HasRow chain t' tab' pid n i)

EndsAt-In :
    (pid : ℕ) (chain : List (ℕ × ProcNode)) → EndsAt pid chain → (n : ProcNode) × In (pid, n) chain
EndsAt-In pid [] h = absurd h
EndsAt-In pid ((a, n) ∷ []) h = (n, rw h here)
EndsAt-In pid (_ ∷ e ∷ rest) h = let (n, i) = EndsAt-In pid (e ∷ rest) h in (n, there i)

In-Knows :
    (t : ProcTree) (chain : List (ℕ × ProcNode)) (pid : ℕ) (n : ProcNode)
    → KnowsAll t chain
    → In (pid, n) chain
    → Knows t pid n
In-Knows t [] pid n k i = elim i [ ]
In-Knows t (_ ∷ chain) pid n k here = k.0
In-Knows t (e ∷ chain) pid n k (there i) = In-Knows t chain pid n k.1 i

-- The row of a process that the tree knows and has not stored, behind `persist_chain`.
chain-HasRow :
    (t : ProcTree) (tab : Tables) (pid : ℕ) (n : ProcNode)
    → get t pid ≡ some n
    → n.persisted ≡ false
    → HasRow pid n.start_ts (persist_all (unpersisted_chain t pid) (t, clean tab)).1.tables
unfolding get
chain-HasRow t tab pid n known unstored = elim (unpersisted_chain-EndsAt t pid) [
  | inl (inl unknown, _) ↦ absurd (ground (arith, known, unknown))
  | inl (inr (m, found, marked), _) ↦ absurd (ground (arith, known, unstored, found, marked))
  | inr ends ↦
      let (m, i) = EndsAt-In pid (unpersisted_chain t pid) ends in
      let (k, found, start) =
        In-Knows t (unpersisted_chain t pid) pid m
          (IsLinked-KnowsAll t (unpersisted_chain t pid) (unpersisted_chain-IsLinked t pid)) i in
      let same : m.start_ts ≡ n.start_ts = ground (arith, known, found, start) in
      rw (← same) (persist_all-HasRow (unpersisted_chain t pid) t tab pid m i)
]

-- A row that had started by the time can bind an event of its pid.
has_started :
    (pid : ℕ) (now start : Text) (ps : List Process)
    → any (has_key pid start) ps ≡ true
    → text_le start now ≡ true
    → starts (keep (started pid now) ps) ≢ []
unfolding has_key started
has_started pid now start [] h before = λ e. ground (arith, h)
has_started pid now start (p ∷ ps) h before = elim (Bool-cases (started pid now p)) [
  | inl holds ↦ rw holds (λ e. ground (arith, e))
  | inr fails ↦ rw fails (
      has_started pid now start ps (ground (arith, h, before, fails, text_eq_iff p.start_ts start))
        before)
]

elem-has_key :
    (pid : ℕ) (start : Text) (kept : Process → Bool) (ps : List Process)
    → ((p : Process) → kept p ≡ true → p.pid ≡ pid)
    → elem start (starts (keep kept ps)) ≡ true
    → keep (is_writer pid (some start)) ps ≢ []
unfolding has_key
elem-has_key pid start kept [] own h = λ e. ground (arith, h)
elem-has_key pid start kept (p ∷ ps) own h = elim (Bool-cases (has_key pid start p)) [
  | inl holds ↦ rw holds (λ e. ground (arith, e))
  | inr fails ↦ rw fails (elem-has_key pid start kept ps own (ground (arith, h, fails, own p)))
]

-- A row that the event is bound to is there to join.
Binding-Joins :
    (tab : Tables) (pid : ℕ) (now start : Text)
    → Binding tab pid now (some start)
    → keep (is_writer pid (some start)) tab.processes ≢ []
unfolding in_window started
Binding-Joins tab pid now start (inl (alive, _)) =
    elem-has_key pid start (in_window pid now) tab.processes (λ p h. ground (arith, h)) alive
Binding-Joins tab pid now start (inr (_, (begun, _))) =
    elem-has_key pid start (started pid now) tab.processes (λ p h. ground (arith, h)) begun

-- The event is bound to a start, and a process of that start is its writer.
abbrev pub IsAttributed : Tables → ℕ → Text → Option Text → Option Process → Type 0
IsAttributed tab pid now none o = ⊥
IsAttributed tab pid now (some start) none = ⊥
IsAttributed tab pid now (some start) (some p) =
    Binding tab pid now (some start) × In p tab.processes × (is_writer pid (some start) p ≡ true)

attributed :
    (tab : Tables) (pid : ℕ) (now born : Text) (start : Option Text) (o : Option Process)
    → HasRow pid born tab
    → text_le born now ≡ true
    → Binding tab pid now start
    → Joins tab pid start o
    → IsAttributed tab pid now start o
attributed tab pid now born none o h before b j =
    has_started pid now born tab.processes h before b.1
attributed tab pid now born (some start) none h before b j = Binding-Joins tab pid now start b j
attributed tab pid now born (some start) (some p) h before b j = (b, j.0, j.1)

-- Where no statement of the graph fails and no event has a later time: behind an event of a process that
-- the tree knows, has not stored, and that has started by then, blame names for its path that event, with
-- its time, kind, pid and other end, and with a writer: an incarnation of the pid, the newest that the graph
-- has alive at the time, or, if none was, the newest that had started. No other event is recorded.
pub blame-log_event_full :
    (s : System) (path op : Text) (pid : ℕ) (other : Option Text) (t : ProcTree) (log : Text)
    (tab : Tables) (n : ProcNode)
    → get t pid ≡ some n
    → n.persisted ≡ false
    → text_le n.start_ts s.graph_now ≡ true
    → All (λ e. text_le e.ts s.graph_now ≡ true) tab.events
    → (stored : Tables) × (stored.events ≡ tab.events)
      × (start : Option Text) × (o : Option Process) × IsAttributed stored pid s.graph_now start o
      × (let g = clean (with_event stored (row stored s.graph_now path op pid start other)) in
          ((log_event_full s path op pid other
              (record { table = t; graph = some (clean tab); log = log })).graph
            ≡ some g)
          × ((blame path g).0
              ≡ ok (some (file_event (row stored s.graph_now path op pid start other) start o))))
unfolding log_event_full to_graph persist_chain
blame-log_event_full s path op pid other t log tab n known unstored born times =
    let (stored, is, events) = persist_all-IsClean (unpersisted_chain t pid) t tab in
    let (start, binding, (recorded, o, joins, answer)) =
      blame-record_event_full stored s.graph_now path op pid other (rw events times) in
    let has : HasRow pid n.start_ts stored =
      subst (λ (g : Graph). HasRow pid n.start_ts g.tables) is
        (chain-HasRow t tab pid n known unstored) in
    (
      stored,
      events,
      start,
      o,
      attributed stored pid s.graph_now n.start_ts start o has born binding joins,
      (rw is (ap (λ r. some r.1) recorded), answer),
    )
