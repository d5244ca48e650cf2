-- ===== src/Daemon/Interleaved.antt =====
-- The threads of src/bin/whodidd.rs in any order of steps: what the tree marks as stored has its row.
pub mod Sources
pub mod Steps
pub mod Turns
pub mod Runs
use whenfs.Prelude.{
  ℕ, ◌≡◌, ◌≢◌, refl, sym, ap, ◌∙◌, subst, inl, inr, ◌⊎◌, Bool, true, false, ◌&&◌, Option, none,
  some, List, [], ◌∷◌, ◌++◌, if◌then◌else◌, arith, eqb, any, All, All-map, Bool-cases, Option-cases,
  is_none,
}
use whenfs.Prelude.Text.{Text}
use whenfs.ProcTree.{
  ProcTree, ProcInfo, ProcNode, get, on_fork, on_exec, on_exit, unpersisted_chain, mark_persisted,
  evict_stale,
}
use whenfs.ProcTree.Lookup.{
  get-on_fork, exec_node, get-on_exec, get-on_exit, get-mark_persisted, get-evict_stale, map_node,
}
use whenfs.ProcTree.Lifecycle.{IsValid, step-IsValid}
use whenfs.ProcTree.Lifecycle
use whenfs.ProcTree.Chain.{IsLinked, unpersisted_chain-IsLinked}
use whenfs.Graph.Types.{Tables, has_key}
use whenfs.Graph.Sql.{Graph, Result, ok, failed, statement, pure, ◌>>=◌}
use whenfs.Graph.{
  record_existing, record_exit_at, record_event_full, update_processes, insert_process, set_exit,
}
use whenfs.Daemon.{
  System, Daemon, Message, forked, execed, exited_now, identity, read_info, read_ppid,
}
use whenfs.Daemon.Stored.{
  HasRow, row_of, existing_cases, exit_cases, exit-keeps_rows, insert-HasRow, insert-keeps_rows,
  Knows, KnowsAll, IsLinked-KnowsAll,
}
use whenfs.Graph.Keeps.{Keeps}
use whenfs.Daemon.Rows.{Keeps-record_existing, Keeps-record_exit_at, Keeps-record_event_full}
use whenfs.Daemon.Threads.{
  Job, Place, idle, stores, writes_exit, marks, names, logs, passes_on, Task, event, message,
  evicts, begin, advance, call, behind_row, after_call, store_row, Threads, Turn, move_to, stepped,
  turn, run,
}

-- The graph has the row.
abbrev pub InGraph : ℕ → Text → Option Graph → Type 0
InGraph p start none = ⊥
InGraph p start (some g) = HasRow p start g.tables

-- What a thread still has to store of its copy of a chain.
abbrev pub held : Place → List (ℕ × ProcNode)
held (stores j chain) = chain
held (writes_exit j pid node ts chain) = (pid, node) ∷ chain
held (marks j pid node chain) = (pid, node) ∷ chain
held _ = []

-- If the tree has the pid still, then with the start of the copy.
abbrev pub Agrees : ProcTree → ℕ × ProcNode → Type 0
Agrees t (p, n) = (m : ProcNode) → get t p ≡ some m → m.start_ts ≡ n.start_ts

-- Behind the row, the row is there.
abbrev pub Written : Option Graph → Place → Type 0
Written g (writes_exit j pid node ts chain) = InGraph pid node.start_ts g
Written g (marks j pid node chain) = InGraph pid node.start_ts g
Written g _ = Unit

-- Whatever the tree marks as stored has its row in the graph.
abbrev pub MarksHold : ProcTree → Option Graph → Type 0
MarksHold t g =
    (p : ℕ) (n : ProcNode) → get t p ≡ some n → n.persisted ≡ true → InGraph p n.start_ts g

pub record Inv (s : Threads) : Type 0 where
  pub valid : IsValid s.memory.table
  pub stored : MarksHold s.memory.table s.memory.graph
  pub agrees : (i : ℕ) → All (Agrees s.memory.table) (held (s.place i))
  pub written : (i : ℕ) → Written s.memory.graph (s.place i)

-- The pids that a step registers anew, whose entry it replaces or makes.
abbrev pub registers : Task → ProcTree → ℕ → Bool
registers (message s (forked parent child)) t p = eqb child p
registers (message s (execed pid)) t p = eqb pid p && is_none (get t p)
registers _ t p = false

abbrev pub registering : Task → Place → ProcTree → ℕ → Bool
registering task idle t = registers task t
registering task _ t = λ p. false

-- The tree keeps the starts of its entries, but for those that are registered anew.
abbrev pub Remembers : (ℕ → Bool) → ProcTree → ProcTree → Type 0
Remembers new t t' =
    (p : ℕ) (m' : ProcNode)
    → new p ≡ false
    → get t' p ≡ some m'
    → (m : ProcNode) × (get t p ≡ some m) × (m.start_ts ≡ m'.start_ts)

abbrev pub Grows : Option Graph → Option Graph → Type 0
Grows g g' = (p : ℕ) (start : Text) → InGraph p start g → InGraph p start g'

-- What a step of one thread does to the memory, and where it leaves the thread.
pub record Does (d : Daemon) (new : ℕ → Bool) (after : Daemon × Place) : Type 0 where
  pub valid : IsValid after.0.table
  pub stored : MarksHold after.0.table after.0.graph
  pub keeps : Remembers new d.table after.0.table
  pub grows : Grows d.graph after.0.graph
  pub agrees : All (Agrees after.0.table) (held after.1)
  pub written : Written after.0.graph after.1

pub Agrees-Remembers :
    (new : ℕ → Bool) (t t' : ProcTree) (chain : List (ℕ × ProcNode))
    → Remembers new t t'
    → All (λ e. new e.0 ≡ false) chain
    → All (Agrees t) chain
    → All (Agrees t') chain
Agrees-Remembers new t t' [] k free a = tt
Agrees-Remembers new t t' ((p, n) ∷ chain) k (f, free) (a, rest) = (
  λ m' e. let (m, e', same) = k p m' f e in sym same ∙ a m e',
  Agrees-Remembers new t t' chain k free rest,
)

pub Written-Grows : (g g' : Option Graph) (p : Place) → Grows g g' → Written g p → Written g' p
Written-Grows g g' (writes_exit j pid node ts chain) up w = up pid node.start_ts w
Written-Grows g g' (marks j pid node chain) up w = up pid node.start_ts w
Written-Grows g g' idle up w = tt
Written-Grows g g' (stores j chain) up w = tt
Written-Grows g g' (names j) up w = tt
Written-Grows g g' (logs j i) up w = tt
Written-Grows g g' (passes_on p s ts) up w = tt

-- No thread holds a pid that the step registers anew.
abbrev pub IsApart : Turn → Threads → Type 0
IsApart t s =
    (i : ℕ)
    → All (λ e. registering t.task (s.place t.thread) s.memory.table e.0 ≡ false) (held (s.place i))

abbrev pub AreApart : List Turn → Threads → Type 0
AreApart [] s = Unit
AreApart (t ∷ turns) s = IsApart t s × AreApart turns (turn t s)

pub Does-Inv :
    (s : Threads) (i : ℕ) (new : ℕ → Bool) (after : Daemon × Place)
    → Inv s
    → Does s.memory new after
    → ((j : ℕ) → All (λ e. new e.0 ≡ false) (held (s.place j)))
    → Inv (record { memory = after.0; place = move_to s.place i after.1 })
Does-Inv s i new after inv does free = record {
  valid = does.valid;
  stored = does.stored;
  agrees = λ j. elim (Bool-cases (eqb i j)) [
    | inl here ↦ rw here does.agrees
    | inr other ↦ rw other (
        Agrees-Remembers new s.memory.table after.0.table (held (s.place j)) does.keeps (free j)
          (inv.agrees j))
  ];
  written = λ j. elim (Bool-cases (eqb i j)) [
    | inl here ↦ rw here does.written
    | inr other ↦
        rw other (Written-Grows s.memory.graph after.0.graph (s.place j) does.grows (inv.written j))
  ];
}

pub call-Grows {ℓ} :
    {A : Type ℓ} (q : Graph → Result A × Graph) (g : Option Graph)
    → ((p : ℕ) (start : Text) → Keeps (HasRow p start) q)
    → Grows g (call q g)
call-Grows q none k p start h = h
call-Grows q (some g) k p start h = (k p start).at g h

pub Grows-refl : (g : Option Graph) → Grows g g
Grows-refl g p start h = h

pub Remembers-refl : (new : ℕ → Bool) (t : ProcTree) → Remembers new t t
Remembers-refl new t p m _ e = (m, e, refl)
