-- ===== src/Daemon/Stored.antt =====
-- `persist_chain` of src/bin/whodidd.rs: the stored mark of the tree and the rows of the graph.
use whenfs.Prelude.{
  ℕ, ◌≡◌, refl, ◌∙◌, inl, inr, ◌⊎◌, Bool, true, false, ◌||◌, Option, none, some, List, [], ◌∷◌,
  ◌++◌, arith, eqb, any, All, Bool-cases, nat_key,
}
use whenfs.Prelude.Text.{Text, text_eq_iff}
use whenfs.ProcTree.{ProcTree, ProcNode, get, mark_persisted, unpersisted_chain}
use whenfs.ProcTree.Lookup.{get-mark_persisted}
use whenfs.Graph.Types.{Process, Tables, has_key}
use whenfs.Graph.Sql.{Graph, Result, ok, failed, ◌>>=◌, pure, statement}
use whenfs.Graph.{
  insert_process, update_rows, update_processes, set_exit, record_existing, record_exit_at,
}
use whenfs.Daemon.{identity, persist_one, persist_all, persist_chain, write_exit, after_row}
use whenfs.ProcTree.Chain.{IsLinked, unpersisted_chain-IsLinked}

-- The graph has a row for the key.
abbrev pub HasRow : ℕ → Text → Tables → Type 0
HasRow pid start t = any (has_key pid start) t.processes ≡ true

abbrev pub row_of : ℕ → ProcNode → Process
row_of pid n = record {
  pid = pid;
  start_ts = n.start_ts;
  ppid = n.ppid;
  exe = n.info.exe;
  comm = n.info.comm;
  cmdline = n.info.cmdline;
  uid = some n.info.uid;
  exit_ts = none;
}

any-append {ℓ} :
    {A : Type ℓ} (p : A → Bool) (xs ys : List A) → any p (xs ++ ys) ≡ (any p xs || any p ys)
any-append p [] ys = refl
any-append p (x ∷ xs) ys = ground (arith, any-append p xs ys)

pub insert-HasRow : (p : Process) (t : Tables) → HasRow p.pid p.start_ts (insert_process p t).1
unfolding insert_process has_key
insert-HasRow p t = ground (
  arith,
  text_eq_iff p.start_ts p.start_ts,
  any-append (has_key p.pid p.start_ts) t.processes (p ∷ []),
)

pub insert-keeps_rows :
    (p : Process) (t : Tables) (pid : ℕ) (start : Text)
    → HasRow pid start t
    → HasRow pid start (insert_process p t).1
unfolding insert_process
insert-keeps_rows p t pid start h =
    ground (arith, any-append (has_key pid start) t.processes (p ∷ []))

pub exit-keeps_rows :
    (matches : Process → Bool) (ts : Text) (ps : List Process) (pid : ℕ) (start : Text)
    → any (has_key pid start) (update_rows matches (set_exit ts) ps) ≡ any (has_key pid start) ps
unfolding update_rows has_key
exit-keeps_rows matches ts [] pid start = refl
exit-keeps_rows matches ts (p ∷ ps) pid start =
    ground (arith, exit-keeps_rows matches ts ps pid start)

pub existing_cases :
    (pid : ℕ) (n : ProcNode) (faults : List Bool) (t : Tables)
    → let (r, g) =
        record_existing pid n.ppid
          (identity n.info)
          n.start_ts
          (record { tables = t; faults = faults }) in
      ((r ≡ failed) × (g.tables ≡ t))
      ⊎ ((r ≡ ok tt) × (g.tables ≡ (insert_process (row_of pid n) t).1))
unfolding record_existing ◌>>=◌ pure statement
existing_cases pid n [] t = inr (refl, refl)
existing_cases pid n (false ∷ faults) t = inr (refl, refl)
existing_cases pid n (true ∷ faults) t = inl (refl, refl)

pub exit_cases :
    (pid : ℕ) (start ts : Text) (faults : List Bool) (t : Tables)
    → let g = (record_exit_at pid start ts (record { tables = t; faults = faults })).1 in
      (g.tables ≡ t) ⊎ (g.tables ≡ (update_processes (has_key pid start) (set_exit ts) t).1)
unfolding record_exit_at ◌>>=◌ pure statement
exit_cases pid start ts [] t = inr refl
exit_cases pid start ts (false ∷ faults) t = inr refl
exit_cases pid start ts (true ∷ faults) t = inl refl

pub write_exit-keeps_rows :
    (p : ℕ) (n : ProcNode) (ts : Option Text) (g : Graph) (pid : ℕ) (start : Text)
    → HasRow pid start g.tables
    → HasRow pid start (write_exit p n ts g).tables
unfolding update_processes
write_exit-keeps_rows p n none g pid start h = h
write_exit-keeps_rows p n (some ts) g pid start h =
    elim (exit_cases p n.start_ts ts g.faults g.tables) [
      | inl same ↦ rw same h
      | inr updated ↦
          rw updated (exit-keeps_rows (has_key p n.start_ts) ts g.tables.processes pid start ∙ h)
    ]

-- Whatever the tree marks as stored has its row in the graph.
pub record IsStored (t : ProcTree) (g : Graph) : Type 0 where
  pub at :
      (j : ℕ) (n : ProcNode) → get t j ≡ some n → n.persisted ≡ true → HasRow j n.start_ts g.tables

-- The tree has the process with the start of the node.
abbrev pub Knows : ProcTree → ℕ → ProcNode → Type 0
Knows t pid n = (m : ProcNode) × (get t pid ≡ some m) × (m.start_ts ≡ n.start_ts)

module _ (pid : ℕ) (n : ProcNode) (t : ProcTree) where
  mark-Knows : (j : ℕ) (m : ProcNode) → Knows t j m → Knows (mark_persisted t pid) j m
  mark-Knows j m (k, e, s) = elim (Bool-cases (eqb pid j)) [
    | inl same ↦
        let here : pid ≡ j = ground arith in
        (
          record k { persisted = true },
          get-mark_persisted t pid j ∙ ground (arith, same, here, e),
          s,
        )
    | inr other ↦ (k, get-mark_persisted t pid j ∙ ground (arith, other, e), s)
  ]

  row_lem :
      (g : Graph)
      → ((j : ℕ) (m : ProcNode)
          → get t j ≡ some m
          → m.persisted ≡ true
          → HasRow j m.start_ts g.tables)
      → HasRow pid n.start_ts g.tables
      → Knows t pid n
      → IsStored (mark_persisted t pid) g
  row_lem g old new (k, e, s) = record {
    at = λ j m found stored. elim (Bool-cases (eqb pid j)) [
      | inl same ↦
          let here : pid ≡ j = ground arith in
          let marked : some (record k { persisted = true }) ≡ some m =
            ground (arith, same, here, e, get-mark_persisted t pid j, found) in
          let start : m.start_ts ≡ n.start_ts = ground (arith, marked, s) in rw (start, ← here) new
      | inr other ↦
          let there : get t j ≡ some m = ground (arith, other, get-mark_persisted t pid j, found) in
          old j m there stored
    ];
  }

  after_row-IsStored :
      (g : Graph) (r : Result (Unit {0})) (g' : Graph)
      → IsStored t g
      → Knows t pid n
      → ((r ≡ failed) × (g'.tables ≡ g.tables))
        ⊎ ((r ≡ ok tt) × (g'.tables ≡ (insert_process (row_of pid n) g.tables).1))
      → let (t', g'') = after_row pid n t r g' in IsStored t' g''
  after_row-IsStored g failed g' inv k (inl (_, same)) = record {
    at = λ j m found stored. rw same (inv.at j m found stored);
  }
  after_row-IsStored g failed g' inv k (inr (e, _)) = cc e
  after_row-IsStored g (ok u) g' inv k (inl (e, _)) = cc e
  after_row-IsStored g (ok u) g' inv k (inr (e, rows)) =
      row_lem (write_exit pid n n.exited g')
        (λ j m found stored. write_exit-keeps_rows pid n n.exited g' j m.start_ts (
          rw rows
            (insert-keeps_rows (row_of pid n) g.tables j m.start_ts (inv.at j m found stored))))
        (write_exit-keeps_rows pid n n.exited g' pid n.start_ts
          (rw rows (insert-HasRow (row_of pid n) g.tables)))
        k

  after_row-Knows :
      (r : Result (Unit {0})) (g : Graph) (j : ℕ) (m : ProcNode)
      → Knows t j m
      → Knows (after_row pid n t r g).0 j m
  after_row-Knows failed g j m k = k
  after_row-Knows (ok u) g j m k = mark-Knows j m k

  persist_one-IsStored :
      (g : Graph)
      → IsStored t g
      → Knows t pid n
      → let (t', g') = persist_one pid n (t, g) in IsStored t' g'
  unfolding persist_one
  persist_one-IsStored g inv k =
      let (r, g') = record_existing pid n.ppid (identity n.info) n.start_ts g in
      after_row-IsStored g r g' inv k (existing_cases pid n g.faults g.tables)

  persist_one-Knows :
      (g : Graph) (j : ℕ) (m : ProcNode) → Knows t j m → Knows (persist_one pid n (t, g)).0 j m
  unfolding persist_one
  persist_one-Knows g j m k =
      let (r, g') = record_existing pid n.ppid (identity n.info) n.start_ts g in
      after_row-Knows r g' j m k

-- The tree has each process of the chain, with its start.
abbrev pub KnowsAll : ProcTree → List (ℕ × ProcNode) → Type 0
KnowsAll t = All (λ e. Knows t e.0 e.1)

persist_one-KnowsAll :
    (pid : ℕ) (n : ProcNode) (t : ProcTree) (g : Graph) (chain : List (ℕ × ProcNode))
    → KnowsAll t chain
    → KnowsAll (persist_one pid n (t, g)).0 chain
persist_one-KnowsAll pid n t g [] k = tt
persist_one-KnowsAll pid n t g ((j, m) ∷ chain) k =
    (persist_one-Knows pid n t g j m k.0, persist_one-KnowsAll pid n t g chain k.1)

persist_all-IsStored :
    (chain : List (ℕ × ProcNode)) (t : ProcTree) (g : Graph)
    → IsStored t g
    → KnowsAll t chain
    → let (t', g') = persist_all chain (t, g) in IsStored t' g'
unfolding persist_all
persist_all-IsStored [] t g inv k = inv
persist_all-IsStored ((pid, n) ∷ chain) t g inv k =
    let (t', g') = persist_one pid n (t, g) in
    persist_all-IsStored chain t' g' (persist_one-IsStored pid n t g inv k.0)
      (persist_one-KnowsAll pid n t g chain k.1)

pub IsLinked-KnowsAll :
    (t : ProcTree) (chain : List (ℕ × ProcNode)) → IsLinked t.procs chain → KnowsAll t chain
unfolding get
IsLinked-KnowsAll t [] l = tt
IsLinked-KnowsAll t ((pid, n) ∷ chain) l = ((n, l.0, refl), IsLinked-KnowsAll t chain l.3)

-- If whatever the tree marks as stored has its row in the graph, then this holds also after
-- `persist_chain`, whichever statements of the graph fail.
pub persist_chain-IsStored :
    (pid : ℕ) (t : ProcTree) (g : Graph)
    → IsStored t g
    → let (t', g') = persist_chain pid (t, g) in IsStored t' g'
unfolding persist_chain
persist_chain-IsStored pid t g inv =
    persist_all-IsStored (unpersisted_chain t pid) t g inv
      (IsLinked-KnowsAll t (unpersisted_chain t pid) (unpersisted_chain-IsLinked t pid))
