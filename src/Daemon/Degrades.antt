-- ===== src/Daemon/Degrades.antt =====
-- src/bin/whodidd.rs with and without its graph: the log is the same.
use whenfs.Prelude.{
  ℕ, ◌≡◌, refl, sym, ap, ◌∙◌, inl, inr, true, false, Option, none, some, List, [], ◌∷◌, ◌++◌, arith,
  eqb, nat_key, Bool-cases,
}
use whenfs.Prelude.Text.{Text}
use whenfs.HashMap
use whenfs.HashMap.{HashMap}
use whenfs.ProcTree.{
  ProcTree, ProcInfo, ProcNode, info, on_fork, on_exec, on_exit, mark_persisted, evict_stale,
  is_fresh, unpersisted_chain,
}
use whenfs.Graph.Sql.{Graph, Result, ok, failed}
use whenfs.Graph.{record_existing}
use whenfs.Daemon.{
  write_all, System, Daemon, forked, execed, exited_now, identity, read_info, read_ppid, or_read,
  log_line, persist_one, persist_all, persist_chain, to_graph, log_event_full, after_row,
  on_message,
}
use whenfs.Daemon.Threads.{Job, Task, event, message, evicts}

-- A task from its start to its end.
unfoldable pub serve : Task → Daemon → Daemon
unfolding log_event_full on_message evict_stale
serve (event j) d = log_event_full j.system j.path j.op j.pid j.other d
serve (message s m) d = on_message s m d
serve (evicts cutoff) d = record d { table = (evict_stale d.table cutoff).0 }

unfoldable pub serve_all : List Task → Daemon → Daemon
unfolding serve
serve_all [] d = d
serve_all (t ∷ tasks) d = serve_all tasks (serve t d)

abbrev unmark : ProcNode → ProcNode
unmark n = record n { persisted = false }

-- The tree without what it marks as stored.
erase : HashMap ℕ ProcNode → HashMap ℕ ProcNode
erase [] = []
erase ((p, n) ∷ m) = (p, unmark n) ∷ erase m

erase-insert :
    (pid : ℕ) (n : ProcNode) (m : HashMap ℕ ProcNode)
    → erase (HashMap.insert pid n m) ≡ HashMap.insert pid (unmark n) (erase m)
unfolding erase HashMap.insert
erase-insert pid n [] = refl
erase-insert pid n ((p, o) ∷ m) = ground (arith, erase-insert pid n m)

erase-update :
    (pid : ℕ) (f g : ProcNode → ProcNode) (m : HashMap ℕ ProcNode)
    → ((n : ProcNode) → unmark (f n) ≡ g (unmark n))
    → erase (HashMap.update pid f m) ≡ HashMap.update pid g (erase m)
unfolding erase HashMap.update
erase-update pid f g [] h = refl
erase-update pid f g ((p, o) ∷ m) h = elim (Bool-cases (eqb p pid)) [
  | inl here ↦ rw (here, h o) refl
  | inr other ↦ rw (other, erase-update pid f g m h) refl
]

erase-mark :
    (pid : ℕ) (m : HashMap ℕ ProcNode)
    → erase (HashMap.update pid (λ n. record n { persisted = true }) m) ≡ erase m
unfolding erase HashMap.update
erase-mark pid [] = refl
erase-mark pid ((p, o) ∷ m) = ground (arith, erase-mark pid m)

erase-retain :
    (cutoff : Text) (m : HashMap ℕ ProcNode)
    → erase (HashMap.retain (is_fresh cutoff) m) ≡ HashMap.retain (is_fresh cutoff) (erase m)
unfolding erase HashMap.retain is_fresh
erase-retain cutoff [] = refl
erase-retain cutoff ((p, o) ∷ m) = ground (arith, erase-retain cutoff m)

get-erase :
    (pid : ℕ) (m : HashMap ℕ ProcNode)
    → HashMap.get pid (erase m)
      ≡ (elim (HashMap.get pid m) [ none ↦ none | some n ↦ some (unmark n) ])
unfolding erase HashMap.get
get-erase pid [] = refl
get-erase pid ((p, o) ∷ m) = ground (arith, get-erase pid m)

-- The trees differ at most in what they mark as stored.
abbrev Same : ProcTree → ProcTree → Type 0
Same t u = erase t.procs ≡ erase u.procs

module _ (t u : ProcTree) (same : Same t u) where
  fork-Same :
      (parent child : ℕ) (ts : Text) → Same (on_fork t parent child ts) (on_fork u parent child ts)
  unfolding on_fork
  fork-Same parent child ts =
      erase-insert child _ t.procs
      ∙ ap (HashMap.insert child _) same
      ∙ sym (erase-insert child _ u.procs)

  update-Same :
      (pid : ℕ) (f : ProcNode → ProcNode)
      → ((n : ProcNode) → unmark (f n) ≡ f (unmark n))
      → erase (HashMap.update pid f t.procs) ≡ erase (HashMap.update pid f u.procs)
  update-Same pid f h =
      erase-update pid f f t.procs h
      ∙ ap (HashMap.update pid f) same
      ∙ sym (erase-update pid f f u.procs h)

  insert-Same :
      (pid : ℕ) (n : ProcNode)
      → erase (HashMap.insert pid n t.procs) ≡ erase (HashMap.insert pid n u.procs)
  insert-Same pid n =
      erase-insert pid n t.procs
      ∙ ap (HashMap.insert pid (unmark n)) same
      ∙ sym (erase-insert pid n u.procs)

  evict-Same : (cutoff : Text) → Same (evict_stale t cutoff).0 (evict_stale u cutoff).0
  unfolding evict_stale
  evict-Same cutoff =
      erase-retain cutoff t.procs
      ∙ ap (HashMap.retain (is_fresh cutoff)) same
      ∙ sym (erase-retain cutoff u.procs)

  get-Same :
      (pid : ℕ)
      → (elim (HashMap.get pid t.procs) [ none ↦ none | some n ↦ some (unmark n) ])
        ≡ (elim (HashMap.get pid u.procs) [ none ↦ none | some n ↦ some (unmark n) ])
  get-Same pid = sym (get-erase pid t.procs) ∙ ap (HashMap.get pid) same ∙ get-erase pid u.procs

  info-Same : (pid : ℕ) → info t pid ≡ info u pid
  unfolding info
  info-Same pid = ground (arith, get-Same pid)

  exec-Same :
      (pid : ℕ) (image : ProcInfo) (ppid : Option ℕ) (ts : Text)
      → Same (on_exec t pid image ppid ts) (on_exec u pid image ppid ts)
  unfolding on_exec
  exec-Same pid image ppid ts = ground (
    arith,
    get-Same pid,
    update-Same pid (λ (n : ProcNode). record n { info = image }) (λ n. refl),
    insert-Same pid
        (record { ppid = ppid; start_ts = ts; info = image; exited = none; persisted = false }),
  )

  exit-Same : (pid : ℕ) (ts : Text) → Same (on_exit t pid ts).0 (on_exit u pid ts).0
  unfolding on_exit
  exit-Same pid ts = ground (
    arith,
    get-Same pid,
    update-Same pid (λ (n : ProcNode). record n { exited = some ts }) (λ n. refl),
  )

after_row-Same :
    (pid : ℕ) (node : ProcNode) (t : ProcTree) (r : Result (Unit {0})) (g : Graph)
    → Same (after_row pid node t r g).0 t
unfolding mark_persisted
after_row-Same pid node t failed g = refl
after_row-Same pid node t (ok _) g = erase-mark pid t.procs

persist_all-Same :
    (chain : List (ℕ × ProcNode)) (t : ProcTree) (g : Graph) → Same (persist_all chain (t, g)).0 t
unfolding persist_all persist_one
persist_all-Same [] t g = refl
persist_all-Same ((pid, node) ∷ chain) t g =
    let (r, g') = record_existing pid node.ppid (identity node.info) node.start_ts g in
    let (t', g'') = after_row pid node t r g' in
    persist_all-Same chain t' g'' ∙ after_row-Same pid node t r g'

to_graph-Same :
    (s : System) (path op : Text) (pid : ℕ) (other : Option Text) (t : ProcTree) (o : Option Graph)
    → Same (to_graph s path op pid other t o).0 t
unfolding to_graph persist_chain
to_graph-Same s path op pid other t none = refl
to_graph-Same s path op pid other t (some g) = persist_all-Same (unpersisted_chain t pid) t g

-- The same log so far, and trees that differ at most in what they mark as stored.
abbrev Agree : Daemon → Daemon → Type 0
Agree d e = Same d.table e.table × (d.log ≡ e.log)

abbrev logged : Job → Text → Option ProcInfo → Text
logged j log i =
    let line = log_line j.system j.path j.op j.pid (or_read j.system j.pid i) in
    log ++ write_all j.system.log_fails_at (line ++ 10 ∷ [])

event-Agree : (j : Job) (d e : Daemon) → Agree d e → Agree (serve (event j) d) (serve (event j) e)
unfolding serve log_event_full
event-Agree j d e (same, log) =
    let t = (to_graph j.system j.path j.op j.pid j.other d.table d.graph).0 in
    let u = (to_graph j.system j.path j.op j.pid j.other e.table e.graph).0 in
    let both : Same t u =
      to_graph-Same j.system j.path j.op j.pid j.other d.table d.graph
      ∙ same
      ∙ sym (to_graph-Same j.system j.path j.op j.pid j.other e.table e.graph) in
    (both, ap (λ l. logged j l (info t j.pid)) log ∙ ap (logged j e.log) (info-Same t u both j.pid))

serve-Agree : (task : Task) (d e : Daemon) → Agree d e → Agree (serve task d) (serve task e)
unfolding serve on_message
serve-Agree (event j) d e a = event-Agree j d e a
serve-Agree (message s (forked parent child)) d e (same, log) =
    (fork-Same d.table e.table same parent child s.now, log)
serve-Agree (message s (execed pid)) d e (same, log) =
    (exec-Same d.table e.table same pid (read_info s pid) (read_ppid s pid) s.now, log)
serve-Agree (message s (exited_now pid)) d e (same, log) =
    (exit-Same d.table e.table same pid s.now, log)
serve-Agree (evicts cutoff) d e (same, log) = (evict-Same d.table e.table same cutoff, log)

serve_all-Agree :
    (tasks : List Task) (d e : Daemon) → Agree d e → Agree (serve_all tasks d) (serve_all tasks e)
unfolding serve_all
serve_all-Agree [] d e a = a
serve_all-Agree (t ∷ tasks) d e a =
    serve_all-Agree tasks (serve t d) (serve t e) (serve-Agree t d e a)

-- Whatever the tasks that the daemon serves one after the other, its log is the same with any graph, with
-- any statements of it failing, and with none.
pub serve_all-log :
    (tasks : List Task) (d : Daemon) (g : Option Graph)
    → (serve_all tasks d).log ≡ (serve_all tasks (record d { graph = g })).log
serve_all-log tasks d g = (serve_all-Agree tasks d (record d { graph = g }) (refl, refl)).1
