-- ===== src/Daemon/Clean.antt =====
-- `persist_chain` of src/bin/whodidd.rs on a graph none of whose statements fails: it adds no event.
use whenfs.Prelude.{ℕ, ◌≡◌, refl, ap, ◌∙◌, Option, none, some, List, [], ◌∷◌, arith}
use whenfs.Prelude.Text.{Text}
use whenfs.ProcTree.{ProcTree, ProcNode}
use whenfs.Graph.Types.{Process, Tables, has_key}
use whenfs.Graph.Sql.{Graph, clean, ◌>>=◌, pure, statement}
use whenfs.Graph.{insert_process, update_processes, set_exit, record_existing, record_exit_at}
use whenfs.Daemon.{persist_one, persist_all, write_exit}

-- A database none of whose statements fails, with the events of `tab`.
abbrev pub IsClean : Tables → Graph → Type 0
IsClean tab g = (tab' : Tables) × (g ≡ clean tab') × (tab'.events ≡ tab.events)

insert_process-events : (p : Process) (tab : Tables) → (insert_process p tab).1.events ≡ tab.events
unfolding insert_process
insert_process-events p tab = ground arith

write_exit-IsClean :
    (pid : ℕ) (n : ProcNode) (ts : Option Text) (tab : Tables)
    → IsClean tab (write_exit pid n ts (clean tab))
unfolding record_exit_at update_processes statement pure ◌>>=◌
write_exit-IsClean pid n none tab = (tab, refl, refl)
write_exit-IsClean pid n (some ts) tab =
    ((update_processes (has_key pid n.start_ts) (set_exit ts) tab).1, refl, refl)

pub persist_one-IsClean :
    (pid : ℕ) (n : ProcNode) (t : ProcTree) (tab : Tables)
    → IsClean tab (persist_one pid n (t, clean tab)).1
unfolding persist_one record_existing statement pure ◌>>=◌
persist_one-IsClean pid n t tab =
    let p : Process = record {
      pid = pid;
      start_ts = n.start_ts;
      ppid = n.ppid;
      exe = n.info.exe;
      comm = n.info.comm;
      cmdline = n.info.cmdline;
      uid = some n.info.uid;
      exit_ts = none;
    } in
    let (tab', is, events) = write_exit-IsClean pid n n.exited (insert_process p tab).1 in
    (tab', is, events ∙ insert_process-events p tab)

pub persist_all-IsClean :
    (chain : List (ℕ × ProcNode)) (t : ProcTree) (tab : Tables)
    → IsClean tab (persist_all chain (t, clean tab)).1
unfolding persist_all
persist_all-IsClean [] t tab = (tab, refl, refl)
persist_all-IsClean ((pid, n) ∷ chain) t tab =
    let (tab', is, events) = persist_one-IsClean pid n t tab in
    let t' = (persist_one pid n (t, clean tab)).0 in
    let (tab'', is', events') = persist_all-IsClean chain t' tab' in
    (tab'', ap (λ (g : Graph). (persist_all chain (t', g)).1) is ∙ is', events' ∙ events)
