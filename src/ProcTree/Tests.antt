-- ===== src/ProcTree/Tests.antt =====
-- Runs of src/proctree.rs on concrete trees, after its own tests, and the theorems at such trees.
use whenfs.Prelude.{ℕ, ◌≡◌, refl, ◌⊎◌, false, none, some, [], ◌∷◌, arith, nat_key, length, ◌≤◌}
use whenfs.Prelude.Text.{text, text_le}
use whenfs.HashMap
use whenfs.HashMap.Distinct.{IsDistinct}
use whenfs.ProcTree.{
  ProcTree, ProcInfo, ProcNode, new, get, on_fork, on_exec, on_exit, unpersisted_chain,
  mark_persisted, evict_stale, chain_loop, is_fresh, max_chain, default_info,
}
use whenfs.ProcTree.Chain.{IsLinked, IsStored, IsTop, EndsAt, unpersisted_chain_lem}
use whenfs.ProcTree.Lifecycle.{
  Event, forks, execs, exits, marks, evicts, run, after, run-keeps, fork_exec_exit,
}

abbrev image : ProcInfo
image = record { exe = text "/bin/sh"; comm = text "sh"; cmdline = text "sh"; uid = 1000 }

-- bash 10 ← curl 20 ← sh 30.
abbrev family : ProcTree
family = on_fork (on_fork (on_fork new 1 10 (text "t0")) 10 20 (text "t1")) 20 30 (text "t2")

abbrev pids : Prim.Native.Nat.ℕ → ProcTree → mathlib.Core.List.List ℕ
pids pid t = mathlib.Core.List.map (λ e. e.0) (unpersisted_chain t pid)

chain_is_root_first : pids 30 family ≡ 10 ∷ 20 ∷ 30 ∷ []
unfolding unpersisted_chain chain_loop on_fork new HashMap.get HashMap.insert
chain_is_root_first = refl

chain_stops_at_stored : pids 30 (mark_persisted family 10) ≡ 20 ∷ 30 ∷ []
unfolding unpersisted_chain chain_loop on_fork new mark_persisted HashMap.get HashMap.insert
    HashMap.update
chain_stops_at_stored = refl

-- 10 → 20 → 10 → …
abbrev cycle : ProcTree
cycle = on_fork (on_fork new 20 10 (text "t0")) 10 20 (text "t0")

cycle_is_bounded : length (unpersisted_chain cycle 10) ≡ 64
unfolding unpersisted_chain chain_loop on_fork new HashMap.get HashMap.insert
cycle_is_bounded = refl

evicts_long_gone :
    (evict_stale (on_exit family 20 (text "2026-01-01T00-00-00")).0 (text "2026-01-01T00-05-00")).1
    ≡ 1
unfolding evict_stale on_exit on_fork new HashMap.get HashMap.insert HashMap.update HashMap.retain
    text_le
evicts_long_gone = refl

unpersisted_chain_lem_example :
    let chain = unpersisted_chain cycle 10 in
    ((IsStored cycle.procs 10 × (chain ≡ [])) ⊎ EndsAt 10 chain)
    × IsLinked cycle.procs chain
    × (length chain ≤ max_chain)
    × (IsTop cycle.procs chain ⊎ (length chain ≡ max_chain))
unpersisted_chain_lem_example = unpersisted_chain_lem cycle 10

family-IsValid : IsDistinct family.procs
unfolding on_fork new HashMap.get HashMap.insert
family-IsValid = (refl, (refl, (refl, tt)))

abbrev node : ProcNode
node = record {
  ppid = some 10;
  start_ts = text "t1";
  info = default_info;
  exited = none;
  persisted = false;
}

abbrev later : mathlib.Core.List.List Event
later =
    execs 20 image none (text "t3")
    ∷ marks 20
    ∷ exits 30 (text "t4")
    ∷ evicts (text "t9")
    ∷ forks 20 40 (text "t9")
    ∷ []

run-keeps_example : get (run family later) 20 ≡ some (after 20 node later)
unfolding get on_fork new HashMap.get HashMap.insert is_fresh
run-keeps_example =
    run-keeps family later 20 node family-IsValid refl
      (tt, (tt, (omega arith, (refl, (omega arith, tt)))))

fork_exec_exit_example :
    get
      (on_exit (on_exec (on_fork new 1 10 (text "t0")) 10 image none (text "t1")) 10 (text "t2")).0
      10
    ≡ some (record {
      ppid = some 1;
      start_ts = text "t0";
      info = image;
      exited = some (text "t2");
      persisted = false;
    })
fork_exec_exit_example = (fork_exec_exit new 1 10 image none (text "t0") (text "t1") (text "t2")).0
