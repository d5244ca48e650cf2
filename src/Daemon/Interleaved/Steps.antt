-- ===== src/Daemon/Interleaved/Steps.antt =====
-- What a step of one thread of src/bin/whodidd.rs does to the tree and the graph.
use whenfs.Prelude.{
  ℕ, ◌≡◌, refl, sym, ap, ◌∙◌, inl, inr, Bool, false, ◌&&◌, Option, List, [], ◌∷◌, arith, eqb, All,
  Bool-cases, is_none,
}
use whenfs.Prelude.Text.{Text}
use whenfs.ProcTree.{
  ProcTree, ProcNode, get, on_fork, on_exec, on_exit, mark_persisted, evict_stale,
}
use whenfs.ProcTree.Lookup.{get-mark_persisted}
use whenfs.ProcTree.Lifecycle.{IsValid, step-IsValid}
use whenfs.ProcTree.Lifecycle
use whenfs.Graph.Sql.{Graph}
use whenfs.Daemon.{System, Daemon, read_info, read_ppid}
use whenfs.Daemon.Threads.{Job, Place, idle, stores}
use whenfs.Daemon.Interleaved.{
  InGraph, held, Agrees, Written, MarksHold, Remembers, Grows, Grows-refl, Remembers-refl,
  Agrees-Remembers, Does,
}
use whenfs.Daemon.Interleaved.Sources.{
  mapped, mark, IsSourced, remembered, fork-IsSourced, exec-IsSourced, exit-IsSourced,
  evict-IsSourced, mark-Remembers,
}

none_new : (chain : List (ℕ × ProcNode)) → All (λ e. false ≡ false) chain
none_new [] = tt
none_new (e ∷ chain) = (refl, none_new chain)

-- A step that leaves the tree.
module _ (d : Daemon) (valid : IsValid d.table) (stored : MarksHold d.table d.graph) where
  pub same_tree :
      (g : Option Graph) (log : Text) (p : Place)
      → Grows d.graph g
      → All (Agrees d.table) (held p)
      → Written g p
      → Does d (λ p. false) (record { table = d.table; graph = g; log = log }, p)
  same_tree g log p up a w = record {
    valid = valid;
    stored = λ j n e m. up j n.start_ts (stored j n e m);
    keeps = Remembers-refl (λ p. false) d.table;
    grows = up;
    agrees = a;
    written = w;
  }

  -- A step that changes the tree only, to which nothing is added as stored.
  new_tree :
      (new : ℕ → Bool) (t : ProcTree) (p : Place)
      → IsValid t
      → Remembers new d.table t
      → MarksHold t d.graph
      → All (Agrees t) (held p)
      → Written d.graph p
      → Does d new (record d { table = t }, p)
  new_tree new t p v k s a w = record {
    valid = v;
    stored = s;
    keeps = k;
    grows = Grows-refl d.graph;
    agrees = a;
    written = w;
  }

  -- A step each of whose entries is an old one, or is registered anew and not stored.
  sourced_tree :
      (new : ℕ → Bool) (t : ProcTree) (p : Place)
      → IsValid t
      → IsSourced new d.table t
      → held p ≡ []
      → Written d.graph p
      → Does d new (record d { table = t }, p)
  sourced_tree new t p v source free w =
      new_tree new t p v (λ q m' other e. remembered d.table new q m' other (source q m' e))
        (λ q m' e marked. elim (source q m' e) [
          | inl (m, found, start, mark) ↦ rw (← start) (stored q m found (mark ∙ marked))
          | inr (_, unmarked) ↦ absurd (ground (arith, unmarked, marked))
        ])
        (rw free tt) w

  pub fork-Does :
      (parent child : ℕ) (ts : Text)
      → Does d (λ p. eqb child p) (record d { table = on_fork d.table parent child ts }, idle)
  unfolding Lifecycle.step
  fork-Does parent child ts =
      sourced_tree (λ p. eqb child p) (on_fork d.table parent child ts) idle
        (step-IsValid d.table (Lifecycle.forks parent child ts) valid)
        (fork-IsSourced d.table parent child ts) refl tt

  pub exec-Does :
      (s : System) (pid : ℕ)
      → Does d
          (λ p. eqb pid p && is_none (get d.table p))
          (record d { table = on_exec d.table pid (read_info s pid) (read_ppid s pid) s.now }, idle)
  unfolding Lifecycle.step
  exec-Does s pid =
      sourced_tree (λ p. eqb pid p && is_none (get d.table p))
        (on_exec d.table pid (read_info s pid) (read_ppid s pid) s.now) idle
        (step-IsValid d.table (Lifecycle.execs pid (read_info s pid) (read_ppid s pid) s.now) valid)
        (exec-IsSourced d.table pid (read_info s pid) (read_ppid s pid) s.now) refl tt

  pub exit-Does :
      (pid : ℕ) (ts : Text) (p : Place)
      → held p ≡ []
      → Written d.graph p
      → Does d (λ p. false) (record d { table = (on_exit d.table pid ts).0 }, p)
  unfolding Lifecycle.step
  exit-Does pid ts p =
      sourced_tree (λ p. false) (on_exit d.table pid ts).0 p
        (step-IsValid d.table (Lifecycle.exits pid ts) valid) (exit-IsSourced d.table pid ts)

  pub evict-Does :
      (cutoff : Text)
      → Does d (λ p. false) (record d { table = (evict_stale d.table cutoff).0 }, idle)
  unfolding Lifecycle.step
  evict-Does cutoff =
      sourced_tree (λ p. false) (evict_stale d.table cutoff).0 idle
        (step-IsValid d.table (Lifecycle.evicts cutoff) valid)
        (evict-IsSourced d.table cutoff valid) refl tt

  pub mark-Does :
      (j : Job) (pid : ℕ) (node : ProcNode) (chain : List (ℕ × ProcNode))
      → InGraph pid node.start_ts d.graph
      → All (Agrees d.table) ((pid, node) ∷ chain)
      → Does d (λ p. false) (record d { table = mark_persisted d.table pid }, stores j chain)
  unfolding Lifecycle.step
  mark-Does j pid node chain row (agrees, rest) =
      new_tree (λ p. false) (mark_persisted d.table pid) (stores j chain)
        (step-IsValid d.table (Lifecycle.marks pid) valid) (mark-Remembers d.table pid)
        (λ p n e marked. elim (Bool-cases (eqb pid p)) [
          | inl here ↦
              let same : pid ≡ p = ground (arith, here) in
              let (m, found, is) =
                mapped mark (get d.table pid) n
                  (ground (arith, get-mark_persisted d.table pid p, here, e)) in
              let start : n.start_ts ≡ node.start_ts =
                ap (λ (n : ProcNode). n.start_ts) (sym is) ∙ agrees m found in
              rw (start, ← same) row
          | inr other ↦
              stored p n (ground (arith, get-mark_persisted d.table pid p, other, e)) marked
        ])
        (Agrees-Remembers (λ p. false) d.table (mark_persisted d.table pid) chain
          (mark-Remembers d.table pid) (none_new chain) rest)
        tt
