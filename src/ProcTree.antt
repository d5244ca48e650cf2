-- ===== src/ProcTree.antt =====
-- src/proctree.rs: the in-memory process tree of the daemon.
-- A pid is the bit pattern of its `i32`: the tree only compares pids for equality.
pub mod Lookup
pub mod Chain
pub mod Lifecycle
mod Tests
use whenfs.Prelude.{
  ℕ, zero, suc, ◌-◌, Bool, true, false, Option, none, some, List, [], ◌∷◌, if◌then◌else◌, eqb,
  nat_key, length,
}
use whenfs.Prelude.Text.{Text, text_le}
use whenfs.HashMap
use whenfs.HashMap.{HashMap}

-- Identity as captured at exec time.
pub record ProcInfo : Type 0 where
  pub exe : Text
  pub comm : Text
  pub cmdline : Text
  pub uid : ℕ

-- `ProcInfo::default()`
abbrev pub default_info : ProcInfo
default_info = record { exe = []; comm = []; cmdline = []; uid = 0 }

pub record ProcNode : Type 0 where
  pub ppid : Option ℕ
  pub start_ts : Text
  pub info : ProcInfo
  pub exited : Option Text
  pub persisted : Bool

abbrev pub max_chain : ℕ
max_chain = 64

pub record ProcTree : Type 0 where
  pub procs : HashMap ℕ ProcNode

unfoldable pub new : ProcTree
new = record { procs = [] }

unfoldable pub len : ProcTree → ℕ
len t = length t.procs

unfoldable pub is_empty : ProcTree → Bool
is_empty t = elim t.procs [ [] ↦ true | _ ↦ false ]

unfoldable pub get : ProcTree → ℕ → Option ProcNode
get t pid = HashMap.get pid t.procs

unfoldable pub info : ProcTree → ℕ → Option ProcInfo
info t pid = elim (HashMap.get pid t.procs) [ none ↦ none | some n ↦ some n.info ]

unfoldable pub start_ts : ProcTree → ℕ → Option Text
start_ts t pid = elim (HashMap.get pid t.procs) [ none ↦ none | some n ↦ some n.start_ts ]

unfoldable pub seed : ProcTree → ℕ → Option ℕ → ProcInfo → Text → ProcTree
seed t pid ppid image ts = record {
  procs =
      HashMap.insert pid
        (record { ppid = ppid; start_ts = ts; info = image; exited = none; persisted = false })
        t.procs;
}

unfoldable pub on_fork : ProcTree → ℕ → ℕ → Text → ProcTree
on_fork t parent child ts = record {
  procs =
      HashMap.insert child
        (record {
          ppid = some parent;
          start_ts = ts;
          info = default_info;
          exited = none;
          persisted = false;
        })
        t.procs;
}

-- exec replaces the image of a process that is known, and registers one that is not.
unfoldable pub on_exec : ProcTree → ℕ → ProcInfo → Option ℕ → Text → ProcTree
on_exec t pid image ppid_if_new ts = elim (HashMap.get pid t.procs) [
  | some node ↦ record { procs = HashMap.update pid (λ n. record n { info = image }) t.procs }
  | none ↦ record {
    procs =
        HashMap.insert pid
          (record {
            ppid = ppid_if_new;
            start_ts = ts;
            info = image;
            exited = none;
            persisted = false;
          })
          t.procs;
  }
]

-- The new tree, with the start of the process if it is stored already.
unfoldable pub on_exit : ProcTree → ℕ → Text → ProcTree × Option Text
on_exit t pid ts = elim (HashMap.get pid t.procs) [
  | none ↦ (t, none)
  | some node ↦ (
    record { procs = HashMap.update pid (λ n. record n { exited = some ts }) t.procs },
    if node.persisted then some node.start_ts else none,
  )
]

-- The loop of `unpersisted_chain`. The vector is kept last entry first, so that a push is `∷` and
-- the result is the vector after `chain.reverse()`.
unfoldable pub chain_loop : ℕ → HashMap ℕ ProcNode → ℕ → List (ℕ × ProcNode) → List (ℕ × ProcNode)
chain_loop zero procs cur chain = chain
chain_loop (suc rounds) procs cur chain = elim (HashMap.get cur procs) [
  | none ↦ chain
  | some node ↦ elim node.persisted [
    | true ↦ chain
    | false ↦ elim node.ppid [
      | none ↦ (cur, node) ∷ chain
      | some p ↦ elim (eqb p cur) [
        | true ↦ (cur, node) ∷ chain
        | false ↦ chain_loop rounds procs p ((cur, node) ∷ chain)
      ]
    ]
  ]
]

unfoldable pub unpersisted_chain : ProcTree → ℕ → List (ℕ × ProcNode)
unfolding chain_loop
unpersisted_chain t pid = chain_loop max_chain t.procs pid []

unfoldable pub mark_persisted : ProcTree → ℕ → ProcTree
mark_persisted t pid = record {
  procs = HashMap.update pid (λ n. record n { persisted = true }) t.procs;
}

-- What `evict_stale` retains: a live process, or one whose exit is not before the cutoff.
unfoldable pub is_fresh : Text → ProcNode → Bool
is_fresh cutoff n = elim n.exited [ none ↦ true | some e ↦ text_le cutoff e ]

-- The new tree, with the number of entries dropped.
unfoldable pub evict_stale : ProcTree → Text → ProcTree × ℕ
unfolding is_fresh
evict_stale t cutoff =
    let procs = HashMap.retain (is_fresh cutoff) t.procs in
    (record { procs = procs }, length t.procs - length procs)
