-- ===== src/ProcTree/Lookup.antt =====
-- What `get` of src/proctree.rs returns after each operation.
use whenfs.Prelude.{
  ℕ, ◌+◌, ◌≡◌, true, false, Option, none, some, arith, if◌then◌else◌, eqb, nat_key,
}
use whenfs.Prelude.Text.{Text}
use whenfs.HashMap.{length-insert, length-update, get-insert, get-update}
use whenfs.HashMap.Distinct.{IsDistinct, get-retain}
use whenfs.ProcTree.{
  ProcTree, ProcInfo, ProcNode, default_info, get, seed, on_fork, on_exec, on_exit, mark_persisted,
  evict_stale, is_fresh, len,
}

-- What a node becomes when it is there.
abbrev pub map_node : (ProcNode → ProcNode) → Option ProcNode → Option ProcNode
map_node f none = none
map_node f (some n) = some (f n)

pub get-seed :
    (t : ProcTree) (pid j : ℕ) (ppid : Option ℕ) (info : ProcInfo) (ts : Text)
    → get (seed t pid ppid info ts) j ≡ (
        if eqb pid j
        then some
            (record { ppid = ppid; start_ts = ts; info = info; exited = none; persisted = false })
        else get t j)
unfolding get seed
get-seed t pid j ppid info ts = get-insert pid j _ t.procs

pub get-on_fork :
    (t : ProcTree) (parent child j : ℕ) (ts : Text)
    → get (on_fork t parent child ts) j ≡ (
        if eqb child j
        then some (record {
          ppid = some parent;
          start_ts = ts;
          info = default_info;
          exited = none;
          persisted = false;
        })
        else get t j)
unfolding get on_fork
get-on_fork t parent child j ts = get-insert child j _ t.procs

-- The node that exec leaves: the old one with a new image, or a new one.
abbrev pub exec_node : Option ProcNode → ProcInfo → Option ℕ → Text → ProcNode
exec_node none info ppid ts = record {
  ppid = ppid;
  start_ts = ts;
  info = info;
  exited = none;
  persisted = false;
}
exec_node (some n) info ppid ts = record n { info = info }

pub get-on_exec :
    (t : ProcTree) (pid j : ℕ) (info : ProcInfo) (ppid : Option ℕ) (ts : Text)
    → get (on_exec t pid info ppid ts) j
      ≡ (if eqb pid j then some (exec_node (get t pid) info ppid ts) else get t j)
unfolding get on_exec
get-on_exec t pid j info ppid ts = ground (
  arith,
  get-insert pid j (exec_node none info ppid ts) t.procs,
  get-update pid j (λ (n : ProcNode). record n { info = info }) t.procs,
)

pub get-on_exit :
    (t : ProcTree) (pid j : ℕ) (ts : Text)
    → get (on_exit t pid ts).0 j
      ≡ (if eqb pid j then map_node (λ n. record n { exited = some ts }) (get t pid) else get t j)
unfolding get on_exit
get-on_exit t pid j ts =
    ground (arith, get-update pid j (λ (n : ProcNode). record n { exited = some ts }) t.procs)

pub get-mark_persisted :
    (t : ProcTree) (pid j : ℕ)
    → get (mark_persisted t pid) j
      ≡ (if eqb pid j then map_node (λ n. record n { persisted = true }) (get t pid) else get t j)
unfolding get mark_persisted
get-mark_persisted t pid j =
    ground (arith, get-update pid j (λ (n : ProcNode). record n { persisted = true }) t.procs)

abbrev pub fresh_node : Text → Option ProcNode → Option ProcNode
fresh_node cutoff none = none
fresh_node cutoff (some n) = if is_fresh cutoff n then some n else none

pub get-evict_stale :
    (t : ProcTree) (cutoff : Text) (j : ℕ)
    → IsDistinct t.procs
    → get (evict_stale t cutoff).0 j ≡ fresh_node cutoff (get t j)
unfolding get evict_stale
get-evict_stale t cutoff j d = ground (arith, get-retain (is_fresh cutoff) j t.procs d)

-- What `on_exit` answers for a node: its start, if it is stored.
abbrev pub stored_start : Option ProcNode → Option Text
stored_start none = none
stored_start (some n) = if n.persisted then some n.start_ts else none

pub on_exit-answer :
    (t : ProcTree) (pid : ℕ) (ts : Text) → (on_exit t pid ts).1 ≡ stored_start (get t pid)
unfolding get on_exit
on_exit-answer t pid ts = ground arith

pub len-on_exec :
    (t : ProcTree) (pid : ℕ) (image : ProcInfo) (ppid : Option ℕ) (ts : Text)
    → len (on_exec t pid image ppid ts) ≡ elim (get t pid) [ none ↦ len t + 1 | some n ↦ len t ]
unfolding get len on_exec
len-on_exec t pid image ppid ts = ground (
  arith,
  length-insert pid (exec_node none image ppid ts) t.procs,
  length-update pid (λ (n : ProcNode). record n { info = image }) t.procs,
)
