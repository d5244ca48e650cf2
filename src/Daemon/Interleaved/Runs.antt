-- ===== src/Daemon/Interleaved/Runs.antt =====
-- Any schedule of the threads of src/bin/whodidd.rs: what the tree marks as stored has its row.
use whenfs.Prelude.{
  ℕ, ◌≡◌, inl, inr, Bool-cases, eqb, true, false, Option, some, List, [], ◌∷◌, arith,
}
use whenfs.Prelude.Text.{Text}
use whenfs.HashMap
use whenfs.ProcTree.{ProcTree, ProcInfo, ProcNode, get, seed, new}
use whenfs.ProcTree.Lifecycle.{IsValid, step-IsValid}
use whenfs.ProcTree.Lifecycle
use whenfs.ProcTree.Lookup.{get-seed}
use whenfs.Graph.Sql.{Graph}
use whenfs.Daemon.{System, bootstrap, read_info, read_ppid}
use whenfs.Daemon.Threads.{Threads, Turn, stepped, turn, run, started}
use whenfs.Daemon.Interleaved.{InGraph, Inv, registering, Does-Inv, IsApart, AreApart}
use whenfs.Daemon.Interleaved.Turns.{stepped-Does}

turn-Inv : (t : Turn) (s : Threads) → Inv s → IsApart t s → Inv (turn t s)
unfolding turn
turn-Inv t s inv apart =
    Does-Inv s t.thread (registering t.task (s.place t.thread) s.memory.table)
      (stepped t.task (s.place t.thread) s.memory) inv
      (stepped-Does s.memory inv.valid inv.stored t.task (s.place t.thread) (inv.agrees t.thread)
        (inv.written t.thread))
      apart

pub run-Inv : (turns : List Turn) (s : Threads) → Inv s → AreApart turns s → Inv (run turns s)
unfolding run
run-Inv [] s inv apart = inv
run-Inv (t ∷ turns) s inv (apart, rest) = run-Inv turns (turn t s) (turn-Inv t s inv apart) rest

-- No entry is marked as stored.
IsFresh : ProcTree → Type 0
IsFresh t = (p : ℕ) (n : ProcNode) → get t p ≡ some n → n.persisted ≡ false

seed-IsFresh :
    (t : ProcTree) (pid : ℕ) (ppid : Option ℕ) (i : ProcInfo) (ts : Text)
    → IsFresh t
    → IsFresh (seed t pid ppid i ts)
unfolding IsFresh
seed-IsFresh t pid ppid i ts fresh p n e = elim (Bool-cases (eqb pid p)) [
  | inl here ↦ ground (arith, get-seed t pid p ppid i ts, here, e)
  | inr other ↦ fresh p n (ground (arith, get-seed t pid p ppid i ts, other, e))
]

bootstrap-IsFresh :
    (s : System) (pids : List ℕ) (t : ProcTree)
    → IsValid t
    → IsFresh t
    → IsValid (bootstrap s pids t) × IsFresh (bootstrap s pids t)
unfolding bootstrap Lifecycle.step
bootstrap-IsFresh s [] t v fresh = (v, fresh)
bootstrap-IsFresh s (pid ∷ pids) t v fresh = ground (
  arith,
  bootstrap-IsFresh s pids t v fresh,
  bootstrap-IsFresh s pids (seed t pid (read_ppid s pid) (read_info s pid) s.now)
      (step-IsValid t (Lifecycle.seeds pid (read_ppid s pid) (read_info s pid) s.now) v)
      (seed-IsFresh t pid (read_ppid s pid) (read_info s pid) s.now fresh),
)

new-IsFresh : IsFresh new
unfolding IsFresh new get HashMap.get
new-IsFresh p n e = absurd (ground (arith, e))

started-Inv :
    (s : System) (pids : List ℕ) (log : Text) (o : Option Graph) → Inv (started s pids log o)
unfolding started new get IsFresh
started-Inv s pids log o =
    let (v, fresh) = bootstrap-IsFresh s pids new tt new-IsFresh in
    record {
      valid = v;
      stored = λ p n found marked. absurd (ground (arith, fresh p n found, marked));
      agrees = λ i. tt;
      written = λ i. tt;
    }

-- After start-up, whatever steps the threads take in whatever order, and whichever statements of the
-- graph fail: if no step registers anew a pid whose copy a thread holds, then whatever the tree marks
-- as stored has its row in the graph.
pub run-HasRow :
    (s : System) (pids : List ℕ) (log : Text) (o : Option Graph) (turns : List Turn) (p : ℕ)
    (n : ProcNode)
    → AreApart turns (started s pids log o)
    → get (run turns (started s pids log o)).memory.table p ≡ some n
    → n.persisted ≡ true
    → InGraph p n.start_ts (run turns (started s pids log o)).memory.graph
run-HasRow s pids log o turns p n apart =
    (run-Inv turns (started s pids log o) (started-Inv s pids log o) apart).stored p n
