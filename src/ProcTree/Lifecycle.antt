-- ===== src/ProcTree/Lifecycle.antt =====
-- What survives in the tree of src/proctree.rs over any sequence of events: the calls that the
-- threads of src/bin/whodidd.rs make, in whatever order the lock admits them.
use whenfs.Prelude.{
  ℕ, ◌≡◌, ◌≢◌, true, false, Option, none, some, List, [], ◌∷◌, arith, nat_key, All, Bool, ◌||◌,
  if◌then◌else◌, eqb, ◌∙◌, ap,
}
use whenfs.Prelude.Text.{Text}
use whenfs.HashMap.Distinct.{IsDistinct, insert-IsDistinct, update-IsDistinct, retain-IsDistinct}
use whenfs.ProcTree.{
  ProcTree, ProcInfo, ProcNode, len, get, seed, on_fork, on_exec, on_exit, mark_persisted,
  evict_stale, is_fresh,
}
use whenfs.ProcTree.Lookup.{
  get-seed, get-on_fork, get-on_exec, get-on_exit, get-mark_persisted, get-evict_stale,
  on_exit-answer, len-on_exec,
}

pub data Event : Type 0 where
  seeds : ℕ → Option ℕ → ProcInfo → Text → Event
  forks : ℕ → ℕ → Text → Event
  execs : ℕ → ProcInfo → Option ℕ → Text → Event
  exits : ℕ → Text → Event
  marks : ℕ → Event
  evicts : Text → Event

unfoldable pub step : ProcTree → Event → ProcTree
step t (seeds pid ppid image ts) = seed t pid ppid image ts
step t (forks parent child ts) = on_fork t parent child ts
step t (execs pid image ppid ts) = on_exec t pid image ppid ts
step t (exits pid ts) = (on_exit t pid ts).0
step t (marks pid) = mark_persisted t pid
step t (evicts cutoff) = (evict_stale t cutoff).0

pub run : ProcTree → List Event → ProcTree
run t [] = t
run t (e ∷ es) = run (step t e) es

-- The table holds each pid once.
abbrev pub IsValid : ProcTree → Type 0
IsValid t = IsDistinct t.procs

pub step-IsValid : (t : ProcTree) (e : Event) → IsValid t → IsValid (step t e)
unfolding step seed on_fork on_exec on_exit mark_persisted evict_stale
step-IsValid t (seeds pid ppid image ts) v = insert-IsDistinct pid _ t.procs v
step-IsValid t (forks parent child ts) v = insert-IsDistinct child _ t.procs v
step-IsValid t (execs pid image ppid ts) v = ground (
  arith,
  insert-IsDistinct pid
      (record { ppid = ppid; start_ts = ts; info = image; exited = none; persisted = false })
      t.procs v,
  update-IsDistinct pid (λ (n : ProcNode). record n { info = image }) t.procs v,
)
step-IsValid t (exits pid ts) v =
    ground
      (arith, update-IsDistinct pid (λ (n : ProcNode). record n { exited = some ts }) t.procs v)
step-IsValid t (marks pid) v = update-IsDistinct pid _ t.procs v
step-IsValid t (evicts cutoff) v = retain-IsDistinct _ t.procs v

-- The event is about another process, or does not end or evict this one.
abbrev pub Spares : ℕ → ProcNode → Event → Type 0
Spares pid n (seeds p _ _ _) = p ≢ pid
Spares pid n (forks _ child _) = child ≢ pid
Spares pid n (execs _ _ _ _) = Unit
Spares pid n (exits p _) = p ≢ pid
Spares pid n (marks _) = Unit
Spares pid n (evicts cutoff) = is_fresh cutoff n ≡ true

-- The image of the last exec of the pid, or else the one before the events.
abbrev pub last_image : ℕ → ProcInfo → List Event → ProcInfo
last_image pid info [] = info
last_image pid info (execs p image ppid ts ∷ es) =
    last_image pid (if eqb p pid then image else info) es
last_image pid info (_ ∷ es) = last_image pid info es

abbrev pub marked_in : ℕ → List Event → Bool
marked_in pid [] = false
marked_in pid (marks p ∷ es) = eqb p pid || marked_in pid es
marked_in pid (_ ∷ es) = marked_in pid es

-- The node `n` with the image and the stored flag that the events leave.
abbrev pub after : ℕ → ProcNode → List Event → ProcNode
after pid n es = record n {
  info = last_image pid n.info es;
  persisted = n.persisted || marked_in pid es;
}

step-after :
    (t : ProcTree) (e : Event) (pid : ℕ) (n : ProcNode)
    → IsValid t
    → Spares pid n e
    → get t pid ≡ some n
    → get (step t e) pid ≡ some (after pid n (e ∷ []))
unfolding step is_fresh
step-after t (seeds p ppid image ts) pid n v s k = ground (arith, get-seed t p pid ppid image ts)
step-after t (forks parent child ts) pid n v s k = ground (arith, get-on_fork t parent child pid ts)
step-after t (execs p image ppid ts) pid n v s k = ground (arith, get-on_exec t p pid image ppid ts)
step-after t (exits p ts) pid n v s k = ground (arith, get-on_exit t p pid ts)
step-after t (marks p) pid n v s k = ground (arith, get-mark_persisted t p pid)
step-after t (evicts cutoff) pid n v s k = ground (arith, get-evict_stale t cutoff pid v)

after-cons :
    (pid : ℕ) (n : ProcNode) (e : Event) (es : List Event)
    → after pid (after pid n (e ∷ [])) es ≡ after pid n (e ∷ es)
after-cons pid n (seeds p ppid image ts) es = ground arith
after-cons pid n (forks parent child ts) es = ground arith
after-cons pid n (execs p image ppid ts) es = ground arith
after-cons pid n (exits p ts) es = ground arith
after-cons pid n (marks p) es = ground arith
after-cons pid n (evicts cutoff) es = ground arith

-- Whether an event spares a process goes by its exit, which those events leave.
Spares-after :
    (pid : ℕ) (n : ProcNode) (e : Event) (es : List Event)
    → All (Spares pid n) es
    → All (Spares pid (after pid n (e ∷ []))) es
unfolding is_fresh
Spares-after pid n e [] s = s
Spares-after pid n e (seeds p ppid image ts ∷ es) s = (s.0, Spares-after pid n e es s.1)
Spares-after pid n e (forks parent child ts ∷ es) s = (s.0, Spares-after pid n e es s.1)
Spares-after pid n e (execs p image ppid ts ∷ es) s = (s.0, Spares-after pid n e es s.1)
Spares-after pid n e (exits p ts ∷ es) s = (s.0, Spares-after pid n e es s.1)
Spares-after pid n e (marks p ∷ es) s = (s.0, Spares-after pid n e es s.1)
Spares-after pid n e (evicts cutoff ∷ es) s = (s.0, Spares-after pid n e es s.1)

-- A process that is in the tree stays in it, with its parent, its start and its exit mark, through any
-- events that do not register its pid anew, report its exit, or evict with a cutoff past its exit.
-- Its image is then the one of its last exec, and it is stored exactly if it was, or if one of the
-- events marks it so. A live process has no exit, so no eviction removes it.
pub run-keeps :
    (t : ProcTree) (es : List Event) (pid : ℕ) (n : ProcNode)
    → IsValid t
    → get t pid ≡ some n
    → All (Spares pid n) es
    → get (run t es) pid ≡ some (after pid n es)
unfolding run
run-keeps t [] pid n v k s = ground (arith, k)
run-keeps t (e ∷ es) pid n v k s =
    run-keeps (step t e) es pid (after pid n (e ∷ [])) (step-IsValid t e v)
      (step-after t e pid n v s.0 k) (Spares-after pid n e es s.1)
    ∙ ap some (after-cons pid n e es)

-- No sequence of events puts a pid twice into the table.
pub run-IsValid : (t : ProcTree) (es : List Event) → IsValid t → IsValid (run t es)
unfolding run
run-IsValid t [] v = v
run-IsValid t (e ∷ es) v = run-IsValid (step t e) es (step-IsValid t e v)

-- exec after fork keeps the edge to the parent and the birth time, sets the image, and adds no
-- second entry; exit then marks the node, and answers with its start exactly if it is stored.
pub fork_exec_exit :
    (t : ProcTree) (parent child : ℕ) (image : ProcInfo) (guess : Option ℕ) (born later gone : Text)
    → let forked = on_fork t parent child born in
      let execed = on_exec forked child image guess later in
      (get (on_exit execed child gone).0 child
        ≡ some (record {
          ppid = some parent;
          start_ts = born;
          info = image;
          exited = some gone;
          persisted = false;
        }))
      × (len execed ≡ len forked)
      × ((on_exit execed child gone).1 ≡ none)
      × ((on_exit (mark_persisted execed child) child gone).1 ≡ some born)
fork_exec_exit t parent child image guess born later gone =
    let t1 = on_fork t parent child born in
    let t2 = on_exec t1 child image guess later in
    ground (
      arith,
      get-on_fork t parent child child born,
      get-on_exec t1 child child image guess later,
      get-on_exit t2 child child gone,
      get-mark_persisted t2 child child,
      len-on_exec t1 child image guess later,
      on_exit-answer t2 child gone,
      on_exit-answer (mark_persisted t2 child) child gone,
    )
