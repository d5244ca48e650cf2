-- ===== src/WhenFs/Steps.antt =====
-- Sequences of requests to src/main.rs, between which the disk and the clock may change.
use whenfs.Prelude.{ℕ, ◌+◌, ◌≡◌, subst, arith}
use whenfs.TimeExpr.{done}
use whenfs.WhenFs.{World, WhenFs}
use whenfs.WhenFs.Handlers.{Reply, Request, handle}
use whenfs.WhenFs.Inodes.{IsTable, Kept, HasRoom, Kept-none, Kept-both}
use whenfs.WhenFs.Requests.{After, cost, handle-Kept}

-- Requests served one behind the other, and the sum of what each can give out.
pub data Steps {File : Type 0} : ℕ → WhenFs File → WhenFs File → Type 1 where
  stop : {fs : WhenFs File} → Steps 0 fs fs
  step :
      {n : ℕ} {fs fs' fs'' : WhenFs File} {reply : Reply} (w : World File) (r : Request)
      → handle w r fs ≡ done (reply, fs')
      → Steps n fs' fs''
      → Steps (cost w r fs + n) fs fs''

module _ {File : Type 0} where
  -- While the numbers of 64 bits last, any sequence of requests leaves a table in which each inode
  -- stands for one path and each path for one inode, and in which every inode that was given out before
  -- still stands for its path: no inode is used for a second path.
  pub steps-Kept :
      (n : ℕ) (fs fs' : WhenFs File) → Steps n fs fs' → IsTable fs → HasRoom fs n → Kept n fs fs'
  steps-Kept _ fs fs' stop t room = Kept-none 0 fs t
  steps-Kept _ fs fs'' (step {n = n} {fs' = fs'} w r e s) t room =
      let first : After (cost w r fs) fs (handle w r fs) =
        handle-Kept w r fs t (omega (arith, room)) in
      let k : Kept (cost w r fs) fs fs' = subst (After (cost w r fs) fs) e first in
      Kept-both (cost w r fs) n fs fs' fs'' k
        (steps-Kept n fs' fs'' s k.table (omega (arith, k.next, room)))
