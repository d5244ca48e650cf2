-- ===== src/Chronicle/Calls.antt =====
-- The loop of src/bin/chronicle.rs that applies a plan: the calls that it makes, and what it counts.
use whenfs.Prelude.{
  ℕ, suc, ◌+◌, ◌≡◌, refl, sym, ap, subst, ◌∙◌, inl, inr, Bool, true, false, not, Option, none, some,
  List, [], ◌∷◌, ◌++◌, if◌then◌else◌, keep, length, arith, All, All-append, All-map, Bool-cases,
}
use mathlib.Core.List.{append_assoc, append-nil}
use whenfs.Prelude.Text.{Text}
use whenfs.FilePath.{parent, FilePath, of_text}
use whenfs.Revert.{Step, restore, remove, skip, is_skip}
use whenfs.Chronicle.Undo.{zero_tally, run_plan}
use whenfs.Chronicle.Apply.{
  Call, create_dir_all, copy, remove_dir, remove_file, IoError, Disk, Tally, issue, count,
  apply_step, apply_all, restore_from, unless_gone, copy_behind,
}

-- The calls that a step may make: a restore makes the directories above its path and copies onto it,
-- a removal removes its path.
pub data IsOf : Step → Call → Type 0 where
  makes_parents :
      (path : Text) (from up : FilePath)
      → parent (of_text path) ≡ some up
      → IsOf (restore path from) (create_dir_all up)
  copies : (path : Text) (from : FilePath) → IsOf (restore path from) (copy from path)
  removes_dir : (path : Text) → IsOf (remove path) (remove_dir path)
  removes_file : (path : Text) → IsOf (remove path) (remove_file path)

module _ (disk : Disk) where
  calls-count :
      (step : Step) (t : Tally) (e : Option IoError) (calls : List Call)
      → (count disk step t (e, calls)).calls ≡ calls
  calls-count step t none calls = refl
  calls-count step t (some e) calls = ground arith

  -- One step is counted once, unless it is skipped.
  total-count :
      (step : Step) (t : Tally) (r : Option IoError × List Call)
      → let t' = count disk step t r in
        t'.applied + t'.kept + t'.failures ≡ suc (t.applied + t.kept + t.failures)
  total-count step t (none, calls) = omega arith
  total-count step t (some e, calls) = ground arith

  abbrev pub total : Tally → ℕ
  total t = t.applied + t.kept + t.failures

  apply_step-total :
      (step : Step) (t : Tally)
      → total (apply_step disk step t) ≡ (if is_skip step then total t else suc (total t))
  unfolding apply_step
  apply_step-total (restore path from) t = total-count (restore path from) t _
  apply_step-total (remove path) t = total-count (remove path) t _
  apply_step-total (skip path why) t = refl

  -- Whatever the disk answers, the loop that applies a plan counts each step that is not skipped once:
  -- as applied, kept or failed.
  pub apply_all-total :
      (steps : List Step) (t : Tally)
      → total (apply_all disk steps t) ≡ total t + length (keep (λ s. not (is_skip s)) steps)
  unfolding apply_all
  apply_all-total [] t = omega arith
  apply_all-total (step ∷ steps) t =
      ground (arith, apply_step-total step t, apply_all-total steps (apply_step disk step t))

  -- The later calls are the earlier ones and new ones, all of which the predicate allows.
  abbrev Adds : (Call → Type 0) → List Call → List Call → Type 0
  Adds P before after = (new : List Call) × (after ≡ before ++ new) × All P new

  copy_behind-Adds :
      (path : Text) (from : FilePath) (e : Option IoError) (before calls : List Call)
      → Adds (IsOf (restore path from)) before calls
      → Adds (IsOf (restore path from)) before (copy_behind disk from path (e, calls)).1
  copy_behind-Adds path from (some e) before calls a = a
  copy_behind-Adds path from none before calls (new, e, h) = (
    new ++ copy from path ∷ [],
    ap (λ cs. cs ++ copy from path ∷ []) e ∙ append_assoc before new (copy from path ∷ []),
    All-append _ new (copy from path ∷ []) h (copies path from, tt),
  )

  restore_from-Adds :
      (path : Text) (from : FilePath) (up : Option FilePath) (calls : List Call)
      → parent (of_text path) ≡ up
      → Adds (IsOf (restore path from)) calls (restore_from disk up from path calls).1
  restore_from-Adds path from none calls e =
      copy_behind-Adds path from none calls calls ([], sym (append-nil calls), tt)
  restore_from-Adds path from (some up) calls e =
      copy_behind-Adds path from (disk.answer calls (create_dir_all up)) calls
        (calls ++ create_dir_all up ∷ [])
        (create_dir_all up ∷ [], refl, (makes_parents path from up e, tt))

  calls-unless_gone : (r : Option IoError × List Call) → (unless_gone disk r).1 ≡ r.1
  calls-unless_gone (none, calls) = refl
  calls-unless_gone (some e, calls) = refl

  counted-Adds :
      (P : Call → Type 0) (step : Step) (t : Tally) (r : Option IoError × List Call)
      → Adds P t.calls r.1
      → Adds P t.calls (count disk step t r).calls
  counted-Adds P step t (e, calls) (new, added, h) = (new, calls-count step t e calls ∙ added, h)

  apply_step-Adds :
      (step : Step) (t : Tally) → Adds (IsOf step) t.calls (apply_step disk step t).calls
  unfolding apply_step
  apply_step-Adds (restore path from) t =
      counted-Adds _ (restore path from) t _
        (restore_from-Adds path from (parent (of_text path)) t.calls refl)
  apply_step-Adds (remove path) t =
      counted-Adds _ (remove path) t
        (unless_gone disk (
          if disk.is_dir_itself t.calls path
          then issue disk (remove_dir path) t.calls
          else issue disk (remove_file path) t.calls))
        (elim (Bool-cases (disk.is_dir_itself t.calls path)) [
          | inl d ↦ rw (d, calls-unless_gone) (remove_dir path ∷ [], refl, (removes_dir path, tt))
          | inr f ↦ rw (f, calls-unless_gone) (remove_file path ∷ [], refl, (removes_file path, tt))
        ])
  apply_step-Adds (skip path why) t = ([], sym (append-nil t.calls), tt)

  -- A call that a step makes of which `J` holds.
  abbrev pub Covered : (Step → Type 0) → Call → Type 0
  Covered J c = (step : Step) × J step × IsOf step c

  apply_all-Covered :
      (J : Step → Type 0) (steps : List Step) (t : Tally)
      → All J steps
      → All (Covered J) t.calls
      → All (Covered J) (apply_all disk steps t).calls
  unfolding apply_all
  apply_all-Covered J [] t js cs = cs
  apply_all-Covered J (step ∷ steps) t (j, js) cs =
      let (new, added, h) = apply_step-Adds step t in
      apply_all-Covered J steps (apply_step disk step t) js (
        subst (All (Covered J)) (sym added)
          (All-append _ t.calls new cs (All-map _ _ new (λ c is. (step, j, is)) h)))

  pub run_plan-Covered :
      (J : Step → Type 0) (apply : Bool) (pid : ℕ) (snap_root : Text) (steps : List Step)
      → All J steps
      → let e = run_plan disk apply pid snap_root steps in
        (e.calls ≡ (if apply then e.calls else [])) × All (Covered J) e.calls
  unfolding run_plan
  run_plan-Covered J false pid snap_root steps js = (refl, tt)
  run_plan-Covered J true pid snap_root steps js =
      (refl, apply_all-Covered J steps (zero_tally _) js tt)
