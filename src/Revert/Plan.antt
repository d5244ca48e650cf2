-- ===== src/Revert/Plan.antt =====
-- The theorems about `plan` of src/revert.rs as a whole.
use mathlib.Core.List.{Nodup, Perm}
use mathlib.Core.List.Perm
use whenfs.Prelude.{
  ◌≡◌, refl, ap, sym, ◌∙◌, false, Bool, Option, none, some, List, ◌∷◌, ◌++◌, map, arith, All,
  All-map, length, length-append, Pairs, Pairs-behind, subst,
}
use whenfs.Prelude.Text.{Text}
use whenfs.FilePath.{FilePath, Component, of_text}
use whenfs.Graph.Types.{FileEvent}
use whenfs.Revert.{
  Step, restore, remove, skip, path_of, touch_all, untouched, is_remove, ordered, plan,
}
use whenfs.Revert.Touches.{first_touch, touch_all_lem}
use whenfs.Revert.Order.{ordered-perm, ordered-All}
use whenfs.Revert.Ranks.{Before, ordered-Before}
use whenfs.Revert.Safety.{IsJudged, steps_of-IsJudged}

shallower :
    (s : Step) (dir : Text) (c : Component) (rel : FilePath)
    → Before (remove dir) s
    → of_text (path_of s) ≡ of_text dir ++ c ∷ rel
    → is_remove s ≡ false
unfolding path_of
shallower (restore p f) dir c rel b below = refl
shallower (skip p w) dir c rel b below = refl
shallower (remove p) dir c rel b below =
    absurd (omega (arith, b.1 refl refl, ap length below, length-append (of_text dir) (c ∷ rel)))

module _ (exists : FilePath → Bool) (events : List FileEvent) (snapshots : List Text)
    (snap_root live_root : Text) where
  -- The steps before they are ordered.
  raw :
      (steps : List Step) × (plan exists events snapshots snap_root live_root
        ≡ some (ordered steps))
      × (map path_of steps ≡ (touch_all events untouched).order)
      × All (IsJudged exists snapshots snap_root live_root (first_touch events)) steps
  unfolding plan
  raw =
      let t = touch_all_lem events in
      let (steps, e, same, js) =
        steps_of-IsJudged exists snapshots snap_root live_root (first_touch events) _ t.0
          (touch_all events untouched).order (λ p m. sym (t.1 p) ∙ m) in
      (steps, ground arith, same, js)

  -- What an undo plan has to be; `none` is a panic.
  abbrev pub IsUndo : Option (List Step) → Type 0
  IsUndo none = ⊥
  IsUndo (some steps) =
      All (IsJudged exists snapshots snap_root live_root (first_touch events)) steps
      × Perm (map path_of steps) (touch_all events untouched).order
      × Nodup (map path_of steps)

  -- The plan never fails on a missing key. It has exactly one step for each path that some event
  -- names at either end, and each step is justified: a path is removed or restored only if it is
  -- not refused, lies under the live root, and the newest snapshot at or before its first touch
  -- lacks or holds its version; any other path is left alone with its reason.
  pub plan-IsUndo : IsUndo (plan exists events snapshots snap_root live_root)
  plan-IsUndo =
      let (steps, e, same, js) = raw in
      let p =
        subst (Perm (map path_of (ordered steps))) same (Perm.map path_of (ordered-perm steps)) in
      rw e (ordered-All _ steps js, p, Perm.nodup (Perm.symm p) (touch_all_lem events).2)

  -- In the plan restores stand before removals and removals before skips, and no removal stands
  -- behind one of a shallower path.
  pub plan-Before :
      (steps : List Step)
      → plan exists events snapshots snap_root live_root ≡ some steps
      → Pairs Before steps
  plan-Before steps h =
      let (raw_steps, e, _, _) = raw in
      let same : ordered raw_steps ≡ steps = cc (e, h) in
      subst (Pairs Before) same (ordered-Before raw_steps)

  -- A directory is removed only behind everything below it: of the steps behind its removal, none
  -- removes a path that lies below it.
  pub plan_children_first :
      (xs ys : List Step) (dir : Text)
      → plan exists events snapshots snap_root live_root ≡ some (xs ++ remove dir ∷ ys)
      → All
          (λ s.
            (c : Component) (rel : FilePath)
            → of_text (path_of s) ≡ of_text dir ++ c ∷ rel
            → is_remove s ≡ false)
          ys
  plan_children_first xs ys dir h =
      All-map (Before (remove dir)) _ ys (λ s b c rel below. shallower s dir c rel b below)
        (Pairs-behind Before xs (remove dir) ys (plan-Before (xs ++ remove dir ∷ ys) h))
