-- ===== src/Revert/Safety.antt =====
-- What each step of the plan of src/revert.rs is justified by: nothing is removed or overwritten
-- but under the live tree, outside the refused prefixes, and on the word of the newest snapshot
-- that is not younger than the first touch.
use whenfs.Prelude.{
  ◌≡◌, ◌≢◌, refl, inl, inr, true, false, Bool, Option, none, some, List, [], ◌∷◌, ◌++◌, map, arith,
  All, Bool-cases, Option-cases, is_some,
}
use whenfs.Prelude.Text.{Text, text_eq_iff, text_key}
use whenfs.HashMap
use whenfs.HashMap.{HashMap}
use whenfs.FilePath.{FilePath, of_text, strip_base, strip_base-eq-append, strip_base-append}
use whenfs.Revert.{
  Step, restore, remove, skip, path_of, refused, outside, no_snapshot, pre_image, decide_in_tree,
  step_of, steps_of,
}
use whenfs.Prelude.Newest.{elem}
use whenfs.Revert.Snapshot.{IsNewest, NoneBefore, snapshot_before-cases}

module _ (exists : FilePath → Bool) (snapshots : List Text) (snap_root live_root : Text)
    (first : Text → Option Text) where
  -- The path is not refused, lies at `rel` below the live root, and was first touched at `ts`.
  abbrev pub InTree : Text → FilePath → Text → Type 0
  InTree p rel ts =
      (refused p ≡ none) × (of_text p ≡ of_text live_root ++ rel) × (first p ≡ some ts)

  pub data IsJudged : Step → Type 0 where
    refuses : (p why : Text) → refused p ≡ some why → IsJudged (skip p why)
    leaves :
        (p : Text)
        → refused p ≡ none
        → ((rel : FilePath) → of_text p ≢ of_text live_root ++ rel)
        → IsJudged (skip p (outside live_root))
    lacks :
        (p ts : Text) (rel : FilePath)
        → InTree p rel ts
        → NoneBefore snapshots ts
        → IsJudged (skip p no_snapshot)
    restores :
        (p ts snap : Text) (rel : FilePath)
        → InTree p rel ts
        → IsNewest snapshots ts snap
        → exists (pre_image snap_root snap rel) ≡ true
        → IsJudged (restore p (pre_image snap_root snap rel))
    removes :
        (p ts snap : Text) (rel : FilePath)
        → InTree p rel ts
        → IsNewest snapshots ts snap
        → exists (pre_image snap_root snap rel) ≡ false
        → IsJudged (remove p)

  module _ (first_ts : HashMap Text Text)
      (agrees : (p : Text) → HashMap.get p first_ts ≡ first p) where
    abbrev Judged : Text → Option Step → Type 0
    Judged p o = (s : Step) × (o ≡ some s) × (path_of s ≡ p) × IsJudged s

    decide_in_tree-IsJudged :
        (p ts : Text) (rel : FilePath)
        → InTree p rel ts
        → Judged p (some (decide_in_tree exists snapshots snap_root live_root p rel ts))
    unfolding path_of decide_in_tree
    decide_in_tree-IsJudged p ts rel t = elim (snapshot_before-cases snapshots ts) [
      | inl (e, old) ↦ (skip p no_snapshot, ground arith, refl, lacks p ts rel t old)
      | inr (snap, e, new) ↦ elim (Bool-cases (exists (pre_image snap_root snap rel))) [
        | inl there ↦ (
          restore p (pre_image snap_root snap rel),
          ground arith,
          refl,
          restores p ts snap rel t new there,
        )
        | inr gone ↦ (remove p, ground arith, refl, removes p ts snap rel t new gone)
      ]
    ]

    step_of-IsJudged :
        (p : Text)
        → is_some (first p) ≡ true
        → Judged p (step_of exists snapshots snap_root live_root first_ts p)
    unfolding path_of step_of
    step_of-IsJudged p h = elim (Option-cases (refused p)) [
      | inr (why, e) ↦ (skip p why, ground arith, refl, refuses p why e)
      | inl e ↦ elim (Option-cases (strip_base (of_text p) (of_text live_root))) [
        | inl apart ↦ (
          skip p (outside live_root),
          ground arith,
          refl,
          leaves p e (λ rel q. cc (strip_base-append (of_text live_root) rel, q, apart)),
        )
        | inr (rel, under) ↦ elim (Option-cases (first p)) [
          | inl never ↦ absurd (ground arith)
          | inr (ts, at) ↦
              let (s, q, same, j) =
                decide_in_tree-IsJudged p ts rel
                  (e, strip_base-eq-append (of_text p) (of_text live_root) rel under, at) in
              (s, ground (arith, agrees p), same, j)
        ]
      ]
    ]

    pub steps_of-IsJudged :
        (order : List Text)
        → ((p : Text) → elem p order ≡ true → is_some (first p) ≡ true)
        → (steps : List Step) × (steps_of exists snapshots snap_root live_root first_ts order
            ≡ some steps)
          × (map path_of steps ≡ order)
          × All IsJudged steps
    unfolding steps_of
    steps_of-IsJudged [] h = ([], refl, refl, tt)
    steps_of-IsJudged (p ∷ order) h =
        let (s, e, same, j) = step_of-IsJudged p (h p (ground (arith, text_eq_iff p p))) in
        let (steps, e', same', js) = steps_of-IsJudged order (λ q m. h q (ground arith)) in
        (s ∷ steps, ground arith, cc (same, same'), (j, js))
