-- ===== src/Revert.antt =====
-- src/revert.rs: planning the undo of a traced command. Building the plan only asks the file system
-- what exists: the test `exists` is a parameter.
pub mod Touches
pub mod Order
pub mod Ranks
pub mod Snapshot
pub mod Plan
pub mod Refusal
mod Tests
pub mod Safety
use whenfs.Prelude.{
  Bool, true, false, ◌||◌, Option, none, some, List, [], ◌∷◌, ◌++◌, if◌then◌else◌, leb, keep, find,
}
use whenfs.Prelude.Text.{Text, text, text_key, text_le, starts_with, contains}
use whenfs.Prelude.Newest.{newest}
use whenfs.Prelude.Sort.{sort_by}
use whenfs.HashMap
use whenfs.HashMap.{HashMap}
use whenfs.FilePath
use whenfs.FilePath.{FilePath, of_text, strip_base, join, depth}
use whenfs.Graph.Types.{FileEvent}

abbrev pub refused_prefixes : List Text
refused_prefixes =
    text "/var/lib/dpkg"
    ∷ text "/var/lib/rpm"
    ∷ text "/var/lib/pacman"
    ∷ text "/var/db/xbps"
    ∷ text "/var/lib/xbps"
    ∷ text "/nix/store"
    ∷ text "/proc"
    ∷ text "/sys"
    ∷ text "/dev"
    ∷ text "/run"
    ∷ []

-- The live path is kept as its text, which `refused` reads; `from` by its components.
pub data Step : Type 0 where
  restore : Text → FilePath → Step
  remove : Text → Step
  skip : Text → Text → Step

unfoldable pub path_of : Step → Text
path_of (restore path _) = path
path_of (remove path) = path
path_of (skip path _) = path

abbrev is_package_state : Text → Bool
is_package_state p =
    contains p (text "dpkg")
    || contains p (text "rpm")
    || contains p (text "pacman")
    || contains p (text "xbps")

abbrev refusal : Text → Text
refusal p =
    if is_package_state p
    then text "package manager state (" ++ p ++ text ") — undo via the package manager instead"
    else text "not real persistent state (" ++ p ++ text ")"

-- The reason to leave a path alone, if its text begins with a listed prefix.
unfoldable pub refused : Text → Option Text
refused s = elim (find (λ p. starts_with s p) refused_prefixes) [
  | none ↦ none
  | some p ↦ some (refusal p)
]

-- `filter(|s| s <= ts).max_by(|a, b| a.cmp(b))`
unfoldable pub snapshot_before : List Text → Text → Option Text
unfolding newest
snapshot_before snapshots ts = newest (keep (λ s. text_le s ts) snapshots)

-- The two collections that the loop over the events fills.
pub record Touched : Type 0 where
  pub order : List Text
  pub first_ts : HashMap Text Text

unfoldable pub touch : Text → Text → Touched → Touched
touch path ts t =
    if HashMap.contains_key path t.first_ts
    then t
    else record { order = t.order ++ path ∷ []; first_ts = HashMap.insert path ts t.first_ts }

-- `if let Some(other) = e.other_path`
unfoldable pub touch_other : Option Text → Text → Touched → Touched
touch_other none ts t = t
touch_other (some other) ts t = touch other ts t

-- The body of `for e in events`: a rename touches its destination, then its source.
unfoldable pub touch_event : FileEvent → Touched → Touched
touch_event e t = touch_other e.other_path e.ts (touch e.path e.ts t)

unfoldable pub touch_all : List FileEvent → Touched → Touched
touch_all [] t = t
touch_all (e ∷ events) t = touch_all events (touch_event e t)

abbrev pub untouched : Touched
untouched = record { order = []; first_ts = [] }

-- Left alone: the reasons beside a refused prefix.
abbrev outside : Text → Text
outside live_root = text "outside the snapshotted tree (" ++ live_root ++ text ")"

abbrev no_snapshot : Text
no_snapshot = text "no snapshot predates this change — nothing to restore from"

-- The version of a path that a snapshot would hold: `snap_root.join(snap).join(rel)`.
unfoldable pub pre_image : Text → Text → FilePath → FilePath
unfolding of_text join
pre_image snap_root snap rel = join (join (of_text snap_root) (of_text snap)) rel

module _ (exists : FilePath → Bool) (snapshots : List Text) (snap_root live_root : Text) where
  unfoldable pub decide_in_tree : Text → FilePath → Text → Step
  decide_in_tree path rel ts = elim (snapshot_before snapshots ts) [
    | none ↦ skip path no_snapshot
    | some snap ↦
        if exists (pre_image snap_root snap rel)
        then restore path (pre_image snap_root snap rel)
        else remove path
  ]

  -- The body of `for path_s in order`. `none` is the panic of `first_ts[&path_s]` at a missing key.
  unfoldable pub step_of : HashMap Text Text → Text → Option Step
  unfolding decide_in_tree
  step_of first_ts path = elim (refused path) [
    | some why ↦ some (skip path why)
    | none ↦ elim (strip_base (of_text path) (of_text live_root)) [
      | none ↦ some (skip path (outside live_root))
      | some rel ↦ elim (HashMap.get path first_ts) [
        | none ↦ none
        | some ts ↦ some (decide_in_tree path rel ts)
      ]
    ]
  ]

  unfoldable pub steps_of : HashMap Text Text → List Text → Option (List Step)
  unfolding step_of
  steps_of first_ts [] = some []
  steps_of first_ts (path ∷ order) =
      let rest = steps_of first_ts order in
      elim (step_of first_ts path) [
        | none ↦ none
        | some s ↦ elim rest [ none ↦ none | some steps ↦ some (s ∷ steps) ]
      ]

abbrev pub is_restore : Step → Bool
is_restore (restore _ _) = true
is_restore _ = false

abbrev pub is_remove : Step → Bool
is_remove (remove _) = true
is_remove _ = false

abbrev pub is_skip : Step → Bool
is_skip (skip _ _) = true
is_skip _ = false

-- `sort_by_key(|s| Reverse(depth(s.path())))`, which is stable.
abbrev pub step_depth : Step → Prim.Native.Nat.ℕ
step_depth s = depth (of_text (path_of s))

abbrev pub no_deeper : Step → Step → Bool
no_deeper s t = leb (step_depth t) (step_depth s)

unfoldable pub sort_deepest : List Step → List Step
unfolding sort_by
sort_deepest = sort_by no_deeper

unfoldable pub ordered : List Step → List Step
unfolding sort_deepest
ordered steps = keep is_restore steps ++ sort_deepest (keep is_remove steps) ++ keep is_skip steps

-- The plan; `none` is a panic.
unfoldable pub plan :
    (FilePath → Bool) → List FileEvent → List Text → Text → Text → Option (List Step)
unfolding touch touch_other touch_event touch_all steps_of ordered
plan exists events snapshots snap_root live_root =
    let touched = touch_all events untouched in
    elim (steps_of exists snapshots snap_root live_root touched.first_ts touched.order) [
      | none ↦ none
      | some steps ↦ some (ordered steps)
    ]
