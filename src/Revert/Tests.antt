-- ===== src/Revert/Tests.antt =====
-- Plans of src/revert.rs at the inputs of its own tests, and the theorems at such inputs.
use mathlib.Core.List.{Nodup}
use whenfs.Prelude.{◌≡◌, refl, Bool, true, Option, none, some, List, [], ◌∷◌, Pairs, is_some, ◌↔◌}
use whenfs.Prelude.Text.{Text, text, text_eq, text_key, text_le, starts_with, contains}
use whenfs.HashMap
use whenfs.FilePath.{FilePath, of_text, path_eq, join, strip_base, component_eq}
use whenfs.Graph.Types.{FileEvent}
use whenfs.Revert.{
  Step, restore, remove, skip, path_of, refused, touch_all, untouched, snapshot_before, pre_image,
  plan, refused_prefixes, step_of,
}
use whenfs.Prelude.Newest.{elem}
use whenfs.Revert.Touches.{first_touch, touch_all_lem}
use whenfs.Revert.Ranks.{Before}
use whenfs.Revert.Plan.{IsUndo, plan-IsUndo, plan-Before}
use whenfs.Revert.Refusal.{IsUnder, refused_by_text}

abbrev event : Text → Text → Option Text → FileEvent
event path ts other = record {
  ts = ts;
  path = path;
  op = text "create";
  pid = 1;
  comm = text "sh";
  exe = [];
  cmdline = [];
  proc_start = none;
  other_path = other;
}

abbrev first_day : Text
first_day = text "2026-01-01T00-00-00"

abbrev second_day : Text
second_day = text "2026-01-02T00-00-00"

-- `mkdir -p opt/thing`, then an atomic rename of a.conf to b.conf, then a write elsewhere.
abbrev events : List FileEvent
events =
    event (text "/live/opt") second_day none
    ∷ event (text "/live/opt/thing") second_day none
    ∷ event (text "/live/b.conf") second_day (some (text "/live/a.conf"))
    ∷ event (text "/etc/hosts") second_day none
    ∷ event (text "/var/lib/dpkg/status") second_day none
    ∷ []

-- The snapshot of the first day holds a.conf only.
abbrev saved : FilePath
saved = of_text (text "/snap/2026-01-01T00-00-00/a.conf")

abbrev exists : FilePath → Bool
exists p = path_eq p saved

abbrev snapshots : List Text
snapshots = first_day ∷ text "2026-01-03T00-00-00" ∷ []

abbrev steps : List Step
steps =
    restore (text "/live/a.conf") saved
    ∷ remove (text "/live/opt/thing")
    ∷ remove (text "/live/opt")
    ∷ remove (text "/live/b.conf")
    ∷ skip (text "/etc/hosts") (text "outside the snapshotted tree (/live)")
    ∷ skip (text "/var/lib/dpkg/status")
        (text "package manager state (/var/lib/dpkg) — undo via the package manager instead")
    ∷ []

plan_runs : plan exists events snapshots (text "/snap") (text "/live") ≡ some steps
unfolding plan HashMap.get HashMap.insert path_eq component_eq text_eq refused snapshot_before
    text_le starts_with contains pre_image join of_text strip_base path_of
plan_runs = refl

-- `/devices` is no part of `/dev`, and is refused all the same.
refused_sibling :
    (is_some (refused (text "/devices/disk")) ≡ true)
    × (strip_base (of_text (text "/devices/disk")) (of_text (text "/dev")) ≡ none)
unfolding refused starts_with contains of_text strip_base component_eq text_eq
refused_sibling = (refl, refl)

normal_form : of_text (text "/live//opt/./thing/") ≡ of_text (text "/live/opt/thing")
unfolding of_text
normal_form = refl

touch_all_lem_example :
    let t = touch_all events untouched in
    ((p : Text) → HashMap.get p t.first_ts ≡ first_touch events p)
    × ((p : Text) → elem p t.order ≡ is_some (first_touch events p))
    × Nodup t.order
touch_all_lem_example = touch_all_lem events

plan-IsUndo_example :
    IsUndo exists events snapshots
      (text "/snap")
      (text "/live")
      (plan exists events snapshots (text "/snap") (text "/live"))
plan-IsUndo_example = plan-IsUndo exists events snapshots (text "/snap") (text "/live")

plan-Before_example : Pairs Before steps
plan-Before_example =
    plan-Before exists events snapshots (text "/snap") (text "/live") steps plan_runs

refused_by_text_example :
    let path = text "/devices/disk" in
    ((why : Text) × (refused path ≡ some why)
      × (step_of exists snapshots (text "/snap") (text "/live") [] path ≡ some (skip path why)))
    ↔ IsUnder refused_prefixes path
refused_by_text_example =
    refused_by_text exists snapshots (text "/snap") (text "/live") (text "/devices/disk") []
