-- ===== src/Chronicle/Safety.antt =====
-- What `cmd_revert` of src/bin/chronicle.rs may do to the disk.
use whenfs.Prelude.{
  ℕ, ◌≡◌, refl, inl, inr, Bool, Option, none, some, List, [], ◌∷◌, if◌then◌else◌, arith, All,
  All-map, Option-cases,
}
use whenfs.Prelude.Text.{Text}
use whenfs.Daemon.Strings.{parse_i32}
use whenfs.Graph.Types.{FileEvent}
use whenfs.Graph.Sql.{Graph, Result, ok, failed}
use whenfs.Graph.{latest_start_ts}
use whenfs.Graph.Queries.{events_by_tree}
use whenfs.Revert.{Step, plan}
use whenfs.Revert.Touches.{first_touch}
use whenfs.Revert.Safety.{IsJudged}
use whenfs.Revert.Plan.{IsUndo, plan-IsUndo}
use whenfs.Chronicle.{World}
use whenfs.Chronicle.Undo.{
  Effects, snapshots_of, planned, on_snapshots, on_events, on_start, cmd_revert,
}
use whenfs.Chronicle.Apply.{Call, Disk}
use whenfs.Chronicle.Calls.{Covered, run_plan-Covered}

module _ (disk : Disk) (w : World) (g : Graph) (pid_arg snap_root live_root : Text)
    (apply : Bool) where
  -- The call restores or removes, in the way of the plan, a path that some event of the tree of the
  -- named process touched.
  pub record IsCalledFor (c : Call) : Type 0 where
    pub pid : ℕ
    pub is_pid : parse_i32 pid_arg ≡ some pid
    pub start : Text
    pub behind : Graph
    pub started : latest_start_ts pid g ≡ (ok (some start), behind)
    pub events : List FileEvent
    pub recorded : (events_by_tree pid start behind).0 ≡ ok events
    pub covered :
        Covered disk
          (IsJudged disk.exists (snapshots_of disk) snap_root live_root (first_touch events))
          c

  -- A dry run makes no call, and every call is called for; none is a panic.
  abbrev pub IsSafe : Option Effects → Type 0
  IsSafe none = ⊥
  IsSafe (some e) = (e.calls ≡ (if apply then e.calls else [])) × All IsCalledFor e.calls

  module _ (pid : ℕ) (is_pid : parse_i32 pid_arg ≡ some pid) where
    module _ (start : Text) (behind : Graph)
        (started : latest_start_ts pid g ≡ (ok (some start), behind)) where
      planned-IsSafe :
          (events : List FileEvent) (snapshots : List Text) (o : Option (List Step))
          → (events_by_tree pid start behind).0 ≡ ok events
          → snapshots_of disk ≡ snapshots
          → IsUndo disk.exists events snapshots snap_root live_root o
          → IsSafe (planned disk snap_root live_root apply pid o)
      planned-IsSafe events snapshots none recorded same u = u
      planned-IsSafe events snapshots (some steps) recorded same u =
          let (dry, covered) = run_plan-Covered disk _ apply pid snap_root steps u.0 in
          (
            dry,
            All-map _ _ _
                (λ c is. record {
                  pid = pid;
                  is_pid = is_pid;
                  start = start;
                  behind = behind;
                  started = started;
                  events = events;
                  recorded = recorded;
                  covered = rw same is;
                })
                covered,
          )

      on_snapshots-IsSafe :
          (events : List FileEvent) (snapshots : List Text)
          → (events_by_tree pid start behind).0 ≡ ok events
          → snapshots_of disk ≡ snapshots
          → IsSafe (on_snapshots disk snap_root live_root apply pid events snapshots)
      on_snapshots-IsSafe events [] recorded same = (ground arith, tt)
      on_snapshots-IsSafe events (s ∷ snapshots) recorded same =
          planned-IsSafe events (s ∷ snapshots)
            (plan disk.exists events (s ∷ snapshots) snap_root live_root) recorded same
            (plan-IsUndo disk.exists events (s ∷ snapshots) snap_root live_root)

      on_events-IsSafe :
          (r : Result (List FileEvent))
          → (events_by_tree pid start behind).0 ≡ r
          → IsSafe (on_events disk snap_root live_root apply w pid r)
      on_events-IsSafe failed e = (ground arith, tt)
      on_events-IsSafe (ok []) e = (ground arith, tt)
      on_events-IsSafe (ok (x ∷ events)) e =
          on_snapshots-IsSafe (x ∷ events) (snapshots_of disk) e refl

    on_start-IsSafe :
        (r : Result (Option Text) × Graph)
        → latest_start_ts pid g ≡ r
        → IsSafe (on_start disk snap_root live_root apply w pid r)
    on_start-IsSafe (ok (some start), behind) e =
        on_events-IsSafe start behind e (events_by_tree pid start behind).0 refl
    on_start-IsSafe (ok none, behind) e = (ground arith, tt)
    on_start-IsSafe (failed, behind) e = (ground arith, tt)

  -- `revert` never panics. Without `--apply` it makes no call that changes the disk. Every call that it
  -- makes creates the directories above a path, copies onto it or removes it, and that path is one
  -- that some event of the process and its descendants names, that is not refused, lies below the
  -- live root, and is restored or removed on the word of the newest snapshot at or before its first
  -- touch.
  pub cmd_revert-IsSafe : IsSafe (cmd_revert disk snap_root live_root apply w g pid_arg)
  unfolding cmd_revert
  cmd_revert-IsSafe = elim (Option-cases (parse_i32 pid_arg)) [
    | inl none_of ↦ rw (cmd_revert, none_of) (ground arith, tt)
    | inr (pid, is_pid) ↦
        rw (cmd_revert, is_pid) (on_start-IsSafe pid is_pid (latest_start_ts pid g) refl)
  ]
