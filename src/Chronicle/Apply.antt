-- ===== src/Chronicle/Apply.antt =====
-- The loop of `cmd_revert` in src/bin/chronicle.rs that applies a plan. The disk is what it answers: each
-- answer may depend on the calls that have been made before it.
use whenfs.Prelude.{ℕ, suc, Bool, ◌&&◌, Option, none, some, List, [], ◌∷◌, ◌++◌, if◌then◌else◌}
use whenfs.Prelude.Text.{Text, text}
use whenfs.FilePath.{parent, FilePath, of_text}
use whenfs.TimeExpr.{DirEntry}
use whenfs.Revert.{Step, restore, remove, skip, path_of, is_remove}
use whenfs.Chronicle.{Output, println, eprintln, ◌⊕◌, dim, yellow, reset}

-- The calls that change the disk.
pub data Call : Type 0 where
  create_dir_all : FilePath → Call
  copy : FilePath → Text → Call
  remove_dir : Text → Call
  remove_file : Text → Call

pub record IoError : Type 0 where
  pub not_found : Bool
  pub message : Text

pub record Disk : Type 0 where
  -- What a call comes to, behind the calls so far; none is success.
  pub answer : List Call → Call → Option IoError
  -- `symlink_metadata(path)` says a directory; `path.is_dir()`; `read_dir(path)` has an entry.
  pub is_dir_itself : List Call → Text → Bool
  pub is_dir : List Call → Text → Bool
  pub has_entry : List Call → Text → Bool
  -- The entries of the directory of snapshots, those of them that are directories, and what exists.
  pub snap_entries : Option (List (Option DirEntry))
  pub is_snapshot : FilePath → Bool
  pub exists : FilePath → Bool

-- What the loop over the steps counts, prints and calls.
pub record Tally : Type 0 where
  pub applied : ℕ
  pub kept : ℕ
  pub failures : ℕ
  pub printed : Output
  pub calls : List Call

module _ (disk : Disk) where
  -- One call more, and what it came to.
  abbrev pub issue : Call → List Call → Option IoError × List Call
  issue call calls = (disk.answer calls call, calls ++ call ∷ [])

  abbrev pub copy_behind : FilePath → Text → Option IoError × List Call → Option IoError × List Call
  copy_behind from path (some e, calls) = (some e, calls)
  copy_behind from path (none, calls) = issue (copy from path) calls

  -- `path.parent().map(create_dir_all).unwrap_or(Ok(())).and_then(|_| copy(from, path))`
  abbrev pub restore_from :
      Option FilePath → FilePath → Text → List Call → Option IoError × List Call
  restore_from none from path calls = copy_behind from path (none, calls)
  restore_from (some up) from path calls = copy_behind from path (issue (create_dir_all up) calls)

  -- Already gone is no failure.
  abbrev pub unless_gone : Option IoError × List Call → Option IoError × List Call
  unless_gone (none, calls) = (none, calls)
  unless_gone (some e, calls) = (if e.not_found then none else some e, calls)

  abbrev is_kept : Step → List Call → Bool
  is_kept step calls =
      is_remove step && (disk.is_dir calls (path_of step) && disk.has_entry calls (path_of step))

  -- What a result adds to the tally.
  abbrev pub count : Step → Tally → Option IoError × List Call → Tally
  count step t (none, calls) = record t { applied = suc t.applied; calls = calls }
  count step t (some e, calls) =
      if is_kept step calls
      then record t {
        kept = suc t.kept;
        calls = calls;
        printed =
            t.printed
            ⊕ println (
                text "  "
                ∷ dim
                ∷ text "kept   "
                ∷ path_of step
                ∷ text " — still holds files this command did not create"
                ∷ reset
                ∷ []);
      }
      else record t {
        failures = suc t.failures;
        calls = calls;
        printed =
            t.printed
            ⊕ eprintln (
                text "  "
                ∷ yellow
                ∷ text "failed"
                ∷ reset
                ∷ text " "
                ∷ path_of step
                ∷ text ": "
                ∷ e.message
                ∷ []);
      }

  -- The body of the loop that applies the plan.
  unfoldable pub apply_step : Step → Tally → Tally
  unfolding path_of parent
  apply_step (restore path from) t =
      count (restore path from) t (restore_from (parent (of_text path)) from path t.calls)
  apply_step (remove path) t = count (remove path) t (
      unless_gone (
        if disk.is_dir_itself t.calls path
        then issue (remove_dir path) t.calls
        else issue (remove_file path) t.calls))
  apply_step (skip path why) t = t

  unfoldable pub apply_all : List Step → Tally → Tally
  unfolding apply_step
  apply_all [] t = t
  apply_all (step ∷ steps) t = apply_all steps (apply_step step t)
