-- ===== src/Whodid.antt =====
-- src/bin/whodid.rs, the queries on the log of the daemon. `World` is what the disk and the program
-- `diff` answer. A run is the text on the two outputs and the exit status.
pub mod Reader
pub mod Scan
pub mod Values
pub mod History
pub mod RoundTrip
pub mod Bracket
pub mod Dedup
mod Tests
use whenfs.Prelude.{
  ℕ, zero, suc, ◌+◌, ◌-◌, Bool, true, false, ◌&&◌, ◌||◌, not, Option, none, some, List, [], ◌∷◌,
  ◌++◌, ◌⊎◌, inl, inr, map, reverse, if◌then◌else◌, eqb, leb, any, keep, find, length,
}
use whenfs.Prelude.Text.{Text, text, text_eq, text_le, text_lt, strip_prefix}
use whenfs.Prelude.Sort.{sort_by}
use whenfs.FilePath.{FilePath, of_text, strip_base, join}
use whenfs.TimeExpr.{DirEntry}
use whenfs.Daemon.Strings.{concat}
use whenfs.Whodid.Reader.{Event, lines, parse_all, parse_line}

pub record World : Type 0 where
  -- `fs::canonicalize`, lossy, and `fs::read_to_string`
  pub canonical : Text → Option Text
  pub read : Text → Option Text
  pub read_dir : Text → Option (List (Option DirEntry))
  -- What `diff -u` prints, or why it could not be run.
  pub diff : FilePath → FilePath → Text ⊎ Text
  -- `{:?}` of a text.
  pub debug : Text → Text

abbrev or_self : Text → Option Text → Text
or_self t none = t
or_self t (some u) = u

abbrev or_default : Option Text → Text
or_default none = []
or_default (some t) = t

unfoldable pub load_events : World → Text → Text → List Event
unfolding lines parse_all parse_line text_eq
load_events w log_path target =
    keep (λ e. text_eq e.path target || text_eq e.path (or_self target (w.canonical target)))
      (parse_all (lines (or_default (w.read log_path))))

-- `sort_by(|a, b| a.ts.cmp(&b.ts))`
abbrev pub by_ts : Event → Event → Bool
by_ts a b = text_le a.ts b.ts

-- `{:<n}`
abbrev pad : ℕ → Text → Text
pad zero s = s
pad (suc n) [] = b' ' ∷ pad n []
pad (suc n) (c ∷ s) = c ∷ pad n s

pub record Run : Type 0 where
  pub out : Text
  pub err : Text
  pub status : ℕ

abbrev printed : Text → Run
printed out = record { out = out; err = []; status = 0 }

abbrev newline : Text
newline = 10 ∷ []

unfoldable pub who : Event → Text
who e = elim e.comm [ [] ↦ e.exe | c ∷ s ↦ c ∷ s ]

unfoldable pub list_line : Event → Text
unfolding who
list_line e = concat (
    e.ts
    ∷ text "  "
    ∷ pad 10 e.op
    ∷ text " pid="
    ∷ pad 7 e.pid
    ∷ text " "
    ∷ who e
    ∷ text "  ("
    ∷ e.cmdline
    ∷ text ")"
    ∷ newline
    ∷ [])

abbrev no_changes : Text → Text
no_changes target = text "no recorded changes to " ++ target ++ newline

abbrev listing : Text → List Event → Text
listing target [] = no_changes target
listing target (e ∷ es) = concat (map list_line (e ∷ es))

unfoldable pub cmd_list : World → Text → Text → Run
unfolding load_events sort_by list_line
cmd_list w log_path target =
    printed (listing target (sort_by by_ts (load_events w log_path target)))

-- `flatten`, and the names that are UTF-8.
abbrev names_of : List (Option DirEntry) → List Text
names_of [] = []
names_of (none ∷ entries) = names_of entries
names_of (some e ∷ entries) = elim e.name [
  | none ↦ names_of entries
  | some n ↦ n ∷ names_of entries
]

abbrev entries_of : Option (List (Option DirEntry)) → List (Option DirEntry)
entries_of none = []
entries_of (some entries) = entries

-- The names around a time: the last at or before it, and the first after it.
unfoldable pub around : List Text → Text → Option Text × Option Text
unfolding sort_by
around names ts =
    let sorted = sort_by text_le names in
    (find (λ n. text_le n ts) (reverse sorted), find (λ n. text_lt ts n) sorted)

unfoldable pub bracket : World → Text → Text → Option Text × Option Text
unfolding around
bracket w snap_root ts = around (names_of (entries_of (w.read_dir snap_root))) ts

-- `dedup_by(|a, b| a.ts == b.ts)`: what has the time of the last one that was kept is dropped.
unfoldable pub dedup_from : Text → List Event → List Event
dedup_from ts [] = []
dedup_from ts (e ∷ es) = elim (text_eq e.ts ts) [
  | true ↦ dedup_from ts es
  | false ↦ e ∷ dedup_from e.ts es
]

unfoldable pub dedup : List Event → List Event
unfolding dedup_from
dedup [] = []
dedup (e ∷ es) = e ∷ dedup_from e.ts es

abbrev debug_option : World → Option Text → Text
debug_option w none = text "None"
debug_option w (some t) = text "Some(" ++ w.debug t ++ text ")"

abbrev or_path : FilePath → Option FilePath → FilePath
or_path p none = p
or_path p (some q) = q

-- `target` below `live_root`, or whole.
abbrev pub relative : Text → Text → FilePath
relative target live_root =
    or_path (of_text target) (strip_base (of_text target) (of_text live_root))

abbrev pub version : Text → Text → FilePath → FilePath
version when_mount name rel = join (join (of_text when_mount) (of_text name)) rel

abbrev diff_text : Text ⊎ Text → Text
diff_text (inr why) = text "(diff failed: " ++ why ++ text ")" ++ newline
diff_text (inl []) = text "(no content difference between bracketing snapshots)" ++ newline
diff_text (inl (c ∷ s)) = c ∷ s

unfoldable pub diff_between : World → Text → FilePath → Option Text × Option Text → Text
diff_between w when_mount rel (some b, some a) =
    diff_text (w.diff (version when_mount b rel) (version when_mount a rel))
diff_between w when_mount rel (before, after) =
    text "(insufficient bracketing snapshots — before="
    ++ debug_option w before
    ++ text " after="
    ++ debug_option w after
    ++ text ")"
    ++ newline

unfoldable pub diff_event : World → Text → Text → FilePath → Event → Text
unfolding who bracket diff_between
diff_event w snap_root when_mount rel e = concat (
    newline
    ∷ text "=== "
    ∷ e.ts
    ∷ text " — "
    ∷ who e
    ∷ text " (pid "
    ∷ e.pid
    ∷ text ", "
    ∷ e.cmdline
    ∷ text ") ==="
    ∷ newline
    ∷ diff_between w when_mount rel (bracket w snap_root e.ts)
    ∷ [])

abbrev diffs : World → Text → Text → FilePath → Text → List Event → Text
diffs w snap_root when_mount rel target [] = no_changes target
diffs w snap_root when_mount rel target (e ∷ es) =
    concat (map (diff_event w snap_root when_mount rel) (e ∷ es))

unfoldable pub cmd_diff : World → Text → Text → Text → Text → Text → Run
unfolding load_events sort_by dedup diff_event
cmd_diff w log_path snap_root when_mount live_root target = printed (
    diffs w snap_root when_mount (relative target live_root) target
      (dedup (sort_by by_ts (load_events w log_path target))))

abbrev usage : Run
usage = record {
  out = [];
  err = concat (
      text "usage:\n"
      ∷ text "  whodid list <log-path> <target-path>\n"
      ∷ text "  whodid diff <log-path> <snap-root> <when-mount> <live-root> <target-path>\n"
      ∷ []);
  status = 1;
}

-- The arguments behind the program's name.
unfoldable pub main : World → List Text → Run
unfolding cmd_list cmd_diff text_eq
main w (c ∷ a ∷ b ∷ []) = if text_eq c (text "list") then cmd_list w a b else usage
main w (c ∷ a ∷ b ∷ d ∷ e ∷ f ∷ []) =
    if text_eq c (text "diff") then cmd_diff w a b d e f else usage
main w _ = usage
