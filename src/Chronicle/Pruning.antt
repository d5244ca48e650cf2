-- ===== src/Chronicle/Pruning.antt =====
-- `cmd_prune` of src/bin/chronicle.rs, with the clock and the library of dates as parameters.
use whenfs.Prelude.{ℕ, Bool, true, false, Option, none, some, [], ◌∷◌, ◌++◌, if◌then◌else◌}
use whenfs.Prelude.Text.{Text, text}
use whenfs.Daemon.Strings.{decimal}
use whenfs.Graph.Sql.{Graph, Result, ok, failed}
use whenfs.Graph.{prune_preview, prune, counts, vacuum}
use whenfs.TimeExpr.{Calendar, Outcome, done, ◌>>=◌}
use whenfs.TimeExpr.Resolve.{resolve_target, format_snapshot_name}
use whenfs.Chronicle.{World, Output, println, eprintln, ◌⊕◌, dim, bold, cyan, reset, newline}

abbrev or_zero : Result (ℕ × ℕ) → ℕ × ℕ
or_zero (ok n) = n
or_zero failed = (0, 0)

abbrev preview_text : Text → Bool → ℕ × ℕ → ℕ × ℕ → Output
preview_text cutoff apply (procs, events) (have_p, have_e) =
    println (
      newline
      ∷ bold
      ∷ (if apply then text "pruning" else text "dry run —")
      ∷ reset
      ∷ text " history before "
      ∷ cyan
      ∷ cutoff
      ∷ reset
      ∷ [])
    ⊕ println (text "  " ∷ decimal events ∷ text " of " ∷ decimal have_e ∷ text " events" ∷ [])
    ⊕ println (text "  " ∷ decimal procs ∷ text " of " ∷ decimal have_p ∷ text " processes" ∷ [])

abbrev vacuum_text : World → Result (Unit {0}) → Output
vacuum_text w (ok _) = record { out = text "  reclaiming space... done" ++ newline; err = [] }
vacuum_text w failed = record {
  out = text "  reclaiming space... failed: " ++ (w.database_error ++ newline);
  err = [];
}

abbrev reused : Output
reused = println (
    text "  "
    ∷ dim
    ∷ text "space is reused, not returned to the disk — add --vacuum for that"
    ∷ reset
    ∷ [])

abbrev dry_run : Output
dry_run =
    println
      (text "  " ∷ dim ∷ text "dry run: nothing was deleted. Re-run with --apply." ∷ reset ∷ [])

abbrev reclaim : World → Bool → Graph → Output × Graph
reclaim w false g = (reused, g)
reclaim w true g = let (r, g') = vacuum g in (vacuum_text w r, g')

abbrev pub after_prune : World → Bool → Result (ℕ × ℕ) × Graph → Output × Graph
after_prune w vacuum_too (failed, g) = (eprintln (text "prune failed: " ∷ w.database_error ∷ []), g)
after_prune w vacuum_too (ok (p, e), g) =
    let (o, g') = reclaim w vacuum_too g in
    (
      println
            (text "  deleted " ∷ decimal e ∷ text " events, " ∷ decimal p ∷ text " processes" ∷ [])
          ⊕ o,
      g',
    )

abbrev above : Output → Output × Graph → Output × Graph
above o (o', g) = (o ⊕ o', g)

abbrev pub after_preview : World → Text → Bool → Bool → Result (ℕ × ℕ) × Graph → Output × Graph
after_preview w cutoff apply vacuum_too (failed, g) =
    (eprintln (text "query failed: " ∷ w.database_error ∷ []), g)
after_preview w cutoff apply vacuum_too (ok n, g) =
    let (have, g') = counts g in
    above (preview_text cutoff apply n (or_zero have))
      (if apply then after_prune w vacuum_too (prune cutoff g') else (dry_run, g'))

-- What the command does behind the reading of the time, with the cutoff if it is one.
unfoldable pub prune_before : World → Text → Option Text → Bool → Bool → Graph → Output × Graph
unfolding prune_preview prune counts vacuum decimal
prune_before w expr none apply vacuum_too g = (
  eprintln (
      text "not a time expression: "
      ∷ expr
      ∷ text "  (try: 30-days-ago, last-month, 2026-01-01)"
      ∷ []),
  g,
)
prune_before w expr (some cutoff) apply vacuum_too g =
    after_preview w cutoff apply vacuum_too (prune_preview cutoff g)

abbrev cutoff_of : (cal : Calendar) → Option cal.DateTime → Option Text
cutoff_of cal none = none
cutoff_of cal (some target) = some (format_snapshot_name cal target)

unfoldable pub cmd_prune :
    (cal : Calendar) → cal.DateTime → World → Text → Bool → Bool → Graph → Outcome (Output × Graph)
unfolding prune_before resolve_target format_snapshot_name
cmd_prune cal now w expr apply vacuum_too g = resolve_target cal expr now >>= λ target.
    done (prune_before w expr (cutoff_of cal target) apply vacuum_too g)
