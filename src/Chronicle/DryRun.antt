-- ===== src/Chronicle/DryRun.antt =====
-- What `cmd_prune` of src/bin/chronicle.rs leaves in the graph.
use whenfs.Prelude.{ap, ℕ, ◌≡◌, refl, ◌∙◌, Bool, true, false, Option, none, some}
use whenfs.Prelude.Text.{Text}
use whenfs.Graph.Types.{Tables}
use whenfs.Graph.Sql.{Graph, Query, Result, ok, failed, clean, select, statement, pure, ◌>>=◌}
use whenfs.Graph.{prune_preview, prune, counts, vacuum}
use whenfs.Graph.Keeps.{Keeps, keeps_queries}
use whenfs.TimeExpr.{Calendar, Outcome, done, panicked, unfinished}
use whenfs.TimeExpr.Resolve.{resolve_target, format_snapshot_name}
use whenfs.Chronicle.{World, Output}
use whenfs.Chronicle.Pruning.{cmd_prune, prune_before, after_preview}

-- The query leaves the tables, whether it fails or not.
abbrev OnlyReads {ℓ} : {A : Type ℓ} → Query A → Type 0
OnlyReads q = (t : Tables) → Keeps (λ u. u ≡ t) q

prune_preview-OnlyReads : (cutoff : Text) → OnlyReads (prune_preview cutoff)
unfolding prune_preview
prune_preview-OnlyReads cutoff t = search keeps_queries

counts-OnlyReads : OnlyReads counts
unfolding counts
counts-OnlyReads t = search keeps_queries

tables-after_preview :
    (w : World) (cutoff : Text) (vacuum_too : Bool) (r : Result (ℕ × ℕ)) (g : Graph)
    → (after_preview w cutoff false vacuum_too (r, g)).1.tables ≡ g.tables
tables-after_preview w cutoff vacuum_too failed g = refl
tables-after_preview w cutoff vacuum_too (ok n) g = (counts-OnlyReads g.tables).at g refl

dry_run_keeps :
    (w : World) (expr : Text) (cutoff : Option Text) (vacuum_too : Bool) (g : Graph)
    → (prune_before w expr cutoff false vacuum_too g).1.tables ≡ g.tables
unfolding prune_before
dry_run_keeps w expr none vacuum_too g = refl
dry_run_keeps w expr (some cutoff) vacuum_too g =
    tables-after_preview w cutoff vacuum_too (prune_preview cutoff g).0 (prune_preview cutoff g).1
    ∙ (prune_preview-OnlyReads cutoff g.tables).at g refl

applied_prunes :
    (w : World) (expr cutoff : Text) (vacuum_too : Bool) (t : Tables)
    → (prune_before w expr (some cutoff) true vacuum_too (clean t)).1.tables
      ≡ (prune cutoff (clean t)).1.tables
unfolding prune_before prune_preview counts prune vacuum select statement pure ◌>>=◌
applied_prunes w expr cutoff true t = refl
applied_prunes w expr cutoff false t = refl

-- The tables that a run leaves, if it comes to its end.
abbrev pub tables_left : Outcome (Output × Graph) → Option Tables
tables_left panicked = none
tables_left unfinished = none
tables_left (done (o, g)) = some g.tables

-- Where the expression means a time, the command does not panic. Without `--apply` it leaves both tables
-- as they are, whichever statements fail and whether or not `--vacuum` is given; with it, where no
-- statement fails, it leaves just what `prune` leaves at that time as snapshots are named.
pub tables-cmd_prune :
    (cal : Calendar) (now target : cal.DateTime) (w : World) (expr : Text) (vacuum_too : Bool)
    (g : Graph) (t : Tables)
    → resolve_target cal expr now ≡ done (some target)
    → (tables_left (cmd_prune cal now w expr false vacuum_too g) ≡ some g.tables)
      × (tables_left (cmd_prune cal now w expr true vacuum_too (clean t))
          ≡ some (prune (format_snapshot_name cal target) (clean t)).1.tables)
unfolding cmd_prune
tables-cmd_prune cal now target w expr vacuum_too g t means =
    let cutoff = format_snapshot_name cal target in
    (
      rw (cmd_prune, means) (ap some (dry_run_keeps w expr (some cutoff) vacuum_too g)),
      rw (cmd_prune, means) (ap some (applied_prunes w expr cutoff vacuum_too t)),
    )
