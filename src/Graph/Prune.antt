-- ===== src/Graph/Prune.antt =====
-- `prune` and `prune_preview` of src/graph.rs.
use mathlib.Core.List.{flat_map}
use whenfs.Prelude.{
  ℕ, ◌≡◌, refl, ap, sym, ◌∙◌, inl, inr, Bool, true, false, not, Option, none, some, List, [], ◌∷◌,
  map, arith, if◌then◌else◌, eqb, keep, All, All-map, Bool-cases, keep-append, keep-keep_implied,
  keep-map, keep-true, keep-false,
}
use whenfs.Prelude.Text.{Text, text_eq, text_le, text_le_trans, text_le_total}
use whenfs.Prelude.Sort.{sort_by, keep-sort_by}
use whenfs.Graph.Types.{Process, EventRow, Tables, has_key}
use whenfs.Graph.{
  in_window, newest_start, is_pinned, is_stale, is_old, delete_processes, delete_events,
}
use whenfs.Graph.Queries.{
  Joined, file_event, is_writer, resolved_start, left_join, in_order, log_rows, log_of,
}

-- The tables after both statements of `prune`.
unfoldable pub pruned : Text → Tables → Tables
unfolding delete_processes delete_events
pruned before t = (delete_events before (delete_processes before t).1).1

in_order_trans : (a b c : Joined) → in_order a b ≡ true → in_order b c ≡ true → in_order a c ≡ true
unfolding in_order
in_order_trans a b c p q = ground (
  arith,
  text_le_trans a.event.ts b.event.ts c.event.ts,
  text_le_trans c.event.ts a.event.ts b.event.ts,
  text_le_trans b.event.ts c.event.ts a.event.ts,
)

in_order_total : (a b : Joined) → in_order a b ≡ false → in_order b a ≡ true
unfolding in_order
in_order_total a b p = ground (arith, text_le_total a.event.ts b.event.ts)

-- A retained event pins every process of its pid.
abbrev Pins : Text → List EventRow → EventRow → Type 0
Pins before events e =
    (p : Process)
    → text_le before e.ts ≡ true
    → eqb e.pid p.pid ≡ true
    → is_pinned before events p ≡ true

Pins-cons :
    (before : Text) (x : EventRow) (events : List EventRow) (es : List EventRow)
    → All (Pins before events) es
    → All (Pins before (x ∷ events)) es
unfolding is_pinned
Pins-cons before x events [] h = tt
Pins-cons before x events (e ∷ es) h =
    (λ p late same. ground (arith, h.0 p late same), Pins-cons before x events es h.1)

events-Pins : (before : Text) (events : List EventRow) → All (Pins before events) events
unfolding is_pinned
events-Pins before [] = tt
events-Pins before (e ∷ events) =
    (λ p late same. ground arith, Pins-cons before e events events (events-Pins before events))

in_window-pid :
    (pid : ℕ) (ts : Text) (p : Process) → in_window pid ts p ≡ true → eqb pid p.pid ≡ true
unfolding in_window
in_window-pid pid ts p w = ground arith

is_writer-pid :
    (pid : ℕ) (start : Option Text) (p : Process)
    → is_writer pid start p ≡ true
    → eqb pid p.pid ≡ true
unfolding has_key
is_writer-pid pid none p w = cc
is_writer-pid pid (some s) p w = ground arith

module _ (before : Text) (t : Tables) (e : EventRow) (pins : Pins before t.events e)
    (late : text_le before e.ts ≡ true) where
  -- What asks for processes of the event's pid sees the same rows after the pruning.
  keep-pruned :
      (q : Process → Bool)
      → ((p : Process) → q p ≡ true → eqb e.pid p.pid ≡ true)
      → keep q (pruned before t).processes ≡ keep q t.processes
  unfolding pruned is_stale
  keep-pruned q h = keep-keep_implied q _ t.processes (λ p w. ground (arith, pins p late (h p w)))

  resolved_start-pruned : resolved_start (pruned before t) e ≡ resolved_start t e
  unfolding resolved_start newest_start
  resolved_start-pruned =
      let same : keep (in_window e.pid e.ts) (pruned before t).processes
          ≡ keep (in_window e.pid e.ts) t.processes =
        keep-pruned (in_window e.pid e.ts) (in_window-pid e.pid e.ts) in
      ground (arith, same)

  log_rows-pruned : log_rows (pruned before t) e ≡ log_rows t e
  unfolding log_rows
  log_rows-pruned =
      let start = resolved_start t e in
      rw (resolved_start-pruned, keep-pruned (is_writer e.pid start) (is_writer-pid e.pid start))

-- Each row of the join has the time of its event.
joined-ts :
    (e : EventRow) (start : Option Text) (ps : List Process)
    → All (λ j. j.event.ts ≡ e.ts) (left_join e start ps)
joined-ts e start [] = (refl, tt)
joined-ts e start (p ∷ ps) = (refl, rest ps)
  where
    rest :
        (qs : List Process)
        → All
            (λ (j : Joined). j.event.ts ≡ e.ts)
            (map (λ q. record { id = e.id; event = file_event e start (some q) }) qs)
    rest [] = tt
    rest (q ∷ qs) = (refl, rest qs)

abbrev is_late : Text → Joined → Bool
is_late before j = text_le before j.event.ts

module _ (before : Text) (t : Tables) where
  keep-log_rows :
      (e : EventRow)
      → keep (is_late before) (log_rows t e) ≡ (if text_le before e.ts then log_rows t e else [])
  unfolding log_rows
  keep-log_rows e =
      let ts =
        joined-ts e (resolved_start t e)
          (keep (is_writer e.pid (resolved_start t e)) t.processes) in
      elim (Bool-cases (text_le before e.ts)) [
        | inl late ↦ rw late (keep-true _ _ (All-map _ _ _ (λ j s. rw s late) ts))
        | inr old ↦ rw old (keep-false _ _ (All-map _ _ _ (λ j s. rw s old) ts))
      ]

  rows-pruned :
      (path : Text) (es : List EventRow)
      → All (Pins before t.events) es
      → flat_map
          (log_rows (pruned before t))
          (keep (λ e. text_eq e.path path) (keep (λ e. not (is_old before e)) es))
        ≡ keep (is_late before) (flat_map (log_rows t) (keep (λ e. text_eq e.path path) es))
  unfolding flat_map is_old
  rows-pruned path [] pins = refl
  rows-pruned path (e ∷ es) pins = elim (Bool-cases (text_le before e.ts)) [
    | inl late ↦ ground (
      arith,
      late,
      log_rows-pruned before t e pins.0 late,
      keep-append (is_late before) (log_rows t e)
          (flat_map (log_rows t) (keep (λ e. text_eq e.path path) es)),
      keep-log_rows e,
      rows-pruned path es pins.1,
    )
    | inr old ↦ ground (
      arith,
      old,
      keep-append (is_late before) (log_rows t e)
          (flat_map (log_rows t) (keep (λ e. text_eq e.path path) es)),
      keep-log_rows e,
      rows-pruned path es pins.1,
    )
  ]

  -- A prune removes from the history of a path exactly the events before the cutoff: what is left is
  -- the old answer without them, each event still with the writer, the names and the start that
  -- it had. No attribution that a retained event needs is lost.
  pub log_of-pruned :
      (path : Text)
      → log_of (pruned before t) path ≡ keep (λ e. text_le before e.ts) (log_of t path)
  unfolding log_of pruned
  log_of-pruned path =
      let rows = flat_map (log_rows t) (keep (λ e. text_eq e.path path) t.events) in
      ap (λ js. map (λ (j : Joined). j.event) (sort_by in_order js))
        (rows-pruned path t.events (events-Pins before t.events))
      ∙ ap (map (λ (j : Joined). j.event))
          (sym (keep-sort_by in_order in_order_trans in_order_total (is_late before) rows))
      ∙ sym (keep-map (λ e. text_le before e.ts) (λ (j : Joined). j.event) (sort_by in_order rows))
