-- ===== src/Graph/Binding.antt =====
-- `record_event_full` of src/graph.rs: which incarnation of its pid an event is bound to.
use whenfs.Prelude.{ℕ, ◌≡◌, refl, inl, inr, ◌⊎◌, Option, none, some, List, [], ◌∷◌, ◌++◌, keep}
use whenfs.Prelude.Text.{Text}
use whenfs.Prelude.Newest.{IsMax, newest-cases}
use whenfs.Graph.Types.{Process, EventRow, Tables}
use whenfs.Graph.Sql.{ok, clean, ◌>>=◌, pure, statement, select}
use whenfs.Graph.{
  in_window, started, starts, newest_start, query_row, or_query, insert_event, next_id,
  record_event_full,
}

-- The incarnations of `pid` alive at `now`, and those that had started by then.
abbrev pub alive_at : Tables → ℕ → Text → List Process
alive_at t pid now = keep (in_window pid now) t.processes

abbrev pub started_by : Tables → ℕ → Text → List Process
started_by t pid now = keep (started pid now) t.processes

-- What an event of `pid` at `now` is to be bound to.
abbrev pub Binding : Tables → ℕ → Text → Option Text → Type 0
Binding t pid now none = (starts (alive_at t pid now) ≡ []) × (starts (started_by t pid now) ≡ [])
Binding t pid now (some s) =
    IsMax (starts (alive_at t pid now)) s
    ⊎ ((starts (alive_at t pid now) ≡ []) × IsMax (starts (started_by t pid now)) s)

abbrev pub row : Tables → Text → Text → Text → ℕ → Option Text → Option Text → EventRow
row t now path op pid start other = record {
  id = next_id t.events;
  ts = now;
  path = path;
  op = op;
  pid = pid;
  proc_start = start;
  other_path = other;
}

abbrev pub with_event : Tables → EventRow → Tables
with_event t e = record t { events = t.events ++ e ∷ [] }

-- An event is recorded once, after the others and with nothing else changed, bound to the newest
-- incarnation of its pid that was alive at the time; only if none was, to the newest that had
-- started by then; and to none only if the table has no incarnation that had. No statement fails.
pub record_event_full-Binding :
    (t : Tables) (now path op : Text) (pid : ℕ) (other : Option Text)
    → (start : Option Text) × Binding t pid now start
      × (record_event_full now path op pid other (clean t)
          ≡ (ok tt, clean (with_event t (row t now path op pid start other))))
unfolding record_event_full query_row or_query newest_start statement select pure ◌>>=◌ insert_event
record_event_full-Binding t now path op pid other =
    elim (newest-cases (starts (alive_at t pid now))) [
      | inr (s, e, m) ↦ (some s, inl m, rw e refl)
      | inl (e, empty) ↦ elim (newest-cases (starts (started_by t pid now))) [
        | inr (s, f, m) ↦ (some s, inr (empty, m), rw e (rw f refl))
        | inl (f, none_started) ↦ (none, (empty, none_started), rw e (rw f refl))
      ]
    ]
