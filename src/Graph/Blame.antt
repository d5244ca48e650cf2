-- ===== src/Graph/Blame.antt =====
-- `blame` of src/graph.rs behind `record_event_full`: the last row of the sorted join.
use mathlib.Core.List.{flat_map, get_last?, append-nil, append_assoc}
use whenfs.Prelude.{
  ℕ, ◌<◌, ◌≡◌, refl, sym, ap, ◌∙◌, Bool, true, Option, none, some, List, [], ◌∷◌, ◌++◌, map, arith,
  keep, keep-append, keep-All, All, All-append, le→leb,
}
use whenfs.Prelude.Text.{Text, text_eq, text_eq_iff, text_le}
use whenfs.Prelude.Member.{In, In-keep, here, there}
use whenfs.Prelude.Newest.{newest}
use whenfs.Prelude.Ends.{Ends, Ends-get_last?, sort_by-Ends}
use whenfs.Prelude.Sort.{sort_by}
use whenfs.Graph.Types.{FileEvent, Process, EventRow, Tables}
use whenfs.Graph.Sql.{ok, clean, ◌>>=◌, pure, select, statement}
use whenfs.Graph.{newest_start, record_event_full}
use whenfs.Graph.Keys.{next_id_above}
use whenfs.Graph.Queries.{
  Joined, file_event, is_writer, resolved_start, left_join, in_order, log_rows, log_of, joined_log,
  log_file, blame,
}
use whenfs.Graph.Binding.{Binding, row, with_event, record_event_full-Binding}

-- A process that an event of the pid with the start is joined with, or that there is none.
abbrev pub Joins : Tables → ℕ → Option Text → Option Process → Type 0
Joins t pid start none = keep (is_writer pid start) t.processes ≡ []
Joins t pid start (some p) = In p t.processes × (is_writer pid start p ≡ true)

module _ (t : Tables) (e : EventRow) (start : Option Text) where
  -- A row of the join for the event.
  abbrev IsRow : Joined → Type 0
  IsRow j =
      (j.id ≡ e.id)
      × ((o : Option Process) × Joins t e.pid start o × (j.event ≡ file_event e start o))

  rows-IsRow :
      (ps : List Process)
      → All (λ p. In p t.processes × (is_writer e.pid start p ≡ true)) ps
      → All IsRow (map (λ q. record { id = e.id; event = file_event e start (some q) }) ps)
  rows-IsRow [] h = tt
  rows-IsRow (p ∷ ps) h = ((refl, (some p, h.0, refl)), rows-IsRow ps h.1)

  left_join-IsRow :
      (ps : List Process)
      → keep (is_writer e.pid start) t.processes ≡ ps
      → All (λ p. In p t.processes × (is_writer e.pid start p ≡ true)) ps
      → All IsRow (left_join e start ps)
  left_join-IsRow [] same h = ((refl, (none, same, refl)), tt)
  left_join-IsRow (p ∷ ps) same h = rows-IsRow (p ∷ ps) h

  In-All : (P : Process → Type 0) (ps : List Process) → ((p : Process) → In p ps → P p) → All P ps
  In-All P [] h = tt
  In-All P (p ∷ ps) h = (h p here, In-All P ps (λ q i. h q (there i)))

  joined-IsRow : All IsRow (left_join e start (keep (is_writer e.pid start) t.processes))
  joined-IsRow = left_join-IsRow (keep (is_writer e.pid start) t.processes) refl (
      In-All _ (keep (is_writer e.pid start) t.processes)
        (λ p i. In-keep (is_writer e.pid start) p t.processes i))

module _ (P : Joined → Type 0) where
  map-All :
      (e : EventRow) (start : Option Text) (ps : List Process)
      → ((o : Option Process) → P (record { id = e.id; event = file_event e start o }))
      → All P (map (λ q. record { id = e.id; event = file_event e start (some q) }) ps)
  map-All e start [] h = tt
  map-All e start (p ∷ ps) h = (h (some p), map-All e start ps h)

  left_join-All :
      (e : EventRow) (start : Option Text) (ps : List Process)
      → ((o : Option Process) → P (record { id = e.id; event = file_event e start o }))
      → All P (left_join e start ps)
  left_join-All e start [] h = (h none, tt)
  left_join-All e start (p ∷ ps) h = map-All e start (p ∷ ps) h

  flat_map-All :
      (f : EventRow → List Joined) (es : List EventRow)
      → All (λ e. All P (f e)) es
      → All P (flat_map f es)
  unfolding flat_map
  flat_map-All f [] h = tt
  flat_map-All f (e ∷ es) h = All-append P (f e) (flat_map f es) h.0 (flat_map-All f es h.1)

flat_map-snoc :
    (f : EventRow → List Joined) (es : List EventRow) (e : EventRow)
    → flat_map f (es ++ e ∷ []) ≡ flat_map f es ++ f e
unfolding flat_map
flat_map-snoc f [] e = append-nil (f e)
flat_map-snoc f (x ∷ es) e =
    ap (λ r. f x ++ r) (flat_map-snoc f es e) ∙ sym (append_assoc (f x) (flat_map f es) (f e))

get_last?-map :
    (l : List Joined) (x : Joined)
    → get_last? l ≡ some x
    → get_last? (map (λ j. j.event) l) ≡ some x.event
get_last?-map [] x e = absurd (ground (arith, e))
get_last?-map (y ∷ []) x e = ground (arith, e)
get_last?-map (y ∷ z ∷ l) x e = get_last?-map (z ∷ l) x e

-- The time and the id of a row of the join.
file_event-ts :
    (e : EventRow) (start : Option Text) (o : Option Process) → (file_event e start o).ts ≡ e.ts
file_event-ts e start none = refl
file_event-ts e start (some p) = refl

module _ (t : Tables) (e : EventRow) (start : Option Text) where
  IsBelow : Joined → Type 0
  IsBelow j = (b : Joined) → IsRow t e start b → in_order j b ≡ true

  event-IsBelow :
      (f : EventRow) (s : Option Text)
      → f.id < e.id
      → text_le f.ts e.ts ≡ true
      → (o : Option Process) → IsBelow (record { id = f.id; event = file_event f s o })
  unfolding IsBelow in_order
  event-IsBelow f s older before o b (id, (q, _, is)) =
      let late : b.event.ts ≡ e.ts = ap (λ (v : FileEvent). v.ts) is ∙ file_event-ts e start q in
      rw (late, file_event-ts f s o, before, id, le→leb f.id e.id (omega arith)) (ground arith)

  joined-Ends :
      (pre : List Joined) (ps : List Process)
      → All IsBelow pre
      → All (IsRow t e start) (left_join e start ps)
      → Ends (IsRow t e start) (sort_by in_order (pre ++ left_join e start ps))
  unfolding IsBelow
  joined-Ends pre [] below rows = sort_by-Ends (IsRow t e start) in_order pre _ [] below rows
  joined-Ends pre (p ∷ ps) below rows = sort_by-Ends (IsRow t e start) in_order pre _ _ below rows

module _ (t : Tables) (path : Text) (e : EventRow) (start : Option Text) where
  -- The earlier rows stand below the rows of the event.
  earlier-IsBelow :
      (es : List EventRow)
      → All (λ f. f.id < e.id) es
      → All (λ f. text_le f.ts e.ts ≡ true) es
      → All (λ f. All (IsBelow t e start) (log_rows t f)) es
  unfolding log_rows
  earlier-IsBelow [] ids times = tt
  earlier-IsBelow (f ∷ es) ids times = (
    left_join-All (IsBelow t e start) f (resolved_start t f)
        (keep (is_writer f.pid (resolved_start t f)) t.processes)
        (event-IsBelow t e start f (resolved_start t f) ids.0 times.0),
    earlier-IsBelow es ids.1 times.1,
  )

  log_of-snoc :
      (es : List EventRow)
      → t.events ≡ es ++ e ∷ []
      → text_eq e.path path ≡ true
      → resolved_start t e ≡ start
      → All (λ f. f.id < e.id) es
      → All (λ f. text_le f.ts e.ts ≡ true) es
      → (o : Option Process) × Joins t e.pid start o
        × (get_last? (log_of t path) ≡ some (file_event e start o))
  unfolding log_of joined_log log_rows
  log_of-snoc es events named resolved ids times =
      let at : EventRow → Bool = λ f. text_eq f.path path in
      let pre = flat_map (log_rows t) (keep at es) in
      let ends =
        joined-Ends t e start pre (keep (is_writer e.pid start) t.processes)
          (flat_map-All (IsBelow t e start) (log_rows t) (keep at es)
            (keep-All _ at es (earlier-IsBelow es ids times)))
          (joined-IsRow t e start) in
      let (j, last, (_, (o, joins, is))) =
        Ends-get_last? (IsRow t e start)
          (sort_by in_order (pre ++ left_join e start (keep (is_writer e.pid start) t.processes)))
          ends in
      let kept : keep at t.events ≡ keep at es ++ e ∷ [] =
        ap (keep at) events ∙ keep-append at es (e ∷ []) ∙ rw named refl in
      let rows : flat_map (log_rows t) (keep at t.events)
          ≡ pre ++ left_join e start (keep (is_writer e.pid start) t.processes) =
        ap (flat_map (log_rows t)) kept
        ∙ flat_map-snoc (log_rows t) (keep at es) e
        ∙ rw resolved refl in
      (
        o,
        joins,
        rw rows (
            get_last?-map
              (sort_by in_order
                (pre ++ left_join e start (keep (is_writer e.pid start) t.processes)))
              j last
            ∙ ap some is),
      )

resolved_start-row :
    (t : Tables) (now path op : Text) (pid : ℕ) (other start : Option Text)
    → Binding t pid now start
    → let e = row t now path op pid start other in resolved_start (with_event t e) e ≡ start
unfolding resolved_start newest_start newest
resolved_start-row t now path op pid other none (empty, _) = rw empty refl
resolved_start-row t now path op pid other (some s) b = refl

-- If no earlier event has a later time, then behind `record_event_full` blame answers with that event,
-- bound to the newest incarnation of its pid that was alive at the time, or, if none was, had started by
-- then; with the names of that incarnation. No statement fails.
pub blame-record_event_full :
    (t : Tables) (now path op : Text) (pid : ℕ) (other : Option Text)
    → All (λ e. text_le e.ts now ≡ true) t.events
    → (start : Option Text) × Binding t pid now start
      × (let g = clean (with_event t (row t now path op pid start other)) in
          (record_event_full now path op pid other (clean t) ≡ (ok tt, g))
          × (o : Option Process) × Joins t pid start o
          × ((blame path g).0 ≡ ok (some (file_event (row t now path op pid start other) start o))))
unfolding blame log_file select statement ◌>>=◌ pure
blame-record_event_full t now path op pid other times =
    let (start, binding, recorded) = record_event_full-Binding t now path op pid other in
    let e = row t now path op pid start other in
    let (o, joins, answer) =
      log_of-snoc (with_event t e) path e start t.events refl
        (ground (arith, text_eq_iff path path))
        (resolved_start-row t now path op pid other start binding) (next_id_above t.events) times in
    (start, binding, (recorded, o, joins, rw answer refl))
