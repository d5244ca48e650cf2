-- ===== src/Revert/Touches.antt =====
-- The touch loop of `plan` in src/revert.rs against a description of what it collects.
use mathlib.Core.Logic.Or
use mathlib.Core.List.Perm
use mathlib.Core.List.{
  perm_append_singleton, Mem, Nodup, Nodup-cons, Nodup-nil, mem-cons, not-mem-nil,
}
use whenfs.Prelude.{
  ◌≡◌, refl, Bool, true, false, ◌||◌, Option, none, some, List, [], ◌∷◌, ◌++◌, arith, if◌then◌else◌,
  is_some, ◌∙◌, ap, inl, inr, Bool-cases,
}
use whenfs.Prelude.Text.{Text, text_eq, text_eq_iff, text_key}
use whenfs.Prelude.Newest.{elem}
use whenfs.HashMap
use whenfs.HashMap.{get-insert}
use whenfs.Graph.Types.{FileEvent}
use whenfs.Revert.{Touched, touch, touch_other, touch_event, touch_all, untouched}

-- The path is one end of the event.
unfoldable pub touches : FileEvent → Text → Bool
touches e p = text_eq e.path p || elim e.other_path [ none ↦ false | some o ↦ text_eq o p ]

-- The time of the first event that names the path at either end.
unfoldable pub first_touch : List FileEvent → Text → Option Text
unfolding touches
first_touch [] p = none
first_touch (e ∷ events) p = if touches e p then some e.ts else first_touch events p

abbrev or_else : Option Text → Option Text → Option Text
or_else (some v) o = some v
or_else none o = o

module _ (p j ts : Text) (t : Touched) where
  first_ts-touch :
      HashMap.get j (touch p ts t).first_ts
      ≡ or_else (HashMap.get j t.first_ts) (if text_eq p j then some ts else none)
  unfolding touch
  first_ts-touch = ground (arith, text_eq_iff p j, get-insert p j ts t.first_ts)

abbrev names : Option Text → Text → Bool
names none p = false
names (some o) p = text_eq o p

module _ (j ts : Text) where
  first_ts-touch_other :
      (o : Option Text) (t : Touched)
      → HashMap.get j (touch_other o ts t).first_ts
        ≡ or_else (HashMap.get j t.first_ts) (if names o j then some ts else none)
  unfolding touch_other
  first_ts-touch_other none t = ground arith
  first_ts-touch_other (some o) t = first_ts-touch o j ts t

module _ (j : Text) where
  first_ts-touch_event :
      (e : FileEvent) (t : Touched)
      → HashMap.get j (touch_event e t).first_ts
        ≡ or_else (HashMap.get j t.first_ts) (if touches e j then some e.ts else none)
  unfolding touch_event touches
  first_ts-touch_event e t = ground (
    arith,
    first_ts-touch_other j e.ts e.other_path (touch e.path e.ts t),
    first_ts-touch e.path j e.ts t,
  )

  first_ts-touch_all :
      (events : List FileEvent) (t : Touched)
      → HashMap.get j (touch_all events t).first_ts
        ≡ or_else (HashMap.get j t.first_ts) (first_touch events j)
  unfolding touch_all first_touch
  first_ts-touch_all [] t = ground arith
  first_ts-touch_all (e ∷ events) t =
      ground (arith, first_ts-touch_all events (touch_event e t), first_ts-touch_event e t)

elem-append : (p q : Text) (l : List Text) → elem p (l ++ q ∷ []) ≡ (elem p l || text_eq q p)
elem-append p q [] = ground arith
elem-append p q (x ∷ l) = ground (arith, elem-append p q l)

elem_of_mem : (p : Text) (l : List Text) → Mem p l → elem p l ≡ true
elem_of_mem p [] m = absurd (not-mem-nil m)
elem_of_mem p (x ∷ l) m =
    Or.elim (hlevel) (mem-cons.0 m) (λ e. ground (arith, text_eq_iff x p, e))
      (λ r. ground (arith, elem_of_mem p l r))

Nodup-append_new : (l : List Text) (q : Text) → Nodup l → elem q l ≡ false → Nodup (l ++ q ∷ [])
Nodup-append_new l q n h =
    Perm.nodup (Perm.symm (perm_append_singleton q l))
      (Nodup-cons.1 (λ m. ground (arith, elem_of_mem q l m), n))

-- The order lists exactly the keys of the map, each once.
record IsTracked (t : Touched) : Type 0 where
  listed : (p : Text) → elem p t.order ≡ is_some (HashMap.get p t.first_ts)
  once : Nodup t.order

touch-IsTracked : (q ts : Text) (t : Touched) → IsTracked t → IsTracked (touch q ts t)
unfolding touch
touch-IsTracked q ts t v = elim (Bool-cases (HashMap.contains_key q t.first_ts)) [
  | inl old ↦ rw old v
  | inr new ↦ rw new (record {
    listed = λ p.
        ground (
          arith,
          elem-append p q t.order,
          get-insert q p ts t.first_ts,
          v.listed p,
          text_eq_iff q p,
        );
    once = Nodup-append_new t.order q v.once (ground (arith, v.listed q));
  })
]

touch_other-IsTracked :
    (o : Option Text) (ts : Text) (t : Touched) → IsTracked t → IsTracked (touch_other o ts t)
unfolding touch_other
touch_other-IsTracked none ts t v = v
touch_other-IsTracked (some o) ts t v = touch-IsTracked o ts t v

touch_all-IsTracked :
    (events : List FileEvent) (t : Touched) → IsTracked t → IsTracked (touch_all events t)
unfolding touch_all touch_event
touch_all-IsTracked [] t v = v
touch_all-IsTracked (e ∷ events) t v =
    touch_all-IsTracked events _
      (touch_other-IsTracked e.other_path e.ts _ (touch-IsTracked e.path e.ts t v))

IsTracked-untouched : IsTracked untouched
unfolding HashMap.get
IsTracked-untouched = record { listed = λ p. refl; once = Nodup-nil }

-- The map holds, for every path that some event names at either end, the time of the first such
-- event, and nothing else; the order lists exactly those paths, each once.
pub touch_all_lem :
    (events : List FileEvent)
    → let t = touch_all events untouched in
      ((p : Text) → HashMap.get p t.first_ts ≡ first_touch events p)
      × ((p : Text) → elem p t.order ≡ is_some (first_touch events p))
      × Nodup t.order
unfolding HashMap.get
touch_all_lem events =
    let v = touch_all-IsTracked events untouched IsTracked-untouched in
    (λ p. found p, λ p. v.listed p ∙ ap is_some (found p), v.once)
  where
    found : (p : Text) → HashMap.get p (touch_all events untouched).first_ts ≡ first_touch events p
    found p = first_ts-touch_all p events untouched
