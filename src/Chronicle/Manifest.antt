-- ===== src/Chronicle/Manifest.antt =====
-- The manifest of `cmd_trace` of src/bin/chronicle.rs against what it is to say of the events: each path
-- once, its kinds of event once each, and its first writer.
use mathlib.Core.List.{append-nil, append_assoc}
use whenfs.Prelude.{
  ◌≡◌, refl, ap, ◌∙◌, false, not, Option, none, some, List, [], ◌∷◌, ◌++◌, map, arith,
  if◌then◌else◌, any, keep, keep-append, Bool-cases, inl, inr, is_some,
}
use whenfs.Prelude.Text.{Text, text_eq, text_eq_iff, text_key}
use whenfs.HashMap
use whenfs.HashMap.{HashMap, get-insert}
use whenfs.Graph.Types.{FileEvent}
use whenfs.Chronicle.{who}
use whenfs.Chronicle.Trace.{Manifest, nothing, add_op, with_op, with_writer, group}

-- The words in the order of their first occurrence, each once.
unfoldable pub distinct : List Text → List Text
distinct [] = []
distinct (x ∷ xs) = x ∷ keep (λ y. not (text_eq x y)) (distinct xs)

abbrev pub path_of : FileEvent → Text
path_of e = e.path

abbrev pub op_of : FileEvent → Text
op_of e = e.op

-- The events of one path.
abbrev pub at_path : Text → List FileEvent → List FileEvent
at_path p = keep (λ e. text_eq p e.path)

-- The kinds of event of the path, or nothing if it has no event.
abbrev pub kinds_of : List FileEvent → Option (List Text)
kinds_of [] = none
kinds_of (e ∷ events) = some (distinct (map op_of (e ∷ events)))

abbrev pub first_writer : List FileEvent → Option Text
first_writer [] = none
first_writer (e ∷ events) = some (who e)

any-keep :
    (x y : Text) (xs : List Text)
    → any (text_eq y) (keep (λ z. not (text_eq x z)) xs)
      ≡ (if text_eq x y then false else any (text_eq y) xs)
any-keep x y [] = ground arith
any-keep x y (z ∷ xs) =
    ground (arith, any-keep x y xs, text_eq_iff x y, text_eq_iff x z, text_eq_iff y z)

any-distinct : (y : Text) (xs : List Text) → any (text_eq y) (distinct xs) ≡ any (text_eq y) xs
unfolding distinct
any-distinct y [] = refl
any-distinct y (x ∷ xs) =
    ground (arith, any-distinct y xs, any-keep x y (distinct xs), text_eq_iff x y, text_eq_iff y x)

text_eq-swap : (a b : Text) → text_eq a b ≡ text_eq b a
text_eq-swap a b = ground (arith, text_eq_iff a b, text_eq_iff b a)

keep-add_op :
    (x y : Text) (xs : List Text)
    → x ∷ keep (λ z. not (text_eq x z)) (add_op y xs)
      ≡ add_op y (x ∷ keep (λ z. not (text_eq x z)) xs)
keep-add_op x y xs = elim (Bool-cases (any (text_eq y) xs)) [
  | inl there ↦ rw there (ground (arith, there, any-keep x y xs, text_eq_iff x y, text_eq_iff y x))
  | inr missing ↦
      rw (missing, text_eq-swap y x, keep-append (λ (z : Text). not (text_eq x z)) xs (y ∷ []))
        (elim (Bool-cases (text_eq x y)) [
          | inl same ↦ rw (same, append-nil (keep (λ (z : Text). not (text_eq x z)) xs)) refl
          | inr other ↦ rw (other, any-keep x y xs, other, missing) refl
        ])
]

distinct-snoc : (y : Text) (xs : List Text) → distinct (xs ++ y ∷ []) ≡ add_op y (distinct xs)
unfolding distinct
distinct-snoc y [] = refl
distinct-snoc y (x ∷ xs) = rw (distinct-snoc y xs) (keep-add_op x y (distinct xs))

-- What the manifest is to say of the events.
pub record Says (events : List FileEvent) (m : Manifest) : Type 0 where
  pub order : m.order ≡ distinct (map path_of events)
  pub ops : (p : Text) → HashMap.get p m.ops ≡ kinds_of (at_path p events)
  pub by : (p : Text) → HashMap.get p m.by ≡ first_writer (at_path p events)

at_path-snoc :
    (p : Text) (events : List FileEvent) (e : FileEvent)
    → at_path p (events ++ e ∷ [])
      ≡ (if text_eq p e.path then at_path p events ++ e ∷ [] else at_path p events)
at_path-snoc p [] e = refl
at_path-snoc p (f ∷ events) e = ground (arith, at_path-snoc p events e)

map-snoc :
    (f : FileEvent → Text) (events : List FileEvent) (e : FileEvent)
    → map f (events ++ e ∷ []) ≡ map f events ++ f e ∷ []
map-snoc f [] e = refl
map-snoc f (x ∷ events) e = ap (λ ys. f x ∷ ys) (map-snoc f events e)

abbrev grown : Text → Option (List Text) → Option (List Text)
grown op none = some (op ∷ [])
grown op (some entry) = some (add_op op entry)

abbrev or_writer : Text → Option Text → Option Text
or_writer w none = some w
or_writer w (some v) = some v

kinds_of-snoc :
    (events : List FileEvent) (e : FileEvent)
    → kinds_of (events ++ e ∷ []) ≡ grown e.op (kinds_of events)
unfolding distinct
kinds_of-snoc [] e = refl
kinds_of-snoc (f ∷ events) e =
    ap some
      (ap distinct (map-snoc op_of (f ∷ events) e) ∙ distinct-snoc e.op (map op_of (f ∷ events)))

first_writer-snoc :
    (events : List FileEvent) (e : FileEvent)
    → first_writer (events ++ e ∷ []) ≡ or_writer (who e) (first_writer events)
first_writer-snoc [] e = refl
first_writer-snoc (f ∷ events) e = refl

-- A path has kinds exactly if it stands in the order.
kinds_of-distinct :
    (p : Text) (events : List FileEvent)
    → is_some (kinds_of (at_path p events)) ≡ any (text_eq p) (map path_of events)
kinds_of-distinct p [] = refl
kinds_of-distinct p (e ∷ events) = ground (arith, kinds_of-distinct p events)

with_op-ops :
    (e : FileEvent) (m : Manifest) (o : Option (List Text)) (p : Text)
    → HashMap.get p (with_op e m o).ops
      ≡ (if text_eq e.path p then grown e.op o else HashMap.get p m.ops)
with_op-ops e m none p = get-insert e.path p (e.op ∷ []) m.ops
with_op-ops e m (some entry) p = get-insert e.path p (add_op e.op entry) m.ops

with_op-order :
    (e : FileEvent) (m : Manifest) (o : Option (List Text))
    → (with_op e m o).order ≡ (if is_some o then m.order else m.order ++ e.path ∷ [])
with_op-order e m none = refl
with_op-order e m (some entry) = refl

with_op-by : (e : FileEvent) (m : Manifest) (o : Option (List Text)) → (with_op e m o).by ≡ m.by
with_op-by e m none = refl
with_op-by e m (some entry) = refl

with_writer-by :
    (e : FileEvent) (m : Manifest) (p : Text)
    → HashMap.get p (with_writer e m).by ≡ (
        if text_eq e.path p
        then or_writer (who e) (HashMap.get e.path m.by)
        else HashMap.get p m.by)
with_writer-by e m p = ground (arith, get-insert e.path p (who e) m.by, text_eq_iff e.path p)

with_writer-rest :
    (e : FileEvent) (m : Manifest)
    → ((with_writer e m).order ≡ m.order) × ((with_writer e m).ops ≡ m.ops)
with_writer-rest e m = ground arith

module _ (events : List FileEvent) (e : FileEvent) (m : Manifest) (says : Says events m) where
  abbrev old : Option (List Text)
  old = kinds_of (at_path e.path events)

  order_with : (with_op e m old).order ≡ distinct (map path_of (events ++ e ∷ []))
  order_with =
      with_op-order e m old
      ∙ rw
          (
            kinds_of-distinct e.path events,
            says.order,
            map-snoc path_of events e,
            distinct-snoc e.path (map path_of events),
            any-distinct e.path (map path_of events),
          )
          refl

  kinds_with :
      (p : Text) → HashMap.get p (with_op e m old).ops ≡ kinds_of (at_path p (events ++ e ∷ []))
  kinds_with p =
      with_op-ops e m old p
      ∙ rw (at_path-snoc p events e, text_eq-swap p e.path)
          (elim (Bool-cases (text_eq e.path p)) [
            | inl here ↦
                let same : e.path ≡ p = ground (arith, text_eq_iff e.path p, here) in
                rw (here, kinds_of-snoc (at_path p events) e)
                  (ap (λ q. grown e.op (kinds_of (at_path q events))) same)
            | inr other ↦ rw other (says.ops p)
          ])

  writer_with :
      (k : Manifest) (p : Text)
      → k.by ≡ m.by
      → HashMap.get p (with_writer e k).by ≡ first_writer (at_path p (events ++ e ∷ []))
  writer_with k p by =
      with_writer-by e k p
      ∙ rw (by, at_path-snoc p events e, text_eq-swap p e.path)
          (elim (Bool-cases (text_eq e.path p)) [
            | inl here ↦
                let same : e.path ≡ p = ground (arith, text_eq_iff e.path p, here) in
                rw (here, says.by e.path, first_writer-snoc (at_path p events) e)
                  (ap (λ q. or_writer (who e) (first_writer (at_path q events))) same)
            | inr other ↦ rw other (says.by p)
          ])

  with-Says : Says (events ++ e ∷ []) (with_writer e (with_op e m (HashMap.get e.path m.ops)))
  with-Says = rw (says.ops e.path) (record {
    order = (with_writer-rest e (with_op e m old)).0 ∙ order_with;
    ops = λ p. ap (HashMap.get p) (with_writer-rest e (with_op e m old)).1 ∙ kinds_with p;
    by = λ p. writer_with (with_op e m old) p (with_op-by e m old);
  })

group-Says_from :
    (rest events : List FileEvent) (m : Manifest)
    → Says events m
    → Says (events ++ rest) (group rest m)
unfolding group
group-Says_from [] events m says = rw (append-nil events) says
group-Says_from (e ∷ rest) events m says =
    rw (← append_assoc events (e ∷ []) rest)
      (group-Says_from rest (events ++ e ∷ []) _ (with-Says events e m says))

nothing-Says : Says [] nothing
unfolding distinct HashMap.get
nothing-Says = record { order = refl; ops = λ p. refl; by = λ p. refl }

-- The manifest lists each path at which an event stands, once and in the order of the first events; for
-- each such path it has the kinds of its events, once each and in the order of their first events, and
-- the writer of its first event; and it has nothing for another path. The other end of a rename does
-- not count as the event's path: a path that is nothing else is left out.
pub group-Says : (events : List FileEvent) → Says events (group events nothing)
group-Says events = group-Says_from events [] nothing nothing-Says
