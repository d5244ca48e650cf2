-- ===== src/Graph/Lineage.antt =====
-- `ancestry` and `descendants` of src/graph.rs: which rows the recursive queries reach.
use mathlib.Core.List.{flat_map}
use whenfs.Prelude.{ℕ, zero, suc, ◌≡◌, inl, inr, ◌↔◌, Bool, true, List, keep, arith}
use whenfs.Prelude.Member.{
  In, In-append_cases, In-append_left, In-append_right, In-keep, keep-In, In-flat_map, flat_map-In,
}
use whenfs.Prelude.Text.{Text, text_le, text_eq_iff, text_le_refl, text_le_trans}
use whenfs.Graph.Types.{Process, Tables, has_key}
use whenfs.Graph.Queries.{levels, is_parent_of, is_child_of, lineage, tree}

-- At most so many links from one row of a table to another.
pub data Line (link : Process → Process → Bool) (l : List Process)
    : ℕ → Process → Process → Type 0 where
  stop : {n : ℕ} {p : Process} → Line link l n p p
  step :
      {n : ℕ} {p q r : Process}
      → link p q ≡ true
      → In q l
      → Line link l n q r
      → Line link l (suc n) p r

module _ (link : Process → Process → Bool) (l : List Process) where
  abbrev next : Process → List Process
  next c = keep (link c) l

  levels-Line :
      (n : ℕ) (x : Process) (rows : List Process)
      → In x (levels n next rows)
      → (r : Process) × In r rows × Line link l n r x
  unfolding levels
  levels-Line zero x rows i = (x, i, stop)
  levels-Line (suc n) x rows i =
      elim (In-append_cases x rows (levels n next (flat_map next rows)) i) [
        | inl a ↦ (x, a, stop)
        | inr b ↦
            let (q, j, way) = levels-Line n x (flat_map next rows) b in
            let (p, k, m) = In-flat_map next q rows j in
            let (there_q, linked) = In-keep (link p) q l m in (p, k, step linked there_q way)
      ]

  Line-levels :
      (n : ℕ) (r x : Process) (rows : List Process)
      → Line link l n r x
      → In r rows
      → In x (levels n next rows)
  unfolding levels
  Line-levels zero r x rows stop i = i
  Line-levels (suc n) r x rows stop i = In-append_left r rows (levels n next (flat_map next rows)) i
  Line-levels (suc n) r x rows (step {q = q} linked j way) i =
      In-append_right x rows (levels n next (flat_map next rows)) (
        Line-levels n q x (flat_map next rows) way
          (flat_map-In next q r rows i (keep-In (link r) q l j linked)))

-- A row of the table that has the key.
abbrev pub IsSeed : Tables → ℕ → Text → Process → Type 0
IsSeed t pid start r = In r t.processes × (has_key pid start r ≡ true)

module _ (t : Tables) (pid : ℕ) (start : Text) (x : Process) where
  -- A row is in the tree of a process exactly when at most 256 links `ppid = pid` lead to it from the
  -- row of that process. The times of the rows do not matter: the children of every incarnation of a
  -- pid are in the tree of each of them.
  pub tree-Line :
      In x (tree t pid start)
      ↔ ((r : Process) × IsSeed t pid start r × Line is_child_of t.processes 256 r x)
  unfolding tree
  tree-Line = (
    λ i.
        let (r, a, way) = levels-Line is_child_of t.processes 256 x _ i in
        (r, In-keep (has_key pid start) r t.processes a, way),
    λ h.
        let (r, (a, b), way) = h in
        Line-levels is_child_of t.processes 256 r x _ way
          (keep-In (has_key pid start) r t.processes a b),
  )

  -- A row is in the ancestry of a process exactly when at most 64 links lead to it from the row of
  -- that process, each from a child to the incarnation of its parent whose lifetime holds the child's
  -- birth.
  pub lineage-Line :
      In x (lineage t pid start)
      ↔ ((r : Process) × IsSeed t pid start r × Line is_parent_of t.processes 64 r x)
  unfolding lineage
  lineage-Line = (
    λ i.
        let (r, a, way) = levels-Line is_parent_of t.processes 64 x _ i in
        (r, In-keep (has_key pid start) r t.processes a, way),
    λ h.
        let (r, (a, b), way) = h in
        Line-levels is_parent_of t.processes 64 r x _ way
          (keep-In (has_key pid start) r t.processes a b),
  )

Line-before :
    (l : List Process) (n : ℕ) (r x : Process)
    → Line is_parent_of l n r x
    → text_le x.start_ts r.start_ts ≡ true
unfolding is_parent_of
Line-before l n r x stop = text_le_refl r.start_ts
Line-before l (suc n) r x (step {q = q} linked i way) =
    ground (arith, Line-before l n q x way, text_le_trans x.start_ts q.start_ts r.start_ts)

-- Nothing in the ancestry of a process started after it did.
pub lineage-before :
    (t : Tables) (pid : ℕ) (start : Text) (x : Process)
    → In x (lineage t pid start)
    → text_le x.start_ts start ≡ true
unfolding has_key
lineage-before t pid start x i =
    let (r, (a, b), way) = (lineage-Line t pid start x).0 i in
    ground (arith, Line-before t.processes 64 r x way, text_eq_iff r.start_ts start)
