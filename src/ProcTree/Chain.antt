-- ===== src/ProcTree/Chain.antt =====
-- `unpersisted_chain` of src/proctree.rs: the shape of the chain, and why the climb stops.
use whenfs.Prelude.{
  ℕ, zero, suc, ◌+◌, ◌≤◌, ◌≡◌, refl, ◌≢◌, ◌⊎◌, inl, inr, true, false, Option, none, some, List, [],
  ◌∷◌, arith, eqb, nat_key, length, Option-cases, Bool-cases,
}
use whenfs.HashMap
use whenfs.HashMap.{HashMap}
use whenfs.ProcTree.{ProcTree, ProcNode, max_chain, chain_loop, unpersisted_chain}

abbrev pub Procs : Type 0
Procs = HashMap ℕ ProcNode

-- `b` is the recorded parent of the first entry.
abbrev pub IsParent : ℕ → List (ℕ × ProcNode) → Type 0
IsParent a [] = Unit
IsParent a ((b, m) ∷ _) = (m.ppid ≡ some a) × (a ≢ b)

-- Each entry is an unpersisted node of the table and the parent of the next one.
abbrev pub IsLinked : Procs → List (ℕ × ProcNode) → Type 0
IsLinked procs [] = Unit
IsLinked procs ((a, n) ∷ rest) =
    (HashMap.get a procs ≡ some n) × (n.persisted ≡ false) × IsParent a rest × IsLinked procs rest

-- A pid past which there is nothing to store: unknown, or stored already.
abbrev pub IsStored : Procs → ℕ → Type 0
IsStored procs p =
    (HashMap.get p procs ≡ none)
    ⊎ ((m : ProcNode) × (HashMap.get p procs ≡ some m) × (m.persisted ≡ true))

-- The first entry has no parent to climb to.
abbrev pub IsTop : Procs → List (ℕ × ProcNode) → Type 0
IsTop procs [] = Unit
IsTop procs ((a, n) ∷ _) =
    (n.ppid ≡ none) ⊎ (n.ppid ≡ some a) ⊎ ((p : ℕ) × (n.ppid ≡ some p) × IsStored procs p)

-- The last entry is that of the pid asked for.
abbrev pub EndsAt : ℕ → List (ℕ × ProcNode) → Type 0
EndsAt pid [] = ⊥
EndsAt pid ((a, n) ∷ []) = a ≡ pid
EndsAt pid (_ ∷ e ∷ rest) = EndsAt pid (e ∷ rest)

-- What one round of the loop does.
data Round (rounds : ℕ) (procs : Procs) (cur : ℕ) (chain : List (ℕ × ProcNode)) : Type 0 where
  stop :
      IsStored procs cur
      → chain_loop (suc rounds) procs cur chain ≡ chain
      → Round rounds procs cur chain
  top :
      (n : ProcNode)
      → HashMap.get cur procs ≡ some n
      → n.persisted ≡ false
      → (n.ppid ≡ none) ⊎ (n.ppid ≡ some cur)
      → chain_loop (suc rounds) procs cur chain ≡ (cur, n) ∷ chain
      → Round rounds procs cur chain
  climb :
      (n : ProcNode) (p : ℕ)
      → HashMap.get cur procs ≡ some n
      → n.persisted ≡ false
      → n.ppid ≡ some p
      → p ≢ cur
      → chain_loop (suc rounds) procs cur chain ≡ chain_loop rounds procs p ((cur, n) ∷ chain)
      → Round rounds procs cur chain

module _ (rounds : ℕ) (procs : Procs) (cur : ℕ) (chain : List (ℕ × ProcNode)) where
  chain_loop-Round_parent :
      (n : ProcNode)
      → HashMap.get cur procs ≡ some n
      → n.persisted ≡ false
      → (o : Option ℕ) → n.ppid ≡ o
      → Round rounds procs cur chain
  unfolding chain_loop
  chain_loop-Round_parent n e h none q = top n e h (inl q) (ground arith)
  chain_loop-Round_parent n e h (some p) q = elim (Bool-cases (eqb p cur)) [
    | inl same ↦ top n e h (inr (ground arith)) (ground arith)
    | inr other ↦ climb n p e h q (ground arith) (ground arith)
  ]

  chain_loop-Round : Round rounds procs cur chain
  unfolding chain_loop
  chain_loop-Round = elim (Option-cases (HashMap.get cur procs)) [
    | inl e ↦ stop (inl e) (ground arith)
    | inr (n, e) ↦ elim (Bool-cases n.persisted) [
      | inl h ↦ stop (inr (n, e, h)) (ground arith)
      | inr h ↦ chain_loop-Round_parent n e h n.ppid refl
    ]
  ]

chain_loop-IsLinked :
    (rounds : ℕ) (procs : Procs) (cur : ℕ) (chain : List (ℕ × ProcNode))
    → IsParent cur chain
    → IsLinked procs chain
    → IsLinked procs (chain_loop rounds procs cur chain)
unfolding chain_loop
chain_loop-IsLinked zero procs cur chain p l = l
chain_loop-IsLinked (suc rounds) procs cur chain p l =
    elim (chain_loop-Round rounds procs cur chain) [
      | stop _ e ↦ rw e l
      | top n g h q e ↦ rw e (g, h, p, l)
      | climb n q g h s d e ↦
          rw e (chain_loop-IsLinked rounds procs q ((cur, n) ∷ chain) (s, d) (g, h, p, l))
    ]

-- Every entry of the chain is a node of the tree that is not stored yet, and each is the recorded
-- parent of the entry behind it: the chain is root first, whatever the table holds.
pub unpersisted_chain-IsLinked :
    (t : ProcTree) (pid : ℕ) → IsLinked t.procs (unpersisted_chain t pid)
unfolding unpersisted_chain
unpersisted_chain-IsLinked t pid = chain_loop-IsLinked max_chain t.procs pid [] tt tt

EndsAt-cons :
    (pid : ℕ) (e : ℕ × ProcNode) (chain : List (ℕ × ProcNode))
    → EndsAt pid chain
    → EndsAt pid (e ∷ chain)
EndsAt-cons pid e [] h = absurd h
EndsAt-cons pid e (x ∷ chain) h = h

chain_loop-EndsAt :
    (rounds : ℕ) (procs : Procs) (pid cur : ℕ) (chain : List (ℕ × ProcNode))
    → EndsAt pid chain
    → EndsAt pid (chain_loop rounds procs cur chain)
unfolding chain_loop
chain_loop-EndsAt zero procs pid cur chain h = h
chain_loop-EndsAt (suc rounds) procs pid cur chain h =
    elim (chain_loop-Round rounds procs cur chain) [
      | stop _ e ↦ rw e h
      | top n _ _ _ e ↦ rw e (EndsAt-cons pid (cur, n) chain h)
      | climb n q _ _ _ _ e ↦
          rw e (chain_loop-EndsAt rounds procs pid q _ (EndsAt-cons pid (cur, n) chain h))
    ]

chain-EndsAt_start :
    (rounds : ℕ) (procs : Procs) (pid : ℕ)
    → (IsStored procs pid × (chain_loop (suc rounds) procs pid [] ≡ []))
      ⊎ EndsAt pid (chain_loop (suc rounds) procs pid [])
chain-EndsAt_start rounds procs pid = elim (chain_loop-Round rounds procs pid []) [
  | stop s e ↦ inl (s, e)
  | top n _ _ _ e ↦ inr (rw e refl)
  | climb n q _ _ _ _ e ↦ inr (rw e (chain_loop-EndsAt rounds procs pid q ((pid, n) ∷ []) refl))
]

-- The chain ends at the process asked for; or it is empty, and that process is unknown to the tree or
-- stored already.
pub unpersisted_chain-EndsAt :
    (t : ProcTree) (pid : ℕ)
    → (IsStored t.procs pid × (unpersisted_chain t pid ≡ [])) ⊎ EndsAt pid (unpersisted_chain t pid)
unfolding unpersisted_chain
unpersisted_chain-EndsAt t pid = chain-EndsAt_start 63 t.procs pid

IsTop-stop :
    (procs : Procs) (cur : ℕ) (chain : List (ℕ × ProcNode))
    → IsParent cur chain
    → IsStored procs cur
    → IsTop procs chain
IsTop-stop procs cur [] p s = tt
IsTop-stop procs cur ((b, m) ∷ rest) p s = inr (inr (cur, p.0, s))

chain_loop-IsTop :
    (rounds : ℕ) (procs : Procs) (cur : ℕ) (chain : List (ℕ × ProcNode))
    → IsParent cur chain
    → (length (chain_loop rounds procs cur chain) ≤ rounds + length chain)
      × (IsTop procs (chain_loop rounds procs cur chain)
          ⊎ (length (chain_loop rounds procs cur chain) ≡ rounds + length chain))
unfolding chain_loop
chain_loop-IsTop zero procs cur chain p = (omega arith, inr (omega arith))
chain_loop-IsTop (suc rounds) procs cur chain p = elim (chain_loop-Round rounds procs cur chain) [
  | stop s e ↦ rw e (omega arith, inl (IsTop-stop procs cur chain p s))
  | top n _ _ (inl q) e ↦ rw e (omega arith, inl (inl q))
  | top n _ _ (inr q) e ↦ rw e (omega arith, inl (inr (inl q)))
  | climb n q _ _ s d e ↦
      let ih = chain_loop-IsTop rounds procs q ((cur, n) ∷ chain) (s, d) in
      rw e (omega (arith, ih.0), elim ih.1 [ inl h ↦ inl h | inr h ↦ inr (omega (arith, h)) ])
]

-- The climb is bounded by `MAX_CHAIN`, also on a cycle of parents. A shorter chain is complete: its
-- first entry has no parent, is its own parent, or has a parent that is unknown or stored.
pub unpersisted_chain-IsTop :
    (t : ProcTree) (pid : ℕ)
    → (length (unpersisted_chain t pid) ≤ max_chain)
      × (IsTop t.procs (unpersisted_chain t pid) ⊎ (length (unpersisted_chain t pid) ≡ max_chain))
unfolding unpersisted_chain
unpersisted_chain-IsTop t pid = chain_loop-IsTop max_chain t.procs pid [] tt

-- The chain ends at the process asked for, or is empty, where that process is unknown to the tree or
-- stored already. Every entry is a node of the tree that is not stored yet, and the recorded parent of the
-- entry behind it. The climb is bounded by `MAX_CHAIN`, also on a cycle of parents; a shorter chain is
-- complete: its first entry has no parent, is its own parent, or has a parent that is unknown or stored.
pub unpersisted_chain_lem :
    (t : ProcTree) (pid : ℕ)
    → let chain = unpersisted_chain t pid in
      ((IsStored t.procs pid × (chain ≡ [])) ⊎ EndsAt pid chain)
      × IsLinked t.procs chain
      × (length chain ≤ max_chain)
      × (IsTop t.procs chain ⊎ (length chain ≡ max_chain))
unpersisted_chain_lem t pid = (
  unpersisted_chain-EndsAt t pid,
  unpersisted_chain-IsLinked t pid,
  (unpersisted_chain-IsTop t pid).0,
  (unpersisted_chain-IsTop t pid).1,
)
