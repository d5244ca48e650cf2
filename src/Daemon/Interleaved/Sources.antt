-- ===== src/Daemon/Interleaved/Sources.antt =====
-- Where an entry of the tree of src/proctree.rs comes from, for each call that src/bin/whodidd.rs makes.
use whenfs.Prelude.{
  ℕ, ◌≡◌, refl, sym, ap, ◌∙◌, inl, inr, ◌⊎◌, Bool, true, false, ◌&&◌, Option, none, some, arith,
  eqb, Bool-cases, is_none,
}
use whenfs.Prelude.Text.{Text}
use whenfs.ProcTree.{
  ProcTree, ProcInfo, ProcNode, get, on_fork, on_exec, on_exit, mark_persisted, evict_stale,
  is_fresh,
}
use whenfs.ProcTree.Lookup.{
  fresh_node, get-on_fork, exec_node, get-on_exec, get-on_exit, get-mark_persisted, get-evict_stale,
  map_node,
}
use whenfs.ProcTree.Lifecycle.{IsValid}
use whenfs.Daemon.Interleaved.{Remembers}

pub mapped :
    (f : ProcNode → ProcNode) (o : Option ProcNode) (n : ProcNode)
    → map_node f o ≡ some n
    → (m : ProcNode) × (o ≡ some m) × (f m ≡ n)
mapped f none n e = absurd (ground (arith, e))
mapped f (some m) n e = (m, refl, ground (arith, e))

abbrev pub mark : ProcNode → ProcNode
mark n = record n { persisted = true }

executed :
    (o : Option ProcNode) (image : ProcInfo) (ppid : Option ℕ) (ts : Text) (n : ProcNode)
    → some (exec_node o image ppid ts) ≡ some n
    → ((m : ProcNode) × (o ≡ some m) × (m.start_ts ≡ n.start_ts) × (m.persisted ≡ n.persisted))
      ⊎ ((o ≡ none) × (n.persisted ≡ false))
executed none image ppid ts n e = inr (refl, ground (arith, e))
executed (some m) image ppid ts n e = inl (m, refl, ground (arith, e), ground (arith, e))

unevicted :
    (cutoff : Text) (o : Option ProcNode) (n : ProcNode) → fresh_node cutoff o ≡ some n → o ≡ some n
unevicted cutoff none n e = absurd (ground (arith, e))
unevicted cutoff (some m) n e = elim (Bool-cases (is_fresh cutoff m)) [
  | inl fresh ↦ ground (arith, fresh, e)
  | inr stale ↦ absurd (ground (arith, stale, e))
]

-- An entry was there, with the same start and the same mark.
abbrev WasThere : ProcTree → ℕ → ProcNode → Type 0
WasThere t p m' =
    (m : ProcNode) × (get t p ≡ some m) × (m.start_ts ≡ m'.start_ts) × (m.persisted ≡ m'.persisted)

abbrev pub IsSourced : (ℕ → Bool) → ProcTree → ProcTree → Type 0
IsSourced new t t' =
    (p : ℕ) (m' : ProcNode)
    → get t' p ≡ some m'
    → WasThere t p m' ⊎ ((new p ≡ true) × (m'.persisted ≡ false))

module _ (t : ProcTree) where
  pub remembered :
      (new : ℕ → Bool) (p : ℕ) (m' : ProcNode)
      → new p ≡ false
      → WasThere t p m' ⊎ ((new p ≡ true) × (m'.persisted ≡ false))
      → (m : ProcNode) × (get t p ≡ some m) × (m.start_ts ≡ m'.start_ts)
  remembered new p m' other (inl (m, found, start, _)) = (m, found, start)
  remembered new p m' other (inr (is_new, _)) = absurd (ground (arith, other, is_new))

  pub fork-IsSourced :
      (parent child : ℕ) (ts : Text) → IsSourced (λ p. eqb child p) t (on_fork t parent child ts)
  fork-IsSourced parent child ts p m' e = elim (Bool-cases (eqb child p)) [
    | inl here ↦ inr (here, ground (arith, get-on_fork t parent child p ts, here, e))
    | inr other ↦ inl (m', ground (arith, get-on_fork t parent child p ts, other, e), refl, refl)
  ]

  pub exec-IsSourced :
      (pid : ℕ) (image : ProcInfo) (ppid : Option ℕ) (ts : Text)
      → IsSourced (λ p. eqb pid p && is_none (get t p)) t (on_exec t pid image ppid ts)
  exec-IsSourced pid image ppid ts p m' e = elim (Bool-cases (eqb pid p)) [
    | inr other ↦ inl (m', ground (arith, get-on_exec t pid p image ppid ts, other, e), refl, refl)
    | inl here ↦
        let same : pid ≡ p = ground (arith, here) in
        let is =
          executed (get t pid) image ppid ts m'
            (ground (arith, get-on_exec t pid p image ppid ts, here, e)) in
        elim is [
          | inl (m, known, start, mark) ↦ inl (m, rw (← same) known, start, mark)
          | inr (unknown, unmarked) ↦ inr (rw (here, ← same, unknown) refl, unmarked)
        ]
  ]

  pub exit-IsSourced : (pid : ℕ) (ts : Text) → IsSourced (λ p. false) t (on_exit t pid ts).0
  exit-IsSourced pid ts p m' e = elim (Bool-cases (eqb pid p)) [
    | inr other ↦ inl (m', ground (arith, get-on_exit t pid p ts, other, e), refl, refl)
    | inl here ↦
        let same : pid ≡ p = ground (arith, here) in
        let (m, found, is) =
          mapped (λ (n : ProcNode). record n { exited = some ts }) (get t pid) m'
            (ground (arith, get-on_exit t pid p ts, here, e)) in
        inl (
          m,
          rw (← same) found,
          ap (λ (n : ProcNode). n.start_ts) is,
          ap (λ (n : ProcNode). n.persisted) is,
        )
  ]

  pub evict-IsSourced :
      (cutoff : Text) → IsValid t → IsSourced (λ p. false) t (evict_stale t cutoff).0
  evict-IsSourced cutoff v p m' e =
      inl (m', unevicted cutoff (get t p) m' (sym (get-evict_stale t cutoff p v) ∙ e), refl, refl)

  pub mark-Remembers : (pid : ℕ) → Remembers (λ p. false) t (mark_persisted t pid)
  mark-Remembers pid p m' _ e = elim (Bool-cases (eqb pid p)) [
    | inr other ↦ (m', ground (arith, get-mark_persisted t pid p, other, e), refl)
    | inl here ↦
        let same : pid ≡ p = ground (arith, here) in
        let (m, found, is) =
          mapped mark (get t pid) m' (ground (arith, get-mark_persisted t pid p, here, e)) in
        (m, rw (← same) found, ap (λ (n : ProcNode). n.start_ts) is)
  ]
