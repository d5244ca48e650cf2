-- ===== src/Whodid/Dedup.antt =====
-- The removal of repeated times in src/bin/whodid.rs.
use whenfs.Prelude.{
  ◌≡◌, refl, sym, subst, inl, inr, true, false, ◌||◌, List, [], ◌∷◌, arith, any, All, All-map,
  Pairs, Bool-cases,
}
use whenfs.Prelude.Member.{In, here, there, All-In, All-every}
use whenfs.Prelude.Text.{
  Text, text_le, text_lt, text_eq, text_eq_iff, text_le_trans, text_le_total, text_le_antisymm,
}
use whenfs.Prelude.Sort.{sort_by, sort_by-IsOrdered, sort_by-All, All-sort_by}
use whenfs.Whodid.{dedup, dedup_from, by_ts}
use whenfs.Whodid.Reader.{Event}

-- What has been kept has times that grow, and nothing behind it has an earlier one.
abbrev pub Later : Event → Event → Type 0
Later a b = text_lt a.ts b.ts ≡ true

abbrev AtLeast : Text → List Event → Type 0
AtLeast ts = All (λ e. text_le ts e.ts ≡ true)

strictly : (s t : Text) → text_le s t ≡ true → text_eq t s ≡ false → text_lt s t ≡ true
strictly s t h n = ground (arith, text_le_antisymm s t, text_eq_iff t s)

lt_trans_le : (s t u : Text) → text_lt s t ≡ true → text_le t u ≡ true → text_lt s u ≡ true
lt_trans_le s t u p q = ground (arith, text_le_trans t u s)

lt_le : (s t : Text) → text_lt s t ≡ true → text_le s t ≡ true
lt_le s t h = ground (arith, text_le_total t s)

In-cons : {A : Type 0} (y x : A) (l m : List A) → (In x l → In x m) → In x (y ∷ l) → In x (y ∷ m)
In-cons y x l m f here = here
In-cons y x l m f (there i) = there (f i)

dedup_from-Later :
    (ts : Text) (es : List Event)
    → AtLeast ts es
    → Pairs (λ a b. text_le a.ts b.ts ≡ true) es
    → All (λ e. text_lt ts e.ts ≡ true) (dedup_from ts es) × Pairs Later (dedup_from ts es)
unfolding dedup_from
dedup_from-Later ts [] h o = (tt, tt)
dedup_from-Later ts (e ∷ es) h o = elim (Bool-cases (text_eq e.ts ts)) [
  | inl same ↦ rw (dedup_from, same) (dedup_from-Later ts es h.1 o.1)
  | inr new ↦
      let (above, pairs) = dedup_from-Later e.ts es o.0 o.1 in
      let first : text_lt ts e.ts ≡ true = strictly ts e.ts h.0 new in
      rw (dedup_from, new)
        (
          (
            first,
            All-map _ _ (dedup_from e.ts es)
                (λ f l. lt_trans_le ts e.ts f.ts first (lt_le e.ts f.ts l)) above,
          ),
          (above, pairs),
        )
]

dedup_from-In : (ts : Text) (es : List Event) (e : Event) → In e (dedup_from ts es) → In e es
unfolding dedup_from
dedup_from-In ts [] e = λ i. i
dedup_from-In ts (f ∷ es) e = elim (Bool-cases (text_eq f.ts ts)) [
  | inl same ↦ rw (dedup_from, same) (λ i. there (dedup_from-In ts es e i))
  | inr new ↦ rw (dedup_from, new) (In-cons f e (dedup_from f.ts es) es (dedup_from-In f.ts es e))
]

-- A time is kept, or is the one at hand.
abbrev Covered : Text → List Event → List Event → Type 0
Covered ts ks = All (λ e. (text_eq e.ts ts || any (λ f. text_eq f.ts e.ts) ks) ≡ true)

dedup_from-any : (ts : Text) (es : List Event) → Covered ts (dedup_from ts es) es
unfolding dedup_from
dedup_from-any ts [] = tt
dedup_from-any ts (e ∷ es) = elim (Bool-cases (text_eq e.ts ts)) [
  | inl same ↦
      let kept : dedup_from ts (e ∷ es) ≡ dedup_from ts es = rw (dedup_from, same) refl in
      subst (λ ks. Covered ts ks (e ∷ es)) (sym kept) (ground arith, dedup_from-any ts es)
  | inr new ↦
      let kept : dedup_from ts (e ∷ es) ≡ e ∷ dedup_from e.ts es = rw (dedup_from, new) refl in
      subst (λ ks. Covered ts ks (e ∷ es)) (sym kept)
        (
          ground (arith, text_eq_iff e.ts e.ts),
          All-map _ _ es (λ f h. ground (arith, h, text_eq_iff e.ts f.ts, text_eq_iff f.ts e.ts))
              (dedup_from-any e.ts es),
        )
]

dedup_sorted :
    (s : List Event)
    → Pairs (λ a b. text_le a.ts b.ts ≡ true) s
    → Pairs Later (dedup s)
      × All (λ e. In e s) (dedup s)
      × All (λ e. any (λ f. text_eq f.ts e.ts) (dedup s) ≡ true) s
unfolding dedup
dedup_sorted [] o = (tt, tt, tt)
dedup_sorted (e ∷ s) o =
    let (above, pairs) = dedup_from-Later e.ts s o.0 o.1 in
    (
      (above, pairs),
      (here, All-every _ (dedup_from e.ts s) (λ f i. there (dedup_from-In e.ts s f i))),
      (
        ground (arith, text_eq_iff e.ts e.ts),
        All-map _ _ s (λ f h. ground (arith, h, text_eq_iff e.ts f.ts, text_eq_iff f.ts e.ts))
            (dedup_from-any e.ts s),
      ),
    )

-- `whodid diff` shows each time once, in order, and no time of the log is lost: the events that it
-- keeps are among the recorded ones, their times grow strictly, and every recorded event has the time
-- of one that is kept, so that the snapshots around it are those that are compared.
pub dedup_lem :
    (es : List Event)
    → let kept = dedup (sort_by by_ts es) in
      Pairs Later kept
      × All (λ e. In e es) kept
      × All (λ e. any (λ f. text_eq f.ts e.ts) kept ≡ true) es
dedup_lem es =
    let s = sort_by by_ts es in
    let o : Pairs (λ a b. text_le a.ts b.ts ≡ true) s =
      sort_by-IsOrdered by_ts (λ a b c. text_le_trans a.ts b.ts c.ts)
        (λ a b. text_le_total a.ts b.ts) es in
    let (later, within, covered) = dedup_sorted s o in
    (
      later,
      All-map _ _ (dedup s)
          (λ e i.
            All-In (λ f. In f es) e s
              (sort_by-All by_ts (λ f. In f es) es (All-every _ es (λ f j. j))) i)
          within,
      All-sort_by by_ts (λ e. any (λ f. text_eq f.ts e.ts) (dedup s) ≡ true) es covered,
    )
