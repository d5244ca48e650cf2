-- ===== src/TimeExpr/Nearest.antt =====
-- `find_nearest` of src/time_expr.rs: which snapshot it answers with.
use whenfs.Prelude.{
  ◌≡◌, refl, ap, sym, ◌∙◌, inl, inr, ◌⊎◌, Bool, true, false, Option, none, some, List, [], ◌∷◌,
  arith, if◌then◌else◌, All, Bool-cases, Option-cases, is_some,
}
use whenfs.Prelude.Member.{In, here, there}
use whenfs.Prelude.Text.{Text}
use whenfs.FilePath.{FilePath}
use whenfs.TimeExpr.{Calendar, DirEntry}
use whenfs.TimeExpr.Resolve.{
  Best, better, nearest_loop, path_of_best, find_nearest, parse_snapshot_name,
}

-- `Ord` of the instants.
pub record IsOrder (cal : Calendar) : Type 0 where
  pub trans : (a b c : cal.DateTime) → cal.le a b ≡ true → cal.le b c ≡ true → cal.le a c ≡ true
  pub total : (a b : cal.DateTime) → cal.le a b ≡ false → cal.le b a ≡ true

-- An entry that can be read, and whose name is UTF-8.
abbrev pub is_readable : Option DirEntry → Bool
is_readable none = false
is_readable (some e) = is_some e.name

module _ (cal : Calendar) where
  -- The snapshot that an entry is, if it is one at or before the target.
  abbrev dated : cal.DateTime → Option cal.DateTime → FilePath → Best cal
  dated target none path = none
  dated target (some dt) path = if cal.le dt target then some (dt, path) else none

  abbrev pub candidate : cal.DateTime → Option DirEntry → Best cal
  candidate target none = none
  candidate target (some e) = elim e.name [
    | none ↦ none
    | some name ↦ dated target (parse_snapshot_name cal name) e.path
  ]

  -- No snapshot is older than any.
  abbrev pub best_le : Best cal → Best cal → Bool
  best_le none b = true
  best_le (some a) none = false
  best_le (some (a, _)) (some (b, _)) = cal.le a b

  module _ (order : IsOrder cal) where
    le_refl : (a : cal.DateTime) → cal.le a a ≡ true
    le_refl a = ground (arith, order.total a a)

    best_le_refl : (a : Best cal) → best_le a a ≡ true
    best_le_refl none = refl
    best_le_refl (some (a, _)) = le_refl a

    best_le_trans :
        (a b c : Best cal) → best_le a b ≡ true → best_le b c ≡ true → best_le a c ≡ true
    best_le_trans none b c p q = refl
    best_le_trans (some a) none c p q = cc
    best_le_trans (some a) (some b) none p q = cc
    best_le_trans (some (a, _)) (some (b, _)) (some (c, _)) p q = order.trans a b c p q

    -- One round: nothing gets older, and the new best is the old one or the entry.
    better_lem :
        (target : cal.DateTime) (best : Best cal) (o : Option cal.DateTime) (path : FilePath)
        → let b = better cal target best o path in
          (best_le best b ≡ true)
          × (best_le (dated target o path) b ≡ true)
          × ((b ≡ best) ⊎ (dated target o path ≡ b))
    better_lem target best none path = (best_le_refl best, refl, inl refl)
    better_lem target none (some dt) path = elim (Bool-cases (cal.le dt target)) [
      | inl early ↦ rw early (refl, le_refl dt, inr refl)
      | inr late ↦ rw late (refl, refl, inl refl)
    ]
    better_lem target (some (b, p)) (some dt) path = elim (Bool-cases (cal.le dt target)) [
      | inr late ↦ rw late (le_refl b, refl, inl refl)
      | inl early ↦ elim (Bool-cases (cal.le dt b)) [
        | inl older ↦ rw early (rw older (le_refl b, older, inl refl))
        | inr newer ↦ rw early (rw newer (order.total dt b newer, le_refl dt, inr refl))
      ]
    ]

    -- The best of some entries and of what was at hand.
    abbrev Newest : cal.DateTime → Best cal → List (Option DirEntry) → Best cal → Type 0
    Newest target best entries b =
        (best_le best b ≡ true)
        × All (λ o. best_le (candidate target o) b ≡ true) entries
        × ((b ≡ best) ⊎ ((o : Option DirEntry) × In o entries × (candidate target o ≡ b)))

    Newest-cons :
        (target : cal.DateTime) (best : Best cal) (e : DirEntry) (name : Text)
        (entries : List (Option DirEntry)) (b : Best cal)
        → e.name ≡ some name
        → Newest target (better cal target best (parse_snapshot_name cal name) e.path) entries b
        → Newest target best (some e ∷ entries) b
    Newest-cons target best e name entries b named (above, all, source) =
        let round = better_lem target best (parse_snapshot_name cal name) e.path in
        let next = better cal target best (parse_snapshot_name cal name) e.path in
        let same : candidate target (some e) ≡ dated target (parse_snapshot_name cal name) e.path =
          rw named refl in
        (
          best_le_trans best next b round.0 above,
          (rw same (best_le_trans _ next b round.1 above), all),
          elim source [
            | inr (o, i, c) ↦ inr (o, there i, c)
            | inl eq ↦ elim round.2 [
              | inl kept ↦ inl (eq ∙ kept)
              | inr taken ↦ inr (some e, here, same ∙ taken ∙ sym eq)
            ]
          ],
        )

    nearest_loop-Newest :
        (target : cal.DateTime) (best : Best cal) (entries : List (Option DirEntry))
        → All (λ o. is_readable o ≡ true) entries
        → (b : Best cal) × (nearest_loop cal target best entries ≡ some b)
          × Newest target best entries b
    unfolding nearest_loop
    nearest_loop-Newest target best [] h = (best, refl, (best_le_refl best, tt, inl refl))
    nearest_loop-Newest target best (none ∷ entries) h = cc h.0
    nearest_loop-Newest target best (some e ∷ entries) h = elim (Option-cases e.name) [
      | inl unnamed ↦ cc (h.0, unnamed)
      | inr (name, named) ↦
          let next = better cal target best (parse_snapshot_name cal name) e.path in
          let (b, r, newest) = nearest_loop-Newest target next entries h.1 in
          (b, rw (nearest_loop, named) r, Newest-cons target best e name entries b named newest)
    ]

    -- If every entry of the directory can be read and has a name in UTF-8, `find_nearest` answers with
    -- the path of the newest snapshot at or before the target, and with none exactly where the
    -- directory has no such snapshot.
    pub find_nearest-Newest :
        (target : cal.DateTime) (entries : List (Option DirEntry))
        → All (λ o. is_readable o ≡ true) entries
        → (b : Best cal) × (find_nearest cal (some entries) target ≡ path_of_best cal (some b))
          × All (λ o. best_le (candidate target o) b ≡ true) entries
          × ((b ≡ none) ⊎ ((o : Option DirEntry) × In o entries × (candidate target o ≡ b)))
    unfolding find_nearest
    find_nearest-Newest target entries h =
        let (b, r, (above, all, source)) = nearest_loop-Newest target none entries h in
        (b, ap (path_of_best cal) r, all, source)

  nearest_loop-none :
      (target : cal.DateTime) (best : Best cal) (o : Option DirEntry)
      (entries : List (Option DirEntry))
      → In o entries
      → is_readable o ≡ false
      → nearest_loop cal target best entries ≡ none
  unfolding nearest_loop
  nearest_loop-none target best o [] i h = elim i [ ]
  nearest_loop-none target best o (none ∷ entries) i h = refl
  nearest_loop-none target best o (some e ∷ entries) here h = elim (Option-cases e.name) [
    | inl unnamed ↦ rw (nearest_loop, unnamed) refl
    | inr (name, named) ↦ cc (h, named)
  ]
  nearest_loop-none target best o (some e ∷ entries) (there i) h = elim (Option-cases e.name) [
    | inl unnamed ↦ rw (nearest_loop, unnamed) refl
    | inr (name, named) ↦
        rw (nearest_loop, named)
          (nearest_loop-none target (better cal target best (parse_snapshot_name cal name) e.path) o
            entries i h)
  ]

  -- One entry that cannot be read, or whose name is not UTF-8, hides every snapshot of the directory.
  pub find_nearest_hidden :
      (target : cal.DateTime) (o : Option DirEntry) (entries : List (Option DirEntry))
      → In o entries
      → is_readable o ≡ false
      → find_nearest cal (some entries) target ≡ none
  unfolding find_nearest
  find_nearest_hidden target o entries i h =
      ap (path_of_best cal) (nearest_loop-none target none o entries i h)
