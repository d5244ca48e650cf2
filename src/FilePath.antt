-- ===== src/FilePath.antt =====
-- `std::path` on Unix, as far as the program uses it. Rust compares, hashes and strips paths by
-- their components, so a path is the list of those; `of_text` is `Path::components`.
use whenfs.Prelude.{
  ℕ, ◌≡◌, ◌↔◌, Bool, true, false, ◌&&◌, Option, none, some, List, [], ◌∷◌, ◌++◌, arith,
  if◌then◌else◌, eqb, Key, length,
}
use whenfs.Prelude.Text.{Text, text_eq, text_eq_iff}

pub data Component : Type 0 where
  root_dir cur_dir parent_dir : Component
  normal : Text → Component

abbrev pub FilePath : Type 0
FilePath = List Component

unfoldable pub component_eq : Component → Component → Bool
component_eq root_dir root_dir = true
component_eq cur_dir cur_dir = true
component_eq parent_dir parent_dir = true
component_eq (normal a) (normal b) = text_eq a b
component_eq _ _ = false

pub component_eq_iff : (a b : Component) → (component_eq a b ≡ true) ↔ (a ≡ b)
unfolding component_eq
component_eq_iff (normal a) (normal b) = ground (arith, text_eq_iff a b)
component_eq_iff root_dir b = ground arith
component_eq_iff cur_dir b = ground arith
component_eq_iff parent_dir b = ground arith
component_eq_iff (normal a) b = ground arith

instance abbrev pub component_key : Key Component
component_key = record { same = component_eq; same_iff = component_eq_iff }

-- `PathBuf`'s `==`.
unfoldable pub path_eq : FilePath → FilePath → Bool
unfolding component_eq
path_eq [] [] = true
path_eq (a ∷ p) (b ∷ q) = component_eq a b && path_eq p q
path_eq _ _ = false

pub path_eq_iff : (p q : FilePath) → (path_eq p q ≡ true) ↔ (p ≡ q)
unfolding path_eq
path_eq_iff [] [] = ground arith
path_eq_iff [] (b ∷ q) = ground arith
path_eq_iff (a ∷ p) [] = ground arith
path_eq_iff (a ∷ p) (b ∷ q) = ground (arith, component_eq_iff a b, path_eq_iff p q)

instance abbrev pub path_key : Key FilePath
path_key = record { same = path_eq; same_iff = path_eq_iff }

abbrev push_front : ℕ → List Text → List Text
push_front c [] = (c ∷ []) ∷ []
push_front c (w ∷ ws) = (c ∷ w) ∷ ws

-- The pieces between slashes, empty ones included.
unfoldable pub split_slashes : Text → List Text
split_slashes [] = [] ∷ []
split_slashes (c ∷ s) =
    let rest = split_slashes s in if eqb c b'/' then [] ∷ rest else push_front c rest

abbrev dot : Text
dot = b'.' ∷ []

abbrev dot_dot : Text
dot_dot = b'.' ∷ b'.' ∷ []

-- A piece that is not the first: empty pieces and `.` are dropped.
abbrev later_piece : Text → FilePath
later_piece w =
    if text_eq w []
    then []
    else if text_eq w dot
    then []
    else if text_eq w dot_dot
    then parent_dir ∷ []
    else normal w ∷ []

abbrev later_pieces : List Text → FilePath
later_pieces [] = []
later_pieces (w ∷ ws) = later_piece w ++ later_pieces ws

-- A first piece `.` is kept; an empty one is the root, if a slash follows it.
abbrev first_piece : List Text → FilePath
first_piece [] = []
first_piece (w ∷ ws) =
    if text_eq w dot
    then cur_dir ∷ later_pieces ws
    else if text_eq w []
    then (elim ws [ [] ↦ [] | v ∷ vs ↦ root_dir ∷ later_pieces (v ∷ vs) ])
    else later_piece w ++ later_pieces ws

-- `Path::new(s).components()`
unfoldable pub of_text : Text → FilePath
unfolding split_slashes text_eq
of_text s = first_piece (split_slashes s)

-- `p.strip_prefix(base)`, by components.
unfoldable pub strip_base : FilePath → FilePath → Option FilePath
strip_base p [] = some p
strip_base [] (b ∷ base) = none
strip_base (a ∷ p) (b ∷ base) = if component_eq a b then strip_base p base else none

-- `p.join(q)`: an absolute `q` replaces `p`, and a leading `.` of `q` is no longer first.
unfoldable pub join : FilePath → FilePath → FilePath
join p [] = p
join p (root_dir ∷ q) = root_dir ∷ q
join [] q = q
join (a ∷ p) (cur_dir ∷ q) = a ∷ (p ++ q)
join (a ∷ p) q = a ∷ (p ++ q)

-- `path.parent()`
unfoldable pub parent : FilePath → Option FilePath
parent [] = none
parent (root_dir ∷ []) = none
parent (c ∷ []) = some []
parent (c ∷ d ∷ path) = elim (parent (d ∷ path)) [ none ↦ none | some up ↦ some (c ∷ up) ]

-- `p.components().count()`
abbrev pub depth : FilePath → ℕ
depth = length

pub strip_base-eq-append : (p base rel : FilePath) → strip_base p base ≡ some rel → p ≡ base ++ rel
unfolding strip_base
strip_base-eq-append p [] rel h = ground arith
strip_base-eq-append [] (b ∷ base) rel h = cc
strip_base-eq-append (a ∷ p) (b ∷ base) rel h =
    ground (arith, component_eq_iff a b, strip_base-eq-append p base rel)

pub strip_base-append : (base rel : FilePath) → strip_base (base ++ rel) base ≡ some rel
unfolding strip_base
strip_base-append [] rel = ground arith
strip_base-append (b ∷ base) rel = ground (arith, component_eq_iff b b, strip_base-append base rel)
