-- ===== src/WhenFs/Requests.antt =====
-- Every request to src/main.rs keeps the tables of inodes.
use Prim.Native.Nat.{bit_and}
use whenfs.Prelude.{
  ℕ, suc, ◌≡◌, refl, inl, inr, ◌⊎◌, Option, none, some, List, [], ◌∷◌, arith, if◌then◌else◌, eqb,
  length, Bool-cases, Option-cases, nat_key,
}
use whenfs.Prelude.Text.{Text}
use whenfs.HashMap
use whenfs.HashMap.{HashMap}
use whenfs.FilePath.{FilePath, of_text, join, path_key}
use whenfs.TimeExpr.{Outcome, done, panicked, unfinished}
use whenfs.TimeExpr.Resolve.{resolve}
use whenfs.WhenFs.{Child, World, WhenFs, root_ino, ino_for_path, path_for_ino}
use whenfs.WhenFs.Handlers.{
  Request, lookup, getattr, readdir, opendir, open_at, read_at, release, setattr, write, mkdir,
  create, unlink, rmdir, rename, Listed, listed_first, answer, write_flags, list_root,
  list_children, handle, or_empty, shortcuts, entry_for, attr_of_path, handle_lookup,
  handle_getattr, handle_readdir, handle_open, handle_read, handle_release, handle_setattr,
}
use whenfs.WhenFs.Inodes.{
  IsTable, Kept, HasRoom, Kept-none, Kept-more, Kept-less, ino_for_path-Kept,
}

pub Outcome-cases {ℓ} :
    {A : Type ℓ} (o : Outcome (Option A))
    → ((o ≡ panicked) ⊎ (o ≡ unfinished)) ⊎ (o ≡ done none) ⊎ ((a : A) × (o ≡ done (some a)))
Outcome-cases panicked = inl (inl refl)
Outcome-cases unfinished = inl (inr refl)
Outcome-cases (done none) = inr (inl refl)
Outcome-cases (done (some a)) = inr (inr (a, refl))

module _ {File : Type 0} where
  -- What a handler keeps that ends and does not panic.
  abbrev pub After {ℓ} : {A : Type ℓ} → ℕ → WhenFs File → Outcome (A × WhenFs File) → Type 0
  After n fs (done (a, fs')) = Kept n fs fs'
  After n fs panicked = Unit
  After n fs unfinished = Unit

  list_children-Kept :
      (cs : List Child) (fs : WhenFs File)
      → IsTable fs
      → HasRoom fs (length cs)
      → Kept (length cs) fs (list_children cs fs).1
  unfolding list_children
  list_children-Kept [] fs t room = Kept-none 0 fs t
  list_children-Kept (c ∷ cs) fs t room =
      let fs' = (ino_for_path c.path fs).1 in
      let k = ino_for_path-Kept c.path fs t (length cs) room in
      Kept-more (length cs) fs fs' (list_children cs fs').1 k
        (list_children-Kept cs fs' k.table (omega (arith, k.next, room)))

  -- A change of the handles keeps the tables.
  same_tables :
      {fs : WhenFs File} {handles : HashMap ℕ File} {next_fh : ℕ}
      → IsTable fs
      → Kept 0 fs (record fs { handles = handles; next_fh = next_fh })
  same_tables t = record {
    table = record { two = t.two; bound = t.bound; forth = t.forth; back = t.back };
    next = omega arith;
    grows = λ i p h. h;
  }

  abbrev children_of : World File → Option FilePath → List Child
  children_of w none = []
  children_of w (some p) = or_empty (w.read_dir p)

  module _ (w : World File) where
    resolved : WhenFs File → Text → Outcome (Option FilePath)
    resolved fs name = resolve w.cal w.snapshots w.is_dir w.now fs.snap_root name

    After-entry_for :
        (path : FilePath) (fs : WhenFs File)
        → IsTable fs
        → HasRoom fs 1
        → After 1 fs (entry_for w path fs)
    After-entry_for path fs t room = elim (Option-cases (w.symlink_metadata path)) [
      | inl gone ↦ rw (entry_for, gone) (Kept-none 1 fs t)
      | inr (meta, found) ↦ rw (entry_for, found) (ino_for_path-Kept path fs t 0 room)
    ]

    After-attr :
        (ino n : ℕ) (o : Option FilePath) (fs : WhenFs File)
        → IsTable fs
        → After n fs (attr_of_path w ino o fs)
    After-attr ino n none fs t = Kept-none n fs t
    After-attr ino n (some path) fs t = elim (Option-cases (w.symlink_metadata path)) [
      | inl gone ↦ rw (attr_of_path, gone) (Kept-none n fs t)
      | inr (meta, found) ↦ rw (attr_of_path, found) (Kept-none n fs t)
    ]

    After-lookup :
        (parent : ℕ) (name : Option Text) (fs : WhenFs File)
        → IsTable fs
        → HasRoom fs 1
        → After 1 fs (handle_lookup w parent name fs)
    unfolding handle_lookup resolved
    After-lookup parent none fs t room = Kept-none 1 fs t
    After-lookup parent (some name) fs t room = elim (Bool-cases (eqb parent root_ino)) [
      | inl root ↦ elim (Outcome-cases (resolved fs name)) [
        | inl (inl p) ↦ rw (handle_lookup, root, p) tt
        | inl (inr u) ↦ rw (handle_lookup, root, u) tt
        | inr (inl n) ↦ rw (handle_lookup, root, n) (Kept-none 1 fs t)
        | inr (inr (target, r)) ↦ rw (handle_lookup, root, r) (After-entry_for target fs t room)
      ]
      | inr below ↦ elim (Option-cases (path_for_ino parent fs)) [
        | inl unknown ↦ rw (handle_lookup, below, unknown) (Kept-none 1 fs t)
        | inr (p, known) ↦
            rw (handle_lookup, below, known) (After-entry_for (join p (of_text name)) fs t room)
      ]
    ]

    After-less :
        {A : Type 0} (n : ℕ) (fs : WhenFs File) (o : Outcome (A × WhenFs File))
        → After n fs o
        → After (suc n) fs o
    After-less n fs panicked k = tt
    After-less n fs unfinished k = tt
    After-less n fs (done (a, fs')) k = Kept-less n fs fs' k

    After-listed :
        (n : ℕ) (fs fs' : WhenFs File) (l : Listed) (o : Outcome (List Listed × WhenFs File))
        → Kept 1 fs fs'
        → After n fs' o
        → After (suc n) fs (listed_first l o)
    After-listed n fs fs' l panicked k h = tt
    After-listed n fs fs' l unfinished k h = tt
    After-listed n fs fs' l (done (ls, fs'')) k h = Kept-more n fs fs' fs'' k h

    After-answer :
        (n ino offset : ℕ) (fs : WhenFs File) (o : Outcome (List Listed × WhenFs File))
        → After n fs o
        → After n fs (answer w ino offset o)
    After-answer n ino offset fs panicked h = tt
    After-answer n ino offset fs unfinished h = tt
    After-answer n ino offset fs (done (ls, fs')) h = h

    After-list_root :
        (names : List Text) (fs : WhenFs File)
        → IsTable fs
        → HasRoom fs (length names)
        → After (length names) fs (list_root w names fs)
    unfolding list_root resolved
    After-list_root [] fs t room = Kept-none 0 fs t
    After-list_root (name ∷ names) fs t room = elim (Outcome-cases (resolved fs name)) [
      | inl (inl p) ↦ rw (list_root, p) tt
      | inl (inr u) ↦ rw (list_root, u) tt
      | inr (inl n) ↦
          rw (list_root, n)
            (After-less (length names) fs (list_root w names fs)
              (After-list_root names fs t (omega (arith, room))))
      | inr (inr (target, r)) ↦
          let fs' = (ino_for_path fs.snap_root fs).1 in
          let k = ino_for_path-Kept fs.snap_root fs t (length names) room in
          rw (list_root, r)
            (After-listed (length names) fs fs' _ (list_root w names fs') k
              (After-list_root names fs' k.table (omega (arith, k.next, room))))
    ]

    -- How many inodes a request can give out.
    abbrev pub cost : Request → WhenFs File → ℕ
    cost (lookup parent name) fs = 1
    cost (readdir ino offset) fs =
        if eqb ino root_ino then 5 else length (children_of w (path_for_ino ino fs))
    cost _ fs = 0

    After-readdir :
        (ino offset : ℕ) (fs : WhenFs File)
        → IsTable fs
        → HasRoom fs (cost (readdir ino offset) fs)
        → After (cost (readdir ino offset) fs) fs (handle_readdir w ino offset fs)
    unfolding handle_readdir
    After-readdir ino offset fs t room = elim (Bool-cases (eqb ino root_ino)) [
      | inl root ↦
          rw (handle_readdir, cost, root)
            (After-answer 5 ino offset fs (list_root w shortcuts fs)
              (After-list_root shortcuts fs t (ground (arith, root))))
      | inr below ↦ elim (Option-cases (path_for_ino ino fs)) [
        | inl unknown ↦ rw (handle_readdir, cost, below, unknown) (Kept-none 0 fs t)
        | inr (p, known) ↦
            rw (handle_readdir, cost, below, known)
              (list_children-Kept (or_empty (w.read_dir p)) fs t (ground (arith, below, known)))
      ]
    ]

    After-open :
        (ino flags : ℕ) (fs : WhenFs File) → IsTable fs → After 0 fs (handle_open w ino flags fs)
    unfolding handle_open
    After-open ino flags fs t = elim (Bool-cases (eqb (bit_and flags write_flags) 0)) [
      | inr writes ↦ rw (handle_open, writes) (Kept-none 0 fs t)
      | inl reads ↦ elim (Option-cases (path_for_ino ino fs)) [
        | inl unknown ↦ rw (handle_open, reads, unknown) (Kept-none 0 fs t)
        | inr (p, known) ↦ elim (Option-cases (w.open_file p)) [
          | inl fails ↦ rw (handle_open, reads, known, fails) (Kept-none 0 fs t)
          | inr (f, works) ↦ rw (handle_open, reads, known, works) (same_tables t)
        ]
      ]
    ]

    After-read :
        (fh offset size : ℕ) (fs : WhenFs File)
        → IsTable fs
        → After 0 fs (handle_read w fh offset size fs)
    unfolding handle_read
    After-read fh offset size fs t = elim (Option-cases (HashMap.get fh fs.handles)) [
      | inl closed ↦ rw (handle_read, closed) (Kept-none 0 fs t)
      | inr (f, known) ↦ elim (Option-cases (w.seek f offset)) [
        | inl fails ↦ rw (handle_read, known, fails) (Kept-none 0 fs t)
        | inr (g, works) ↦ rw (handle_read, known, works) (same_tables t)
      ]
    ]

    After-getattr : (ino : ℕ) (fs : WhenFs File) → IsTable fs → After 0 fs (handle_getattr w ino fs)
    unfolding handle_getattr
    After-getattr ino fs t = elim (Bool-cases (eqb ino root_ino)) [
      | inl root ↦ rw (handle_getattr, root) (Kept-none 0 fs t)
      | inr below ↦ rw (handle_getattr, below) (After-attr ino 0 (path_for_ino ino fs) fs t)
    ]

    -- While the numbers of 64 bits last, a request leaves a table in which each inode stands for one
    -- path and each path for one inode, it gives out at most the inodes that its answer names, and it
    -- changes the path of none that was given out before.
    pub handle-Kept :
        (r : Request) (fs : WhenFs File)
        → IsTable fs
        → HasRoom fs (cost r fs)
        → After (cost r fs) fs (handle w r fs)
    unfolding handle handle_setattr handle_release
    handle-Kept (lookup parent name) fs t room = After-lookup parent name fs t room
    handle-Kept (getattr ino) fs t room = After-getattr ino fs t
    handle-Kept (readdir ino offset) fs t room = After-readdir ino offset fs t room
    handle-Kept (opendir ino) fs t room = Kept-none 0 fs t
    handle-Kept (open_at ino flags) fs t room = After-open ino flags fs t
    handle-Kept (read_at fh offset size) fs t room = After-read fh offset size fs t
    handle-Kept (release fh) fs t room = same_tables t
    handle-Kept (setattr ino) fs t room = After-attr ino 0 (path_for_ino ino fs) fs t
    handle-Kept (write ino fh) fs t room = Kept-none 0 fs t
    handle-Kept (mkdir parent name) fs t room = Kept-none 0 fs t
    handle-Kept (create parent name) fs t room = Kept-none 0 fs t
    handle-Kept (unlink parent name) fs t room = Kept-none 0 fs t
    handle-Kept (rmdir parent name) fs t room = Kept-none 0 fs t
    handle-Kept (rename parent name to to_name) fs t room = Kept-none 0 fs t
