-- ===== src/WhenFs/ReadOnly.antt =====
-- `lookup` and `getattr` of src/main.rs agree.
use whenfs.Prelude.{
  ℕ, ◌≤◌, ◌≡◌, refl, sym, ◌∙◌, inl, inr, false, Option, none, some, arith, eqb, nat_key, Bool-cases,
  Option-cases, ==_iff,
}
use whenfs.Prelude.Text.{Text}
use whenfs.HashMap
use whenfs.HashMap.{HashMap, get-insert, get-remove}
use whenfs.FilePath.{FilePath, of_text, join, path_key}
use whenfs.TimeExpr.{done, panicked, unfinished}
use whenfs.TimeExpr.Resolve.{resolve}
use whenfs.WhenFs.{
  World, WhenFs, FileAttr, Metadata, root_ino, attr_for, ino_for_path, path_for_ino,
}
use whenfs.WhenFs.Handlers.{
  lookup, getattr, error, entry, attr, enoent, entry_for, attr_of_path, handle, handle_lookup,
  handle_getattr,
}
use whenfs.WhenFs.Inodes.{IsTable, HasRoom}
use whenfs.WhenFs.Requests.{Outcome-cases}

module _ {File : Type 0} (w : World File) where
  getattr_at :
      (path : FilePath) (ino : ℕ) (fs : WhenFs File) (meta : Metadata)
      → path_for_ino ino fs ≡ some path
      → 2 ≤ ino
      → w.symlink_metadata path ≡ some meta
      → handle_getattr w ino fs ≡ done (attr (attr_for ino meta), fs)
  unfolding handle_getattr
  getattr_at path ino fs meta known two found =
      let below : eqb ino root_ino ≡ false = ground arith in
      rw (handle_getattr, below, known, attr_of_path, found) refl

  module _ (path : FilePath) (fs : WhenFs File) (t : IsTable fs) (room : HasRoom fs 1) where
    -- The inode of a path leads back to it, and is not the root's.
    ino_for_path-back :
        let (ino, fs') = ino_for_path path fs in (path_for_ino ino fs' ≡ some path) × (2 ≤ ino)
    unfolding ino_for_path path_for_ino
    ino_for_path-back = elim (Option-cases (HashMap.get path fs.ino_of)) [
      | inr (i, known) ↦
          rw (ino_for_path, known) (t.back path i known, (t.bound i path (t.back path i known)).0)
      | inl new_path ↦
          rw (ino_for_path, new_path)
            (
              ground (
                arith,
                get-insert fs.next_ino fs.next_ino path fs.path_of,
                ==_iff fs.next_ino fs.next_ino,
              ),
              t.two,
            )
    ]

    entry_for-getattr :
        (a : FileAttr) (fs' : WhenFs File)
        → entry_for w path fs ≡ done (entry a, fs')
        → handle_getattr w a.ino fs' ≡ done (attr a, fs')
    unfolding attr_for
    entry_for-getattr a fs' h = elim (Option-cases (w.symlink_metadata path)) [
      | inl gone ↦
          let e : entry_for w path fs ≡ done (error enoent, fs) = rw (entry_for, gone) refl in
          cc (h, e)
      | inr (meta, found) ↦
          let (ino, fs'') = ino_for_path path fs in
          let e : entry_for w path fs ≡ done (entry (attr_for ino meta), fs'') =
            rw (entry_for, found) refl in
          let same : a ≡ attr_for ino meta = cc (h, e) in
          let after : fs' ≡ fs'' = cc (h, e) in
          rw (same, after)
            (getattr_at path ino fs'' meta ino_for_path-back.0 ino_for_path-back.1 found)
    ]

  -- What `lookup` answers, `getattr` answers for the inode that it gave: the same attributes, as long
  -- as the disk has not changed.
  pub lookup-getattr :
      (parent : ℕ) (name : Option Text) (fs fs' : WhenFs File) (a : FileAttr)
      → IsTable fs
      → HasRoom fs 1
      → handle w (lookup parent name) fs ≡ done (entry a, fs')
      → handle w (getattr a.ino) fs' ≡ done (attr a, fs')
  unfolding handle handle_lookup
  lookup-getattr parent none fs fs' a t room h = cc h
  lookup-getattr parent (some name) fs fs' a t room h = elim (Bool-cases (eqb parent root_ino)) [
    | inl root ↦ elim (Outcome-cases (resolve w.cal w.snapshots w.is_dir w.now fs.snap_root name)) [
      | inl (inl p) ↦
          let e : handle_lookup w parent (some name) fs ≡ panicked =
            rw (handle_lookup, root, p) refl in
          cc (h, e)
      | inl (inr u) ↦
          let e : handle_lookup w parent (some name) fs ≡ unfinished =
            rw (handle_lookup, root, u) refl in
          cc (h, e)
      | inr (inl n) ↦
          let e : handle_lookup w parent (some name) fs ≡ done (error enoent, fs) =
            rw (handle_lookup, root, n) refl in
          cc (h, e)
      | inr (inr (target, r)) ↦
          let e : handle_lookup w parent (some name) fs ≡ entry_for w target fs =
            rw (handle_lookup, root, r) refl in
          entry_for-getattr target fs t room a fs' (sym e ∙ h)
    ]
    | inr below ↦ elim (Option-cases (path_for_ino parent fs)) [
      | inl unknown ↦
          let e : handle_lookup w parent (some name) fs ≡ done (error enoent, fs) =
            rw (handle_lookup, below, unknown) refl in
          cc (h, e)
      | inr (p, known) ↦
          let path = join p (of_text name) in
          let e : handle_lookup w parent (some name) fs ≡ entry_for w path fs =
            rw (handle_lookup, below, known) refl in
          entry_for-getattr path fs t room a fs' (sym e ∙ h)
    ]
  ]
