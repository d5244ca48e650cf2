-- ===== src/WhenFs/Inodes.antt =====
-- The two tables of inodes of src/main.rs: what every request keeps of them.
use whenfs.Prelude.{
  ℕ, suc, ◌+◌, ◌≤◌, ◌<◌, ◌^◌, ◌≡◌, inl, inr, none, some, arith, nat_key, ==_iff, Option-cases,
}
use whenfs.HashMap
use whenfs.HashMap.{HashMap, get-insert}
use whenfs.FilePath.{FilePath, path_key}
use whenfs.WhenFs.{WhenFs, new, fetch_add, ino_for_path}

fetch_add_lem : (n k : ℕ) → n + suc k < 2 ^ 64 → fetch_add n ≡ n + 1
fetch_add_lem n k h = omega arith

module _ {File : Type 0} where
  -- Each inode stands for one path and each path for one inode; the inode of the root and those not
  -- given out yet stand for none.
  pub record IsTable (fs : WhenFs File) : Type 0 where
    pub two : 2 ≤ fs.next_ino
    pub bound :
        (i : ℕ) (p : FilePath) → HashMap.get i fs.path_of ≡ some p → (2 ≤ i) × (i < fs.next_ino)
    pub forth :
        (i : ℕ) (p : FilePath)
        → HashMap.get i fs.path_of ≡ some p
        → HashMap.get p fs.ino_of ≡ some i
    pub back :
        (p : FilePath) (i : ℕ)
        → HashMap.get p fs.ino_of ≡ some i
        → HashMap.get i fs.path_of ≡ some p

  -- At most n inodes were given out, and none changed its path.
  pub record Kept (n : ℕ) (fs fs' : WhenFs File) : Type 0 where
    pub table : IsTable fs'
    pub next : fs'.next_ino ≤ fs.next_ino + n
    pub grows :
        (i : ℕ) (p : FilePath)
        → HashMap.get i fs.path_of ≡ some p
        → HashMap.get i fs'.path_of ≡ some p

  abbrev pub HasRoom : WhenFs File → ℕ → Type 0
  HasRoom fs n = fs.next_ino + n < 2 ^ 64

  pub Kept-less : (n : ℕ) (a b : WhenFs File) → Kept n a b → Kept (suc n) a b
  Kept-less n a b k = record { table = k.table; next = omega (arith, k.next); grows = k.grows }

  pub Kept-none : (n : ℕ) (fs : WhenFs File) → IsTable fs → Kept n fs fs
  Kept-none n fs t = record { table = t; next = omega arith; grows = λ i p h. h }

  pub Kept-more : (n : ℕ) (a b c : WhenFs File) → Kept 1 a b → Kept n b c → Kept (suc n) a c
  Kept-more n a b c k l = record {
    table = l.table;
    next = omega (arith, k.next, l.next);
    grows = λ i p h. l.grows i p (k.grows i p h);
  }

  pub Kept-both : (m n : ℕ) (a b c : WhenFs File) → Kept m a b → Kept n b c → Kept (m + n) a c
  Kept-both m n a b c k l = record {
    table = l.table;
    next = omega (arith, k.next, l.next);
    grows = λ i p h. l.grows i p (k.grows i p h);
  }

  module _ (path : FilePath) (fs : WhenFs File) (t : IsTable fs) (k : ℕ)
      (room : HasRoom fs (suc k)) where
    abbrev fresh : WhenFs File
    fresh = record fs {
      next_ino = fetch_add fs.next_ino;
      ino_of = HashMap.insert path fs.next_ino fs.ino_of;
      path_of = HashMap.insert fs.next_ino path fs.path_of;
    }

    fresh-IsTable : HashMap.get path fs.ino_of ≡ none → IsTable fresh
    fresh-IsTable new_path = record {
      two = omega (arith, t.two, fetch_add_lem fs.next_ino k room);
      bound = λ i p h. ground (
        arith,
        h,
        t.two,
        t.bound i p,
        fetch_add_lem fs.next_ino k room,
        get-insert fs.next_ino i path fs.path_of,
        ==_iff fs.next_ino i,
      );
      forth = λ i p h. ground (
        arith,
        h,
        t.forth i p,
        t.bound i p,
        get-insert fs.next_ino i path fs.path_of,
        ==_iff fs.next_ino i,
        get-insert path p fs.next_ino fs.ino_of,
        ==_iff path p,
      );
      back = λ p i h. ground (
        arith,
        h,
        t.back p i,
        t.bound i p,
        get-insert fs.next_ino i path fs.path_of,
        ==_iff fs.next_ino i,
        get-insert path p fs.next_ino fs.ino_of,
        ==_iff path p,
      );
    }

    pub ino_for_path-Kept : Kept 1 fs (ino_for_path path fs).1
    unfolding ino_for_path
    ino_for_path-Kept = elim (Option-cases (HashMap.get path fs.ino_of)) [
      | inr (i, known) ↦ rw (ino_for_path, known) (Kept-none 1 fs t)
      | inl new_path ↦
          rw (ino_for_path, new_path)
            (record {
              table = fresh-IsTable new_path;
              next = omega (arith, fetch_add_lem fs.next_ino k room);
              grows = λ i p h. ground (
                arith,
                h,
                t.bound i p,
                get-insert fs.next_ino i path fs.path_of,
                ==_iff fs.next_ino i,
              );
            })
    ]

  -- The table that `new` makes.
  pub new-IsTable : (snap_root : FilePath) → IsTable (new {File = File} snap_root)
  unfolding new HashMap.get
  new-IsTable snap_root = record {
    two = omega arith;
    bound = λ i p h. cc h;
    forth = λ i p h. cc h;
    back = λ p i h. cc h;
  }
