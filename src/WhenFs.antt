-- ===== src/WhenFs.antt =====
-- src/main.rs: the read-only file system of snapshots. A request is one call of a handler. What the
-- kernel, the disk and the clock answer in it is the parameter `World`; `File` is an open file.
pub mod Handlers
pub mod Inodes
pub mod Requests
pub mod Steps
pub mod ReadOnly
mod Tests
use Prim.Native.Nat.{bit_and}
use whenfs.Prelude.{
  ℕ, suc, ◌+◌, ◌%◌, ◌^◌, Bool, true, false, not, Option, none, some, List, [], ◌∷◌, if◌then◌else◌,
  eqb, nat_key,
}
use whenfs.Prelude.Text.{Text}
use whenfs.HashMap
use whenfs.HashMap.{HashMap}
use whenfs.FilePath.{FilePath, path_key}
use whenfs.TimeExpr.{Calendar, DirEntry}

pub data FileType : Type 0 where
  directory symlink regular_file : FileType

-- `fs::Metadata`, as far as it is read. Times are seconds since the epoch.
pub record Metadata : Type 0 where
  pub is_dir : Bool
  pub is_symlink : Bool
  pub mode : ℕ
  pub size : ℕ
  pub blocks : ℕ
  pub accessed : Option ℕ
  pub modified : Option ℕ
  pub nlink : ℕ
  pub uid : ℕ
  pub gid : ℕ

pub record FileAttr : Type 0 where
  pub ino : ℕ
  pub size : ℕ
  pub blocks : ℕ
  pub atime : ℕ
  pub mtime : ℕ
  pub ctime : ℕ
  pub crtime : ℕ
  pub kind : FileType
  pub perm : ℕ
  pub nlink : ℕ
  pub uid : ℕ
  pub gid : ℕ
  pub rdev : ℕ
  pub blksize : ℕ
  pub flags : ℕ

-- An entry of a directory that could be read: `path()`, `file_type()` and the lossy `file_name()`.
pub record Child : Type 0 where
  pub path : FilePath
  pub file_type : Option FileType
  pub name : Text

-- An entry of the answer of `readdir`: the number that stands for the next one comes with it.
pub record Slot : Type 0 where
  pub ino : ℕ
  pub offset : ℕ
  pub kind : FileType
  pub name : Text

pub record World (File : Type 0) : Type 1 where
  pub cal : Calendar
  pub now : cal.DateTime
  pub time : ℕ
  -- `read_dir` of the directory of snapshots, and `is_dir`.
  pub snapshots : Option (List (Option DirEntry))
  pub is_dir : FilePath → Bool
  pub symlink_metadata : FilePath → Option Metadata
  pub read_dir : FilePath → Option (List Child)
  pub open_file : FilePath → Option File
  pub seek : File → ℕ → Option File
  pub read : File → ℕ → Option (List ℕ) × File
  -- `reply.add`: is there room for one more entry?
  pub has_room : List Slot → Slot → Bool
  pub uid : ℕ
  pub gid : ℕ

abbrev pub root_ino : ℕ
root_ino = 1

pub record WhenFs (File : Type 0) : Type 0 where
  pub snap_root : FilePath
  pub next_ino : ℕ
  pub path_of : HashMap ℕ FilePath
  pub ino_of : HashMap FilePath ℕ
  pub handles : HashMap ℕ File
  pub next_fh : ℕ

-- `fetch_add(1)` on 64 bits.
abbrev pub fetch_add : ℕ → ℕ
fetch_add n = (n + 1) % 2 ^ 64

abbrev or_zero : Option ℕ → ℕ
or_zero none = 0
or_zero (some t) = t

abbrev file_type : Bool → Bool → FileType
file_type true s = directory
file_type false true = symlink
file_type false false = regular_file

-- `attr_for`. 0o555 is 365.
unfoldable pub attr_for : ℕ → Metadata → FileAttr
attr_for ino meta = record {
  ino = ino;
  size = meta.size;
  blocks = meta.blocks;
  atime = or_zero meta.accessed;
  mtime = or_zero meta.modified;
  ctime = or_zero meta.modified;
  crtime = 0;
  kind = file_type meta.is_dir meta.is_symlink;
  perm = bit_and meta.mode 365 % 2 ^ 16;
  nlink = meta.nlink % 2 ^ 32;
  uid = meta.uid;
  gid = meta.gid;
  rdev = 0;
  blksize = 4096;
  flags = 0;
}

module _ {File : Type 0} where
  unfoldable pub new : FilePath → WhenFs File
  new snap_root = record {
    snap_root = snap_root;
    next_ino = 2;
    path_of = [];
    ino_of = [];
    handles = [];
    next_fh = 1;
  }

  unfoldable pub ino_for_path : FilePath → WhenFs File → ℕ × WhenFs File
  ino_for_path path fs = elim (HashMap.get path fs.ino_of) [
    | some ino ↦ (ino, fs)
    | none ↦ (
      fs.next_ino,
      record fs {
        next_ino = fetch_add fs.next_ino;
        ino_of = HashMap.insert path fs.next_ino fs.ino_of;
        path_of = HashMap.insert fs.next_ino path fs.path_of;
      },
    )
  ]

  unfoldable pub path_for_ino : ℕ → WhenFs File → Option FilePath
  path_for_ino ino fs = HashMap.get ino fs.path_of
