-- ===== src/WhenFs/Handlers.antt =====
-- The handlers of src/main.rs. Each gives the reply and the state after it, or a panic, which only
-- `time_expr::resolve` can raise.
use Prim.Native.Nat.{bit_and}
use whenfs.Prelude.{
  ℕ, zero, suc, ◌+◌, true, false, not, Option, none, some, List, [], ◌∷◌, ◌++◌, if◌then◌else◌, eqb,
  nat_key,
}
use whenfs.Prelude.Text.{Text, text}
use whenfs.HashMap
use whenfs.HashMap.{HashMap}
use whenfs.FilePath.{FilePath, of_text, join, path_key}
use whenfs.TimeExpr.{Outcome, done, panicked, unfinished}
use whenfs.TimeExpr.Resolve.{resolve}
use whenfs.WhenFs.{
  FileType, directory, regular_file, FileAttr, Child, Slot, World, WhenFs, root_ino, fetch_add,
  attr_for, ino_for_path, path_for_ino,
}

pub data Errno : Type 0 where
  enoent erofs eacces : Errno

pub data Reply : Type 0 where
  error : Errno → Reply
  entry attr : FileAttr → Reply
  opened : ℕ → Reply
  bytes : List ℕ → Reply
  listing : List Slot → Reply
  empty : Reply

-- The parameters that a handler reads.
pub data Request : Type 0 where
  lookup : ℕ → Option Text → Request
  getattr : ℕ → Request
  readdir : ℕ → ℕ → Request
  opendir : ℕ → Request
  open_at : ℕ → ℕ → Request
  read_at : ℕ → ℕ → ℕ → Request
  release : ℕ → Request
  setattr : ℕ → Request
  write : ℕ → ℕ → Request
  mkdir create unlink rmdir : ℕ → Text → Request
  rename : ℕ → Text → ℕ → Text → Request

-- `skip(n)`
abbrev pub skip {ℓ} : {A : Type ℓ} → ℕ → List A → List A
skip zero l = l
skip (suc n) [] = []
skip (suc n) (x ∷ l) = skip n l

-- `O_WRONLY | O_RDWR | O_CREAT | O_TRUNC` of Linux.
abbrev pub write_flags : ℕ
write_flags = 1 + 2 + 64 + 512

abbrev pub shortcuts : List Text
shortcuts = text "now" ∷ text "today" ∷ text "yesterday" ∷ text "last-week" ∷ text "last-month" ∷ []

-- An entry before it is numbered.
pub record Listed : Type 0 where
  pub ino : ℕ
  pub kind : FileType
  pub name : Text

abbrev pub numbered : ℕ → List Listed → List Slot
numbered i [] = []
numbered i (l ∷ ls) =
    record { ino = l.ino; offset = i + 1; kind = l.kind; name = l.name } ∷ numbered (i + 1) ls

abbrev pub Handler : Type 0 → Type 0
Handler File = WhenFs File → Outcome (Reply × WhenFs File)

abbrev pub or_regular : Option FileType → FileType
or_regular none = regular_file
or_regular (some k) = k

abbrev pub or_empty : Option (List Child) → List Child
or_empty none = []
or_empty (some cs) = cs

abbrev pub dots : ℕ → List Listed
dots ino =
    record { ino = ino; kind = directory; name = text "." }
    ∷ record { ino = ino; kind = directory; name = text ".." }
    ∷ []

abbrev reply_of : Option (List ℕ) → Reply
reply_of none = error eacces
reply_of (some b) = bytes b

module _ {File : Type 0} where
  abbrev pub fail : Errno → Handler File
  fail e fs = done (error e, fs)

  -- `symlink_metadata`, and an entry for the path if there is one.
  abbrev pub entry_for : World File → FilePath → Handler File
  entry_for w path fs = elim (w.symlink_metadata path) [
    | none ↦ fail enoent fs
    | some meta ↦ let (ino, fs') = ino_for_path path fs in done (entry (attr_for ino meta), fs')
  ]

  unfoldable pub handle_lookup : World File → ℕ → Option Text → Handler File
  unfolding ino_for_path path_for_ino attr_for
  handle_lookup w parent none fs = fail enoent fs
  handle_lookup w parent (some name) fs = elim (eqb parent root_ino) [
    | true ↦ elim (resolve w.cal w.snapshots w.is_dir w.now fs.snap_root name) [
      | panicked ↦ panicked
      | unfinished ↦ unfinished
      | done none ↦ fail enoent fs
      | done (some target) ↦ entry_for w target fs
    ]
    | false ↦ elim (path_for_ino parent fs) [
      | none ↦ fail enoent fs
      | some p ↦ entry_for w (join p (of_text name)) fs
    ]
  ]

  abbrev root_attr : World File → FileAttr
  root_attr w = record {
    ino = root_ino;
    size = 0;
    blocks = 0;
    atime = w.time;
    mtime = w.time;
    ctime = w.time;
    crtime = w.time;
    kind = directory;
    perm = 365;
    nlink = 2;
    uid = w.uid;
    gid = w.gid;
    rdev = 0;
    blksize = 4096;
    flags = 0;
  }

  -- The attributes of the path of an inode.
  abbrev pub attr_of_path : World File → ℕ → Option FilePath → Handler File
  attr_of_path w ino none fs = fail enoent fs
  attr_of_path w ino (some path) fs = elim (w.symlink_metadata path) [
    | none ↦ fail enoent fs
    | some meta ↦ done (attr (attr_for ino meta), fs)
  ]

  unfoldable pub handle_getattr : World File → ℕ → Handler File
  unfolding path_for_ino attr_for
  handle_getattr w ino fs =
      if eqb ino root_ino
      then done (attr (root_attr w), fs)
      else attr_of_path w ino (path_for_ino ino fs) fs

  abbrev pub listed_first :
      Listed → Outcome (List Listed × WhenFs File) → Outcome (List Listed × WhenFs File)
  listed_first l panicked = panicked
  listed_first l unfinished = unfinished
  listed_first l (done (ls, fs)) = done (l ∷ ls, fs)

  -- The entries of the root: a shortcut for each expression that resolves.
  unfoldable pub list_root :
      World File → List Text → WhenFs File → Outcome (List Listed × WhenFs File)
  unfolding ino_for_path
  list_root w [] fs = done ([], fs)
  list_root w (name ∷ names) fs =
      elim (resolve w.cal w.snapshots w.is_dir w.now fs.snap_root name) [
        | panicked ↦ panicked
        | unfinished ↦ unfinished
        | done none ↦ list_root w names fs
        | done (some target) ↦
            let (ino, fs') = ino_for_path fs.snap_root fs in
            listed_first (record { ino = ino; kind = directory; name = name })
              (list_root w names fs')
      ]

  -- The entries of a directory.
  unfoldable pub list_children : List Child → WhenFs File → List Listed × WhenFs File
  unfolding ino_for_path
  list_children [] fs = ([], fs)
  list_children (c ∷ cs) fs =
      let (ino, fs') = ino_for_path c.path fs in
      let (ls, fs'') = list_children cs fs' in
      (record { ino = ino; kind = or_regular c.file_type; name = c.name } ∷ ls, fs'')

  -- `reply.add` until the answer is full.
  unfoldable pub fill : World File → List Slot → List Slot → List Slot
  fill w sent [] = sent
  fill w sent (s ∷ slots) = if w.has_room sent s then fill w (sent ++ s ∷ []) slots else sent

  abbrev pub answer :
      World File → ℕ → ℕ → Outcome (List Listed × WhenFs File) → Outcome (Reply × WhenFs File)
  answer w ino offset panicked = panicked
  answer w ino offset unfinished = unfinished
  answer w ino offset (done (ls, fs)) =
      done (listing (fill w [] (skip offset (numbered 0 (dots ino ++ ls)))), fs)

  unfoldable pub handle_readdir : World File → ℕ → ℕ → Handler File
  unfolding list_root list_children fill path_for_ino
  handle_readdir w ino offset fs = elim (eqb ino root_ino) [
    | true ↦ answer w ino offset (list_root w shortcuts fs)
    | false ↦ elim (path_for_ino ino fs) [
      | none ↦ fail enoent fs
      | some path ↦ answer w ino offset (done (list_children (or_empty (w.read_dir path)) fs))
    ]
  ]

  unfoldable pub handle_open : World File → ℕ → ℕ → Handler File
  unfolding path_for_ino
  handle_open w ino flags fs =
      if not (eqb (bit_and flags write_flags) 0)
      then fail erofs fs
      else (elim (path_for_ino ino fs) [
        | none ↦ fail enoent fs
        | some path ↦ elim (w.open_file path) [
          | none ↦ fail eacces fs
          | some f ↦ done (
            opened fs.next_fh,
            record fs {
              next_fh = fetch_add fs.next_fh;
              handles = HashMap.insert fs.next_fh f fs.handles;
            },
          )
        ]
      ])

  unfoldable pub handle_read : World File → ℕ → ℕ → ℕ → Handler File
  handle_read w fh offset size fs = elim (HashMap.get fh fs.handles) [
    | none ↦ fail enoent fs
    | some f ↦ elim (w.seek f offset) [
      | none ↦ fail eacces fs
      | some g ↦
          let (r, h) = w.read g size in
          done (reply_of r, record fs { handles = HashMap.insert fh h fs.handles })
    ]
  ]

  unfoldable pub handle_release : ℕ → Handler File
  handle_release fh fs = done (empty, record fs { handles = HashMap.remove fh fs.handles })

  unfoldable pub handle_setattr : World File → ℕ → Handler File
  unfolding path_for_ino attr_for
  handle_setattr w ino fs = attr_of_path w ino (path_for_ino ino fs) fs

  unfoldable pub handle : World File → Request → Handler File
  unfolding handle_lookup handle_getattr handle_readdir handle_open handle_read handle_release
      handle_setattr
  handle w (lookup parent name) fs = handle_lookup w parent name fs
  handle w (getattr ino) fs = handle_getattr w ino fs
  handle w (readdir ino offset) fs = handle_readdir w ino offset fs
  handle w (opendir ino) fs = done (opened 0, fs)
  handle w (open_at ino flags) fs = handle_open w ino flags fs
  handle w (read_at fh offset size) fs = handle_read w fh offset size fs
  handle w (release fh) fs = handle_release fh fs
  handle w (setattr ino) fs = handle_setattr w ino fs
  handle w (write ino fh) fs = fail erofs fs
  handle w (mkdir parent name) fs = fail erofs fs
  handle w (create parent name) fs = fail erofs fs
  handle w (unlink parent name) fs = fail erofs fs
  handle w (rmdir parent name) fs = fail erofs fs
  handle w (rename parent name to to_name) fs = fail erofs fs
