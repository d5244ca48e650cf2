-- ===== src/Daemon/Fid.antt =====
-- `resolve_dfid_name` and `fid_watcher` of src/bin/whodidd.rs: the records of an event that name its
-- path, and the loop over them. Offsets stand from the start of the event's record, at `base`.
use whenfs.Prelude.{
  ℕ, zero, suc, ◌+◌, ◌-◌, Bool, true, false, Option, none, some, List, [], ◌∷◌, ◌++◌, if◌then◌else◌,
  eqb, ltb, leb, ◌||◌, length,
}
use whenfs.Prelude.Text.{Text, text}
use whenfs.Daemon.{on_fid}
use whenfs.Daemon.Buffer.{
  Access, done, unfinished, ◌>>=◌, Metadata, Header, Libc, is_negative, read_at, event_loop,
}
use whenfs.Daemon.Legacy.{Kernel, Served, fill}

abbrev pub is_nul : List ℕ → Bool
is_nul [] = true
is_nul (c ∷ _) = eqb c 0

-- `while name_end < record_end && *base.add(name_end) != 0`, in at most so many rounds.
unfoldable pub name_loop : List ℕ → ℕ → ℕ → ℕ → ℕ → Access ℕ
unfolding read_at
name_loop buf base record_end zero name_end =
    if ltb name_end record_end then unfinished else done name_end
name_loop buf base record_end (suc rounds) name_end = elim (ltb name_end record_end) [
  | false ↦ done name_end
  | true ↦ read_at (base + name_end) 1 buf >>= λ b. elim (is_nul b) [
    | true ↦ done name_end
    | false ↦ name_loop buf base record_end rounds (suc name_end)
  ]
]

-- The path, and the descriptors that were closed on the way.
abbrev pub Resolved : Type 0
Resolved = Option Text × List ℕ

abbrev path_in : Text → Text → Text
path_in parent [] = parent
path_in parent (c ∷ filename) = parent ++ text "/" ++ c ∷ filename

abbrev named : Option Text → Text → Option Text
named none filename = none
named (some parent) filename = some (path_in parent filename)

-- The parent directory, by its handle, and the name in it.
abbrev pub open_parent : Kernel → ℕ → List ℕ → Text → Resolved
open_parent k at fh_buf filename = elim (k.open_by_handle at fh_buf) [
  | none ↦ (none, [])
  | some dir_fd ↦ (named (k.link at dir_fd) filename, dir_fd ∷ [])
]

module _ (lib : Libc) (k : Kernel) (buf : List ℕ) (base : ℕ) where
  unfoldable pub resolve_handle : ℕ → ℕ → ℕ → List ℕ → List ℕ → Access Resolved
  unfolding read_at name_loop
  resolve_handle info_offset record_end f_handle_start handle_bytes handle_type =
      let name_start = f_handle_start + lib.word handle_bytes in
      elim (ltb record_end name_start) [
        | true ↦ done (none, [])
        | false ↦ name_loop buf base record_end (record_end - name_start) name_start >>= λ name_end.
            read_at (base + name_start) (name_end - name_start) buf >>= λ filename.
            read_at (base + f_handle_start) (lib.word handle_bytes) buf >>= λ raw_handle. done (
              open_parent k (base + info_offset)
                (lib.bytes (lib.word handle_bytes)
                  ++ lib.bytes (lib.word handle_type)
                  ++ raw_handle)
                ((k.system (base + info_offset)).lossy filename))
      ]

  unfoldable pub resolve_dfid_name : ℕ → ℕ → Access Resolved
  unfolding resolve_handle
  resolve_dfid_name info_offset record_end =
      let fh_hdr_start = info_offset + lib.header_size + lib.fsid_size in
      elim (ltb record_end (fh_hdr_start + 8)) [
        | true ↦ done (none, [])
        | false ↦ read_at (base + fh_hdr_start) 4 buf >>= λ handle_bytes.
            read_at (base + (fh_hdr_start + 4)) 4 buf >>= λ handle_type.
            resolve_handle info_offset record_end (fh_hdr_start + 8) handle_bytes handle_type
      ]

-- The three slots, and the descriptors of parents that were closed.
pub record Names : Type 0 where
  pub dfid_name : Option Text
  pub old_name : Option Text
  pub new_name : Option Text
  pub closed : List ℕ

-- `FAN_EVENT_INFO_TYPE_DFID_NAME`, `…_OLD_DFID_NAME` and `…_NEW_DFID_NAME`
abbrev pub is_named : ℕ → Bool
is_named info_type = eqb info_type 2 || eqb info_type 10 || eqb info_type 12

abbrev pub store : ℕ → Resolved → Names → Names
store info_type (path, fds) names =
    if eqb info_type 2
    then record names { dfid_name = path; closed = names.closed ++ fds }
    else if eqb info_type 10
    then record names { old_name = path; closed = names.closed ++ fds }
    else record names { new_name = path; closed = names.closed ++ fds }

module _ (lib : Libc) (k : Kernel) (buf : List ℕ) (base event_len : ℕ) where
  -- What one record gives: nothing, if its type is none of the three.
  unfoldable pub info_record : Header → ℕ → Names → Access Names
  unfolding resolve_dfid_name
  info_record hdr info_offset names = elim (is_named hdr.info_type) [
    | false ↦ done names
    | true ↦ resolve_dfid_name lib k buf base info_offset (info_offset + hdr.len) >>= λ r.
        done (store hdr.info_type r names)
  ]

  -- `while info_offset + hdr_size <= meta.event_len`
  unfoldable pub info_loop : ℕ → ℕ → Names → Access Names
  unfolding read_at info_record
  info_loop zero info_offset names =
      if leb (info_offset + lib.header_size) event_len then unfinished else done names
  info_loop (suc rounds) info_offset names = elim (leb (info_offset + lib.header_size) event_len) [
    | false ↦ done names
    | true ↦ read_at (base + info_offset) lib.header_size buf >>= λ b.
        let hdr = lib.header b in
        elim (eqb hdr.len 0 || ltb event_len (info_offset + hdr.len)) [
          | true ↦ done names
          | false ↦ info_record hdr info_offset names >>= info_loop rounds (info_offset + hdr.len)
        ]
  ]

abbrev no_names : Names
no_names = record { dfid_name = none; old_name = none; new_name = none; closed = [] }

-- `if meta.fd >= 0`
abbrev event_fds : Metadata → List ℕ
event_fds m = if is_negative m.fd then [] else m.fd ∷ []

abbrev pub finish_event : Kernel → ℕ → Metadata → Served → Names → Served
finish_event k at m s names = record {
  daemon = on_fid (k.system at) names.old_name names.new_name names.dfid_name m.mask m.pid s.daemon;
  closed = s.closed ++ (names.closed ++ event_fds m);
}

unfoldable pub fid_event : Libc → Kernel → List ℕ → ℕ → Metadata → Served → Access Served
unfolding info_loop on_fid
fid_event lib k buf at m s =
    info_loop lib k buf at m.event_len (suc m.event_len) m.metadata_len no_names >>= λ names.
    done (finish_event k at m s names)

-- A read that gives nothing, or fails, ends the loop.
unfoldable pub fid_watcher : Libc → List (Kernel × List ℕ) → List ℕ → Served → Access Served
unfolding event_loop fid_event
fid_watcher lib [] buf s = done s
fid_watcher lib ((k, []) ∷ reads) buf s = done s
fid_watcher lib ((k, c ∷ cs) ∷ reads) buf s =
    let bytes = c ∷ cs in
    event_loop lib (fid_event lib k (fill bytes buf)) (fill bytes buf) (length bytes) (length bytes)
      0 s
    >>= fid_watcher lib reads (fill bytes buf)
