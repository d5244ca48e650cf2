-- ===== src/Daemon/Rounds.antt =====
-- The loops of the watchers of src/bin/whodidd.rs end, whatever bytes they read.
use whenfs.Prelude.{
  ℕ, zero, suc, ◌+◌, ◌-◌, ◌≤◌, ◌<◌, ◌≢◌, List, [], ◌∷◌, inl, inr, eqb, ltb, leb, ◌||◌, length,
  arith, Bool-cases,
}
use whenfs.Daemon.Buffer.{
  unfinished, Metadata, Header, Libc, read_at, event_loop, event_loop-Ends, read_at-Ends, bind-Ends,
}
use whenfs.Daemon.Legacy.{Kernel, Served, fill, legacy_watcher, legacy_watcher-Ends}
use whenfs.Daemon.Fid.{
  is_nul, name_loop, resolve_handle, resolve_dfid_name, Names, is_named, info_record, info_loop,
  fid_event, fid_watcher,
}

module _ (lib : Libc) (k : Kernel) (buf : List ℕ) (base : ℕ) where
  name_loop-Ends :
      (record_end rounds name_end : ℕ)
      → record_end ≤ name_end + rounds
      → name_loop buf base record_end rounds name_end ≢ unfinished
  unfolding name_loop
  name_loop-Ends record_end zero name_end enough = λ h. ground (arith, h)
  name_loop-Ends record_end (suc rounds) name_end enough =
      elim (Bool-cases (ltb name_end record_end)) [
        | inr out ↦ rw (name_loop, out) (λ h. ground (arith, h))
        | inl more ↦
            rw (name_loop, more)
              (bind-Ends (read_at (base + name_end) 1 buf) _ (read_at-Ends (base + name_end) 1 buf)
                (λ b. elim (Bool-cases (is_nul b)) [
                  | inl z ↦ rw z (λ h. ground (arith, h))
                  | inr nz ↦ rw nz (name_loop-Ends record_end rounds (suc name_end) (omega arith))
                ]))
      ]

  resolve_handle-Ends :
      (info_offset record_end start : ℕ) (hb ht : List ℕ)
      → resolve_handle lib k buf base info_offset record_end start hb ht ≢ unfinished
  unfolding resolve_handle
  resolve_handle-Ends info_offset record_end start hb ht =
      let name_start = start + lib.word hb in
      elim (Bool-cases (ltb record_end name_start)) [
        | inl out ↦ rw (resolve_handle, out) (λ h. ground (arith, h))
        | inr inside ↦
            rw (resolve_handle, inside)
              (bind-Ends (name_loop buf base record_end (record_end - name_start) name_start) _
                (name_loop-Ends record_end (record_end - name_start) name_start (omega arith))
                (λ name_end.
                  bind-Ends (read_at (base + name_start) (name_end - name_start) buf) _
                    (read_at-Ends (base + name_start) (name_end - name_start) buf)
                    (λ filename.
                      bind-Ends (read_at (base + start) (lib.word hb) buf) _
                        (read_at-Ends (base + start) (lib.word hb) buf)
                        (λ raw h. ground (arith, h)))))
      ]

  resolve_dfid_name-Ends :
      (info_offset record_end : ℕ)
      → resolve_dfid_name lib k buf base info_offset record_end ≢ unfinished
  unfolding resolve_dfid_name
  resolve_dfid_name-Ends info_offset record_end =
      let at = info_offset + lib.header_size + lib.fsid_size in
      elim (Bool-cases (ltb record_end (at + 8))) [
        | inl out ↦ rw (resolve_dfid_name, out) (λ h. ground (arith, h))
        | inr inside ↦
            rw (resolve_dfid_name, inside)
              (bind-Ends (read_at (base + at) 4 buf) _ (read_at-Ends (base + at) 4 buf) (λ hb.
                bind-Ends (read_at (base + (at + 4)) 4 buf) _ (read_at-Ends (base + (at + 4)) 4 buf)
                  (λ ht. resolve_handle-Ends info_offset record_end (at + 8) hb ht)))
      ]

  module _ (event_len : ℕ) where
    info_record-Ends :
        (hdr : Header) (info_offset : ℕ) (names : Names)
        → info_record lib k buf base event_len hdr info_offset names ≢ unfinished
    unfolding info_record
    info_record-Ends hdr info_offset names = elim (Bool-cases (is_named hdr.info_type)) [
      | inr other ↦ rw (info_record, other) (λ h. ground (arith, h))
      | inl n ↦
          rw (info_record, n)
            (bind-Ends (resolve_dfid_name lib k buf base info_offset (info_offset + hdr.len)) _
              (resolve_dfid_name-Ends info_offset (info_offset + hdr.len))
              (λ r h. ground (arith, h)))
    ]

    info_loop-Ends :
        (rounds info_offset : ℕ) (names : Names)
        → event_len < info_offset + rounds
        → info_loop lib k buf base event_len rounds info_offset names ≢ unfinished
    unfolding info_loop
    info_loop-Ends zero info_offset names enough = λ h. ground (arith, h)
    info_loop-Ends (suc rounds) info_offset names enough =
        elim (Bool-cases (leb (info_offset + lib.header_size) event_len)) [
          | inr out ↦ rw (info_loop, out) (λ h. ground (arith, h))
          | inl more ↦
              rw (info_loop, more)
                (bind-Ends (read_at (base + info_offset) lib.header_size buf) _
                  (read_at-Ends (base + info_offset) lib.header_size buf)
                  (λ b.
                    let hdr = lib.header b in
                    elim (Bool-cases (eqb hdr.len 0 || ltb event_len (info_offset + hdr.len))) [
                      | inl stop ↦ rw stop (λ h. ground (arith, h))
                      | inr go ↦ rw go (
                          bind-Ends (info_record lib k buf base event_len hdr info_offset names) _
                            (info_record-Ends hdr info_offset names)
                            (λ names'.
                              info_loop-Ends rounds (info_offset + hdr.len) names' (ground arith)))
                    ]))
        ]

fid_event-Ends :
    (lib : Libc) (k : Kernel) (buf : List ℕ) (at : ℕ) (m : Metadata) (s : Served)
    → fid_event lib k buf at m s ≢ unfinished
unfolding fid_event
fid_event-Ends lib k buf at m s =
    bind-Ends (info_loop lib k buf at m.event_len (suc m.event_len) m.metadata_len _) _
      (info_loop-Ends lib k buf at m.event_len (suc m.event_len) m.metadata_len _ (omega arith))
      (λ names h. ground (arith, h))

fid_watcher-Ends :
    (lib : Libc) (reads : List (Kernel × List ℕ)) (buf : List ℕ) (s : Served)
    → 1 ≤ lib.metadata_size
    → fid_watcher lib reads buf s ≢ unfinished
unfolding fid_watcher
fid_watcher-Ends lib [] buf s z = λ h. ground (arith, h)
fid_watcher-Ends lib ((k, []) ∷ reads) buf s z = λ h. ground (arith, h)
fid_watcher-Ends lib ((k, c ∷ cs) ∷ reads) buf s z =
    let bytes = c ∷ cs in
    let n = length bytes in
    let full = fill bytes buf in
    bind-Ends (event_loop lib (fid_event lib k full) full n n 0 s) _
      (event_loop-Ends lib (fid_event lib k full) full n n 0 s z (omega arith)
        (fid_event-Ends lib k full))
      (λ s'. fid_watcher-Ends lib reads full s' z)

-- The loops of both watchers end behind the last read, at one that gives nothing, or at a fault,
-- whatever the bytes are: the rounds suffice that the lengths of a read, of an event and of a record
-- give.
pub watchers_end :
    (lib : Libc) (reads : List (Kernel × List ℕ)) (buf : List ℕ) (s : Served)
    → 1 ≤ lib.metadata_size
    → (legacy_watcher lib reads buf s ≢ unfinished) × (fid_watcher lib reads buf s ≢ unfinished)
watchers_end lib reads buf s z =
    (legacy_watcher-Ends lib reads buf s z, fid_watcher-Ends lib reads buf s z)
