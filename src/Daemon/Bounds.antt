-- ===== src/Daemon/Bounds.antt =====
-- The reads of `fid_watcher` in src/bin/whodidd.rs: where they stay inside the buffer.
use whenfs.Prelude.{
  ℕ, zero, suc, ◌+◌, ◌-◌, ◌≡◌, refl, ◌≤◌, ◌<◌, true, List, [], ◌∷◌, inl, inr, eqb, ltb, leb, ◌||◌,
  length, length-append, arith, Bool-cases,
}
use whenfs.Daemon.Buffer.{
  Access, done, fault, unfinished, ◌>>=◌, Metadata, Header, Libc, take, drop, read_at, event_loop,
  AreEvents, serve_all, event_loop-serve_all,
}
use whenfs.Daemon.Legacy.{Kernel, Served, fill, AreReads}
use whenfs.Daemon.Fid.{
  is_nul, name_loop, resolve_handle, resolve_dfid_name, Names, is_named, info_record, info_loop,
  fid_event, fid_watcher,
}

-- A result, not a fault.
abbrev pub IsDone {ℓ} : {A : Type ℓ} → Access A → Type ℓ
IsDone {A = A} r = (a : A) × (r ≡ done a)

bind-IsDone {ℓ κ} :
    {A : Type ℓ} {B : Type κ} (r : Access A) (f : A → Access B)
    → IsDone r
    → ((a : A) → r ≡ done a → IsDone (f a))
    → IsDone (r >>= f)
bind-IsDone (done a) f d h = h a refl
bind-IsDone fault f d h = ground (arith, d.1)
bind-IsDone unfinished f d h = ground (arith, d.1)

module _ (buf : List ℕ) where
  read_at-IsDone : (offset len : ℕ) → offset + len ≤ length buf → IsDone (read_at offset len buf)
  unfolding read_at
  read_at-IsDone offset len h = (take len (drop offset buf), ground (arith, h))

  module _ (base record_end : ℕ) (within : base + record_end ≤ length buf) where
    abbrev EndsWithin : ℕ → ℕ → Type 0
    EndsWithin rounds name_end =
        (e : ℕ) × (name_loop buf base record_end rounds name_end ≡ done e)
        × name_end ≤ e
        × e ≤ record_end

    next_byte :
        (rounds name_end : ℕ) (b : List ℕ)
        → ltb name_end record_end ≡ true
        → read_at (base + name_end) 1 buf ≡ done b
        → EndsWithin rounds (suc name_end)
        → EndsWithin (suc rounds) name_end
    unfolding name_loop
    next_byte rounds name_end b more got (e, ends, after, before) = elim (Bool-cases (is_nul b)) [
      | inl z ↦ rw (name_loop, more, got, ◌>>=◌, z) (name_end, refl, omega arith, ground arith)
      | inr nz ↦ rw (name_loop, more, got, ◌>>=◌, nz) (e, ends, omega arith, before)
    ]

    name_loop-IsDone :
        (rounds name_end : ℕ)
        → name_end ≤ record_end
        → record_end ≤ name_end + rounds
        → EndsWithin rounds name_end
    unfolding name_loop
    name_loop-IsDone zero name_end h enough = (name_end, ground arith, omega arith, h)
    name_loop-IsDone (suc rounds) name_end h enough = elim (Bool-cases (ltb name_end record_end)) [
      | inr out ↦ rw (name_loop, out) (name_end, refl, omega arith, h)
      | inl more ↦
          let (b, got) = read_at-IsDone (base + name_end) 1 (ground arith) in
          next_byte rounds name_end b more got
            (name_loop-IsDone rounds (suc name_end) (ground arith) (omega arith))
    ]

  module _ (lib : Libc) (k : Kernel) (base : ℕ) where
    resolve_handle-IsDone :
        (info_offset record_end f_handle_start : ℕ) (hb ht : List ℕ)
        → base + record_end ≤ length buf
        → IsDone (resolve_handle lib k buf base info_offset record_end f_handle_start hb ht)
    unfolding resolve_handle
    resolve_handle-IsDone info_offset record_end start hb ht within =
        elim (Bool-cases (ltb record_end (start + lib.word hb))) [
          | inl out ↦ rw (resolve_handle, out) (_, refl)
          | inr inside ↦
              let name_start = start + lib.word hb in
              let (e, ends, after, before) =
                name_loop-IsDone base record_end within (record_end - name_start) name_start
                  (ground arith) (omega arith) in
              let (filename, named) =
                read_at-IsDone (base + name_start) (e - name_start) (omega arith) in
              let (raw, handle) = read_at-IsDone (base + start) (lib.word hb) (ground arith) in
              rw (resolve_handle, inside, ends, ◌>>=◌, named, ◌>>=◌, handle, ◌>>=◌) (_, refl)
        ]

    resolve_dfid_name-IsDone :
        (info_offset record_end : ℕ)
        → base + record_end ≤ length buf
        → IsDone (resolve_dfid_name lib k buf base info_offset record_end)
    unfolding resolve_dfid_name
    resolve_dfid_name-IsDone info_offset record_end within =
        let at = info_offset + lib.header_size + lib.fsid_size in
        elim (Bool-cases (ltb record_end (at + 8))) [
          | inl out ↦ rw (resolve_dfid_name, out) (_, refl)
          | inr inside ↦
              let (hb, got) = read_at-IsDone (base + at) 4 (ground arith) in
              let (ht, typed) = read_at-IsDone (base + (at + 4)) 4 (ground arith) in
              rw (resolve_dfid_name, inside, got, ◌>>=◌, typed, ◌>>=◌)
                (resolve_handle-IsDone info_offset record_end (at + 8) hb ht within)
        ]

    info_record-IsDone :
        (event_len : ℕ) (hdr : Header) (info_offset : ℕ) (names : Names)
        → base + (info_offset + hdr.len) ≤ length buf
        → IsDone (info_record lib k buf base event_len hdr info_offset names)
    unfolding info_record
    info_record-IsDone event_len hdr info_offset names within =
        let (r, resolved) = resolve_dfid_name-IsDone info_offset (info_offset + hdr.len) within in
        elim (Bool-cases (is_named hdr.info_type)) [
          | inl n ↦ rw (info_record, n, resolved, ◌>>=◌) (_, refl)
          | inr other ↦ rw (info_record, other) (_, refl)
        ]

    module _ (event_len : ℕ) (within : base + event_len ≤ length buf) where
      info_loop-IsDone :
          (rounds info_offset : ℕ) (names : Names)
          → event_len < info_offset + rounds
          → IsDone (info_loop lib k buf base event_len rounds info_offset names)
      unfolding info_loop
      info_loop-IsDone zero info_offset names enough = (names, ground arith)
      info_loop-IsDone (suc rounds) info_offset names enough =
          elim (Bool-cases (leb (info_offset + lib.header_size) event_len)) [
            | inr out ↦ rw (info_loop, out) (names, refl)
            | inl more ↦
                let (b, got) = read_at-IsDone (base + info_offset) lib.header_size (ground arith) in
                let hdr = lib.header b in
                elim (Bool-cases (eqb hdr.len 0 || ltb event_len (info_offset + hdr.len))) [
                  | inl stop ↦ rw (info_loop, more, got, ◌>>=◌, stop) (names, refl)
                  | inr go ↦
                      rw (info_loop, more, got, ◌>>=◌, go)
                        (bind-IsDone (info_record lib k buf base event_len hdr info_offset names) _
                          (info_record-IsDone event_len hdr info_offset names (ground arith))
                          (λ names' _.
                            info_loop-IsDone rounds (info_offset + hdr.len) names' (ground arith)))
                ]
          ]

module _ (lib : Libc) (k : Kernel) (buf : List ℕ) where
  fid_event-IsDone :
      (at : ℕ) (m : Metadata) (s : Served)
      → at + m.event_len ≤ length buf
      → IsDone (fid_event lib k buf at m s)
  unfolding fid_event
  fid_event-IsDone at m s within =
      bind-IsDone (info_loop lib k buf at m.event_len (suc m.event_len) m.metadata_len _) _
        (info_loop-IsDone buf lib k at m.event_len within (suc m.event_len) m.metadata_len _
          (omega arith))
        (λ names _. (_, refl))

  all-IsDone :
      (n at : ℕ) (bs : List (List ℕ)) (s : Served)
      → n ≤ length buf
      → AreEvents lib buf n at bs
      → IsDone (serve_all lib (fid_event lib k buf) buf n at bs s)
  unfolding serve_all
  all-IsDone n at [] s within are = (s, refl)
  all-IsDone n at (b ∷ bs) s within (got, full, complete, rest) =
      let m = lib.metadata b in
      bind-IsDone (fid_event lib k buf at m s) _ (fid_event-IsDone at m s (omega arith))
        (λ s' _. all-IsDone n (at + m.event_len) bs s' within rest)

-- Where each read gives complete records, `fid_watcher` reads no byte outside the buffer, whatever
-- lengths, offsets and types stand in the records of the events, and comes to its end.
pub fid_watcher-IsDone :
    (lib : Libc) (reads : List (Kernel × List ℕ)) (buf : List ℕ) (events : List (List (List ℕ)))
    (s : Served)
    → 1 ≤ lib.metadata_size
    → AreReads lib reads buf events
    → IsDone (fid_watcher lib reads buf s)
unfolding fid_watcher
fid_watcher-IsDone lib [] buf [] s z are = (s, refl)
fid_watcher-IsDone lib [] buf (events ∷ rest) s z are = elim are [ ]
fid_watcher-IsDone lib ((k, []) ∷ reads) buf [] s z are = (s, refl)
fid_watcher-IsDone lib ((k, []) ∷ reads) buf (events ∷ rest) s z are = elim are [ ]
fid_watcher-IsDone lib ((k, c ∷ cs) ∷ reads) buf [] s z are = elim are [ ]
fid_watcher-IsDone lib ((k, c ∷ cs) ∷ reads) buf (events ∷ rest) s z (are, more) =
    let bytes = c ∷ cs in
    let n = length bytes in
    let full = fill bytes buf in
    let serve = fid_event lib k full in
    bind-IsDone (event_loop lib serve full n n 0 s) _
      (rw (event_loop-serve_all lib serve full n n 0 events s z (omega arith) are)
        (all-IsDone lib k full n 0 events s (omega (arith, length-append bytes (drop n buf))) are))
      (λ s' _. fid_watcher-IsDone lib reads full rest s' z more)
