-- ===== src/Daemon/Legacy.antt =====
-- `legacy_watcher` of src/bin/whodidd.rs, behind its set-up: the reads, the events in each, and the
-- descriptors that come with them.
use whenfs.Prelude.{
  ℕ, ◌+◌, ◌≤◌, ◌≢◌, Option, none, some, List, [], ◌∷◌, ◌++◌, if◌then◌else◌, length, arith,
}
use whenfs.Prelude.Text.{Text}
use whenfs.Daemon.{System, Daemon, on_legacy}
use whenfs.Daemon.Buffer.{
  Access, done, unfinished, ◌>>=◌, Metadata, Libc, is_negative, drop, event_loop, AreEvents,
  event_loop-Ends, bind-Ends,
}

-- What the kernel answers while the record at an offset is dealt with.
pub record Kernel : Type 0 where
  pub system : ℕ → System
  -- `read_link` on /proc/self/fd, lossy.
  pub link : ℕ → ℕ → Option Text
  -- `open_by_handle_at` with the bytes of a `file_handle`; none is a failure.
  pub open_by_handle : ℕ → List ℕ → Option ℕ

-- What the loop changes: the daemon, and the descriptors it has closed so far.
pub record Served : Type 0 where
  pub daemon : Daemon
  pub closed : List ℕ

abbrev pub or_default : Option Text → Text
or_default none = []
or_default (some t) = t

-- An event with a descriptor is dealt with, and the descriptor closed.
unfoldable pub legacy_event : Kernel → ℕ → Metadata → Served → Served
unfolding on_legacy
legacy_event k at m s = if is_negative m.fd then s else record {
  daemon = on_legacy (k.system at) (or_default (k.link at m.fd)) m.mask m.pid s.daemon;
  closed = s.closed ++ m.fd ∷ [];
}

-- What is in the buffer behind a read of these bytes.
abbrev pub fill : List ℕ → List ℕ → List ℕ
fill bytes buf = bytes ++ drop (length bytes) buf

-- The loop over the reads; one that gives nothing, or fails, ends it (`if n <= 0 { break }`).
unfoldable pub legacy_watcher : Libc → List (Kernel × List ℕ) → List ℕ → Served → Access Served
unfolding event_loop legacy_event
legacy_watcher lib [] buf s = done s
legacy_watcher lib ((k, []) ∷ reads) buf s = done s
legacy_watcher lib ((k, c ∷ cs) ∷ reads) buf s =
    let bytes = c ∷ cs in
    event_loop lib (λ at m s'. done (legacy_event k at m s')) (fill bytes buf) (length bytes)
      (length bytes) 0 s
    >>= legacy_watcher lib reads (fill bytes buf)

-- The reads up to the first that gives nothing are these records, each complete.
abbrev pub AreReads : Libc → List (Kernel × List ℕ) → List ℕ → List (List (List ℕ)) → Type 0
AreReads lib [] buf [] = Unit
AreReads lib ((k, []) ∷ reads) buf [] = Unit
AreReads lib ((k, c ∷ cs) ∷ reads) buf (events ∷ rest) =
    AreEvents lib (fill (c ∷ cs) buf) (length (c ∷ cs)) 0 events
    × AreReads lib reads (fill (c ∷ cs) buf) rest
AreReads lib _ buf _ = ⊥

abbrev pub events_of_read : Libc → Kernel → ℕ → List (List ℕ) → Served → Served
events_of_read lib k at [] s = s
events_of_read lib k at (b ∷ bs) s =
    let m = lib.metadata b in events_of_read lib k (at + m.event_len) bs (legacy_event k at m s)

abbrev pub events_of_reads : Libc → List (Kernel × List ℕ) → List (List (List ℕ)) → Served → Served
events_of_reads lib ((k, c ∷ cs) ∷ reads) (events ∷ rest) s =
    events_of_reads lib reads rest (events_of_read lib k 0 events s)
events_of_reads lib _ _ s = s

pub legacy_watcher-Ends :
    (lib : Libc) (reads : List (Kernel × List ℕ)) (buf : List ℕ) (s : Served)
    → 1 ≤ lib.metadata_size
    → legacy_watcher lib reads buf s ≢ unfinished
unfolding legacy_watcher
legacy_watcher-Ends lib [] buf s z = λ h. ground (arith, h)
legacy_watcher-Ends lib ((k, []) ∷ reads) buf s z = λ h. ground (arith, h)
legacy_watcher-Ends lib ((k, c ∷ cs) ∷ reads) buf s z =
    let bytes = c ∷ cs in
    bind-Ends
      (event_loop lib (λ at m s. done (legacy_event k at m s)) (fill bytes buf) (length bytes)
        (length bytes) 0 s)
      (legacy_watcher lib reads (fill bytes buf))
      (event_loop-Ends lib (λ at m s. done (legacy_event k at m s)) (fill bytes buf) (length bytes)
        (length bytes) 0 s z (omega arith) (λ at m s' h. ground (arith, h)))
      (λ s'. legacy_watcher-Ends lib reads (fill bytes buf) s' z)
