-- ===== src/Daemon/Descriptors.antt =====
-- Which descriptors the set-ups of src/bin/whodidd.rs leave open, and which marks they leave.
use mathlib.Core.List.{append-nil, append_assoc}
use whenfs.Prelude.{
  ℕ, ◌≡◌, refl, inl, inr, ◌⊎◌, Option, none, some, List, [], ◌∷◌, ◌++◌, if◌then◌else◌, eqb, any,
  arith, Option-cases, Bool-cases,
}
use whenfs.Prelude.Text.{Text}
use whenfs.Daemon.Buffer.{Libc}
use whenfs.Daemon.Connector.{subscription}
use whenfs.Daemon.Setup.{
  Call, fanotify_init, fanotify_mark, opens, opens_log, socket, binds, sends, closes, Kernel, exits,
  panics, returns, Kind, fan_rename, fan_mark_add, fan_mark_filesystem, Outcome, goes_on, ends,
  ◌>>=◌, pure, stop, issue, unless_negative, or_close, c_string, base_mask, fan_class_notif,
  fan_report_dfid_name, fan_cloexec, fanotify_init_or_die, open_log, mark_fid, anchor, mark_call,
  fid_setup, connector_setup,
}

abbrev add : Option ℕ → List ℕ → List ℕ
add none fds = fds
add (some fd) fds = fds ++ fd ∷ []

abbrev without : ℕ → List ℕ → List ℕ
without fd [] = []
without fd (f ∷ fds) = if eqb f fd then without fd fds else f ∷ without fd fds

without_lem : (fd : ℕ) → without fd (fd ∷ []) ≡ []
without_lem fd = ground arith

abbrev track : Call → Option ℕ → List ℕ → List ℕ
track (fanotify_init flags) answer fds = add answer fds
track (opens path) answer fds = add answer fds
track socket answer fds = add answer fds
track (closes fd) answer fds = without fd fds
track _ answer fds = fds

abbrev held_from : Kernel → List Call → List Call → List ℕ → List ℕ
held_from k before [] fds = fds
held_from k before (c ∷ calls) fds = held_from k (before ++ c ∷ []) calls (track c (k before c) fds)

-- The descriptors that are open after the calls, but for the log, which is closed with its `File`.
abbrev pub held : Kernel → List Call → List ℕ
held k calls = held_from k [] calls []

-- How the set-up of the connector ends.
abbrev pub Connects : Kernel → List ℕ → Outcome ℕ × List Call → Type 0
Connects k bytes (goes_on fd, calls) =
    (calls ≡ socket ∷ binds fd ∷ sends fd bytes ∷ []) × (held k calls ≡ fd ∷ [])
Connects k bytes (ends returns, calls) = held k calls ≡ []
Connects k bytes (ends exits, calls) = ⊥
Connects k bytes (ends panics, calls) = ⊥

module _ (k : Kernel) (lib : Libc) (half : ℕ → List ℕ) (self_pid : ℕ) where
  -- The thread of the connector waits for messages only on a socket that is bound and on which its
  -- subscription is sent, and then holds no other descriptor; whichever call is refused, it returns
  -- with no descriptor left open.
  pub connector_setup-Connects :
      Connects k (subscription lib half self_pid) (connector_setup k lib half self_pid [])
  unfolding connector_setup ◌>>=◌ issue unless_negative or_close pure stop
  connector_setup-Connects = elim (Option-cases (k [] socket)) [
    | inl refused ↦ rw (connector_setup, refused) (rw refused refl)
    | inr (fd, opened) ↦ elim (Option-cases (k (socket ∷ []) (binds fd))) [
      | inl refused ↦ rw (connector_setup, opened, refused) (rw opened (without_lem fd))
      | inr (rc, bound) ↦
          elim (Option-cases
            (k (socket ∷ binds fd ∷ []) (sends fd (subscription lib half self_pid)))) [
              | inl refused ↦
                  rw (connector_setup, opened, bound, refused) (rw opened (without_lem fd))
              | inr (n, sent) ↦ rw (connector_setup, opened, bound, sent) (refl, rw opened refl)
            ]
    ]
  ]

abbrev add_mark : Call → Option ℕ → List Call → List Call
add_mark (fanotify_mark fd flags mask path) (some n) marks =
    marks ++ fanotify_mark fd flags mask path ∷ []
add_mark _ answer marks = marks

abbrev marked_from : Kernel → List Call → List Call → List Call → List Call
marked_from k before [] marks = marks
marked_from k before (c ∷ calls) marks =
    marked_from k (before ++ c ∷ []) calls (add_mark c (k before c) marks)

-- The marks that the kernel took, each with its group, its flags, its kinds and its path.
abbrev pub marked : Kernel → List Call → List Call
marked k calls = marked_from k [] calls []

module _ (k : Kernel) where
  held_from-snoc :
      (before calls : List Call) (c : Call) (fds : List ℕ)
      → held_from k before (calls ++ c ∷ []) fds
        ≡ track c (k (before ++ calls) c) (held_from k before calls fds)
  held_from-snoc before [] c fds = rw (append-nil before) refl
  held_from-snoc before (b ∷ calls) c fds =
      rw (← append_assoc before (b ∷ []) calls)
        (held_from-snoc (before ++ b ∷ []) calls c (track b (k before b) fds))

  held-snoc :
      (calls : List Call) (c : Call) → held k (calls ++ c ∷ []) ≡ track c (k calls c) (held k calls)
  held-snoc calls c = held_from-snoc [] calls c []

  marked_from-snoc :
      (before calls : List Call) (c : Call) (marks : List Call)
      → marked_from k before (calls ++ c ∷ []) marks
        ≡ add_mark c (k (before ++ calls) c) (marked_from k before calls marks)
  marked_from-snoc before [] c marks = rw (append-nil before) refl
  marked_from-snoc before (b ∷ calls) c marks =
      rw (← append_assoc before (b ∷ []) calls)
        (marked_from-snoc (before ++ b ∷ []) calls c (add_mark b (k before b) marks))

  marked-snoc :
      (calls : List Call) (c : Call)
      → marked k (calls ++ c ∷ []) ≡ add_mark c (k calls c) (marked k calls)
  marked-snoc calls c = marked_from-snoc [] calls c []

-- The group of `fid_watcher`, and a mark in a group on the file system of a path.
abbrev pub fid_group : Call
fid_group = fanotify_init (fan_class_notif ∷ fan_report_dfid_name ∷ fan_cloexec ∷ [])

abbrev pub on_filesystem : ℕ → Text → List Kind → Call
on_filesystem fd path mask = fanotify_mark fd (fan_mark_add ∷ fan_mark_filesystem ∷ []) mask path

-- The group has one mark, which is on the file system of the path: for renames and the other kinds,
-- or for the other kinds, where the kernel refused the first.
abbrev pub IsMarked : Kernel → ℕ → Text → List Call → Type 0
IsMarked k fd path calls =
    (marked k calls ≡ on_filesystem fd path (base_mask ++ fan_rename ∷ []) ∷ [])
    ⊎ ((k (fid_group ∷ []) (on_filesystem fd path (base_mask ++ fan_rename ∷ [])) ≡ none)
        × (marked k calls ≡ on_filesystem fd path base_mask ∷ []))

-- How `fid_watcher` ends before its loop. If it returns, then with the marked or unmarked group open.
abbrev pub Marks : Kernel → Text → Outcome (ℕ × ℕ) × List Call → Type 0
Marks k path (goes_on (fd, mount_fd), calls) =
    (held k calls ≡ fd ∷ mount_fd ∷ []) × IsMarked k fd path calls
Marks k path (ends returns, calls) = (fd : ℕ) × (held k calls ≡ fd ∷ [])
Marks k path (ends exits, calls) = held k calls ≡ []
Marks k path (ends panics, calls) =
    (fd : ℕ) × ((held k calls ≡ fd ∷ []) ⊎ ((m : ℕ) × (held k calls ≡ fd ∷ m ∷ [])))

module _ (k : Kernel) (fd : ℕ) (path log_path : Text) where
  both :
      (calls : List Call) (mount : ℕ)
      → held k calls ≡ fd ∷ []
      → k calls (opens path) ≡ some mount
      → held k ((calls ++ opens path ∷ []) ++ opens_log log_path ∷ []) ≡ fd ∷ mount ∷ []
  both calls mount one got =
      rw
        (
          held-snoc k (calls ++ opens path ∷ []) (opens_log log_path),
          held-snoc k calls (opens path),
          got,
          one,
        )
        refl

  anchor-Marks :
      (calls : List Call)
      → held k calls ≡ fd ∷ []
      → IsMarked k fd path calls
      → Marks k path (anchor k fd path log_path calls)
  unfolding anchor ◌>>=◌ issue unless_negative open_log pure stop
  anchor-Marks calls one took =
      let opened = calls ++ opens path ∷ [] in
      let log = opens_log log_path in
      elim (Option-cases (k calls (opens path))) [
        | inl refused ↦ rw (anchor, refused) (fd, rw (held-snoc k calls (opens path), refused) one)
        | inr (mount, got) ↦ elim (Option-cases (k opened log)) [
          | inl refused ↦ rw (anchor, got, refused) (fd, inr (mount, both calls mount one got))
          | inr (_, logs) ↦
              rw (anchor, got, logs)
                (
                  both calls mount one got,
                  elim took [
                    | inl once ↦
                        inl (rw (marked-snoc k opened log, marked-snoc k calls (opens path)) once)
                    | inr (without, once) ↦ inr (
                      without,
                      rw (marked-snoc k opened log, marked-snoc k calls (opens path)) once,
                    )
                  ],
                )
        ]
      ]

module _ (k : Kernel) (watch_path log_path : Text) where
  abbrev renames : ℕ → Call
  renames fd = mark_call k fd watch_path (base_mask ++ fan_rename ∷ [])

  abbrev others : ℕ → Call
  others fd = mark_call k fd watch_path base_mask

  -- `fid_watcher` reads the group that it has marked, once, on the file system of the watched path:
  -- for renames and the other kinds, or, where the kernel refuses that mark, for the other kinds; it
  -- then holds, beside the log, the group and the anchor and nothing else. If it exits, no group was
  -- opened. If it returns without reading, the group is left open; if it panics, the group is, and at
  -- most the anchor.
  pub fid_setup-Marks : Marks k watch_path (fid_setup k watch_path log_path [])
  unfolding fid_setup ◌>>=◌ issue unless_negative c_string fanotify_init_or_die mark_fid pure stop
  fid_setup-Marks = elim (Option-cases (k [] fid_group)) [
    | inl refused ↦ rw (fid_setup, refused) (rw refused refl)
    | inr (fd, opened) ↦ elim (Bool-cases (any (eqb 0) watch_path)) [
      | inl nul ↦ rw (fid_setup, opened, nul) (fd, inl (rw opened refl))
      | inr fine ↦ elim (Option-cases (k (fid_group ∷ []) (renames fd))) [
        | inr (n, took) ↦
            rw (fid_setup, opened, fine, took)
              (anchor-Marks k fd watch_path log_path (fid_group ∷ renames fd ∷ []) (rw opened refl)
                (inl (rw took refl)))
        | inl unknown ↦ elim (Option-cases (k (fid_group ∷ renames fd ∷ []) (others fd))) [
          | inl refused ↦ rw (fid_setup, opened, fine, unknown, refused) (fd, rw opened refl)
          | inr (n, took) ↦
              rw (fid_setup, opened, fine, unknown, took)
                (anchor-Marks k fd watch_path log_path (fid_group ∷ renames fd ∷ others fd ∷ [])
                  (rw opened refl) (inr (unknown, rw (unknown, took) refl)))
        ]
      ]
    ]
  ]
