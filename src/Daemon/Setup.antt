-- ===== src/Daemon/Setup.antt =====
-- How the threads of src/bin/whodidd.rs open and mark their descriptors, before the loops of
-- Daemon/Legacy, Daemon/Fid and Daemon/Connector. `Kernel` is what the system answers to a call, which
-- may depend on all the calls before. The texts for the standard error are left out.
use whenfs.Prelude.{ℕ, Option, none, some, List, [], ◌∷◌, ◌++◌, if◌then◌else◌, eqb, any}
use whenfs.Prelude.Text.{Text}
use whenfs.Daemon.Buffer.{Libc}
use whenfs.Daemon.Connector.{subscription}

-- The flags of a group, of a mark, and the kinds of event, by their names: `|` of flags is a list.
pub data Flag : Type 0 where
  fan_class_notif fan_report_dfid_name fan_cloexec : Flag

pub data MarkFlag : Type 0 where
  fan_mark_add fan_mark_mount fan_mark_filesystem : MarkFlag

pub data Kind : Type 0 where
  fan_modify fan_close_write fan_create fan_delete fan_moved_from fan_moved_to : Kind
  fan_attrib fan_ondir fan_event_on_child fan_rename : Kind

-- What is the same in each call is left out: the flags of the events' descriptors, and the address
-- that the socket is bound to.
pub data Call : Type 0 where
  fanotify_init : List Flag → Call
  fanotify_mark : ℕ → List MarkFlag → List Kind → Text → Call
  opens : Text → Call
  opens_log : Text → Call
  socket : Call
  binds closes : ℕ → Call
  sends : ℕ → List ℕ → Call

-- A negative answer is `none`.
abbrev pub Kernel : Type 0
Kernel = List Call → Call → Option ℕ

-- How a set-up ends that does not reach its loop: the process exits, or the thread panics or returns.
pub data Ending : Type 0 where
  exits panics returns : Ending

pub data Outcome {ℓ} (A : Type ℓ) : Type ℓ where
  goes_on : A → Outcome A
  ends : Ending → Outcome A

-- A set-up, over the calls so far.
abbrev pub Setup {ℓ} : Type ℓ → Type ℓ
Setup A = List Call → Outcome A × List Call

infixl 10 ◌>>=◌ ◌>>◌
abbrev pub after {ℓ κ} : {A : Type ℓ} {B : Type κ} → (A → Setup B) → Outcome A → Setup B
after f (goes_on a) calls = f a calls
after f (ends e) calls = (ends e, calls)

unfoldable pub ◌>>=◌ {ℓ κ} : {A : Type ℓ} {B : Type κ} → Setup A → (A → Setup B) → Setup B
◌>>=◌ m f calls = let (r, calls') = m calls in after f r calls'

abbrev pub ◌>>◌ {ℓ κ} : {A : Type ℓ} {B : Type κ} → Setup A → Setup B → Setup B
m >> n = m >>= λ _. n

unfoldable pub pure {ℓ} : {A : Type ℓ} → A → Setup A
pure a calls = (goes_on a, calls)

unfoldable pub stop {ℓ} : {A : Type ℓ} → Ending → Setup A
stop e calls = (ends e, calls)

unfoldable pub issue : Kernel → Call → Setup (Option ℕ)
issue k call calls = (goes_on (k calls call), calls ++ call ∷ [])

-- `if rc < 0 { …; return }`, or with another ending.
unfoldable pub unless_negative : Ending → Option ℕ → Setup ℕ
unfolding pure stop
unless_negative e none = stop e
unless_negative e (some n) = pure n

-- `if rc < 0 { …; close(fd); return }`
unfoldable pub or_close : Kernel → ℕ → Option ℕ → Setup ℕ
unfolding pure stop issue ◌>>=◌
or_close k fd none = do issue k (closes fd); stop returns
or_close k fd (some n) = pure n

-- `CString::new(path).unwrap()`
unfoldable pub c_string : Text → Setup Text
unfolding pure stop
c_string path = if any (eqb 0) path then stop panics else pure path

abbrev pub base_mask : List Kind
base_mask =
    fan_create ∷ fan_delete ∷ fan_moved_from ∷ fan_moved_to ∷ fan_attrib ∷ fan_ondir
    ∷ fan_event_on_child ∷ []

module _ (k : Kernel) where
  unfoldable pub fanotify_init_or_die : List Flag → Setup ℕ
  unfolding ◌>>=◌ issue unless_negative
  fanotify_init_or_die flags = do
    fd ← issue k (fanotify_init (flags ++ fan_cloexec ∷ []))
    unless_negative exits fd

  unfoldable pub open_log : Text → Setup ℕ
  unfolding ◌>>=◌ issue unless_negative
  open_log path = do log ← issue k (opens_log path); unless_negative panics log

  -- `legacy_watcher`, to the descriptor that its loop reads.
  unfoldable pub legacy_setup : Text → Text → Setup ℕ
  unfolding ◌>>=◌ issue unless_negative pure c_string fanotify_init_or_die open_log
  legacy_setup watch_path log_path = do
    fd ← fanotify_init_or_die (fan_class_notif ∷ [])
    watch_cstr ← c_string watch_path
    rc ← issue k (
        fanotify_mark fd (fan_mark_add ∷ fan_mark_mount ∷ []) (fan_modify ∷ fan_close_write ∷ [])
          watch_cstr)
    unless_negative exits rc
    open_log log_path
    pure fd

  abbrev pub mark_call : ℕ → Text → List Kind → Call
  mark_call fd path mask = fanotify_mark fd (fan_mark_add ∷ fan_mark_filesystem ∷ []) mask path

  -- With `FAN_RENAME`, and if that fails without.
  unfoldable pub mark_fid : ℕ → Text → Setup (Option ℕ)
  unfolding ◌>>=◌ issue pure
  mark_fid fd path = do
    rc ← issue k (mark_call fd path (base_mask ++ fan_rename ∷ []))
    elim rc [ none ↦ issue k (mark_call fd path base_mask) | some n ↦ pure (some n) ]

  -- The anchor of the handles, and the log.
  unfoldable pub anchor : ℕ → Text → Text → Setup (ℕ × ℕ)
  unfolding ◌>>=◌ issue unless_negative pure open_log
  anchor fd path log_path = do
    mount ← issue k (opens path)
    mount_fd ← unless_negative returns mount
    open_log log_path
    pure (fd, mount_fd)

  -- `fid_watcher`, to the descriptor that its loop reads and the anchor of the handles.
  unfoldable pub fid_setup : Text → Text → Setup (ℕ × ℕ)
  unfolding ◌>>=◌ issue unless_negative pure c_string fanotify_init_or_die mark_fid anchor
  fid_setup watch_path log_path = do
    fd ← fanotify_init_or_die (fan_class_notif ∷ fan_report_dfid_name ∷ [])
    watch_cstr ← c_string watch_path
    rc ← mark_fid fd watch_cstr
    unless_negative returns rc
    anchor fd watch_cstr log_path

  -- `proc_connector`, to the socket that its loop reads.
  unfoldable pub connector_setup : Libc → (ℕ → List ℕ) → ℕ → Setup ℕ
  unfolding ◌>>=◌ issue unless_negative or_close pure subscription
  connector_setup lib half self_pid = do
    s ← issue k socket
    fd ← unless_negative returns s
    rc ← issue k (binds fd)
    or_close k fd rc
    sent ← issue k (sends fd (subscription lib half self_pid))
    or_close k fd sent
    pure fd
