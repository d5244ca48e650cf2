-- ===== src/Daemon/ReadTests.antt =====
-- Runs of the watchers of src/bin/whodidd.rs on small buffers, with the layout of linux/fanotify.h on
-- a machine whose low byte stands first.
use whenfs.Prelude.{ℕ, ◌+◌, ◌*◌, ◌/◌, ◌%◌, ◌≡◌, ◌≢◌, refl, none, some, List, [], ◌∷◌, ◌++◌, arith}
use whenfs.Prelude.Text.{text}
use whenfs.ProcTree.{new}
use whenfs.Daemon.{System, on_message, forked}
use whenfs.Daemon.Buffer.{done, fault, unfinished, Libc, take, drop, read_at, event_loop}
use whenfs.Daemon.Legacy.{Kernel, Served, legacy_watcher}
use whenfs.Daemon.Fid.{fid_watcher, fid_event, resolve_dfid_name, open_parent, info_loop}
use whenfs.Daemon.Bounds.{IsDone, fid_watcher-IsDone}
use whenfs.Daemon.Rounds.{watchers_end}
use whenfs.Daemon.Resolve.{resolve_dfid_name_lem}
use whenfs.Daemon.Connector.{proc_connector, messages_of, proc_connector_lem}

abbrev number : List ℕ → ℕ
number [] = 0
number (c ∷ b) = c + 256 * number b

abbrev pub word : ℕ → List ℕ
word n = n % 256 ∷ n / 256 % 256 ∷ n / 65536 % 256 ∷ n / 16777216 ∷ []

abbrev pub libc : Libc
libc = record {
  metadata_size = 24;
  metadata = λ b. record {
    event_len = number (take 4 b);
    metadata_len = number (take 2 (drop 6 b));
    mask = number (take 8 (drop 8 b));
    fd = number (take 4 (drop 16 b));
    pid = number (take 4 (drop 20 b));
  };
  header_size = 4;
  header = λ b. record { info_type = number (take 1 b); len = number (take 2 (drop 2 b)) };
  fsid_size = 8;
  word = number;
  bytes = word;
}

abbrev system : System
system = record {
  comm = λ pid. some (text "sh");
  stat = λ pid. none;
  args = λ pid. none;
  exe = λ pid. none;
  uid = λ pid. some 0;
  lossy = λ b. b;
  now = text "t";
  graph_now = text "t";
  log_now = text "t";
  self_pid = 1;
  log_fails_at = none;
}

abbrev kernel : Kernel
kernel = record {
  system = λ at. system;
  link = λ at fd. some (text "/w");
  open_by_handle = λ at handle. some 9;
}

abbrev served : Served
served = record { daemon = record { table = new; graph = none; log = [] }; closed = [] }

-- An event of 24 bytes, for the descriptor 5 and the process 7.
abbrev modified : List ℕ
modified = word 24 ++ (3 ∷ 0 ∷ 24 ∷ 0 ∷ (word 2 ++ (word 0 ++ (word 5 ++ word 7))))

abbrev one_read : List (Kernel × List ℕ)
one_read = (kernel, modified) ∷ []

-- The record of a file `f` in a directory whose handle is 8 8.
abbrev handle_and_name : List ℕ
handle_and_name = word 2 ++ (word 1 ++ (8 ∷ 8 ∷ [] ++ (text "f" ++ 0 ∷ [])))

abbrev name_record : List ℕ
name_record = 2 ∷ 0 ∷ 24 ∷ 0 ∷ (word 0 ++ (word 0 ++ handle_and_name))

abbrev head : List ℕ
head = word 48 ++ (3 ∷ 0 ∷ 24 ∷ 0 ∷ (word 512 ++ (word 0 ++ (word 4294967295 ++ word 7))))

abbrev deleted : List ℕ
deleted = head ++ name_record

abbrev fid_read : List (Kernel × List ℕ)
fid_read = (kernel, deleted) ∷ []

fid_watcher-IsDone_example : IsDone (fid_watcher libc fid_read [] served)
unfolding read_at
fid_watcher-IsDone_example =
    fid_watcher-IsDone libc fid_read [] ((head ∷ []) ∷ []) served (omega arith)
      ((refl, omega arith, omega arith, refl), tt)

-- The length of an event is not compared with what is left of the read.
trusts_the_length :
    fid_watcher libc
      ((kernel, word 400 ++ (3 ∷ 0 ∷ 24 ∷ 0 ∷ (word 512 ++ (word 0 ++ (word 5 ++ word 7))))) ∷ [])
      []
      served
    ≡ fault
unfolding fid_watcher fid_event info_loop read_at event_loop
trusts_the_length = refl

watchers_end_example :
    (legacy_watcher libc fid_read [] served ≢ unfinished)
    × (fid_watcher libc fid_read [] served ≢ unfinished)
watchers_end_example = watchers_end libc fid_read [] served (omega arith)

resolve_dfid_name_lem_example :
    resolve_dfid_name libc kernel deleted 0 24 48
    ≡ done (open_parent kernel 24 (word 2 ++ word 1 ++ 8 ∷ 8 ∷ []) (text "f"))
resolve_dfid_name_lem_example =
    resolve_dfid_name_lem libc kernel deleted 0 24 48 (word 2) (word 1) (8 ∷ 8 ∷ []) (text "f")
      (take 36 deleted, [], refl, refl) refl refl refl (refl, tt) (omega arith)

abbrev fork_of : ℕ → System × List ℕ
fork_of child =
    (system, take 36 deleted ++ (word 1 ++ (take 12 deleted ++ (word 3 ++ (word 3 ++ word child)))))

-- A fork, an exit that is cut short, and a datagram that gives nothing, behind which none is read.
abbrev datagrams : List (System × List ℕ)
datagrams = fork_of 4 ∷ (system, take 36 deleted) ∷ (system, []) ∷ fork_of 5 ∷ []

proc_connector_lem_example :
    proc_connector libc datagrams [] served.daemon ≡ done (messages_of libc datagrams served.daemon)
proc_connector_lem_example = proc_connector_lem libc datagrams [] served.daemon

hears_the_fork :
    messages_of libc datagrams served.daemon ≡ on_message system (forked 3 4) served.daemon
hears_the_fork = refl

ends_at_an_empty_read :
    fid_watcher libc ((kernel, deleted) ∷ (kernel, []) ∷ (kernel, deleted) ∷ []) [] served
    ≡ fid_watcher libc fid_read [] served
unfolding fid_watcher event_loop read_at
ends_at_an_empty_read = refl
