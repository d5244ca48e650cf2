-- ===== src/Graph/Types.antt =====
-- The rows of src/graph.rs: those it hands out, and those of its two tables. Pids are bit patterns
-- of `i32`, as in ProcTree.
use whenfs.Prelude.{ℕ, Option, Bool, List, ◌&&◌, eqb}
use whenfs.Prelude.Text.{Text, text_eq}

pub record FileEvent : Type 0 where
  pub ts : Text
  pub path : Text
  pub op : Text
  pub pid : ℕ
  pub comm : Text
  pub exe : Text
  pub cmdline : Text
  pub proc_start : Option Text
  pub other_path : Option Text

pub record Identity : Type 0 where
  pub exe : Text
  pub comm : Text
  pub cmdline : Text
  pub uid : ℕ

pub record ProcRow : Type 0 where
  pub pid : ℕ
  pub start_ts : Text
  pub ppid : Option ℕ
  pub comm : Text
  pub exe : Text
  pub cmdline : Text

-- A row of `processes`. `none` for `uid` is the column's default, -1.
pub record Process : Type 0 where
  pub pid : ℕ
  pub start_ts : Text
  pub ppid : Option ℕ
  pub exe : Text
  pub comm : Text
  pub cmdline : Text
  pub uid : Option ℕ
  pub exit_ts : Option Text

-- A row of `events`.
pub record EventRow : Type 0 where
  pub id : ℕ
  pub ts : Text
  pub path : Text
  pub op : Text
  pub pid : ℕ
  pub proc_start : Option Text
  pub other_path : Option Text

pub record Tables : Type 0 where
  pub processes : List Process
  pub events : List EventRow

-- `PRIMARY KEY (pid, start_ts)`
unfoldable pub has_key : ℕ → Text → Process → Bool
has_key pid start_ts p = eqb p.pid pid && text_eq p.start_ts start_ts
