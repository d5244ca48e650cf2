-- ===== src/WhenFs/Tests.antt =====
-- Runs of src/main.rs on a small disk, and the theorems there.
use whenfs.Prelude.{ℕ, ◌+◌, ◌<◌, ◌^◌, ◌≡◌, refl, true, false, none, some, [], ◌∷◌, arith, nat_key}
use whenfs.Prelude.Text.{Text, text, text_eq, strip_prefix}
use whenfs.HashMap
use whenfs.HashMap.{HashMap}
use whenfs.FilePath.{normal, path_key, join, of_text, split_slashes}
use whenfs.TimeExpr.{
  Calendar, mon, done, weekday_from_str, parse_i64, split_once, split_digits, strip_suffix,
}
use whenfs.TimeExpr.Resolve.{
  resolve, resolve_target, parse_snapshot_name, parse_relative, parse_unit, find_exact,
}
use whenfs.WhenFs.{
  World, WhenFs, Metadata, regular_file, Child, new, ino_for_path, path_for_ino, attr_for,
}
use whenfs.WhenFs.Handlers.{lookup, getattr, entry, attr, handle, handle_lookup}
use whenfs.WhenFs.Inodes.{Kept, new-IsTable}
use whenfs.WhenFs.Steps.{Steps, stop, step, steps-Kept}
use whenfs.WhenFs.ReadOnly.{lookup-getattr}

-- No text is an instant, so that a name is resolved as it stands.
abbrev nameless : Calendar
nameless = record {
  DateTime = ℕ;
  NaiveDateTime = ℕ;
  NaiveDate = ℕ;
  format = λ f t. [];
  parse_date_time = λ s f. none;
  parse_date = λ s f. none;
  local_single = λ t. some t;
  last_second = λ d. d;
  date_naive = λ t. t;
  weekday = λ d. mon;
  minus = λ span n t. some t;
  date_minus = λ span n d. some d;
  checked_sub_months = λ n d. some d;
  le = λ a b. true;
}

abbrev plain : Metadata
plain = record {
  is_dir = false;
  is_symlink = false;
  mode = 436;
  size = 3;
  blocks = 1;
  accessed = none;
  modified = some 7;
  nlink = 1;
  uid = 0;
  gid = 0;
}

abbrev child : Text → Child
child name = record {
  path = normal (text "s") ∷ normal name ∷ [];
  file_type = some regular_file;
  name = name;
}

abbrev world : World ℕ
world = record {
  cal = nameless;
  now = 0;
  time = 9;
  snapshots = some [];
  is_dir = λ p. true;
  symlink_metadata = λ p. some plain;
  read_dir = λ p. some (child (text "a") ∷ child (text "b") ∷ []);
  open_file = λ p. some 0;
  seek = λ f n. some f;
  read = λ f n. (some [], f);
  has_room = λ sent s. true;
  uid = 0;
  gid = 0;
}

abbrev start : WhenFs ℕ
start = new (normal (text "r") ∷ [])

abbrev looked : WhenFs ℕ
looked = record start {
  next_ino = 3;
  path_of = (2, normal (text "r") ∷ normal (text "s") ∷ []) ∷ [];
  ino_of = (normal (text "r") ∷ normal (text "s") ∷ [], 2) ∷ [];
}

looks_up : handle world (lookup 1 (some (text "s"))) start ≡ done (entry (attr_for 2 plain), looked)
unfolding handle handle_lookup resolve resolve_target parse_snapshot_name parse_relative
    strip_suffix strip_prefix split_once split_digits parse_i64 parse_unit weekday_from_str text_eq
    find_exact ino_for_path path_for_ino attr_for join of_text new HashMap.get HashMap.insert
    split_slashes
looks_up = refl

-- The write bits of the file are gone.
permissions : (attr_for 2 plain).perm ≡ 292
unfolding attr_for
permissions = refl

two_left : start.next_ino + 1 < 2 ^ 64
unfolding new
two_left = omega arith

lookup-getattr_example :
    handle world (getattr (attr_for 2 plain).ino) looked ≡ done (attr (attr_for 2 plain), looked)
lookup-getattr_example =
    lookup-getattr world 1 (some (text "s")) start looked (attr_for 2 plain)
      (new-IsTable (normal (text "r") ∷ [])) two_left looks_up

one_request : Steps 1 start looked
one_request = step world (lookup 1 (some (text "s"))) looks_up stop

steps-Kept_example : Kept 1 start looked
steps-Kept_example =
    steps-Kept 1 start looked one_request (new-IsTable (normal (text "r") ∷ [])) two_left
