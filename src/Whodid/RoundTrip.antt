-- ===== src/Whodid/RoundTrip.antt =====
-- A line that src/bin/whodidd.rs writes is read back by src/bin/whodid.rs.
use whenfs.Prelude.{ℕ, ◌≡◌, refl, ap, ◌∙◌, true, false, some, ◌∷◌, ◌++◌, arith, All-map}
use whenfs.Prelude.Text.{Text, text, text_eq}
use whenfs.ProcTree.{ProcInfo}
use whenfs.Daemon.Strings.{json_escape, decimal, signed}
use whenfs.Daemon.{System, line_pieces, log_line}
use whenfs.Whodid.Reader.{after_first, needle_of, field, value_behind, parse_line}
use whenfs.Whodid.Scan.{
  IsLogged, text_field, number_field, after_first-text_field, after_first-number_field,
  after_first_found, after_first_skip,
}
use whenfs.Whodid.Values.{
  IsPlain, IsNumber, is_key, json_escape_plain, IsPlain-IsLogged, signed-IsNumber, value_number,
  value_text, key, unlike,
}

-- A line of the log with its fields in order.
module _ (ts path op pid comm exe cmdline last : Text) where
  abbrev from_cmdline : Text
  from_cmdline = text_field (text "cmdline") cmdline last

  abbrev from_exe : Text
  from_exe = text_field (text "exe") exe from_cmdline

  abbrev from_comm : Text
  from_comm = text_field (text "comm") comm from_exe

  abbrev from_pid : Text
  from_pid = number_field (text "pid") pid from_comm

  abbrev from_op : Text
  from_op = text_field (text "op") op from_pid

  abbrev from_path : Text
  from_path = text_field (text "path") path from_op

  abbrev whole : Text
  whole = b'{' ∷ text_field (text "ts") ts from_path

  module _ (k : Text) (letters : is_key k ≡ true) where
    abbrev Finds : Text → Text → Type 0
    Finds s t = after_first (needle_of k) s ≡ after_first (needle_of k) t

    pass :
        (name v rest : Text)
        → is_key name ≡ true
        → text_eq name k ≡ false
        → Finds (text_field name v rest) rest
    pass name v rest named other =
        after_first-text_field k name (key k letters) (key name named) (unlike name k other) v rest

    pass_ts : text_eq (text "ts") k ≡ false → Finds whole from_path
    pass_ts other =
        after_first_skip k b'{' (text_field (text "ts") ts from_path) refl
        ∙ pass (text "ts") ts from_path refl other

    pass_pid : IsNumber pid → text_eq (text "pid") k ≡ false → Finds from_pid from_comm
    pass_pid digits other =
        after_first-number_field k (text "pid") (key k letters) (key (text "pid") refl)
          (unlike (text "pid") k other) pid from_comm
          (All-map _ _ pid (λ c h. ground (arith, h)) digits)

    field_text :
        (v rest : Text) → Finds whole (text_field k v rest) → IsLogged v → field whole k ≡ v
    unfolding field
    field_text v rest there logged =
        ap value_behind (there ∙ after_first_found k (b'"' ∷ (json_escape v ++ b'"' ∷ b',' ∷ rest)))
        ∙ value_text v (b',' ∷ rest) logged

    field_number :
        (v rest : Text) → Finds whole (number_field k v rest) → IsNumber v → field whole k ≡ v
    unfolding field
    field_number v rest there digits =
        ap value_behind (there ∙ after_first_found k (v ++ b',' ∷ rest))
        ∙ value_number v rest digits

  module _ (logged_ts : IsLogged ts) (logged_path : IsLogged path) (logged_op : IsLogged op)
      (digits : IsNumber pid) (logged_comm : IsLogged comm) (logged_exe : IsLogged exe)
      (logged_cmdline : IsLogged cmdline) where
    field_ts : field whole (text "ts") ≡ ts
    field_ts =
        field_text (text "ts") refl ts from_path
          (after_first_skip (text "ts") b'{' (text_field (text "ts") ts from_path) refl) logged_ts

    field_path : field whole (text "path") ≡ path
    unfolding text_eq
    field_path =
        let k = text "path" in field_text k refl path from_op (pass_ts k refl refl) logged_path

    field_op : field whole (text "op") ≡ op
    unfolding text_eq
    field_op =
        let k = text "op" in
        field_text k refl op from_pid
          (pass_ts k refl refl ∙ pass k refl (text "path") path from_op refl refl) logged_op

    field_pid : field whole (text "pid") ≡ pid
    unfolding text_eq
    field_pid =
        let k = text "pid" in
        field_number k refl pid from_comm
          (pass_ts k refl refl
            ∙ pass k refl (text "path") path from_op refl refl
            ∙ pass k refl (text "op") op from_pid refl refl)
          digits

    -- The keys that stand behind the number.
    to_comm :
        (k : Text)
        → is_key k ≡ true
        → text_eq (text "ts") k ≡ false
        → text_eq (text "path") k ≡ false
        → text_eq (text "op") k ≡ false
        → text_eq (text "pid") k ≡ false
        → after_first (needle_of k) whole ≡ after_first (needle_of k) from_comm
    to_comm k l a b c d =
        pass_ts k l a
        ∙ pass k l (text "path") path from_op refl b
        ∙ pass k l (text "op") op from_pid refl c
        ∙ pass_pid k l digits d

    field_comm : field whole (text "comm") ≡ comm
    unfolding text_eq
    field_comm =
        let k = text "comm" in
        field_text k refl comm from_exe (to_comm k refl refl refl refl refl) logged_comm

    field_exe : field whole (text "exe") ≡ exe
    unfolding text_eq
    field_exe =
        let k = text "exe" in
        field_text k refl exe from_cmdline
          (to_comm k refl refl refl refl refl ∙ pass k refl (text "comm") comm from_exe refl refl)
          logged_exe

    field_cmdline : field whole (text "cmdline") ≡ cmdline
    unfolding text_eq
    field_cmdline =
        let k = text "cmdline" in
        field_text k refl cmdline last
          (to_comm k refl refl refl refl refl
            ∙ pass k refl (text "comm") comm from_exe refl refl
            ∙ pass k refl (text "exe") exe from_cmdline refl refl)
          logged_cmdline

    reads_line :
        parse_line whole
        ≡ some (record {
          ts = ts;
          path = path;
          op = op;
          pid = pid;
          comm = comm;
          exe = exe;
          cmdline = cmdline;
        })
    unfolding parse_line
    reads_line =
        rw (field_ts, field_path, field_op, field_pid, field_comm, field_exe, field_cmdline) refl

writes_line :
    (s : System) (path op : Text) (pid : ℕ) (i : ProcInfo)
    → IsPlain s.log_now
    → IsPlain op
    → log_line s path op pid i
      ≡ whole s.log_now path op
          (signed pid)
          i.comm
          i.exe
          i.cmdline
          (text "\"uid\":" ++ decimal i.uid ++ text "}")
unfolding log_line line_pieces
writes_line s path op pid i now named =
    rw (json_escape_plain s.log_now now, json_escape_plain op named) refl

-- `whodid` reads back what the daemon wrote: time, path, operation, pid, names and command line of a
-- line of the log are those that were logged, whatever quotation marks, backslashes, commas or keys
-- the path and the names hold, as long as they hold no character below U+0020 but the line feed and
-- the tab, and the time and the operation hold no character below U+0020, no quotation mark and no
-- backslash.
pub parse_line-log_line :
    (s : System) (path op : Text) (pid : ℕ) (i : ProcInfo)
    → IsPlain s.log_now
    → IsPlain op
    → IsLogged path
    → IsLogged i.comm
    → IsLogged i.exe
    → IsLogged i.cmdline
    → parse_line (log_line s path op pid i)
      ≡ some (record {
        ts = s.log_now;
        path = path;
        op = op;
        pid = signed pid;
        comm = i.comm;
        exe = i.exe;
        cmdline = i.cmdline;
      })
parse_line-log_line s path op pid i now named lp lc le ll =
    ap parse_line (writes_line s path op pid i now named)
    ∙ reads_line s.log_now path op (signed pid) i.comm i.exe i.cmdline
        (text "\"uid\":" ++ decimal i.uid ++ text "}") (IsPlain-IsLogged s.log_now now) lp
        (IsPlain-IsLogged op named) (signed-IsNumber pid) lc le ll
