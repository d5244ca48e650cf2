-- ===== src/Whodid/History.antt =====
-- The log as a file: src/bin/whodid.rs reads from it the events that src/bin/whodidd.rs appended.
use mathlib.Core.List.{append_assoc}
use whenfs.Prelude.{
  ℕ, ◌≡◌, refl, ap, sym, ◌∙◌, none, Option, List, [], ◌∷◌, ◌++◌, arith, All, All-append,
}
use whenfs.Prelude.Text.{Text}
use whenfs.ProcTree.{ProcInfo, info}
use whenfs.Daemon.Strings.{signed}
use whenfs.Daemon.{System, Daemon, or_read, to_graph, log_line, log_event_full}
use whenfs.Daemon.Lines.{IsPrintable, log_line-IsPrintable, log-log_event_full}
use whenfs.Whodid.Reader.{Event, lines, parse_all}
use whenfs.Whodid.Scan.{IsLogged}
use whenfs.Whodid.Values.{IsPlain}
use whenfs.Whodid.RoundTrip.{parse_line-log_line}

-- The file that holds some lines, each with its line feed.
abbrev pub file_of : List Text → Text
file_of [] = []
file_of (l ∷ ls) = l ++ 10 ∷ file_of ls

-- The events that a query reads from the file.
abbrev pub history : Text → List Event
history log = parse_all (lines log)

-- A log of whole lines, each of characters from U+0020 on.
abbrev pub IsWhole : Text → Type 0
IsWhole log = (ls : List Text) × (log ≡ file_of ls) × All IsPrintable ls

file_of-snoc : (ls : List Text) (l : Text) → file_of (ls ++ l ∷ []) ≡ file_of ls ++ (l ++ 10 ∷ [])
file_of-snoc [] l = refl
file_of-snoc (m ∷ ls) l =
    let moved = sym (append_assoc m (10 ∷ file_of ls) (l ++ 10 ∷ [])) in
    ap (λ t. m ++ 10 ∷ t) (file_of-snoc ls l) ∙ moved

lines_feed : (l rest : Text) → IsPrintable l → lines (l ++ 10 ∷ rest) ≡ l ∷ lines rest
unfolding lines
lines_feed [] rest h = refl
lines_feed (c ∷ l) rest h = ground (arith, h.0, lines_feed l rest h.1)

lines-file_of : (log : List Text) → All IsPrintable log → lines (file_of log) ≡ log
unfolding lines
lines-file_of [] h = refl
lines-file_of (l ∷ log) h = lines_feed l (file_of log) h.0 ∙ ap (λ t. l ∷ t) (lines-file_of log h.1)

parse_all-append : (xs ys : List Text) → parse_all (xs ++ ys) ≡ parse_all xs ++ parse_all ys
unfolding parse_all
parse_all-append [] ys = refl
parse_all-append (x ∷ xs) ys = ground (arith, parse_all-append xs ys)

abbrev pub NamesIn : System → ProcInfo → Type 0
NamesIn s i = IsLogged i.comm × IsLogged i.exe × IsLogged i.cmdline

abbrev pub event_of : System → Text → Text → ℕ → ProcInfo → Event
event_of s path op pid i = record {
  ts = s.log_now;
  path = path;
  op = op;
  pid = signed pid;
  comm = i.comm;
  exe = i.exe;
  cmdline = i.cmdline;
}

IsPlain-IsPrintable : (s : Text) → IsPlain s → IsPrintable s
IsPlain-IsPrintable [] h = tt
IsPlain-IsPrintable (c ∷ s) h = (ground (arith, h.0), IsPlain-IsPrintable s h.1)

-- The identity that an event is logged with: the one of the tree behind the graph's turn, else the one
-- that /proc gives.
abbrev pub writer : System → Text → Text → ℕ → Option Text → Daemon → ProcInfo
writer s path op pid other d =
    or_read s pid (info (to_graph s path op pid other d.table d.graph).0 pid)

-- What the daemon logs, `whodid` lists: on a log of whole lines of characters from U+0020 on, an event
-- adds itself, with the names of its writer, to what a query reads from the file, behind the events
-- that it read before and with nothing else changed, and leaves such a log. The path and the names
-- of the writer may hold anything from U+0020 on, line feeds and tabs; the time and the kind of the
-- event hold no character below U+0020, no quotation mark and no backslash; and the write of the line
-- does not fail.
pub history-log_event_full :
    (s : System) (path op : Text) (pid : ℕ) (other : Option Text) (d : Daemon)
    → IsWhole d.log
    → s.log_fails_at ≡ none
    → IsPlain s.log_now
    → IsPlain op
    → IsLogged path
    → NamesIn s (writer s path op pid other d)
    → let d' = log_event_full s path op pid other d in
      (history d'.log ≡ history d.log ++ event_of s path op pid (writer s path op pid other d) ∷ [])
      × IsWhole d'.log
unfolding parse_all
history-log_event_full s path op pid other d (old, is, clean) works now named logged (lc, le, ll) =
    let i = writer s path op pid other d in
    let line = log_line s path op pid i in
    let line_clean : IsPrintable line =
      log_line-IsPrintable s path op pid i (IsPlain-IsPrintable s.log_now now)
        (IsPlain-IsPrintable op named) in
    let all_clean : All IsPrintable (old ++ line ∷ []) =
      All-append _ old (line ∷ []) clean (line_clean, tt) in
    let new : parse_all (line ∷ []) ≡ event_of s path op pid i ∷ [] =
      rw (parse_all, parse_line-log_line s path op pid i now named logged lc le ll) refl in
    let grown : (log_event_full s path op pid other d).log ≡ file_of (old ++ line ∷ []) =
      log-log_event_full s path op pid other d works
      ∙ ap (λ t. t ++ (line ++ 10 ∷ [])) is
      ∙ sym (file_of-snoc old line) in
    let read : history (file_of (old ++ line ∷ []))
        ≡ parse_all old ++ event_of s path op pid i ∷ [] =
      rw (lines-file_of (old ++ line ∷ []) all_clean, parse_all-append, new) refl in
    let before : history d.log ≡ parse_all old = rw (is, lines-file_of old clean) refl in
    (
      ap history grown ∙ read ∙ ap (λ es. es ++ event_of s path op pid i ∷ []) (sym before),
      (old ++ line ∷ [], grown, all_clean),
    )
