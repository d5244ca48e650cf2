-- ===== src/Whodid/Tests.antt =====
-- Runs of src/bin/whodid.rs on a small log, and the theorems there.
use whenfs.Prelude.{
  ◌≡◌, refl, true, none, some, List, [], ◌∷◌, ◌++◌, All, Pairs, any, all, all-All, eqb, leb, ◌&&◌,
  ◌||◌, not, map,
}
use whenfs.Prelude.Text.{Text, text, text_eq, text_le, strip_prefix}
use whenfs.HashMap
use whenfs.ProcTree.{info, ProcInfo, new}
use whenfs.Prelude.Member.{In}
use whenfs.Prelude.Sort.{sort_by}
use whenfs.Daemon.Strings.{json_escape, decimal, signed}
use whenfs.Daemon.{System, Daemon, log_line, log_event_full, write_all, line_pieces}
use whenfs.Whodid.{around, dedup, by_ts}
use whenfs.Whodid.Reader.{Event, after_first, quoted, field, parse_line, lines, parse_all}
use whenfs.Whodid.Scan.{IsLogged}
use whenfs.Whodid.Values.{IsPlain}
use whenfs.Whodid.RoundTrip.{parse_line-log_line}
use whenfs.Whodid.History.{history, IsWhole, event_of, writer, history-log_event_full}
use whenfs.Whodid.Bracket.{IsBefore, IsAfter, around_lem}
use whenfs.Whodid.Dedup.{Later, dedup_lem}

abbrev system : System
system = record {
  comm = λ pid. some (text "sh");
  stat = λ pid. none;
  args = λ pid. none;
  exe = λ pid. none;
  uid = λ pid. some 0;
  lossy = λ b. b;
  now = text "t";
  graph_now = text "t";
  log_now = text "t1";
  self_pid = 1;
  log_fails_at = none;
}

-- A name that looks like the end of a field.
abbrev odd : ProcInfo
odd = record { exe = text "/x"; comm = text "\",\"exe\":\"\\"; cmdline = text "a\tb"; uid = 0 }

reads_the_key : field (text "{\"ts\":\"t\",\"pid\":-3,\"uid\":0}") (text "pid") ≡ text "-3"
unfolding field after_first strip_prefix
reads_the_key = refl

-- An escape that the reader does not know loses its meaning.
loses_a_return : quoted (json_escape (13 ∷ []) ++ text "\"") ≡ text "u000d"
unfolding quoted json_escape
loses_a_return = refl

splits_lines : lines (text "a\r\nb\n\nc\r") ≡ text "a" ∷ text "b" ∷ [] ∷ text "c\r" ∷ []
unfolding lines
splits_lines = refl

abbrev found : Event
found = record {
  ts = text "t1";
  path = text "/w/\"";
  op = text "modify";
  pid = text "-1";
  comm = odd.comm;
  exe = odd.exe;
  cmdline = odd.cmdline;
}

prints_the_pid : signed 4294967295 ≡ text "-1"
unfolding signed decimal
prints_the_pid = refl

plain :
    (s : Text) → all (λ c. leb 32 c && not (eqb c b'"') && not (eqb c b'\\')) s ≡ true → IsPlain s
plain = all-All _

logged : (s : Text) → all (λ c. leb 32 c || eqb c 10 || eqb c 9) s ≡ true → IsLogged s
logged = all-All _

parse_line-log_line_example :
    parse_line (log_line system (text "/w/\"") (text "modify") 7 odd)
    ≡ some (record found { pid = signed 7 })
parse_line-log_line_example =
    parse_line-log_line system (text "/w/\"") (text "modify") 7 odd (plain (text "t1") refl)
      (plain (text "modify") refl) (logged (text "/w/\"") refl) (logged odd.comm refl)
      (logged odd.exe refl) (logged odd.cmdline refl)

abbrev daemon : Daemon
daemon = record { table = new; graph = none; log = text "{}\n" }

history-log_event_full_example :
    let d' = log_event_full system (text "/w") (text "modify") 7 none daemon in
    (history d'.log
      ≡ history daemon.log
        ++ event_of system
            (text "/w")
            (text "modify")
            7
            (writer system (text "/w") (text "modify") 7 none daemon)
          ∷ [])
    × IsWhole d'.log
unfolding log_event_full info HashMap.get new
history-log_event_full_example =
    history-log_event_full system (text "/w") (text "modify") 7 none daemon
      (text "{}" ∷ [], refl, (all-All (λ c. leb 32 c) (text "{}") refl, tt)) refl
      (plain (text "t1") refl) (plain (text "modify") refl) (logged (text "/w") refl)
      (logged (text "sh") refl, logged [] refl, logged [] refl)

-- A write that fails in the middle of a line leaves the next line joined to what it wrote.
abbrev cut_line : Daemon
cut_line =
    log_event_full (record system { log_now = text "t0"; log_fails_at = some 9 }) (text "/w")
      (text "modify") 7 none (record { table = new; graph = none; log = [] })

joins_a_cut_line :
    map
      (λ e. e.ts)
      (history (log_event_full system (text "/v") (text "modify") 7 none cut_line).log)
    ≡ text "t0{" ∷ []
unfolding log_event_full write_all log_line line_pieces parse_all parse_line field after_first
    quoted strip_prefix lines json_escape decimal signed info HashMap.get new
joins_a_cut_line = refl

abbrev names : List Text
names = text "t3" ∷ text "t1" ∷ text "t2" ∷ []

around_runs : around names (text "t2") ≡ (some (text "t2"), some (text "t3"))
unfolding around text_le
around_runs = refl

around_lem_example :
    let (before, after) = around names (text "t2") in
    IsBefore names (text "t2") before × IsAfter names (text "t2") after
around_lem_example = around_lem names (text "t2")

abbrev at_time : Text → Event
at_time ts = record found { ts = ts }

abbrev events : List Event
events = at_time (text "t2") ∷ at_time (text "t1") ∷ at_time (text "t2") ∷ []

dedup_lem_example :
    let kept = dedup (sort_by by_ts events) in
    Pairs Later kept
    × All (λ e. In e events) kept
    × All (λ e. any (λ f. text_eq f.ts e.ts) kept ≡ true) events
dedup_lem_example = dedup_lem events
