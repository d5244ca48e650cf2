-- ===== src/Daemon/Lines.antt =====
-- The lines of the log of src/bin/whodidd.rs, and the parse of `/proc/<pid>/stat`.
use whenfs.Prelude.{
  ℕ, zero, suc, ◌-◌, ◌/◌, ◌%◌, ◌^◌, ◌≡◌, refl, ap, inl, inr, true, false, Option, none, some, List,
  [], ◌∷◌, ◌++◌, reverse, arith, eqb, ltb, leb, All, all, all-All, All-append, Bool-cases,
}
use mathlib.Core.List.{reverse-cons}
use whenfs.Prelude.Text.{Text, text}
use whenfs.ProcTree.{ProcInfo, info}
use whenfs.Daemon.Strings.{
  concat, json_escape, escape_char, hex_digit, decimal, digits_back, signed, after_last_paren,
  parse_ppid,
}
use whenfs.Daemon.{
  write_all, System, Daemon, or_read, to_graph, line_pieces, log_line, log_event_full,
}

-- No character below U+0020: no line break, in particular.
abbrev pub IsPrintable : Text → Type 0
IsPrintable = All (λ c. leb 32 c ≡ true)

escape_char-IsPrintable : (c : ℕ) → IsPrintable (escape_char c)
escape_char-IsPrintable c = elim (Bool-cases (eqb c b'"')) [
  | inl a ↦ rw a (refl, (refl, tt))
  | inr a ↦ elim (Bool-cases (eqb c b'\\')) [
    | inl b ↦ rw (a, b) (refl, (refl, tt))
    | inr b ↦ elim (Bool-cases (eqb c 10)) [
      | inl d ↦ rw (a, b, d) (refl, (refl, tt))
      | inr d ↦ elim (Bool-cases (eqb c 9)) [
        | inl e ↦ rw (a, b, d, e) (refl, (refl, tt))
        | inr e ↦ elim (Bool-cases (ltb c 32)) [
          | inl f ↦
              rw (a, b, d, e, f)
                (refl, (refl, (refl, (refl, (hex_lem (c / 16), (hex_lem (c % 16), tt))))))
          | inr f ↦ rw (a, b, d, e, f) (ground arith, tt)
        ]
      ]
    ]
  ]
]
  where
    hex_lem : (n : ℕ) → leb 32 (hex_digit n) ≡ true
    hex_lem n = ground arith

json_escape-IsPrintable : (s : Text) → IsPrintable (json_escape s)
unfolding json_escape
json_escape-IsPrintable [] = tt
json_escape-IsPrintable (c ∷ s) =
    All-append _ (escape_char c) (json_escape s) (escape_char-IsPrintable c)
      (json_escape-IsPrintable s)

pub reverse-All : (P : ℕ → Type 0) (s : Text) → All P s → All P (reverse s)
reverse-All P [] h = h
reverse-All P (c ∷ s) h =
    rw (reverse-cons c s) (All-append P (reverse s) (c ∷ []) (reverse-All P s h.1) (h.0, tt))

digits_back-IsPrintable : (fuel n : ℕ) → IsPrintable (digits_back fuel n)
digits_back-IsPrintable zero n = tt
digits_back-IsPrintable (suc fuel) n = elim (Bool-cases (ltb n 10)) [
  | inl a ↦ rw a (ground arith, tt)
  | inr a ↦ rw a (ground arith, digits_back-IsPrintable fuel (n / 10))
]

decimal-IsPrintable : (n : ℕ) → IsPrintable (decimal n)
unfolding decimal
decimal-IsPrintable n = reverse-All _ (digits_back 10 n) (digits_back-IsPrintable 10 n)

signed-IsPrintable : (n : ℕ) → IsPrintable (signed n)
unfolding signed
signed-IsPrintable n = elim (Bool-cases (ltb n (2 ^ 31))) [
  | inl a ↦ rw (signed, a) (decimal-IsPrintable n)
  | inr a ↦ rw (signed, a) (refl, decimal-IsPrintable (2 ^ 32 - n))
]

after_last_paren-none : (s : Text) → All (λ c. eqb c b')' ≡ false) s → after_last_paren s ≡ none
unfolding after_last_paren
after_last_paren-none [] h = refl
after_last_paren-none (c ∷ s) h = rw (after_last_paren, after_last_paren-none s h.1, h.0) refl

after_last_paren-append :
    (a rest : Text)
    → All (λ c. eqb c b')' ≡ false) rest
    → after_last_paren (a ++ b')' ∷ rest) ≡ some rest
unfolding after_last_paren
after_last_paren-append [] rest h = rw (after_last_paren, after_last_paren-none rest h) refl
after_last_paren-append (c ∷ a) rest h =
    rw (after_last_paren, after_last_paren-append a rest h) refl

-- The parent read from a line of stat does not depend on what stands before its last parenthesis: a
-- name of a process may hold spaces, parentheses and numbers.
pub parse_ppid-append :
    (a b rest : Text)
    → All (λ c. eqb c b')' ≡ false) rest
    → parse_ppid (a ++ b')' ∷ rest) ≡ parse_ppid (b ++ b')' ∷ rest)
unfolding parse_ppid
parse_ppid-append a b rest h =
    rw (after_last_paren-append a rest h, after_last_paren-append b rest h) refl

concat-IsPrintable : (pieces : List Text) → All IsPrintable pieces → IsPrintable (concat pieces)
concat-IsPrintable [] h = tt
concat-IsPrintable (s ∷ pieces) h =
    All-append _ s (concat pieces) h.0 (concat-IsPrintable pieces h.1)

literal : (s : Text) → all (λ c. leb 32 c) s ≡ true → IsPrintable s
literal = all-All _

pub log_line-IsPrintable :
    (s : System) (path op : Text) (pid : ℕ) (i : ProcInfo)
    → IsPrintable s.log_now
    → IsPrintable op
    → IsPrintable (log_line s path op pid i)
unfolding log_line line_pieces
log_line-IsPrintable s path op pid i now named = concat-IsPrintable (line_pieces s path op pid i) (
  literal (text "{\"ts\":\"") refl,
  (
    now,
    (
      literal (text "\",\"path\":\"") refl,
      (
        json_escape-IsPrintable path,
        (
          literal (text "\",\"op\":\"") refl,
          (
            named,
            (
              literal (text "\",\"pid\":") refl,
              (
                signed-IsPrintable pid,
                (
                  literal (text ",\"comm\":\"") refl,
                  (
                    json_escape-IsPrintable i.comm,
                    (
                      literal (text "\",\"exe\":\"") refl,
                      (
                        json_escape-IsPrintable i.exe,
                        (
                          literal (text "\",\"cmdline\":\"") refl,
                          (
                            json_escape-IsPrintable i.cmdline,
                            (
                              literal (text "\",\"uid\":") refl,
                              (decimal-IsPrintable i.uid, (literal (text "}") refl, tt)),
                            ),
                          ),
                        ),
                      ),
                    ),
                  ),
                ),
              ),
            ),
          ),
        ),
      ),
    ),
  ),
)

written_whole : (o : Option ℕ) (line : Text) → o ≡ none → write_all o line ≡ line
unfolding write_all
written_whole none line h = refl
written_whole (some n) line h = cc

pub log-log_event_full :
    (s : System) (path op : Text) (pid : ℕ) (other : Option Text) (d : Daemon)
    → s.log_fails_at ≡ none
    → let t = (to_graph s path op pid other d.table d.graph).0 in
      (log_event_full s path op pid other d).log
      ≡ d.log ++ (log_line s path op pid (or_read s pid (info t pid)) ++ 10 ∷ [])
unfolding log_event_full
log-log_event_full s path op pid other d works =
    let t = (to_graph s path op pid other d.table d.graph).0 in
    let line = log_line s path op pid (or_read s pid (info t pid)) ++ 10 ∷ [] in
    ap (λ l. d.log ++ l) (written_whole s.log_fails_at line works)

-- Where the write to the log does not fail, an event adds just one line to it, whichever statements of
-- the graph fail and also without a graph; and whatever the path and the names of the process hold,
-- the line has no line break or other character below U+0020 in it but the line feed at its end, as
-- long as the time and the kind of the event have none.
pub log_event_full-IsPrintable :
    (s : System) (path op : Text) (pid : ℕ) (other : Option Text) (d : Daemon)
    → s.log_fails_at ≡ none
    → IsPrintable s.log_now
    → IsPrintable op
    → (line : Text) × ((log_event_full s path op pid other d).log ≡ d.log ++ (line ++ 10 ∷ []))
      × IsPrintable line
log_event_full-IsPrintable s path op pid other d works now named =
    let t = (to_graph s path op pid other d.table d.graph).0 in
    let i = or_read s pid (info t pid) in
    (
      log_line s path op pid i,
      log-log_event_full s path op pid other d works,
      log_line-IsPrintable s path op pid i now named,
    )
