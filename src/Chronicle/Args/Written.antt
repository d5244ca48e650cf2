-- ===== src/Chronicle/Args/Written.antt =====
-- The loop over the arguments in src/bin/chronicle.rs, on arguments as they are written.
use whenfs.Prelude.{
  ◌≢◌, ◌⊎◌, inl, inr, subst, Bool-cases, ◌≡◌, refl, ap, ◌∙◌, sym, true, none, some, List, [], ◌∷◌,
  ◌++◌, arith,
}
use mathlib.Core.List.{append_assoc, append-nil}
use whenfs.Prelude.Text.{Text, text, text_eq, text_eq_iff}
use whenfs.Chronicle.Args.{
  Options, no_options, is_traced, push, pair, single, arg_loop, trace_of, command_of, Command,
  usage, trace,
}

is_traced-append :
    (words more : List Text) → is_traced words ≡ true → is_traced (words ++ more) ≡ true
unfolding is_traced
is_traced-append [] more h = ground (arith, h)
is_traced-append (word ∷ words) more h = h

single-traced : (a : Text) (o : Options) → is_traced o.rest ≡ true → single a o ≡ push a o
unfolding single
single-traced a o h = rw (single, h) refl

pair-traced : (a b : Text) (o : Options) → is_traced o.rest ≡ true → pair a b o ≡ none
unfolding pair
pair-traced a b o h = rw (pair, h) refl

-- What stands behind `trace` is left as it is.
traced_rest :
    (args : List Text) (o : Options)
    → is_traced o.rest ≡ true
    → arg_loop args o ≡ record o { rest = o.rest ++ args }
unfolding arg_loop pair single
traced_rest [] o h = rw (append-nil o.rest) refl
traced_rest (a ∷ []) o h = rw (arg_loop, single, h) refl
traced_rest (a ∷ b ∷ args) o h =
    rw (arg_loop, pair-traced a b o h, single-traced a o h)
      (traced_rest (b ∷ args) (push a o) (is_traced-append o.rest (a ∷ []) h)
        ∙ ap (λ words. record o { rest = words }) (append_assoc o.rest (a ∷ []) (b ∷ args)))

-- The options that `chronicle` knows, and how they are written.
pub data Flag : Type 0 where
  db snap live before : Text → Flag
  apply vacuum : Flag

abbrev pub words_of : Flag → List Text
words_of (db t) = text "--db" ∷ t ∷ []
words_of (snap t) = text "--snap" ∷ t ∷ []
words_of (live t) = text "--live" ∷ t ∷ []
words_of (before t) = text "--before" ∷ t ∷ []
words_of apply = text "--apply" ∷ []
words_of vacuum = text "--vacuum" ∷ []

abbrev pub set : Flag → Options → Options
set (db t) o = record o { db_arg = some t }
set (snap t) o = record o { snap_arg = some t }
set (live t) o = record o { live_arg = some t }
set (before t) o = record o { before_arg = some t }
set apply o = record o { apply = true }
set vacuum o = record o { vacuum = true }

abbrev pub written : List Flag → List Text → List Text
written [] args = args
written (f ∷ flags) args = words_of f ++ written flags args

abbrev pub set_all : List Flag → Options → Options
set_all [] o = o
set_all (f ∷ flags) o = set_all flags (set f o)

module _ (b : Text) (o : Options) (h : o.rest ≡ []) where
  single-apply : single (text "--apply") o ≡ record o { apply = true }
  unfolding single is_traced text_eq
  single-apply = rw (single, h) refl

  single-vacuum : single (text "--vacuum") o ≡ record o { vacuum = true }
  unfolding single is_traced text_eq
  single-vacuum = rw (single, h) refl

  pair-apply : pair (text "--apply") b o ≡ none
  unfolding pair is_traced text_eq
  pair-apply = rw (pair, h) refl

  pair-vacuum : pair (text "--vacuum") b o ≡ none
  unfolding pair is_traced text_eq
  pair-vacuum = rw (pair, h) refl

  trace_begins : single (text "trace") o ≡ record o { rest = text "trace" ∷ [] }
  unfolding single is_traced text_eq
  trace_begins = rw (single, h) refl

  trace_is_no_option : pair (text "trace") b o ≡ none
  unfolding pair is_traced text_eq
  trace_is_no_option = rw (pair, h) refl

-- A flag before the command, with something behind it.
one_flag :
    (f : Flag) (a : Text) (args : List Text) (o : Options)
    → o.rest ≡ []
    → arg_loop (words_of f ++ a ∷ args) o ≡ arg_loop (a ∷ args) (set f o)
unfolding arg_loop pair single text_eq is_traced
one_flag (db t) a args o h = rw (arg_loop, pair, h) refl
one_flag (snap t) a args o h = rw (arg_loop, pair, h) refl
one_flag (live t) a args o h = rw (arg_loop, pair, h) refl
one_flag (before t) a args o h = rw (arg_loop, pair, h) refl
one_flag apply a args o h = rw (arg_loop, pair-apply a o h, single-apply a o h) refl
one_flag vacuum a args o h = rw (arg_loop, pair-vacuum a o h, single-vacuum a o h) refl

written_some :
    (flags : List Flag) (a : Text) (args : List Text)
    → (b : Text) × (more : List Text) × (written flags (a ∷ args) ≡ b ∷ more)
written_some [] a args = (a, args, refl)
written_some (db t ∷ flags) a args = (_, _, refl)
written_some (snap t ∷ flags) a args = (_, _, refl)
written_some (live t ∷ flags) a args = (_, _, refl)
written_some (before t ∷ flags) a args = (_, _, refl)
written_some (apply ∷ flags) a args = (_, _, refl)
written_some (vacuum ∷ flags) a args = (_, _, refl)

rest-set : (f : Flag) (o : Options) → (set f o).rest ≡ o.rest
rest-set (db t) o = refl
rest-set (snap t) o = refl
rest-set (live t) o = refl
rest-set (before t) o = refl
rest-set apply o = refl
rest-set vacuum o = refl

rest-set_all : (flags : List Flag) (o : Options) → (set_all flags o).rest ≡ o.rest
rest-set_all [] o = refl
rest-set_all (f ∷ flags) o = rest-set_all flags (set f o) ∙ rest-set f o

all_flags :
    (flags : List Flag) (a : Text) (args : List Text) (o : Options)
    → o.rest ≡ []
    → arg_loop (written flags (a ∷ args)) o ≡ arg_loop (a ∷ args) (set_all flags o)
all_flags [] a args o h = refl
all_flags (f ∷ flags) a args o h =
    let (b, more, e) = written_some flags a args in
    ap (λ ws. arg_loop (words_of f ++ ws) o) e
    ∙ one_flag f b more o h
    ∙ ap (λ ws. arg_loop ws (set f o)) (sym e)
    ∙ all_flags flags a args (set f o) (rest-set f o ∙ h)

from_trace :
    (cmd : List Text) (o : Options)
    → o.rest ≡ []
    → arg_loop (text "trace" ∷ cmd) o ≡ record o { rest = text "trace" ∷ cmd }
unfolding arg_loop
from_trace [] o h = trace_begins (text "") o h
from_trace (b ∷ cmd) o h =
    rw (arg_loop, trace_is_no_option b o h, trace_begins b o h)
      (traced_rest (b ∷ cmd) (record o { rest = text "trace" ∷ [] }) refl)

-- The command that `trace` is to make of what stands behind it: the usage if that is nothing, and
-- otherwise the words to run, which are all of them but for one `--` in front.
abbrev pub IsAsked : List Text → Command → Type 0
IsAsked [] c = c ≡ usage
IsAsked (a ∷ args) c =
    ((a ≡ text "--") × (c ≡ trace args)) ⊎ ((a ≢ text "--") × (c ≡ trace (a ∷ args)))

trace_of-IsAsked : (cmd : List Text) → IsAsked cmd (trace_of cmd)
trace_of-IsAsked [] = refl
trace_of-IsAsked (a ∷ args) = elim (Bool-cases (text_eq a (text "--"))) [
  | inl dashes ↦ inl ((text_eq_iff a (text "--")).0 dashes, rw dashes refl)
  | inr other ↦
      inr (λ same. let h = (text_eq_iff a (text "--")).1 same in cc (h, other), rw other refl)
]

-- Behind any options before it, `trace` takes all that follows: the options are set as they were
-- written, and the command to run is what stands behind `trace`, without a `--` in front of it, be
-- its words options of chronicle or not; with nothing behind it, the usage is asked for.
pub arg_loop-written :
    (flags : List Flag) (cmd : List Text)
    → let o = arg_loop (written flags (text "trace" ∷ cmd)) no_options in
      (o ≡ record (set_all flags no_options) { rest = text "trace" ∷ cmd })
      × IsAsked cmd (command_of o o.rest)
unfolding is_traced text_eq command_of
arg_loop-written flags cmd =
    let e =
      all_flags flags (text "trace") cmd no_options refl
      ∙ from_trace cmd (set_all flags no_options) (rest-set_all flags no_options) in
    (e, subst (IsAsked cmd) (sym (ap (λ o. command_of o o.rest) e)) (trace_of-IsAsked cmd))
