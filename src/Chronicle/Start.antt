-- ===== src/Chronicle/Start.antt =====
-- `find_db` and `main` of src/bin/chronicle.rs: the database that is opened, and what ends the program
-- before a command runs.
use whenfs.Prelude.{Option, none, some, List, [], ◌∷◌, if◌then◌else◌}
use whenfs.Prelude.Text.{Text, text}
use whenfs.Graph.Sql.{Graph}
use whenfs.Chronicle.{World, Output, eprintln, ◌⊕◌}
use whenfs.Chronicle.Args.{
  Options, no_options, arg_loop, Command, needs_before, needs_roots, usage, command_of,
}

abbrev first_existing : World → List Text → Option Text
first_existing w [] = none
first_existing w (p ∷ paths) = if w.exists p then some p else first_existing w paths

abbrev or_candidates : World → Option Text → Option Text
or_candidates w (some p) = some p
or_candidates w none = first_existing w (text "graph.db" ∷ text "/var/lib/whenfs/graph.db" ∷ [])

-- The option, else the variable, else the first of two files that is there.
unfoldable pub find_db : World → Option Text → Option Text
find_db w (some p) = some p
find_db w none = or_candidates w w.graph_variable

abbrev usage_text : Output
usage_text =
    eprintln (text "usage:" ∷ [])
    ⊕ eprintln (text "  chronicle log   <path>     full history of a file" ∷ [])
    ⊕ eprintln (text "  chronicle blame <path>     who last wrote it, and why" ∷ [])
    ⊕ eprintln (text "  chronicle tree  <pid>      processes under one that wrote anything" ∷ [])
    ⊕ eprintln
        (text "  chronicle trace -- <cmd>   run a command, report every file it touched" ∷ [])
    ⊕ eprintln
        (text "  chronicle revert <pid>     undo a traced command (dry run unless --apply)" ∷ [])
    ⊕ eprintln (text "                             needs --snap <dir> --live <dir>" ∷ [])
    ⊕ eprintln (text "  chronicle prune --before <when>   drop history older than that" ∷ [])
    ⊕ eprintln
        (text "                             (dry run unless --apply; --vacuum reclaims)" ∷ [])
    ⊕ eprintln (text "  chronicle stat             graph size" ∷ [])
    ⊕ eprintln (text "" ∷ [])
    ⊕ eprintln (text "  --db <path>                database location" ∷ [])
    ⊕ eprintln (text "                             (else $WHENFS_GRAPH, ./graph.db," ∷ [])
    ⊕ eprintln (text "                              /var/lib/whenfs/graph.db)" ∷ [])

abbrev no_database : Output
no_database =
    eprintln (text "no graph database found. Is whodidd running?" ∷ [])
    ⊕ eprintln (text "Looked for: $WHENFS_GRAPH, ./graph.db, /var/lib/whenfs/graph.db" ∷ [])

-- The program stops with status 1, or a command runs on the open database.
pub data Start : Type 0 where
  stops : Output → Start
  starts : Command → Text → Graph → Start

abbrev on_command : Text → Graph → Command → Start
on_command db g usage = stops usage_text
on_command db g needs_before =
    stops (eprintln (text "prune needs --before <time-expression>, e.g. 30-days-ago" ∷ []))
on_command db g needs_roots =
    stops (eprintln (text "revert needs --snap <snapshot-dir> --live <watched-dir>" ∷ []))
on_command db g command = starts command db g

abbrev on_graph : World → Options → Text → Option Graph → Start
on_graph w o db none =
    stops (eprintln (text "cannot open " ∷ db ∷ text ": " ∷ w.database_error ∷ []))
on_graph w o db (some g) = on_command db g (command_of o o.rest)

abbrev on_database : World → (Text → Option Graph) → Options → Option Text → Start
on_database w open_graph o none = stops no_database
on_database w open_graph o (some db) = on_graph w o db (open_graph db)

abbrev on_words : World → (Text → Option Graph) → Options → List Text → Start
on_words w open_graph o [] = stops usage_text
on_words w open_graph o (_ ∷ _) = on_database w open_graph o (find_db w o.db_arg)

unfoldable pub start : World → (Text → Option Graph) → List Text → Start
unfolding find_db arg_loop command_of
start w open_graph argv = let o = arg_loop argv no_options in on_words w open_graph o o.rest
