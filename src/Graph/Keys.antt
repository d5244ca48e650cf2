-- ===== src/Graph/Keys.antt =====
-- The ids that src/graph.rs gives to events.
use whenfs.Prelude.{◌<◌, List, [], ◌∷◌, arith, All, All-map}
use whenfs.Graph.Types.{EventRow}
use whenfs.Graph.{next_id}

pub next_id_above : (events : List EventRow) → All (λ e. e.id < next_id events) events
unfolding next_id
next_id_above [] = tt
next_id_above (e ∷ events) =
    (ground arith, All-map _ _ events (λ x h. ground arith) (next_id_above events))
