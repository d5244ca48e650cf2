-- ===== src/Graph/Keeps.antt =====
-- What a method of src/graph.rs leaves true of the tables, whatever it returns and whichever of its
-- statements fail.
use whenfs.Prelude.{Bool, true, false, Option, none, some, List, [], ◌∷◌, if◌then◌else◌}
use whenfs.Prelude.Text.{Text}
use whenfs.Graph.Types.{Tables}
use whenfs.Graph.Sql.{
  Graph, Query, Result, after, run_on, ok, failed, ◌>>=◌, pure, statement, select,
}
use whenfs.Graph.{query_row, or_query}

pub record Keeps {ℓ κ} {A : Type ℓ} (P : Tables → Type κ) (m : Query A) : Type κ where
  pub at : (g : Graph) → P g.tables → P (m g).1.tables

module _ {κ} {P : Tables → Type κ} where
  pub Keeps-pure {ℓ} : {A : Type ℓ} (a : A) → Keeps P (pure a)
  unfolding pure
  Keeps-pure a = record { at = λ g k. k }

  pub Keeps-statement {ℓ} :
      {A : Type ℓ} (f : Tables → A × Tables)
      → ((t : Tables) → P t → P (f t).1)
      → Keeps P (statement f)
  unfolding statement
  Keeps-statement f h = record { at = λ g k. go g.faults g.tables k }
    where
      go : (faults : List Bool) (t : Tables) → P t → P (run_on faults t f).1.tables
      go [] t k = h t k
      go (false ∷ rest) t k = h t k
      go (true ∷ rest) t k = k

  pub Keeps-select {ℓ} : {A : Type ℓ} (f : Tables → A) → Keeps P (select f)
  unfolding select
  Keeps-select f = Keeps-statement (λ t. (f t, t)) (λ t k. k)

  pub Keeps-bind {ℓ μ} :
      {A : Type ℓ} {B : Type μ} (m : Query A) (f : A → Query B)
      → Keeps P m
      → ((a : A) → Keeps P (f a))
      → Keeps P (m >>= f)
  unfolding ◌>>=◌
  Keeps-bind m f km kf = record { at = λ g k. let (r, g') = m g in go r g' (km.at g k) }
    where
      go : (r : Result _) (g : Graph) → P g.tables → P (after r f g).1.tables
      go (ok a) g k = (kf a).at g k
      go failed g k = k

  pub Keeps-if {ℓ} :
      {A : Type ℓ} (b : Bool) (m n : Query A) → Keeps P m → Keeps P n → Keeps P (if b then m else n)
  Keeps-if true m n km kn = km
  Keeps-if false m n km kn = kn

  pub Keeps-query_row : (f : Tables → Option Text) → Keeps P (query_row f)
  unfolding query_row
  Keeps-query_row f = record { at = λ g k. (Keeps-select f).at g k }

  pub Keeps-or_query :
      (o : Option Text) (q : Query (Option Text)) → Keeps P q → Keeps P (or_query o q)
  unfolding or_query
  Keeps-or_query none q k = record { at = λ g h. k.at g h }
  Keeps-or_query (some s) q k = record { at = λ g h. h }

pub ruleset keeps_queries = (
  Keeps-pure, Keeps-bind, Keeps-if, Keeps-select, Keeps-query_row, Keeps-or_query, Keeps-statement,
)
