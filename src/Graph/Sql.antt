-- ===== src/Graph/Sql.antt =====
-- How src/graph.rs runs its statements. Each statement is one transaction: it takes effect whole, or
-- it fails and changes nothing. Which statements fail is the environment's choice: `faults` has an
-- entry for each statement still to come, and those past its end succeed.
use whenfs.Prelude.{Bool, true, false, List, [], ◌∷◌}
use whenfs.Graph.Types.{Tables}

-- `rusqlite::Result`
pub data Result {ℓ} (A : Type ℓ) : Type ℓ where
  ok : A → Result A
  failed : Result A

pub record Graph : Type 0 where
  pub tables : Tables
  pub faults : List Bool

-- A method of `Graph`: what it returns, and the database that it leaves.
abbrev pub Query {ℓ} : Type ℓ → Type ℓ
Query A = Graph → Result A × Graph

infixl 10 ◌>>=◌ ◌>>◌
abbrev pub after {ℓ κ} : {A : Type ℓ} {B : Type κ} → Result A → (A → Query B) → Query B
after (ok a) f g = f a g
after failed f g = (failed, g)

-- `?` after a statement: an error ends the method.
unfoldable pub ◌>>=◌ {ℓ κ} : {A : Type ℓ} {B : Type κ} → Query A → (A → Query B) → Query B
◌>>=◌ m f g = let (r, g') = m g in after r f g'

abbrev pub ◌>>◌ {ℓ κ} : {A : Type ℓ} {B : Type κ} → Query A → Query B → Query B
m >> n = m >>= λ _. n

unfoldable pub pure {ℓ} : {A : Type ℓ} → A → Query A
pure a g = (ok a, g)

abbrev pub run_on {ℓ} : {A : Type ℓ} → List Bool → Tables → (Tables → A × Tables) → Result A × Graph
run_on [] t f = let (a, t') = f t in (ok a, record { tables = t'; faults = [] })
run_on (false ∷ rest) t f = let (a, t') = f t in (ok a, record { tables = t'; faults = rest })
run_on (true ∷ rest) t f = (failed, record { tables = t; faults = rest })

-- One statement: a count of rows, or the rows of a query, and the tables that it leaves.
unfoldable pub statement {ℓ} : {A : Type ℓ} → (Tables → A × Tables) → Query A
statement f g = run_on g.faults g.tables f

unfoldable pub select {ℓ} : {A : Type ℓ} → (Tables → A) → Query A
select f = statement λ t. (f t, t)

-- A database none of whose statements will fail.
abbrev pub clean : Tables → Graph
clean t = record { tables = t; faults = [] }

abbrev pub on_ok {ℓ κ} : {A : Type ℓ} {B : Type κ} → (A → B) → Result A → Result B
on_ok f (ok a) = ok (f a)
on_ok f failed = failed
