-- ===== src/Bundle/Reader.antt =====
-- bundle/reader.go: the entries of an archive, and the channel of the statements of its graph.
use smart_web.Base.{
  ℕ, zero, suc, Option, none, some, List, [], ◌∷◌, Bytes, codes, equal, length, if◌then◌else◌,
}
use smart_web.Nquads.Statement.{Statement}
use smart_web.Nquads.Stream.{Error, out_of_fuel, Result, ok, err, Reader}
use smart_web.Nquads.Reader.{read_statement}

-- An entry, and what `Open` makes of it, or none for an error of `Open`.
pub record ZipFile : Type 0 where
  pub name : Bytes
  pub opened : Option Reader

-- The results of `Graph`: nil without an error where the archive has no graph.
pub data Graph : Type 0 where
  no_graph graph_error : Graph
  graph_reader : Reader → Graph

unfoldable pub opened_graph : Option Reader → Graph
opened_graph none = graph_error
opened_graph (some r) = graph_reader r

unfoldable pub graph : List ZipFile → Graph
graph [] = no_graph
graph (f ∷ fs) =
    let rest = graph fs in if equal f.name (codes "graphs.nq") then opened_graph f.opened else rest

-- What comes out of the channel, and how it ends: it is closed, or it is left open behind an error,
-- or the goroutine that fills it panics.
pub data Channel : Type 0 where
  closed panicked : Channel
  cannot_open : Channel
  stopped : Error → Channel
  sent : Statement → Channel → Channel

-- what the loop does with the result of `ReadStatement`
unfoldable pub statements_from : (Reader → Channel) → Result (Option Statement) × Reader → Channel
statements_from again (err e, r) = stopped e
statements_from again (ok none, r) = closed
statements_from again (ok (some st), r) = sent st (again r)

-- the loop of `GraphStatements`
unfoldable pub statements : ℕ → Reader → Channel
statements zero r = stopped out_of_fuel
statements (suc fuel) r = statements_from (statements fuel) (read_statement r)

-- `GraphStatements` on what `Graph` returned: `ReadStatement` on nil is a panic.
unfoldable pub graph_channel : Graph → Channel
graph_channel no_graph = panicked
graph_channel graph_error = cannot_open
graph_channel (graph_reader r) = statements (suc (length r.input)) r

unfoldable pub graph_statements : List ZipFile → Channel
graph_statements files = graph_channel (graph files)
