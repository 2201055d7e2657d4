-- ===== src/Server2/Bundle/Inserter.antt =====
-- The `inserter` of server2/bundle.go: it writes DROP and INSERT DATA, and leaves out what repeats.
use smart_web.Base.{
  Bool, true, false, not, [], ◌∷◌, ◌++◌, Bytes, codes, equal, is_empty, if◌then◌else◌,
}
use smart_web.Sparql.Literals.{url}
use smart_web.Sparql.Query.{make_query}

-- `current_statement`: "", "DROP" or "DATA"
pub data StatementKind : Type 0 where
  no_statement drop_graph insert_block : StatementKind

pub record Inserter : Type 0 where
  pub statements : Bytes
  pub current_statement : StatementKind
  pub current_graph : Bytes
  pub current_subject : Bytes
  pub current_predicate : Bytes
  pub in_object : Bool

abbrev pub new_inserter : Inserter
new_inserter = record {
  statements = [];
  current_statement = no_statement;
  current_graph = [];
  current_subject = [];
  current_predicate = [];
  in_object = false;
}

-- `i.statements += s`
abbrev pub put : Bytes → Inserter → Inserter
put s i = record i { statements = i.statements ++ s }

unfoldable pub close_object : Bytes → Inserter → Inserter
close_object suffix i =
    if i.in_object then record (put (b',' ∷ suffix) i) { in_object = false } else i

unfoldable pub close_predicate : Bytes → Inserter → Inserter
close_predicate suffix i =
    if not (is_empty i.current_predicate)
    then record (put (b' ' ∷ b';' ∷ suffix) i) { current_predicate = []; in_object = false }
    else i

unfoldable pub close_subject : Bytes → Inserter → Inserter
close_subject suffix i =
    if not (is_empty i.current_subject)
    then record (put (b' ' ∷ b'.' ∷ suffix) i) {
      current_subject = [];
      current_predicate = [];
      in_object = false;
    }
    else i

unfoldable pub close_graph : Bytes → Inserter → Inserter
close_graph suffix i =
    if not (is_empty i.current_graph)
    then record (put (b' ' ∷ b'}' ∷ suffix) i) {
      current_graph = [];
      current_subject = [];
      current_predicate = [];
      in_object = false;
    }
    else i

close_kind : StatementKind → Bytes → Inserter → Inserter
close_kind insert_block suffix i = record (put (b' ' ∷ b'}' ∷ suffix) (close_graph [] i)) {
  current_statement = no_statement;
}
close_kind drop_graph suffix i = record (put suffix i) { current_statement = no_statement }
close_kind no_statement suffix i = i

unfoldable pub close_statement : Bytes → Inserter → Inserter
unfolding close_kind
close_statement suffix i = close_kind i.current_statement suffix i

-- the argument is the URL's text
unfoldable pub delete_graph : Bytes → Inserter → Inserter
delete_graph graph_uri i =
    let closed = close_statement (codes " ;\n") i in
    record (put (make_query (codes "DROP SILENT GRAPH %1u") (url graph_uri ∷ [])) closed) {
      current_statement = drop_graph;
    }

unfoldable pub open_kind : StatementKind → Inserter → Inserter
open_kind insert_block i = i
open_kind _ i = record (put (codes "INSERT DATA {\n") (close_statement (codes " ;\n") i)) {
  current_statement = insert_block;
}

unfoldable pub open_graph : Bytes → Inserter → Inserter
open_graph g i =
    if not (equal i.current_graph g)
    then record (put (codes " GRAPH " ++ (g ++ codes " {\n")) (close_graph (codes "\n") i)) {
      current_graph = g;
    }
    else i

unfoldable pub open_subject : Bytes → Inserter → Inserter
open_subject s i =
    if not (equal i.current_subject s)
    then record (put (codes "  " ++ (s ++ codes " ")) (close_subject (codes "\n") i)) {
      current_subject = s;
    }
    else i

unfoldable pub open_predicate : Bytes → Inserter → Inserter
open_predicate p i =
    if not (equal i.current_predicate p)
    then record (put (p ++ codes " ") (close_predicate (codes "\n   ") i)) { current_predicate = p }
    else i

unfoldable pub insert_data : Bytes → Bytes → Bytes → Bytes → Inserter → Inserter
insert_data enc_subj enc_pred enc_obj enc_graph i =
    let block = open_kind i.current_statement i in
    let pos = open_predicate enc_pred (open_subject enc_subj (open_graph enc_graph block)) in
    record (put enc_obj (close_object (codes "\n    ") pos)) { in_object = true }

unfoldable pub terminate : Inserter → Bytes
terminate i = (close_statement [] i).statements
