-- ===== src/Server2/Bundle/Statements.antt =====
-- `makeStatements` of server2/bundle.go: the update for a bundle's statements.
use smart_web.Base.{
  not, ◌&&◌, Option, none, some, List, [], ◌∷◌, ◌++◌, ◌⊎◌, inl, inr, Bytes, codes, equal, is_empty,
  if◌then◌else◌,
}
use smart_web.Sparql.Literals.{
  iri_literal, iri_rel_literal, blank_literal, string_literal, typed_string_literal,
  loc_string_literal,
}
use smart_web.Nquads.Node.{LiteralNode, xsd_string}
use smart_web.Nquads.Statement.{
  Statement, NodeType, type_none, type_blank, type_iri, type_literal, subject, predicate,
  object_type, object_iri, object_blank, object_literal, graph, print_statement,
}
use smart_web.Server2.Url.{Url, is_sub_url}
use smart_web.Server2.Bundle.Inserter.{Inserter, new_inserter, delete_graph, insert_data, terminate}

abbrev pub sw_relative_path : Bytes
sw_relative_path = codes "tag:mildred.fr,2015-05:SmartWeb#relativePath"

abbrev pub sw_hash : Bytes
sw_hash = codes "tag:mildred.fr,2015-05:SmartWeb#hash"

-- what the channel yields: a statement, or the error that ends it, by its text
pub data Item : Type 0 where
  statement : Statement → Item
  failure : Bytes → Item

-- The variables of the loop; the maps are association lists, a set the list of its members, and in
-- each what was put last comes first.
pub record Import : Type 0 where
  pub graphs_rel_uri : List (Bytes × Url)
  pub drop : Inserter
  pub ins : Inserter
  pub logs : List Bytes
  pub wanted_hashes : List Bytes

-- the four results; the last is none for nil
pub record Update : Type 0 where
  pub statements : Bytes
  pub wanted_hashes : List Bytes
  pub logs : List Bytes
  pub error : Option Bytes

abbrev pub new_import : Import
new_import = record {
  graphs_rel_uri = [];
  drop = new_inserter;
  ins = new_inserter;
  logs = [];
  wanted_hashes = [];
}

unfoldable pub get : List (Bytes × Url) → Bytes → Option Url
get [] k = none
get ((key, u) ∷ m) k = let rest = get m k in if equal key k then some u else rest

abbrev pub log : Bytes → Import → Import
log line m = record m { logs = m.logs ++ line ∷ [] }

-- `fmt` prints the verb `%>` of these formats as `%!>(string=...)`.
unfoldable pub not_parsed : Bytes → Bytes → Bytes → Bytes
not_parsed g rel e =
    codes "Could not insert graph <"
    ++ g
    ++ codes ">, its URI <%!>(string="
    ++ rel
    ++ codes ") is cannot be parsed: "
    ++ e

unfoldable pub outside_base : Bytes → Bytes → Bytes → Bytes
outside_base g rel base =
    codes "Could not insert graph <"
    ++ g
    ++ codes ">, its URI <%!>(string="
    ++ rel
    ++ codes ") is outside of out base <"
    ++ base
    ++ codes ">"

unfoldable pub not_inserted : Statement → Bytes
not_inserted st =
    if not (graph st).1
    then codes "Could not insert "
      ++ print_statement st
      ++ codes "\nPredicate "
      ++ predicate st
      ++ codes " != "
      ++ sw_relative_path
    else codes "Could not insert " ++ print_statement st

-- the value that `ObjectLiteral` returns: "" if the object is no literal
unfoldable pub literal_value : Option LiteralNode → Bytes
literal_value none = []
literal_value (some lit) = lit.value

literal_term : Option LiteralNode → Bytes
literal_term none = string_literal []
literal_term (some lit) =
    if not (is_empty lit.lang)
    then loc_string_literal lit.value lit.lang
    else if not (equal lit.type xsd_string) && not (is_empty lit.type)
    then typed_string_literal lit.value lit.type
    else string_literal lit.value

unfoldable pub want_hash : Statement → Import → Import
want_hash st m =
    if equal (predicate st) sw_hash && (object_iri st).1
    then record m { wanted_hashes = (object_iri st).0 ∷ m.wanted_hashes }
    else m

unfoldable pub join_updates : Bytes → Bytes → Bytes
join_updates dropped inserted =
    dropped ++ (if is_empty dropped then codes "\n" else codes " ;\n") ++ inserted

-- `parse base s` is `base.Parse(s)`, with the error's text or the URL, and `show` is its `String`.
module _ (parse : Url → Bytes → Bytes ⊎ Url) (show : Url → Bytes) where
  abbrev pub parsed_text : Url → Bytes → Option Bytes
  parsed_text base s = elim (parse base s) [ inl e ↦ none | inr u ↦ some (show u) ]

  -- `none` where the source continues the loop
  unfoldable pub subject_term : Url → Bytes × NodeType → Option Bytes
  subject_term base (s, type_iri) = some (iri_rel_literal (parsed_text base) s)
  subject_term base (s, type_blank) = some (blank_literal s)
  subject_term base (s, _) = none

  unfoldable pub object_term : Url → Statement → NodeType → Option Bytes
  unfolding literal_term
  object_term base st type_iri = some (iri_rel_literal (parsed_text base) (object_iri st).0)
  object_term base st type_blank = some (blank_literal (object_blank st).0)
  object_term base st type_literal = some (literal_term (object_literal st))
  object_term base st type_none = none

  -- the statement that gives a graph its place
  unfoldable pub place_graph : Url → Statement → Import → Import
  place_graph base st m =
      let g = (subject st).0 in
      let rel = literal_value (object_literal st) in
      elim (parse base rel) [
        | inl e ↦ log (not_parsed g rel e) m
        | inr u ↦
            if not (is_sub_url base u) then log (outside_base g rel (show base)) m else record m {
              graphs_rel_uri = (g, u) ∷ m.graphs_rel_uri;
              drop = delete_graph (show u) m.drop;
            }
      ]

  -- a statement of a graph that stands at `u`
  unfoldable pub insert_statement : Url → Url → Statement → Import → Import
  insert_statement base u st m =
      let wanted = want_hash st m in
      elim (subject_term base (subject st)) [
        | none ↦ wanted
        | some s ↦ elim (object_term base st (object_type st)) [
          | none ↦ wanted
          | some o ↦ record wanted {
            ins =
                insert_data s (iri_rel_literal (parsed_text base) (predicate st)) o
                  (iri_literal (show u)) wanted.ins;
          }
        ]
      ]

  -- one round of the loop
  unfoldable pub add_statement : Url → Statement → Import → Import
  add_statement base st m =
      if not (graph st).1 && equal (predicate st) sw_relative_path
      then place_graph base st m
      else if not (graph st).1
      then log (not_inserted st) m
      else elim (get m.graphs_rel_uri (graph st).0) [
        | none ↦ log (not_inserted st) m
        | some u ↦ insert_statement base u st m
      ]

  unfoldable pub finish : Import → Update
  finish m = record {
    statements = join_updates (terminate m.drop) (terminate m.ins);
    wanted_hashes = m.wanted_hashes;
    logs = m.logs;
    error = none;
  }

  unfoldable pub add_items : Url → List Item → Import → Update
  add_items base [] m = finish m
  add_items base (failure e ∷ items) m = record {
    statements = [];
    wanted_hashes = m.wanted_hashes;
    logs = m.logs;
    error = some e;
  }
  add_items base (statement st ∷ items) m = add_items base items (add_statement base st m)

  unfoldable pub make_statements : Url → List Item → Update
  make_statements base items = add_items base items new_import
