-- ===== src/Server2/Tests.antt =====
-- A bundle of two statements, and the theorems at concrete inputs.
use smart_web.Base.{
  join_texts, false, map, arith, ◌++◌, inl, true, none, some, [], ◌∷◌, ◌≡◌, ◌↔◌, ◌⊎◌, inr, refl,
  Bytes, codes, equal, has_prefix, List, replace,
}
use smart_web.Nquads.Node.{iri_node, literal_node, xsd_string}
use smart_web.Nquads.Statement.{
  Statement, graph, predicate, subject, object_type, object_iri, object_literal,
}
use smart_web.Sparql.Literals.{string_literal, iri_literal, iri_rel_literal, replace_all}
use smart_web.Sparql.Query.{show_s, make_query, fill, replace_match, replacement, argument, show_v}
use smart_web.Server2.Url.{Url, is_sub_url, with_slash}
use smart_web.Server2.Url.Below.{IsSameOrigin, IsBelow, is_sub_url_iff, is_sub_url_trans}
use smart_web.FilePath.{dir_path, dir, clean, walk, push, pop, join, up_to_slash}
use smart_web.FilePath.Names.{IsName}
use smart_web.Server2.Parents.{
  chain, url_parents, with_paths, parent_paths, parent_path, trim_slash, add_path, without_fragment,
  without_query,
}
use smart_web.Server2.Parents.Ancestors.{ancestors, url_parents-ancestors}
use smart_web.Server2.Auth.{Binding, sw_allow, sw_default, is_allowed, count_votes, vote, merge}
use smart_web.Server2.Auth.Votes.{IsUnanimous, actions, defaults, first_page_votes, is_allowed_iff}
use smart_web.Server2.Access.{
  answer, granted, check_auth, access, sw_anonymous, auth_query, concat_texts,
}
use smart_web.Server2.Access.Granted.{IsFirst, access_iff}
use smart_web.Server2.Bundle.Inserter.{
  new_inserter, terminate, delete_graph, insert_data, open_kind, open_graph, open_subject,
  open_predicate, close_statement, close_graph, close_subject, close_predicate, close_object,
}
use smart_web.Server2.Bundle.Statements.{
  Item, statement, sw_relative_path, make_statements, add_items, add_statement, place_graph, finish,
  get, insert_statement, join_updates, subject_term, object_term, want_hash, literal_value,
}
use smart_web.Server2.Bundle.Confined.{IsSafe, make_statements-IsSafe}
use smart_web.Server2.Bundle.Tree.{Quad, Tree, render_block, tree_quads}
use smart_web.Server2.Bundle.Grouped.{IsEncoded, insert_quads, terminate-insert_data}

abbrev at_path : Bytes → Url
at_path p = record {
  scheme = codes "http";
  opaque = [];
  user = none;
  host = codes "h";
  path = p;
  raw_query = [];
  fragment = [];
}

-- a parser that takes the text for a path, and a print that shows it
abbrev parse_path : Url → Bytes → Bytes ⊎ Url
parse_path base s = inr (record base { path = s })

abbrev show_path : Url → Bytes
show_path u = u.path

abbrev placing : Statement
placing = record {
  subject = some (iri_node (codes "g"));
  predicate = some (iri_node sw_relative_path);
  object = some (literal_node (record { value = codes "/a/b"; lang = []; type = xsd_string }));
  graph = none;
}

abbrev a_triple : Statement
a_triple = record {
  subject = some (iri_node (codes "s"));
  predicate = some (iri_node (codes "p"));
  object = some (iri_node (codes "o"));
  graph = some (iri_node (codes "g"));
}

abbrev two_items : List Item
two_items = statement placing ∷ statement a_triple ∷ []

is_sub_url_iff_example : (is_sub_url (at_path (codes "/a")) (at_path (codes "/a/b")) ≡ true) ↔ (
    IsSameOrigin (at_path (codes "/a")) (at_path (codes "/a/b"))
    × ((codes "/a" ≡ codes "/a/b") ⊎ (codes "/a" ≡ []) ⊎ IsBelow (codes "/a") (codes "/a/b")))
is_sub_url_iff_example = is_sub_url_iff (at_path (codes "/a")) (at_path (codes "/a/b"))

sub_one : is_sub_url (at_path (codes "/a")) (at_path (codes "/a/b")) ≡ true
unfolding is_sub_url equal has_prefix with_slash
sub_one = refl

sub_two : is_sub_url (at_path (codes "/a/b")) (at_path (codes "/a/b/c")) ≡ true
unfolding is_sub_url equal has_prefix with_slash
sub_two = refl

is_sub_url_trans_example : is_sub_url (at_path (codes "/a")) (at_path (codes "/a/b/c")) ≡ true
is_sub_url_trans_example =
    is_sub_url_trans (at_path (codes "/a")) (at_path (codes "/a/b")) (at_path (codes "/a/b/c"))
      sub_one sub_two

two_items-none :
    (make_statements parse_path show_path (at_path (codes "/a")) two_items).error ≡ none
unfolding make_statements add_items add_statement finish
two_items-none = refl

-- The update for the two statements.
two_items_update :
    (make_statements parse_path show_path (at_path (codes "/a")) two_items).statements
    ≡ codes "DROP SILENT GRAPH </a/b> ;\nINSERT DATA {\n GRAPH </a/b> {\n  <s> <p> <o> } }"
unfolding make_statements add_items add_statement finish join_updates place_graph insert_statement
    get subject_term object_term want_hash literal_value delete_graph insert_data open_kind
    open_graph open_subject open_predicate close_statement close_graph close_subject close_predicate
    close_object terminate make_query fill replace_match replacement argument show_v iri_literal
    iri_rel_literal replace_all replace is_sub_url with_slash equal has_prefix graph subject
    predicate object_type object_iri object_literal
two_items_update = refl

make_statements-IsSafe_example :
    IsSafe parse_path show_path
      (at_path (codes "/a"))
      (make_statements parse_path show_path (at_path (codes "/a")) two_items)
make_statements-IsSafe_example =
    make_statements-IsSafe parse_path show_path (at_path (codes "/a")) two_items two_items-none

abbrev quad_of : Bytes → Bytes → Quad
quad_of p o = record {
  in_graph = codes "<g>";
  of_subject = codes "<s>";
  of_predicate = p;
  an_object = o;
}

terminate-insert_data_example :
    (t : Tree) × (terminate (
        insert_quads
          (quad_of (codes "<p>") (codes "<o>") ∷ quad_of (codes "<q>") (codes "<o>") ∷ [])
          new_inserter)
      ≡ render_block t)
    × (tree_quads t
        ≡ quad_of (codes "<p>") (codes "<o>") ∷ quad_of (codes "<q>") (codes "<o>") ∷ [])
unfolding IsEncoded
terminate-insert_data_example =
    terminate-insert_data (quad_of (codes "<p>") (codes "<o>"))
      (quad_of (codes "<q>") (codes "<o>") ∷ []) (λ e. cc, λ e. cc, λ e. cc)
      ((λ e. cc, λ e. cc, λ e. cc), tt)

abbrev binding : Bytes → Bytes → Bytes → Binding
binding p a m = record { page = p; auth = a; act = m }

-- The first page denies by default and allows the method; another page is not heard.
abbrev three_bindings : List Binding
three_bindings =
    binding (codes "/a/") (codes "deny") sw_default
    ∷ binding (codes "/a/") sw_allow (codes "GET")
    ∷ binding (codes "/") (codes "deny") (codes "GET")
    ∷ []

three_bindings-is_allowed : is_allowed three_bindings ≡ true
unfolding is_allowed count_votes vote merge equal
three_bindings-is_allowed = refl

is_allowed_iff_example : (is_allowed three_bindings ≡ true) ↔ (
    IsUnanimous (actions (first_page_votes three_bindings))
    ⊎ ((actions (first_page_votes three_bindings) ≡ [])
        × IsUnanimous (defaults (first_page_votes three_bindings))))
is_allowed_iff_example =
    is_allowed_iff three_bindings (λ e. cc, (λ e. cc, (λ e. cc, tt)))
      (λ e. cc, (λ e. cc, (λ e. cc, tt)))

-- The path is cleaned on the way up.
dotted_parents :
    url_parents (at_path (codes "/a/../b//c"))
    ≡ chain (at_path (codes "/a/../b//c") ∷ at_path (codes "/b/") ∷ at_path (codes "/") ∷ [])
unfolding url_parents with_paths parent_paths parent_path dir clean walk push pop join dir_path
    up_to_slash trim_slash add_path without_fragment without_query equal has_prefix
dotted_parents = refl

url_parents-ancestors_example :
    url_parents (at_path (codes "/a/b"))
    ≡ chain (
        (at_path (codes "/a/b")
          ∷ (without_fragment (at_path (codes "/a/b")) ++ without_query (at_path (codes "/a/b"))))
        ++ map
            (λ p. record (at_path (codes "/a/b")) { path = p; raw_query = []; fragment = [] })
            (ancestors (codes "a" ∷ [])))
unfolding IsName dir_path
url_parents-ancestors_example =
    url_parents-ancestors (at_path (codes "/a/b")) (codes "a" ∷ []) (codes "b")
      ((λ e. cc, omega arith, λ e. cc, λ e. cc), tt) (λ e. cc, omega arith, λ e. cc, λ e. cc)
      (inl refl)

-- The query for a URL with two parents.
query_of_two_parents :
    auth_query (codes "/a/" ∷ codes "/" ∷ []) (codes "GET") (codes "me")
    ≡ codes "\n"
      ++ codes "\t\tPREFIX sw: <tag:mildred.fr,2015-05:SmartWeb#>\n"
      ++ codes "\n"
      ++ codes "\t\tSELECT ?page ?acl ?user ?auth ?act\n"
      ++ codes "\t\tFROM </a/>\n"
      ++ codes "\t\tFROM </>\n"
      ++ codes "\t\tWHERE {\n"
      ++ codes "\t\t\tVALUES ?page {  </a/> </> }\n"
      ++ codes "\t\t\t?acl\n"
      ++ codes "\t\t\t\ta        sw:ACL ;\n"
      ++ codes "\t\t\t\tsw:about ?page ;\n"
      ++ codes "\t\t\t\tsw:user+ ?user ;\n"
      ++ codes "\t\t\t\t?auth    ?act .\n"
      ++ codes "\t\t\tVALUES ?user { <me> sw:Anonymous }\n"
      ++ codes "\t\t\tVALUES ?auth { sw:allow sw:deny }\n"
      ++ codes "\t\t\tVALUES ?act { \"GET\" sw:Default }\n"
      ++ codes "\t\t}\n"
      ++ codes "\t"
unfolding auth_query join_texts concat_texts make_query fill replace_match replacement argument
    show_v show_s string_literal iri_literal replace_all replace
query_of_two_parents = refl

access_iff_example :
    (access true
        (some (codes "x" ∷ []))
        (check_auth (λ q. inr three_bindings) show_path (at_path (codes "/a/b")) (codes "GET"))
      ≡ granted)
    ↔ ((true ≡ false)
        ⊎ ((some (codes "x" ∷ []) ≡ none)
            × (check_auth
                  (λ q. inr three_bindings)
                  show_path
                  (at_path (codes "/a/b"))
                  (codes "GET")
                  sw_anonymous
                ≡ answer true))
        ⊎ ((us : List Bytes) × (some (codes "x" ∷ []) ≡ some us)
            × IsFirst
                (check_auth
                  (λ q. inr three_bindings)
                  show_path
                  (at_path (codes "/a/b"))
                  (codes "GET"))
                us))
access_iff_example =
    access_iff true (some (codes "x" ∷ []))
      (check_auth (λ q. inr three_bindings) show_path (at_path (codes "/a/b")) (codes "GET"))
