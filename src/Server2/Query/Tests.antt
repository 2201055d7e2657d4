-- ===== src/Server2/Query/Tests.antt =====
-- A client's query, and the theorems at concrete inputs.
use smart_web.Base.{
  [], ◌∷◌, inl, inr, ◌≡◌, refl, List, Bytes, codes, equal, has_prefix, ◌⊎◌, if◌then◌else◌,
}
use smart_web.FilePath.{ends_in_slash}
use smart_web.Server2.Query.{
  Values, StoreRequest, is_among, check_graphs, graph_list_check, refused, list_sub_graphs,
  choose_graphs, request_for, prepare, no_list, first_value,
}
use smart_web.Server2.Response.{handle_error}
use smart_web.Server2.Query.Allowed.{
  RowsUnder, IsConfined, Checked, graph_list_check-Checked, prepare-IsConfined,
}

abbrev folder : Bytes
folder = codes "http://h/a/"

-- the store knows two graphs below the folder
abbrev two_graphs : Bytes → Bytes ⊎ List Bytes
two_graphs query = inr (codes "http://h/a/b" ∷ codes "http://h/a/c" ∷ [])

-- the client asks for one of them as its default graph
abbrev one_default : Values
one_default name = if equal name (codes "default-graph-uri") then codes "http://h/a/b" ∷ [] else []

abbrev the_request : StoreRequest
the_request = record {
  query = [];
  named_graphs = codes "http://h/a/b" ∷ codes "http://h/a/c" ∷ [];
  default_graphs = codes "http://h/a/b" ∷ [];
  accept = codes "*/*";
}

prepare_request : prepare two_graphs folder one_default (codes "*/*") ≡ inr the_request
unfolding prepare list_sub_graphs choose_graphs graph_list_check check_graphs is_among equal
    request_for ends_in_slash first_value
prepare_request = refl

-- another graph is refused by name
prepare_refused :
    prepare two_graphs (codes "http://h/a") one_default []
    ≡ inl (handle_error 400 (codes "default-graph-uri not allowed for graph <http://h/a/b>"))
unfolding prepare list_sub_graphs choose_graphs graph_list_check check_graphs is_among equal
    request_for ends_in_slash refused no_list
prepare_refused = refl

two_graphs-RowsUnder : RowsUnder two_graphs folder
unfolding has_prefix
two_graphs-RowsUnder rows e =
    let same : rows ≡ codes "http://h/a/b" ∷ codes "http://h/a/c" ∷ [] = cc in
    rw same (refl, (refl, tt))

prepare-IsConfined_example : IsConfined two_graphs folder two_graphs-RowsUnder the_request
prepare-IsConfined_example =
    prepare-IsConfined two_graphs folder two_graphs-RowsUnder one_default (codes "*/*") the_request
      prepare_request

graph_list_check-Checked_example :
    Checked
      (codes "a" ∷ [])
      (codes "a" ∷ codes "b" ∷ [])
      (graph_list_check (codes "a" ∷ []) (codes "a" ∷ codes "b" ∷ []))
graph_list_check-Checked_example =
    graph_list_check-Checked (codes "a" ∷ []) (codes "a" ∷ codes "b" ∷ [])
