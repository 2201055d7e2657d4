-- ===== src/Server2/Query.antt =====
-- server2/sparql.go: SPARQL queries of clients, over the graphs at or below a URL.
pub mod Allowed
mod Tests
use smart_web.Base.{
  ℕ, Bool, true, false, ◌&&◌, ◌||◌, List, [], ◌∷◌, ◌++◌, ◌⊎◌, inl, inr, Bytes, codes, equal,
  is_empty, ltb, leb, ℤ, pos, format_d, if◌then◌else◌,
}
use smart_web.Sparql.Literals.{str}
use smart_web.Sparql.Query.{make_query}
use smart_web.FilePath.{ends_in_slash}
use smart_web.Server2.Url.{Url}
use smart_web.Server2.Response.{Response, handle_error}

-- `url.Values`: the values of each key, in their order
abbrev pub Values : Type 0
Values = Bytes → List Bytes

-- `Get`
unfoldable pub first_value : List Bytes → Bytes
first_value [] = []
first_value (v ∷ vs) = v

-- `Add`
unfoldable pub add_value : Bytes → Bytes → Values → Values
add_value key value vars name = if equal name key then vars name ++ value ∷ [] else vars name

-- what is posted to the store's query endpoint
pub record StoreRequest : Type 0 where
  pub query : Bytes
  pub named_graphs : List Bytes
  pub default_graphs : List Bytes
  pub accept : Bytes

-- what the store answers
pub record StoreReply : Type 0 where
  pub status_code : ℕ
  pub content_type : Bytes
  pub content : Bytes

-- the inner loop of `graphListCheck`
unfoldable pub is_among : Bytes → List Bytes → Bool
is_among g [] = false
is_among g (ag ∷ ags) = equal g ag || is_among g ags

-- the outer loop, over the rest of the list `all`
unfoldable pub check_graphs : List Bytes → List Bytes → List Bytes → List Bytes × Bytes
check_graphs allowed all [] = (all, [])
check_graphs allowed all (g ∷ gs) =
    let rest = check_graphs allowed all gs in if is_among g allowed then rest else ([], g)

unfoldable pub graph_list_check : List Bytes → List Bytes → List Bytes × Bytes
graph_list_check allowed [] = (allowed, [])
graph_list_check allowed (g ∷ gs) = check_graphs allowed (g ∷ gs) (g ∷ gs)

abbrev pub sub_graphs_template : Bytes
sub_graphs_template =
    codes "\n"
    ++ codes "\t\t\tSELECT DISTINCT ?g\n"
    ++ codes "\t\t\tWHERE {\n"
    ++ codes "  \t\t\t\tGRAPH ?g {?s ?p ?o}\n"
    ++ codes "\t\t\t\tFILTER ( strstarts(str(?g), %1s) )\n"
    ++ codes "\t\t\t}\n"
    ++ codes "\t\t"

unfoldable pub sub_graphs_query : Bytes → Bytes
sub_graphs_query u = make_query sub_graphs_template (str u ∷ [])

unfoldable pub no_list : Bool → Bytes
no_list is_default = if is_default then codes "default-graph-uri" else codes "named-graph-uri"

unfoldable pub refused : Bool → Bytes → Response
refused is_default g =
    handle_error 400 (no_list is_default ++ codes " not allowed for graph <" ++ g ++ codes ">")

-- the request, from what `graphListCheck` has returned for the default and the named graphs
unfoldable pub request_for :
    List Bytes × Bytes → List Bytes × Bytes → Bytes → Bytes → Response ⊎ StoreRequest
request_for ([], g) named query accept = inl (refused true g)
request_for (d ∷ ds, _) ([], g) query accept = inl (refused false g)
request_for (d ∷ ds, _) (n ∷ ns, _) query accept =
    inr (record { query = query; named_graphs = n ∷ ns; default_graphs = d ∷ ds; accept = accept })

unfoldable pub choose_graphs : List Bytes → Values → Bytes → Response ⊎ StoreRequest
choose_graphs allowed vars accept =
    request_for (graph_list_check allowed (vars (codes "default-graph-uri")))
      (graph_list_check allowed (vars (codes "named-graph-uri")))
      (first_value (vars (codes "query"))) accept

-- `select` runs a query for the variable `g` and returns its values, or the text of an error.
module _ (select : Bytes → Bytes ⊎ List Bytes) where
  unfoldable pub list_sub_graphs : Bytes → Bytes ⊎ List Bytes
  list_sub_graphs u = if ends_in_slash u then select (sub_graphs_query u) else inr (u ∷ [])

  -- `handleSPARQLQuery` up to its request: the response that it ends with, or what it asks the store
  unfoldable pub prepare : Bytes → Values → Bytes → Response ⊎ StoreRequest
  prepare u vars accept = elim (list_sub_graphs u) [
    | inl e ↦ inl (handle_error 500 e)
    | inr allowed ↦ choose_graphs allowed vars accept
  ]

  -- the rest, from what the store answers
  unfoldable pub relay : Bytes ⊎ StoreReply → Response
  relay (inl e) = handle_error 500 e
  relay (inr reply) =
      if ltb reply.status_code 200 || (leb 300 reply.status_code && ltb reply.status_code 400)
      then handle_error 500 (codes "Received status " ++ format_d (pos reply.status_code))
      else record {
        status = reply.status_code;
        headers = (codes "Content-Type", reply.content_type) ∷ [];
        body = reply.content;
      }

  -- `send` makes the request to the query endpoint and returns its answer, or the text of an error.
  module _ (send : StoreRequest → Bytes ⊎ StoreReply) where
    unfoldable pub handle_sparql_query : Bytes → Values → Bytes → Response
    handle_sparql_query u vars accept = elim (prepare u vars accept) [
      | inl r ↦ r
      | inr request ↦ relay (send request)
    ]

    -- `values` is the method `Query` of a URL, and `show` is `String`.
    module _ (values : Url → Values) (show : Url → Bytes) where
      unfoldable pub handle_get_sparql_query : Url → Bytes → Response
      handle_get_sparql_query u accept =
          handle_sparql_query (show (record u { raw_query = [] })) (values u) accept

      -- the request's body, or the error of reading it
      unfoldable pub handle_post_sparql_query : Url → Bytes ⊎ Bytes → Bytes → Response
      handle_post_sparql_query u (inl e) accept = handle_error 500 e
      handle_post_sparql_query u (inr text) accept =
          handle_sparql_query (show (record u { raw_query = [] }))
            (add_value (codes "query") text (values u)) accept
