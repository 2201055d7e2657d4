-- ===== src/Sparql/Client/Tests.antt =====
-- Answers of a store.
use smart_web.Base.{[], ◌⊎◌, inr, ◌≡◌, ◌↔◌, Bytes, codes}
use smart_web.Sparql.Literals.{url, str, literal}
use smart_web.Sparql.Client.{
  HttpReply, HttpRequest, Client, query_request, added, add_quad, select_named_graph,
}
use smart_web.Sparql.Client.Sent.{IsStored, IsSuccess, add_quad_iff, select_named_graph_iff}

abbrev store : Client
store = record { query_url = codes "http://s/sparql"; update_url = codes "http://s/update" }

abbrev accepts : HttpRequest → Bytes ⊎ HttpReply
accepts q = inr (record { status_code = 204; status = codes "204 No Content"; body = [] })

add_quad_iff_example :
    (add_quad store accepts (url (codes "g")) (url (codes "s")) (url (codes "p")) (str (codes "o"))
      ≡ added)
    ↔ IsStored store accepts
        (literal (url (codes "g")))
        (literal (url (codes "s")))
        (literal (url (codes "p")))
        (literal (str (codes "o")))
add_quad_iff_example =
    add_quad_iff store accepts (url (codes "g")) (url (codes "s")) (url (codes "p"))
      (str (codes "o"))

abbrev answers : HttpRequest → Bytes ⊎ HttpReply
answers q = inr (record { status_code = 200; status = codes "200 OK"; body = codes "{}" })

abbrev as_text : Bytes → Bytes ⊎ Bytes
as_text body = inr body

select_named_graph_iff_example :
    (select_named_graph store answers as_text (codes "ASK {}") [] ≡ inr (codes "{}")) ↔ (
      (r : HttpReply) × (answers (query_request store (codes "ASK {}") []) ≡ inr r)
      × IsSuccess r
      × (as_text r.body ≡ inr (codes "{}")))
select_named_graph_iff_example =
    select_named_graph_iff store answers as_text (codes "ASK {}") [] (codes "{}")
