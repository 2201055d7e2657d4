-- ===== src/Server2/Access.antt =====
-- server2/auth.go and server2/server.go: `checkAuth` with its query, and the test that `ServeHTTP`
-- makes before it handles a request.
pub mod Granted
use smart_web.Base.{
  join_texts, Bool, true, false, List, [], ◌∷◌, ◌++◌, ◌⊎◌, inl, inr, Option, none, some, Bytes,
  codes, map, if◌then◌else◌,
}
use smart_web.Sparql.Literals.{str}
use smart_web.Sparql.Query.{make_query}
use smart_web.Server2.Url.{Url}
use smart_web.Server2.Parents.{Chain, chain, chain_panic, chain_out_of_fuel, url_parents}
use smart_web.Server2.Auth.{Binding, is_allowed}

abbrev pub sw_anonymous : Bytes
sw_anonymous = codes "tag:mildred.fr,2015-05:SmartWeb#Anonymous"

abbrev pub query_template : Bytes
query_template =
    codes "\n"
    ++ codes "\t\tPREFIX sw: <tag:mildred.fr,2015-05:SmartWeb#>\n"
    ++ codes "\n"
    ++ codes "\t\tSELECT ?page ?acl ?user ?auth ?act\n"
    ++ codes "\t\t%1q\n"
    ++ codes "\t\tWHERE {\n"
    ++ codes "\t\t\tVALUES ?page { %2q }\n"
    ++ codes "\t\t\t?acl\n"
    ++ codes "\t\t\t\ta        sw:ACL ;\n"
    ++ codes "\t\t\t\tsw:about ?page ;\n"
    ++ codes "\t\t\t\tsw:user+ ?user ;\n"
    ++ codes "\t\t\t\t?auth    ?act .\n"
    ++ codes "\t\t\tVALUES ?user { %4u sw:Anonymous }\n"
    ++ codes "\t\t\tVALUES ?auth { sw:allow sw:deny }\n"
    ++ codes "\t\t\tVALUES ?act { %3s sw:Default }\n"
    ++ codes "\t\t}\n"
    ++ codes "\t"

unfoldable pub concat_texts : List Bytes → Bytes
concat_texts [] = []
concat_texts (t ∷ ts) = t ++ concat_texts ts

-- the query, from the texts of the URL's parents
unfoldable pub auth_query : List Bytes → Bytes → Bytes → Bytes
auth_query parents method user = make_query query_template (
    str
      (join_texts (codes "\n\t\t") (map (λ u. make_query (codes "FROM %1u") (str u ∷ [])) parents))
    ∷ str (concat_texts (map (λ u. make_query (codes " %1u") (str u ∷ [])) parents))
    ∷ str method
    ∷ str user
    ∷ [])

-- the two results, the error by its text, or no answer, where `urlParents` panics or does not end
pub data Answer : Type 0 where
  answer : Bool → Answer
  failed : Bytes → Answer
  no_answer : Answer

-- what a request meets: its handler, or a response of status 403 or 500, or none of these
pub data Access : Type 0 where
  granted : Access
  forbidden : Access
  server_error : Bytes → Access
  no_response : Access

-- `select` is the store's answer to a query, and `show` is `URL.String`.
module _ (select : Bytes → Bytes ⊎ List Binding) (show : Url → Bytes) where
  unfoldable pub answer_of : Bytes ⊎ List Binding → Answer
  answer_of (inl e) = failed e
  answer_of (inr bindings) = answer (is_allowed bindings)

  unfoldable pub check_chain : Chain → Bytes → Bytes → Answer
  check_chain (chain us) method user = answer_of (select (auth_query (map show us) method user))
  check_chain chain_panic method user = no_answer
  check_chain chain_out_of_fuel method user = no_answer

  unfoldable pub check_auth : Url → Bytes → Bytes → Answer
  check_auth u method user = check_chain (url_parents u) method user

-- One round of the loop over the client's certificates, from the answer for this one and what the
-- rest comes to.
unfoldable pub round : Answer → Access → Access
round (answer true) rest = granted
round (answer false) rest = rest
round (failed e) rest = server_error e
round no_answer rest = no_response

-- `check user` is `checkAuth(server.dataSet, curUrl, req.Method, user)`.
unfoldable pub check_users : (Bytes → Answer) → List Bytes → Access
check_users check [] = forbidden
check_users check (user ∷ users) = round (check user) (check_users check users)

-- The users are those of the client's certificates; `none` stands for a request without TLS.
unfoldable pub access : Bool → Option (List Bytes) → (Bytes → Answer) → Access
access use_acl users check =
    let anonymous = check_users check (sw_anonymous ∷ []) in
    if use_acl then elim users [ none ↦ anonymous | some us ↦ check_users check us ] else granted
