-- ===== src/Sparql/Client.antt =====
-- sparql/client.go: the client of a store, over the HTTP requests that it makes.
pub mod Sent
mod Tests
use smart_web.Base.{
  ℕ, Bool, true, false, ◌&&◌, ◌||◌, not, Option, none, some, List, [], ◌∷◌, ◌++◌, ◌⊎◌, inl, inr,
  Bytes, codes, is_empty, ltb, leb, if◌then◌else◌,
}
use smart_web.Sparql.Literals.{Value, literal}

-- What comes back over HTTP: the status code, the status line and the body.
pub record HttpReply : Type 0 where
  pub status_code : ℕ
  pub status : Bytes
  pub body : Bytes

-- `resp.StatusCode >= 200 && resp.StatusCode < 300`
unfoldable pub is_success : HttpReply → Bool
is_success r = leb 200 r.status_code && ltb r.status_code 300

-- What `AddQuad` comes to: a value that has no term, an error of the request, a status, or success.
pub data Added : Type 0 where
  added no_term : Added
  not_sent not_accepted : Bytes → Added

unfoldable pub quad_update : Bytes → Bytes → Bytes → Bytes → Bytes
quad_update ctx subj pred obj =
    codes "INSERT DATA { GRAPH "
    ++ ctx
    ++ codes " { "
    ++ subj
    ++ codes " "
    ++ pred
    ++ codes " "
    ++ obj
    ++ codes " } }"

unfoldable pub after_post : Bytes ⊎ HttpReply → Added
after_post (inl err) = not_sent err
after_post (inr r) = if is_success r then added else not_accepted r.status

-- A client, by its two endpoints.
pub record Client : Type 0 where
  pub query_url : Bytes
  pub update_url : Bytes

-- A request as it is sent: the form is its body, before `Values.Encode`.
pub record HttpRequest : Type 0 where
  pub method : Bytes
  pub url : Bytes
  pub headers : List (Bytes × Bytes)
  pub form : List (Bytes × List Bytes)

abbrev pub form_type : Bytes × Bytes
form_type = (codes "Content-Type", codes "application/x-www-form-urlencoded")

-- what `PostForm` and `Update` send for an update
unfoldable pub update_request : Client → Bytes → HttpRequest
update_request client query = record {
  method = codes "POST";
  url = client.update_url;
  headers = form_type ∷ [];
  form = (codes "update", query ∷ []) ∷ [];
}

unfoldable pub query_request : Client → Bytes → List Bytes → HttpRequest
query_request client query named_graph = record {
  method = codes "POST";
  url = client.query_url;
  headers = form_type ∷ (codes "Accept", codes "application/sparql-results+json") ∷ [];
  form = (codes "query", query ∷ []) ∷ (codes "named-graph-uri", named_graph) ∷ [];
}

-- `send` makes a request, encodes its form and sends it, or returns the text of an error.
module _ (client : Client) (send : HttpRequest → Bytes ⊎ HttpReply) where
  unfoldable pub send_quad : Option Bytes → Option Bytes → Option Bytes → Option Bytes → Added
  send_quad none subj pred obj = no_term
  send_quad (some c) none pred obj = no_term
  send_quad (some c) (some s) none obj = no_term
  send_quad (some c) (some s) (some p) none = no_term
  send_quad (some c) (some s) (some p) (some o) =
      after_post (send (update_request client (quad_update c s p o)))

  -- `AddQuad`
  unfoldable pub add_quad : Value → Value → Value → Value → Added
  add_quad context subject predicate object =
      send_quad (literal context) (literal subject) (literal predicate) (literal object)

  unfoldable pub error_of : HttpReply → Bytes
  error_of r = if is_empty r.body then r.status else r.body

  unfoldable pub after_update : Bytes ⊎ HttpReply → Option Bytes
  after_update (inl err) = some err
  after_update (inr r) = if is_success r then none else some (error_of r)

  -- `Update`: none for success, or the text of an error
  unfoldable pub update : Bytes → Option Bytes
  update query = after_update (send (update_request client query))

  -- `decode` reads the JSON of the answer, or returns the text of an error.
  module _ {A : Type 0} (decode : Bytes → Bytes ⊎ A) where
    unfoldable pub after_query : Bytes ⊎ HttpReply → Bytes ⊎ A
    after_query (inl err) = inl err
    after_query (inr r) = if is_success r then decode r.body else inl r.status

    -- `SelectNamedGraph`
    unfoldable pub select_named_graph : Bytes → List Bytes → Bytes ⊎ A
    select_named_graph query named_graphs =
        after_query (send (query_request client query named_graphs))

    -- `Select`
    unfoldable pub select : Bytes → Bytes ⊎ A
    select query = select_named_graph query []
