-- ===== src/Server/Serve.antt =====
-- server/server.go: `ServeHTTP`.
pub mod Guarded
mod Tests
use smart_web.Base.{
  ℕ, Bool, true, false, not, ◌&&◌, ◌||◌, Option, none, some, List, [], ◌∷◌, ◌++◌, map, ◌⊎◌, inl,
  inr, Bytes, codes, equal, is_empty, if◌then◌else◌,
}
use smart_web.Sparql.Literals.{iri_literal}
use smart_web.Server2.Response.{Response}
use smart_web.Server.Entry.{Entry}
use smart_web.Server.Paths.{get_entry}
use smart_web.Server.Files.{OsError, Disk}
use smart_web.Server.Nonces.{State}
use smart_web.Server.Authenticator.{AuthMethod, Request}
use smart_web.Server.Challenges.{authenticate}
use smart_web.Server.Writing.{Os}
use smart_web.Server.Handlers.{FileRequest, only_status, serve_file}

-- What `ServeHTTP` reads of a request: the host, the values of `meta` and `query` in the URL's query and
-- whether it has `rdf`, the client's certificates, the Authorization headers, what `ParseMediaType`
-- makes of the content type, what the form has for `query`, and what the handlers for files read.
pub record HttpRequest : Type 0 where
  pub host : Bytes
  pub metas : List Bytes
  pub queries : List Bytes
  pub has_rdf : Bool
  pub certificates : Option (List Bytes)
  pub authorization : List Bytes
  pub media_type : Bytes ⊎ Bytes
  pub form_queries : Bytes ⊎ List Bytes
  pub file : FileRequest

-- what the data set answers to a query: the result and its type, or the text of an error, and a status
pub record DataReply : Type 0 where
  pub status : ℕ
  pub outcome : Bytes ⊎ (Bytes × Bytes)

-- What a request for RDF comes to: the graph of the URL, a query, or a response at once.
pub data RdfAction : Type 0 where
  ask_graph : RdfAction
  ask_query : Bytes → RdfAction
  respond : Response → RdfAction

unfoldable pub text_response : ℕ → List (Bytes × Bytes) → Bytes → Response
text_response status headers text = record { status = status; headers = headers; body = text }

-- `has_query && len(query) == 1`: the query itself, or what happens without one
unfoldable pub single_query : RdfAction → List Bytes → RdfAction
single_query other [] = other
single_query other (q ∷ []) = ask_query q
single_query other (q ∷ r ∷ qs) = other

-- The response that is sent where no handler writes one.
unfoldable pub empty_response : Response
empty_response = only_status 200

unfoldable pub form_action : Bytes ⊎ List Bytes → RdfAction
form_action (inl err) = respond (text_response 400 [] err)
form_action (inr queries) = single_query (respond empty_response) queries

unfoldable pub body_action : Bytes → Option OsError → RdfAction
body_action body none = ask_query body
body_action body (some err) = respond (text_response 500 [] err.text)

unfoldable pub post_action : HttpRequest → Bytes ⊎ Bytes → RdfAction
post_action req (inl err) =
    respond (text_response 400 ((codes "Content-Type", codes "text/plain; charset=utf-8") ∷ []) err)
post_action req (inr content_type) =
    if equal content_type (codes "application/x-www-form-urlencoded")
    then form_action req.form_queries
    else if equal content_type (codes "application/sparql-query")
    then body_action req.file.body req.file.body_error
    else respond (only_status 415)

unfoldable pub rdf_action : HttpRequest → RdfAction
rdf_action req =
    if equal req.file.method (codes "GET")
    then single_query ask_graph req.queries
    else if equal req.file.method (codes "POST")
    then post_action req req.media_type
    else respond (only_status 405)

-- the query of `serveRDFGraph`
unfoldable pub graph_query : Bytes → Bytes
graph_query url =
    codes "CONSTRUCT { ?s ?p ?o } WHERE { GRAPH " ++ iri_literal url ++ codes " { ?s ?p ?o } . }"

-- the response that `serveRDFGraph` and `serveRDFQuery` make of the data set's answer
unfoldable pub data_response : ℕ → Bytes ⊎ (Bytes × Bytes) → Response
data_response status (inl err) =
    text_response status ((codes "Content-Type", codes "text/plain") ∷ []) err
data_response status (inr (text, content_type)) =
    text_response status
      ((codes "Content-Type", content_type) ∷ (codes "Vary", codes "Accept") ∷ []) text

-- `ask` is `QueryGraph` with the request's base URL and accepted types, and `url` is the URL of the
-- request as text.
unfoldable pub serve_rdf : (Bytes → DataReply) → Bytes → RdfAction → Response
serve_rdf ask url ask_graph =
    let reply = ask (graph_query url) in data_response reply.status reply.outcome
serve_rdf ask url (ask_query q) = let reply = ask q in data_response reply.status reply.outcome
serve_rdf ask url (respond r) = r

-- the headers that `Authenticate` has added come first
unfoldable pub with_challenges : List Bytes → Response → Response
with_challenges texts r = record r {
  headers = map (λ t. (codes "WWW-Authenticate", t)) texts ++ r.headers;
}

-- The response, or none for a panic; the files and the authenticator as they are left.
pub record Served (W : Type 0) : Type 0 where
  pub reply : Option Response
  pub files : W
  pub state : State

module _ {W : Type 0} (os : Os W) (ask : Bytes → DataReply) (url : Bytes)
    (detect : Bytes → Bytes) where
  -- `ServeHTTP` once `Authenticate` has let the request through
  unfoldable pub handle : Entry → HttpRequest → W → Response × W
  handle entry req w =
      if req.has_rdf
      then (serve_rdf ask url (rdf_action req), w)
      else serve_file os detect entry req.file w

  unfoldable pub serve_with :
      Entry → HttpRequest → W → Option (Bool × List Bytes) × State → Served W
  serve_with entry req w (none, s) = record { reply = none; files = w; state = s }
  serve_with entry req w (some (false, texts), s) = record {
    reply = some (with_challenges texts (only_status 401));
    files = w;
    state = s;
  }
  serve_with entry req w (some (true, texts), s) =
      let (r, v) = handle entry req w in
      record { reply = some (with_challenges texts r); files = v; state = s }

unfoldable pub auth_request : HttpRequest → Request
auth_request req = record {
  method = req.file.method;
  certificates = req.certificates;
  authorization = req.authorization;
}

module _ {W : Type 0} (os : Os W) (ask : Bytes → DataReply) (url : Bytes) (detect : Bytes → Bytes)
    (md5 sha256 : Bytes → Bytes) (parse : Bytes → Option (List AuthMethod)) where
  -- `ServeHTTP`
  unfoldable pub serve_http : Entry → HttpRequest → ℕ → State → W → Served W
  serve_http root req now s w =
      let entry = get_entry root req.host req.file.path req.metas in
      serve_with os ask url detect entry req w
        (authenticate md5 sha256 parse (os.disk w) entry (auth_request req) now s)
