-- ===== src/Server2/Serve.antt =====
-- server2/server.go: `ServeHTTP`, from the access rule to the handlers, and the end of
-- `handleDELETE`, which removes a file that no resource has any more.
pub mod Guarded
mod Tests
use smart_web.Base.{
  ℕ, zero, Bool, true, false, not, ◌&&◌, ◌||◌, Option, none, some, List, [], ◌∷◌, ◌++◌, map, ◌⊎◌,
  inl, inr, Bytes, codes, equal, is_empty, if◌then◌else◌, ℤ, pos,
}
use smart_web.FilePath.{join_paths}
use smart_web.Nquads.Stream.{Error}
use smart_web.Sparql.Literals.{str, url}
use smart_web.Sparql.Query.{make_query}
use smart_web.Bundle.Writer.{mime_type}
use smart_web.Bundle.Reader.{ZipFile}
use smart_web.Server.Files.{OsError}
use smart_web.Server.Writing.{Os}
use smart_web.Server.Authenticator.{hex, to_lower}
use smart_web.Server2.Url.{Url}
use smart_web.Server2.Response.{Response, handle_error}
use smart_web.Server2.Auth.{Binding}
use smart_web.Server2.Access.{
  Access, granted, forbidden, server_error, no_response, Answer, check_auth, access,
}
use smart_web.Server2.Query.{
  Values, StoreRequest, StoreReply, first_value, handle_sparql_query, handle_get_sparql_query,
  handle_post_sparql_query,
}
use smart_web.Server2.Resources.{
  Row, handle_get, handle_put, handle_delete, hash_template, drop_template,
}
use smart_web.Server2.Posting.{Outcome, BundleRequest, handle_post_bundle}
use smart_web.Server2.Keygen.{handle_keygen}

-- A request: its URL resolved against the host, the query of the URL that was sent, the SHA-256
-- fingerprints of the client's certificates if it came with TLS, the media type that
-- `ParseMediaType` finds in its type, its body with the error of reading it, what `ParseForm` makes
-- of it, what the zip reader makes of its body, and the response to it as a form for a key.
pub record HttpRequest : Type 0 where
  pub method : Bytes
  pub cur_url : Url
  pub raw_query : Bytes
  pub certificates : Option (List Bytes)
  pub content_type : Bytes
  pub media_type : Bytes
  pub accept : Bytes
  pub body : Bytes
  pub body_error : Option OsError
  pub form : Bytes ⊎ Values
  pub opened : Bytes ⊎ List ZipFile
  pub key_response : Option Response

-- The store, by what it answers to the queries of each handler and to an update.
pub record Store : Type 0 where
  pub rows : Bytes → Bytes ⊎ List Row
  pub bindings : Bytes → Bytes ⊎ List Binding
  pub graphs : Bytes → Bytes ⊎ List Bytes
  pub update : Bytes → Option Bytes
  pub send : StoreRequest → Bytes ⊎ StoreReply

-- What the handlers use of libraries: SHA-1, the methods `String`, `Parse` and `Query` of a URL,
-- `ParseInt`, the texts of errors and the text about the durations.
pub record Library : Type 0 where
  pub sha1 : Bytes → Bytes
  pub show : Url → Bytes
  pub parse : Url → Bytes → Bytes ⊎ Url
  pub values : Url → Values
  pub parse_int : Bytes → Option ℤ
  pub open_text : Bytes
  pub error_text : Error → Bytes
  pub report : Bytes

abbrev pub count_template : Bytes
count_template =
    codes "\n\t\t\tPREFIX sw: <tag:mildred.fr,2015-05:SmartWeb#>\n"
    ++ codes "\t\t\tSELECT (count(?subj) AS ?count)\n"
    ++ codes "\t\t\tWHERE { ?subj sw:hash %1u . }\n\t\t"

unfoldable pub user_id : Bytes → Bytes
user_id fingerprint = codes "x509-certificate-fingerprint:sha256:" ++ to_lower (hex fingerprint)

unfoldable pub users_of : Option (List Bytes) → Option (List Bytes)
users_of none = none
users_of (some fingerprints) = some (map user_id fingerprints)

abbrev pub cors : List (Bytes × Bytes)
cors =
    (codes "Access-Control-Allow-Origin", codes "*")
    ∷ (codes "Access-Control-Allow-Method", codes "*")
    ∷ []

abbrev pub hsts : List (Bytes × Bytes)
hsts = (codes "Strict-Transport-Security", codes "max-age=1") ∷ []

-- headers that are set before the handler sends its own
unfoldable pub with_headers : List (Bytes × Bytes) → Option Response → Option Response
with_headers headers none = none
with_headers headers (some r) = some (record r { headers = headers ++ r.headers })

unfoldable pub only_status : ℕ → Response
only_status status = record { status = status; headers = []; body = [] }

-- `err == nil && count == 0`
unfoldable pub is_zero : Option ℤ → Bool
is_zero (some (pos zero)) = true
is_zero _ = false

-- The response, or none if the handler panics, and the files, or none if a goroutine panics, which
-- ends the server.
pub record Served (W : Type 0) : Type 0 where
  pub response : Option Response
  pub files : Option W

module _ (lib : Library) (store : Store) where
  -- The user of a request may use the resource.
  unfoldable pub check : HttpRequest → Bytes → Answer
  check req user = check_auth store.bindings lib.show req.cur_url req.method user

  -- the values of a form
  unfoldable pub handle_post_form : HttpRequest → Response
  handle_post_form req = elim req.form [
    | inl e ↦ handle_error 400 e
    | inr values ↦
        if not (is_empty (first_value (values (codes "query"))))
        then handle_sparql_query store.graphs store.send (lib.show req.cur_url) values req.accept
        else handle_error 400 (codes "Unknown form data")
  ]

  unfoldable pub body_of : HttpRequest → Bytes ⊎ Bytes
  body_of req = elim req.body_error [ none ↦ inr req.body | some e ↦ inl e.text ]

  unfoldable pub get_or_query : HttpRequest → Response → Response
  get_or_query req plain =
      if not (is_empty (first_value (lib.values req.cur_url (codes "query"))))
      then handle_get_sparql_query store.graphs store.send lib.values lib.show req.cur_url
          req.accept
      else plain

  -- `root` is the directory of the files, and `temp` the name that `TempFile` chooses in a state.
  module _ (root : Bytes) {W : Type 0} (os : Os W) (temp : W → Bytes) where
    -- What the goroutine does with what the store answers about a hash; none if it panics, which an
    -- error of the store, that is only logged, leads to.
    unfoldable pub remove_unused : Bytes → Bytes ⊎ List Row → W → Option W
    remove_unused hash (inl e) w = none
    remove_unused hash (inr []) w = none
    remove_unused hash (inr (row ∷ rows)) w = some (
        if is_zero (lib.parse_int (row (codes "count")))
        then (os.remove (join_paths root hash) w).1
        else w)

    unfoldable pub after_drop : Bytes → Option Bytes → W → Option W
    after_drop hash none w =
        remove_unused hash (store.rows (make_query count_template (str hash ∷ []))) w
    after_drop hash (some err) w = some w

    -- the files behind `handleDELETE`, whose goroutine runs at once
    unfoldable pub delete_files : HttpRequest → Bytes ⊎ List Row → W → Option W
    delete_files req (inl err) w = some w
    delete_files req (inr []) w = some w
    delete_files req (inr (row ∷ rows)) w =
        after_drop (row (codes "hash"))
          (store.update (make_query drop_template (url (lib.show req.cur_url) ∷ []))) w

    unfoldable pub serve_bundle : Option (Outcome W) → Served W
    serve_bundle none = record { response = none; files = none }
    serve_bundle (some o) = record { response = some o.response; files = some o.files }

    unfoldable pub post_bundle : HttpRequest → W → Served W
    post_bundle req w = serve_bundle (
        handle_post_bundle lib.open_text lib.error_text lib.sha1 root os temp store.update
          lib.report lib.parse lib.show req.cur_url
          (record {
            body = req.body;
            body_error = req.body_error;
            content_type = req.content_type;
            opened = req.opened;
          })
          w)

    unfoldable pub put : HttpRequest → W → Served W
    put req w =
        let (r, v) =
          handle_put store.rows store.update lib.sha1 root lib.show os req.cur_url (temp w) req.body
            req.body_error req.content_type w in
        record { response = r; files = some v }

    -- a handler that leaves the files alone
    unfoldable pub reply : Response → W → Served W
    reply r w = record { response = some r; files = some w }

    -- `handleDELETE` with its goroutine
    unfoldable pub delete : HttpRequest → W → Served W
    delete req w = record {
      response = some (handle_delete store.rows store.update lib.sha1 root (lib.show req.cur_url));
      files =
          delete_files req (store.rows (make_query hash_template (url (lib.show req.cur_url) ∷ [])))
            w;
    }

    unfoldable pub post : HttpRequest → W → Served W
    post req w =
        if equal req.media_type mime_type
        then post_bundle req w
        else if equal req.media_type (codes "application/sparql-query")
        then reply
            (handle_post_sparql_query store.graphs store.send lib.values lib.show req.cur_url
              (body_of req) req.accept)
            w
        else if equal req.media_type (codes "application/x-www-form-urlencoded")
        then reply (handle_post_form req) w
        else reply (only_status 400) w

    -- behind the access rule
    unfoldable pub dispatch : HttpRequest → W → Served W
    dispatch req w =
        if equal req.method (codes "GET") || equal req.method (codes "HEAD")
        then reply
            (get_or_query req (
              handle_get store.rows store.update lib.sha1 root (os.disk w) (lib.show req.cur_url)
                req.method))
            w
        else if equal req.method (codes "PUT")
        then put req w
        else if equal req.method (codes "POST")
        then post req w
        else if equal req.method (codes "DELETE")
        then delete req w
        else reply (only_status 405) w

    -- what the access rule has come to
    unfoldable pub serve_access : HttpRequest → Access → W → Served W
    serve_access req granted w = dispatch req w
    serve_access req forbidden w =
        let r = handle_error 403 (codes "Unauthorized") in
        reply (record r { headers = hsts ++ r.headers }) w
    serve_access req (server_error e) w = reply (handle_error 500 e) w
    serve_access req no_response w = record { response = none; files = some w }

    unfoldable pub serve_request : Bool → HttpRequest → W → Served W
    serve_request use_acl req w =
        let served = serve_access req (access use_acl (users_of req.certificates) (check req)) w in
        if equal req.raw_query (codes "keygen")
        then record { response = handle_keygen req.method req.key_response; files = some w }
        else served

    -- `ServeHTTP`, but for the record of the referrer in the store
    unfoldable pub serve_http : Bool → HttpRequest → W → Served W
    serve_http use_acl req w =
        let served = serve_request use_acl req w in
        record served { response = with_headers cors served.response }
