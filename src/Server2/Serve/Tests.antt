-- ===== src/Server2/Serve/Tests.antt =====
-- A PUT by an anonymous user, and the theorem at it.
use smart_web.Base.{
  true, Option, none, some, [], ◌∷◌, inl, inr, ◌≡◌, ◌≢◌, refl, sym, ap, ◌∙◌, Bytes, codes, equal,
  has_prefix, take,
}
use smart_web.FilePath.{
  ends_in_slash, clean, dir, up_to_slash, walk, push, pop, join, dir_path, join_paths,
}
use smart_web.Server2.Parents.{
  trim_slash, parent_path, add_path, parent_paths, without_fragment, without_query, with_paths,
  url_parents,
}
use smart_web.Server.Writing.{and_then}
use smart_web.Server.Writing.Memory.{Memory, memory, set_file, missing_if, appended}
use smart_web.Server.Authenticator.{hex, hex_digit}
use smart_web.Server2.Auth.{Binding, sw_allow, sw_default, is_allowed, count_votes, vote, merge}
use smart_web.Server2.Access.{
  access, granted, check_auth, check_chain, answer_of, round, check_users,
}
use smart_web.Server2.Resources.{
  hash_uri, put_chain, after_update, fill_file, put_renamed, put_filled, handle_put,
}
use smart_web.Server2.Serve.{
  HttpRequest, Store, Library, users_of, check, put, dispatch, serve_access, serve_request,
  serve_http,
}
use smart_web.Server2.Serve.Guarded.{IsChange, serve_http-IsGuarded}

abbrev library : Library
library = record {
  sha1 = λ s. take 1 s;
  show = λ u. u.path;
  parse = λ u s. inl (codes "no");
  values = λ u k. [];
  parse_int = λ s. none;
  open_text = [];
  error_text = λ e. [];
  report = [];
}

abbrev allowing : Bytes → Binding
allowing act = record { page = codes "/x"; auth = sw_allow; act = act }

abbrev store : Store
store = record {
  rows = λ q. inr [];
  bindings = λ q. inr (allowing (codes "PUT") ∷ allowing sw_default ∷ []);
  graphs = λ q. inr [];
  update = λ q. none;
  send = λ q. inl [];
}

abbrev request : HttpRequest
request = record {
  method = codes "PUT";
  cur_url = record {
    scheme = codes "http";
    opaque = [];
    user = none;
    host = codes "a.org";
    path = codes "/x";
    raw_query = [];
    fragment = [];
  };
  raw_query = [];
  certificates = none;
  content_type = codes "text/plain";
  media_type = codes "text/plain";
  accept = [];
  body = codes "hello";
  body_error = none;
  form = inl [];
  opened = inl [];
  key_response = none;
}

abbrev no_files : Memory
no_files p = none

abbrev temp : Memory → Bytes
temp w = codes "/d/temp:1"

-- the file with the hash of the body
abbrev stored_in : Option Memory → Option Bytes
stored_in none = none
stored_in (some w) = w (codes "/d/sha1:68")

stored :
    stored_in (serve_http library store (codes "/d") memory temp true request no_files).files
    ≡ some (codes "hello")
unfolding serve_http serve_request access users_of check check_auth check_chain answer_of is_allowed
    count_votes vote merge round check_users serve_access dispatch put handle_put put_filled
    put_renamed put_chain after_update fill_file and_then hash_uri hex hex_digit url_parents
    with_paths without_query without_fragment parent_paths add_path parent_path trim_slash set_file
    missing_if appended dir up_to_slash clean walk push pop join dir_path ends_in_slash equal
    has_prefix join_paths
stored = refl

changed :
    (serve_http library store (codes "/d") memory temp true request no_files).files ≢ some no_files
changed e = let same = sym stored ∙ ap stored_in e in cc

serve_http-IsGuarded_example :
    (access true (users_of request.certificates) (check library store request) ≡ granted)
    × (IsChange request × (request.raw_query ≢ codes "keygen"))
serve_http-IsGuarded_example =
    serve_http-IsGuarded library store (codes "/d") memory temp true request no_files changed
