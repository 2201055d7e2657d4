-- ===== src/Server/Serve/Tests.antt =====
-- Requests for files kept in memory.
use smart_web.Base.{
  Option, false, none, some, List, [], ◌≡◌, ◌⊎◌, inl, inr, refl, ap, Bytes, codes, equal,
  has_prefix, arith, if◌then◌else◌, join_texts,
}
use smart_web.FilePath.{
  ends_in_slash, clean, dir, up_to_slash, join_paths, split, split_at, base, last_of, walk, push,
  pop, join, dir_path,
}
use smart_web.Server.Entry.{
  Entry, create_fs_entry, parent_in, directory, parameters, child_name, child_at, child, parent,
  parent_at, parent_cut, entry_file, without_4, last_4, last_index,
}
use smart_web.Server.Paths.{get_entry, host_name, meta_entry}
use smart_web.Server.Files.{data_path, exists, read, read_all, children, dir_exists, has_entries}
use smart_web.Server.Nonces.{State, purge}
use smart_web.Server.Domains.{
  add_domains, chain, chain_on, get_auth_perms, perms_of, perm_or, ends_at, auths_of, says_allow,
  trim_space, trim_left, trim_front, prefix_length, space_runes, reversed, reverse_onto, auth_list,
  auth_list_on,
}
use smart_web.Server.Authenticator.{
  check_params, check_rest, AuthMethod, check_request, get_auth_params, certificates_of,
  check_certificates, check_methods, check_anonymous, check_credentials, note_perms, note_error,
}
use smart_web.Server.Authenticator.Digests.{Grounds}
use smart_web.Server.Challenges.Granted.{IsUnguarded}
use smart_web.Server.Challenges.{
  answer_checked, authenticate, challenges_on, answer_for, answer_with, no_domains,
}
use smart_web.Server.Writing.{
  and_then, temporary, unless_missing, create_entry, commit, remove_data, delete_all,
}
use smart_web.Server.Writing.Memory.{
  Memory, memory, memory-laws, set_file, content_of, missing_if, appended,
}
use smart_web.Server.Handlers.{
  FileRequest, only_status, handle_get, answer, copy, store_type, put_steps, handle_put,
  handle_delete, serve_file,
}
use smart_web.Server.Handlers.Stored.{handle_get-handle_put, handle_get-handle_delete}
use smart_web.Server.Serve.{
  HttpRequest, DataReply, Served, handle, serve_with, auth_request, serve_http,
}
use smart_web.Server.Serve.Guarded.{IsChange, serve_http-Grounds}

abbrev request : Bytes → FileRequest
request method = record {
  method = method;
  path = codes "/x";
  content_type = [];
  body = codes "hello";
  body_error = none;
}

-- everyone may put the page
abbrev allowed : Memory
allowed p =
    if equal p (codes "/d/host.dir/x.metadir/auth.dir/anonymous.dir/PUT.perm.data")
    then some (codes "allow")
    else none

abbrev page : Entry
page = record { path_dot = codes "/d/host.dir/x."; name = codes "x"; level = 2 }

abbrev plain_type : Bytes → Bytes
plain_type s = codes "text/plain"

-- the answer to a new page, as `Exists` is the wrong way round
put_status : (handle_put memory page (request (codes "PUT")) allowed).0.status ≡ 204
unfolding handle_put put_steps store_type copy answer only_status and_then create_entry commit
    delete_all remove_data unless_missing temporary exists data_path set_file content_of missing_if
    appended create_fs_entry parameters child child_at child_name directory clean walk push pop join
    dir_path join_paths split split_at base last_of join_texts ends_in_slash equal has_prefix
put_status = refl

delete_status : (handle_delete memory page allowed).0.status ≡ 204
unfolding handle_delete answer only_status and_then delete_all remove_data unless_missing set_file
    missing_if equal has_prefix
delete_status = refl

handle_get-handle_put_example :
    ((handle_get plain_type
        (memory.disk (handle_put memory page (request (codes "PUT")) allowed).1)
        page
        (request (codes "GET"))).status
      ≡ 200)
    × ((handle_get plain_type
          (memory.disk (handle_put memory page (request (codes "PUT")) allowed).1)
          page
          (request (codes "GET"))).body
        ≡ codes "hello")
handle_get-handle_put_example =
    handle_get-handle_put memory memory-laws plain_type page (request (codes "PUT"))
      (request (codes "GET")) allowed (λ e. absurd (omega (arith, put_status, e))) refl

handle_get-handle_delete_example :
    ((handle_delete memory page allowed).0.status ≡ 204)
    × ((handle_get plain_type
          (memory.disk (handle_delete memory page allowed).1)
          page
          (request (codes "GET"))).status
        ≡ 404)
handle_get-handle_delete_example =
    handle_get-handle_delete memory memory-laws plain_type page (request (codes "GET")) allowed
      (λ e. absurd (omega (arith, delete_status, e)))

abbrev put_page : HttpRequest
put_page = record {
  host = [];
  metas = [];
  queries = [];
  has_rdf = false;
  certificates = none;
  authorization = [];
  media_type = inr [];
  form_queries = inr [];
  file = request (codes "PUT");
}

abbrev no_data : Bytes → DataReply
no_data q = record { status = 500; outcome = inl [] }

abbrev same : Bytes → Bytes
same s = s

abbrev nothing : Bytes → Option (List AuthMethod)
nothing header = some []

abbrev fresh : State
fresh = record { nonces = []; random = λ i. inl []; used = 0 }

abbrev data_dir : Entry
data_dir = create_fs_entry (codes "/d")

abbrev served : Served Memory
served = serve_http memory no_data [] plain_type same same nothing data_dir put_page 7 fresh allowed

page_put : served.files (codes "/d/host.dir/x.data") ≡ some (codes "hello")
unfolding serve_http serve_with auth_request handle serve_file get_entry host_name meta_entry
    authenticate answer_checked check_params check_rest challenges_on answer_for answer_with
    no_domains check_request check_certificates check_methods check_anonymous check_credentials
    certificates_of get_auth_params note_perms note_error auth_list auth_list_on add_domains
    children get_auth_perms perms_of perm_or ends_at auths_of says_allow trim_space trim_left
    trim_front prefix_length space_runes reversed reverse_onto chain chain_on parent parent_in
    parent_at parent_cut entry_file without_4 last_4 last_index dir_exists has_entries exists read
    read_all data_path purge handle_put put_steps store_type copy answer only_status and_then
    create_entry commit delete_all remove_data unless_missing temporary set_file content_of
    missing_if appended create_fs_entry parameters child child_at child_name directory clean dir
    up_to_slash walk push pop join dir_path join_paths split split_at base last_of join_texts
    ends_in_slash equal has_prefix
page_put = refl

page_new : allowed (codes "/d/host.dir/x.data") ≡ none
unfolding equal
page_new = refl

serve_http-Grounds_example :
    IsChange put_page
    × (Grounds same same nothing
          (memory.disk allowed)
          (get_entry data_dir [] (codes "/x") [])
          (auth_request put_page)
          7
          (purge 7 [])
        ⊎ IsUnguarded
            (check_request same same nothing
              (memory.disk allowed)
              (get_entry data_dir [] (codes "/x") [])
              (auth_request put_page)
              7
              (purge 7 []))
            (auth_list (memory.disk allowed) (get_entry data_dir [] (codes "/x") [])).0)
serve_http-Grounds_example =
    serve_http-Grounds memory no_data [] plain_type same same nothing data_dir put_page 7 fresh
      allowed (λ e. absurd (cc (ap (λ f. f (codes "/d/host.dir/x.data")) e, page_put, page_new)))
