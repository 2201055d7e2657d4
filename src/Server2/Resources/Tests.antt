-- ===== src/Server2/Resources/Tests.antt =====
-- A resource kept in memory.
use smart_web.Base.{
  Option, none, List, [], ◌∷◌, take, ◌≡◌, ◌⊎◌, inr, refl, Bytes, codes, equal, has_prefix,
  if◌then◌else◌,
}
use smart_web.FilePath.{ends_in_slash, clean, dir, up_to_slash, walk, push, pop, join, dir_path}
use smart_web.Server2.Url.{Url}
use smart_web.Server2.Parents.{
  trim_slash, parent_path, add_path, parent_paths, without_fragment, without_query, with_paths,
  url_parents,
}
use smart_web.Server.Writing.{and_then}
use smart_web.Server.Writing.Memory.{Memory, memory, memory-laws, set_file, missing_if, appended}
use smart_web.Server.Authenticator.{hex, hex_digit}
use smart_web.Server2.Resources.{
  Row, hash_uri, handle_get, put_chain, after_update, fill_file, put_renamed, put_filled,
  handle_put,
}
use smart_web.Server2.Resources.Kept.{status_of, get_response-handle_put}

abbrev page_row : Row
page_row name = if equal name (codes "hash") then codes "sha1:68" else []

abbrev one_row : Bytes → Bytes ⊎ List Row
one_row q = inr (page_row ∷ [])

abbrev accepted : Bytes → Option Bytes
accepted q = none

abbrev initial : Bytes → Bytes
initial s = take 1 s

abbrev only_path : Url → Bytes
only_path u = u.path

abbrev page_url : Url
page_url = record {
  scheme = codes "http";
  opaque = [];
  user = none;
  host = codes "a.org";
  path = codes "/x/y";
  raw_query = [];
  fragment = [];
}

abbrev no_files : Memory
no_files p = none

created :
    status_of
      (handle_put one_row accepted initial
        (codes "/d")
        only_path
        memory
        page_url
        (codes "/d/temp:1")
        (codes "hello")
        none
        []
        no_files).0
    ≡ 201
unfolding handle_put put_filled put_renamed put_chain after_update fill_file and_then hash_uri hex
    hex_digit url_parents with_paths without_query without_fragment parent_paths add_path
    parent_path trim_slash set_file missing_if appended dir up_to_slash clean walk push pop join
    dir_path ends_in_slash equal has_prefix
created = refl

hash_of_hello :
    page_row (codes "hash") ≡ hash_uri one_row accepted initial (codes "/d") (codes "hello")
unfolding hash_uri hex hex_digit equal
hash_of_hello = refl

get_response-handle_put_example :
    ((handle_get one_row accepted initial
        (codes "/d")
        (memory.disk
          (handle_put one_row accepted initial
            (codes "/d")
            only_path
            memory
            page_url
            (codes "/d/temp:1")
            (codes "hello")
            none
            []
            no_files).1)
        (codes "/x/y")
        (codes "GET")).status
      ≡ 200)
    × ((handle_get one_row accepted initial
          (codes "/d")
          (memory.disk
            (handle_put one_row accepted initial
              (codes "/d")
              only_path
              memory
              page_url
              (codes "/d/temp:1")
              (codes "hello")
              none
              []
              no_files).1)
          (codes "/x/y")
          (codes "GET")).body
        ≡ codes "hello")
get_response-handle_put_example =
    get_response-handle_put one_row accepted initial (codes "/d") only_path memory memory-laws
      page_url (codes "/d/temp:1") (codes "hello") [] (codes "/x/y") none no_files page_row []
      created refl hash_of_hello
