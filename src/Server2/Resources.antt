-- ===== src/Server2/Resources.antt =====
-- server2/server.go: the handlers for single resources.
pub mod Kept
mod Tests
use smart_web.Base.{
  ℕ, zero, Bool, true, false, Option, none, some, List, [], ◌∷◌, ◌++◌, map, ◌⊎◌, inl, inr, Bytes,
  codes, equal, is_empty, ◌==◌, if◌then◌else◌,
}
use smart_web.FilePath.{join_paths}
use smart_web.Sparql.Literals.{str, url}
use smart_web.Sparql.Query.{make_query}
use smart_web.Server2.Url.{Url}
use smart_web.Server2.Parents.{Chain, chain, chain_panic, chain_out_of_fuel, url_parents}
use smart_web.Server2.Response.{Response, handle_error}
use smart_web.Server.Files.{OsError, Disk}
use smart_web.Server.Writing.{Os, and_then}
use smart_web.Server.Authenticator.{hex}

-- The value of a variable in one of the store's bindings, empty for none.
abbrev pub Row : Type 0
Row = Bytes → Bytes

abbrev pub get_template : Bytes
get_template =
    codes "\n\t\tPREFIX sw: <tag:mildred.fr,2015-05:SmartWeb#>\n"
    ++ codes "\t\tSELECT ?hash ?type\n"
    ++ codes "\t\tWHERE {\n"
    ++ codes "\t\t\tGRAPH %1u {\n"
    ++ codes "\t\t\t\tOPTIONAL { %1u sw:contentType ?type }\n"
    ++ codes "\t\t\t\t%1u sw:hash ?hash\n"
    ++ codes "\t\t\t}\n"
    ++ codes "\t\t}\n"
    ++ codes "\t\tLIMIT 1\n\t"

abbrev pub put_template : Bytes
put_template =
    codes "\n\t\tPREFIX sw: <tag:mildred.fr,2015-05:SmartWeb#>\n"
    ++ codes "\t\t\n"
    ++ codes "\t\tCLEAR SILENT GRAPH %1u;\n"
    ++ codes "\t\tINSERT DATA {\n"
    ++ codes "\t\t\tGRAPH %1u {\n"
    ++ codes "\t\t\t\t%1u\n"
    ++ codes "\t\t\t\t\tsw:hash        %2u ;\n"
    ++ codes "\t\t\t\t\tsw:contentType %3s .\n"
    ++ codes "\t\t\t\t%4q\n"
    ++ codes "\t\t\t}\n"
    ++ codes "\t\t}\n\t"

abbrev pub hash_template : Bytes
hash_template =
    codes "\n\t\tPREFIX sw: <tag:mildred.fr,2015-05:SmartWeb#>\n"
    ++ codes "\t\tSELECT ?hash\n"
    ++ codes "\t\tWHERE { %1u sw:hash ?hash . }\n\t"

abbrev pub drop_template : Bytes
drop_template =
    codes "\n\t\tPREFIX sw: <tag:mildred.fr,2015-05:SmartWeb#>\n"
    ++ codes "\t\tDROP SILENT GRAPH %1u\n\t"

-- the triples for the chain of parents, those of the last pair first
unfoldable pub child_triples : List Bytes → Bytes
child_triples [] = []
child_triples (u ∷ []) = []
child_triples (u ∷ v ∷ us) =
    child_triples (v ∷ us) ++ make_query (codes " %2u sw:child %1u .") (url u ∷ url v ∷ [])

unfoldable pub put_update : Bytes → Bytes → Bytes → List Bytes → Bytes
put_update u uri content_type parents =
    make_query put_template (url u ∷ str uri ∷ str content_type ∷ str (child_triples parents) ∷ [])

-- the type is sent only if the store has one
unfoldable pub with_content_type : Bytes → List (Bytes × Bytes) → List (Bytes × Bytes)
with_content_type t headers = if is_empty t then headers else (codes "Content-Type", t) ∷ headers

-- the response that a failed step ends with
unfoldable pub failed : List (Bytes × Bytes) → Bytes → Response
failed headers text = let r = handle_error 500 text in record r { headers = headers ++ r.headers }

-- The store's answer to a query and to an update, where none is success; SHA-1; and the directory of
-- the files.
module _ (select : Bytes → Bytes ⊎ List Row) (update : Bytes → Option Bytes) (sha1 : Bytes → Bytes)
    (root : Bytes) where
  -- the name of the file with a content
  unfoldable pub hash_uri : Bytes → Bytes
  hash_uri content = codes "sha1:" ++ hex (sha1 content)

  -- What `handleGET` makes of the file of a row: it sends what it can read of a file that it has opened.
  unfoldable pub file_response : Bytes → Row → OsError ⊎ (Bytes × Option OsError) → Response
  file_response method row (inl err) = handle_error 404 err.text
  file_response method row (inr (content, err)) = record {
    status = 200;
    headers = with_content_type (row (codes "type")) ((codes "Etag", row (codes "hash")) ∷ []);
    body = if equal method (codes "HEAD") then [] else content;
  }

  unfoldable pub get_response : Disk → Bytes → Bytes ⊎ List Row → Response
  get_response disk method (inl err) = handle_error 500 err
  get_response disk method (inr []) = handle_error 404 []
  get_response disk method (inr (row ∷ rows)) =
      file_response method row (disk.content (join_paths root (row (codes "hash"))))

  -- `handleGET`, of the URL as text
  unfoldable pub handle_get : Disk → Bytes → Bytes → Response
  handle_get disk u method =
      get_response disk method (select (make_query get_template (url u ∷ [])))

  unfoldable pub after_drop : Option Bytes → Response
  after_drop none = record { status = 204; headers = []; body = [] }
  after_drop (some err) = handle_error 500 err

  unfoldable pub delete_response : Bytes → Bytes ⊎ List Row → Response
  delete_response u (inl err) = handle_error 500 err
  delete_response u (inr []) = handle_error 404 (codes "Not Found")
  delete_response u (inr (row ∷ rows)) = after_drop (update (make_query drop_template (url u ∷ [])))

  -- `handleDELETE` up to its response
  unfoldable pub handle_delete : Bytes → Response
  handle_delete u = delete_response u (select (make_query hash_template (url u ∷ [])))

  -- what `handlePUT` answers to the store's answer
  unfoldable pub after_update : List (Bytes × Bytes) → Option Bytes → Response
  after_update headers none = record { status = 201; headers = headers; body = [] }
  after_update headers (some err) = failed headers err

  -- `show` is `String` of a URL. A response that is none is a panic.
  module _ (show : Url → Bytes) where
    unfoldable pub put_chain : Url → Bytes → Bytes → Chain → Option Response
    put_chain u uri content_type (chain us) = some (
        after_update ((codes "Hash", uri) ∷ [])
          (update (put_update (show u) uri content_type (map show us))))
    put_chain u uri content_type chain_panic = none
    put_chain u uri content_type chain_out_of_fuel = none

    module _ {W : Type 0} (os : Os W) where
      -- the body in the file that has been made under the name `temp`, with the error of reading it
      unfoldable pub fill_file :
          Bytes → Bytes → Option OsError → Option OsError × W → Option OsError × W
      fill_file temp body body_error made =
          and_then made (λ v. and_then (os.write temp body v) (λ t. (body_error, t)))

      -- `temp` is removed by a goroutine, which runs at once
      unfoldable pub put_renamed :
          Url → Bytes → Bytes → Bytes → Option OsError × W → Option Response × W
      put_renamed u temp uri content_type (none, w) =
          (put_chain u uri content_type (url_parents u), w)
      put_renamed u temp uri content_type (some err, w) =
          (some (failed ((codes "Hash", uri) ∷ []) err.text), (os.remove temp w).1)

      unfoldable pub put_filled :
          Url → Bytes → Bytes → Bytes → Option OsError × W → Option Response × W
      put_filled u temp body content_type (some err, w) = (some (failed [] err.text), w)
      put_filled u temp body content_type (none, w) =
          put_renamed u temp (hash_uri body) content_type
            (os.rename temp (join_paths root (hash_uri body)) w)

      -- `handlePUT`, where `temp` is the name that `ioutil.TempFile` chooses
      unfoldable pub handle_put :
          Url → Bytes → Bytes → Option OsError → Bytes → W → Option Response × W
      handle_put u temp body body_error content_type w =
          put_filled u temp body content_type (fill_file temp body body_error (os.create temp w))
