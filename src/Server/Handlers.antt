-- ===== src/Server/Handlers.antt =====
-- server/server.go: the handlers for files, and `ServeHTTP` as far as it serves these.
pub mod Stored
use smart_web.Base.{
  ℕ, zero, suc, ◌-◌, Bool, true, false, not, ◌&&◌, ◌||◌, Option, none, some, List, [], ◌∷◌, ◌++◌,
  ◌⊎◌, inl, inr, Bytes, codes, equal, has_prefix, is_empty, take, drop, length, leb, if◌then◌else◌,
}
use smart_web.Server2.Response.{Response}
use smart_web.Server.Entry.{Entry, parameters, child}
use smart_web.Server.Files.{OsError, Disk, exists, read, children, data_path}
use smart_web.Server.Writing.{
  Os, and_then, temporary, create_entry, commit, write_entry, delete_all,
}

-- `handleError`, which sends 404 whatever status it is given
unfoldable pub handle_error : ℕ → Bytes → Response
handle_error status text = record {
  status = 404;
  headers = (codes "Content-Type", codes "text/plain, charset=utf-8") ∷ [];
  body = text;
}

-- a response with no body
unfoldable pub only_status : ℕ → Response
only_status status = record { status = status; headers = []; body = [] }

-- The headers that `handleGET` sets from the entries of the metadata; one that cannot be read is left
-- out.
unfoldable pub headers_of : Disk → List Entry → List (Bytes × Bytes)
headers_of disk [] = []
headers_of disk (header ∷ entries) = elim (read disk header) [
  | inl err ↦ headers_of disk entries
  | inr text ↦ (header.name, text) ∷ headers_of disk entries
]

unfoldable pub stored_headers : Disk → List Entry × Option OsError → List (Bytes × Bytes)
stored_headers disk (entries, none) = headers_of disk entries
stored_headers disk (entries, some err) = []

unfoldable pub has_header : Bytes → List (Bytes × Bytes) → Bool
has_header name [] = false
has_header name ((n, value) ∷ headers) = equal n name || has_header name headers

-- The buffer of 512 bytes that is read into, which stays zero behind a shorter file.
unfoldable pub zeros : ℕ → Bytes
zeros zero = []
zeros (suc n) = 0 ∷ zeros n

unfoldable pub first_512 : Bytes → Bytes
first_512 data_read = take 512 data_read ++ zeros (512 - length data_read)

-- `strings.HasSuffix(s, ".css")`
unfoldable pub is_css : Bytes → Bool
is_css s = leb 4 (length s) && equal (drop (length s - 4) s) (codes ".css")

-- the content type that is made up for a file: text is CSS where the path says so
unfoldable pub type_for : Bytes → Bytes → Bytes
type_for path detected =
    if has_prefix detected (codes "text/plain") && is_css path
    then codes "text/css" ++ drop 10 detected
    else detected

-- What the handlers read of a request: its method, the path of its URL, the Content-Type header, and
-- the body with the error that ends it, none for its end.
pub record FileRequest : Type 0 where
  pub method : Bytes
  pub path : Bytes
  pub content_type : Bytes
  pub body : Bytes
  pub body_error : Option OsError

-- `detect` is `http.DetectContentType`.
module _ (detect : Bytes → Bytes) where
  unfoldable pub with_type : Bytes → Bytes → List (Bytes × Bytes) → List (Bytes × Bytes)
  with_type path content headers =
      if has_header (codes "Content-Type") headers
      then headers
      else headers ++ (codes "Content-Type", type_for path (detect (first_512 content))) ∷ []

  -- `handleGET`, which sends what it can read of a file that it has opened
  unfoldable pub handle_get : Disk → Entry → FileRequest → Response
  handle_get disk entry req = elim (disk.content (data_path entry)) [
    | inl err ↦ handle_error 404 err.text
    | inr (content, err) ↦ record {
      status = 200;
      headers =
          with_type req.path content
            (stored_headers disk (children disk (child (parameters entry) (codes "headers"))));
      body = if equal req.method (codes "HEAD") then [] else content;
    }
  ]

-- the response to a step that may have failed
unfoldable pub answer : {W : Type 0} → Response → Option OsError × W → Response × W
answer good (none, w) = (good, w)
answer good (some err, w) = (handle_error 500 err.text, w)

module _ {W : Type 0} (os : Os W) where
  -- `io.Copy` of the body
  unfoldable pub copy : FileRequest → Bytes → W → Option OsError × W
  copy req p w = and_then (os.write p req.body w) (λ v. (req.body_error, v))

  unfoldable pub store_type : FileRequest → Entry → W → Option OsError × W
  store_type req headers w =
      if is_empty req.content_type
      then (none, w)
      else write_entry os (child headers (codes "Content-Type")) req.content_type w

  -- `handlePUT` between its first error and its last
  unfoldable pub put_steps : Entry → FileRequest → W → Option OsError × W
  put_steps entry req w =
      let headers = child (parameters entry) (codes "headers/") in
      and_then (delete_all os headers w) (λ v. and_then (store_type req headers v) (λ u.
        and_then (create_entry os entry u)
          (λ t. and_then (copy req (temporary entry) t) (λ s. commit os (temporary entry) s))))

  -- `handlePUT`
  unfoldable pub handle_put : Entry → FileRequest → W → Response × W
  handle_put entry req w =
      answer (only_status (if exists (os.disk w) entry then 204 else 201)) (put_steps entry req w)

  -- `handleDELETE`
  unfoldable pub handle_delete : Entry → W → Response × W
  handle_delete entry w = answer (only_status 204) (delete_all os entry w)

  -- the end of `ServeHTTP`, by the method
  unfoldable pub serve_file : (Bytes → Bytes) → Entry → FileRequest → W → Response × W
  serve_file detect entry req w =
      if equal req.method (codes "GET") || equal req.method (codes "HEAD")
      then (handle_get detect (os.disk w) entry req, w)
      else if equal req.method (codes "PUT")
      then handle_put entry req w
      else if equal req.method (codes "DELETE")
      then handle_delete entry w
      else (only_status 405, w)
