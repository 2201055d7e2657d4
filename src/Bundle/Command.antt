-- ===== src/Bundle/Command.antt =====
-- cmd/swbundle/main.go: a directory is written to a bundle, and the statements of a bundle are
-- printed.
use smart_web.Base.{
  ℕ, zero, suc, Option, none, some, List, [], ◌∷◌, ◌++◌, Bytes, codes, equal, is_empty, has_prefix,
  take, drop, if◌then◌else◌, ◌==◌,
}
use smart_web.FilePath.{join_paths, base}
use smart_web.Server.Authenticator.{to_lower}
use smart_web.Nquads.Statement.{Statement}
use smart_web.Nquads.Node.{any_string}
use smart_web.Nquads.Writer.{Written, wrote, refused, write_triple, write_quad, write_quad_iri}
use smart_web.Bundle.Writer.{
  ZipWriter, Writer, Failure, file_error, node_error, and_then, text_of, new_writer, insert_file,
  close, sw_relative_path,
}
use smart_web.Bundle.Reader.{
  ZipFile, Channel, closed, panicked, cannot_open, stopped, sent, graph_statements,
}

abbrev pub sw_child : Bytes
sw_child = codes "tag:mildred.fr,2015-05:SmartWeb#child"

abbrev pub sw_content_type : Bytes
sw_content_type = codes "tag:mildred.fr,2015-05:SmartWeb#contentType"

mutual
  -- What is found under a name: nothing that `Open` opens, a directory with the names that
  -- `Readdirnames` returns, or a file with its content, which is none if it cannot be read.
  pub data Found : Type 0 where
    not_opened : Found
    directory : Names → Found
    file : Option Bytes → Found

  pub data Names : Type 0 where
    no_names : Names
    named : Bytes → Found → Names → Names

unfoldable pub zeros : ℕ → Bytes
zeros zero = []
zeros (suc n) = 0 ∷ zeros n

-- the array `firstBytes`: zeros stand where the file has no byte
unfoldable pub first_bytes : Option Bytes → Bytes
first_bytes none = zeros 512
first_bytes (some content) = take 512 (content ++ zeros 512)

-- the text from its last dot on, or nothing
unfoldable pub from_dot : Bytes → Bytes
from_dot [] = []
from_dot (c ∷ s) =
    let rest = from_dot s in if is_empty rest then (if c == b'.' then c ∷ s else []) else rest

-- `filepath.Ext`
unfoldable pub extension : Bytes → Bytes
extension path = from_dot (base path)

-- `strings.Replace` of the first `plain`
unfoldable pub replace_plain : Bytes → Bytes → Bytes
replace_plain by [] = []
replace_plain by (c ∷ s) =
    let rest = replace_plain by s in
    if has_prefix (c ∷ s) (codes "plain") then by ++ drop 5 (c ∷ s) else c ∷ rest

-- the media type of a file, given http.DetectContentType and mime.ParseMediaType
unfoldable pub file_type : (Bytes → Bytes) → (Bytes → Bytes) → Bytes → Option Bytes → Bytes
file_type detect media_type path content =
    let t = detect (first_bytes content) in
    let ext = to_lower (extension path) in
    if equal (media_type t) (codes "text/plain")
    then (if equal ext (codes ".css")
        then replace_plain (codes "css") t
        else if equal ext (codes ".js")
        then replace_plain (codes "javascript") t
        else t)
    else t

-- the name that `readDir` gives to a directory
unfoldable pub directory_path : Bytes → Bytes
directory_path path = if is_empty path then path else path ++ b'/' ∷ []

module _ {Z : Type 0} where
  -- a method of NQuadWriter whose error is returned
  unfoldable pub add_written : Written → Writer Z → Option Failure × Writer Z
  add_written (wrote s) w = (none, record w { graphs = w.graphs ++ s })
  add_written (refused e) w = (some (node_error e), w)

  unfoldable pub add_child : Option Bytes → Bytes → Writer Z → Option Failure × Writer Z
  add_child none path w = (none, w)
  add_child (some parent) path w =
      add_written (write_quad_iri (any_string parent) sw_child path parent) w

  -- `readDir` of a directory up to its loop; the error of the first triple is dropped
  unfoldable pub enter : Bytes → Option Bytes → Writer Z → Option Failure × Writer Z
  enter path parent w = add_child parent path (record w {
    graphs =
        w.graphs ++ text_of (write_triple (any_string path) sw_relative_path (any_string path));
  })

module _ {Z : Type 0} (zip : ZipWriter Z) (sha1 detect media_type : Bytes → Bytes) where
  -- `readDir` of a file
  unfoldable pub read_file :
      Option Bytes → Bytes → Option Bytes → Writer Z → Option Failure × Writer Z
  read_file content path parent w =
      and_then (add_child parent path w)
        (λ v.
          and_then (insert_file zip sha1 path path content v)
            (λ u.
              add_written
                (write_quad (any_string path) sw_content_type
                  (any_string (file_type detect media_type path content)) path)
                u)
            (λ u. u))
        (λ v. v)

  unfoldable mutual
    unfolding and_then enter

    -- `readDir`: the path has been joined with the prefix to find what is there
    pub read_dir : Found → Bytes → Option Bytes → Writer Z → Option Failure × Writer Z
    read_dir not_opened path parent w = (some file_error, w)
    read_dir (directory names) path parent w =
        and_then (enter (directory_path path) parent w)
          (λ v. read_names names (directory_path path) v) (λ v. v)
    read_dir (file content) path parent w = read_file content path parent w

    pub read_names : Names → Bytes → Writer Z → Option Failure × Writer Z
    read_names no_names path w = (none, w)
    read_names (named name found names) path w =
        and_then (read_dir found (join_paths path name) (some path) w)
          (λ v. read_names names path v) (λ v. v)

  -- `writeBundle` behind `Create`, with the archive as the deferred `Close` leaves it, whose error
  -- is dropped
  unfoldable pub write_bundle : Found → Bytes → Z → Option Failure × Z
  write_bundle source base_uri z =
      and_then (new_writer zip base_uri z)
        (λ w. let (e, v) = read_dir source [] none w in (e, (close zip v).1)) (λ w. w.zip)

-- How `readBundle` ends, behind the statements that it prints.
pub data Ending : Type 0 where
  finished crashed failed : Ending

unfoldable pub print_channel : Channel → List Statement × Ending
print_channel closed = ([], finished)
print_channel panicked = ([], crashed)
print_channel cannot_open = ([], failed)
print_channel (stopped e) = ([], failed)
print_channel (sent st c) = let (sts, end) = print_channel c in (st ∷ sts, end)

-- `readBundle` of the entries of an archive, or of none if `OpenReader` fails
unfoldable pub read_bundle : Option (List ZipFile) → List Statement × Ending
read_bundle none = ([], failed)
read_bundle (some files) = print_channel (graph_statements files)
