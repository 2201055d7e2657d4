-- ===== src/Bundle/Writer.antt =====
-- bundle/writer.go: a method of the writer takes its state to the error and the state that it
-- leaves. archive/zip is an argument.
use smart_web.Base.{Bool, Option, none, some, [], ◌∷◌, ◌++◌, Bytes, codes, is_empty, if◌then◌else◌}
use smart_web.Nquads.Node.{any_string}
use smart_web.Nquads.Writer.{
  WriteError, Written, wrote, refused, write_comment, write_empty_line, write_triple,
  write_triple_iri, write_quad_iri,
}
use smart_web.Server.Authenticator.{hex}

-- zip.Writer over the states `Z` of an archive: `Create` opens an entry, `Write` adds to the entry
-- that was opened last, and `Close` ends the archive. Each is true if it returns no error.
pub record ZipWriter (Z : Type 0) : Type 0 where
  pub create : Bytes → Z → Bool × Z
  pub write : Bytes → Z → Bool × Z
  pub close : Z → Bool × Z

pub record Writer (Z : Type 0) : Type 0 where
  pub zip : Z
  pub graphs : Bytes

pub data Failure : Type 0 where
  zip_error file_error : Failure
  node_error : WriteError → Failure

-- a step that is taken unless the one before it has failed
unfoldable pub and_then :
    {A B : Type 0} → Option Failure × A → (A → Option Failure × B) → (A → B) → Option Failure × B
and_then (none, a) next stop = next a
and_then (some e, a) next stop = (some e, stop a)

abbrev pub mime_type : Bytes
mime_type = codes "application/smartweb-bundle+zip"

abbrev pub rdf_type : Bytes
rdf_type = codes "http://www.w3.org/1999/02/22-rdf-syntax-ns#type"

abbrev pub relocatable_graph : Bytes
relocatable_graph = codes "tag:mildred.fr,2015-05:SmartWeb#RelocatableGraph"

abbrev pub sw_base_uri : Bytes
sw_base_uri = codes "tag:mildred.fr,2015-05:SmartWeb#baseUri"

abbrev pub sw_relative_path : Bytes
sw_relative_path = codes "tag:mildred.fr,2015-05:SmartWeb#relativePath"

abbrev pub sw_hash : Bytes
sw_hash = codes "tag:mildred.fr,2015-05:SmartWeb#hash"

-- what a method of NQuadWriter adds to the buffer
unfoldable pub text_of : Written → Bytes
text_of (wrote s) = s
text_of (refused e) = []

unfoldable pub header_text : Bytes → Bytes
header_text base_uri =
    write_comment (codes " Relocatable SmartWeb Graph")
    ++ text_of (write_triple_iri (any_string []) rdf_type relocatable_graph)
    ++ (if is_empty base_uri
        then []
        else text_of (write_triple_iri (any_string []) sw_base_uri base_uri))

-- what `InsertFile` writes to the graphs
unfoldable pub file_text : Bytes → Bytes → Bytes → Bytes
file_text full_uri name sha1_name =
    write_empty_line
    ++ write_comment (b' ' ∷ name)
    ++ text_of (write_triple (any_string full_uri) sw_relative_path (any_string name))
    ++ text_of (write_quad_iri (any_string full_uri) sw_hash sha1_name full_uri)

-- The name of the entry of a content; `strings.ToLower` leaves the digits of `hex` as they are.
unfoldable pub sha1_name : (Bytes → Bytes) → Bytes → Bytes
sha1_name sha1 content = codes "sha1:" ++ hex (sha1 content)

module _ {Z : Type 0} (zip : ZipWriter Z) where
  unfoldable pub zip_result : Bytes → Bool × Z → Option Failure × Writer Z
  zip_result graphs (fine, z) =
      (if fine then none else some zip_error, record { zip = z; graphs = graphs })

  -- `Create` and a `Write` to the new entry
  unfoldable pub add_entry : Bytes → Bytes → Writer Z → Option Failure × Writer Z
  add_entry name content w =
      and_then (zip_result w.graphs (zip.create name w.zip))
        (λ v. zip_result v.graphs (zip.write content v.zip)) (λ v. v)

  unfoldable pub new_writer : Bytes → Z → Option Failure × Writer Z
  new_writer base_uri z =
      and_then (add_entry (codes "mimetype") mime_type (record { zip = z; graphs = [] }))
        (λ w. (none, record w { graphs = header_text base_uri })) (λ w. w)

  -- The error of `Close` of the zip.Writer is dropped.
  unfoldable pub close : Writer Z → Option Failure × Z
  close w =
      and_then (add_entry (codes "graphs.nq") w.graphs w) (λ v. (none, (zip.close v.zip).1))
        (λ v. v.zip)

  module _ (sha1 : Bytes → Bytes) where
    -- `InsertFile` of a file that has this content, or that cannot be sought or read
    unfoldable pub insert_file : Bytes → Bytes → Option Bytes → Writer Z → Option Failure × Writer Z
    insert_file full_uri name none w = (some file_error, w)
    insert_file full_uri name (some content) w =
        and_then (add_entry (sha1_name sha1 content) content w)
          (λ v. (
            none,
            record v { graphs = v.graphs ++ file_text full_uri name (sha1_name sha1 content) },
          ))
          (λ v. v)
