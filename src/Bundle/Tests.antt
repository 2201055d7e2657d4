-- ===== src/Bundle/Tests.antt =====
-- Bundles of concrete files, and the theorems at them.
use smart_web.Base.{none, some, List, [], ◌∷◌, ◌++◌, map, ◌≡◌, refl, arith, Bytes, codes}
use smart_web.Utf8.{encode}
use smart_web.Nquads.Writer.{write_quad, write_quad_iri}
use smart_web.Nquads.Node.{encode_iri_or_blank, encode_iri, encode_any, encode_string}
use smart_web.Bundle.Writer.{
  Writer, and_then, zip_result, add_entry, new_writer, insert_file, close, sha1_name,
}
use smart_web.Bundle.Reader.{graph_statements, panicked, graph_channel, graph}
use smart_web.Bundle.Command.{
  Found, directory, file, no_names, named, read_dir, read_file, enter, add_child, add_written,
}
use smart_web.Bundle.Stored.{ZipEntry, zip_file, stored, read_dir-entries}
use smart_web.Bundle.Yields.{sent_all}
use smart_web.Bundle.Headers.{header_statements}
use smart_web.Bundle.RoundTrip.{Insertion, insert_all, files_statements, graph_statements-close}
use smart_web.Bundle.Memory.{archive, archive-laws, open_archive, add_last, add_behind}

-- in place of SHA-1
abbrev one_byte : Bytes → Bytes
one_byte s = 0x68 ∷ []

abbrev as_text : Bytes → Bytes
as_text s = codes "text/plain"

abbrev site : Found
site = directory (
    named (codes "a.css") (file (some (codes "p{}")))
      (named (codes "b") (directory (named (codes "c") (file (some [])) no_names)) no_names))

abbrev begun : Writer (List ZipEntry)
begun = record { zip = []; graphs = [] }

abbrev walked : Writer (List ZipEntry)
walked = (read_dir archive one_byte as_text as_text site [] none begun).1

walked_well : read_dir archive one_byte as_text as_text site [] none begun ≡ (none, walked)
unfolding read_dir and_then enter add_child add_written read_file insert_file add_entry zip_result
    sha1_name add_last add_behind write_quad_iri encode_iri_or_blank encode_iri write_quad
    encode_any encode_string
walked_well = refl

read_dir-entries_example : walked.zip ≡ map (stored one_byte) (codes "p{}" ∷ [] ∷ [])
read_dir-entries_example =
    read_dir-entries archive (λ z. z) open_archive archive-laws one_byte as_text as_text site []
      none begun walked walked_well

abbrev a_file : Insertion
a_file = record { uri = codes "http://a/x"; name = codes "x"; content = codes "hello" }

abbrev after_header : Writer (List ZipEntry)
after_header = (new_writer archive (encode (codes "http://a/")) []).1

abbrev after_file : Writer (List ZipEntry)
after_file =
    (insert_all archive (λ z. z) open_archive archive-laws one_byte (a_file ∷ []) after_header).1

abbrev finished : List ZipEntry
finished = (close archive after_file).1

header_made : new_writer archive (encode (codes "http://a/")) [] ≡ (none, after_header)
unfolding new_writer insert_file close and_then add_entry zip_result add_last add_behind sha1_name
header_made = refl

file_inserted :
    insert_all archive (λ z. z) open_archive archive-laws one_byte (a_file ∷ []) after_header
    ≡ (none, after_file)
unfolding new_writer insert_file close and_then add_entry zip_result add_last add_behind sha1_name
file_inserted = refl

file_closed : close archive after_file ≡ (none, finished)
unfolding new_writer insert_file close and_then add_entry zip_result add_last add_behind sha1_name
file_closed = refl

graph_statements-close_example :
    graph_statements (map zip_file finished)
    ≡ sent_all (header_statements (codes "http://a/") ++ files_statements one_byte (a_file ∷ []))
graph_statements-close_example =
    graph_statements-close archive (λ z. z) open_archive archive-laws one_byte (codes "http://a/")
      (a_file ∷ []) [] finished after_header after_file (map zip_file finished)
      (λ s. (omega arith, tt)) (omega arith) ((omega arith, ground arith), tt) refl header_made
      file_inserted file_closed refl

-- An archive without a graph: the goroutine that fills the channel panics.
empty_archive : graph_statements [] ≡ panicked
unfolding graph_statements graph_channel graph
empty_archive = refl
