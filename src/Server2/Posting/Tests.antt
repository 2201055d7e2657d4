-- ===== src/Server2/Posting/Tests.antt =====
-- The import of a bundle with one file, and the theorem at it.
use smart_web.Base.{
  Option, none, some, List, [], ◌∷◌, ◌++◌, ◌⊎◌, inr, ◌≡◌, ◌≢◌, refl, sym, ap, ◌∙◌, Bytes, codes,
  equal, equal_ne, has_prefix, replace,
}
use smart_web.FilePath.{join_paths, clean, join, walk, push, pop, dir_path}
use smart_web.Nquads.Stream.{read_byte, peek, Error, new_reader, eof}
use smart_web.Bundle.Writer.{mime_type, sha1_name}
use smart_web.Bundle.Reader.{
  ZipFile, graph_statements, graph_channel, opened_graph, statements, statements_from,
}
use smart_web.Bundle.Reader
use smart_web.Nquads.Statement
use smart_web.Server2.Posting
use smart_web.Nquads.Statement.{subject, predicate, object_type, object_iri, object_literal}
use smart_web.Nquads.Reader.{
  read_statement, statement_body, statement_rest, read_subject, read_object, read_iri, read_blank,
  read_literal, literal_suffix, read_delimited, delimited, read_spaces,
}
use smart_web.Utf8.{encode, encode_rune}
use smart_web.Server.Authenticator.{hex, hex_digit}
use smart_web.Server.Writing.{and_then}
use smart_web.Server2.Query.{is_among}
use smart_web.Sparql.Literals.{iri_literal, iri_rel_literal, replace_all}
use smart_web.Sparql.Query.{make_query, fill, replace_match, replacement, argument, show_v}
use smart_web.Server2.Bundle.Inserter.{
  terminate, delete_graph, insert_data, open_kind, open_graph, open_subject, open_predicate,
  close_statement, close_graph, close_subject, close_predicate, close_object,
}
use smart_web.Server2.Bundle.Statements.{
  make_statements, add_items, add_statement, place_graph, finish, get, insert_statement,
  join_updates, subject_term, object_term, want_hash, literal_value,
}
use smart_web.Server.Writing.Memory.{
  Memory, memory, memory-laws, set_file, content_of, missing_if, appended,
}
use smart_web.Server2.Url.{Url, is_sub_url, with_slash}
use smart_web.Server2.Posting.{
  Outcome, BundleRequest, handle_post_bundle, items, get_bundle_sha1, hash_of, or_remove, move_in,
  error_of, store_content, store_hashed, store_entry, unless_failed, store_all, updated,
  after_files, post_files, post_items, post_opened, post_copied,
}
use smart_web.Server2.Posting.Stored.{KeepLaws}
use smart_web.Server2.Posting.Imported.{Imported, handle_post_bundle-Imported}

abbrev base : Url
base = record {
  scheme = codes "http";
  opaque = [];
  user = none;
  host = codes "h";
  path = codes "/a";
  raw_query = [];
  fragment = [];
}

abbrev parse_path : Url → Bytes → Bytes ⊎ Url
parse_path u s = inr (record u { path = s })

abbrev show_path : Url → Bytes
show_path u = u.path

-- in place of SHA-1
abbrev one_byte : Bytes → Bytes
one_byte s = 0x68 ∷ []

abbrev error_text : Error → Bytes
error_text e = codes "unreadable"

abbrev temp : Memory → Bytes
temp w = codes "/d/temp:1"

set_file-other : (p q : Bytes) (x : Option Bytes) (w : Memory) → q ≢ p → set_file p x w q ≡ w q
unfolding set_file
set_file-other p q x w h = rw (equal_ne p q (λ e. h (sym e))) refl

place_of_all : (s : Bytes) → join_paths (codes "/d") (sha1_name one_byte s) ≡ codes "/d/sha1:68"
unfolding join_paths clean join walk push pop dir_path sha1_name equal hex hex_digit has_prefix
place_of_all s = refl

place-apart : (s : Bytes) → join_paths (codes "/d") (sha1_name one_byte s) ≢ codes "/d/temp:1"
place-apart s e = let same : codes "/d/sha1:68" ≡ codes "/d/temp:1" = sym (place_of_all s) ∙ e in cc

memory-KeepLaws : KeepLaws memory temp (codes "/d") one_byte
memory-KeepLaws = record {
  apart = λ w s. place-apart s;
  create_keeps = λ n u w v h q.
      ap content_of (
        ap (λ x. x.1 (join_paths (codes "/d") n)) (sym h)
        ∙ set_file-other (temp u) _ (some []) w q);
  write_keeps = λ n s u w v h q.
      ap content_of
        (ap (λ x. x.1 (join_paths (codes "/d") n)) (sym h) ∙ set_file-other (temp u) _ _ w q);
  rename_keeps = λ n m u w v h p q. ap content_of (
      ap (λ x. x.1 (join_paths (codes "/d") n)) (sym h)
      ∙ set_file-other (join_paths (codes "/d") m) _ _ (set_file (temp u) none w) q
      ∙ set_file-other (temp u) _ none w p);
}

abbrev graph_text : Bytes
graph_text =
    codes "<g> <tag:mildred.fr,2015-05:SmartWeb#relativePath> \"/a/b\" .\n"
    ++ codes "<g> <tag:mildred.fr,2015-05:SmartWeb#hash> <sha1:68> <g> .\n"

abbrev entries : List ZipFile
entries =
    (record { name = codes "graphs.nq"; opened = some (new_reader graph_text eof) })
    ∷ (record { name = codes "sha1:68"; opened = some (new_reader (codes "hello") eof) })
    ∷ []

abbrev request : BundleRequest
request = record {
  body = codes "zip";
  body_error = none;
  content_type = mime_type;
  opened = inr entries;
}

abbrev posted : Option (Outcome Memory)
posted =
    handle_post_bundle (codes "no") error_text one_byte (codes "/d") memory temp (λ s. none)
      (codes "done") parse_path show_path base request (λ p. none)

-- the update that the store is asked for
abbrev asked_text : Bytes
asked_text =
    codes "DROP SILENT GRAPH </a/b> ;\nINSERT DATA {\n GRAPH </a/b> {\n  <g> "
    ++ codes "<tag:mildred.fr,2015-05:SmartWeb#hash> <sha1:68> } }"

abbrev outcome_of : Option (Outcome Memory) → Outcome Memory
outcome_of none = record {
  response = record { status = 0; headers = []; body = [] };
  asked = none;
  files = λ p. none;
}
outcome_of (some o) = o

posted_well : posted ≡ some (outcome_of posted)
unfolding handle_post_bundle post_copied post_opened post_items post_files after_files updated
    and_then items graph_statements graph_channel Reader.graph opened_graph statements
    statements_from read_statement statement_body statement_rest read_subject read_object read_iri
    read_blank read_literal literal_suffix read_delimited read_spaces read_byte peek encode equal
    delimited encode_rune missing_if set_file appended store_all store_entry store_hashed
    store_content get_bundle_sha1 hash_of Posting.content_of unless_failed error_of move_in
    or_remove is_among has_prefix join_paths clean join walk push pop dir_path sha1_name hex
    hex_digit make_statements add_items add_statement finish join_updates place_graph
    insert_statement get subject_term object_term want_hash literal_value delete_graph insert_data
    open_kind open_graph open_subject open_predicate close_statement close_graph close_subject
    close_predicate close_object terminate make_query fill replace_match replacement argument show_v
    iri_literal iri_rel_literal replace_all replace is_sub_url with_slash Statement.graph subject
    predicate object_type object_iri object_literal
posted_well = refl

posted_asked : (outcome_of posted).asked ≡ some asked_text
unfolding handle_post_bundle post_copied post_opened post_items post_files after_files updated
    and_then items graph_statements graph_channel Reader.graph opened_graph statements
    statements_from read_statement statement_body statement_rest read_subject read_object read_iri
    read_blank read_literal literal_suffix read_delimited read_spaces read_byte peek encode equal
    delimited encode_rune missing_if set_file appended store_all store_entry store_hashed
    store_content get_bundle_sha1 hash_of Posting.content_of unless_failed error_of move_in
    or_remove is_among has_prefix join_paths clean join walk push pop dir_path sha1_name hex
    hex_digit make_statements add_items add_statement finish join_updates place_graph
    insert_statement get subject_term object_term want_hash literal_value delete_graph insert_data
    open_kind open_graph open_subject open_predicate close_statement close_graph close_subject
    close_predicate close_object terminate make_query fill replace_match replacement argument show_v
    iri_literal iri_rel_literal replace_all replace is_sub_url with_slash Statement.graph subject
    predicate object_type object_iri object_literal
posted_asked = refl

handle_post_bundle-Imported_example :
    Imported
      (codes "no")
      error_text
      one_byte
      (codes "/d")
      memory
      temp
      (λ s. none)
      (codes "done")
      parse_path
      show_path
      base
      request
      asked_text
      (outcome_of posted).files
handle_post_bundle-Imported_example =
    handle_post_bundle-Imported (codes "no") error_text one_byte (codes "/d") memory temp
      (λ s. none) (codes "done") parse_path show_path memory-laws memory-KeepLaws base request
      asked_text (λ p. none) (outcome_of posted) posted_well posted_asked
