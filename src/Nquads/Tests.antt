-- ===== src/Nquads/Tests.antt =====
-- Runs of the writer and the reader on concrete texts, and the theorems at concrete inputs.
use smart_web.Base.{
  ◌∷◌, ◌++◌, [], none, some, false, codes, Bytes, ◌≡◌, ◌↔◌, refl, All, arith, contains, equal, ap,
}
use smart_web.Utf8.{encode, encode_rune}
use smart_web.Nquads.Node.{
  iri_node, literal_node, xsd_string, encode_iri, encode_typed_string, encode_loc_string,
}
use smart_web.Nquads.Statement.{Statement}
use smart_web.Nquads.Writer.{write_quad, write_triple, wrote}
use smart_web.Nquads.Stream.{
  Reader, new_reader, eof, ok, err, expected_literal_type, invalid_character_in_language_tag, peek,
  read_byte,
}
use smart_web.Nquads.Reader.{
  read_statement, statement_body, statement_rest, read_subject, read_object, read_iri, read_blank,
  read_literal, literal_suffix, read_delimited, delimited, read_spaces,
}
use smart_web.Nquads.Reader.Steps.{at}
use smart_web.Nquads.Reader.Total.{Ends}
use smart_web.Nquads.Reader.Total.Statements.{read_statement-Ends}
use smart_web.Nquads.Reader.WellFormed.{IsWellFormed, read_statement-IsWellFormed}
use smart_web.Nquads.RoundTrip.Iris.{damaged, read_iri-lossless_iff}
use smart_web.Nquads.RoundTrip.Objects.{iri, blank, resource, text, any_resource, any_term}
use smart_web.Nquads.RoundTrip.Suffixes.{
  read_literal-encode_typed_string, read_literal-encode_loc_string,
}
use smart_web.Nquads.RoundTrip.Quads.{
  statement, with_eof, read_statement-write_quad, read_statement-write_triple,
}

abbrev start : Reader
start = new_reader [] eof

abbrev a_quad : Reader
a_quad = new_reader (codes "<http://a/x\\u0020y> <p> \"say \\\"hi\\\"\\n\" <g> .\nrest") eof

abbrev the_statement : Statement
the_statement = record {
  subject = some (iri_node (codes "http://a/x y"));
  predicate = some (iri_node (codes "p"));
  object =
      some (literal_node (record { value = codes "say \"hi\"\n"; lang = []; type = xsd_string }));
  graph = some (iri_node (codes "g"));
}

read_a_quad : read_statement a_quad ≡ (ok (some the_statement), new_reader (codes "\nrest") eof)
unfolding read_statement statement_body statement_rest read_subject read_object read_iri read_blank
    read_literal literal_suffix read_delimited read_spaces read_byte peek encode equal delimited
    encode_rune
read_a_quad = refl

-- The escape sequence of `<` is read as `p`.
read_damaged :
    (read_iri (new_reader (codes "<a\\u003Cb>") eof)).0 ≡ ok (some (iri_node (codes "apb")))
unfolding read_iri read_delimited read_spaces encode delimited encode_rune
read_damaged = refl

-- Nothing but spaces and comments: no statement, and no error.
read_nothing : (read_statement (new_reader (codes " # x\n") eof)).0 ≡ ok none
unfolding read_statement statement_body read_subject read_spaces
read_nothing = refl

-- A literal whose final dot is the last byte of the input is not accepted.
read_dot_at_end : (read_statement (new_reader (codes "<a> <b> \"c\" .") eof)).0 ≡ err eof
unfolding read_statement statement_body statement_rest read_subject read_object read_iri read_blank
    read_literal literal_suffix read_delimited read_spaces read_byte peek encode equal delimited
    encode_rune
read_dot_at_end = refl

read_statement-write_quad_example :
    (w : Bytes) × (write_quad
        (any_resource (iri (codes "http://a/x y")))
        (encode (codes "p"))
        (any_term (text (codes "say \"hi\"\n")))
        (encode (codes "g"))
      ≡ wrote w)
    × (read_statement (at (w ++ codes "rest") start) ≡ (
      ok (
          some (
            statement
              (iri (codes "http://a/x y"))
              (codes "p")
              (text (codes "say \"hi\"\n"))
              (some (codes "g")))),
      at (b'\n' ∷ codes "rest") (with_eof false start),
    ))
read_statement-write_quad_example =
    read_statement-write_quad (iri (codes "http://a/x y")) (codes "p") (text (codes "say \"hi\"\n"))
      (codes "g") (codes "rest") start (omega arith) (omega arith) (omega arith) (omega arith)

read_statement-write_triple_example :
    (w : Bytes) × (write_triple
        (any_resource (blank (codes "b1")))
        (encode (codes "p"))
        (any_term (resource (iri (codes "o"))))
      ≡ wrote w)
    × (read_statement (at (w ++ []) start) ≡ (
      ok (some (statement (blank (codes "b1")) (codes "p") (resource (iri (codes "o"))) none)),
      at (b'\n' ∷ []) (with_eof false start),
    ))
read_statement-write_triple_example =
    read_statement-write_triple (blank (codes "b1")) (codes "p") (resource (iri (codes "o"))) []
      start (ground arith) (omega arith) (omega arith)

read_iri-lossless_iff_example :
    ((read_iri (at (encode_iri (encode (codes "a b")) ++ codes " .") start)).0
      ≡ ok (some (iri_node (encode (codes "a b")))))
    ↔ All (λ c. contains damaged c ≡ false) (codes "a b")
read_iri-lossless_iff_example = read_iri-lossless_iff (codes "a b") (codes " .") start (omega arith)

read_statement-Ends_example : Ends a_quad (read_statement a_quad)
read_statement-Ends_example = read_statement-Ends a_quad (λ e. cc)

read_statement-IsWellFormed_example : IsWellFormed the_statement
read_statement-IsWellFormed_example = read_statement-IsWellFormed a_quad (ap (λ x. x.0) read_a_quad)

read_literal-encode_typed_string_example :
    (read_literal
      (at (encode_typed_string (encode (codes "5")) (codes "int") ++ codes " .\n") start)).0
    ≡ err expected_literal_type
read_literal-encode_typed_string_example =
    read_literal-encode_typed_string (codes "5") (codes "int") (codes " .\n") start (omega arith)

read_literal-encode_loc_string_example :
    (read_literal
      (at (encode_loc_string (encode (codes "hi")) (b'e' ∷ codes "n") ++ codes " .\n") start)).0
    ≡ err invalid_character_in_language_tag
read_literal-encode_loc_string_example =
    read_literal-encode_loc_string (codes "hi") b'e' (codes "n") (codes " .\n") start (omega arith)
