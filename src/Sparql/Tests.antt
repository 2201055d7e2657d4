-- ===== src/Sparql/Tests.antt =====
-- Runs of the encoders and of MakeQuery, and the theorems at concrete inputs.
use smart_web.Base.{◌∷◌, ◌++◌, [], some, codes, Bytes, ◌≡◌, ◌≢◌, ◌↔◌, refl, All, arith, replace}
use smart_web.Sparql.Literals.{url, str, literal, string_literal, iri_literal, replace_all}
use smart_web.Sparql.Query.{make_query, fill, replace_match, argument, replacement, make_query-url}
use smart_web.Sparql.Terms.{unquote, unquote-string_literal, IsIriByte, iri_literal-legal_iff}

-- A string argument under `%2v`, a match with no argument, a doubled percent sign.
query_of_two :
    make_query (codes "<a> %2v %3v 5%% %x") (url (codes "u") ∷ str (codes "x\"y") ∷ [])
    ≡ codes "<a> \"x\\\"y\" %3v 5% %x"
unfolding make_query fill replace_match argument replacement string_literal replace_all replace
    literal
query_of_two = refl

unquote-string_literal_example :
    unquote (string_literal (codes "a\"\\\nb") ++ codes " .") ≡ some (codes "a\"\\\nb", codes " .")
unquote-string_literal_example = unquote-string_literal (codes "a\"\\\nb") (codes " .")

iri_literal-legal_iff_example :
    (body : Bytes) × (iri_literal (codes "a b>") ≡ b'<' ∷ (body ++ b'>' ∷ []))
    × (All IsIriByte body ↔ All (λ c. c ≢ 0x1B) (codes "a b>"))
iri_literal-legal_iff_example = iri_literal-legal_iff (codes "a b>")

make_query-url_example :
    make_query (codes "DROP " ++ codes "%1u" ++ codes " ;") (url (codes "g>") ∷ [])
    ≡ codes "DROP " ++ iri_literal (codes "g>") ++ make_query (codes " ;") (url (codes "g>") ∷ [])
make_query-url_example = make_query-url (codes "DROP ") (codes " ;") (codes "g>") [] (omega arith)
