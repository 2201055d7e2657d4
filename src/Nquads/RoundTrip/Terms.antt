-- ===== src/Nquads/RoundTrip/Terms.antt =====
-- The reader on one encoded node.
use smart_web.Base.{
  ℕ, suc, ◌<◌, some, List, [], ◌∷◌, ◌++◌, append_assoc, map, ◌≡◌, refl, ap, arith, All, Bytes,
  length, length-append,
}
use smart_web.Utf8.{IsScalar, encode}
use smart_web.Utf8.RoundTrip.{runes-encode}
use smart_web.Turtle.{escape, escape_runes, escape_string_more_chars, escape_iri_chars}
use smart_web.Nquads.Node.{iri_node, encode_iri, encode_string, escape_iri, escape_string}
use smart_web.Nquads.Stream.{ok, Reader}
use smart_web.Nquads.Reader.{read_delimited, read_iri, read_literal, read_spaces, literal_suffix}
use smart_web.Nquads.Reader.Steps.{at, IsInk, read_spaces-ink, read_rune-ascii}
use smart_web.Nquads.RoundTrip.Escapes.{
  ReadsAs, ReadsAs-string, ReadsAs-iri, reread, delimited-escape_runes, length-escape_runes,
}

escape-encode :
    (chars : Bytes) (rs : List ℕ)
    → All IsScalar rs
    → escape (encode rs) chars ≡ escape_runes chars rs
unfolding escape
escape-encode chars rs h = rw (runes-encode rs h)

read_delimited-escape_runes :
    (chars : Bytes) (close : ℕ) (f : ℕ → ℕ)
    → ((c : ℕ) → IsScalar c → ReadsAs chars close c (f c))
    → close < 0x80
    → (rs : List ℕ) (rest : Bytes) (r : Reader) → All IsScalar rs
    → read_delimited close (at (escape_runes chars rs ++ close ∷ rest) r)
      ≡ (ok (encode (map f rs)), at rest r)
unfolding read_delimited
read_delimited-escape_runes chars close f each k rs rest r h = rw (
    delimited-escape_runes chars close f each k rs
      (suc (length (escape_runes chars rs ++ close ∷ rest))) [] rest r h
      (omega (
        arith,
        length-append {0} (escape_runes chars rs) (close ∷ rest),
        length-escape_runes chars rs,
      )))

encode_iri-encode :
    (rs : List ℕ) (rest : Bytes)
    → All IsScalar rs
    → encode_iri (encode rs) ++ rest ≡ b'<' ∷ (escape_runes escape_iri_chars rs ++ b'>' ∷ rest)
unfolding encode_iri escape_iri
encode_iri-encode rs rest h = rw (escape-encode escape_iri_chars rs h, append_assoc)

encode_string-encode :
    (rs : List ℕ) (rest : Bytes)
    → All IsScalar rs
    → encode_string (encode rs) ++ rest
      ≡ b'"' ∷ (escape_runes escape_string_more_chars rs ++ b'"' ∷ rest)
unfolding encode_string escape_string
encode_string-encode rs rest h = rw (escape-encode escape_string_more_chars rs h, append_assoc)

pub IsInk-lt : IsInk b'<'
IsInk-lt = (omega arith, refl, refl)

pub IsInk-quote : IsInk b'"'
IsInk-quote = (omega arith, refl, refl)

-- An encoded IRI is read as the IRI with each rune as `reread` has it.
pub read_iri-encode_iri :
    (rs : List ℕ) (rest : Bytes) (r : Reader)
    → All IsScalar rs
    → read_iri (at (encode_iri (encode rs) ++ rest) r)
      ≡ (ok (some (iri_node (encode (map reread rs)))), at rest r)
unfolding read_iri
read_iri-encode_iri rs rest r h = rw (encode_iri-encode rs rest h) (
    ground (
      arith,
      read_spaces-ink b'<' (escape_runes escape_iri_chars rs ++ b'>' ∷ rest) r IsInk-lt,
      read_rune-ascii b'<' (escape_runes escape_iri_chars rs ++ b'>' ∷ rest) r,
      read_delimited-escape_runes escape_iri_chars b'>' reread ReadsAs-iri (omega arith) rs rest r
          h,
    ))

pub read_spaces-encode_iri :
    (iri rest : Bytes) (r : Reader)
    → read_spaces (at (encode_iri iri ++ rest) r) ≡ (ok tt, at (encode_iri iri ++ rest) r)
unfolding encode_iri
read_spaces-encode_iri iri rest r = read_spaces-ink b'<' _ r IsInk-lt

map_self : (rs : List ℕ) → map (λ c. c) rs ≡ rs
map_self [] = refl
map_self (c ∷ rs) = ap (◌∷◌ c) (map_self rs)

-- An encoded string is read back as it was.
pub read_literal-encode_string :
    (rs : List ℕ) (rest : Bytes) (r : Reader)
    → All IsScalar rs
    → read_literal (at (encode_string (encode rs) ++ rest) r)
      ≡ literal_suffix (encode rs) (at rest r)
unfolding read_literal
read_literal-encode_string rs rest r h = rw (encode_string-encode rs rest h) (
    ground (
      arith,
      read_spaces-ink b'"' (escape_runes escape_string_more_chars rs ++ b'"' ∷ rest) r IsInk-quote,
      read_rune-ascii b'"' (escape_runes escape_string_more_chars rs ++ b'"' ∷ rest) r,
      map_self rs,
      read_delimited-escape_runes escape_string_more_chars b'"' (λ (c : ℕ). c) ReadsAs-string
          (omega arith) rs rest r h,
    ))
