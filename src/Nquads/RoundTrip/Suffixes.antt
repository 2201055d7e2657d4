-- ===== src/Nquads/RoundTrip/Suffixes.antt =====
-- What `readLiteral` does behind the closing quote, and the methods that look for a node and do
-- not find it.
use smart_web.Base.{
  ℕ, ◌≤◌, false, none, some, List, [], ◌∷◌, ◌++◌, append_assoc, ◌≡◌, refl, arith, All, Bytes,
  length, ◌==◌, equal,
}
use smart_web.Utf8.{IsScalar, encode}
use smart_web.Nquads.Node.{literal_node, encode_typed_string, encode_loc_string, xsd_string}
use smart_web.Nquads.Stream.{
  ok, err, Reader, peek, expected_literal_type, invalid_character_in_language_tag,
}
use smart_web.Nquads.Reader.{
  read_iri, read_literal, literal_suffix, read_blank, lang_loop, read_subject,
}
use smart_web.Nquads.Reader.Steps.{at, IsInk, read_spaces-ink, read_spaces-space, read_rune-ascii}
use smart_web.Nquads.RoundTrip.Terms.{read_literal-encode_string}

pub read_iri-other :
    (c : ℕ) (rest : Bytes) (r : Reader)
    → IsInk c
    → (c == b'<') ≡ false
    → read_iri (at (c ∷ rest) r) ≡ (ok none, at (c ∷ rest) r)
unfolding read_iri
read_iri-other c rest r h p = ground (arith, read_spaces-ink c rest r h, read_rune-ascii c rest r)

pub read_blank-other :
    (c : ℕ) (rest : Bytes) (r : Reader)
    → IsInk c
    → 1 ≤ length rest
    → (c == b'_') ≡ false
    → read_blank (at (c ∷ rest) r) ≡ (ok none, at (c ∷ rest) r)
unfolding read_blank peek equal
read_blank-other c rest r h l p = ground (arith, read_spaces-ink c rest r h)

pub read_subject-other :
    (c : ℕ) (rest : Bytes) (r : Reader)
    → IsInk c
    → 1 ≤ length rest
    → (c == b'<') ≡ false
    → (c == b'_') ≡ false
    → read_subject (at (c ∷ rest) r) ≡ (ok none, at (c ∷ rest) r)
unfolding read_subject
read_subject-other c rest r h l p q =
    rw (read_spaces-ink c rest r h, read_iri-other c rest r h p) (read_blank-other c rest r h l q)

-- A space, and then the graph or the final dot: the literal is a plain string.
pub literal_suffix-plain :
    (content : Bytes) (c : ℕ) (rest : Bytes) (r : Reader)
    → IsInk c
    → 1 ≤ length rest
    → (c == b'^') ≡ false
    → (c == b'@') ≡ false
    → literal_suffix content (at (b' ' ∷ c ∷ rest) r) ≡ (
      ok (some (literal_node (record { value = content; lang = []; type = xsd_string }))),
      at (c ∷ rest) r,
    )
unfolding literal_suffix peek equal
literal_suffix-plain content c rest r h l p q =
    ground (arith, read_spaces-space (c ∷ rest) r, read_spaces-ink c rest r h)

IsInk-caret : IsInk b'^'
IsInk-caret = (omega arith, refl, refl)

IsInk-at : IsInk b'@'
IsInk-at = (omega arith, refl, refl)

-- The two bytes `^^` are looked at and not taken, so no IRI is found behind them.
literal_suffix-typed :
    (content rest : Bytes) (r : Reader)
    → literal_suffix content (at (b'^' ∷ b'^' ∷ rest) r)
      ≡ (err expected_literal_type, at (b'^' ∷ b'^' ∷ rest) r)
unfolding literal_suffix peek equal
literal_suffix-typed content rest r = ground (
  arith,
  read_spaces-ink b'^' (b'^' ∷ rest) r IsInk-caret,
  read_iri-other b'^' (b'^' ∷ rest) r IsInk-caret refl,
)

-- The byte `@` is looked at and not taken, so it is the first byte of the tag.
literal_suffix-loc :
    (content : Bytes) (c : ℕ) (rest : Bytes) (r : Reader)
    → literal_suffix content (at (b'@' ∷ c ∷ rest) r)
      ≡ (err invalid_character_in_language_tag, at (c ∷ rest) r)
unfolding literal_suffix peek equal lang_loop
literal_suffix-loc content c rest r = ground (arith, read_spaces-ink b'@' (c ∷ rest) r IsInk-at)

-- The reader refuses every typed literal that the package encodes.
pub read_literal-encode_typed_string :
    (rs : List ℕ) (type rest : Bytes) (r : Reader)
    → All IsScalar rs
    → (read_literal (at (encode_typed_string (encode rs) type ++ rest) r)).0
      ≡ err expected_literal_type
unfolding encode_typed_string
read_literal-encode_typed_string rs type rest r h =
    rw append_assoc (rw (read_literal-encode_string rs _ r h, literal_suffix-typed))

-- The reader refuses every string with a language tag that the package encodes.
pub read_literal-encode_loc_string :
    (rs : List ℕ) (c : ℕ) (lang rest : Bytes) (r : Reader)
    → All IsScalar rs
    → (read_literal (at (encode_loc_string (encode rs) (c ∷ lang) ++ rest) r)).0
      ≡ err invalid_character_in_language_tag
unfolding encode_loc_string
read_literal-encode_loc_string rs c lang rest r h =
    rw append_assoc (rw (read_literal-encode_string rs _ r h, literal_suffix-loc))
