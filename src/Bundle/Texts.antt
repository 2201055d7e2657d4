-- ===== src/Bundle/Texts.antt =====
-- What the writer of a bundle adds to its graphs, as lines that the reader's loop reads.
use mathlib.Core.Path.{subst}
use smart_web.Base.{
  ℕ, ◌/◌, ◌%◌, ◌<◌, false, none, some, List, [], ◌∷◌, ◌++◌, append_assoc, map, ◌≡◌, refl, sym, ap,
  ◌∙◌, arith, All, All-map, Bytes, contains, inl,
}
use smart_web.Utf8.{IsScalar, encode, encode_rune}
use smart_web.Utf8.RoundTrip.{encode-ascii}
use smart_web.Turtle.{escape_iri_chars}
use smart_web.Nquads.Node.{
  any_string, encode_string, iri_node, literal_node, xsd_string, encode_iri_or_blank, encode_iri,
  encode_any,
}
use smart_web.Nquads.Statement.{Statement}
use smart_web.Nquads.Writer.{
  write_comment, write_empty_line, write_triple, write_triple_iri, write_quad_iri,
}
use smart_web.Nquads.RoundTrip.Escapes.{reread, reread-plain}
use smart_web.Nquads.RoundTrip.Objects.{iri, resource, text}
use smart_web.Nquads.RoundTrip.Quads.{line, statement, triple_line-append, quad_line-append}
use smart_web.Server.Authenticator.{hex, hex_digit}
use smart_web.Bundle.Writer.{file_text, text_of, sw_relative_path, sw_hash}
use smart_web.Bundle.Lines.{IsCommentRune}
use smart_web.Bundle.Yields.{Yields, Yields-newline, Yields-comment, Yields-line}

-- An ASCII character that an IRI holds as it is.
abbrev pub IsPlain : ℕ → Type 0
IsPlain c = (c < 0x80) × (contains escape_iri_chars c ≡ false)

hex_digit-IsPlain : (d : ℕ) → d < 16 → IsPlain (hex_digit d)
unfolding hex_digit contains
hex_digit-IsPlain d h = ground arith

pub hex-IsPlain : (s : Bytes) → All (λ b. b < 256) s → All IsPlain (hex s)
unfolding hex
hex-IsPlain [] h = tt
hex-IsPlain (c ∷ s) (b, h) = (
  hex_digit-IsPlain (c / 16) (omega arith),
  (hex_digit-IsPlain (c % 16) (omega arith), hex-IsPlain s h),
)

pub encode-plain : (s : Bytes) → All IsPlain s → encode s ≡ s
encode-plain s h = encode-ascii s (All-map _ _ (λ c p. p.0) s h)

reread-map-plain : (s : Bytes) → All IsPlain s → map reread s ≡ s
reread-map-plain [] h = refl
reread-map-plain (c ∷ s) ((l, p), h) = rw (reread-plain c p, reread-map-plain s h) refl

-- an IRI as it comes back from the reader
abbrev pub iri_text : List ℕ → Bytes
iri_text rs = encode (map reread rs)

module _ (s p o : List ℕ) (rest : Bytes) where
  triple_text :
      (q : Bytes)
      → encode p ≡ q
      → text_of (write_triple (any_string (encode s)) q (any_string (encode o))) ++ rest
        ≡ line (iri s) p (text o) none rest
  unfolding text_of write_triple encode_iri_or_blank encode_iri encode_any encode_string
  triple_text q e = rw (sym e) (triple_line-append _ _ _ rest)

  pub triple_iri_text :
      (q t : Bytes)
      → encode p ≡ q
      → encode o ≡ t
      → text_of (write_triple_iri (any_string (encode s)) q t) ++ rest
        ≡ line (iri s) p (resource (iri o)) none rest
  unfolding text_of write_triple_iri encode_iri_or_blank encode_iri encode_any
  triple_iri_text q t e f = rw (sym e, sym f) (triple_line-append _ _ _ rest)

  quad_iri_text :
      (g : List ℕ) (q t : Bytes)
      → encode p ≡ q
      → encode o ≡ t
      → text_of (write_quad_iri (any_string (encode s)) q t (encode g)) ++ rest
        ≡ line (iri s) p (resource (iri o)) (some g) rest
  unfolding text_of write_quad_iri encode_iri_or_blank encode_iri encode_any
  quad_iri_text g q t e f = rw (sym e, sym f) (quad_line-append _ _ _ _ rest ∙ simp append_assoc)

-- What is read back of what `InsertFile` states of a file: its path, and its hash in the graph of the
-- file. The URI is the one that comes back from the reader.
abbrev pub file_statements : List ℕ → List ℕ → Bytes → List Statement
file_statements uri name hash =
    (record {
      subject = some (iri_node (iri_text uri));
      predicate = some (iri_node sw_relative_path);
      object = some (literal_node (record { value = encode name; lang = []; type = xsd_string }));
      graph = none;
    })
    ∷ (record {
      subject = some (iri_node (iri_text uri));
      predicate = some (iri_node sw_hash);
      object = some (iri_node hash);
      graph = some (iri_node (iri_text uri));
    })
    ∷ []

IsScalar-plain : (c : ℕ) → IsPlain c → IsScalar c
IsScalar-plain c (l, p) = inl (omega (arith, l))

pub plain-IsText : (s : Bytes) → All IsPlain s → All IsScalar s
plain-IsText s h = All-map _ _ IsScalar-plain s h

sw_relative_path-IsPlain : All IsPlain sw_relative_path
unfolding contains
sw_relative_path-IsPlain = ground arith

sw_hash-IsPlain : All IsPlain sw_hash
unfolding contains
sw_hash-IsPlain = ground arith

pub iri_text-plain : (s : Bytes) → All IsPlain s → iri_text s ≡ s
iri_text-plain s h = rw (reread-map-plain s h) (encode-plain s h)

chain_lines :
    (a b c d rest : Bytes) {b' x y : Bytes}
    → b ≡ b'
    → d ++ rest ≡ x
    → c ++ x ≡ y
    → (a ++ b ++ c ++ d) ++ rest ≡ a ++ (b' ++ y)
chain_lines a b c d rest e f g =
    let flat : (a ++ b ++ c ++ d) ++ rest ≡ a ++ (b ++ (c ++ (d ++ rest))) = simp append_assoc in
    rw (flat, f, g, e) refl

-- the lines of `InsertFile`, with `rest` behind them
abbrev file_lines : List ℕ → List ℕ → Bytes → Bytes → Bytes
file_lines uri name hash rest =
    b'\n'
    ∷ (write_comment (encode (b' ' ∷ name))
        ++ line (iri uri) sw_relative_path (text name) none
            (line (iri uri) sw_hash (resource (iri hash)) (some uri) rest))

file_text-lines :
    (uri name : List ℕ) (hash rest : Bytes)
    → All IsPlain hash
    → file_text (encode uri) (encode name) hash ++ rest ≡ file_lines uri name hash rest
unfolding file_text write_empty_line
file_text-lines uri name hash rest h =
    let triple =
      triple_text uri sw_relative_path name
        (line (iri uri) sw_hash (resource (iri hash)) (some uri) rest) sw_relative_path
        (encode-plain sw_relative_path sw_relative_path-IsPlain) in
    let quad =
      quad_iri_text uri sw_hash hash rest uri sw_hash hash (encode-plain sw_hash sw_hash-IsPlain)
        (encode-plain hash h) in
    let comment : encode (b' ' ∷ name) ≡ b' ' ∷ encode name = unfold encode encode_rune in refl in
    chain_lines write_empty_line (write_comment (b' ' ∷ encode name)) _ _ rest
      (ap write_comment (sym comment)) quad triple

-- the statements of `InsertFile`, as the lines are read
abbrev file_read : List ℕ → List ℕ → Bytes → List Statement
file_read uri name hash =
    statement (iri uri) sw_relative_path (text name) none
    ∷ statement (iri uri) sw_hash (resource (iri hash)) (some uri)
    ∷ []

file_read-statements :
    (uri name : List ℕ) (hash : Bytes)
    → All IsPlain hash
    → file_read uri name hash ≡ file_statements uri name hash
file_read-statements uri name hash h =
    rw
      (
        iri_text-plain hash h,
        iri_text-plain sw_relative_path sw_relative_path-IsPlain,
        iri_text-plain sw_hash sw_hash-IsPlain,
      )
      refl

pub Yields-file_text :
    (uri name : List ℕ) (hash rest : Bytes) (sts : List Statement)
    → All IsScalar uri
    → All IsCommentRune name
    → All IsPlain hash
    → Yields rest sts
    → Yields
        (file_text (encode uri) (encode name) hash ++ rest)
        (file_statements uri name hash ++ sts)
unfolding file_text write_empty_line
Yields-file_text uri name hash rest sts hu hn hh y =
    let hn' : All IsScalar name = All-map _ _ (λ c h. h.0) name hn in
    let quad =
      Yields-line (iri uri) sw_hash (resource (iri hash)) (some uri) hu
        (plain-IsText sw_hash sw_hash-IsPlain) (plain-IsText hash hh) hu rest sts y in
    let triple =
      Yields-line (iri uri) sw_relative_path (text name) none hu
        (plain-IsText sw_relative_path sw_relative_path-IsPlain) hn' tt _ _ quad in
    let comment = Yields-comment (b' ' ∷ name) _ _ ((inl (omega arith), refl), hn) triple in
    rw (file_text-lines uri name hash rest hh) (
      subst (λ x. Yields (file_lines uri name hash rest) (x ++ sts))
        (file_read-statements uri name hash hh) (Yields-newline _ _ comment))
