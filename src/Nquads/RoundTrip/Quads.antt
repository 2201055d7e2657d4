-- ===== src/Nquads/RoundTrip/Quads.antt =====
-- The reader on a whole line of the writer.
use smart_web.Base.{
  ℕ, Bool, true, false, Option, none, some, List, [], ◌∷◌, ◌++◌, append_assoc, map, ◌≡◌, refl, ◌∙◌,
  arith, All, Bytes, is_empty, length-append,
}
use smart_web.Utf8.{IsScalar, encode}
use smart_web.Nquads.Node.{
  Node, iri_node, encode_blank, encode_iri, encode_string, escape_iri, encode_any,
  encode_iri_or_blank,
}
use smart_web.Nquads.Statement.{Statement}
use smart_web.Nquads.Writer.{write_quad, write_triple, wrote, quad_line, triple_line}
use smart_web.Nquads.Stream.{Result, ok, Reader, read_byte}
use smart_web.Nquads.Reader.{read_spaces, read_iri, statement_rest, statement_body, read_statement}
use smart_web.Nquads.Reader.Steps.{at, read_spaces-ink, read_spaces-space}
use smart_web.Nquads.RoundTrip.Escapes.{reread}
use smart_web.Nquads.RoundTrip.Terms.{read_iri-encode_iri, IsInk-lt}
use smart_web.Nquads.RoundTrip.Suffixes.{read_iri-other}
use smart_web.Nquads.RoundTrip.Objects.{
  Resource, iri, blank, Term, resource, text, any_resource, any_term, read_resource, read_term,
  IsResource, IsTerm, read_subject-resource, IsTailText, read_object-tail, read_spaces-tail,
}

-- The graph of a quad, or none for a triple.
abbrev pub line_end : Option (List ℕ) → Bytes
line_end none = b'.' ∷ b'\n' ∷ []
line_end (some g) = encode_iri (encode g) ++ b' ' ∷ b'.' ∷ b'\n' ∷ []

abbrev pub IsGraph : Option (List ℕ) → Type 0
IsGraph none = Unit
IsGraph (some g) = All IsScalar g

abbrev pub read_graph : Option (List ℕ) → Option Node
read_graph none = none
read_graph (some g) = some (iri_node (encode (map reread g)))

line_end-IsTailText : (g : Option (List ℕ)) (rest : Bytes) → IsTailText (line_end g ++ rest)
unfolding encode_iri
line_end-IsTailText none rest = record {
  ink = (omega arith, refl, refl);
  more = omega arith;
  not_caret = refl;
  not_at = refl;
}
line_end-IsTailText (some g) rest =
    let body = ((escape_iri (encode g) ++ b'>' ∷ []) ++ b' ' ∷ b'.' ∷ b'\n' ∷ []) in
    let dot : Bytes = b' ' ∷ b'.' ∷ b'\n' ∷ [] in
    record {
      ink = IsInk-lt;
      more = omega (
        arith,
        length-append {0} body rest,
        length-append {0} (escape_iri (encode g) ++ b'>' ∷ []) dot,
      );
      not_caret = refl;
      not_at = refl;
    }

-- behind the graph
abbrev to_dot : Option (List ℕ) → Bytes → Bytes
to_dot none s = s
to_dot (some g) s = b' ' ∷ s

read_iri-line_end :
    (g : Option (List ℕ)) (rest : Bytes) (r : Reader)
    → IsGraph g
    → read_iri (at (line_end g ++ rest) r)
      ≡ (ok (read_graph g), at (to_dot g (b'.' ∷ b'\n' ∷ rest)) r)
read_iri-line_end none rest r h =
    read_iri-other b'.' (b'\n' ∷ rest) r (omega arith, refl, refl) refl
read_iri-line_end (some g) rest r h =
    rw append_assoc (read_iri-encode_iri g (b' ' ∷ b'.' ∷ b'\n' ∷ rest) r h)

read_spaces-to_dot :
    (g : Option (List ℕ)) (rest : Bytes) (r : Reader)
    → read_spaces (at (to_dot g (b'.' ∷ rest)) r) ≡ (ok tt, at (b'.' ∷ rest) r)
read_spaces-to_dot none rest r = read_spaces-ink b'.' rest r (omega arith, refl, refl)
read_spaces-to_dot (some g) rest r =
    read_spaces-space (b'.' ∷ rest) r ∙ read_spaces-ink b'.' rest r (omega arith, refl, refl)

read_iri-skip :
    (s : Bytes) (r : Reader) {x : Result (Option Node) × Reader}
    → read_iri (at s r) ≡ x
    → read_iri (at (b' ' ∷ s) r) ≡ x
unfolding read_iri
read_iri-skip s r h = rw (read_spaces-space s r) h

read_iri-space :
    (rs : List ℕ) (rest : Bytes) (r : Reader)
    → All IsScalar rs
    → read_iri (at (b' ' ∷ (encode_iri (encode rs) ++ rest)) r)
      ≡ (ok (some (iri_node (encode (map reread rs)))), at rest r)
read_iri-space rs rest r h = read_iri-skip _ r (read_iri-encode_iri rs rest r h)

-- A line of the writer: the encoded subject, predicate and object, and the graph or none.
abbrev pub line : Resource → List ℕ → Term → Option (List ℕ) → Bytes → Bytes
line s p o g rest =
    encode_iri_or_blank (any_resource s)
    ++ b' '
      ∷ (encode_iri (encode p) ++ b' ' ∷ (encode_any (any_term o) ++ b' ' ∷ (line_end g ++ rest)))

abbrev pub statement : Resource → List ℕ → Term → Option (List ℕ) → Statement
statement s p o g = record {
  subject = some (read_resource s);
  predicate = some (iri_node (encode (map reread p)));
  object = some (read_term o);
  graph = read_graph g;
}

abbrev pub with_eof : Bool → Reader → Reader
with_eof b r = record r { eof_is_error = b }

module _ (s : Resource) (p : List ℕ) (o : Term) (g : Option (List ℕ)) (rest : Bytes)
    (hs : IsResource s) (hp : All IsScalar p) (ho : IsTerm o) (hg : IsGraph g) where
  statement_rest-line :
      (r : Reader)
      → statement_rest (read_resource s) (
          at
            (b' '
              ∷ (encode_iri (encode p)
                  ++ b' ' ∷ (encode_any (any_term o) ++ b' ' ∷ (line_end g ++ rest))))
            r)
        ≡ (ok (some (statement s p o g)), at (b'\n' ∷ rest) (with_eof false r))
  unfolding statement_rest read_byte
  statement_rest-line r =
      let r1 = with_eof true r in
      let tail = line_end-IsTailText g rest in
      ground (
        arith,
        read_iri-space p (b' ' ∷ (encode_any (any_term o) ++ b' ' ∷ (line_end g ++ rest))) r1 hp,
        read_object-tail o (line_end g ++ rest) r1 ho tail,
        (read_spaces-tail o (line_end g ++ rest) r1 tail).0,
        (read_spaces-tail o (line_end g ++ rest) r1 tail).1,
        read_iri-line_end g rest r1 hg,
        read_spaces-to_dot g (b'\n' ∷ rest) r1,
      )

  statement_body-line :
      (r : Reader)
      → statement_body (at (line s p o g rest) r)
        ≡ (ok (some (statement s p o g)), at (b'\n' ∷ rest) (with_eof false r))
  unfolding statement_body
  statement_body-line r =
      let r0 = with_eof false r in
      let behind_subject =
        encode_iri (encode p) ++ b' ' ∷ (encode_any (any_term o) ++ b' ' ∷ (line_end g ++ rest)) in
      rw (read_subject-resource s behind_subject r0 hs) (statement_rest-line r0)

  -- A line of the writer is read as its statement, and the line break is left.
  pub read_statement-line :
      (r : Reader)
      → read_statement (at (line s p o g rest) r)
        ≡ (ok (some (statement s p o g)), at (b'\n' ∷ rest) (with_eof false r))
  unfolding read_statement
  read_statement-line r = rw (statement_body-line r)

resource-ne-nil : (x : Resource) → is_empty (encode_iri_or_blank (any_resource x)) ≡ false
unfolding encode_iri_or_blank encode_iri encode_blank
resource-ne-nil (iri rs) = refl
resource-ne-nil (blank rs) = refl

term-ne-nil : (t : Term) → is_empty (encode_any (any_term t)) ≡ false
unfolding encode_any encode_iri encode_blank encode_string
term-ne-nil (resource (iri rs)) = refl
term-ne-nil (resource (blank rs)) = refl
term-ne-nil (text rs) = refl

pub quad_line-append :
    (s p o g rest : Bytes)
    → quad_line s p o g ++ rest
      ≡ s ++ b' ' ∷ (p ++ b' ' ∷ (o ++ b' ' ∷ ((g ++ b' ' ∷ b'.' ∷ b'\n' ∷ []) ++ rest)))
unfolding quad_line
quad_line-append s p o g rest = simp append_assoc

pub triple_line-append :
    (s p o rest : Bytes)
    → triple_line s p o ++ rest ≡ s ++ b' ' ∷ (p ++ b' ' ∷ (o ++ b' ' ∷ b'.' ∷ b'\n' ∷ rest))
unfolding triple_line
triple_line-append s p o rest = simp append_assoc

-- `WriteQuad` on an IRI or a blank node, an IRI, a value (an IRI, a blank node or a string) and an
-- IRI, all of Unicode scalar values and with no space in a label, writes a line. `ReadStatement`
-- on that line, whatever stands behind it, returns the statement of these values, a rune of an IRI
-- being the one that `reread` gives, and leaves the line break unread.
pub read_statement-write_quad :
    (s : Resource) (p : List ℕ) (o : Term) (g : List ℕ) (rest : Bytes) (r : Reader)
    → IsResource s
    → All IsScalar p
    → IsTerm o
    → All IsScalar g
    → (w : Bytes) × (write_quad (any_resource s) (encode p) (any_term o) (encode g) ≡ wrote w)
      × (read_statement (at (w ++ rest) r)
          ≡ (ok (some (statement s p o (some g))), at (b'\n' ∷ rest) (with_eof false r)))
unfolding write_quad
read_statement-write_quad s p o g rest r hs hp ho hg = (
  quad_line (encode_iri_or_blank (any_resource s)) (encode_iri (encode p)) (encode_any (any_term o))
      (encode_iri (encode g)),
  rw (resource-ne-nil s, term-ne-nil o),
  rw quad_line-append (read_statement-line s p o (some g) rest hs hp ho hg r),
)

-- `WriteTriple` and `ReadStatement`, as for a quad; the statement has no graph.
pub read_statement-write_triple :
    (s : Resource) (p : List ℕ) (o : Term) (rest : Bytes) (r : Reader)
    → IsResource s
    → All IsScalar p
    → IsTerm o
    → (w : Bytes) × (write_triple (any_resource s) (encode p) (any_term o) ≡ wrote w)
      × (read_statement (at (w ++ rest) r)
          ≡ (ok (some (statement s p o none)), at (b'\n' ∷ rest) (with_eof false r)))
unfolding write_triple
read_statement-write_triple s p o rest r hs hp ho = (
  triple_line (encode_iri_or_blank (any_resource s)) (encode_iri (encode p))
      (encode_any (any_term o)),
  rw (resource-ne-nil s, term-ne-nil o),
  rw triple_line-append (read_statement-line s p o none rest hs hp ho tt r),
)
