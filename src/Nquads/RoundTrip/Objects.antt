-- ===== src/Nquads/RoundTrip/Objects.antt =====
-- Subjects and objects as the writer is given them, and the reader on their encodings.
use smart_web.Base.{
  ℕ, ◌≤◌, false, Option, none, some, List, [], ◌∷◌, ◌++◌, map, ◌≡◌, refl, ◌∙◌, arith, All, Bytes,
  length, take, length-append, ◌==◌,
}
use smart_web.Utf8.{IsScalar, encode}
use smart_web.Nquads.Node.{
  Node, iri_node, blank_node, literal_node, encode_string, escape_string, xsd_string, Any, any_iri,
  any_blank, any_string, encode_any, encode_iri_or_blank,
}
use smart_web.Nquads.Stream.{Result, ok, Reader, peek}
use smart_web.Nquads.Reader.{read_spaces, read_subject, read_object}
use smart_web.Nquads.Reader.Steps.{at, IsInk, read_spaces-ink, read_spaces-space}
use smart_web.Nquads.RoundTrip.Escapes.{reread}
use smart_web.Nquads.RoundTrip.Terms.{
  read_iri-encode_iri, read_spaces-encode_iri, read_literal-encode_string, IsInk-quote,
}
use smart_web.Nquads.RoundTrip.Suffixes.{literal_suffix-plain, read_subject-other}
use smart_web.Nquads.RoundTrip.Blanks.{IsLabelRune, read_subject-encode_blank}

-- Values that the writer is given, by the runes of their text.
pub data Resource : Type 0 where
  iri : List ℕ → Resource
  blank : List ℕ → Resource

pub data Term : Type 0 where
  resource : Resource → Term
  text : List ℕ → Term

-- the value as it is handed to the writer
abbrev pub any_resource : Resource → Any
any_resource (iri rs) = any_iri (encode rs)
any_resource (blank rs) = any_blank (encode rs)

abbrev pub any_term : Term → Any
any_term (resource x) = any_resource x
any_term (text rs) = any_string (encode rs)

-- the node that comes back
abbrev pub read_resource : Resource → Node
read_resource (iri rs) = iri_node (encode (map reread rs))
read_resource (blank rs) = blank_node (encode rs)

abbrev pub read_term : Term → Node
read_term (resource x) = read_resource x
read_term (text rs) = literal_node (record { value = encode rs; lang = []; type = xsd_string })

abbrev pub IsResource : Resource → Type 0
IsResource (iri rs) = All IsScalar rs
IsResource (blank rs) = All IsLabelRune rs

abbrev pub IsTerm : Term → Type 0
IsTerm (resource x) = IsResource x
IsTerm (text rs) = All IsScalar rs

-- The text of a resource, with a space behind it, is read as a subject.
pub read_subject-resource :
    (x : Resource) (rest : Bytes) (r : Reader)
    → IsResource x
    → read_subject (at (encode_iri_or_blank (any_resource x) ++ b' ' ∷ rest) r)
      ≡ (ok (some (read_resource x)), at (b' ' ∷ rest) r)
unfolding encode_iri_or_blank
read_subject-resource (iri rs) rest r h =
    unfold read_subject in
    rw
      (read_spaces-encode_iri (encode rs) (b' ' ∷ rest) r, read_iri-encode_iri rs (b' ' ∷ rest) r h)
read_subject-resource (blank rs) rest r h = read_subject-encode_blank rs rest r h

-- What is left behind an object: `readLiteral` takes the space, and the others leave it.
abbrev pub behind : Term → Bytes → Bytes
behind (resource x) s = b' ' ∷ s
behind (text rs) s = s

-- The first character of a graph or of the final dot, and that there is something behind it.
pub record IsTail (c : ℕ) (rest : Bytes) : Type 0 where
  pub ink : IsInk c
  pub more : 1 ≤ length rest
  pub not_caret : (c == b'^') ≡ false
  pub not_at : (c == b'@') ≡ false

read_object-space :
    (s : Bytes) (r : Reader) {x : Result (Option Node) × Reader}
    → read_object (at s r) ≡ x
    → read_object (at (b' ' ∷ s) r) ≡ x
unfolding read_object read_subject
read_object-space s r h = rw (read_spaces-space s r) h

read_subject-encode_string :
    (s rest : Bytes) (r : Reader)
    → read_subject (at (encode_string s ++ b' ' ∷ rest) r)
      ≡ (ok none, at (encode_string s ++ b' ' ∷ rest) r)
unfolding encode_string
read_subject-encode_string s rest r =
    let body = (escape_string s ++ b'"' ∷ []) in
    read_subject-other b'"' (body ++ b' ' ∷ rest) r IsInk-quote
      (omega (arith, length-append {0} body (b' ' ∷ rest))) refl refl

read_object-term :
    (t : Term) (c : ℕ) (rest : Bytes) (r : Reader)
    → IsTerm t
    → IsTail c rest
    → read_object (at (encode_any (any_term t) ++ b' ' ∷ c ∷ rest) r)
      ≡ (ok (some (read_term t)), at (behind t (c ∷ rest)) r)
unfolding read_object encode_any encode_iri_or_blank
read_object-term (resource (iri rs)) c rest r h l =
    rw (read_subject-resource (iri rs) (c ∷ rest) r h)
read_object-term (resource (blank rs)) c rest r h l =
    rw (read_subject-resource (blank rs) (c ∷ rest) r h)
read_object-term (text rs) c rest r h l =
    rw
      (
        read_subject-encode_string (encode rs) (c ∷ rest) r,
        read_literal-encode_string rs (b' ' ∷ c ∷ rest) r h,
      )
      (literal_suffix-plain (encode rs) c rest r l.ink l.more l.not_caret l.not_at)

read_spaces-behind :
    (t : Term) (c : ℕ) (rest : Bytes) (r : Reader)
    → IsInk c
    → read_spaces (at (behind t (c ∷ rest)) r) ≡ (ok tt, at (c ∷ rest) r)
read_spaces-behind (resource x) c rest r h =
    read_spaces-space (c ∷ rest) r ∙ read_spaces-ink c rest r h
read_spaces-behind (text rs) c rest r h = read_spaces-ink c rest r h

abbrev pub IsTailText : Bytes → Type 0
IsTailText [] = ⊥
IsTailText (c ∷ rest) = IsTail c rest

pub read_object-tail :
    (t : Term) (s : Bytes) (r : Reader)
    → IsTerm t
    → IsTailText s
    → read_object (at (b' ' ∷ (encode_any (any_term t) ++ b' ' ∷ s)) r)
      ≡ (ok (some (read_term t)), at (behind t s) r)
read_object-tail t [] r h l = absurd l
read_object-tail t (c ∷ rest) r h l = read_object-space _ r (read_object-term t c rest r h l)

pub read_spaces-tail :
    (t : Term) (s : Bytes) (r : Reader)
    → IsTailText s
    → (read_spaces (at (behind t s) r) ≡ (ok tt, at s r))
      × (peek 1 (at s r) ≡ (ok (take 1 s), at s r))
unfolding peek
read_spaces-tail t [] r l = absurd l
read_spaces-tail t (c ∷ rest) r l = (read_spaces-behind t c rest r l.ink, ground arith)
