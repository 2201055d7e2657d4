-- ===== src/Bundle/Headers.antt =====
-- What NewWriter writes to the graphs of a bundle, as lines that the reader's loop reads.
use mathlib.Core.Path.{subst}
use smart_web.Base.{
  ℕ, false, none, some, List, [], ◌∷◌, ◌++◌, append_assoc, append-nil, ◌≡◌, refl, arith, All, Bytes,
  codes, contains, is_empty,
}
use smart_web.Utf8.{IsScalar, encode, encode_rune}
use smart_web.Nquads.Node.{any_string, iri_node}
use smart_web.Nquads.Statement.{Statement}
use smart_web.Nquads.Writer.{write_comment, write_triple_iri}
use smart_web.Nquads.RoundTrip.Objects.{iri, resource}
use smart_web.Nquads.RoundTrip.Quads.{line}
use smart_web.Bundle.Writer.{header_text, text_of, rdf_type, relocatable_graph, sw_base_uri}
use smart_web.Bundle.Lines.{IsCommentRune}
use smart_web.Bundle.Yields.{Yields, Yields-comment, Yields-line}
use smart_web.Bundle.Texts.{
  IsPlain, encode-plain, plain-IsText, iri_text, iri_text-plain, triple_iri_text,
}

-- A statement about the graph itself, whose IRI is empty.
abbrev pub about_graph : Bytes → Bytes → Statement
about_graph p o = record {
  subject = some (iri_node []);
  predicate = some (iri_node p);
  object = some (iri_node o);
  graph = none;
}

-- What is read back of what `NewWriter` states: the type of the graph, and its base URI where it has
-- one, as the reader changes it.
abbrev pub header_statements : List ℕ → List Statement
header_statements [] = about_graph rdf_type relocatable_graph ∷ []
header_statements (c ∷ cs) =
    about_graph rdf_type relocatable_graph ∷ about_graph sw_base_uri (iri_text (c ∷ cs)) ∷ []

rdf_type-IsPlain : All IsPlain rdf_type
unfolding contains
rdf_type-IsPlain = ground arith

relocatable_graph-IsPlain : All IsPlain relocatable_graph
unfolding contains
relocatable_graph-IsPlain = ground arith

sw_base_uri-IsPlain : All IsPlain sw_base_uri
unfolding contains
sw_base_uri-IsPlain = ground arith

-- a triple of the header, with `rest` behind it
Yields-triple_iri :
    (p o : List ℕ) (t rest : Bytes) (sts : List Statement)
    → All IsPlain p
    → All IsScalar o
    → encode o ≡ t
    → Yields rest sts
    → Yields
        (text_of (write_triple_iri (any_string []) p t) ++ rest)
        (about_graph p (iri_text o) ∷ sts)
unfolding encode
Yields-triple_iri p o t rest sts hp ho e y =
    let text = triple_iri_text [] p o rest p t (encode-plain p hp) e in
    let read =
      Yields-line (iri []) p (resource (iri o)) none tt (plain-IsText p hp) ho tt rest sts y in
    rw text (
      subst
        (λ q.
          Yields (line (iri []) p (resource (iri o)) none rest) (about_graph q (iri_text o) ∷ sts))
        (iri_text-plain p hp) read)

title-IsComment : All IsCommentRune (codes " Relocatable SmartWeb Graph")
title-IsComment = ground arith

-- the comment and the type, before `rest`
Yields-type :
    (rest : Bytes) (sts : List Statement)
    → Yields rest sts
    → Yields
        (write_comment (codes " Relocatable SmartWeb Graph")
          ++ (text_of (write_triple_iri (any_string []) rdf_type relocatable_graph) ++ rest))
        (about_graph rdf_type relocatable_graph ∷ sts)
Yields-type rest sts y =
    let comment : encode (codes " Relocatable SmartWeb Graph")
        ≡ codes " Relocatable SmartWeb Graph" =
      unfold encode encode_rune in refl in
    let type_text = text_of (write_triple_iri (any_string []) rdf_type relocatable_graph) ++ rest in
    let type =
      Yields-triple_iri rdf_type relocatable_graph relocatable_graph rest sts rdf_type-IsPlain
        (plain-IsText relocatable_graph relocatable_graph-IsPlain)
        (encode-plain relocatable_graph relocatable_graph-IsPlain) y in
    let named : Yields type_text (about_graph rdf_type relocatable_graph ∷ sts) =
      subst (λ o. Yields type_text (about_graph rdf_type o ∷ sts))
        (iri_text-plain relocatable_graph relocatable_graph-IsPlain) type in
    subst
      (λ c. Yields (write_comment c ++ type_text) (about_graph rdf_type relocatable_graph ∷ sts))
      comment
      (Yields-comment (codes " Relocatable SmartWeb Graph") type_text
        (about_graph rdf_type relocatable_graph ∷ sts) title-IsComment named)

encode-ne-nil : (c : ℕ) (cs : List ℕ) → is_empty (encode (c ∷ cs)) ≡ false
unfolding encode encode_rune
encode-ne-nil c cs = ground arith

pub Yields-header_text :
    (base : List ℕ) (rest : Bytes) (sts : List Statement)
    → All IsScalar base
    → Yields rest sts
    → Yields (header_text (encode base) ++ rest) (header_statements base ++ sts)
unfolding header_text
Yields-header_text [] rest sts h y =
    unfold encode in rw (append-nil, append_assoc) (Yields-type rest sts y)
Yields-header_text (c ∷ cs) rest sts h y =
    let base =
      Yields-triple_iri sw_base_uri (c ∷ cs) (encode (c ∷ cs)) rest sts sw_base_uri-IsPlain h refl
        y in
    rw (encode-ne-nil c cs, append_assoc, append_assoc) (Yields-type _ _ base)
