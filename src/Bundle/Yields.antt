-- ===== src/Bundle/Yields.antt =====
-- The loop of GraphStatements on a text of empty lines, comments and lines of the writer.
use smart_web.Base.{
  ℕ, zero, suc, ◌+◌, ◌≤◌, ◌<◌, false, Option, List, [], ◌∷◌, ◌++◌, ◌≡◌, refl, arith, All, Bytes,
  length, length-append,
}
use smart_web.Utf8.{IsScalar, encode}
use smart_web.Nquads.Node.{encode_iri_or_blank, encode_iri, encode_blank, encode_any}
use smart_web.Nquads.Statement.{Statement}
use smart_web.Nquads.Writer.{write_comment}
use smart_web.Nquads.Stream.{Reader, eof}
use smart_web.Nquads.Reader.{read_spaces, read_subject, statement_body, read_statement}
use smart_web.Nquads.Reader.Steps.{at}
use smart_web.Nquads.RoundTrip.Terms.{IsInk-lt}
use smart_web.Nquads.RoundTrip.Blanks.{IsInk-underscore}
use smart_web.Nquads.RoundTrip.Objects.{
  Resource, iri, blank, Term, IsResource, IsTerm, any_resource, any_term,
}
use smart_web.Nquads.RoundTrip.Quads.{
  line, line_end, IsGraph, statement, with_eof, read_statement-line,
}
use smart_web.Bundle.Reader.{Channel, closed, sent, statements, statements_from}
use smart_web.Bundle.Lines.{Leads, IsBare, Leads-bare, Leads-newline, Leads-comment, IsCommentRune}

-- The channel that yields these statements and is closed.
abbrev pub sent_all : List Statement → Channel
sent_all [] = closed
sent_all (st ∷ sts) = sent st (sent_all sts)

abbrev Runs : Bytes → List Statement → Type 0
Runs s sts =
    (fuel : ℕ) (r : Reader)
    → r.fault ≡ eof
    → length s < fuel
    → statements fuel (at s r) ≡ sent_all sts

-- The loop makes these statements of a text, and then finds its end.
pub record Yields (s : Bytes) (sts : List Statement) : Type 0 where
  pub front : Bytes
  pub leads : Leads s front
  pub shorter : length front ≤ length s
  pub runs : Runs front sts

read_statement-Leads :
    (s t : Bytes) (r : Reader) → Leads s t → read_statement (at s r) ≡ read_statement (at t r)
unfolding read_statement statement_body read_subject
read_statement-Leads s t r h =
    let spaces_same : read_spaces (at s (with_eof false r))
        ≡ read_spaces (at t (with_eof false r)) =
      unfold read_spaces in h (suc (length s)) (with_eof false r) (omega arith) in
    rw spaces_same refl

pub Yields-Runs : (s : Bytes) (sts : List Statement) → Yields s sts → Runs s sts
unfolding statements
Yields-Runs s sts y zero r e m = absurd (omega arith)
Yields-Runs s sts y (suc fuel) r e m =
    rw (read_statement-Leads s y.front r y.leads)
      (y.runs (suc fuel) r e (omega (arith, y.shorter, m)))

Runs-nil : Runs [] []
unfolding statements
Runs-nil zero r e m = absurd (omega arith)
Runs-nil (suc fuel) r e m =
    unfold statements_from read_statement statement_body read_subject read_spaces in rw e refl

pub Yields-nil : Yields [] []
Yields-nil = record { front = []; leads = Leads-bare [] tt; shorter = omega arith; runs = Runs-nil }

pub Yields-newline : (s : Bytes) (sts : List Statement) → Yields s sts → Yields (b'\n' ∷ s) sts
Yields-newline s sts y = record {
  front = y.front;
  leads = Leads-newline s y.front y.leads;
  shorter = omega (arith, y.shorter);
  runs = y.runs;
}

pub Yields-comment :
    (cs : List ℕ) (s : Bytes) (sts : List Statement)
    → All IsCommentRune cs
    → Yields s sts
    → Yields (write_comment (encode cs) ++ s) sts
Yields-comment cs s sts h y = record {
  front = y.front;
  leads = Leads-comment cs s y.front h y.leads;
  shorter = omega (arith, y.shorter, length-append {0} (write_comment (encode cs)) s);
  runs = y.runs;
}

resource-IsBare :
    (s : Resource) (rest : Bytes) → IsBare (encode_iri_or_blank (any_resource s) ++ rest)
unfolding encode_iri_or_blank encode_iri encode_blank
resource-IsBare (iri rs) rest = IsInk-lt
resource-IsBare (blank rs) rest = IsInk-underscore

module _ (s : Resource) (p : List ℕ) (o : Term) (g : Option (List ℕ)) (hs : IsResource s)
    (hp : All IsScalar p) (ho : IsTerm o) (hg : IsGraph g) where
  line-length : (rest : Bytes) → length rest + 2 ≤ length (line s p o g rest)
  line-length rest =
      let object = encode_any (any_term o) ++ b' ' ∷ (line_end g ++ rest) in
      let predicate = encode_iri (encode p) ++ b' ' ∷ object in
      omega (
        arith,
        length-append {0} (line_end g) rest,
        length-append {0} (encode_any (any_term o)) (b' ' ∷ (line_end g ++ rest)),
        length-append {0} (encode_iri (encode p)) (b' ' ∷ object),
        length-append {0} (encode_iri_or_blank (any_resource s)) (b' ' ∷ predicate),
      )

  Runs-line :
      (rest : Bytes) (sts : List Statement)
      → Yields rest sts
      → Runs (line s p o g rest) (statement s p o g ∷ sts)
  unfolding statements statements_from
  Runs-line rest sts y zero r e m = absurd (omega arith)
  Runs-line rest sts y (suc fuel) r e m =
      let next =
        Yields-Runs (b'\n' ∷ rest) sts (Yields-newline rest sts y) fuel (with_eof false r) e
          (omega (arith, m, line-length rest)) in
      rw (read_statement-line s p o g rest hs hp ho hg r, next) refl

  pub Yields-line :
      (rest : Bytes) (sts : List Statement)
      → Yields rest sts
      → Yields (line s p o g rest) (statement s p o g ∷ sts)
  Yields-line rest sts y = record {
    front = line s p o g rest;
    leads = Leads-bare (line s p o g rest) (resource-IsBare s _);
    shorter = omega arith;
    runs = Runs-line rest sts y;
  }
