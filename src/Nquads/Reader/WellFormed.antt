-- ===== src/Nquads/Reader/WellFormed.antt =====
-- The shape of every statement that the reader returns.
use smart_web.Base.{
  suc, Bool, true, false, not, Option, none, some, [], ◌≡◌, codes, equal, ◌==◌, if◌then◌else◌,
  length, ◌&&◌,
}
use smart_web.Nquads.Node.{Node, iri_node, blank_node, literal_node}
use smart_web.Nquads.Statement.{Statement}
use smart_web.Nquads.Stream.{
  Error, expected_predicate, expected_object, expected_final_dot, Result, ok, err, Reader, M,
  bind_result, pure, fail, mark, read_rune, read_byte, read_bytes, peek, ◌>>=◌,
}
use smart_web.Nquads.Reader.{
  read_spaces, read_delimited, read_iri, read_blank, or_else, read_subject, read_object, expect,
  set_eof_is_error, statement_rest, statement_of, statement_body, statement_result, read_statement,
  is_eof, blank_label,
}

-- A method whose value, where it has one, satisfies `P`.
abbrev ValueIs : {A : Type 0} → (A → Type 0) → Result A × Reader → Type 0
ValueIs P (ok a, r) = P a
ValueIs P (err e, r) = Unit

record Holds {A : Type 0} (P : A → Type 0) (x : Result A × Reader) : Type 0 where
  value : ValueIs P x

abbrev Yields : {A : Type 0} → (A → Type 0) → M A → Type 0
Yields P m = (r : Reader) → Holds P (m r)

pure-Yields : {A : Type 0} (P : A → Type 0) (a : A) → P a → Yields P (pure a)
pure-Yields P a h r = record { value = h }

fail-Yields : {A : Type 0} (P : A → Type 0) (e : Error) → Yields P (fail e)
fail-Yields P e r = record { value = tt }

module _ {A B : Type 0} (Q : B → Type 0) where
  bind_result-Holds :
      (P : A → Type 0) (x : Result A × Reader) (f : A → M B)
      → Holds P x
      → ((a : A) → P a → Yields Q (f a))
      → Holds Q (bind_result x f)
  bind_result-Holds P (ok a, r) f h k = k a h.value r
  bind_result-Holds P (err e, r) f h k = record { value = tt }

  bind-Yields :
      (P : A → Type 0) (m : M A) (f : A → M B)
      → Yields P m
      → ((a : A) → P a → Yields Q (f a))
      → Yields Q (m >>= f)
  bind-Yields P m f h k r = bind_result-Holds P (m r) f (h r) k

any_value : {A : Type 0} (x : Result A × Reader) → Holds (λ (a : A). Unit {0}) x
any_value (ok a, q) = record { value = tt }
any_value (err e, q) = record { value = tt }

-- A step whose value does not matter.
then-Yields :
    {A B : Type 0} (Q : B → Type 0) (m : M A) (f : A → M B)
    → ((a : A) → Yields Q (f a))
    → Yields Q (m >>= f)
then-Yields Q m f k = bind-Yields Q (λ _. Unit {0}) m f (λ r. any_value (m r)) (λ a _. k a)

if-Yields :
    {A : Type 0} (Q : A → Type 0) (b : Bool) (m n : M A)
    → Yields Q m
    → Yields Q n
    → Yields Q (if b then m else n)
if-Yields Q true m n h k = h
if-Yields Q false m n h k = k

abbrev pub IsIri : Node → Type 0
IsIri (iri_node s) = Unit
IsIri _ = ⊥

abbrev pub IsLiteral : Node → Type 0
IsLiteral (literal_node lit) = Unit
IsLiteral _ = ⊥

abbrev AbsentOr : (Node → Type 0) → Option Node → Type 0
AbsentOr P none = Unit
AbsentOr P (some n) = P n

abbrev PresentAnd : (Node → Type 0) → Option Node → Type 0
PresentAnd P none = ⊥
PresentAnd P (some n) = P n

-- The subject is an IRI or a blank node, the predicate an IRI, the object any node, and the graph
-- an IRI or none.
pub record IsWellFormed (st : Statement) : Type 0 where
  pub has_subject : PresentAnd (λ n. ¬ IsLiteral n) st.subject
  pub has_predicate : PresentAnd IsIri st.predicate
  pub has_object : PresentAnd (λ _. Unit) st.object
  pub graph_is_iri : AbsentOr IsIri st.graph

read_iri-Yields : Yields (AbsentOr IsIri) read_iri
unfolding read_iri
read_iri-Yields = then-Yields _ read_spaces _ λ _. then-Yields _ mark _ λ before.
    then-Yields _ read_rune _ λ c.
      if-Yields (AbsentOr IsIri) (not (c == b'<')) _ _ (λ r. record { value = tt })
        (then-Yields _ (read_delimited b'>') _
          λ uri. pure-Yields (AbsentOr IsIri) (some (iri_node uri)) tt)

read_blank-Yields : Yields (AbsentOr (λ n. ¬ IsLiteral n)) read_blank
unfolding read_blank
read_blank-Yields = then-Yields _ read_spaces _ λ _. then-Yields _ (peek 2) _ λ prefix.
    if-Yields (AbsentOr (λ n. ¬ IsLiteral n)) (not (equal prefix (codes "_:"))) _ _
      (λ r. record { value = tt })
      (then-Yields _ (read_bytes b':') _ λ _.
        then-Yields _ (λ r. blank_label (suc (length r.input)) [] r) _
          λ res. pure-Yields (AbsentOr (λ n. ¬ IsLiteral n)) (some (blank_node res)) (λ l. l))

or_else-Yields :
    (P : Node → Type 0) (n : Option Node) (m : M (Option Node))
    → AbsentOr P n
    → Yields (AbsentOr P) m
    → Yields (AbsentOr P) (or_else n m)
or_else-Yields P none m h k = k
or_else-Yields P (some n) m h k = pure-Yields (AbsentOr P) (some n) h

iri-not-IsLiteral : (n : Option Node) → AbsentOr IsIri n → AbsentOr (λ m. ¬ IsLiteral m) n
iri-not-IsLiteral none h = tt
iri-not-IsLiteral (some (iri_node s)) h = λ l. l
iri-not-IsLiteral (some (blank_node s)) h = λ l. l
iri-not-IsLiteral (some (literal_node s)) h = absurd h

read_subject-Yields : Yields (AbsentOr (λ n. ¬ IsLiteral n)) read_subject
unfolding read_subject
read_subject-Yields = then-Yields _ read_spaces _ λ _.
    bind-Yields _ (AbsentOr IsIri) read_iri _ read_iri-Yields λ n h.
      or_else-Yields (λ m. ¬ IsLiteral m) n read_blank (iri-not-IsLiteral n h) read_blank-Yields

expect-Yields :
    (P : Node → Type 0) (e : Error) (n : Option Node) → AbsentOr P n → Yields P (expect e n)
expect-Yields P e none h = fail-Yields P e
expect-Yields P e (some n) h = pure-Yields P n h

any_node : (n : Option Node) → AbsentOr (λ _. Unit) n
any_node none = tt
any_node (some n) = tt

abbrev ReturnsWellFormed : Option Statement → Type 0
ReturnsWellFormed none = Unit
ReturnsWellFormed (some st) = IsWellFormed st

statement_rest-Yields : (s : Node) → ¬ IsLiteral s → Yields ReturnsWellFormed (statement_rest s)
unfolding statement_rest
statement_rest-Yields s hs = then-Yields _ (set_eof_is_error true) _ λ _.
    bind-Yields _ (AbsentOr IsIri) read_iri _ read_iri-Yields λ p hp.
      bind-Yields _ IsIri (expect expected_predicate p) _ (expect-Yields IsIri _ p hp) λ p' hp'.
        then-Yields _ read_object _ λ o. then-Yields _ (expect expected_object o) _ λ o'.
          then-Yields _ read_spaces _ λ _. then-Yields _ (peek 1) _ λ _.
            bind-Yields _ (AbsentOr IsIri) read_iri _ read_iri-Yields λ g hg.
              then-Yields _ read_spaces _ λ _. then-Yields _ read_byte _ λ c.
                if-Yields ReturnsWellFormed (not (c == b'.')) _ _
                  (fail-Yields ReturnsWellFormed expected_final_dot)
                  (then-Yields _ (set_eof_is_error false) _ λ _.
                    pure-Yields ReturnsWellFormed
                      (some (record {
                        subject = some s;
                        predicate = some p';
                        object = some o';
                        graph = g;
                      }))
                      (record {
                        has_subject = hs;
                        has_predicate = hp';
                        has_object = tt;
                        graph_is_iri = hg;
                      }))

statement_of-Yields :
    (n : Option Node) → AbsentOr (λ m. ¬ IsLiteral m) n → Yields ReturnsWellFormed (statement_of n)
statement_of-Yields none h = pure-Yields ReturnsWellFormed none tt
statement_of-Yields (some s) h = statement_rest-Yields s h

statement_body-Yields : Yields ReturnsWellFormed statement_body
unfolding statement_body
statement_body-Yields = then-Yields _ (set_eof_is_error false) _ λ _.
    bind-Yields _ (AbsentOr (λ m. ¬ IsLiteral m)) read_subject _ read_subject-Yields
      statement_of-Yields

statement_result-ok :
    (x : Result (Option Statement) × Reader) {st : Statement}
    → Holds ReturnsWellFormed x
    → (statement_result x).0 ≡ ok (some st)
    → IsWellFormed st
statement_result-ok (ok none, r) h e = cc
statement_result-ok (ok (some t), r) h e = let e' : t ≡ _ = cc in rw e' at h.value
statement_result-ok (err x, r) h e = absurd (no_value (is_eof x && not r.eof_is_error) e)
  where
    no_value :
        {st : Statement} (b : Bool)
        → ◌≡◌ {A = Result (Option Statement)} (if b then ok none else err x) (ok (some st))
        → ⊥
    no_value true e = cc
    no_value false e = cc

-- Every statement that `ReadStatement` returns has an IRI or a blank node as its subject, an IRI as
-- its predicate, an object, and an IRI or nothing as its graph, whatever the input is.
pub read_statement-IsWellFormed :
    (r : Reader) {st : Statement} → (read_statement r).0 ≡ ok (some st) → IsWellFormed st
unfolding read_statement
read_statement-IsWellFormed r e = statement_result-ok (statement_body r) (statement_body-Yields r) e
