-- ===== src/Nquads/Reader/Total/Statements.antt =====
-- The methods of the reader, up to `ReadStatement`.
use smart_web.Base.{
  ℕ, suc, ◌≤◌, Bool, true, false, not, ◌&&◌, Option, none, some, [], ◌∷◌, ◌≡◌, ◌≢◌, ◌⊎◌, inl, inr,
  refl, arith, Bytes, codes, equal, length, ◌==◌, if◌then◌else◌, Bool-cases, ltb,
}
use smart_web.Nquads.Node.{Node, iri_node}
use smart_web.Nquads.Statement.{Statement}
use smart_web.Nquads.Stream.{
  Error, expected_predicate, expected_object, expected_final_dot, expected_literal_type,
  out_of_fuel, Result, ok, err, Reader, M, pure, read_byte, read_bytes, after, peek,
}
use smart_web.Nquads.Reader.{
  read_spaces, read_delimited, read_iri, read_blank, literal_type, literal_suffix, first_is,
  read_literal, or_else, read_subject, read_object, expect, set_eof_is_error, statement_rest,
  statement_of, statement_body, statement_result, read_statement, blank_label, lang_loop, is_eof,
}
use smart_web.Nquads.Reader.Total.{
  Ends, IsTotal, bind-IsTotal, pure-IsTotal, fail-IsTotal, if-IsTotal, read_byte-IsTotal,
}
use smart_web.Nquads.Reader.Total.Loops.{
  read_spaces-IsTotal, read_delimited-IsTotal, read_label-IsTotal, read_tag-IsTotal, look-IsTotal,
}

peek-IsTotal : (n : ℕ) → IsTotal (peek n)
unfolding peek
peek-IsTotal n r w = elim (Bool-cases (ltb (length r.input) n)) [
  | inl e ↦ rw e (record { total = λ q. w (cc); shrinks = omega arith; fault_kept = refl })
  | inr e ↦ rw e (record { total = λ q. cc; shrinks = omega arith; fault_kept = refl })
]

read_iri-IsTotal : IsTotal read_iri
unfolding read_iri
read_iri-IsTotal = bind-IsTotal read_spaces _ read_spaces-IsTotal λ _.
    look-IsTotal (λ c. not (c == b'<')) (pure none) _ (pure-IsTotal none)
      λ c. bind-IsTotal (read_delimited b'>') _ (read_delimited-IsTotal b'>') λ uri. pure-IsTotal _

-- `ReadBytes`: the bytes behind the delimiter are fewer, and none are left where it is missing.
abbrev AfterCase : ℕ → Bytes → Type 0
AfterCase d s = (after d s ≡ none) ⊎ ((t : Bytes) × (after d s ≡ some t) × (length t ≤ length s))

after_case : (d : ℕ) (s : Bytes) → AfterCase d s
unfolding after
after_case d [] = inl refl
after_case d (b ∷ s) = elim (Bool-cases (b == d)) [
  | inl e ↦ inr (s, rw e, omega arith)
  | inr e ↦ rw e (longer (after_case d s))
]
  where
    longer :
        AfterCase d s
        → (after d s ≡ none) ⊎ ((t : Bytes) × (after d s ≡ some t) × (length t ≤ suc (length s)))
    longer (inl n) = inl n
    longer (inr (t, q, l)) = inr (t, q, omega arith)

read_bytes-IsTotal : (d : ℕ) → IsTotal (read_bytes d)
unfolding read_bytes
read_bytes-IsTotal d r w = elim (after_case d r.input) [
  | inl e ↦ rw e (record { total = λ q. w (cc); shrinks = omega arith; fault_kept = refl })
  | inr (t, e, l) ↦ rw e (record { total = λ q. cc; shrinks = omega arith; fault_kept = refl })
]

read_blank-IsTotal : IsTotal read_blank
unfolding read_blank
read_blank-IsTotal = bind-IsTotal read_spaces _ read_spaces-IsTotal λ _.
    bind-IsTotal (peek 2) _ (peek-IsTotal 2) λ prefix.
      if-IsTotal (not (equal prefix (codes "_:"))) _ _ (pure-IsTotal none) (
        bind-IsTotal (read_bytes b':') _ (read_bytes-IsTotal b':') λ _.
          bind-IsTotal (λ r. blank_label (suc (length r.input)) [] r) _ read_label-IsTotal
            λ res. pure-IsTotal _)

literal_type-IsTotal : (content : Bytes) (t : Option Node) → IsTotal (literal_type content t)
unfolding literal_type
literal_type-IsTotal content (some (iri_node t)) = pure-IsTotal _
literal_type-IsTotal content _ = fail-IsTotal expected_literal_type (λ q. cc)

literal_suffix-IsTotal : (content : Bytes) → IsTotal (literal_suffix content)
unfolding literal_suffix
literal_suffix-IsTotal content = bind-IsTotal read_spaces _ read_spaces-IsTotal λ _.
    bind-IsTotal (peek 2) _ (peek-IsTotal 2) λ buf.
      if-IsTotal (equal buf (codes "^^")) _ _
        (bind-IsTotal read_spaces _ read_spaces-IsTotal
          λ _. bind-IsTotal read_iri _ read_iri-IsTotal (literal_type-IsTotal content))
        (if-IsTotal (first_is b'@' buf) _ _
          (bind-IsTotal read_spaces _ read_spaces-IsTotal λ _.
            bind-IsTotal (λ r. lang_loop (suc (length r.input)) [] r) _ read_tag-IsTotal
              λ tag. pure-IsTotal _)
          (pure-IsTotal _))

read_literal-IsTotal : IsTotal read_literal
unfolding read_literal
read_literal-IsTotal = bind-IsTotal read_spaces _ read_spaces-IsTotal λ _.
    look-IsTotal (λ c. not (c == b'"')) (pure none) _ (pure-IsTotal none)
      λ c. bind-IsTotal (read_delimited b'"') _ (read_delimited-IsTotal b'"') literal_suffix-IsTotal

or_else-IsTotal : (n : Option Node) (m : M (Option Node)) → IsTotal m → IsTotal (or_else n m)
or_else-IsTotal none m h = h
or_else-IsTotal (some n) m h = pure-IsTotal (some n)

read_subject-IsTotal : IsTotal read_subject
unfolding read_subject
read_subject-IsTotal = bind-IsTotal read_spaces _ read_spaces-IsTotal λ _.
    bind-IsTotal read_iri _ read_iri-IsTotal λ n. or_else-IsTotal n read_blank read_blank-IsTotal

read_object-IsTotal : IsTotal read_object
unfolding read_object
read_object-IsTotal =
    bind-IsTotal read_subject _ read_subject-IsTotal
      λ n. or_else-IsTotal n read_literal read_literal-IsTotal

expect-IsTotal : (e : Error) (n : Option Node) → e ≢ out_of_fuel → IsTotal (expect e n)
expect-IsTotal e none h = fail-IsTotal e h
expect-IsTotal e (some n) h = pure-IsTotal n

set_eof_is_error-IsTotal : (b : Bool) → IsTotal (set_eof_is_error b)
set_eof_is_error-IsTotal b r w = record {
  total = λ q. cc;
  shrinks = omega arith;
  fault_kept = refl;
}

statement_rest-IsTotal : (s : Node) → IsTotal (statement_rest s)
unfolding statement_rest
statement_rest-IsTotal s =
    bind-IsTotal (set_eof_is_error true) _ (set_eof_is_error-IsTotal true) λ _.
      bind-IsTotal read_iri _ read_iri-IsTotal λ p.
        bind-IsTotal (expect expected_predicate p) _ (expect-IsTotal _ p (λ q. cc)) λ p'.
          bind-IsTotal read_object _ read_object-IsTotal λ o.
            bind-IsTotal (expect expected_object o) _ (expect-IsTotal _ o (λ q. cc)) λ o'.
              bind-IsTotal read_spaces _ read_spaces-IsTotal λ _.
                bind-IsTotal (peek 1) _ (peek-IsTotal 1) λ _.
                  bind-IsTotal read_iri _ read_iri-IsTotal λ g.
                    bind-IsTotal read_spaces _ read_spaces-IsTotal λ _.
                      bind-IsTotal read_byte _ read_byte-IsTotal λ c.
                        if-IsTotal (not (c == b'.')) _ _ (fail-IsTotal expected_final_dot (λ q. cc))
                          (bind-IsTotal (set_eof_is_error false) _ (set_eof_is_error-IsTotal false)
                            λ _. pure-IsTotal (
                              some (record {
                                subject = some s;
                                predicate = some p';
                                object = some o';
                                graph = g;
                              })))

statement_of-IsTotal : (n : Option Node) → IsTotal (statement_of n)
statement_of-IsTotal none = pure-IsTotal none
statement_of-IsTotal (some s) = statement_rest-IsTotal s

statement_body-IsTotal : IsTotal statement_body
unfolding statement_body
statement_body-IsTotal =
    bind-IsTotal (set_eof_is_error false) _ (set_eof_is_error-IsTotal false)
      λ _. bind-IsTotal read_subject _ read_subject-IsTotal statement_of-IsTotal

statement_result-Ends :
    (r : Reader) (x : Result (Option Statement) × Reader) → Ends r x → Ends r (statement_result x)
statement_result-Ends r (ok none, q) e = record {
  total = λ y. cc;
  shrinks = e.shrinks;
  fault_kept = e.fault_kept;
}
statement_result-Ends r (ok (some st), q) e = e
statement_result-Ends r (err x, q) e = record {
  total = λ y. e.total (error_kept x (is_eof x && not q.eof_is_error) y);
  shrinks = e.shrinks;
  fault_kept = e.fault_kept;
}
  where
    error_kept :
        (x : Error) (b : Bool)
        → ◌≡◌ {A = Result (Option Statement)} (if b then ok none else err x) (err out_of_fuel)
        → ◌≡◌ {A = Result (Option Statement)} (err x) (err out_of_fuel)
    error_kept x true y = cc
    error_kept x false y = y

-- `ReadStatement` on any input ends by itself: no loop of the model runs out of fuel. It leaves at
-- most the bytes that it found, and keeps the source. The source's own error is not `out_of_fuel`.
pub read_statement-Ends : (r : Reader) → r.fault ≢ out_of_fuel → Ends r (read_statement r)
unfolding read_statement
read_statement-Ends r w = statement_result-Ends r (statement_body r) (statement_body-IsTotal r w)
