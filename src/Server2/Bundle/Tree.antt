-- ===== src/Server2/Bundle/Tree.antt =====
-- Trees of graphs, subjects, predicates and objects, as an INSERT DATA block groups them: their text
-- and their triples.
use smart_web.Base.{
  not, List, [], ◌∷◌, ◌++◌, append_assoc, ◌≡◌, refl, ap, ◌∙◌, arith, Bytes, codes, equal, equal_iff,
  if◌then◌else◌, Bool-cases, inl, inr,
}

-- A triple in a graph, each part as it is encoded.
pub record Quad : Type 0 where
  pub in_graph : Bytes
  pub of_subject : Bytes
  pub of_predicate : Bytes
  pub an_object : Bytes

-- one or more
abbrev pub Some : Type 0 → Type 0
Some A = A × List A

-- a name, and one or more things under it
abbrev pub Under : Type 0 → Type 0
Under A = Bytes × Some A

abbrev pub Tree : Type 0
Tree = Some (Under (Under (Under Bytes)))

module _ {A : Type 0} (sep : Bytes) (render : A → Bytes) where
  abbrev rest_of : List A → Bytes
  rest_of [] = []
  rest_of (x ∷ xs) = sep ++ render x ++ rest_of xs

  -- with `sep` between two
  abbrev join : Some A → Bytes
  join (x, xs) = render x ++ rest_of xs

abbrev render_object : Bytes → Bytes
render_object o = o

abbrev render_predicate : Under Bytes → Bytes
render_predicate (p, os) = p ++ codes " " ++ join (codes ",\n    ") render_object os

abbrev render_subject : Under (Under Bytes) → Bytes
render_subject (s, ps) = codes "  " ++ s ++ codes " " ++ join (codes " ;\n   ") render_predicate ps

abbrev render_graph : Under (Under (Under Bytes)) → Bytes
render_graph (g, ss) = codes " GRAPH " ++ g ++ codes " {\n" ++ join (codes " .\n") render_subject ss

unfoldable pub render_block : Tree → Bytes
render_block t = codes "INSERT DATA {\n" ++ join (codes " }\n") render_graph t ++ codes " } }"

module _ {A : Type 0} (leaves : A → List Quad) where
  abbrev leaves_rest : List A → List Quad
  leaves_rest [] = []
  leaves_rest (x ∷ xs) = leaves x ++ leaves_rest xs

  abbrev leaves_of : Some A → List Quad
  leaves_of (x, xs) = leaves x ++ leaves_rest xs

abbrev object_quads : Bytes → Bytes → Bytes → Bytes → List Quad
object_quads g s p o = record { in_graph = g; of_subject = s; of_predicate = p; an_object = o } ∷ []

abbrev predicate_quads : Bytes → Bytes → Under Bytes → List Quad
predicate_quads g s (p, os) = leaves_of (object_quads g s p) os

abbrev subject_quads : Bytes → Under (Under Bytes) → List Quad
subject_quads g (s, ps) = leaves_of (predicate_quads g s) ps

abbrev graph_quads : Under (Under (Under Bytes)) → List Quad
graph_quads (g, ss) = leaves_of (subject_quads g) ss

-- the triples of a tree, from left to right
unfoldable pub tree_quads : Tree → List Quad
tree_quads t = leaves_of graph_quads t

unfoldable pub first : Tree → Quad
first ((g, ((s, ((p, (o, os)), ps)), ss)), gs) = record {
  in_graph = g;
  of_subject = s;
  of_predicate = p;
  an_object = o;
}

unfoldable pub leaf_predicate : Quad → Under Bytes
leaf_predicate q = (q.of_predicate, (q.an_object, []))

unfoldable pub leaf_subject : Quad → Under (Under Bytes)
unfolding leaf_predicate
leaf_subject q = (q.of_subject, (leaf_predicate q, []))

unfoldable pub leaf_graph : Quad → Under (Under (Under Bytes))
unfolding leaf_subject
leaf_graph q = (q.in_graph, (leaf_subject q, []))

-- A triple in front of a tree: it joins the first group of each level whose name it has.
unfoldable pub add : Quad → Tree → Tree
unfolding leaf_graph leaf_subject leaf_predicate
add q ((g, ((s, ((p, (o, os)), ps)), ss)), gs) =
    if not (equal q.in_graph g)
    then (leaf_graph q, (g, ((s, ((p, (o, os)), ps)), ss)) ∷ gs)
    else if not (equal q.of_subject s)
    then ((g, (leaf_subject q, (s, ((p, (o, os)), ps)) ∷ ss)), gs)
    else if not (equal q.of_predicate p)
    then ((g, ((s, (leaf_predicate q, (p, (o, os)) ∷ ps)), ss)), gs)
    else ((g, ((s, ((p, (q.an_object, o ∷ os)), ps)), ss)), gs)

unfoldable pub tree_of : Quad → List Quad → Tree
unfolding leaf_graph
tree_of q [] = (leaf_graph q, [])
tree_of q (r ∷ qs) = add q (tree_of r qs)

tree_quads-add : (q : Quad) (t : Tree) → tree_quads (add q t) ≡ q ∷ tree_quads t
unfolding tree_quads add
tree_quads-add q ((g, ((s, ((p, (o, os)), ps)), ss)), gs) =
    ground (arith, equal_iff q.in_graph g, equal_iff q.of_subject s, equal_iff q.of_predicate p)

pub tree_quads-tree_of : (q : Quad) (qs : List Quad) → tree_quads (tree_of q qs) ≡ q ∷ qs
unfolding tree_of
tree_quads-tree_of q [] = unfold tree_quads in refl
tree_quads-tree_of q (r ∷ qs) =
    tree_quads-add q (tree_of r qs) ∙ ap (λ x. q ∷ x) (tree_quads-tree_of r qs)

first-add : (q : Quad) (t : Tree) → first (add q t) ≡ q
unfolding first add
first-add q ((g, ((s, ((p, (o, os)), ps)), ss)), gs) =
    ground (arith, equal_iff q.in_graph g, equal_iff q.of_subject s, equal_iff q.of_predicate p)

pub first-tree_of : (q : Quad) (qs : List Quad) → first (tree_of q qs) ≡ q
unfolding tree_of
first-tree_of q [] = unfold first in refl
first-tree_of q (r ∷ qs) = first-add q (tree_of r qs)

-- what a tree's text has behind its first object
unfoldable pub after : Tree → Bytes
after ((g, ((s, ((p, (o, os)), ps)), ss)), gs) =
    rest_of (codes ",\n    ") render_object os
    ++ rest_of (codes " ;\n   ") render_predicate ps
    ++ rest_of (codes " .\n") render_subject ss
    ++ rest_of (codes " }\n") render_graph gs
    ++ codes " } }"

-- from the object of `q` to the object of `r`, the triple behind it
unfoldable pub gap : Quad → Quad → Bytes
gap q r =
    if not (equal q.in_graph r.in_graph)
    then codes " }\n GRAPH "
      ++ r.in_graph
      ++ codes " {\n  "
      ++ r.of_subject
      ++ codes " "
      ++ r.of_predicate
      ++ codes " "
      ++ r.an_object
    else if not (equal q.of_subject r.of_subject)
    then codes " .\n  " ++ r.of_subject ++ codes " " ++ r.of_predicate ++ codes " " ++ r.an_object
    else if not (equal q.of_predicate r.of_predicate)
    then codes " ;\n   " ++ r.of_predicate ++ codes " " ++ r.an_object
    else codes ",\n    " ++ r.an_object

pub after-add : (q : Quad) (t : Tree) → after (add q t) ≡ gap q (first t) ++ after t
unfolding after add gap first
after-add q ((g, ((s, ((p, (o, os)), ps)), ss)), gs) = elim (Bool-cases (equal q.in_graph g)) [
  | inr h ↦ rw h (simp append_assoc)
  | inl h ↦ rw h (elim (Bool-cases (equal q.of_subject s)) [
    | inr k ↦ rw k (simp append_assoc)
    | inl k ↦ rw k (elim (Bool-cases (equal q.of_predicate p)) [
      | inr l ↦ rw l (simp append_assoc)
      | inl l ↦ rw l (simp append_assoc)
    ])
  ])
]

-- the text up to the first object, and behind it
pub render_block-first :
    (t : Tree)
    → render_block t
      ≡ codes "INSERT DATA {\n GRAPH "
        ++ (first t).in_graph
        ++ codes " {\n  "
        ++ (first t).of_subject
        ++ codes " "
        ++ (first t).of_predicate
        ++ codes " "
        ++ (first t).an_object
        ++ after t
unfolding render_block first after
render_block-first ((g, ((s, ((p, (o, os)), ps)), ss)), gs) = simp append_assoc
