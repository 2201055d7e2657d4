-- ===== src/Server2/Bundle/Grouped.antt =====
-- server2/bundle.go: the block that `insertData` writes is the text of a tree of its triples.
use smart_web.Base.{
  is_empty_ne, Bool, true, false, List, [], ◌∷◌, ◌++◌, append_assoc, ◌≡◌, ◌≢◌, refl, ap, ◌∙◌, Bytes,
  codes, equal, equal_iff, All, Bool-cases, inl, inr,
}
use smart_web.Server2.Bundle.Tree.{
  Quad, Tree, render_block, render_block-first, tree_quads, tree_of, after, gap, after-add,
  tree_quads-tree_of, first-tree_of,
}
use smart_web.Server2.Bundle.Inserter.{
  Inserter, new_inserter, insert_data, terminate, close_statement, close_graph, close_subject,
  close_predicate, close_object, open_graph, open_subject, open_predicate, open_kind, insert_block,
}

unfoldable pub IsEncoded : Quad → Type 0
IsEncoded q = (q.in_graph ≢ []) × (q.of_subject ≢ []) × (q.of_predicate ≢ [])

abbrev pub insert : Quad → Inserter → Inserter
insert q i = insert_data q.of_subject q.of_predicate q.an_object q.in_graph i

abbrev pub insert_quads : List Quad → Inserter → Inserter
insert_quads [] i = i
insert_quads (q ∷ qs) i = insert_quads qs (insert q i)

-- an inserter in a block
abbrev within_block : Bytes → Bytes → Bytes → Bytes → Bool → Inserter
within_block t g s p b = record {
  statements = t;
  current_statement = insert_block;
  current_graph = g;
  current_subject = s;
  current_predicate = p;
  in_object = b;
}

-- the inserter behind the object of `q`
abbrev behind : Bytes → Quad → Inserter
behind t q = within_block t q.in_graph q.of_subject q.of_predicate true

equal-nil : (s : Bytes) → s ≢ [] → equal [] s ≡ false
unfolding equal
equal-nil [] h = absurd (h refl)
equal-nil (c ∷ s) h = refl

open_graph-new :
    (t g s p h : Bytes) (b : Bool)
    → g ≢ []
    → equal g h ≡ false
    → open_graph h (within_block t g s p b)
      ≡ within_block (t ++ codes " }\n GRAPH " ++ h ++ codes " {\n") h [] [] false
unfolding open_graph close_graph
open_graph-new t g s p h b ne differ = rw (differ, is_empty_ne g ne) (simp append_assoc)

open_subject-new :
    (t g s p h : Bytes) (b : Bool)
    → s ≢ []
    → equal s h ≡ false
    → open_subject h (within_block t g s p b)
      ≡ within_block (t ++ codes " .\n  " ++ h ++ codes " ") g h [] false
unfolding open_subject close_subject
open_subject-new t g s p h b ne differ = rw (differ, is_empty_ne s ne) (simp append_assoc)

open_predicate-new :
    (t g s p h : Bytes) (b : Bool)
    → p ≢ []
    → equal p h ≡ false
    → open_predicate h (within_block t g s p b)
      ≡ within_block (t ++ codes " ;\n   " ++ h ++ codes " ") g s h false
unfolding open_predicate close_predicate
open_predicate-new t g s p h b ne differ = rw (differ, is_empty_ne p ne) (simp append_assoc)

open_graph-same :
    (t g s p h : Bytes) (b : Bool)
    → equal g h ≡ true
    → open_graph h (within_block t g s p b) ≡ within_block t h s p b
unfolding open_graph
open_graph-same t g s p h b same =
    rw same (ap (λ x. within_block t x s p b) ((equal_iff g h).0 same))

open_subject-same :
    (t g s p h : Bytes) (b : Bool)
    → equal s h ≡ true
    → open_subject h (within_block t g s p b) ≡ within_block t g h p b
unfolding open_subject
open_subject-same t g s p h b same =
    rw same (ap (λ x. within_block t g x p b) ((equal_iff s h).0 same))

open_predicate-same :
    (t g s p h : Bytes) (b : Bool)
    → equal p h ≡ true
    → open_predicate h (within_block t g s p b) ≡ within_block t g s h b
unfolding open_predicate
open_predicate-same t g s p h b same =
    rw same (ap (λ x. within_block t g s x b) ((equal_iff p h).0 same))

-- the first graph of a block, the first subject of a graph, and the first predicate of a subject
open_graph-first :
    (t h : Bytes)
    → h ≢ []
    → open_graph h (within_block t [] [] [] false)
      ≡ within_block (t ++ codes " GRAPH " ++ h ++ codes " {\n") h [] [] false
unfolding open_graph close_graph
open_graph-first t h ne = rw (equal-nil h ne) (simp append_assoc)

open_subject-first :
    (t g h : Bytes)
    → h ≢ []
    → open_subject h (within_block t g [] [] false)
      ≡ within_block (t ++ codes "  " ++ h ++ codes " ") g h [] false
unfolding open_subject close_subject
open_subject-first t g h ne = rw (equal-nil h ne) (simp append_assoc)

open_predicate-first :
    (t g s h : Bytes)
    → h ≢ []
    → open_predicate h (within_block t g s [] false)
      ≡ within_block (t ++ h ++ codes " ") g s h false
unfolding open_predicate close_predicate
open_predicate-first t g s h ne = rw (equal-nil h ne) (simp append_assoc)

insert-behind :
    (t : Bytes) (q r : Quad)
    → IsEncoded q
    → IsEncoded r
    → insert r (behind t q) ≡ behind (t ++ gap q r) r
unfolding insert_data open_kind close_object gap IsEncoded
insert-behind t q r (qg, qs, qp) (rg, rs, rp) = elim (Bool-cases (equal q.in_graph r.in_graph)) [
  | inr h ↦
      rw
        (
          h,
          open_graph-new t q.in_graph q.of_subject q.of_predicate r.in_graph true qg h,
          open_subject-first _ r.in_graph r.of_subject rs,
          open_predicate-first _ r.in_graph r.of_subject r.of_predicate rp,
        )
        (simp append_assoc)
  | inl h ↦
      rw (h, open_graph-same t q.in_graph q.of_subject q.of_predicate r.in_graph true h)
        (elim (Bool-cases (equal q.of_subject r.of_subject)) [
          | inr k ↦
              rw
                (
                  k,
                  open_subject-new t r.in_graph q.of_subject q.of_predicate r.of_subject true qs k,
                  open_predicate-first _ r.in_graph r.of_subject r.of_predicate rp,
                )
                (simp append_assoc)
          | inl k ↦
              rw (k, open_subject-same t r.in_graph q.of_subject q.of_predicate r.of_subject true k)
                (elim (Bool-cases (equal q.of_predicate r.of_predicate)) [
                  | inr l ↦
                      rw
                        (
                          l,
                          open_predicate-new t r.in_graph r.of_subject q.of_predicate r.of_predicate
                              true qp l,
                        )
                        (simp append_assoc)
                  | inl l ↦
                      rw
                        (
                          l,
                          open_predicate-same t r.in_graph r.of_subject q.of_predicate
                              r.of_predicate true l,
                        )
                        (simp append_assoc)
                ])
        ])
]

insert-first :
    (q : Quad)
    → IsEncoded q
    → insert q new_inserter
      ≡ behind
          (codes "INSERT DATA {\n GRAPH "
            ++ q.in_graph
            ++ codes " {\n  "
            ++ q.of_subject
            ++ codes " "
            ++ q.of_predicate
            ++ codes " "
            ++ q.an_object)
          q
unfolding insert_data open_kind close_statement close_object IsEncoded
insert-first q (qg, qs, qp) =
    rw
      (
        open_graph-first _ q.in_graph qg,
        open_subject-first _ q.in_graph q.of_subject qs,
        open_predicate-first _ q.in_graph q.of_subject q.of_predicate qp,
      )
      (simp append_assoc)

terminate-behind :
    (t : Bytes) (q : Quad) → q.in_graph ≢ [] → terminate (behind t q) ≡ t ++ codes " } }"
unfolding terminate close_statement close_graph
terminate-behind t q h = rw (is_empty_ne q.in_graph h) (simp append_assoc)

terminate-insert_quads :
    (qs : List Quad) (t : Bytes) (q : Quad)
    → IsEncoded q
    → All IsEncoded qs
    → terminate (insert_quads qs (behind t q)) ≡ t ++ after (tree_of q qs)
terminate-insert_quads [] t q h _ =
    terminate-behind t q (unfold IsEncoded in h.0) ∙ (unfold tree_of after in refl)
terminate-insert_quads (r ∷ qs) t q h (k, hs) = rw (insert-behind t q r h k) (
    terminate-insert_quads qs (t ++ gap q r) r k hs
    ∙ (unfold tree_of in rw (after-add q (tree_of r qs), first-tree_of r qs, append_assoc) refl))

-- `insertData` on one or more triples whose graph, subject and predicate are encoded as texts that are
-- not empty, and then `terminate`, write the text of a tree of graphs, subjects, predicates and
-- objects, whose triples are those inserted, each once and in their order.
pub terminate-insert_data :
    (q : Quad) (qs : List Quad)
    → IsEncoded q
    → All IsEncoded qs
    → (t : Tree) × (terminate (insert_quads (q ∷ qs) new_inserter) ≡ render_block t)
      × (tree_quads t ≡ q ∷ qs)
terminate-insert_data q qs h hs = (
  tree_of q qs,
  rw (insert-first q h, render_block-first (tree_of q qs), first-tree_of q qs)
      (terminate-insert_quads qs _ q h hs ∙ simp append_assoc),
  tree_quads-tree_of q qs,
)
