-- ===== src/Server2/Bundle/Runs.antt =====
-- server2/bundle.go: runs of `deleteGraph` and of `insertData`, and the text of the drops.
use smart_web.Base.{
  List, [], ◌∷◌, ◌++◌, append_assoc, append-nil, ◌⊎◌, inl, inr, ◌≡◌, refl, ◌∙◌, Bytes, codes, arith,
}
use smart_web.Sparql.Literals.{url, iri_literal}
use smart_web.Sparql.Query.{make_query, make_query-url, fill}
use smart_web.Server2.Url.{Url}
use smart_web.Server2.Bundle.Inserter.{
  Inserter, new_inserter, delete_graph, insert_data, terminate, close_statement, drop_graph,
}

-- A triple by its encoded terms, and the URL of the graph that it goes to.
pub record Insertion : Type 0 where
  pub enc_subject : Bytes
  pub enc_predicate : Bytes
  pub enc_object : Bytes
  pub target : Url

pub IsIn : Url → List Url → Type 0
IsIn u [] = ⊥
IsIn u (v ∷ vs) = (u ≡ v) ⊎ IsIn u vs

pub IsIn-append : (u : Url) (vs ws : List Url) → IsIn u vs → IsIn u (vs ++ ws)
unfolding IsIn
IsIn-append u [] ws h = elim h [ ]
IsIn-append u (v ∷ vs) ws (inl e) = inl e
IsIn-append u (v ∷ vs) ws (inr h) = inr (IsIn-append u vs ws h)

pub IsIn-last : (u : Url) (vs : List Url) → IsIn u (vs ++ u ∷ [])
unfolding IsIn
IsIn-last u [] = inl refl
IsIn-last u (v ∷ vs) = inr (IsIn-last u vs)

module _ (show : Url → Bytes) where
  drop_text : Url → Bytes
  drop_text u = codes "DROP SILENT GRAPH " ++ iri_literal (show u)

  more_drops : List Url → Bytes
  more_drops [] = []
  more_drops (u ∷ us) = codes " ;\n" ++ drop_text u ++ more_drops us

  -- one DROP for each URL, with " ;\n" between two
  pub drops_text : List Url → Bytes
  drops_text [] = []
  drops_text (u ∷ us) = drop_text u ++ more_drops us

  abbrev pub drop_all : List Url → Inserter → Inserter
  drop_all [] i = i
  drop_all (u ∷ us) i = drop_all us (delete_graph (show u) i)

  abbrev pub insert_all : List Insertion → Inserter → Inserter
  insert_all [] i = i
  insert_all (q ∷ qs) i =
      insert_all qs
        (insert_data q.enc_subject q.enc_predicate q.enc_object (iri_literal (show q.target)) i)

  pub drop_all-snoc :
      (us : List Url) (u : Url) (i : Inserter)
      → drop_all (us ++ u ∷ []) i ≡ delete_graph (show u) (drop_all us i)
  drop_all-snoc [] u i = refl
  drop_all-snoc (v ∷ us) u i = drop_all-snoc us u (delete_graph (show v) i)

  pub insert_all-snoc :
      (qs : List Insertion) (q : Insertion) (i : Inserter)
      → insert_all (qs ++ q ∷ []) i
        ≡ insert_data q.enc_subject q.enc_predicate q.enc_object
            (iri_literal (show q.target))
            (insert_all qs i)
  insert_all-snoc [] q i = refl
  insert_all-snoc (p ∷ qs) q i = insert_all-snoc qs q _

  make_query-drop :
      (u : Url) → make_query (codes "DROP SILENT GRAPH %1u") (url (show u) ∷ []) ≡ drop_text u
  unfolding drop_text
  make_query-drop u =
      make_query-url (codes "DROP SILENT GRAPH ") [] (show u) [] (omega arith)
      ∙ (unfold make_query fill in rw append-nil)

  terminate-dropping :
      (us : List Url) (i : Inserter)
      → i.current_statement ≡ drop_graph
      → terminate (drop_all us i) ≡ i.statements ++ more_drops us
  unfolding terminate close_statement more_drops
  terminate-dropping [] i h = rw h refl
  terminate-dropping (u ∷ us) i h =
      terminate-dropping us (delete_graph (show u) i) (unfold delete_graph in refl)
      ∙ (unfold delete_graph close_statement in rw (h, make_query-drop u) (simp append_assoc))

  pub terminate-drop_all : (us : List Url) → terminate (drop_all us new_inserter) ≡ drops_text us
  unfolding drops_text
  terminate-drop_all [] = unfold terminate close_statement in refl
  terminate-drop_all (u ∷ us) =
      terminate-dropping us (delete_graph (show u) new_inserter) (unfold delete_graph in refl)
      ∙ (unfold delete_graph close_statement in rw (make_query-drop u) refl)
