-- ===== src/Server2/Bundle/Confined.antt =====
-- server2/bundle.go: which graphs the update of `makeStatements` drops and writes.
use smart_web.Base.{
  All-map, All-snoc, true, not, none, some, List, [], ◌∷◌, ◌++◌, ◌⊎◌, inl, inr, ◌≡◌, refl, sym, ap,
  ◌∙◌, Bytes, equal, ◌&&◌, All, Bool-cases, Option-cases, ⊎-cases, arith,
}
use smart_web.Sparql.Literals.{iri_literal}
use smart_web.Nquads.Statement.{Statement, subject, predicate, object_type, object_literal, graph}
use smart_web.Server2.Url.{Url, is_sub_url}
use smart_web.Server2.Bundle.Inserter.{new_inserter, delete_graph, insert_data, terminate}
use smart_web.Server2.Bundle.Statements.{
  Item, statement, failure, Import, Update, new_import, get, place_graph, insert_statement,
  add_statement, add_items, finish, make_statements, join_updates, subject_term, object_term,
  want_hash, log, literal_value, sw_relative_path,
}
use smart_web.Server2.Bundle.Runs.{
  Insertion, IsIn, IsIn-append, IsIn-last, drops_text, drop_all, insert_all, drop_all-snoc,
  insert_all-snoc, terminate-drop_all,
}

get-All :
    (P : Url → Type 0) (m : List (Bytes × Url)) (k : Bytes) (u : Url)
    → get m k ≡ some u
    → All (λ row. P row.1) m
    → P u
unfolding get
get-All P [] k u e _ = cc
get-All P ((key, v) ∷ m) k u e (p, ps) = elim (Bool-cases (equal key k)) [
  | inl h ↦ let same : u ≡ v = cc (rw h at e) in rw same p
  | inr h ↦ get-All P m k u (rw h at e) ps
]

-- What the loop keeps: the graphs that it has placed, in the order of their DROPs, are below the
-- base, and the triples that it has inserted are in these graphs.
record IsConfined (parse : Url → Bytes → Bytes ⊎ Url) (show : Url → Bytes) (base : Url) (m : Import)
    : Type 0 where
  placed : List Url
  inserted : List Insertion
  dropped : m.drop ≡ drop_all show placed new_inserter
  written : m.ins ≡ insert_all show inserted new_inserter
  inside : All (λ u. is_sub_url base u ≡ true) placed
  rows_IsIn : All (λ row. IsIn row.1 placed) m.graphs_rel_uri
  inserted_IsIn : All (λ q. IsIn q.target placed) inserted

module _ (parse : Url → Bytes → Bytes ⊎ Url) (show : Url → Bytes) (base : Url) where
  start-IsConfined : IsConfined parse show base new_import
  start-IsConfined = record {
    placed = [];
    inserted = [];
    dropped = refl;
    written = refl;
    inside = tt;
    rows_IsIn = tt;
    inserted_IsIn = tt;
  }

  log-IsConfined :
      (line : Bytes) (m : Import)
      → IsConfined parse show base m
      → IsConfined parse show base (log line m)
  log-IsConfined line m h = record {
    placed = h.placed;
    inserted = h.inserted;
    dropped = h.dropped;
    written = h.written;
    inside = h.inside;
    rows_IsIn = h.rows_IsIn;
    inserted_IsIn = h.inserted_IsIn;
  }

  want_hash-keeps :
      (st : Statement) (m : Import)
      → ((want_hash st m).drop ≡ m.drop)
        × ((want_hash st m).ins ≡ m.ins)
        × ((want_hash st m).graphs_rel_uri ≡ m.graphs_rel_uri)
  unfolding want_hash
  want_hash-keeps st m = ground arith

  want_hash-IsConfined :
      (st : Statement) (m : Import)
      → IsConfined parse show base m
      → IsConfined parse show base (want_hash st m)
  want_hash-IsConfined st m h = record {
    placed = h.placed;
    inserted = h.inserted;
    dropped = (want_hash-keeps st m).0 ∙ h.dropped;
    written = (want_hash-keeps st m).1 ∙ h.written;
    inside = h.inside;
    rows_IsIn = rw (want_hash-keeps st m).2 h.rows_IsIn;
    inserted_IsIn = h.inserted_IsIn;
  }

  -- A graph at a URL below the base is placed.
  placed-IsConfined :
      (g : Bytes) (u : Url) (m : Import)
      → is_sub_url base u ≡ true
      → IsConfined parse show base m
      → IsConfined parse show base (record m {
        graphs_rel_uri = (g, u) ∷ m.graphs_rel_uri;
        drop = delete_graph (show u) m.drop;
      })
  placed-IsConfined g u m below h = record {
    placed = h.placed ++ u ∷ [];
    inserted = h.inserted;
    dropped =
        ap (delete_graph (show u)) h.dropped ∙ sym (drop_all-snoc show h.placed u new_inserter);
    written = h.written;
    inside = All-snoc (λ v. is_sub_url base v ≡ true) h.placed u h.inside below;
    rows_IsIn = (
      IsIn-last u h.placed,
      All-map _ _ (λ row. IsIn-append row.1 h.placed (u ∷ [])) m.graphs_rel_uri h.rows_IsIn,
    );
    inserted_IsIn =
        All-map _ _ (λ q. IsIn-append q.target h.placed (u ∷ [])) h.inserted h.inserted_IsIn;
  }

  place_graph-IsConfined :
      (st : Statement) (m : Import)
      → IsConfined parse show base m
      → IsConfined parse show base (place_graph parse show base st m)
  unfolding place_graph
  place_graph-IsConfined st m h = elim (⊎-cases (parse base (literal_value (object_literal st)))) [
    | inl (e, unparsed) ↦ rw (unparsed, place_graph) (log-IsConfined _ m h)
    | inr (u, parsed) ↦
        rw (parsed, place_graph)
          (elim (Bool-cases (is_sub_url base u)) [
            | inl below ↦ rw below (placed-IsConfined _ u m below h)
            | inr outside ↦ rw outside (log-IsConfined _ m h)
          ])
  ]

  inserted-IsConfined :
      (u : Url) (st : Statement) (s p o : Bytes) (m : Import) (h : IsConfined parse show base m)
      → IsIn u h.placed
      → IsConfined parse show base (record (want_hash st m) {
        ins = insert_data s p o (iri_literal (show u)) (want_hash st m).ins;
      })
  inserted-IsConfined u st s p o m h at_u =
      let q : Insertion = record {
        enc_subject = s;
        enc_predicate = p;
        enc_object = o;
        target = u;
      } in
      record {
        placed = h.placed;
        inserted = h.inserted ++ q ∷ [];
        dropped = (want_hash-keeps st m).0 ∙ h.dropped;
        written =
            ap (insert_data s p o (iri_literal (show u))) ((want_hash-keeps st m).1 ∙ h.written)
            ∙ sym (insert_all-snoc show h.inserted q new_inserter);
        inside = h.inside;
        rows_IsIn = rw (want_hash-keeps st m).2 h.rows_IsIn;
        inserted_IsIn = All-snoc (λ r. IsIn r.target h.placed) h.inserted q h.inserted_IsIn at_u;
      }

  insert_statement-IsConfined :
      (u : Url) (st : Statement) (m : Import) (h : IsConfined parse show base m)
      → IsIn u h.placed
      → IsConfined parse show base (insert_statement parse show base u st m)
  unfolding insert_statement
  insert_statement-IsConfined u st m h at_u =
      elim (Option-cases (subject_term parse show base (subject st))) [
        | inl no_subject ↦ rw (no_subject, insert_statement) (want_hash-IsConfined st m h)
        | inr (s, is_s) ↦
            rw (is_s, insert_statement)
              (elim (Option-cases (object_term parse show base st (object_type st))) [
                | inl no_object ↦ rw no_object (want_hash-IsConfined st m h)
                | inr (o, is_o) ↦ rw is_o (inserted-IsConfined u st s _ o m h at_u)
              ])
      ]

  add_statement-IsConfined :
      (st : Statement) (m : Import)
      → IsConfined parse show base m
      → IsConfined parse show base (add_statement parse show base st m)
  unfolding add_statement
  add_statement-IsConfined st m h =
      elim (Bool-cases (not (graph st).1 && equal (predicate st) sw_relative_path)) [
        | inl p ↦ rw p (place_graph-IsConfined st m h)
        | inr p ↦ rw p (elim (Bool-cases (not (graph st).1)) [
          | inl n ↦ rw n (log-IsConfined _ m h)
          | inr n ↦ rw n (elim (Option-cases (get m.graphs_rel_uri (graph st).0)) [
            | inl unknown ↦ rw unknown (log-IsConfined _ m h)
            | inr (u, known) ↦ rw known (
                insert_statement-IsConfined u st m h
                  (get-All (λ v. IsIn v h.placed) m.graphs_rel_uri _ u known h.rows_IsIn))
          ])
        ])
      ]

  pub IsSafe : Update → Type 0
  IsSafe r =
      (placed : List Url) × (inserted : List Insertion) × (r.statements
        ≡ join_updates (drops_text show placed) (terminate (insert_all show inserted new_inserter)))
      × All (λ u. is_sub_url base u ≡ true) placed
      × All (λ q. IsIn q.target placed) inserted

  add_items-IsSafe :
      (items : List Item) (m : Import)
      → IsConfined parse show base m
      → (add_items parse show base items m).error ≡ none
      → IsSafe (add_items parse show base items m)
  unfolding add_items finish IsSafe
  add_items-IsSafe [] m h _ = (
    h.placed,
    h.inserted,
    (rw (h.dropped, h.written, terminate-drop_all show h.placed) refl),
    h.inside,
    h.inserted_IsIn,
  )
  add_items-IsSafe (failure e ∷ items) m h is_none = cc
  add_items-IsSafe (statement st ∷ items) m h is_none =
      add_items-IsSafe items (add_statement parse show base st m) (add_statement-IsConfined st m h)
        is_none

  -- When `makeStatements` returns no error, its update is one DROP for each of a list of URLs, all at
  -- or below the base, and behind them the triples that the inserter was given, each for a graph that
  -- is one of these URLs.
  pub make_statements-IsSafe :
      (items : List Item)
      → (make_statements parse show base items).error ≡ none
      → IsSafe (make_statements parse show base items)
  unfolding make_statements
  make_statements-IsSafe items = add_items-IsSafe items new_import start-IsConfined
