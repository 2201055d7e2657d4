-- ===== src/Server2/Query/Allowed.antt =====
-- server2/sparql.go: the graphs that a client's query reaches.
use smart_web.Base.{
  true, List, [], ◌∷◌, ◌++◌, ◌⊎◌, inl, inr, ◌≡◌, ◌≢◌, ◌↔◌, refl, ap, Bytes, equal_iff, has_prefix,
  All, All-map, arith, Bool-cases, ⊎-cases,
}
use smart_web.FilePath.{ends_in_slash}
use smart_web.Server2.Query.{
  Values, StoreRequest, is_among, check_graphs, graph_list_check, sub_graphs_query, list_sub_graphs,
  request_for, choose_graphs, prepare,
}

pub IsOneOf : Bytes → List Bytes → Type 0
IsOneOf g [] = ⊥
IsOneOf g (h ∷ hs) = (g ≡ h) ⊎ IsOneOf g hs

is_among_iff : (g : Bytes) (gs : List Bytes) → (is_among g gs ≡ true) ↔ IsOneOf g gs
unfolding is_among IsOneOf
is_among_iff g [] = ground arith
is_among_iff g (h ∷ hs) = ground (arith, equal_iff g h, is_among_iff g hs)

-- What becomes of the list of graphs that a client names.
pub Checked : List Bytes → List Bytes → List Bytes × Bytes → Type 0
Checked allowed gs r =
    ((gs ≡ []) × (r ≡ (allowed, [])))
    ⊎ ((gs ≢ []) × All (λ g. IsOneOf g allowed) gs × (r ≡ (gs, [])))
    ⊎ ((before : List Bytes) × (g : Bytes) × (after : List Bytes) × (gs ≡ before ++ g ∷ after)
        × All (λ h. IsOneOf h allowed) before
        × ¬ IsOneOf g allowed
        × (r ≡ ([], g)))

check_graphs_cases :
    (allowed all gs : List Bytes)
    → (All (λ g. IsOneOf g allowed) gs × (check_graphs allowed all gs ≡ (all, [])))
      ⊎ ((before : List Bytes) × (g : Bytes) × (after : List Bytes) × (gs ≡ before ++ g ∷ after)
          × All (λ h. IsOneOf h allowed) before
          × ¬ IsOneOf g allowed
          × (check_graphs allowed all gs ≡ ([], g)))
unfolding check_graphs
check_graphs_cases allowed all [] = inl (tt, refl)
check_graphs_cases allowed all (g ∷ gs) = elim (Bool-cases (is_among g allowed)) [
  | inl known ↦ rw known (elim (check_graphs_cases allowed all gs) [
    | inl (h, e) ↦ inl (((is_among_iff g allowed).0 known, h), e)
    | inr (before, bad, after, split, h, n, e) ↦
        inr (
          g ∷ before,
          bad,
          after,
          ap (λ x. g ∷ x) split,
          ((is_among_iff g allowed).0 known, h),
          n,
          e,
        )
  ])
  | inr unknown ↦
      rw unknown
        (inr ([], g, gs, refl, tt, (λ m. cc (unknown, (is_among_iff g allowed).1 m)), refl))
]

-- `graphListCheck` returns all the allowed graphs for an empty list, the list itself if it is not
-- empty and all its graphs are allowed, and otherwise no graph and the first that is not allowed.
pub graph_list_check-Checked :
    (allowed gs : List Bytes) → Checked allowed gs (graph_list_check allowed gs)
unfolding graph_list_check Checked
graph_list_check-Checked allowed [] = inl (refl, refl)
graph_list_check-Checked allowed (g ∷ gs) = elim (check_graphs_cases allowed (g ∷ gs) (g ∷ gs)) [
  | inl (h, e) ↦ inr (inl ((λ n. cc), h, e))
  | inr found ↦ inr (inr found)
]

IsOneOf-All : (P : Bytes → Type 0) (g : Bytes) (gs : List Bytes) → All P gs → IsOneOf g gs → P g
unfolding IsOneOf
IsOneOf-All P g [] h m = absurd m
IsOneOf-All P g (k ∷ gs) (h, hs) (inl e) = rw e h
IsOneOf-All P g (k ∷ gs) (h, hs) (inr m) = IsOneOf-All P g gs hs m

All-of :
    (P : Bytes → Type 0) (allowed gs : List Bytes)
    → All P allowed
    → All (λ g. IsOneOf g allowed) gs
    → All P gs
All-of P allowed [] h _ = tt
All-of P allowed (g ∷ gs) h (m, ms) = (IsOneOf-All P g allowed h m, All-of P allowed gs h ms)

graph_list_check-All :
    (P : Bytes → Type 0) (allowed gs : List Bytes)
    → All P allowed
    → All P (graph_list_check allowed gs).0
unfolding Checked
graph_list_check-All P allowed gs h = elim (graph_list_check-Checked allowed gs) [
  | inl (n, e) ↦ rw e h
  | inr (inl (n, ms, e)) ↦ rw e (All-of P allowed gs h ms)
  | inr (inr (before, g, after, split, ms, n, e)) ↦ rw e tt
]

-- The graph is the URL's own, or the URL ends in a slash and the graph's URL goes on from it.
pub IsUnder : Bytes → Bytes → Type 0
IsUnder u g = (g ≡ u) ⊎ ((ends_in_slash u ≡ true) × (has_prefix g u ≡ true))

-- what the filter of the query promises of its rows
abbrev pub RowsUnder : (Bytes → Bytes ⊎ List Bytes) → Bytes → Type 0
RowsUnder select u =
    (rows : List Bytes)
    → select (sub_graphs_query u) ≡ inr rows
    → All (λ g. has_prefix g u ≡ true) rows

module _ (select : Bytes → Bytes ⊎ List Bytes) (u : Bytes) (store : RowsUnder select u) where
  list_sub_graphs-IsUnder :
      (allowed : List Bytes) → list_sub_graphs select u ≡ inr allowed → All (IsUnder u) allowed
  unfolding list_sub_graphs IsUnder
  list_sub_graphs-IsUnder allowed e = elim (Bool-cases (ends_in_slash u)) [
    | inl slash ↦
        All-map (λ g. has_prefix g u ≡ true) (IsUnder u) (λ g p. inr (slash, p)) allowed
          (store allowed (rw slash at e))
    | inr file ↦ let alone : allowed ≡ u ∷ [] = cc (rw file at e) in rw alone (inl refl, tt)
  ]

  pub IsConfined : StoreRequest → Type 0
  IsConfined r =
      (r.default_graphs ≢ [])
      × (r.named_graphs ≢ [])
      × All (IsUnder u) r.default_graphs
      × All (IsUnder u) r.named_graphs

  request_for-IsConfined :
      (defaults named : List Bytes × Bytes) (query accept : Bytes) (r : StoreRequest)
      → All (IsUnder u) defaults.0
      → All (IsUnder u) named.0
      → request_for defaults named query accept ≡ inr r
      → IsConfined r
  unfolding request_for IsConfined
  request_for-IsConfined ([], g) named query accept r h k e = cc
  request_for-IsConfined (d ∷ ds, _) ([], g) query accept r h k e = cc
  request_for-IsConfined (d ∷ ds, x) (n ∷ ns, y) query accept r h k e =
      let same : r ≡ record {
        query = query;
        named_graphs = n ∷ ns;
        default_graphs = d ∷ ds;
        accept = accept;
      } =
        cc in
      rw same ((λ m. cc), (λ m. cc), h, k)

  -- Where the rows for the store's query begin with the URL, what `handleSPARQLQuery` asks the store
  -- names at least one default graph and at least one named graph, and each is the URL's own, or the URL
  -- ends in a slash and the graph's URL goes on from it.
  pub prepare-IsConfined :
      (vars : Values) (accept : Bytes) (r : StoreRequest)
      → prepare select u vars accept ≡ inr r
      → IsConfined r
  unfolding prepare choose_graphs
  prepare-IsConfined vars accept r e = elim (⊎-cases (list_sub_graphs select u)) [
    | inl (text, failed) ↦ cc (rw (failed, prepare) at e)
    | inr (allowed, listed) ↦
        let below = list_sub_graphs-IsUnder allowed listed in
        request_for-IsConfined _ _ _ accept r (graph_list_check-All (IsUnder u) allowed _ below)
          (graph_list_check-All (IsUnder u) allowed _ below) (rw (listed, prepare) at e)
  ]
