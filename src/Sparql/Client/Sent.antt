-- ===== src/Sparql/Client/Sent.antt =====
-- sparql/client.go: when the client reports success.
use mathlib.Core.Path.{subst}
use smart_web.Base.{
  ◌≤◌, ◌<◌, true, Option, none, some, List, ◌⊎◌, inl, inr, ◌≡◌, ◌↔◌, refl, Bytes, codes, [], ◌∷◌,
  ◌++◌, arith, Bool-cases,
}
use smart_web.Sparql.Literals.{Value, literal}
use smart_web.Sparql.Client.{
  HttpReply, HttpRequest, Client, is_success, added, quad_update, update_request, query_request,
  after_post, send_quad, add_quad, after_query, select_named_graph,
}

-- A status code of success.
pub IsSuccess : HttpReply → Type 0
IsSuccess r = (200 ≤ r.status_code) × (r.status_code < 300)

is_success_iff : (r : HttpReply) → (is_success r ≡ true) ↔ IsSuccess r
unfolding is_success IsSuccess
is_success_iff r = ground arith

after_post_iff :
    (sent : Bytes ⊎ HttpReply)
    → (after_post sent ≡ added) ↔ ((r : HttpReply) × (sent ≡ inr r) × IsSuccess r)
unfolding after_post
after_post_iff (inl err) = ((λ e. absurd (cc e)), λ x. absurd (cc (x.1)))
after_post_iff (inr r) = elim (Bool-cases (is_success r)) [
  | inl good ↦ ((λ _. (r, refl, (is_success_iff r).0 good)), λ _. rw good refl)
  | inr bad ↦ (
    (λ e. absurd (cc (rw (bad, after_post) at e))),
    λ x. let (s, same, good) = x in absurd (cc (bad, same, (is_success_iff s).1 good)),
  )
]

-- The form of an update is posted to the update endpoint, and it is answered by success.
abbrev pub IsAccepted : Client → (HttpRequest → Bytes ⊎ HttpReply) → Bytes → Type 0
IsAccepted client send text =
    (r : HttpReply) × (send (record {
      method = codes "POST";
      url = client.update_url;
      headers = (codes "Content-Type", codes "application/x-www-form-urlencoded") ∷ [];
      form = (codes "update", text ∷ []) ∷ [];
    })
      ≡ inr r)
    × IsSuccess r

-- The update that puts one quad into the store.
abbrev pub quad_text : Bytes → Bytes → Bytes → Bytes → Bytes
quad_text graph subject predicate object =
    codes "INSERT DATA { GRAPH "
    ++ graph
    ++ codes " { "
    ++ subject
    ++ codes " "
    ++ predicate
    ++ codes " "
    ++ object
    ++ codes " } }"

module _ (client : Client) (send : HttpRequest → Bytes ⊎ HttpReply) where
  -- Four terms, and the store's success for the update that inserts them, each in its place.
  pub IsStored : Option Bytes → Option Bytes → Option Bytes → Option Bytes → Type 0
  IsStored context subject predicate object =
      (c : Bytes) × (s : Bytes) × (p : Bytes) × (o : Bytes) × (context ≡ some c)
      × (subject ≡ some s)
      × (predicate ≡ some p)
      × (object ≡ some o)
      × IsAccepted client send (quad_text c s p o)

  posted_iff :
      (c s p o : Bytes)
      → (after_post (send (update_request client (quad_update c s p o))) ≡ added)
        ↔ IsAccepted client send (quad_text c s p o)
  unfolding update_request quad_update
  posted_iff c s p o = after_post_iff _

  send_quad_iff :
      (c s p o : Option Bytes) → (send_quad client send c s p o ≡ added) ↔ IsStored c s p o
  unfolding send_quad IsStored
  send_quad_iff none s p o = ((λ e. absurd (cc e)), λ x. absurd (cc (x.4)))
  send_quad_iff (some c) none p o = ((λ e. absurd (cc e)), λ x. absurd (cc (x.5)))
  send_quad_iff (some c) (some s) none o = ((λ e. absurd (cc e)), λ x. absurd (cc (x.6)))
  send_quad_iff (some c) (some s) (some p) none = ((λ e. absurd (cc e)), λ x. absurd (cc (x.7)))
  send_quad_iff (some c) (some s) (some p) (some o) = (
    (λ e. (c, s, p, o, refl, refl, refl, refl, (posted_iff c s p o).0 e)),
    λ x.
        let (c', s', p', o', ec, es, ep, eo, stored) = x in
        let same : quad_text c' s' p' o' ≡ quad_text c s p o = cc (ec, es, ep, eo) in
        (posted_iff c s p o).1 (subst (IsAccepted client send) same stored),
  )

  -- `AddQuad` succeeds exactly when all four values have a term and the store answers by a status of
  -- success to the update that inserts the quad of these terms, in the field `update` of a form that
  -- is posted to the update endpoint.
  pub add_quad_iff :
      (context subject predicate object : Value)
      → (add_quad client send context subject predicate object ≡ added)
        ↔ IsStored (literal context) (literal subject) (literal predicate) (literal object)
  unfolding add_quad
  add_quad_iff context subject predicate object = send_quad_iff _ _ _ _

  module _ {A : Type 0} (decode : Bytes → Bytes ⊎ A) where
    after_query_iff :
        (got : Bytes ⊎ HttpReply) (a : A)
        → (after_query client send decode got ≡ inr a)
          ↔ ((r : HttpReply) × (got ≡ inr r) × IsSuccess r × (decode r.body ≡ inr a))
    unfolding after_query
    after_query_iff (inl err) a = ((λ e. absurd (cc e)), λ x. absurd (cc (x.1)))
    after_query_iff (inr r) a = elim (Bool-cases (is_success r)) [
      | inl good ↦ (
        (λ e. (r, refl, (is_success_iff r).0 good, rw (good, after_query) at e)),
        λ x. let (s, same, _, decoded) = x in rw (good, after_query) (cc (same, decoded)),
      )
      | inr bad ↦ (
        (λ e. absurd (cc (rw (bad, after_query) at e))),
        λ x. let (s, same, good, _) = x in absurd (cc (bad, same, (is_success_iff s).1 good)),
      )
    ]

    -- `SelectNamedGraph` returns a result exactly when the store answers with a status of success and
    -- a body that is decoded to that result, where it is asked by a form that is posted to the query
    -- endpoint, with the query and the named graphs in the fields of the SPARQL protocol, and with a
    -- header that accepts JSON.
    pub select_named_graph_iff :
        (query : Bytes) (named_graphs : List Bytes) (a : A)
        → (select_named_graph client send decode query named_graphs ≡ inr a) ↔ (
            (r : HttpReply) × (send (record {
              method = codes "POST";
              url = client.query_url;
              headers =
                  (codes "Content-Type", codes "application/x-www-form-urlencoded")
                  ∷ (codes "Accept", codes "application/sparql-results+json")
                  ∷ [];
              form = (codes "query", query ∷ []) ∷ (codes "named-graph-uri", named_graphs) ∷ [];
            })
              ≡ inr r)
            × IsSuccess r
            × (decode r.body ≡ inr a))
    unfolding select_named_graph query_request
    select_named_graph_iff query named_graphs a = after_query_iff _ a
