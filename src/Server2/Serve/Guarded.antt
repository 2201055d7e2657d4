-- ===== src/Server2/Serve/Guarded.antt =====
-- Which requests to the second server change files or end it.
use smart_web.Base.{
  Bool, ◌||◌, Option, some, ◌⊎◌, inl, inr, ◌≡◌, ◌≢◌, refl, Bytes, codes, equal, equal_iff,
  Bool-cases,
}
use smart_web.Bundle.Writer.{mime_type}
use smart_web.Server.Writing.{Os}
use smart_web.Server2.Access.{Access, granted, forbidden, server_error, no_response, access}
use smart_web.Server2.Serve.{
  HttpRequest, Store, Library, Served, users_of, check, reply, post, dispatch, serve_access,
  serve_request, serve_http,
}

-- A request that a handler for changes gets.
abbrev pub IsChange : HttpRequest → Type 0
IsChange req =
    (req.method ≡ codes "PUT")
    ⊎ (req.method ≡ codes "DELETE")
    ⊎ ((req.method ≡ codes "POST") × (req.media_type ≡ mime_type))

module _ (lib : Library) (store : Store) (root : Bytes) {W : Type 0} (os : Os W)
    (temp : W → Bytes) where
  -- the files behind a handler's work
  abbrev files_of : Served W → Option W
  files_of s = s.files

  post-bundle :
      (req : HttpRequest) (w : W)
      → files_of (post lib store root os temp req w) ≢ some w
      → req.media_type ≡ mime_type
  unfolding post
  post-bundle req w h = elim (Bool-cases (equal req.media_type mime_type)) [
    | inl bundle ↦ (equal_iff req.media_type mime_type).0 bundle
    | inr no_bundle ↦ elim (Bool-cases (equal req.media_type (codes "application/sparql-query"))) [
      | inl query ↦ absurd (h (rw (no_bundle, query, post) (unfold reply in refl)))
      | inr no_query ↦
          elim (Bool-cases (equal req.media_type (codes "application/x-www-form-urlencoded"))) [
            | inl form ↦ absurd (h (rw (no_bundle, no_query, form, post) (unfold reply in refl)))
            | inr no_form ↦
                absurd (h (rw (no_bundle, no_query, no_form, post) (unfold reply in refl)))
          ]
    ]
  ]

  dispatch-IsChange :
      (req : HttpRequest) (w : W)
      → files_of (dispatch lib store root os temp req w) ≢ some w
      → IsChange req
  unfolding dispatch
  dispatch-IsChange req w h =
      elim (Bool-cases (equal req.method (codes "GET") || equal req.method (codes "HEAD"))) [
        | inl get ↦ absurd (h (rw (get, dispatch) (unfold reply in refl)))
        | inr no_get ↦ elim (Bool-cases (equal req.method (codes "PUT"))) [
          | inl put ↦ inl ((equal_iff _ _).0 put)
          | inr no_put ↦ elim (Bool-cases (equal req.method (codes "POST"))) [
            | inl posts ↦ inr (
                inr (
                  (equal_iff _ _).0 posts,
                  post-bundle req w (λ e. h (rw (no_get, no_put, posts, dispatch) e)),
                ))
            | inr no_post ↦ elim (Bool-cases (equal req.method (codes "DELETE"))) [
              | inl del ↦ inr (inl ((equal_iff _ _).0 del))
              | inr no_del ↦
                  absurd (h (rw (no_get, no_put, no_post, no_del, dispatch) (unfold reply in refl)))
            ]
          ]
        ]
      ]

  serve_access-granted :
      (req : HttpRequest) (a : Access) (w : W)
      → files_of (serve_access lib store root os temp req a w) ≢ some w
      → (a ≡ granted) × IsChange req
  unfolding serve_access reply
  serve_access-granted req granted w h = (refl, dispatch-IsChange req w h)
  serve_access-granted req forbidden w h = absurd (h refl)
  serve_access-granted req (server_error e) w h = absurd (h refl)
  serve_access-granted req no_response w h = absurd (h refl)

  -- Where `ServeHTTP` leaves the files other than they were, or ends the server by a goroutine that
  -- panics, the access rule has let the request through, and it is a PUT, a DELETE or a POST of a
  -- bundle, and does not ask for a key.
  pub serve_http-IsGuarded :
      (use_acl : Bool) (req : HttpRequest) (w : W)
      → (serve_http lib store root os temp use_acl req w).files ≢ some w
      → (access use_acl (users_of req.certificates) (check lib store req) ≡ granted)
        × (IsChange req × (req.raw_query ≢ codes "keygen"))
  unfolding serve_http serve_request
  serve_http-IsGuarded use_acl req w h = elim (Bool-cases (equal req.raw_query (codes "keygen"))) [
    | inl key ↦ absurd (h (rw key refl))
    | inr other ↦
        let (passed, change) = serve_access-granted req _ w (λ e. h (rw other e)) in
        (passed, (change, λ e. cc (other, (equal_iff req.raw_query (codes "keygen")).1 e)))
  ]
