-- ===== src/Server/Serve/Guarded.antt =====
-- server/server.go: what a request has to show before it changes a file.
use smart_web.Base.{
  ℕ, Bool, true, false, ◌||◌, Option, none, some, List, ◌≡◌, ◌≢◌, ◌⊎◌, inl, inr, refl, Bytes, codes,
  equal, equal_iff, Bool-cases,
}
use smart_web.Server.Entry.{Entry}
use smart_web.Server.Paths.{get_entry}
use smart_web.Server.Nonces.{State, purge}
use smart_web.Server.Domains.{auth_list}
use smart_web.Server.Authenticator.{AuthMethod, check_request}
use smart_web.Server.Authenticator.Digests.{Grounds}
use smart_web.Server.Challenges.{authenticate}
use smart_web.Server.Challenges.Granted.{IsUnguarded, authenticate-Grounds}
use smart_web.Server.Writing.{Os}
use smart_web.Server.Handlers.{FileRequest, serve_file}
use smart_web.Server.Serve.{HttpRequest, DataReply, handle, serve_with, auth_request, serve_http}

-- The request is a PUT or a DELETE of a file.
pub IsChange : HttpRequest → Type 0
IsChange req =
    (req.has_rdf ≡ false) × ((req.file.method ≡ codes "PUT") ⊎ (req.file.method ≡ codes "DELETE"))

module _ {W : Type 0} (os : Os W) (ask : Bytes → DataReply) (url : Bytes)
    (detect : Bytes → Bytes) where
  serve_file-method :
      (entry : Entry) (req : FileRequest) (w : W)
      → (serve_file os detect entry req w).1 ≢ w
      → (req.method ≡ codes "PUT") ⊎ (req.method ≡ codes "DELETE")
  unfolding serve_file
  serve_file-method entry req w h =
      elim (Bool-cases (equal req.method (codes "GET") || equal req.method (codes "HEAD"))) [
        | inl reads ↦ absurd (h (rw (reads, serve_file) refl))
        | inr other ↦ elim (Bool-cases (equal req.method (codes "PUT"))) [
          | inl put ↦ inl ((equal_iff _ _).0 put)
          | inr not_put ↦ elim (Bool-cases (equal req.method (codes "DELETE"))) [
            | inl del ↦ inr ((equal_iff _ _).0 del)
            | inr not_del ↦ absurd (h (rw (other, not_put, not_del, serve_file) refl))
          ]
        ]
      ]

  handle-IsChange :
      (entry : Entry) (req : HttpRequest) (w : W)
      → (handle os ask url detect entry req w).1 ≢ w
      → IsChange req
  unfolding handle IsChange
  handle-IsChange entry req w h = elim (Bool-cases req.has_rdf) [
    | inl rdf ↦ absurd (h (rw (rdf, handle) refl))
    | inr file ↦ (file, serve_file-method entry req.file w (λ e. h (rw (file, handle) e)))
  ]

  serve_with-IsChange :
      (entry : Entry) (req : HttpRequest) (w : W) (answer : Option (Bool × List Bytes)) (s : State)
      → (serve_with os ask url detect entry req w (answer, s)).files ≢ w
      → (texts : List Bytes) × (answer ≡ some (true, texts)) × IsChange req
  unfolding serve_with
  serve_with-IsChange entry req w none s h = absurd (h refl)
  serve_with-IsChange entry req w (some (false, texts)) s h = absurd (h refl)
  serve_with-IsChange entry req w (some (true, texts)) s h =
      (texts, refl, handle-IsChange entry req w h)

module _ {W : Type 0} (os : Os W) (ask : Bytes → DataReply) (url : Bytes) (detect : Bytes → Bytes)
    (md5 sha256 : Bytes → Bytes) (parse : Bytes → Option (List AuthMethod)) where
  -- Where `ServeHTTP` leaves the files other than they were, the request is a PUT or a DELETE of a file,
  -- and there are grounds to allow it among the nonces that have not been purged, or `checkRequest` has
  -- found no permission at all for the entry and `authList` no domain.
  pub serve_http-Grounds :
      (root : Entry) (req : HttpRequest) (now : ℕ) (s : State) (w : W)
      → (serve_http os ask url detect md5 sha256 parse root req now s w).files ≢ w
      → IsChange req
        × (Grounds md5 sha256 parse
              (os.disk w)
              (get_entry root req.host req.file.path req.metas)
              (auth_request req)
              now
              (purge now s.nonces)
            ⊎ IsUnguarded
                (check_request md5 sha256 parse
                  (os.disk w)
                  (get_entry root req.host req.file.path req.metas)
                  (auth_request req)
                  now
                  (purge now s.nonces))
                (auth_list (os.disk w) (get_entry root req.host req.file.path req.metas)).0)
  unfolding serve_http
  serve_http-Grounds root req now s w h =
      let entry = get_entry root req.host req.file.path req.metas in
      let a = authenticate md5 sha256 parse (os.disk w) entry (auth_request req) now s in
      let (texts, passed, change) = serve_with-IsChange os ask url detect entry req w a.0 a.1 h in
      (
        change,
        authenticate-Grounds md5 sha256 parse (os.disk w) entry (auth_request req) now s texts
            passed,
      )
