-- ===== src/Server2/Resources/Kept.antt =====
-- server2/server.go: what PUT leaves for a later GET.
use smart_web.Base.{
  ℕ, Option, none, some, List, [], ◌∷◌, ◌≡◌, ◌⊎◌, inr, refl, ap, ◌∙◌, Bytes, codes, equal, arith,
}
use smart_web.FilePath.{join_paths}
use smart_web.Sparql.Literals.{url}
use smart_web.Sparql.Query.{make_query}
use smart_web.Server2.Url.{Url}
use smart_web.Server2.Response.{Response, handle_error}
use smart_web.Server.Files.{OsError}
use smart_web.Server.Writing.{Os}
use smart_web.Server.Writing.Laws.{OsLaws}
use smart_web.Server.Handlers.Stored.{and_then-none}
use smart_web.Server2.Resources.{
  Row, get_template, failed, hash_uri, file_response, get_response, handle_get, fill_file,
  put_renamed, put_filled, handle_put,
}

-- the status of a response, 0 where there is none
abbrev pub status_of : Option Response → ℕ
status_of none = 0
status_of (some r) = r.status

module _ (select : Bytes → Bytes ⊎ List Row) (update : Bytes → Option Bytes) (sha1 : Bytes → Bytes)
    (root : Bytes) (show : Url → Bytes) {W : Type 0} (os : Os W) (laws : OsLaws os) where
  fill_file-content :
      (temp body : Bytes) (body_error : Option OsError) (w v : W)
      → fill_file select update sha1 root show os temp body body_error (os.create temp w)
        ≡ (none, v)
      → (os.disk v).content temp ≡ inr (body, none)
  unfolding fill_file
  fill_file-content temp body body_error w v h =
      let (a, made, h1) = and_then-none (os.create temp w) _ v h in
      let (b, wrote, ended) = and_then-none (os.write temp body a) (λ t. (body_error, t)) v h1 in
      let same : b ≡ v = ap (λ x. x.1) ended in rw same at (laws.written temp body w a b made wrote)

  put_renamed-content :
      (u : Url) (uri content_type old new body : Bytes) (w : W) (r : Option OsError × W)
      → os.rename old new w ≡ r
      → (os.disk w).content old ≡ inr (body, none)
      → status_of (put_renamed select update sha1 root show os u old uri content_type r).0 ≡ 201
      → (os.disk (put_renamed select update sha1 root show os u old uri content_type r).1).content
          new
        ≡ inr (body, none)
  unfolding put_renamed failed handle_error
  put_renamed-content u uri content_type old new body w (none, v) done content status =
      laws.renamed old new w v done ∙ content
  put_renamed-content u uri content_type old new body w (some err, v) done content status =
      absurd (omega (arith, status))

  put_filled-content :
      (u : Url) (temp body content_type : Bytes) (r : Option OsError × W)
      → ((v : W) → r ≡ (none, v) → (os.disk v).content temp ≡ inr (body, none))
      → status_of (put_filled select update sha1 root show os u temp body content_type r).0 ≡ 201
      → (os.disk (put_filled select update sha1 root show os u temp body content_type r).1).content
          (join_paths root (hash_uri select update sha1 root body))
        ≡ inr (body, none)
  unfolding put_filled failed handle_error
  put_filled-content u temp body content_type (none, w) filled status =
      let uri = hash_uri select update sha1 root body in
      put_renamed-content u uri content_type temp (join_paths root uri) body w
        (os.rename temp (join_paths root uri) w) refl (filled w refl) status
  put_filled-content u temp body content_type (some err, w) filled status =
      absurd (omega (arith, status))

  -- Where the file system keeps its promises and a PUT is answered by 201, a GET for which the store
  -- answers with a first row that has the body's hash is answered by 200 and that body.
  pub get_response-handle_put :
      (u : Url) (temp body content_type v : Bytes) (body_error : Option OsError) (w : W) (row : Row)
      (rows : List Row)
      → status_of
          (handle_put select update sha1 root show os u temp body body_error content_type w).0
        ≡ 201
      → select (make_query get_template (url v ∷ [])) ≡ inr (row ∷ rows)
      → row (codes "hash") ≡ hash_uri select update sha1 root body
      → let g =
          handle_get select update sha1 root
            (os.disk
              (handle_put select update sha1 root show os u temp body body_error content_type w).1)
            v
            (codes "GET") in
        (g.status ≡ 200) × (g.body ≡ body)
  unfolding handle_put handle_get get_response
  get_response-handle_put u temp body content_type v body_error w row rows status answers hash =
      let content =
        put_filled-content u temp body content_type
          (fill_file select update sha1 root show os temp body body_error (os.create temp w))
          (fill_file-content temp body body_error w) status in
      rw (answers, hash, content) (unfold file_response equal in (refl, refl))
