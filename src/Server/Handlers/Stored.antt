-- ===== src/Server/Handlers/Stored.antt =====
-- server/server.go: what PUT and DELETE leave for a later GET.
use smart_web.Base.{
  ◌-◌, Option, none, some, [], ◌∷◌, ◌++◌, append_assoc, ◌≡◌, ◌≢◌, inl, inr, refl, sym, ap, ◌∙◌,
  Bytes, codes, equal, take, length, length-append, arith, Bool-cases,
}
use smart_web.Server2.Response.{Response}
use smart_web.Server.Entry.{Entry}
use smart_web.Server.Files.{OsError, data_path}
use smart_web.Server.Writing.{
  Os, and_then, temporary, unless_missing, create_entry, commit, remove_data, delete_all,
}
use smart_web.Server.Writing.Laws.{OsLaws}
use smart_web.Server.Handlers.{
  FileRequest, handle_error, only_status, handle_get, answer, copy, put_steps, handle_put,
  handle_delete,
}

take-append : (s t : Bytes) → take (length s) (s ++ t) ≡ s
take-append [] t = refl
take-append (c ∷ s) t = ap (λ x. c ∷ x) (take-append s t)

commit_name : (e : Entry) → take (length (temporary e) - 4) (temporary e) ≡ data_path e
unfolding temporary data_path
commit_name e =
    let split : e.path_dot ++ codes "data-tmp" ≡ data_path e ++ codes "-tmp" =
      unfold data_path in sym (append_assoc e.path_dot (codes "data") (codes "-tmp")) in
    let long : length (e.path_dot ++ codes "data-tmp") - 4 ≡ length (data_path e) =
      omega (arith, ap length split, length-append (data_path e) (codes "-tmp")) in
    rw (long, split) (take-append (data_path e) (codes "-tmp"))

module _ {W : Type 0} where
  pub and_then-none :
      (r : Option OsError × W) (next : W → Option OsError × W) (w : W)
      → and_then r next ≡ (none, w)
      → (v : W) × (r ≡ (none, v)) × (next v ≡ (none, w))
  unfolding and_then
  and_then-none (none, v) next w h = (v, refl, h)
  and_then-none (some err, v) next w h = cc

  answer_good :
      (good : Response) (r : Option OsError × W)
      → (answer good r).0.status ≢ 404
      → (r ≡ (none, (answer good r).1))
  unfolding answer handle_error
  answer_good good (none, w) h = refl
  answer_good good (some err, w) h = absurd (h refl)

module _ {W : Type 0} (os : Os W) (laws : OsLaws os) where
  copy-content :
      (req : FileRequest) (p : Bytes) (w v u : W)
      → os.create p w ≡ (none, v)
      → copy os req p v ≡ (none, u)
      → (os.disk u).content p ≡ inr (req.body, none)
  unfolding copy
  copy-content req p w v u made h =
      let (t, wrote, ended) =
        and_then-none (os.write p req.body v) (λ s. (req.body_error, s)) u h in
      let same : t ≡ u = ap (λ x. x.1) ended in
      rw same at (laws.written p req.body w v t made wrote)

  commit-content :
      (e : Entry) (w v : W)
      → commit os (temporary e) w ≡ (none, v)
      → (os.disk v).content (data_path e) ≡ (os.disk w).content (temporary e)
  unfolding commit
  commit-content e w v h =
      laws.renamed (temporary e) (data_path e) w v (rw (commit_name e, commit) at h)

  put_steps-content :
      (entry : Entry) (req : FileRequest) (w v : W)
      → put_steps os entry req w ≡ (none, v)
      → (os.disk v).content (data_path entry) ≡ inr (req.body, none)
  unfolding put_steps create_entry
  put_steps-content entry req w v h =
      let (a, deleted, h1) = and_then-none _ _ v h in
      let (b, typed, h2) = and_then-none _ _ v h1 in
      let (c, made, h3) = and_then-none _ _ v h2 in
      let (d, copied, committed) = and_then-none _ _ v h3 in
      commit-content entry d v committed ∙ copy-content req (temporary entry) _ c d made copied

  -- Where the file system keeps its promises, a PUT that is not answered by 404, as each failure is,
  -- leaves the entry with the request's body: a GET of the entry in the state that it leaves is answered
  -- by 200 and that body.
  pub handle_get-handle_put :
      (detect : Bytes → Bytes) (entry : Entry) (put get : FileRequest) (w : W)
      → (handle_put os entry put w).0.status ≢ 404
      → get.method ≡ codes "GET"
      → let r = handle_get detect (os.disk (handle_put os entry put w).1) entry get in
        (r.status ≡ 200) × (r.body ≡ put.body)
  unfolding handle_put handle_get
  handle_get-handle_put detect entry put get w h m =
      let steps = put_steps os entry put w in
      let done = answer_good _ steps h in
      let content : (os.disk (handle_put os entry put w).1).content (data_path entry)
          ≡ inr (put.body, none) =
        put_steps-content entry put w _ done in
      rw (content, handle_get, m) (refl, unfold equal in refl)

  removed-content :
      (p : Bytes) (w v : W) (r : Option OsError)
      → os.remove p w ≡ (r, v)
      → unless_missing r ≡ none
      → (err : OsError) × ((os.disk v).content p ≡ inl err)
  unfolding unless_missing
  removed-content p w v none h k = laws.removed p w v h
  removed-content p w v (some err) h k = elim (Bool-cases err.is_not_exist) [
    | inl gone ↦ laws.missing p w v err h gone
    | inr other ↦ cc (rw (other, unless_missing) at k)
  ]

  remove_data-content :
      (e : Entry) (w v : W)
      → remove_data os e w ≡ (none, v)
      → (err : OsError) × ((os.disk v).content (data_path e) ≡ inl err)
  unfolding remove_data data_path
  remove_data-content e w v h =
      let p = e.path_dot ++ codes "data" in
      let same : (os.remove p w).1 ≡ v = ap (λ x. x.1) h in
      rw same at (removed-content p w (os.remove p w).1 (os.remove p w).0 refl (ap (λ x. x.0) h))

  delete_all-content :
      (e : Entry) (w v : W)
      → delete_all os e w ≡ (none, v)
      → (err : OsError) × ((os.disk v).content (data_path e) ≡ inl err)
  unfolding delete_all
  delete_all-content e w v h =
      let (a, first, h1) = and_then-none _ _ v h in
      let (b, second, third) = and_then-none _ _ v h1 in
      let (err, gone) = remove_data-content e w a first in
      let (err', gone') = laws.still_missing _ (data_path e) a b none err second gone in
      laws.still_missing _ (data_path e) b v none err' third gone'

  -- Where the file system keeps its promises, a DELETE that is not answered by 404, as each failure is,
  -- is answered by 204, and a GET of the entry in the state that it leaves is answered by 404.
  pub handle_get-handle_delete :
      (detect : Bytes → Bytes) (entry : Entry) (get : FileRequest) (w : W)
      → (handle_delete os entry w).0.status ≢ 404
      → ((handle_delete os entry w).0.status ≡ 204)
        × ((handle_get detect (os.disk (handle_delete os entry w).1) entry get).status ≡ 404)
  unfolding handle_delete handle_get answer only_status
  handle_get-handle_delete detect entry get w h =
      let steps = delete_all os entry w in
      let done = answer_good _ steps h in
      let (err, gone) = delete_all-content entry w _ done in
      let content : (os.disk (handle_delete os entry w).1).content (data_path entry) ≡ inl err =
        gone in
      (rw (done, answer) refl, rw (content, handle_get) (unfold handle_error in refl))
