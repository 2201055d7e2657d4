-- ===== src/Server/Paths.antt =====
-- server/server.go: `getEntry`, which entry of the files a request is about.
mod Tests
use smart_web.Base.{
  Bool, List, [], ◌∷◌, ◌++◌, ◌≡◌, refl, ap, ◌∙◌, Bytes, codes, is_empty, if◌then◌else◌, All, inl,
  inr, sym,
}
use smart_web.FilePath.{clean, join, dir_path, walk}
use smart_web.FilePath.Names.{IsName, IsPlain, start, clean-plain, walk-last, push-name}
use smart_web.Server.Entry.{Entry, create_fs_entry, parameters, child}
use smart_web.Server.Entry.Elements.{join-start}
use smart_web.Server.Entry.Inside.{IsInside, child-IsInside, parameters-IsInside}

-- the directory of a host
unfoldable pub host_name : Bytes → Bytes
host_name host = if is_empty host then codes "host" else host ++ codes ".host"

-- the entries of metadata, each of the one before it
unfoldable pub meta_entry : Entry → List Bytes → Entry
meta_entry entry [] = entry
meta_entry entry (meta ∷ metas) = meta_entry (child (parameters entry) meta) metas

-- `getEntry`, of the URL's path and of the values of `meta` in its query
unfoldable pub get_entry : Entry → Bytes → Bytes → List Bytes → Entry
get_entry root host path metas = meta_entry (child (child root (host_name host)) path) metas

module _ (rooted : Bool) (root : List Bytes) (plain : IsPlain rooted root) where
  meta_entry-IsInside :
      (e : Entry) (metas : List Bytes)
      → IsInside rooted root e.path_dot
      → IsInside rooted root (meta_entry e metas).path_dot
  unfolding meta_entry
  meta_entry-IsInside e [] h = h
  meta_entry-IsInside e (meta ∷ metas) h =
      let p = parameters-IsInside rooted root plain e h in
      meta_entry-IsInside (child (parameters e) meta) metas
        (child-IsInside rooted root plain (parameters e) meta p)

create_fs_entry-path :
    (rooted : Bool) (ds : List Bytes) (d : Bytes)
    → IsPlain rooted ds
    → IsName d
    → (create_fs_entry (dir_path (start rooted) ds ++ d)).path_dot
      ≡ dir_path (start rooted) (d ∷ ds)
unfolding create_fs_entry
create_fs_entry-path rooted ds d h k =
    let cleaned : clean (dir_path (start rooted) ds ++ d) ≡ dir_path (start rooted) ds ++ d =
      clean-plain rooted ds d h
      ∙ ap (join rooted) (walk-last rooted d [] ds (unfold IsName in k.1) ∙ push-name rooted ds d k)
      ∙ join-start rooted ds d in
    rw cleaned (unfold dir_path in refl)

root-IsInside :
    (rooted : Bool) (ds : List Bytes) (d : Bytes)
    → IsPlain rooted ds
    → IsName d
    → IsInside rooted (d ∷ ds) (create_fs_entry (dir_path (start rooted) ds ++ d)).path_dot
unfolding IsInside
root-IsInside rooted ds d h k = ([], tt, inl (create_fs_entry-path rooted ds d h k))

-- With a root directory of plain names, the entry of a request is below that directory, whatever the
-- host, the path and the values of `meta` that the client sends.
pub get_entry-IsInside :
    (rooted : Bool) (ds : List Bytes) (d host path : Bytes) (metas : List Bytes)
    → IsPlain rooted ds
    → IsName d
    → IsInside rooted
        (d ∷ ds)
        (get_entry (create_fs_entry (dir_path (start rooted) ds ++ d)) host path metas).path_dot
unfolding get_entry
get_entry-IsInside rooted ds d host path metas h k =
    let plain : IsPlain rooted (d ∷ ds) = unfold IsPlain in ((k, h.0), inr (λ e. cc)) in
    let root = create_fs_entry (dir_path (start rooted) ds ++ d) in
    let at_host =
      child-IsInside rooted (d ∷ ds) plain root (host_name host) (root-IsInside rooted ds d h k) in
    meta_entry-IsInside rooted (d ∷ ds) plain (child (child root (host_name host)) path) metas
      (child-IsInside rooted (d ∷ ds) plain (child root (host_name host)) path at_host)
