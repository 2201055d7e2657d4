-- ===== src/Server/Paths/Tests.antt =====
-- Requests of a client.
use smart_web.Base.{
  [], ◌∷◌, ◌++◌, ◌≡◌, inl, refl, codes, Bytes, true, equal, has_prefix, join_texts,
}
use smart_web.FilePath.{
  ends_in_slash, clean, join_paths, split, split_at, base, last_of, walk, push, pop, join, dir_path,
}
use smart_web.FilePath.Names.{IsName, IsPlain}
use smart_web.Server.Entry.{create_fs_entry, directory, parameters, child_name, child_at, child}
use smart_web.Server.Entry.Inside.{IsInside}
use smart_web.Server.Paths.{get_entry, meta_entry, host_name, get_entry-IsInside}

climbing :
    (get_entry
      (create_fs_entry (codes "/srv/data"))
      (codes "a.org")
      (codes "/../../etc/passwd")
      (codes "../x" ∷ [])).path_dot
    ≡ codes "/srv/data/a.org.host.dir/etc.dir/passwd.metadir/x."
unfolding get_entry meta_entry host_name create_fs_entry parameters child child_at child_name
    directory clean walk push pop join dir_path join_paths split split_at base last_of join_texts
    ends_in_slash equal has_prefix
climbing = refl

abbrev data_name : Bytes
data_name = codes "data"

srv-IsName : IsName (codes "srv")
unfolding IsName
srv-IsName = ((λ e. cc), ((λ e. cc), ((λ e. cc), ((λ e. cc), tt))), (λ e. cc), (λ e. cc))

data-IsName : IsName data_name
unfolding IsName
data-IsName =
    ((λ e. cc), ((λ e. cc), ((λ e. cc), ((λ e. cc), ((λ e. cc), tt)))), (λ e. cc), (λ e. cc))

srv-IsPlain : IsPlain true (codes "srv" ∷ [])
unfolding IsPlain
srv-IsPlain = ((srv-IsName, tt), inl refl)

get_entry-IsInside_example :
    IsInside true
      (data_name ∷ codes "srv" ∷ [])
      (get_entry
        (create_fs_entry (dir_path (codes "/") (codes "srv" ∷ []) ++ data_name))
        (codes "a.org")
        (codes "/../../etc/passwd")
        (codes "../x" ∷ [])).path_dot
get_entry-IsInside_example =
    get_entry-IsInside true (codes "srv" ∷ []) data_name (codes "a.org") (codes "/../../etc/passwd")
      (codes "../x" ∷ []) srv-IsPlain data-IsName
