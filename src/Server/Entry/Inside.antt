-- ===== src/Server/Entry/Inside.antt =====
-- server/filesystem.go: where the paths of entries are.
use smart_web.Base.{
  Bool, List, [], ◌∷◌, ◌++◌, map, append_assoc, ◌≡◌, ◌⊎◌, inl, inr, refl, sym, ap, ◌∙◌, Bytes,
  codes, All, All-append, arith, Bool-cases, join_texts,
}
use smart_web.FilePath.{ends_in_slash, dir_path, join_paths, split}
use smart_web.FilePath.Names.{IsName, IsPlain, start}
use smart_web.Server.Entry.{Entry, directory, parameters, child_at, child}
use smart_web.Server.Entry.Elements.{
  dir_path-suffix, append-IsName, dot-IsName, ends_in_slash-plain, ends_in_slash-file,
  join_paths-plain, dir-no_slash, meta-no_slash, meta-IsName, elements, elements-IsName, relative,
  relative-cons_ne, child_name-relative, join_texts-relative, dot_dir-no_slash, map-IsName,
  child_at-path,
}

-- the path of a directory of names, and of a file of it, below the directory of the names `root`
module _ (rooted : Bool) (root : List Bytes) where
  abbrev pub path_of : List Bytes → Bytes
  path_of ns = dir_path (start rooted) (ns ++ root)

  -- A path of plain names that starts with the names of the root: of a directory, or of a file of one.
  unfoldable pub IsInside : Bytes → Type 0
  IsInside p =
      (ns : List Bytes) × All IsName ns
      × ((p ≡ path_of ns) ⊎ ((n : Bytes) × IsName n × (p ≡ path_of ns ++ n)))

  module _ (plain : IsPlain rooted root) where
    IsPlain-below : (ns : List Bytes) → All IsName ns → IsPlain rooted (ns ++ root)
    unfolding IsPlain
    IsPlain-below [] h = unfold IsPlain in plain
    IsPlain-below (n ∷ ns) h =
        let all = All-append IsName (n ∷ ns) root h (unfold IsPlain in plain.0) in
        (all, inr (λ e. cc))

    -- the directory of a path inside is one of names
    directory-IsInside :
        (p : Bytes) → IsInside p → (ns : List Bytes) × All IsName ns × (directory p ≡ path_of ns)
    unfolding directory IsInside
    directory-IsInside p (ns, h, inl e) =
        (ns, h, rw (e, ends_in_slash-plain rooted (ns ++ root) (IsPlain-below ns h)) refl)
    directory-IsInside p (ns, h, inr (n, k, e)) = (
      (n ++ codes "dir") ∷ ns,
      (append-IsName n (codes "dir") k dir-no_slash (omega arith), h),
      rw (e, ends_in_slash-file (path_of ns) n k) (unfold dir_path in simp append_assoc),
    )

    child_at-IsInside :
        (e : Entry) (name : Bytes) (es : List Bytes)
        → All IsName es
        → IsInside e.path_dot
        → IsInside (child_at e name (relative es)).path_dot
    child_at-IsInside e name [] _ h =
        let (ns, k, at) = directory-IsInside e.path_dot h in
        unfold IsInside child_at relative in (ns, k, inl at)
    child_at-IsInside e name (n ∷ es) (k, ks) h =
        let (ns, l, at) = directory-IsInside e.path_dot h in
        let ds = map (λ x. x ++ codes ".dir") es in
        let ls = map-IsName es ks in
        let below = All-append IsName ds ns ls l in
        let path : join_paths (directory e.path_dot)
              (join_texts (codes ".dir/") (split (relative (n ∷ es))))
            ≡ path_of (ds ++ ns) ++ n =
          rw (at, join_texts-relative n es k ks)
            (join_paths-plain rooted (ns ++ root) ds n (IsPlain-below ns l) ls k
              ∙ ap (λ x. dir_path (start rooted) x ++ n) (sym (append_assoc ds ns root))) in
        rw (child_at-path e name _ (relative-cons_ne n es k), path)
          (elim (Bool-cases (ends_in_slash name)) [
            | inl slash ↦ rw slash (
                unfold IsInside in
                (
                  (n ++ codes ".dir") ∷ ds ++ ns,
                  ((append-IsName n (codes ".dir") k dot_dir-no_slash (omega arith)), below),
                  inl (dir_path-suffix (start rooted) (ds ++ ns ++ root) n),
                ))
            | inr file ↦ rw file (
                unfold IsInside in
                (
                  ds ++ ns,
                  below,
                  inr (
                    n ++ b'.' ∷ [],
                    dot-IsName n k,
                    append_assoc (path_of (ds ++ ns)) n (b'.' ∷ []),
                  ),
                ))
          ])

    pub child-IsInside :
        (e : Entry) (name : Bytes) → IsInside e.path_dot → IsInside (child e name).path_dot
    unfolding child
    child-IsInside e name h =
        rw (child_name-relative name)
          (child_at-IsInside e name (elements name) (elements-IsName name) h)

    pub parameters-IsInside : (e : Entry) → IsInside e.path_dot → IsInside (parameters e).path_dot
    unfolding parameters IsInside
    parameters-IsInside e (ns, h, inl at) =
        (ns, h, inr (codes "meta", meta-IsName, ap (λ x. x ++ codes "meta") at))
    parameters-IsInside e (ns, h, inr (n, k, at)) = (
      ns,
      h,
      inr (
        n ++ codes "meta",
        append-IsName n (codes "meta") k meta-no_slash (omega arith),
        rw at (simp append_assoc),
      ),
    )
