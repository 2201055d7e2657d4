-- ===== src/Server2/Parents/Ancestors.antt =====
-- server2/server.go: the chain of `urlParents` for a path of plain names.
use smart_web.Base.{
  append_cons_ne, is_empty_ne, ℕ, zero, suc, ◌<◌, true, false, List, [], ◌∷◌, ◌++◌, map, append-nil,
  length, length-append, ◌≡◌, ◌≢◌, ◌⊎◌, inl, inr, refl, sym, ap, ◌∙◌, Bytes, codes, equal, is_empty,
  if◌then◌else◌, ==_ne, All, arith,
}
use smart_web.Server2.Url.{Url}
use smart_web.FilePath.{dir_path, join}
use smart_web.FilePath.Names.{IsName, dir_path-cons, dir-file, length-dir_path, file_equal-root}
use smart_web.Server2.Parents.{
  trim_slash, parent_path, paths, add_path, parent_paths, without_fragment, without_query, chain,
  with_paths, url_parents,
}

trim_slash-last : (x : Bytes) → trim_slash (x ++ b'/' ∷ []) ≡ x
unfolding trim_slash
trim_slash-last [] = refl
trim_slash-last (c ∷ []) = refl
trim_slash-last (c ∷ d ∷ x) = ap (λ y. c ∷ y) (trim_slash-last (d ∷ x))

trim_slash-name : (x n : Bytes) → n ≢ [] → All (λ c. c ≢ b'/') n → trim_slash (x ++ n) ≡ x ++ n
unfolding trim_slash
trim_slash-name [] [] h _ = refl
trim_slash-name [] (c ∷ []) h (p, _) = rw (==_ne c b'/' p) refl
trim_slash-name [] (c ∷ d ∷ n) h (p, ps) = ap (λ y. c ∷ y) (trim_slash-name [] (d ∷ n) (λ e. cc) ps)
trim_slash-name (c ∷ []) [] h _ = absurd (h refl)
trim_slash-name (c ∷ []) (d ∷ n) h p = ap (λ y. c ∷ y) (trim_slash-name [] (d ∷ n) h p)
trim_slash-name (c ∷ e ∷ x) n h p = ap (λ y. c ∷ y) (trim_slash-name (e ∷ x) n h p)

slashed :
    (ns : List Bytes)
    → All IsName ns
    → (if equal (join true ns) (codes "/") then join true ns else join true ns ++ b'/' ∷ [])
      ≡ dir_path (codes "/") ns
unfolding dir_path join
slashed [] _ = unfold equal in refl
slashed (n ∷ ns) (h, hs) =
    let differ : equal (dir_path (codes "/") ns ++ n) (codes "/") ≡ false =
      ap (λ x. equal x (codes "/")) (sym (append-nil _))
      ∙ file_equal-root ns n [] hs (unfold IsName in h.0) in
    rw differ refl

parent_path-file :
    (ns : List Bytes) (n : Bytes)
    → All IsName ns
    → IsName n
    → parent_path (dir_path (codes "/") ns ++ n) ≡ dir_path (codes "/") ns
unfolding parent_path IsName
parent_path-file ns n h k =
    rw (trim_slash-name (dir_path (codes "/") ns) n k.0 k.1, dir-file ns n h k.1) (slashed ns h)

parent_path-dir :
    (ns : List Bytes) (n : Bytes)
    → All IsName ns
    → IsName n
    → parent_path (dir_path (codes "/") (n ∷ ns)) ≡ dir_path (codes "/") ns
unfolding parent_path IsName
parent_path-dir ns n h k =
    let trimmed : trim_slash (dir_path (codes "/") (n ∷ ns)) ≡ dir_path (codes "/") ns ++ n =
      unfold dir_path in trim_slash-last (dir_path (codes "/") ns ++ n) in
    rw (trimmed, dir-file ns n h k.1) (slashed ns h)

-- the directories above one, the nearest first and the root last
above : List Bytes → List Bytes
above [] = []
above (n ∷ ns) = dir_path (codes "/") ns ∷ above ns

-- a directory, and those above it
pub ancestors : List Bytes → List Bytes
unfolding above
ancestors ns = dir_path (codes "/") ns ∷ above ns

parent_paths-dir :
    (fuel : ℕ) (ns : List Bytes)
    → All IsName ns
    → length ns < fuel
    → parent_paths fuel (dir_path (codes "/") ns) ≡ paths (above ns)
unfolding parent_paths above
parent_paths-dir zero ns h m = absurd (omega arith)
parent_paths-dir (suc fuel) [] h m = unfold dir_path equal in refl
parent_paths-dir (suc fuel) (n ∷ ns) (h, hs) m =
    let differ : equal (dir_path (codes "/") (n ∷ ns)) (codes "/") ≡ false =
      unfold dir_path IsName in file_equal-root ns n (b'/' ∷ []) hs h.0 in
    let filled : is_empty (dir_path (codes "/") (n ∷ ns)) ≡ false =
      unfold dir_path in is_empty_ne _ (append_cons_ne (dir_path (codes "/") ns ++ n) [] b'/') in
    rw (differ, filled, parent_path-dir ns n hs h, parent_paths-dir fuel ns hs (omega arith))
      (unfold add_path in refl)

parent_paths-file :
    (fuel : ℕ) (ns : List Bytes) (n : Bytes)
    → All IsName ns
    → IsName n
    → length ns < fuel
    → parent_paths (suc fuel) (dir_path (codes "/") ns ++ n) ≡ paths (ancestors ns)
unfolding parent_paths ancestors
parent_paths-file fuel ns n h k m =
    let differ : equal (dir_path (codes "/") ns ++ n) (codes "/") ≡ false =
      ap (λ x. equal x (codes "/")) (sym (append-nil _))
      ∙ file_equal-root ns n [] h (unfold IsName in k.0) in
    let filled : is_empty (dir_path (codes "/") ns ++ n) ≡ false = rw ((dir_path-cons ns).1) refl in
    rw (differ, filled, parent_path-file ns n h k, parent_paths-dir fuel ns h m)
      (unfold add_path in refl)

parent_paths-ancestors :
    (p : Bytes) (ns : List Bytes) (n : Bytes)
    → All IsName ns
    → IsName n
    → (p ≡ dir_path (codes "/") ns ++ n) ⊎ (p ≡ dir_path (codes "/") ns ++ n ++ b'/' ∷ [])
    → parent_paths (suc (length p)) p ≡ paths (ancestors ns)
unfolding ancestors above
parent_paths-ancestors p ns n h k (inl file) = rw file (
    parent_paths-file _ ns n h k
      (omega (arith, length-dir_path ns h, length-append (dir_path (codes "/") ns) n)))
parent_paths-ancestors p ns n h k (inr folder) =
    let bound : length (n ∷ ns) < length (dir_path (codes "/") (n ∷ ns)) =
      length-dir_path (n ∷ ns) (k, h) in
    let is_dir : p ≡ dir_path (codes "/") (n ∷ ns) = unfold dir_path in folder in
    rw is_dir (parent_paths-dir _ (n ∷ ns) (k, h) (omega arith))

-- For a path of plain names behind a slash, with a slash behind the last name or with none,
-- `urlParents` ends without a panic, and returns the URL, the URL without its fragment and without its
-- query where it has these, and then the directory that holds the last name and each directory above
-- it, up to the root.
pub url_parents-ancestors :
    (u : Url) (ns : List Bytes) (n : Bytes)
    → All IsName ns
    → IsName n
    → (u.path ≡ dir_path (codes "/") ns ++ n) ⊎ (u.path ≡ dir_path (codes "/") ns ++ n ++ b'/' ∷ [])
    → url_parents u
      ≡ chain (
          (u ∷ (without_fragment u ++ without_query (record u { fragment = [] })))
          ++ map (λ p. record u { path = p; raw_query = []; fragment = [] }) (ancestors ns))
unfolding url_parents with_paths
url_parents-ancestors u ns n h k q =
    ap
      (with_paths (u ∷ (without_fragment u ++ without_query (record u { fragment = [] })))
        (record u { fragment = []; raw_query = [] }))
      (parent_paths-ancestors u.path ns n h k q)
