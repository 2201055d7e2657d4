-- ===== src/Server2/Parents.antt =====
-- `urlParents` of server2/server.go, with `filepath.Dir` of Go's library as it works on slashes.
pub mod Ancestors
use smart_web.Base.{
  ℕ, zero, suc, ◌+◌, Bool, true, false, not, ◌&&◌, ◌||◌, List, [], ◌∷◌, ◌++◌, map, Bytes, codes,
  equal, is_empty, has_prefix, length, if◌then◌else◌, ◌==◌,
}
use smart_web.FilePath.{dir}
use smart_web.Server2.Url.{Url}

unfoldable pub trim_slash : Bytes → Bytes
trim_slash [] = []
trim_slash (c ∷ []) = if c == b'/' then [] else c ∷ []
trim_slash (c ∷ d ∷ s) = c ∷ trim_slash (d ∷ s)

-- the path that a round of the loop leaves
unfoldable pub parent_path : Bytes → Bytes
parent_path p = let d = dir (trim_slash p) in if equal d (codes "/") then d else d ++ b'/' ∷ []

-- A round looks at the last byte of the path, and panics if there is none.
pub data Paths : Type 0 where
  paths : List Bytes → Paths
  index_panic : Paths
  out_of_fuel : Paths

unfoldable pub add_path : Bytes → Paths → Paths
add_path p (paths ps) = paths (p ∷ ps)
add_path p index_panic = index_panic
add_path p out_of_fuel = out_of_fuel

-- the paths that the loop goes through
unfoldable pub parent_paths : ℕ → Bytes → Paths
parent_paths zero p = out_of_fuel
parent_paths (suc fuel) p =
    let rest = add_path (parent_path p) (parent_paths fuel (parent_path p)) in
    if equal p (codes "/") then paths [] else if is_empty p then index_panic else rest

-- the chain in front of the loop: the URL, and without its fragment, and without its query
unfoldable pub without_fragment : Url → List Url
without_fragment u = if not (is_empty u.fragment) then record u { fragment = [] } ∷ [] else []

unfoldable pub without_query : Url → List Url
without_query u = if not (is_empty u.raw_query) then record u { raw_query = [] } ∷ [] else []

pub data Chain : Type 0 where
  chain : List Url → Chain
  chain_panic : Chain
  chain_out_of_fuel : Chain

unfoldable pub with_paths : List Url → Url → Paths → Chain
with_paths front u (paths ps) = chain (front ++ map (λ p. record u { path = p }) ps)
with_paths front u index_panic = chain_panic
with_paths front u out_of_fuel = chain_out_of_fuel

unfoldable pub url_parents : Url → Chain
url_parents u =
    let bare = record u { fragment = [] } in
    with_paths (u ∷ (without_fragment u ++ without_query bare)) (record bare { raw_query = [] })
      (parent_paths (suc (length u.path)) u.path)
