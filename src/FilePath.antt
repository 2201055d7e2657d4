-- ===== src/FilePath.antt =====
-- Go's packages path and path/filepath, as they work on slashes.
pub mod Names
pub mod Split
use smart_web.Base.{
  ℕ, Bool, true, false, not, ◌&&◌, ◌||◌, List, [], ◌∷◌, ◌++◌, Bytes, codes, equal, is_empty,
  has_prefix, if◌then◌else◌, ◌==◌,
}

unfoldable pub ends_in_slash : Bytes → Bool
ends_in_slash [] = false
ends_in_slash (c ∷ []) = c == b'/'
ends_in_slash (c ∷ d ∷ s) = ends_in_slash (d ∷ s)

-- the text up to its last slash, the slash included
unfoldable pub up_to_slash : Bytes → Bytes
up_to_slash [] = []
up_to_slash (c ∷ s) =
    let rest = up_to_slash s in
    let last = if c == b'/' then c ∷ [] else [] in if is_empty rest then last else c ∷ rest

-- The elements of a cleaned path, the last one first: `..` takes the element before it away, or
-- stays if there is none to take in a path that is not rooted.
unfoldable pub pop : Bool → List Bytes → List Bytes
pop rooted [] = if rooted then [] else codes ".." ∷ []
pop rooted (e ∷ es) = if equal e (codes "..") then codes ".." ∷ e ∷ es else es

unfoldable pub push : Bool → List Bytes → Bytes → List Bytes
push rooted es e =
    if is_empty e || equal e (codes ".")
    then es
    else if equal e (codes "..")
    then pop rooted es
    else e ∷ es

-- the elements of a text behind `current`, the start of an element
unfoldable pub walk : Bool → Bytes → List Bytes → Bytes → List Bytes
walk rooted current es [] = push rooted es current
walk rooted current es (c ∷ s) =
    let next = walk rooted [] (push rooted es current) s in
    let same = walk rooted (current ++ c ∷ []) es s in if c == b'/' then next else same

-- the elements behind a start, each with a slash behind it
unfoldable pub dir_path : Bytes → List Bytes → Bytes
dir_path start [] = start
dir_path start (e ∷ es) = dir_path start es ++ e ++ b'/' ∷ []

unfoldable pub join : Bool → List Bytes → Bytes
join true [] = codes "/"
join false [] = codes "."
join true (e ∷ es) = dir_path (codes "/") es ++ e
join false (e ∷ es) = dir_path [] es ++ e

-- `filepath.Clean`
unfoldable pub clean : Bytes → Bytes
clean p = let rooted = has_prefix p (codes "/") in join rooted (walk rooted [] [] p)

-- `filepath.Dir`
unfoldable pub dir : Bytes → Bytes
dir p = clean (up_to_slash p)

-- `path.Join` of two elements: an empty one is left out
unfoldable pub join_paths : Bytes → Bytes → Bytes
join_paths p q =
    if is_empty p
    then (if is_empty q then [] else clean q)
    else if is_empty q
    then clean p
    else clean (p ++ b'/' ∷ q)

-- `strings.Split` at slashes, of a text behind `current`
unfoldable pub split_at : Bytes → Bytes → List Bytes
split_at current [] = current ∷ []
split_at current (c ∷ s) =
    let next = current ∷ split_at [] s in
    let same = split_at (current ++ c ∷ []) s in if c == b'/' then next else same

unfoldable pub split : Bytes → List Bytes
split s = split_at [] s

-- the last of the elements
unfoldable pub last_of : List Bytes → Bytes
last_of [] = []
last_of (e ∷ []) = e
last_of (e ∷ f ∷ es) = last_of (f ∷ es)

-- `path.Base` of a path that is not empty and does not end in a slash
unfoldable pub base : Bytes → Bytes
base p = last_of (split p)
