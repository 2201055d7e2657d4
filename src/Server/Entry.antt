-- ===== src/Server/Entry.antt =====
-- server/filesystem.go: `FSEntry`, the place of a resource among the files.
pub mod Elements
pub mod Inside
mod Tests
use smart_web.Base.{
  ℕ, zero, suc, ◌+◌, ◌-◌, ◌≤◌, Bool, true, false, not, ◌&&◌, ◌||◌, Option, none, some, List, [],
  ◌∷◌, ◌++◌, map, Bytes, codes, equal, is_empty, length, take, drop, ltb, leb, ◌==◌, if◌then◌else◌,
  join_texts,
}
use smart_web.FilePath.{ends_in_slash, clean, join_paths, split, base}

-- `PathDot`, `name` and `level`; a name is empty for the root and for parameters.
pub record Entry : Type 0 where
  pub path_dot : Bytes
  pub name : Bytes
  pub level : ℕ

-- `CreateFSEntry`
unfoldable pub create_fs_entry : Bytes → Entry
create_fs_entry p = record { path_dot = clean p ++ b'/' ∷ []; name = []; level = 0 }

-- The path of the entry's directory. The source looks at the last byte of a path that is never empty.
unfoldable pub directory : Bytes → Bytes
directory p = if ends_in_slash p then p else p ++ codes "dir/"

-- `Parameters`
unfoldable pub parameters : Entry → Entry
parameters e = record { path_dot = e.path_dot ++ codes "meta"; name = []; level = suc e.level }

-- the cleaned name of a child, without the slash that the cleaning gives it
unfoldable pub child_name : Bytes → Bytes
child_name name = drop 1 (clean (b'/' ∷ name))

-- `Child`, from the cleaned name `n`
unfoldable pub child_at : Entry → Bytes → Bytes → Entry
child_at e name [] = record { path_dot = directory e.path_dot; name = e.name; level = e.level }
child_at e name (c ∷ n) =
    let elements = split (c ∷ n) in
    let p = join_paths (directory e.path_dot) (join_texts (codes ".dir/") elements) ++ b'.' ∷ [] in
    record {
      path_dot = if ends_in_slash name then p ++ codes "dir/" else p;
      name = base (c ∷ n);
      level = e.level + length elements;
    }

-- `Child`
unfoldable pub child : Entry → Bytes → Entry
child e name = child_at e name (child_name name)

-- `Dir`
unfoldable pub dir_entry : Entry → Entry
dir_entry e = record e { path_dot = directory e.path_dot }

-- `p[:n-4]` and `p[n-4:]`, of a path of `n` bytes, which is four or more
unfoldable pub without_4 : Bytes → Bytes
without_4 p = take (length p - 4) p

unfoldable pub last_4 : Bytes → Bytes
last_4 p = drop (length p - 4) p

-- `File`
unfoldable pub file_entry : Entry → Entry
file_entry e =
    if leb (length e.path_dot) 4 || not (equal (last_4 e.path_dot) (codes "dir/"))
    then e
    else record e { path_dot = without_4 e.path_dot }

-- `strings.LastIndex(s, c)` for one byte: none for -1
unfoldable pub last_index : ℕ → Bytes → Option ℕ
last_index c [] = none
last_index c (d ∷ s) = elim (last_index c s) [
  | none ↦ if d == c then some 0 else none
  | some i ↦ some (suc i)
]

-- What `Parent` makes of the path that it has cut: the entry whose directory `dir` with its slash cut
-- off is `p`.
unfoldable pub parent_at : ℕ → Bytes → Option ℕ → Option ℕ → Option Entry
parent_at level p none k = none
parent_at level p (some j) none =
    some (record { path_dot = p ++ b'/' ∷ []; name = take j p; level = level - 1 })
parent_at level p (some j) (some k) =
    if leb j k
    then none
    else some
        (record { path_dot = p ++ b'/' ∷ []; name = drop (k + 1) (take j p); level = level - 1 })

-- where `p[:i]` is the path of the directory
unfoldable pub parent_cut : ℕ → Bytes → Option ℕ → Option Entry
parent_cut level p none = none
parent_cut level p (some i) =
    let d = take i p in
    if level == 0 then none else parent_at level d (last_index b'.' d) (last_index b'/' d)

-- The path that `Parent` looks for a slash in, none for a panic. The test is
-- `n > 4 || p[n-4:] == "dir/"`, so four bytes go whatever they are, and of fewer than four there are no
-- last four.
unfoldable pub entry_file : Bytes → Option Bytes
entry_file p =
    if ltb (length p) 4
    then none
    else if ltb 4 (length p) || equal (last_4 p) (codes "dir/")
    then some (without_4 p)
    else some p

unfoldable pub parent_in : ℕ → Option Bytes → Option (Option Entry)
parent_in level none = none
parent_in level (some p) = some (parent_cut level p (last_index b'/' p))

-- `Parent`: none for a panic, or the entry, if there is one
unfoldable pub parent : Entry → Option (Option Entry)
parent e = parent_in e.level (entry_file e.path_dot)
