-- ===== src/Server/Files.antt =====
-- server/filesystem.go: what the operations of FSEntry read from the file system, a parameter.
use smart_web.Base.{
  ℕ, suc, Bool, true, false, ◌&&◌, ◌||◌, Option, none, some, List, [], ◌∷◌, ◌++◌, ◌⊎◌, inl, inr,
  Bytes, codes, equal, ltb, ◌==◌, take, if◌then◌else◌,
}
use smart_web.FilePath.{join_paths}
use smart_web.Server.Entry.{Entry, directory, last_index}

-- An error of package os: its text, and what `os.IsExist` and `os.IsNotExist` say of it.
pub record OsError : Type 0 where
  pub text : Bytes
  pub is_exist : Bool
  pub is_not_exist : Bool

-- What os answers for each path: `os.Stat`, an error of opening a file, or what is read of it, with the
-- error that ends this, none for its end, and the
-- names in a directory, with the error that `Readdirnames` returns beside them.
pub record Disk : Type 0 where
  pub stat : Bytes → Option OsError
  pub content : Bytes → OsError ⊎ (Bytes × Option OsError)
  pub names : Bytes → OsError ⊎ (List Bytes × Option OsError)

unfoldable pub data_path : Entry → Bytes
data_path e = e.path_dot ++ codes "data"

-- `Exists`, which is true when `os.Stat` fails
unfoldable pub exists : Disk → Entry → Bool
exists disk e = elim (disk.stat (data_path e)) [ none ↦ false | some err ↦ true ]

unfoldable pub read_all : OsError ⊎ (Bytes × Option OsError) → OsError ⊎ Bytes
read_all (inl err) = inl err
read_all (inr (s, none)) = inr s
read_all (inr (s, some err)) = inl err

-- `Read`
unfoldable pub read : Disk → Entry → OsError ⊎ Bytes
read disk e = read_all (disk.content (data_path e))

-- `s < t` on strings
unfoldable pub is_before : Bytes → Bytes → Bool
is_before s [] = false
is_before [] (d ∷ t) = true
is_before (c ∷ s) (d ∷ t) = ltb c d || (c == d && is_before s t)

-- `sort.Strings`
unfoldable pub insert_sorted : Bytes → List Bytes → List Bytes
insert_sorted s [] = s ∷ []
insert_sorted s (t ∷ ts) =
    let later = t ∷ insert_sorted s ts in if is_before t s then later else s ∷ t ∷ ts

unfoldable pub sort_strings : List Bytes → List Bytes
sort_strings [] = []
sort_strings (s ∷ ss) = insert_sorted s (sort_strings ss)

unfoldable pub child_entry : Bytes → ℕ → Bytes → Entry
child_entry p level name = record {
  path_dot = join_paths p name ++ b'.' ∷ [];
  name = name;
  level = suc level;
}

-- The loop of `Children`: `later` is `i > 0`, and `last` is `lastName`.
unfoldable pub children_of : Bytes → ℕ → Bool → Bytes → List Bytes → List Entry
children_of p level later last [] = []
children_of p level later last (name ∷ names) =
    let skipped = children_of p level true last names in
    elim (last_index b'.' name) [
      | none ↦ skipped
      | some j ↦
          if later && equal last (take j name)
          then skipped
          else child_entry p level (take j name) ∷ children_of p level true (take j name) names
    ]

-- `Children`, the entries and the error
unfoldable pub children : Disk → Entry → List Entry × Option OsError
children disk e = elim (disk.names (directory e.path_dot)) [
  | inl err ↦ ([], some err)
  | inr (names, err) ↦
      (children_of (directory e.path_dot) e.level false [] (sort_strings names), err)
]

unfoldable pub has_entries : List Entry × Option OsError → Bool
has_entries ([], err) = false
has_entries (e ∷ es, none) = true
has_entries (e ∷ es, some err) = false

-- `DirExists`
unfoldable pub dir_exists : Disk → Entry → Bool
dir_exists disk e = has_entries (children disk e)
