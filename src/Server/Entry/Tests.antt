-- ===== src/Server/Entry/Tests.antt =====
-- The entries of filesystem_test.go.
use smart_web.Base.{none, ◌≡◌, refl, codes, equal, has_prefix, some, join_texts}
use smart_web.FilePath.{
  ends_in_slash, clean, join_paths, split, split_at, base, last_of, walk, push, pop, join, dir_path,
}
use smart_web.Server.Entry.{
  Entry, create_fs_entry, parent_in, directory, child_name, child_at, child, parent, parent_at,
  parent_cut, entry_file, without_4, last_4, last_index,
}

abbrev root : Entry
root = create_fs_entry (codes "~/")

index :
    child (child root (codes "html")) (codes "index.html")
    ≡ record { path_dot = codes "~/html.dir/index.html."; name = codes "index.html"; level = 2 }
unfolding child child_at child_name directory create_fs_entry clean walk push pop join dir_path
    join_paths split split_at base last_of join_texts ends_in_slash equal has_prefix
index = refl

index_2 :
    child root (codes "html/../a/index.html/")
    ≡ record { path_dot = codes "~/a.dir/index.html.dir/"; name = codes "index.html"; level = 2 }
unfolding child child_at child_name directory create_fs_entry clean walk push pop join dir_path
    join_paths split split_at base last_of join_texts ends_in_slash equal has_prefix
index_2 = refl

parent_of_index :
    parent
      (record { path_dot = codes "~/html.dir/index.html."; name = codes "index.html"; level = 2 })
    ≡ some (some (record { path_dot = codes "~/html.dir/"; name = codes "html"; level = 1 }))
unfolding parent parent_in parent_at parent_cut entry_file without_4 last_4 last_index equal
parent_of_index = refl

-- a name of two bytes: the directory that holds the entry is passed over
parent_of_short :
    parent (record { path_dot = codes "~/html.dir/b.dir/ab."; name = codes "ab"; level = 3 })
    ≡ some (some (record { path_dot = codes "~/html.dir/"; name = codes "html"; level = 2 }))
unfolding parent parent_in parent_at parent_cut entry_file without_4 last_4 last_index equal
parent_of_short = refl

-- a root of two bytes
parent_of_root : parent (create_fs_entry (codes "/")) ≡ none
unfolding parent parent_in entry_file create_fs_entry clean walk split split_at join has_prefix push
parent_of_root = refl
