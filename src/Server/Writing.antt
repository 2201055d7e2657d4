-- ===== src/Server/Writing.antt =====
-- server/filesystem.go: the operations of FSEntry that change the file system.
pub mod Laws
pub mod Memory
use smart_web.Base.{
  ℕ, ◌-◌, Bool, true, false, not, ◌&&◌, Option, none, some, List, [], ◌∷◌, ◌++◌, ◌⊎◌, inl, inr,
  Bytes, codes, take, length, if◌then◌else◌,
}
use smart_web.FilePath.{dir}
use smart_web.Server.Entry.{Entry}
use smart_web.Server.Files.{OsError, Disk}

-- Package os over the states `W` of a file system: what can be read in a state, and the calls that
-- change it, each with its error. `create` opens an empty file, to which `write` adds.
pub record Os (W : Type 0) : Type 0 where
  pub disk : W → Disk
  pub mkdir_all : Bytes → W → W
  pub create : Bytes → W → Option OsError × W
  pub write : Bytes → Bytes → W → Option OsError × W
  pub rename : Bytes → Bytes → W → Option OsError × W
  pub remove : Bytes → W → Option OsError × W
  pub remove_all : Bytes → W → Option OsError × W

-- a step that is taken unless the one before it has failed
unfoldable pub and_then :
    {W : Type 0} → Option OsError × W → (W → Option OsError × W) → Option OsError × W
and_then (none, w) next = next w
and_then (some err, w) next = (some err, w)

-- `f.Name()` of the file that `Create` opens
unfoldable pub temporary : Entry → Bytes
temporary e = e.path_dot ++ codes "data-tmp"

-- the error of `os.Remove` that `Delete` returns: none for a file that is not there
unfoldable pub unless_missing : Option OsError → Option OsError
unless_missing none = none
unless_missing (some err) = if err.is_not_exist then none else some err

module _ {W : Type 0} (os : Os W) where
  -- `Create`
  unfoldable pub create_entry : Entry → W → Option OsError × W
  create_entry e w = os.create (temporary e) (os.mkdir_all (dir e.path_dot) w)

  -- `Commit`, of the file with the name `old`
  unfoldable pub commit : Bytes → W → Option OsError × W
  commit old w = os.rename old (take (length old - 4) old) w

  -- What `Write` does with the file once it is open: it is committed also when the write has failed.
  unfoldable pub write_and_commit : Bytes → Bytes → W → Option OsError × W
  write_and_commit old s w =
      let (err, w') = os.write old s w in let (ignored, w'') = commit old w' in (err, w'')

  -- `Write`
  unfoldable pub write_entry : Entry → Bytes → W → Option OsError × W
  write_entry e s w = and_then (create_entry e w) (λ v. write_and_commit (temporary e) s v)

  -- `Delete`, with which `DeleteAll` begins
  unfoldable pub remove_data : Entry → W → Option OsError × W
  remove_data e w =
      let (err, w') = os.remove (e.path_dot ++ codes "data") w in (unless_missing err, w')

  -- `DeleteAll`
  unfoldable pub delete_all : Entry → W → Option OsError × W
  delete_all e w = and_then (remove_data e w) (λ v.
      and_then (os.remove_all (e.path_dot ++ codes "meta") v)
        (λ u. os.remove_all (e.path_dot ++ codes "metadir") u))
