-- ===== src/Server/Domains/Nearest.antt =====
-- server/auth.go: the permission that decides, and the directories that are asked for it.
use smart_web.Base.{false, some, All, List, [], ◌∷◌, ◌++◌, ◌≡◌, ◌⊎◌, inl, inr, Bytes, codes}
use smart_web.Server.Entry.{Entry, child}
use smart_web.Server.Files.{OsError, Disk, read, dir_exists, data_path}
use smart_web.Server.Domains.Trimmed.{IsAllow}
use smart_web.Server.Domains.{auths_of, ends_at}

-- A permission file is read and says `allow`.
pub Says : OsError ⊎ Bytes → Type 0
Says (inl err) = ⊥
Says (inr text) = IsAllow text

-- `os.Stat` has an error for a file.
pub IsMissing : Disk → Entry → Type 0
IsMissing disk ent = (err : OsError) × (disk.stat (data_path ent) ≡ some err)

-- A permission file cannot be read, and leaves it to what comes next.
pub IsSilent : OsError ⊎ Bytes → Type 0
IsSilent (inl err) = err.is_exist ≡ false
IsSilent (inr text) = ⊥

module _ (disk : Disk) (name method : Bytes) where
  -- The domain as one of the entries keeps it, and its two permission files.
  abbrev pub domain_at : Entry → Entry
  domain_at ent = child (auths_of ent) name

  abbrev pub own_perm : Entry → OsError ⊎ Bytes
  own_perm ent = read disk (child (domain_at ent) (method ++ codes ".perm"))

  abbrev pub default_perm : Entry → OsError ⊎ Bytes
  default_perm ent = read disk (child (domain_at ent) (codes "default.perm"))

  -- The permission for the method says `allow`, or there is none and the default one does.
  pub Decides : Entry → Type 0
  Decides ent = Says (own_perm ent) ⊎ (IsSilent (own_perm ent) × Says (default_perm ent))

  -- There is no permission, and the directory has no files of the domain, or its `inherit` is one that
  -- `os.Stat` has an error for.
  pub PassesOn : Entry → Type 0
  PassesOn ent =
      IsSilent (own_perm ent)
      × IsSilent (default_perm ent)
      × ((dir_exists disk (domain_at ent) ≡ false)
          ⊎ IsMissing disk (child (domain_at ent) (codes "inherit")))

  -- The first of the entries that does not pass the question on says `allow`.
  pub NearestAllows : List Entry → Type 0
  NearestAllows ents =
      (before : List Entry) × (ent : Entry) × (after : List Entry) × (ents ≡ before ++ ent ∷ after)
      × All PassesOn before
      × Decides ent

  -- the same, from one entry to the next
  Walks : List Entry → Type 0
  Walks [] = ⊥
  Walks (ent ∷ ents) =
      Says (own_perm ent)
      ⊎ (IsSilent (own_perm ent)
          × (Says (default_perm ent)
              ⊎ (IsSilent (default_perm ent)
                  × ((ends_at disk (domain_at ent) ≡ false) × Walks ents))))
