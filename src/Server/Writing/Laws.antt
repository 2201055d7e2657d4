-- ===== src/Server/Writing/Laws.antt =====
-- server/filesystem.go: what FSEntry relies on of package os.
use smart_web.Base.{true, Option, none, some, ◌≡◌, inl, inr, Bytes}
use smart_web.Server.Files.{OsError}
use smart_web.Server.Writing.{Os}

-- Where no call fails: a file that has been opened and written has what was written, a file that has
-- been renamed has its content under its new name; and a file that has been removed cannot be read, no
-- more than one that is not there, nor after more has been removed.
pub record OsLaws {W : Type 0} (os : Os W) : Type 0 where
  pub written :
      (p s : Bytes) (w v u : W)
      → os.create p w ≡ (none, v)
      → os.write p s v ≡ (none, u)
      → (os.disk u).content p ≡ inr (s, none)
  pub renamed :
      (p q : Bytes) (w v : W)
      → os.rename p q w ≡ (none, v)
      → (os.disk v).content q ≡ (os.disk w).content p
  pub removed :
      (p : Bytes) (w v : W)
      → os.remove p w ≡ (none, v)
      → (err : OsError) × ((os.disk v).content p ≡ inl err)
  pub missing :
      (p : Bytes) (w v : W) (err : OsError)
      → os.remove p w ≡ (some err, v)
      → err.is_not_exist ≡ true
      → (e : OsError) × ((os.disk v).content p ≡ inl e)
  pub still_missing :
      (p q : Bytes) (w v : W) (r : Option OsError) (err : OsError)
      → os.remove_all p w ≡ (r, v)
      → (os.disk w).content q ≡ inl err
      → (e : OsError) × ((os.disk v).content q ≡ inl e)
