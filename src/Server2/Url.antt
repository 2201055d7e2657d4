-- ===== src/Server2/Url.antt =====
-- The parts of net/url's URL that server2 looks at, and `isSubUrl` of server2/bundle.go.
pub mod Below
use smart_web.FilePath.{ends_in_slash}
use smart_web.Base.{
  ℕ, suc, ◌+◌, Bool, true, false, not, ◌&&◌, ◌||◌, Option, none, some, List, [], ◌∷◌, ◌++◌,
  append_assoc, ◌≡◌, ◌≢◌, ◌⊎◌, inl, inr, refl, sym, ◌∙◌, ap, arith, Bytes, codes, equal, equal_iff,
  has_prefix, is_empty, ◌==◌, if◌then◌else◌, Bool-cases,
}

-- `user` is a pointer in the source, and is compared as one: none for nil.
pub record Url : Type 0 where
  pub scheme : Bytes
  pub opaque : Bytes
  pub user : Option ℕ
  pub host : Bytes
  pub path : Bytes
  pub raw_query : Bytes
  pub fragment : Bytes

same_pointer : Option ℕ → Option ℕ → Bool
same_pointer none none = true
same_pointer (some p) (some q) = p == q
same_pointer _ _ = false

unfoldable pub with_slash : Bytes → Bytes
unfolding ends_in_slash
with_slash p = if ends_in_slash p then p else p ++ b'/' ∷ []

unfoldable pub is_sub_url : Url → Url → Bool
unfolding same_pointer
is_sub_url base u =
    if not (equal base.scheme u.scheme)
      || not (equal base.opaque u.opaque)
      || not (same_pointer base.user u.user)
      || not (equal base.host u.host)
    then false
    else if equal base.path u.path || is_empty base.path
    then true
    else has_prefix u.path (with_slash base.path)
