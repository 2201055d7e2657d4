-- ===== src/Server/Domains.antt =====
-- server/auth.go: the domains, users and permissions in the metadata of an entry and of the
-- directories that hold it.
pub mod Nearest
pub mod Chains
pub mod Trimmed
use smart_web.Base.{
  ℕ, zero, suc, ◌+◌, ◌-◌, Bool, true, false, not, ◌&&◌, ◌||◌, Option, none, some, List, [], ◌∷◌,
  ◌++◌, map, ◌⊎◌, inl, inr, Bytes, codes, equal, is_empty, has_prefix, ltb, leb, ◌==◌, within, drop,
  length, if◌then◌else◌, replace,
}
use smart_web.FilePath.{clean}
use smart_web.Server.Entry.{Entry, parameters, child, parent}
use smart_web.Server.Files.{OsError, Disk, exists, read, children, dir_exists}

-- `AnonymousAuthDomain`
abbrev pub anonymous_auth_domain : Bytes
anonymous_auth_domain = codes "anonymous"

-- What the loops `for ent := entry; ent != nil; ent = ent.Parent(true)` run through; each parent's
-- level is one less, so the level is enough fuel. An entry whose `Parent` panics is the last one of the
-- list; a loop that goes on past it panics too, which is left aside.
unfoldable pub chain_on : ℕ → Entry → List Entry
chain_on zero e = e ∷ []
chain_on (suc fuel) e = elim (parent e) [
  | none ↦ e ∷ []
  | some none ↦ e ∷ []
  | some (some p) ↦ e ∷ chain_on fuel p
]

unfoldable pub chain : Entry → List Entry
chain e = chain_on e.level e

-- `entry.Parameters().Child("auth")`
unfoldable pub auths_of : Entry → Entry
auths_of e = child (parameters e) (codes "auth")

-- the encodings of the runes that `unicode.IsSpace` holds for
unfoldable pub space_runes : List Bytes
space_runes =
    map (λ c. c ∷ []) (9 ∷ 10 ∷ 11 ∷ 12 ∷ 13 ∷ 32 ∷ [])
    ++ map (λ c. 194 ∷ c ∷ []) (133 ∷ 160 ∷ [])
    ++ map (λ c. 226 ∷ 128 ∷ c ∷ [])
        (128 ∷ 129 ∷ 130 ∷ 131 ∷ 132 ∷ 133 ∷ 134 ∷ 135 ∷ 136 ∷ 137 ∷ 138 ∷ 168 ∷ 169 ∷ 175 ∷ [])
    ++ (225 ∷ 154 ∷ 128 ∷ []) ∷ (226 ∷ 129 ∷ 159 ∷ []) ∷ (227 ∷ 128 ∷ 128 ∷ []) ∷ []

-- the length of the first of the texts that `s` begins with, or 0
unfoldable pub prefix_length : List Bytes → Bytes → ℕ
prefix_length [] s = 0
prefix_length (p ∷ ps) s = if has_prefix s p then length p else prefix_length ps s

-- the loop that cuts such texts off, on one more than the length of the text
unfoldable pub trim_front : List Bytes → ℕ → Bytes → Bytes
trim_front ps zero s = s
trim_front ps (suc fuel) s =
    let n = prefix_length ps s in
    let rest = trim_front ps fuel (drop n s) in if n == 0 then s else rest

unfoldable pub reverse_onto : Bytes → Bytes → Bytes
reverse_onto [] t = t
reverse_onto (c ∷ s) t = reverse_onto s (c ∷ t)

unfoldable pub reversed : Bytes → Bytes
reversed s = reverse_onto s []

unfoldable pub trim_left : List Bytes → Bytes → Bytes
trim_left ps s = trim_front ps (suc (length s)) s

-- `strings.TrimSpace`
unfoldable pub trim_space : Bytes → Bytes
trim_space s = reversed (trim_left (map reversed space_runes) (reversed (trim_left space_runes s)))

-- `strings.TrimSpace(string(data)) == "allow"`
unfoldable pub says_allow : Bytes → Bool
says_allow text = equal (trim_space text) (codes "allow")

-- Whether the request is allowed, whether a permission was found, and the error.
pub record Perms : Type 0 where
  pub allow : Bool
  pub found : Bool
  pub failure : Option OsError

-- What a permission file decides, by its content or the error of reading it; `next` where it is left
-- to what comes after it.
unfoldable pub perm_or : Perms → OsError ⊎ Bytes → Perms
perm_or next (inr text) = record { allow = says_allow text; found = true; failure = none }
perm_or next (inl err) =
    if err.is_exist then record { allow = false; found = true; failure = some err } else next

-- `AuthDomain`
pub record AuthDomain : Type 0 where
  pub realm : Bytes
  pub entry : Option Entry

-- the loop over the names in `res_auths`
unfoldable pub is_listed : Bytes → List Bytes → Bool
is_listed name [] = false
is_listed name (v ∷ vs) = equal v name || is_listed name vs

-- the loop over the domains of one entry
unfoldable pub add_domains : List Bytes → List Entry → List Bytes
add_domains res [] = res
add_domains res (auth ∷ auths) =
    let kept = add_domains res auths in
    let longer = add_domains (res ++ auth.name ∷ []) auths in
    if equal auth.name anonymous_auth_domain || is_listed auth.name res then kept else longer

unfoldable pub realm_text : Option Bytes → Bytes
realm_text none = []
realm_text (some realm) = realm

module _ (disk : Disk) where
  -- Whether the walk ends at the domain `auth`.
  unfoldable pub ends_at : Entry → Bool
  ends_at auth = dir_exists disk auth && not (exists disk (child auth (codes "inherit")))

  -- the loop of `getAuthPerms`
  unfoldable pub perms_of : Bytes → Bytes → List Entry → Perms
  perms_of name method [] = record { allow = false; found = false; failure = none }
  perms_of name method (ent ∷ ents) =
      let auth = child (auths_of ent) name in
      let rest = perms_of name method ents in
      let last : Perms =
        if ends_at auth then record { allow = false; found = false; failure = none } else rest in
      perm_or (perm_or last (read disk (child auth (codes "default.perm"))))
        (read disk (child auth (method ++ codes ".perm")))

  -- `getAuthPerms`
  unfoldable pub get_auth_perms : Entry → Bytes → Bytes → Perms
  get_auth_perms e name method = perms_of name method (chain e)

  -- One round of `authList`. Each looks at the metadata of the entry itself, so `auths` is the same in
  -- all of them.
  unfoldable pub auth_list_on :
      Entry → List Bytes → List OsError → List Entry → List Bytes × List OsError
  auth_list_on auths res errors [] = (res, errors)
  auth_list_on auths res errors (ent ∷ ents) =
      let (found, failure) = children disk auths in
      let res' = add_domains res found in
      let next = auth_list_on auths res' errors ents in
      let after =
        if not (exists disk (child auths (codes "inherit"))) && exists disk auths
        then (res', errors)
        else next in
      elim failure [
        | none ↦ after
        | some err ↦
            if err.is_exist then auth_list_on auths res (errors ++ err ∷ []) ents else after
      ]

  -- `authList`
  unfoldable pub auth_list : Entry → List Bytes × List OsError
  auth_list e = auth_list_on (auths_of e) [] [] (chain e)

  -- The realm, if it has been read. The test for another error is on a variable that is always nil.
  unfoldable pub realm_from : Entry → Option Bytes → Option Bytes
  realm_from auth (some realm) = some realm
  realm_from auth none = elim (read disk (child auth (codes "realm"))) [
    | inr text ↦ some text
    | inl err ↦ none
  ]

  -- the loop of `getAuthDomain`
  unfoldable pub domain_on : Entry → Option Bytes → List Entry → AuthDomain
  domain_on auth realm [] = record { realm = realm_text realm; entry = none }
  domain_on auth realm (ent ∷ ents) =
      let realm' = realm_from auth realm in
      let skipped = domain_on auth realm ents in
      let next = domain_on auth realm' ents in
      if not (exists disk auth)
      then skipped
      else if not (exists disk (child auth (codes "inherit")))
      then record { realm = realm_text realm'; entry = some ent }
      else next

  -- `getAuthDomain`
  unfoldable pub get_auth_domain : Entry → Bytes → AuthDomain
  get_auth_domain e name = domain_on (child (auths_of e) name) none (chain e)

  -- The loop that `getAuthCreds` and `getAuthCredsCert` share, where `user` is the entry of a user of
  -- the domain `auth`: none for no user, or the user's data, or an error.
  unfoldable pub user_on : Entry → Entry → List Entry → Option (OsError ⊎ Bytes)
  user_on auth user [] = none
  user_on auth user (ent ∷ ents) =
      let next = user_on auth user ents in
      let after = if not (exists disk (child auth (codes "inherit"))) then none else next in
      if not (exists disk auth) then next else elim (read disk user) [
        | inr text ↦ some (inr text)
        | inl err ↦ if err.is_exist then some (inl err) else after
      ]

  -- `getAuthCreds`
  unfoldable pub get_auth_creds : Entry → Bytes → Bytes → Bytes → Option (OsError ⊎ Bytes)
  get_auth_creds e name method username =
      let auth = child (auths_of e) name in
      user_on auth (child (child auth (method ++ codes ".users")) username) (chain e)

  -- `getAuthCredsCert`, from the fingerprint of the certificate in hexadecimal digits
  unfoldable pub get_auth_creds_cert : Entry → Bytes → Bytes → Option (OsError ⊎ Bytes)
  get_auth_creds_cert e name fingerprint =
      let auth = child (auths_of e) name in
      user_on auth (child (child auth (codes "certificates")) (fingerprint ++ codes ".sha256"))
        (chain e)

-- The loop of `getPath`, on the entry's level; none for a panic. It calls `Parent` of the parent before
-- it looks whether there is one.
unfoldable pub path_on : ℕ → Entry → Bytes → Option Bytes
path_on zero e p = none
path_on (suc fuel) e p = elim (parent e) [
  | none ↦ none
  | some none ↦ none
  | some (some up) ↦ path_on fuel up (e.name ++ b'/' ∷ p)
]

-- `getPath`
unfoldable pub get_path : Option Entry → Option Bytes
get_path none = some (clean (codes "/"))
get_path (some e) = path_on (suc e.level) e []
