-- ===== src/Server/Challenges.antt =====
-- server/auth.go: `Authenticate`.
pub mod Granted
pub mod Fresh
use smart_web.Base.{
  ℕ, suc, Bool, true, false, Option, none, some, List, [], ◌∷◌, ◌++◌, ◌⊎◌, inl, inr, Bytes, codes,
  if◌then◌else◌,
}
use smart_web.Server.Entry.{Entry}
use smart_web.Server.Files.{Disk}
use smart_web.Server.Nonces.{nonce_validity, State, purge, generate_nonce}
use smart_web.Server.Domains.{AuthDomain, auth_list, get_auth_domain, get_path}
use smart_web.Server.Authenticator.{AuthMethod, Request, Progress, escape, check_request}

-- The value of a WWW-Authenticate header.
unfoldable pub challenge_text : Bytes → Bytes → Bytes → Bytes → Bool → Bytes
challenge_text realm path nonce opaque stale =
    codes "Digest realm=\""
    ++ escape realm
    ++ codes "\", domain=\""
    ++ escape path
    ++ codes "\", nonce=\""
    ++ nonce
    ++ codes "\", opaque=\""
    ++ opaque
    ++ codes "\""
    ++ (if stale then codes ", stale=\"true\"" else [])
    ++ codes ", algorithm=\"MD5\", qop=\"auth\""

unfoldable pub add_text : Bytes → Option (List Bytes) → Option (List Bytes)
add_text text none = none
add_text text (some texts) = some (text ∷ texts)

-- One round of the loop over the domains, from what `generateNonce` and `getPath` have returned, the
-- state that they leave, and the rest of the loop: the headers, or none where it panics, and the state.
unfoldable pub challenge_with :
    Bytes
    → Bool
    → Option Bytes
    → State
    → Bytes ⊎ (Bytes × Bytes)
    → Option (List Bytes) × State
    → Option (List Bytes) × State
challenge_with realm stale path s (inl err) rest = rest
challenge_with realm stale none s (inr (nonce, opaque)) rest = (none, s)
challenge_with realm stale (some path) s (inr (nonce, opaque)) (texts, after) =
    (add_text (challenge_text realm path nonce opaque stale) texts, after)

unfoldable pub challenges_on :
    Disk → Entry → Bool → ℕ → List Bytes → State → Option (List Bytes) × State
challenges_on disk e stale now [] s = (some [], s)
challenges_on disk e stale now (name ∷ names) s =
    let domain = get_auth_domain disk e name in
    let made = generate_nonce s name domain.realm now nonce_validity in
    challenge_with domain.realm stale (get_path domain.entry) made.1 made.0
      (challenges_on disk e stale now names made.1)

-- `len(auths) == 0`
unfoldable pub no_domains : List Bytes → Bool
no_domains [] = true
no_domains (name ∷ names) = false

-- What `Authenticate` answers, from whether a permission was found.
unfoldable pub answer_for : Bool → Bool → List Bytes → Bool
answer_for found authorized names = if found then authorized else no_domains names

-- What `Authenticate` returns and the headers that it adds, or none where it panics.
unfoldable pub answer_with : Bool → Option (List Bytes) → Option (Bool × List Bytes)
answer_with answer none = none
answer_with answer (some texts) = some (answer, texts)

-- What `Authenticate` does behind `checkRequest`, which panics before it has looked up a nonce.
unfoldable pub answer_checked :
    Disk → Entry → ℕ → State → Option (Bool × Progress) → Option (Bool × List Bytes) × State
answer_checked disk entry now s none = (none, s)
answer_checked disk entry now s (some (authorized, p)) =
    let names = (auth_list disk entry).0 in
    let (texts, s') = challenges_on disk entry p.stale now names (record s { nonces = p.nonces }) in
    (answer_with (answer_for p.found authorized names) texts, s')

module _ (md5 sha256 : Bytes → Bytes) (parse : Bytes → Option (List AuthMethod)) where
  -- `Authenticate`
  unfoldable pub authenticate :
      Disk → Entry → Request → ℕ → State → Option (Bool × List Bytes) × State
  authenticate disk entry req now s =
      let purged = record s { nonces = purge now s.nonces } in
      answer_checked disk entry now purged
        (check_request md5 sha256 parse disk entry req now purged.nonces)
