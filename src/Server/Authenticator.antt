-- ===== src/Server/Authenticator.antt =====
-- server/auth.go: the answer to a request's credentials.
pub mod Kept
pub mod Grounds
pub mod Digests
use smart_web.Base.{
  ℕ, zero, suc, ◌+◌, ◌-◌, ◌/◌, ◌%◌, Bool, true, false, not, ◌&&◌, ◌||◌, Option, none, some, List,
  [], ◌∷◌, ◌++◌, map, ◌⊎◌, inl, inr, Bytes, codes, equal, is_empty, ltb, leb, ◌==◌, within,
  if◌then◌else◌, replace, join_texts,
}
use smart_web.Server.Entry.{Entry}
use smart_web.Server.Files.{OsError, Disk}
use smart_web.Server.Nonces.{
  Nonce, Nonces, nonce_validity, State, NonceCheck, purge, check_nonce, generate_nonce,
}
use smart_web.Server.Domains.{
  anonymous_auth_domain, Perms, AuthDomain, get_auth_perms, auth_list, get_auth_domain,
  get_auth_creds, get_auth_creds_cert, get_path,
}

-- `AuthMethod`, its map as the function that yields the empty string for a missing key
pub record AuthMethod : Type 0 where
  pub name : Bytes
  pub params : Bytes → Bytes

-- What the authenticator reads of a request: its method, the public keys of the client's certificates
-- if it came with TLS, and the Authorization headers.
pub record Request : Type 0 where
  pub method : Bytes
  pub certificates : Option (List Bytes)
  pub authorization : List Bytes

unfoldable pub hex_digit : ℕ → ℕ
hex_digit d = if ltb d 10 then b'0' + d else b'a' + (d - 10)

-- `%x` and `hex.EncodeToString`
unfoldable pub hex : Bytes → Bytes
hex [] = []
hex (c ∷ s) = hex_digit (c / 16) ∷ hex_digit (c % 16) ∷ hex s

-- `strings.ToLower` on ASCII
unfoldable pub to_lower : Bytes → Bytes
to_lower [] = []
to_lower (c ∷ s) = (if within b'A' b'Z' c then c + 32 else c) ∷ to_lower s

-- `escape`
unfoldable pub escape : Bytes → Bytes
escape s = replace b'"' (codes "\\\"") (replace b'\\' (codes "\\\\") s)

-- What `checkRequest` has gathered: the nonces, whether one was stale, whether a permission was found,
-- and the errors.
pub record Progress : Type 0 where
  pub nonces : Nonces
  pub stale : Bool
  pub found : Bool
  pub errors : List OsError

unfoldable pub note_error : Option OsError → List OsError → List OsError
note_error none errors = errors
note_error (some err) errors = errors ++ err ∷ []

unfoldable pub note_perms : Perms → Progress → Progress
note_perms perms p = record p {
  found = p.found || perms.found;
  errors = note_error perms.failure p.errors;
}

-- Where a digest goes, once its nonce has been looked up.
unfoldable pub mark_stale : NonceCheck → Progress → Progress
mark_stale c p = if c.valid then p else record p { stale = true }

unfoldable pub with_methods : List AuthMethod → Option (List AuthMethod) → Option (List AuthMethod)
with_methods ms none = none
with_methods ms (some auths) = some (ms ++ auths)

-- The hash functions, and what the parser leaves in `Methods` for a header, none where it panics.
module _ (md5 sha256 : Bytes → Bytes) (parse : Bytes → Option (List AuthMethod)) where
  -- `h`
  unfoldable pub h : Bytes → Bytes
  h text = hex (md5 text)

  -- `Fingerprint` and its digits
  unfoldable pub fingerprint : Bytes → Bytes
  fingerprint cert = to_lower (hex (sha256 cert))

  -- `getAuthParams`
  unfoldable pub get_auth_params : List Bytes → Option (List AuthMethod)
  get_auth_params [] = some []
  get_auth_params (header ∷ headers) =
      let rest = get_auth_params headers in
      elim (parse header) [ none ↦ none | some ms ↦ with_methods ms rest ]

  -- the response that a client makes from the realm and the password
  unfoldable pub digest_response : Bytes → Bytes → Bytes → AuthMethod → Bytes
  digest_response method realm password auth = h (
      join_texts (codes ":") (
        h (auth.params (codes "username") ++ codes ":" ++ realm ++ codes ":" ++ password)
        ∷ auth.params (codes "nonce")
        ∷ auth.params (codes "nc")
        ∷ auth.params (codes "cnonce")
        ∷ auth.params (codes "qop")
        ∷ h (method ++ codes ":" ++ auth.params (codes "uri"))
        ∷ []))

  module _ (disk : Disk) (entry : Entry) (method : Bytes) where
    -- The loop over the domains for one certificate: true where `checkRequest` returns.
    unfoldable pub check_domains : Bytes → List Bytes → Progress → Bool × Progress
    check_domains cert [] p = (false, p)
    check_domains cert (name ∷ names) p =
        let perms = get_auth_perms disk entry name method in
        let p' = note_perms perms p in
        elim (get_auth_creds_cert disk entry name (fingerprint cert)) [
          | none ↦ check_domains cert names p
          | some (inl err) ↦ check_domains cert names (record p { errors = p.errors ++ err ∷ [] })
          | some (inr text) ↦ elim perms.allow [
            | true ↦ (true, p')
            | false ↦ check_domains cert names p'
          ]
        ]

    -- the loop over the certificates
    unfoldable pub check_certificates : List Bytes → Progress → Bool × Progress
    check_certificates [] p = (false, p)
    check_certificates (cert ∷ certs) p =
        let (names, errors) = auth_list disk entry in
        let (allowed, p') = check_domains cert names (record p { errors = p.errors ++ errors }) in
        elim allowed [ true ↦ (true, p') | false ↦ check_certificates certs p' ]

    -- One digest, from the password, once its nonce is valid.
    unfoldable pub check_password :
        AuthMethod → NonceCheck → Option (OsError ⊎ Bytes) → Progress → Bool × Progress
    check_password auth c none p = (false, p)
    check_password auth c (some (inl err)) p = (false, record p { errors = p.errors ++ err ∷ [] })
    check_password auth c (some (inr password)) p =
        if equal (digest_response method c.realm password auth) (auth.params (codes "response"))
        then (
          (get_auth_perms disk entry c.domain method).allow,
          note_perms (get_auth_perms disk entry c.domain method) p,
        )
        else (false, p)

    -- one digest, once its nonce has been looked up
    unfoldable pub check_digest : AuthMethod → NonceCheck → Progress → Bool × Progress
    check_digest auth c p =
        if c.valid && equal (auth.params (codes "opaque")) c.opaque
        then check_password auth c
            (get_auth_creds disk entry c.domain auth.name (auth.params (codes "username"))) p
        else (false, mark_stale c p)

    -- one of the methods in the Authorization headers
    unfoldable pub check_method : ℕ → AuthMethod → Progress → Bool × Progress
    check_method now auth p =
        if equal auth.name (codes "Digest")
          && (equal (auth.params (codes "algorithm")) (codes "MD5")
              && equal (auth.params (codes "qop")) (codes "auth"))
        then (let (c, nonces) = check_nonce (auth.params (codes "nonce")) now p.nonces in
            check_digest auth c (record p { nonces = nonces }))
        else (false, p)

    -- the loop over these
    unfoldable pub check_methods : ℕ → List AuthMethod → Progress → Bool × Progress
    check_methods now [] p = (false, p)
    check_methods now (auth ∷ auths) p =
        let (allowed, p') = check_method now auth p in
        elim allowed [ true ↦ (true, p') | false ↦ check_methods now auths p' ]

    -- The end of `checkRequest`; a request that is allowed before it is not stale.
    unfoldable pub check_anonymous : Bool × Progress → Bool × Progress
    check_anonymous (true, p) = (true, record p { stale = false })
    check_anonymous (false, p) = (
      (get_auth_perms disk entry anonymous_auth_domain method).allow,
      note_perms (get_auth_perms disk entry anonymous_auth_domain method) p,
    )

  -- what `checkRequest` makes of the methods that `getAuthParams` returns
  unfoldable pub check_params :
      Disk → Entry → Request → ℕ → Progress → Option (List AuthMethod) → Option (Bool × Progress)
  check_params disk entry req now p none = none
  check_params disk entry req now p (some auths) =
      some (check_methods disk entry req.method now auths p)

  unfoldable pub check_credentials :
      Disk → Entry → Request → ℕ → Bool × Progress → Option (Bool × Progress)
  check_credentials disk entry req now (true, p) = some (true, p)
  check_credentials disk entry req now (false, p) =
      check_params disk entry req now p (get_auth_params req.authorization)

  unfoldable pub check_rest :
      Disk → Entry → Request → Option (Bool × Progress) → Option (Bool × Progress)
  check_rest disk entry req none = none
  check_rest disk entry req (some r) = some (check_anonymous disk entry req.method r)

  unfoldable pub certificates_of : Option (List Bytes) → List Bytes
  certificates_of none = []
  certificates_of (some certs) = certs

  -- `checkRequest`, none where it panics
  unfoldable pub check_request : Disk → Entry → Request → ℕ → Nonces → Option (Bool × Progress)
  check_request disk entry req now nonces = check_rest disk entry req (
      check_credentials disk entry req now (
        check_certificates disk entry req.method (certificates_of req.certificates)
          (record { nonces = nonces; stale = false; found = false; errors = [] })))
