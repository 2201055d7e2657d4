-- ===== src/Server/Authenticator/Kept.antt =====
-- server/auth.go: the parts of `checkRequest` that leave the nonces alone.
use smart_web.Base.{
  Bool, true, false, Option, none, some, List, [], ◌∷◌, ◌++◌, ◌≡◌, ◌⊎◌, inl, inr, refl, ◌∙◌, Bytes,
  codes, arith, Bool-cases, Option-cases,
}
use smart_web.Server.Entry.{Entry}
use smart_web.Server.Files.{Disk, OsError}
use smart_web.Server.Nonces.{NonceCheck}
use smart_web.Server.Authenticator.{
  AuthMethod, fingerprint, Progress, check_domains, check_certificates, check_password,
  check_digest, check_anonymous, note_perms, mark_stale,
}
use smart_web.Server.Domains.{get_auth_perms, get_auth_creds, get_auth_creds_cert, auth_list}

module _ (md5 sha256 : Bytes → Bytes) (parse : Bytes → Option (List AuthMethod)) (disk : Disk)
    (entry : Entry) (method : Bytes) where
  pub check_domains-nonces :
      (cert : Bytes) (names : List Bytes) (p : Progress)
      → (check_domains md5 sha256 parse disk entry method cert names p).1.nonces ≡ p.nonces
  unfolding check_domains note_perms
  check_domains-nonces cert [] p = refl
  check_domains-nonces cert (name ∷ names) p =
      elim (Option-cases
        (get_auth_creds_cert disk entry name (fingerprint md5 sha256 parse cert))) [
          | inl unknown ↦ rw (unknown, check_domains) (check_domains-nonces cert names p)
          | inr (inl err, failed) ↦ rw (failed, check_domains) (check_domains-nonces cert names _)
          | inr (inr text, known) ↦
              rw (known, check_domains)
                (elim (Bool-cases (get_auth_perms disk entry name method).allow) [
                  | inl allow ↦ rw (allow) refl
                  | inr deny ↦ rw deny (check_domains-nonces cert names _)
                ])
        ]

  pub check_certificates-nonces :
      (certs : List Bytes) (p : Progress)
      → (check_certificates md5 sha256 parse disk entry method certs p).1.nonces ≡ p.nonces
  unfolding check_certificates
  check_certificates-nonces [] p = refl
  check_certificates-nonces (cert ∷ certs) p =
      let q : Progress = record p { errors = p.errors ++ (auth_list disk entry).1 } in
      let r = check_domains md5 sha256 parse disk entry method cert (auth_list disk entry).0 q in
      let same : r.1.nonces ≡ p.nonces = check_domains-nonces cert (auth_list disk entry).0 q in
      elim (Bool-cases r.0) [
        | inl allow ↦ rw (allow, check_certificates) same
        | inr deny ↦ rw (deny, check_certificates) (check_certificates-nonces certs r.1 ∙ same)
      ]

  pub check_password-nonces :
      (auth : AuthMethod) (c : NonceCheck) (user : Option (OsError ⊎ Bytes)) (p : Progress)
      → (check_password md5 sha256 parse disk entry method auth c user p).1.nonces ≡ p.nonces
  unfolding check_password note_perms
  check_password-nonces auth c none p = refl
  check_password-nonces auth c (some (inl err)) p = refl
  check_password-nonces auth c (some (inr password)) p = ground arith

  pub check_digest-nonces :
      (auth : AuthMethod) (c : NonceCheck) (p : Progress)
      → (check_digest md5 sha256 parse disk entry method auth c p).1.nonces ≡ p.nonces
  unfolding check_digest mark_stale
  check_digest-nonces auth c p = ground (
    arith,
    check_password-nonces auth c
        (get_auth_creds disk entry c.domain auth.name (auth.params (codes "username"))) p,
  )

  pub check_anonymous-nonces :
      (r : Bool × Progress)
      → (check_anonymous md5 sha256 parse disk entry method r).1.nonces ≡ r.1.nonces
  unfolding check_anonymous note_perms
  check_anonymous-nonces (true, p) = refl
  check_anonymous-nonces (false, p) = refl
