-- ===== src/Server/Authenticator/Grounds.antt =====
-- server/auth.go: what a request is allowed for.
use smart_web.Base.{
  ℕ, ◌<◌, true, Option, none, some, List, [], ◌∷◌, ◌++◌, ◌≡◌, ◌⊎◌, inl, inr, refl, sym, ◌∙◌, Bytes,
  codes, equal, equal_iff, ltb, Memᴰ, Bool-cases, Option-cases,
}
use smart_web.Server.Entry.{Entry}
use smart_web.Server.Files.{Disk, OsError}
use smart_web.Server.Nonces.{
  Nonce, Nonces, expiry, NonceCheck, find_nonce, delete_nonce, check_found,
}
use smart_web.Server.Domains.{get_auth_perms, get_auth_creds, get_auth_creds_cert, auth_list}
use smart_web.Server.Authenticator.{
  AuthMethod, Progress, fingerprint, digest_response, check_domains, check_certificates,
  check_password,
}

module _ (md5 sha256 : Bytes → Bytes) (parse : Bytes → Option (List AuthMethod)) (disk : Disk)
    (entry : Entry) (method : Bytes) where
  -- The permissions of a domain allow the method.
  abbrev pub Permits : Bytes → Type 0
  Permits name = (get_auth_perms disk entry name method).allow ≡ true

  -- One of the certificates is that of a user of a domain that permits the method.
  unfoldable pub ByCertificate : List Bytes → Type 0
  ByCertificate certs =
      (cert : Bytes) × (name : Bytes) × (text : Bytes) × Memᴰ cert certs
      × Memᴰ name (auth_list disk entry).0
      × (get_auth_creds_cert disk entry name (fingerprint md5 sha256 parse cert) ≡ some (inr text))
      × Permits name

  -- A digest is by MD5 and `auth`, answers a nonce that has been given out and is valid, with its opaque
  -- value, and is the response for the password of a user of the nonce's domain, which permits the
  -- method.
  unfoldable pub ByDigest : ℕ → Nonces → List AuthMethod → Type 0
  ByDigest now ns auths =
      (auth : AuthMethod) × (n : Nonce) × (password : Bytes) × Memᴰ auth auths
      × (auth.name ≡ codes "Digest")
      × (auth.params (codes "algorithm") ≡ codes "MD5")
      × (auth.params (codes "qop") ≡ codes "auth")
      × (find_nonce (auth.params (codes "nonce")) ns ≡ some n)
      × (now < expiry n)
      × (auth.params (codes "opaque") ≡ n.opaque)
      × (get_auth_creds disk entry n.domain auth.name (auth.params (codes "username"))
          ≡ some (inr password))
      × (auth.params (codes "response")
          ≡ digest_response md5 sha256 parse method n.realm password auth)
      × Permits n.domain

  pub check_domains-Permits :
      (cert : Bytes) (names : List Bytes) (p : Progress)
      → (check_domains md5 sha256 parse disk entry method cert names p).0 ≡ true
      → (name : Bytes) × (text : Bytes) × Memᴰ name names
        × (get_auth_creds_cert disk entry name (fingerprint md5 sha256 parse cert)
            ≡ some (inr text))
        × Permits name
  unfolding check_domains
  check_domains-Permits cert [] p h = cc
  check_domains-Permits cert (name ∷ names) p h =
      let above : (q : Progress)
          → (check_domains md5 sha256 parse disk entry method cert names q).0 ≡ true
          → (n : Bytes) × (text : Bytes) × Memᴰ n (name ∷ names)
            × (get_auth_creds_cert disk entry n (fingerprint md5 sha256 parse cert)
                ≡ some (inr text))
            × Permits n =
        λ q e.
          (let (n, t, m, k, a) = check_domains-Permits cert names q e in
            (n, t, Memᴰ.tail m, k, a)) in
      elim (Option-cases
        (get_auth_creds_cert disk entry name (fingerprint md5 sha256 parse cert))) [
          | inl unknown ↦ above p (rw (unknown, check_domains) at h)
          | inr (inl err, failed) ↦ above _ (rw (failed, check_domains) at h)
          | inr (inr text, known) ↦
              elim (Bool-cases (get_auth_perms disk entry name method).allow) [
                | inl allow ↦ (name, text, Memᴰ.head refl, known, allow)
                | inr deny ↦ above _ (rw (known, deny, check_domains) at h)
              ]
        ]

  pub check_certificates-ByCertificate :
      (certs : List Bytes) (p : Progress)
      → (check_certificates md5 sha256 parse disk entry method certs p).0 ≡ true
      → ByCertificate certs
  unfolding check_certificates ByCertificate
  check_certificates-ByCertificate [] p h = cc
  check_certificates-ByCertificate (cert ∷ certs) p h =
      let q : Progress = record p { errors = p.errors ++ (auth_list disk entry).1 } in
      let r = check_domains md5 sha256 parse disk entry method cert (auth_list disk entry).0 q in
      elim (Bool-cases r.0) [
        | inl allow ↦
            let (name, text, m, k, a) =
              check_domains-Permits cert (auth_list disk entry).0 q allow in
            (cert, name, text, Memᴰ.head refl, m, k, a)
        | inr deny ↦
            let (c, name, text, m, l, k, a) =
              check_certificates-ByCertificate certs r.1 (rw (deny, check_certificates) at h) in
            (c, name, text, Memᴰ.tail m, l, k, a)
      ]

-- what a smaller store of nonces knows, the larger one knows
abbrev pub IsWithin : Nonces → Nonces → Type 0
IsWithin small large =
    (key : Bytes) (n : Nonce) → find_nonce key small ≡ some n → find_nonce key large ≡ some n

delete_nonce-find : (key : Bytes) (ns : Nonces) → find_nonce key (delete_nonce key ns) ≡ none
unfolding delete_nonce find_nonce
delete_nonce-find key [] = refl
delete_nonce-find key ((j, m) ∷ ns) = elim (Bool-cases (equal j key)) [
  | inl same ↦ rw same (delete_nonce-find key ns)
  | inr other ↦ rw (other, other) (delete_nonce-find key ns)
]

delete_nonce-IsWithin : (key : Bytes) (ns : Nonces) → IsWithin (delete_nonce key ns) ns
unfolding delete_nonce find_nonce
delete_nonce-IsWithin key [] k n h = h
delete_nonce-IsWithin key ((j, m) ∷ ns) k n h = elim (Bool-cases (equal j key)) [
  | inl same ↦
      let kept = rw (same, delete_nonce) at h in
      elim (Bool-cases (equal j k)) [
        | inl found ↦
            let e : key ≡ k = sym ((equal_iff j key).0 same) ∙ (equal_iff j k).0 found in
            let gone : find_nonce k (delete_nonce key ns) ≡ none = rw e (delete_nonce-find k ns) in
            absurd (cc (kept, gone))
        | inr other ↦ rw other (delete_nonce-IsWithin key ns k n kept)
      ]
  | inr distinct ↦
      let kept = rw (distinct, delete_nonce) at h in
      elim (Bool-cases (equal j k)) [
        | inl found ↦ rw found (rw (found, find_nonce) at kept)
        | inr other ↦ rw other (delete_nonce-IsWithin key ns k n (rw (other, find_nonce) at kept))
      ]
]

pub check_found-IsWithin :
    (key : Bytes) (now : ℕ) (ns : Nonces) (found : Option Nonce)
    → IsWithin (check_found key now ns found).1 ns
unfolding check_found
check_found-IsWithin key now ns none k n h = h
check_found-IsWithin key now ns (some m) k n h = elim (Bool-cases (ltb now (expiry m))) [
  | inl live ↦ rw live at h
  | inr old ↦ delete_nonce-IsWithin key ns k n (rw old at h)
]

module _ (md5 sha256 : Bytes → Bytes) (parse : Bytes → Option (List AuthMethod)) (disk : Disk)
    (entry : Entry) (method : Bytes) where
  pub check_password-Permits :
      (auth : AuthMethod) (c : NonceCheck) (user : Option (OsError ⊎ Bytes)) (p : Progress)
      → (check_password md5 sha256 parse disk entry method auth c user p).0 ≡ true
      → (password : Bytes) × (user ≡ some (inr password))
        × (auth.params (codes "response")
            ≡ digest_response md5 sha256 parse method c.realm password auth)
        × Permits md5 sha256 parse disk entry method c.domain
  unfolding check_password
  check_password-Permits auth c none p h = cc
  check_password-Permits auth c (some (inl err)) p h = cc
  check_password-Permits auth c (some (inr password)) p h =
      elim (Bool-cases (
        equal (digest_response md5 sha256 parse method c.realm password auth)
          (auth.params (codes "response")))) [
            | inl same ↦
                (password, refl, sym ((equal_iff _ _).0 same), rw (same, check_password) at h)
            | inr other ↦ cc (rw (other, check_password) at h)
          ]
