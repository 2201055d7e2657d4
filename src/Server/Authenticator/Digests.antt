-- ===== src/Server/Authenticator/Digests.antt =====
-- server/auth.go: the requests that are allowed.
use smart_web.Base.{
  ℕ, ◌<◌, Bool, true, false, ◌&&◌, Option, none, some, List, [], ◌∷◌, ◌≡◌, ◌⊎◌, inl, inr, refl, sym,
  ap, ◌∙◌, Bytes, codes, equal, equal_iff, Memᴰ, arith, Bool-cases,
}
use smart_web.Server.Entry.{Entry}
use smart_web.Server.Files.{Disk}
use smart_web.Server.Nonces.{
  Nonce, Nonces, expiry, NonceCheck, find_nonce, check_found, check_nonce,
}
use smart_web.Server.Domains.{get_auth_creds, anonymous_auth_domain}
use smart_web.Server.Authenticator.{
  check_params, check_rest, AuthMethod, Request, Progress, digest_response, get_auth_params,
  certificates_of, check_certificates, check_digest, check_method, check_methods, check_anonymous,
  check_credentials, check_request,
}
use smart_web.Server.Authenticator.Kept.{check_certificates-nonces, check_digest-nonces}
use smart_web.Server.Authenticator.Grounds.{
  Permits, ByCertificate, ByDigest, IsWithin, check_certificates-ByCertificate,
  check_password-Permits, check_found-IsWithin,
}

found_valid :
    (key : Bytes) (now : ℕ) (ns : Nonces) (found : Option Nonce)
    → (check_found key now ns found).0.valid ≡ true
    → (n : Nonce) × (found ≡ some n)
      × (now < expiry n)
      × ((check_found key now ns found).0
          ≡ record { valid = true; opaque = n.opaque; domain = n.domain; realm = n.realm })
unfolding check_found
found_valid key now ns none h = cc
found_valid key now ns (some n) h = (n, refl, ground arith, rw h refl)

module _ (md5 sha256 : Bytes → Bytes) (parse : Bytes → Option (List AuthMethod)) (disk : Disk)
    (entry : Entry) (method : Bytes) where
  check_digest-Permits :
      (auth : AuthMethod) (c : NonceCheck) (p : Progress)
      → (check_digest md5 sha256 parse disk entry method auth c p).0 ≡ true
      → (password : Bytes) × (c.valid ≡ true)
        × (auth.params (codes "opaque") ≡ c.opaque)
        × (get_auth_creds disk entry c.domain auth.name (auth.params (codes "username"))
            ≡ some (inr password))
        × (auth.params (codes "response")
            ≡ digest_response md5 sha256 parse method c.realm password auth)
        × Permits md5 sha256 parse disk entry method c.domain
  unfolding check_digest
  check_digest-Permits auth c p h =
      elim (Bool-cases (c.valid && equal (auth.params (codes "opaque")) c.opaque)) [
        | inl good ↦
            let (password, known, same, permits) =
              check_password-Permits md5 sha256 parse disk entry method auth c _ p
                (rw (good, check_digest) at h) in
            (
              password,
              ground (arith, good),
              ground (arith, good, equal_iff (auth.params (codes "opaque")) c.opaque),
              known,
              same,
              permits,
            )
        | inr bad ↦ cc (rw (bad, check_digest) at h)
      ]

  check_method-ByDigest :
      (now : ℕ) (auth : AuthMethod) (auths : List AuthMethod) (p : Progress)
      → Memᴰ auth auths
      → (check_method md5 sha256 parse disk entry method now auth p).0 ≡ true
      → ByDigest md5 sha256 parse disk entry method now p.nonces auths
  unfolding check_method ByDigest check_nonce
  check_method-ByDigest now auth auths p m h =
      let is_digest =
        equal auth.name (codes "Digest")
        && (equal (auth.params (codes "algorithm")) (codes "MD5")
            && equal (auth.params (codes "qop")) (codes "auth")) in
      let key = auth.params (codes "nonce") in
      let c = check_found key now p.nonces (find_nonce key p.nonces) in
      let q : Progress = record p { nonces = c.1 } in
      elim (Bool-cases is_digest) [
        | inl digest ↦
            let checked : (check_digest md5 sha256 parse disk entry method auth c.0 q).0 ≡ true =
              rw (digest, check_method) at h in
            let (n, known, live, e) =
              found_valid key now p.nonces (find_nonce key p.nonces)
                (check_digest-Permits auth c.0 q checked).1 in
            let found : NonceCheck = record {
              valid = true;
              opaque = n.opaque;
              domain = n.domain;
              realm = n.realm;
            } in
            let good : (check_digest md5 sha256 parse disk entry method auth found q).0 ≡ true =
              rw e at checked in
            let (password, valid, opaque, user, response, permits) =
              check_digest-Permits auth found q good in
            (
              auth,
              n,
              password,
              m,
              ground (arith, digest, equal_iff auth.name (codes "Digest")),
              ground (arith, digest, equal_iff (auth.params (codes "algorithm")) (codes "MD5")),
              ground (arith, digest, equal_iff (auth.params (codes "qop")) (codes "auth")),
              known,
              live,
              opaque,
              user,
              response,
              permits,
            )
        | inr other ↦ cc (rw (other, check_method) at h)
      ]

  check_method-IsWithin :
      (now : ℕ) (auth : AuthMethod) (p : Progress)
      → IsWithin (check_method md5 sha256 parse disk entry method now auth p).1.nonces p.nonces
  unfolding check_method check_nonce
  check_method-IsWithin now auth p key n h =
      let is_digest =
        equal auth.name (codes "Digest")
        && (equal (auth.params (codes "algorithm")) (codes "MD5")
            && equal (auth.params (codes "qop")) (codes "auth")) in
      let nonce = auth.params (codes "nonce") in
      let c = check_found nonce now p.nonces (find_nonce nonce p.nonces) in
      let q : Progress = record p { nonces = c.1 } in
      elim (Bool-cases is_digest) [
        | inl digest ↦
            let after : find_nonce key
                  (check_digest md5 sha256 parse disk entry method auth c.0 q).1.nonces
                ≡ some n =
              rw (digest, check_method) at h in
            let before : find_nonce key c.1 ≡ some n =
              ap (find_nonce key)
                (sym (check_digest-nonces md5 sha256 parse disk entry method auth c.0 q))
              ∙ after in
            check_found-IsWithin nonce now p.nonces (find_nonce nonce p.nonces) key n before
        | inr other ↦ rw (other, check_method) at h
      ]

  ByDigest-weaken :
      (now : ℕ) (small large : Nonces) (auth : AuthMethod) (auths : List AuthMethod)
      → IsWithin small large
      → ByDigest md5 sha256 parse disk entry method now small auths
      → ByDigest md5 sha256 parse disk entry method now large (auth ∷ auths)
  unfolding ByDigest
  ByDigest-weaken now small large auth auths within
        (a, n, password, m, name, algorithm, qop, known, live, opaque, user, response, permits) =
      (
        a,
        n,
        password,
        Memᴰ.tail m,
        name,
        algorithm,
        qop,
        within _ n known,
        live,
        opaque,
        user,
        response,
        permits,
      )

  check_methods-ByDigest :
      (now : ℕ) (auths : List AuthMethod) (p : Progress)
      → (check_methods md5 sha256 parse disk entry method now auths p).0 ≡ true
      → ByDigest md5 sha256 parse disk entry method now p.nonces auths
  unfolding check_methods
  check_methods-ByDigest now [] p h = cc
  check_methods-ByDigest now (auth ∷ auths) p h =
      let r = check_method md5 sha256 parse disk entry method now auth p in
      elim (Bool-cases r.0) [
        | inl allow ↦ check_method-ByDigest now auth (auth ∷ auths) p (Memᴰ.head refl) allow
        | inr deny ↦
            ByDigest-weaken now r.1.nonces p.nonces auth auths (check_method-IsWithin now auth p)
              (check_methods-ByDigest now auths r.1 (rw (deny, check_methods) at h))
      ]

module _ (md5 sha256 : Bytes → Bytes) (parse : Bytes → Option (List AuthMethod)) (disk : Disk)
    (entry : Entry) (req : Request) (now : ℕ) where
  -- What a request is allowed for: a certificate, a digest or what is open to all.
  unfoldable pub Grounds : Nonces → Type 0
  Grounds ns =
      ByCertificate md5 sha256 parse disk entry req.method
        (certificates_of md5 sha256 parse req.certificates)
      ⊎ ((auths : List AuthMethod) × (get_auth_params md5 sha256 parse req.authorization
            ≡ some auths)
          × ByDigest md5 sha256 parse disk entry req.method now ns auths)
      ⊎ Permits md5 sha256 parse disk entry req.method anonymous_auth_domain

  check_params-Grounds :
      (ns : Nonces) (p : Progress) (q : Bool × Progress) (auths : Option (List AuthMethod))
      → get_auth_params md5 sha256 parse req.authorization ≡ auths
      → p.nonces ≡ ns
      → check_params md5 sha256 parse disk entry req now p auths ≡ some q
      → q.0 ≡ true
      → Grounds ns
  unfolding check_params
  check_params-Grounds ns p q none read same h allow = cc
  check_params-Grounds ns p q (some auths) read same h allow =
      let done : check_methods md5 sha256 parse disk entry req.method now auths p ≡ q = cc h in
      let digest =
        check_methods-ByDigest md5 sha256 parse disk entry req.method now auths p
          (ap (λ r. r.0) done ∙ allow) in
      unfold Grounds in inr (inl (auths, read, rw same at digest))

  check_credentials-Grounds :
      (ns : Nonces) (r q : Bool × Progress)
      → (r.0 ≡ true → Grounds ns)
      → r.1.nonces ≡ ns
      → check_credentials md5 sha256 parse disk entry req now r ≡ some q
      → q.0 ≡ true
      → Grounds ns
  unfolding check_credentials
  check_credentials-Grounds ns (true, p) q by same h allow = by refl
  check_credentials-Grounds ns (false, p) q by same h allow =
      check_params-Grounds ns p q _ refl same h allow

  check_anonymous-Grounds :
      (ns : Nonces) (r : Bool × Progress)
      → (r.0 ≡ true → Grounds ns)
      → (check_anonymous md5 sha256 parse disk entry req.method r).0 ≡ true
      → Grounds ns
  unfolding check_anonymous
  check_anonymous-Grounds ns (true, p) by h = by refl
  check_anonymous-Grounds ns (false, p) by h = unfold Grounds in inr (inr h)

  check_rest-Grounds :
      (ns : Nonces) (r : Option (Bool × Progress)) (q : Bool × Progress)
      → ((t : Bool × Progress) → r ≡ some t → t.0 ≡ true → Grounds ns)
      → check_rest md5 sha256 parse disk entry req r ≡ some q
      → q.0 ≡ true
      → Grounds ns
  unfolding check_rest
  check_rest-Grounds ns none q by h allow = cc
  check_rest-Grounds ns (some t) q by h allow =
      let done : check_anonymous md5 sha256 parse disk entry req.method t ≡ q = cc h in
      check_anonymous-Grounds ns t (by t refl) (ap (λ r. r.0) done ∙ allow)

  -- `checkRequest` allows a request only for a certificate of a user of a domain that permits the
  -- method, for a digest by MD5 and `auth` that answers a valid nonce of the authenticator with the
  -- password of a user of the nonce's domain, which permits the method, or because the anonymous domain
  -- permits the method.
  pub check_request-Grounds :
      (ns : Nonces) (q : Bool × Progress)
      → check_request md5 sha256 parse disk entry req now ns ≡ some q
      → q.0 ≡ true
      → Grounds ns
  unfolding check_request
  check_request-Grounds ns q h allow =
      let p : Progress = record { nonces = ns; stale = false; found = false; errors = [] } in
      let certs = certificates_of md5 sha256 parse req.certificates in
      let r = check_certificates md5 sha256 parse disk entry req.method certs p in
      let same = check_certificates-nonces md5 sha256 parse disk entry req.method certs p in
      let by : r.0 ≡ true → Grounds ns = λ yes_cert.
        unfold Grounds in
        inl (
          check_certificates-ByCertificate md5 sha256 parse disk entry req.method certs p
            yes_cert) in
      check_rest-Grounds ns (check_credentials md5 sha256 parse disk entry req now r) q
        (λ t e yes_t. check_credentials-Grounds ns r t by same e yes_t) h allow
