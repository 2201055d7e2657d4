-- ===== src/Server/Challenges/Fresh.antt =====
-- server/auth.go: what becomes of the nonces.
use smart_web.Base.{
  ℕ, ◌≤◌, Bool, true, false, ◌&&◌, Option, none, some, List, [], ◌∷◌, ◌⊎◌, inl, inr, Bytes, codes,
  equal, ltb, All, arith, Bool-cases,
}
use smart_web.Server.Entry.{Entry}
use smart_web.Server.Files.{Disk}
use smart_web.Server.Nonces.{
  Nonce, Nonces, nonce_validity, expiry, State, find_nonce, delete_nonce, set_nonce, purge,
  check_found, check_nonce, store_nonce, generate_nonce,
}
use smart_web.Server.Authenticator.{
  check_params, check_rest, AuthMethod, Request, Progress, check_certificates, check_method,
  check_methods, check_credentials, check_request, certificates_of,
}
use smart_web.Server.Domains.{get_auth_domain, get_path, auth_list}
use smart_web.Server.Authenticator.Kept.{
  check_certificates-nonces, check_digest-nonces, check_anonymous-nonces,
}
use smart_web.Server.Challenges.{answer_checked, challenge_with, challenges_on, authenticate}

-- No nonce has expired.
pub IsFresh : ℕ → Nonces → Type 0
IsFresh now = All (λ kn. now ≤ expiry kn.1)

purge-IsFresh : (now : ℕ) (ns : Nonces) → IsFresh now (purge now ns)
unfolding purge IsFresh
purge-IsFresh now [] = tt
purge-IsFresh now ((k, n) ∷ ns) = elim (Bool-cases (ltb (expiry n) now)) [
  | inl old ↦ rw old (purge-IsFresh now ns)
  | inr live ↦ rw live (ground (arith), purge-IsFresh now ns)
]

delete_nonce-All :
    (P : Bytes × Nonce → Type 0) (key : Bytes) (ns : Nonces)
    → All P ns
    → All P (delete_nonce key ns)
unfolding delete_nonce
delete_nonce-All P key [] h = tt
delete_nonce-All P key ((k, n) ∷ ns) (h, hs) = elim (Bool-cases (equal k key)) [
  | inl same ↦ rw same (delete_nonce-All P key ns hs)
  | inr other ↦ rw other (h, delete_nonce-All P key ns hs)
]

check_found-All :
    (P : Bytes × Nonce → Type 0) (key : Bytes) (now : ℕ) (ns : Nonces) (found : Option Nonce)
    → All P ns
    → All P (check_found key now ns found).1
unfolding check_found
check_found-All P key now ns none h = h
check_found-All P key now ns (some n) h = elim (Bool-cases (ltb now (expiry n))) [
  | inl live ↦ rw live h
  | inr old ↦ rw old (delete_nonce-All P key ns h)
]

check_nonce-All :
    (P : Bytes × Nonce → Type 0) (key : Bytes) (now : ℕ) (ns : Nonces)
    → All P ns
    → All P (check_nonce key now ns).1
unfolding check_nonce
check_nonce-All P key now ns h = check_found-All P key now ns (find_nonce key ns) h

store_nonce-IsFresh :
    (now : ℕ) (s : State) (domain realm : Bytes) (valid : ℕ) (first second : Bytes ⊎ Bytes)
    → IsFresh now s.nonces
    → IsFresh now (store_nonce s domain realm now valid first second).1.nonces
unfolding store_nonce set_nonce IsFresh
store_nonce-IsFresh now s domain realm valid (inl err) second h = h
store_nonce-IsFresh now s domain realm valid (inr key) (inl err) h = h
store_nonce-IsFresh now s domain realm valid (inr key) (inr opaque) h =
    (omega arith, delete_nonce-All (λ kn. now ≤ expiry kn.1) key s.nonces h)

generate_nonce-IsFresh :
    (now : ℕ) (s : State) (domain realm : Bytes) (valid : ℕ)
    → IsFresh now s.nonces
    → IsFresh now (generate_nonce s domain realm now valid).1.nonces
unfolding generate_nonce
generate_nonce-IsFresh now s domain realm valid h =
    store_nonce-IsFresh now s domain realm valid _ _ h

challenge_with-IsFresh :
    (realm : Bytes) (stale : Bool) (path : Option Bytes) (now : ℕ) (s : State)
    (key : Bytes ⊎ (Bytes × Bytes)) (rest : Option (List Bytes) × State)
    → IsFresh now s.nonces
    → IsFresh now rest.1.nonces
    → IsFresh now (challenge_with realm stale path s key rest).1.nonces
unfolding challenge_with
challenge_with-IsFresh realm stale path now s (inl err) rest h k = k
challenge_with-IsFresh realm stale none now s (inr (nonce, opaque)) rest h k = h
challenge_with-IsFresh realm stale (some path) now s (inr (nonce, opaque)) (texts, after) h k = k

challenges_on-IsFresh :
    (disk : Disk) (e : Entry) (stale : Bool) (now : ℕ) (names : List Bytes) (s : State)
    → IsFresh now s.nonces
    → IsFresh now (challenges_on disk e stale now names s).1.nonces
unfolding challenges_on
challenges_on-IsFresh disk e stale now [] s h = h
challenges_on-IsFresh disk e stale now (name ∷ names) s h =
    let domain = get_auth_domain disk e name in
    let made = generate_nonce s name domain.realm now nonce_validity in
    let k = generate_nonce-IsFresh now s name domain.realm nonce_validity h in
    challenge_with-IsFresh domain.realm stale (get_path domain.entry) now made.1 made.0 _ k
      (challenges_on-IsFresh disk e stale now names made.1 k)

module _ (md5 sha256 : Bytes → Bytes) (parse : Bytes → Option (List AuthMethod)) (disk : Disk)
    (entry : Entry) (method : Bytes) where
  check_method-All :
      (P : Bytes × Nonce → Type 0) (now : ℕ) (auth : AuthMethod) (p : Progress)
      → All P p.nonces
      → All P (check_method md5 sha256 parse disk entry method now auth p).1.nonces
  unfolding check_method
  check_method-All P now auth p h =
      elim (Bool-cases (
        equal auth.name (codes "Digest")
        && (equal (auth.params (codes "algorithm")) (codes "MD5")
            && equal (auth.params (codes "qop")) (codes "auth")))) [
              | inl digest ↦ rw digest (
                  rw
                    (check_digest-nonces md5 sha256 parse disk entry method auth
                      (check_nonce (auth.params (codes "nonce")) now p.nonces).0
                      (record p {
                        nonces = (check_nonce (auth.params (codes "nonce")) now p.nonces).1;
                      }))
                    (check_nonce-All P (auth.params (codes "nonce")) now p.nonces h))
              | inr other ↦ rw other h
            ]

  check_methods-All :
      (P : Bytes × Nonce → Type 0) (now : ℕ) (auths : List AuthMethod) (p : Progress)
      → All P p.nonces
      → All P (check_methods md5 sha256 parse disk entry method now auths p).1.nonces
  unfolding check_methods
  check_methods-All P now [] p h = h
  check_methods-All P now (auth ∷ auths) p h =
      let r = check_method md5 sha256 parse disk entry method now auth p in
      let k = check_method-All P now auth p h in
      elim (Bool-cases r.0) [
        | inl allow ↦ rw (allow, check_methods) k
        | inr deny ↦ rw (deny, check_methods) (check_methods-All P now auths r.1 k)
      ]

module _ (md5 sha256 : Bytes → Bytes) (parse : Bytes → Option (List AuthMethod)) (disk : Disk)
    (entry : Entry) (req : Request) (now : ℕ) where
  -- What holds of the nonces that are kept, where `checkRequest` does not panic.
  abbrev Keeps : (Bytes × Nonce → Type 0) → Option (Bool × Progress) → Type 0
  Keeps P none = Unit
  Keeps P (some r) = All P r.1.nonces

  check_params-Keeps :
      (P : Bytes × Nonce → Type 0) (p : Progress) (auths : Option (List AuthMethod))
      → All P p.nonces
      → Keeps P (check_params md5 sha256 parse disk entry req now p auths)
  unfolding check_params
  check_params-Keeps P p none h = tt
  check_params-Keeps P p (some auths) h =
      check_methods-All md5 sha256 parse disk entry req.method P now auths p h

  check_credentials-Keeps :
      (P : Bytes × Nonce → Type 0) (r : Bool × Progress)
      → All P r.1.nonces
      → Keeps P (check_credentials md5 sha256 parse disk entry req now r)
  unfolding check_credentials
  check_credentials-Keeps P (true, p) h = h
  check_credentials-Keeps P (false, p) h = check_params-Keeps P p _ h

  check_rest-Keeps :
      (P : Bytes × Nonce → Type 0) (r : Option (Bool × Progress))
      → Keeps P r
      → Keeps P (check_rest md5 sha256 parse disk entry req r)
  unfolding check_rest
  check_rest-Keeps P none h = tt
  check_rest-Keeps P (some r) h =
      rw (check_anonymous-nonces md5 sha256 parse disk entry req.method r) h

  check_request-Keeps :
      (P : Bytes × Nonce → Type 0) (ns : Nonces)
      → All P ns
      → Keeps P (check_request md5 sha256 parse disk entry req now ns)
  unfolding check_request
  check_request-Keeps P ns h =
      let p : Progress = record { nonces = ns; stale = false; found = false; errors = [] } in
      let certs = certificates_of md5 sha256 parse req.certificates in
      let r = check_certificates md5 sha256 parse disk entry req.method certs p in
      check_rest-Keeps P _ (
        check_credentials-Keeps P r
          (rw (check_certificates-nonces md5 sha256 parse disk entry req.method certs p) h))

  answer_checked-IsFresh :
      (s : State) (checked : Option (Bool × Progress))
      → IsFresh now s.nonces
      → Keeps (λ kn. now ≤ expiry kn.1) checked
      → IsFresh now (answer_checked disk entry now s checked).1.nonces
  unfolding answer_checked
  answer_checked-IsFresh s none h k = h
  answer_checked-IsFresh s (some (authorized, p)) h k =
      challenges_on-IsFresh disk entry p.stale now (auth_list disk entry).0
        (record s { nonces = p.nonces }) (unfold IsFresh in k)

  -- After `Authenticate`, also when it panics, every nonce that is kept is one whose validity has not
  -- ended before the time of the request.
  pub authenticate-IsFresh :
      (s : State) → IsFresh now (authenticate md5 sha256 parse disk entry req now s).1.nonces
  unfolding authenticate
  authenticate-IsFresh s =
      let ns = purge now s.nonces in
      let h = purge-IsFresh now s.nonces in
      answer_checked-IsFresh (record s { nonces = ns })
        (check_request md5 sha256 parse disk entry req now ns) h
        (check_request-Keeps (λ kn. now ≤ expiry kn.1) ns (unfold IsFresh in h))
