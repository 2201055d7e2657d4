-- ===== src/Server/Challenges/Granted.antt =====
-- server/auth.go: the requests that `Authenticate` lets through.
use smart_web.Base.{
  ℕ, Bool, true, false, Option, none, some, List, [], ◌∷◌, ◌≡◌, ◌⊎◌, inl, inr, refl, Bytes,
}
use smart_web.Server.Entry.{Entry}
use smart_web.Server.Files.{Disk}
use smart_web.Server.Nonces.{State, purge}
use smart_web.Server.Domains.{auth_list}
use smart_web.Server.Authenticator.{Progress, AuthMethod, Request, check_request}
use smart_web.Server.Authenticator.Digests.{Grounds, check_request-Grounds}
use smart_web.Server.Challenges.{answer_checked, no_domains, answer_for, answer_with, authenticate}

no_domains_iff : (names : List Bytes) → no_domains names ≡ true → names ≡ []
unfolding no_domains
no_domains_iff [] h = refl
no_domains_iff (name ∷ names) h = cc

answer_for_cases :
    (found authorized : Bool) (names : List Bytes)
    → answer_for found authorized names ≡ true
    → (authorized ≡ true) ⊎ ((found ≡ false) × (names ≡ []))
unfolding answer_for
answer_for_cases true authorized names h = inl h
answer_for_cases false authorized names h = inr (refl, no_domains_iff names h)

answer_with-some :
    (answer : Bool) (texts : Option (List Bytes)) (a : Bool) (ts : List Bytes)
    → answer_with answer texts ≡ some (a, ts)
    → answer ≡ a
unfolding answer_with
answer_with-some answer none a ts h = cc
answer_with-some answer (some us) a ts h = cc

-- `checkRequest` has returned, having found no permission, and there is no domain.
pub IsUnguarded : Option (Bool × Progress) → List Bytes → Type 0
IsUnguarded checked names =
    (r : Bool × Progress) × (checked ≡ some r) × (r.1.found ≡ false) × (names ≡ [])

answer_checked-true :
    (disk : Disk) (entry : Entry) (now : ℕ) (s : State) (checked : Option (Bool × Progress))
    (texts : List Bytes)
    → (answer_checked disk entry now s checked).0 ≡ some (true, texts)
    → ((r : Bool × Progress) × (checked ≡ some r) × (r.0 ≡ true))
      ⊎ IsUnguarded checked (auth_list disk entry).0
unfolding answer_checked IsUnguarded
answer_checked-true disk entry now s none texts h = cc
answer_checked-true disk entry now s (some (authorized, p)) texts h =
    let names = (auth_list disk entry).0 in
    elim (answer_for_cases p.found authorized names (answer_with-some _ _ true texts h)) [
      | inl allow ↦ inl ((authorized, p), refl, allow)
      | inr (found, empty) ↦ inr ((authorized, p), refl, found, empty)
    ]

module _ (md5 sha256 : Bytes → Bytes) (parse : Bytes → Option (List AuthMethod)) (disk : Disk)
    (entry : Entry) (req : Request) (now : ℕ) where
  -- Where `Authenticate` returns true, there are grounds to allow the request among the nonces that it
  -- has not purged, or `checkRequest` has found no permission at all and `authList` no domain.
  pub authenticate-Grounds :
      (s : State) (texts : List Bytes)
      → (authenticate md5 sha256 parse disk entry req now s).0 ≡ some (true, texts)
      → Grounds md5 sha256 parse disk entry req now (purge now s.nonces)
        ⊎ IsUnguarded
            (check_request md5 sha256 parse disk entry req now (purge now s.nonces))
            (auth_list disk entry).0
  unfolding authenticate
  authenticate-Grounds s texts h =
      let ns = purge now s.nonces in
      let checked = check_request md5 sha256 parse disk entry req now ns in
      elim (answer_checked-true disk entry now (record s { nonces = ns }) checked texts h) [
        | inl (r, done, authorized) ↦
            inl (check_request-Grounds md5 sha256 parse disk entry req now ns r done authorized)
        | inr unguarded ↦ inr unguarded
      ]
