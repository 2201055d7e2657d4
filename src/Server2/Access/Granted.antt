-- ===== src/Server2/Access/Granted.antt =====
-- server2/server.go: who is let in.
use smart_web.Base.{
  Bool, true, false, List, [], ◌∷◌, ◌++◌, ◌≡◌, ◌↔◌, ◌⊎◌, inl, inr, refl, ap, ◌∙◌, sym, Option, none,
  some, Bytes, All,
}
use smart_web.Server2.Access.{
  Answer, answer, failed, no_answer, granted, forbidden, round, check_users, access, sw_anonymous,
}

-- Some user is allowed, and every user before it is answered, and not allowed.
pub IsFirst : (Bytes → Answer) → List Bytes → Type 0
IsFirst check users =
    (before : List Bytes) × (user : Bytes) × (after : List Bytes) × (users ≡ before ++ user ∷ after)
    × All (λ u. check u ≡ answer false) before
    × (check user ≡ answer true)

Answer-cases :
    (a : Answer)
    → (a ≡ answer true) ⊎ (a ≡ answer false) ⊎ ((e : Bytes) × (a ≡ failed e)) ⊎ (a ≡ no_answer)
Answer-cases (answer true) = inl refl
Answer-cases (answer false) = inr (inl refl)
Answer-cases (failed e) = inr (inr (inl (e, refl)))
Answer-cases no_answer = inr (inr (inr refl))

check_users-cons :
    (check : Bytes → Answer) (user : Bytes) (users : List Bytes)
    → check user ≡ answer false
    → check_users check (user ∷ users) ≡ check_users check users
unfolding check_users round
check_users-cons check user users denied = rw denied refl

check_users→IsFirst :
    (check : Bytes → Answer) (users : List Bytes)
    → check_users check users ≡ granted
    → IsFirst check users
unfolding check_users IsFirst
check_users→IsFirst check [] e = cc
check_users→IsFirst check (user ∷ users) e = elim (Answer-cases (check user)) [
  | inl allowed ↦ ([], user, users, refl, tt, allowed)
  | inr (inl denied) ↦
      let rest =
        check_users→IsFirst check users (sym (check_users-cons check user users denied) ∙ e) in
      (user ∷ rest.0, rest.1, rest.2, ap (λ us. user ∷ us) rest.3, (denied, rest.4), rest.5)
  | inr (inr (inl (text, error))) ↦ absurd (unfold round in cc (rw error at e))
  | inr (inr (inr lost)) ↦ absurd (unfold round in cc (rw lost at e))
]

IsFirst→check_users :
    (check : Bytes → Answer) (before : List Bytes) (user : Bytes) (after : List Bytes)
    → All (λ u. check u ≡ answer false) before
    → check user ≡ answer true
    → check_users check (before ++ user ∷ after) ≡ granted
unfolding check_users round
IsFirst→check_users check [] user after _ e = rw e refl
IsFirst→check_users check (u ∷ before) user after (h, hs) e =
    rw h (IsFirst→check_users check before user after hs e)

check_users_iff :
    (check : Bytes → Answer) (users : List Bytes)
    → (check_users check users ≡ granted) ↔ IsFirst check users
unfolding IsFirst
check_users_iff check users =
    (check_users→IsFirst check users, λ h. rw h.3 (IsFirst→check_users check h.0 h.1 h.2 h.4 h.5))

round_iff : (a : Answer) → (round a forbidden ≡ granted) ↔ (a ≡ answer true)
unfolding round
round_iff (answer true) = (λ _. refl, λ _. refl)
round_iff (answer false) = (λ e. cc, λ e. cc)
round_iff (failed text) = (λ e. cc, λ e. cc)
round_iff no_answer = (λ e. cc, λ e. cc)

-- The access rule of `ServeHTTP`, which comes behind the answer to requests for a key, lets a request
-- in exactly when access control is off, or it came without TLS and `checkAuth`
-- allows the anonymous user, or it came with TLS and `checkAuth` allows one of the client's
-- certificates, after it has answered no for each certificate before this one.
pub access_iff :
    (use_acl : Bool) (users : Option (List Bytes)) (check : Bytes → Answer)
    → (access use_acl users check ≡ granted) ↔ (
        (use_acl ≡ false)
        ⊎ ((users ≡ none) × (check sw_anonymous ≡ answer true))
        ⊎ ((us : List Bytes) × (users ≡ some us) × IsFirst check us))
unfolding access
access_iff false users check = (λ _. inl refl, λ _. refl)
access_iff true none check = (
  λ e. inr (inl (refl, (round_iff (check sw_anonymous)).0 (unfold check_users in e))),
  λ e. elim e [
    | inl off ↦ cc
    | inr (inl h) ↦ unfold check_users in (round_iff (check sw_anonymous)).1 h.1
    | inr (inr h) ↦ cc (h.1)
  ],
)
access_iff true (some us) check = (
  λ e. inr (inr (us, refl, (check_users_iff check us).0 e)),
  λ e. elim e [
    | inl off ↦ cc
    | inr (inl h) ↦ cc (h.0)
    | inr (inr h) ↦ let same : us ≡ h.0 = cc (h.1) in (check_users_iff check us).1 (rw same h.2)
  ],
)
