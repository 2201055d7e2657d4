-- ===== src/Server/Nonces/Lifetime.antt =====
-- server/auth.go: a nonce from the time it is given out to the end of its validity.
use smart_web.Base.{
  ℕ, suc, ◌+◌, ◌<◌, true, false, some, ◌≡◌, inr, refl, Bytes, equal, equal_iff, ltb, arith,
}
use smart_web.Server.Nonces.{
  Nonce, Nonces, expiry, State, find_nonce, set_nonce, purge, base64, random_key, store_nonce,
  generate_nonce, check_found, check_nonce,
}

equal_self : (s : Bytes) → equal s s ≡ true
equal_self s = (equal_iff s s).1 refl

-- the nonce that was set last outlives a purge before its end
purge-set_nonce :
    (now : ℕ) (key : Bytes) (n : Nonce) (ns : Nonces)
    → now < expiry n
    → find_nonce key (purge now (set_nonce key n ns)) ≡ some n
unfolding purge set_nonce find_nonce
purge-set_nonce now key n ns h =
    let live : ltb (expiry n) now ≡ false = ground arith in
    rw (live, find_nonce, equal_self key) refl

check_found-live :
    (key : Bytes) (now : ℕ) (ns : Nonces) (n : Nonce)
    → now < expiry n
    → check_found key now ns (some n)
      ≡ (record { valid = true; opaque = n.opaque; domain = n.domain; realm = n.realm }, ns)
unfolding check_found
check_found-live key now ns n h =
    let live : ltb now (expiry n) ≡ true = ground arith in rw live refl

-- Where the random source yields two keys, `generateNonce` returns them, and at any time before the end
-- of the validity, after a purge at that time, `checkNonce` answers that the nonce is valid, with the
-- opaque value, the domain and the realm that it was made with, and keeps it.
pub check_nonce-generate_nonce :
    (s : State) (domain realm : Bytes) (time valid now : ℕ) (first second : Bytes)
    → s.random s.used ≡ inr first
    → s.random (suc s.used) ≡ inr second
    → now < time + valid
    → let (made, s') = generate_nonce s domain realm time valid in
      (made ≡ inr (base64 first, base64 second))
      × (check_nonce (base64 first) now (purge now s'.nonces) ≡ (
        record { valid = true; opaque = base64 second; domain = domain; realm = realm },
        purge now s'.nonces,
      ))
unfolding generate_nonce store_nonce random_key check_nonce
check_nonce-generate_nonce s domain realm time valid now first second one two h =
    let n : Nonce = record {
      time = time;
      validity = valid;
      opaque = base64 second;
      domain = domain;
      realm = realm;
    } in
    let ns = purge now (set_nonce (base64 first) n s.nonces) in
    rw (one, two)
      (
        refl,
        rw (purge-set_nonce now (base64 first) n s.nonces h)
            (check_found-live (base64 first) now ns n h),
      )
