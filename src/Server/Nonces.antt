-- ===== src/Server/Nonces.antt =====
-- server/auth.go: the nonces of an authenticator.
pub mod Lifetime
use smart_web.Base.{
  ℕ, zero, suc, ◌+◌, ◌-◌, ◌*◌, ◌/◌, ◌%◌, Bool, true, false, not, ◌&&◌, ◌||◌, Option, none, some,
  List, [], ◌∷◌, ◌++◌, ◌⊎◌, inl, inr, Bytes, codes, equal, ltb, leb, ◌==◌, if◌then◌else◌,
}

-- Times and durations are nanoseconds, times from a day before the server started.
pub record Nonce : Type 0 where
  pub time : ℕ
  pub validity : ℕ
  pub opaque : Bytes
  pub domain : Bytes
  pub realm : Bytes

-- `time.Minute * 5`
abbrev pub nonce_validity : ℕ
nonce_validity = 300000000000

-- The map from keys to nonces: a key stands in it once at most, as `set_nonce` keeps it.
abbrev pub Nonces : Type 0
Nonces = List (Bytes × Nonce)

unfoldable pub find_nonce : Bytes → Nonces → Option Nonce
find_nonce key [] = none
find_nonce key ((k, n) ∷ ns) = if equal k key then some n else find_nonce key ns

-- `delete`
unfoldable pub delete_nonce : Bytes → Nonces → Nonces
delete_nonce key [] = []
delete_nonce key ((k, n) ∷ ns) =
    let rest = delete_nonce key ns in if equal k key then rest else (k, n) ∷ rest

unfoldable pub set_nonce : Bytes → Nonce → Nonces → Nonces
set_nonce key n ns = (key, n) ∷ delete_nonce key ns

-- the end of a nonce's validity
abbrev pub expiry : Nonce → ℕ
expiry n = n.time + n.validity

-- `purge`
unfoldable pub purge : ℕ → Nonces → Nonces
purge now [] = []
purge now ((k, n) ∷ ns) =
    let rest = purge now ns in if ltb (expiry n) now then rest else (k, n) ∷ rest

-- the alphabet of `base64.StdEncoding`
unfoldable pub base64_digit : ℕ → ℕ
base64_digit d =
    if ltb d 26
    then b'A' + d
    else if ltb d 52
    then 71 + d
    else if ltb d 62
    then d - 4
    else if d == 62
    then b'+'
    else b'/'

-- `EncodeToString` of a multiple of three bytes
unfoldable pub base64 : Bytes → Bytes
base64 [] = []
base64 (a ∷ []) = []
base64 (a ∷ b ∷ []) = []
base64 (a ∷ b ∷ c ∷ s) =
    base64_digit (a / 4)
    ∷ base64_digit (a % 4 * 16 + b / 16)
    ∷ base64_digit (b % 16 * 4 + c / 64)
    ∷ base64_digit (c % 64)
    ∷ base64 s

-- `RandomKey`, from what the source of random numbers yields: 12 bytes, or an error
unfoldable pub random_key : Bytes ⊎ Bytes → Bytes ⊎ Bytes
random_key (inl err) = inl err
random_key (inr bytes) = inr (base64 bytes)

-- An authenticator, and what is left of the random source: each read's bytes or error.
pub record State : Type 0 where
  pub nonces : Nonces
  pub random : ℕ → Bytes ⊎ Bytes
  pub used : ℕ

-- `generateNonce`, from its first and second random key: the key and the opaque value, or an error
unfoldable pub store_nonce :
    State
    → Bytes
    → Bytes
    → ℕ
    → ℕ
    → Bytes ⊎ Bytes
    → Bytes ⊎ Bytes
    → (Bytes ⊎ (Bytes × Bytes)) × State
store_nonce s domain realm time valid (inl err) second = (inl err, record s { used = suc s.used })
store_nonce s domain realm time valid (inr key) (inl err) =
    (inl err, record s { used = suc (suc s.used) })
store_nonce s domain realm time valid (inr key) (inr opaque) = (
  inr (key, opaque),
  record s {
    nonces =
        set_nonce key
          (record {
            time = time;
            validity = valid;
            opaque = opaque;
            domain = domain;
            realm = realm;
          })
          s.nonces;
    used = suc (suc s.used);
  },
)

unfoldable pub generate_nonce : State → Bytes → Bytes → ℕ → ℕ → (Bytes ⊎ (Bytes × Bytes)) × State
generate_nonce s domain realm time valid =
    store_nonce s domain realm time valid (random_key (s.random s.used))
      (random_key (s.random (suc s.used)))

-- What `checkNonce` returns: whether the nonce is valid, its opaque value, its domain and its realm.
pub record NonceCheck : Type 0 where
  pub valid : Bool
  pub opaque : Bytes
  pub domain : Bytes
  pub realm : Bytes

unfoldable pub check_found : Bytes → ℕ → Nonces → Option Nonce → NonceCheck × Nonces
check_found key now ns none = (record { valid = false; opaque = []; domain = []; realm = [] }, ns)
check_found key now ns (some n) = (
  record { valid = ltb now (expiry n); opaque = n.opaque; domain = n.domain; realm = n.realm },
  (if ltb now (expiry n) then ns else delete_nonce key ns),
)

-- `checkNonce`; it makes no use of the nonce count
unfoldable pub check_nonce : Bytes → ℕ → Nonces → NonceCheck × Nonces
check_nonce key now ns = check_found key now ns (find_nonce key ns)
