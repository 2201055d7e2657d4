-- ===== src/Server/Tests.antt =====
-- A file system with one user of one domain, and a request with that user's digest.
use smart_web.Base.{
  Option, true, false, none, some, List, [], ◌∷◌, ◌≡◌, ◌⊎◌, inl, inr, refl, Bytes, codes, equal,
  has_prefix, length, arith, if◌then◌else◌, join_texts,
}
use smart_web.FilePath.{
  ends_in_slash, clean, join_paths, split, split_at, base, last_of, walk, push, pop, join, dir_path,
}
use smart_web.Server.Entry.{
  Entry, create_fs_entry, parent_in, directory, parameters, child_name, child_at, child, parent,
  parent_at, parent_cut, entry_file, without_4, last_4, last_index,
}
use smart_web.Server.Files.{
  OsError, Disk, data_path, exists, read, read_all, children, dir_exists, has_entries,
}
use smart_web.Server.Nonces.{
  State, find_nonce, purge, base64, base64_digit, store_nonce, random_key, generate_nonce,
  check_nonce, check_found, delete_nonce,
}
use smart_web.Server.Nonces.Lifetime.{check_nonce-generate_nonce}
use smart_web.Server.Domains.{
  add_domains, chain, chain_on, get_auth_perms, perms_of, perm_or, ends_at, auths_of, says_allow,
  trim_space, trim_left, trim_front, prefix_length, space_runes, reversed, reverse_onto, auth_list,
  auth_list_on, get_auth_creds, user_on,
}
use smart_web.Server.Authenticator.{
  with_methods, check_params, check_rest, AuthMethod, Request, check_request, hex, hex_digit, h,
  get_auth_params, digest_response, certificates_of, check_certificates, check_domains,
  check_methods, check_method, check_digest, check_password, check_anonymous, check_credentials,
  note_perms, note_error, mark_stale,
}
use smart_web.Server.Authenticator.Digests.{Grounds}
use smart_web.Server.Challenges.{
  answer_checked, authenticate, challenges_on, challenge_with, answer_for, answer_with, no_domains,
}
use smart_web.Server.Challenges.Fresh.{IsFresh, authenticate-IsFresh}
use smart_web.Server.Challenges.Granted.{IsUnguarded, authenticate-Grounds}

abbrev missing : OsError
missing = record { text = codes "no such file"; is_exist = false; is_not_exist = true }

abbrev site : Disk
site = record {
  stat = λ p. some missing;
  content = λ p.
      if equal p (codes "/d/metadir/auth.dir/s.dir/Digest.users.dir/u.data")
      then inr (codes "pw", none)
      else if equal p (codes "/d/metadir/auth.dir/s.dir/GET.perm.data")
      then inr (codes "allow\n", none)
      else inl missing;
  names = λ p. inl missing;
}

abbrev top : Entry
top = create_fs_entry (codes "/d")

abbrev digest : AuthMethod
digest = record {
  name = codes "Digest";
  params = λ key.
      if equal key (codes "algorithm")
      then codes "MD5"
      else if equal key (codes "qop")
      then codes "auth"
      else if equal key (codes "username")
      then codes "u"
      else if equal key (codes "nonce")
      then codes "k"
      else if equal key (codes "opaque")
      then codes "o"
      else if equal key (codes "response")
      then codes "0e"
      else [];
}

-- a hash function that keeps the length only
abbrev size : Bytes → Bytes
size s = length s ∷ []

abbrev digests : Bytes → Option (List AuthMethod)
digests header = some (digest ∷ [])

abbrev login : Request
login = record { method = codes "GET"; certificates = none; authorization = codes "Digest" ∷ [] }

abbrev authenticator : State
authenticator = record {
  nonces =
      (codes "old", record { time = 0; validity = 5; opaque = []; domain = []; realm = [] })
      ∷ (
        codes "k",
        record {
          time = 4;
          validity = 9;
          opaque = codes "o";
          domain = codes "s";
          realm = codes "r";
        },
      )
      ∷ [];
  random = λ i. inr (i ∷ 255 ∷ 3 ∷ []);
  used = 0;
}

login_passes : (authenticate size size digests site top login 7 authenticator).0 ≡ some (true, [])
unfolding authenticate answer_checked check_params check_rest with_methods challenges_on
    challenge_with answer_for answer_with no_domains check_request check_certificates check_domains
    check_methods check_method check_digest check_password check_anonymous check_credentials
    certificates_of get_auth_params digest_response h hex hex_digit note_perms note_error mark_stale
    get_auth_creds user_on auth_list auth_list_on children get_auth_perms perms_of perm_or ends_at
    auths_of says_allow trim_space trim_left trim_front prefix_length space_runes reversed
    reverse_onto chain chain_on parent parent_in parent_at parent_cut entry_file without_4 last_4
    last_index dir_exists has_entries exists read read_all data_path find_nonce purge check_nonce
    check_found delete_nonce create_fs_entry parameters child child_at child_name directory clean
    walk push pop join dir_path join_paths split split_at base last_of join_texts ends_in_slash
    equal has_prefix add_domains
login_passes = refl

authenticate-Grounds_example :
    Grounds size size digests site top login 7 (purge 7 authenticator.nonces)
    ⊎ IsUnguarded
        (check_request size size digests site top login 7 (purge 7 authenticator.nonces))
        (auth_list site top).0
authenticate-Grounds_example =
    authenticate-Grounds size size digests site top login 7 authenticator [] login_passes

authenticate-IsFresh_example :
    IsFresh 7 (authenticate size size digests site top login 7 authenticator).1.nonces
authenticate-IsFresh_example = authenticate-IsFresh size size digests site top login 7 authenticator

abbrev below : Entry
below = child (child top (codes "html")) (codes "index.html")

abbrev keys_made : (Bytes ⊎ (Bytes × Bytes)) × State
keys_made = generate_nonce authenticator (codes "s") (codes "r") 7 10

check_nonce-generate_nonce_example :
    (keys_made.0 ≡ inr (base64 (0 ∷ 255 ∷ 3 ∷ []), base64 (1 ∷ 255 ∷ 3 ∷ [])))
    × (check_nonce (base64 (0 ∷ 255 ∷ 3 ∷ [])) 16 (purge 16 keys_made.1.nonces) ≡ (
      record {
        valid = true;
        opaque = base64 (1 ∷ 255 ∷ 3 ∷ []);
        domain = codes "s";
        realm = codes "r";
      },
      purge 16 keys_made.1.nonces,
    ))
check_nonce-generate_nonce_example =
    check_nonce-generate_nonce authenticator (codes "s") (codes "r") 7 10 16 (0 ∷ 255 ∷ 3 ∷ [])
      (1 ∷ 255 ∷ 3 ∷ []) refl refl (omega arith)

keys : (keys_made.0 ≡ inr (codes "AP8D", codes "Af8D"))
unfolding generate_nonce store_nonce random_key base64 base64_digit
keys = refl
