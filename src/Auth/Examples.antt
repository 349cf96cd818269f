-- ===== src/Auth/Examples.antt =====
-- Concrete runs of route/auth, with a cryptography and an encoding of queries that are simple functions.
use kokorobox_service.Common.{
  Option, inl, format_digits, format_uint, Free, arith, subst, ◌≢◌, false, err, ◌⊎◌, join,
  upper_char, to_upper, lower_char, to_lower, parse_uint, parse_digits, filter, all, delete, put,
  get, is_space, trim_space, trim_left, true, ◌≡◌, refl, none, some, [], ◌∷◌, Text, codes, ok,
  text_eq,
}
use kokorobox_service.Auth.Crypto.{Crypto, ed25519}
use kokorobox_service.Auth.Principals.{
  same_authorized_principal, validate_authorized_principal, not_saved, check_peer,
  verify_request_principal, Peer, peer,
}
use kokorobox_service.Auth.KeyRing.Reload.{set_public_key_reloads}
use kokorobox_service.Auth.KeyRing.{
  is_key_id_char, load_public_keys, contents, ring_of, missing, roll_back, failed, check_signature,
  validate_key_id, has_authorized_principal, is_initialized, add_key, registered,
  refresh_public_keys_locked, rotate, commit_key, same_stored_public_key, compute_key_id,
  as_ed25519, decode_public_key, parse_public_key, stored_key, StoredKey, KeyManager, written,
  set_public_key, verify_signature,
}
use kokorobox_service.Auth.Nonce.{
  remember_all, forget, is_live, insert_nonce, evict_expired_locked, evict, new_nonce_store,
  remember,
}
use kokorobox_service.Auth.Requests.{
  missing_information, negate, keep_sign, parse_int64, within_drift, headers_present, nonce_key,
  text_leb, insert_text, sort_texts, values_of, keys_of, query_part, query_parts, canonical_domain,
  canonical_lines, canonicalize_query, build_canonical_request, require, as_forbidden,
  as_unauthorized, check_request, authenticate_request, admit, Url, Request, auth_middleware,
  nonce_ttl,
}
use kokorobox_service.Auth.Binding.{
  uid_principal, check_uninitialized, install, save_principal, set_authorized_principal,
  prepare_bootstrap, Files, set_authorized_uid, Outcomes, bootstrap_public_key_for_uid,
}
use kokorobox_service.Auth.Requests.Acceptance.{auth_middleware_sound, IsAccepted}
use kokorobox_service.Auth.KeyRing.Rotation.{
  IsKeyOf, set_public_key_atomic, set_public_key_revokes, verify_signature_sound, IsConsistent,
}
use kokorobox_service.Auth.Nonce.Replay.{remember_replayed}
use kokorobox_service.Auth.Nonce.Stale.{stale_clock_replays}
use kokorobox_service.Auth.Nonce.Eviction.{
  new_nonce_store-IsTidy, remember-IsClean, IsClean, IsTidy,
}
use kokorobox_service.Auth.Requests.Canonical.{canonical_covers, path_line, IsOneLine}
use kokorobox_service.Auth.Binding.Bootstrap.{bootstrap_never_replaces, bootstrap_atomic}

-- A hash that is the identity, and a signature that is the key itself.
abbrev toy : Crypto
toy = record {
  Key = Text;
  decode_base64 = λ s. some s;
  encode_base64 = λ s. s;
  sha256_hex = λ s. s;
  parse_pkix = λ s. ed25519 s;
  verify = λ k m s. text_eq s k;
}

abbrev plain_url : Url
plain_url = record { parse_query = λ s. some ((s, []) ∷ []); query_escape = λ s. s }

abbrev key_one : StoredKey
key_one = record { key_id = codes "k1"; public_key = codes "k1" }

abbrev owned : KeyManager Text
owned = record {
  public_keys = (codes "k1", codes "k1") ∷ [];
  current_key = some key_one;
  previous_key = none;
  authorized_principal = some (record { kind = codes "uid"; value = codes "7" });
}

abbrev empty_manager : KeyManager Text
empty_manager = record {
  public_keys = [];
  current_key = none;
  previous_key = none;
  authorized_principal = none;
}

abbrev bare_files : Files
bare_files = record { ring = none; principal = none }

abbrev principal_fails : Outcomes
principal_fails = record {
  ring_seen = true;
  principal_seen = true;
  ring_written = true;
  principal_written = false;
  ring_removed = true;
}

abbrev asker : Peer
asker = peer (codes "uid") (codes "7")

abbrev request : Request
request = record {
  version = codes "2";
  timestamp = codes "1";
  key_id = codes "k1";
  nonce = codes "n";
  content_sha256 = codes "b";
  signature = codes "k1";
  method = codes "get";
  escaped_path = codes "/dns";
  raw_query = codes "q";
  body = some (codes "b");
}

request_accepted :
    (auth_middleware toy plain_url (new_nonce_store nonce_ttl) owned asker request 5).1 ≡ ok tt
unfolding auth_middleware admit authenticate_request check_request as_unauthorized as_forbidden
    require build_canonical_request canonicalize_query canonical_lines canonical_domain query_parts
    query_part keys_of values_of sort_texts insert_text text_leb nonce_key headers_present
    within_drift parse_int64 keep_sign negate new_nonce_store remember evict evict_expired_locked
    insert_nonce is_live forget verify_request_principal check_peer is_initialized
    has_authorized_principal verify_signature validate_key_id check_signature trim_left trim_space
    is_space all filter get put delete parse_digits parse_uint text_eq to_lower lower_char to_upper
    upper_char join
request_accepted = refl

two_keys : (set_public_key toy owned (codes "k2") written).1 ≡ ok true
unfolding set_public_key stored_key parse_public_key decode_public_key as_ed25519 compute_key_id
    same_stored_public_key commit_key rotate refresh_public_keys_locked registered add_key trim_left
    trim_space is_space get put delete text_eq
two_keys = refl

owned-IsConsistent : IsConsistent toy owned
unfolding registered add_key parse_public_key decode_public_key as_ed25519 trim_space trim_left
    is_space put
owned-IsConsistent = refl

rotation_fails : (set_public_key toy owned (codes "k2") failed).1 ≡ err not_saved
unfolding set_public_key stored_key parse_public_key decode_public_key as_ed25519 compute_key_id
    same_stored_public_key commit_key rotate refresh_public_keys_locked registered add_key trim_left
    trim_space is_space get put delete text_eq roll_back
rotation_fails = refl

old_key_verifies : verify_signature toy owned (codes "k1") (codes "m") (codes "k1") ≡ ok tt
unfolding verify_signature validate_key_id check_signature trim_left trim_space is_space all get
    text_eq
old_key_verifies = refl

previous_key_verifies :
    verify_signature toy
      (set_public_key toy owned (codes "k2") written).0
      (codes "k1")
      (codes "m")
      (codes "k1")
    ≡ ok tt
unfolding set_public_key stored_key parse_public_key decode_public_key as_ed25519 compute_key_id
    same_stored_public_key commit_key rotate refresh_public_keys_locked registered add_key trim_left
    trim_space is_space get put delete text_eq verify_signature validate_key_id check_signature all
previous_key_verifies = refl

bootstrap_fails :
    (bootstrap_public_key_for_uid toy empty_manager bare_files principal_fails (codes "k1") 7).1
    ≡ err not_saved
unfolding bootstrap_public_key_for_uid prepare_bootstrap install check_uninitialized uid_principal
    validate_authorized_principal stored_key parse_public_key decode_public_key as_ed25519
    compute_key_id trim_left trim_space is_space text_eq format_uint format_digits parse_uint
    parse_digits
bootstrap_fails = refl

user_set : (set_authorized_uid owned 9 written).1 ≡ ok true
unfolding set_authorized_uid set_authorized_principal save_principal uid_principal
    validate_authorized_principal same_authorized_principal trim_left trim_space is_space text_eq
    format_uint format_digits parse_uint parse_digits
user_set = refl

bad_request_refused :
    (auth_middleware toy plain_url
      (new_nonce_store nonce_ttl)
      owned
      asker
      (record request { timestamp = [] })
      5).1
    ≡ err missing_information
unfolding auth_middleware admit authenticate_request check_request as_unauthorized as_forbidden
    require build_canonical_request canonicalize_query canonical_lines canonical_domain query_parts
    query_part keys_of values_of sort_texts insert_text text_leb nonce_key headers_present
    within_drift parse_int64 keep_sign negate new_nonce_store remember evict evict_expired_locked
    insert_nonce is_live forget verify_request_principal check_peer is_initialized
    has_authorized_principal verify_signature validate_key_id check_signature trim_left trim_space
    is_space all filter get put delete parse_digits parse_uint text_eq to_lower lower_char to_upper
    upper_char join
bad_request_refused = refl

nonce_accepted : (remember (new_nonce_store 60) (codes "n") 5).1 ≡ true
unfolding new_nonce_store remember evict evict_expired_locked is_live get
nonce_accepted = refl

request_form :
    build_canonical_request plain_url request (codes "b") (codes "2")
    ≡ some (
        join 10
          (canonical_lines plain_url request (codes "b") (codes "SPARKLE-AUTH-V2") (codes "q=")))
unfolding build_canonical_request canonicalize_query canonical_domain query_parts query_part keys_of
    values_of sort_texts insert_text filter text_eq join
request_form = refl

query_canonical : canonicalize_query plain_url (codes "q") ≡ some (codes "q=")
unfolding canonicalize_query query_parts query_part keys_of values_of sort_texts insert_text filter
    text_eq join
query_canonical = refl

canonical-Free : (o : Option Text) (q : Text) → o ≡ some (codes "q=") → o ≡ some q → Free b'\n' q
canonical-Free o q p e =
    let same : codes "q=" ≡ q = cc (p, e) in subst (λ s. Free b'\n' s) same (refl, (refl, tt))

request-IsOneLine : IsOneLine plain_url request (codes "b")
unfolding to_upper upper_char
request-IsOneLine = record {
  timestamp = (refl, tt);
  nonce = (refl, tt);
  key_id = (refl, (refl, tt));
  method = (refl, (refl, (refl, tt)));
  path = (refl, (refl, (refl, (refl, tt))));
  query = λ q e. canonical-Free (canonicalize_query plain_url (codes "q")) q query_canonical e;
  hash = (refl, tt);
}

auth_middleware_sound_example :
    IsAccepted toy plain_url (new_nonce_store nonce_ttl) owned asker request 5
auth_middleware_sound_example =
    auth_middleware_sound toy plain_url (new_nonce_store nonce_ttl) owned asker request 5
      request_accepted

set_public_key_atomic_example : (set_public_key toy owned (codes "k2") failed).0 ≡ owned
set_public_key_atomic_example =
    set_public_key_atomic toy owned (codes "k2") failed owned-IsConsistent rotation_fails

verify_signature_sound_example :
    (id : Text) × (k : Text) × (sig : Text) × (validate_key_id (codes "k1") ≡ ok id)
    × (IsKeyOf toy owned.current_key id k ⊎ IsKeyOf toy owned.previous_key id k)
    × (some (codes "k1") ≡ some sig)
    × (text_eq sig k ≡ true)
verify_signature_sound_example =
    verify_signature_sound toy owned (codes "k1") (codes "m") (codes "k1") owned-IsConsistent
      old_key_verifies

set_public_key_revokes_example :
    (id : Text) × (validate_key_id (codes "k1") ≡ ok id)
    × (((next : StoredKey) × (stored_key toy (codes "k2") ≡ ok next) × (next.key_id ≡ id))
        ⊎ ((old : StoredKey) × (owned.current_key ≡ some old) × (old.key_id ≡ id)))
set_public_key_revokes_example =
    set_public_key_revokes toy owned (codes "k2") written (codes "k1") (codes "m") (codes "k1")
      owned-IsConsistent two_keys previous_key_verifies

bootstrap_never_replaces_example :
    ((bootstrap_public_key_for_uid toy owned bare_files principal_fails (codes "k1") 7).0
      ≡ (owned, bare_files))
    × ((bootstrap_public_key_for_uid toy owned bare_files principal_fails (codes "k1") 7).1 ≢ ok tt)
bootstrap_never_replaces_example =
    bootstrap_never_replaces toy owned bare_files principal_fails (codes "k1") 7 (inl (λ e. cc))

bootstrap_atomic_example :
    ((bootstrap_public_key_for_uid toy empty_manager bare_files principal_fails (codes "k1") 7).0.0
      ≡ empty_manager)
    × (((bootstrap_public_key_for_uid toy empty_manager bare_files principal_fails
            (codes "k1")
            7).0.1
          ≡ bare_files)
        ⊎ ((principal_fails.ring_written ≡ true) × (principal_fails.ring_removed ≡ false)))
bootstrap_atomic_example =
    bootstrap_atomic toy empty_manager bare_files principal_fails (codes "k1") 7 bootstrap_fails

remember_replayed_example :
    (remember
      (remember_all (remember (new_nonce_store 60) (codes "n") 5).0 ((codes "x", 7) ∷ []))
      (codes "n")
      30).1
    ≡ false
unfolding new_nonce_store
remember_replayed_example =
    remember_replayed (new_nonce_store 60) (codes "n") 5 30 ((codes "x", 7) ∷ []) nonce_accepted
      (omega arith, tt) (omega arith)

remember-IsClean_example :
    IsTidy (remember (new_nonce_store 60) (codes "n") 8).0 8
    × IsClean (remember (new_nonce_store 60) (codes "n") 8).0 8
unfolding new_nonce_store
remember-IsClean_example =
    remember-IsClean (new_nonce_store 60) (codes "n") 3 8 (omega arith)
      (new_nonce_store-IsTidy 60 3) (omega arith)

stale_clock_replays_example :
    (remember
      (remember_all (remember (new_nonce_store 60) (codes "n") 5).0 ((codes "x", 65) ∷ []))
      (codes "n")
      30).1
    ≡ true
unfolding text_eq new_nonce_store
stale_clock_replays_example =
    stale_clock_replays (new_nonce_store 60) (codes "n") (codes "x") 5 65 30 tt nonce_accepted
      (omega arith) refl

canonical_covers_example :
    (canonical_domain (codes "2") ≡ canonical_domain (codes "2"))
    × (request.timestamp ≡ request.timestamp)
    × (request.nonce ≡ request.nonce)
    × (request.key_id ≡ request.key_id)
    × (to_upper request.method ≡ to_upper request.method)
    × (path_line request ≡ path_line request)
    × (canonicalize_query plain_url request.raw_query
        ≡ canonicalize_query plain_url request.raw_query)
    × (codes "b" ≡ codes "b")
canonical_covers_example =
    canonical_covers plain_url request request (codes "b") (codes "b") (codes "2") (codes "2")
      (join 10
        (canonical_lines plain_url request (codes "b") (codes "SPARKLE-AUTH-V2") (codes "q=")))
      request-IsOneLine request-IsOneLine request_form request_form

-- A hash that is one valid key id.
abbrev constant_hash : Crypto
constant_hash = record toy { sha256_hex = λ s. codes "k1" }

fresh_key_set : (set_public_key constant_hash empty_manager (codes "k2") written).1 ≡ ok true
unfolding set_public_key stored_key parse_public_key decode_public_key as_ed25519 compute_key_id
    same_stored_public_key commit_key rotate refresh_public_keys_locked registered add_key trim_left
    trim_space is_space get put delete text_eq
fresh_key_set = refl

set_public_key_reloads_example :
    load_public_keys constant_hash empty_manager
      (contents
        (ring_of constant_hash (set_public_key constant_hash empty_manager (codes "k2") written).0))
      missing
    ≡ (
      record empty_manager {
        public_keys =
            (set_public_key constant_hash empty_manager (codes "k2") written).0.public_keys;
        current_key =
            (set_public_key constant_hash empty_manager (codes "k2") written).0.current_key;
        previous_key =
            (set_public_key constant_hash empty_manager (codes "k2") written).0.previous_key;
      },
      ok tt,
    )
unfolding registered add_key validate_key_id is_key_id_char trim_left trim_space is_space all
set_public_key_reloads_example =
    set_public_key_reloads constant_hash (λ b. refl) empty_manager empty_manager (codes "k2")
      written missing refl tt fresh_key_set
