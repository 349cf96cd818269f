-- ===== src/Auth/KeyRing.antt =====
-- route/auth/auth.go: the registered public keys, their rotation and their files. The mutex makes each
-- operation one step. What the operating system answers to a read or a write is an argument.
pub mod Rotation
pub mod Reload
use kokorobox_service.Common.{
  ℕ, Bool, true, false, not, ◌&&◌, ◌||◌, Option, none, some, List, [], Text, text_eq, trim_space,
  is_empty, length, all, leb, ◌==◌, if◌then◌else◌, Result, ok, err, ◌>>=◌, ◌>>◌, guard, get, put,
}
use kokorobox_service.Auth.Crypto.{Crypto, PkixKey, malformed, other_kind, ed25519}
use kokorobox_service.Auth.Principals.{
  bad_signature_encoding, Principal, AuthError, empty_key_id, long_key_id, bad_key_id, bad_base64,
  empty_public_key, bad_pkix, not_ed25519, id_mismatch, unreadable_ring, malformed_ring,
  no_current_key, unreadable_legacy, no_legacy, bad_pem, not_saved, unregistered, bad_signature,
}

pub record StoredKey : Type 0 where
  pub key_id : Text
  pub public_key : Text

pub record KeyRing : Type 0 where
  pub current : Option StoredKey
  pub previous : Option StoredKey

pub record KeyManager (K : Type 0) : Type 0 where
  pub public_keys : List (Text × K)
  pub current_key : Option StoredKey
  pub previous_key : Option StoredKey
  pub authorized_principal : Option Principal

-- os.ReadFile and the decoding of the contents.
pub data Loaded (A : Type 0) : Type 0 where
  missing unreadable undecodable : Loaded A
  contents : A → Loaded A

pub data Written : Type 0 where
  written failed : Written

unfoldable pub is_key_id_char : ℕ → Bool
is_key_id_char c =
    leb b'a' c && leb c b'z'
    || leb b'A' c && leb c b'Z'
    || leb b'0' c && leb c b'9'
    || c == b'-'
    || c == b'_'
    || c == b'.'

unfoldable pub validate_key_id : Text → Result AuthError Text
unfolding is_key_id_char
validate_key_id key_id = do
  let normalized = trim_space key_id
  guard (not (is_empty normalized)) empty_key_id
  guard (leb (length normalized) 128) long_key_id
  guard (all is_key_id_char normalized) bad_key_id
  ok normalized

unfoldable pub same_stored_public_key : Option StoredKey → Option StoredKey → Bool
same_stored_public_key none none = true
same_stored_public_key (some l) (some r) =
    text_eq l.key_id r.key_id && text_eq l.public_key r.public_key
same_stored_public_key _ _ = false

module _ (c : Crypto) where
  open c use {Key, decode_base64, encode_base64, sha256_hex, parse_pkix, verify}

  unfoldable pub compute_key_id : Text → Result AuthError Text
  compute_key_id public_key = elim (decode_base64 (trim_space public_key)) [
    | none ↦ err bad_base64
    | some bytes ↦ ok (sha256_hex bytes)
  ]

  unfoldable pub as_ed25519 : PkixKey Key → Result AuthError Key
  as_ed25519 malformed = err bad_pkix
  as_ed25519 other_kind = err not_ed25519
  as_ed25519 (ed25519 k) = ok k

  unfoldable pub decode_public_key : Text → Result AuthError Key
  unfolding as_ed25519
  decode_public_key normalized = elim (decode_base64 normalized) [
    | none ↦ err bad_base64
    | some bytes ↦ as_ed25519 (parse_pkix bytes)
  ]

  unfoldable pub parse_public_key : Text → Result AuthError (Text × Key)
  parse_public_key public_key = do
    let normalized = trim_space public_key
    guard (not (is_empty normalized)) empty_public_key
    key ← decode_public_key normalized
    ok (normalized, key)

  -- The key id that `normalizeStoredPublicKey` settles on.
  unfoldable pub settle_key_id : Text → Text → Result AuthError Text
  settle_key_id stored computed = if is_empty stored then ok computed else (do
    key_id ← validate_key_id stored
    guard (text_eq key_id computed) id_mismatch
    ok key_id)

  unfoldable pub normalize_stored_public_key :
      Option StoredKey → Result AuthError (Option StoredKey)
  normalize_stored_public_key none = ok none
  normalize_stored_public_key (some stored) = do
    parsed ← parse_public_key stored.public_key
    computed ← compute_key_id parsed.0
    key_id ← settle_key_id (trim_space stored.key_id) computed
    ok (some (record { key_id = key_id; public_key = parsed.0 }))

  -- One of the two steps of `refreshPublicKeysLocked`.
  unfoldable pub add_key :
      Option StoredKey → List (Text × Key) → Result AuthError (List (Text × Key))
  add_key none keys = ok keys
  add_key (some stored) keys = do
    parsed ← parse_public_key stored.public_key
    ok (put stored.key_id parsed.1 keys)

  unfoldable pub registered :
      Option StoredKey → Option StoredKey → Result AuthError (List (Text × Key))
  unfolding add_key
  registered current previous = do keys ← add_key current []; add_key previous keys

  -- A failed refresh keeps the old map.
  unfoldable pub refresh_public_keys_locked :
      KeyManager Key → KeyManager Key × Result AuthError (Unit {0})
  refresh_public_keys_locked km = elim (registered km.current_key km.previous_key) [
    | ok keys ↦ (record km { public_keys = keys }, ok tt)
    | err e ↦ (km, err e)
  ]

  unfoldable pub stored_key : Text → Result AuthError StoredKey
  stored_key public_key = do
    parsed ← parse_public_key public_key
    key_id ← compute_key_id parsed.0
    ok (record { key_id = key_id; public_key = parsed.0 })

  -- The keys that `SetPublicKey` puts in place before it refreshes the map.
  unfoldable pub rotate : KeyManager Key → StoredKey → KeyManager Key
  rotate km next = record km {
    current_key = some next;
    previous_key =
        if same_stored_public_key km.current_key (some next) then none else km.current_key;
  }

  -- The old keys again, and the map with them.
  unfoldable pub roll_back : KeyManager Key → KeyManager Key → KeyManager Key
  roll_back old km =
      (refresh_public_keys_locked
        (record km { current_key = old.current_key; previous_key = old.previous_key })).0

  unfoldable pub commit_key :
      KeyManager Key → StoredKey → Written → KeyManager Key × Result AuthError Bool
  commit_key km next saved =
      let (turned, refreshed) = refresh_public_keys_locked (rotate km next) in
      elim refreshed [
        | err e ↦ (roll_back km turned, err e)
        | ok _ ↦ elim saved [
          | written ↦ (turned, ok true)
          | failed ↦ (roll_back km turned, err not_saved)
        ]
      ]

  unfoldable pub set_public_key :
      KeyManager Key → Text → Written → KeyManager Key × Result AuthError Bool
  set_public_key km public_key saved = elim (stored_key public_key) [
    | err e ↦ (km, err e)
    | ok next ↦
        if same_stored_public_key km.current_key (some next)
        then (km, ok false)
        else commit_key km next saved
  ]

  -- What `savePublicKeysLocked` writes.
  abbrev pub ring_of : KeyManager Key → KeyRing
  ring_of km = record { current = km.current_key; previous = km.previous_key }

  -- The bytes of the block of the legacy PEM file.
  unfoldable pub load_legacy_public_key_locked : Loaded Text → Result AuthError StoredKey
  unfolding compute_key_id
  load_legacy_public_key_locked missing = err no_legacy
  load_legacy_public_key_locked unreadable = err unreadable_legacy
  load_legacy_public_key_locked undecodable = err bad_pem
  load_legacy_public_key_locked (contents bytes) = elim (parse_pkix bytes) [
    | malformed ↦ err bad_pkix
    | _ ↦ (do
      key_id ← compute_key_id (encode_base64 bytes)
      ok (record { key_id = key_id; public_key = encode_base64 bytes }))
  ]

  unfoldable pub required : Option StoredKey → Result AuthError StoredKey
  required none = err no_current_key
  required (some k) = ok k

  unfoldable pub load_ring : KeyManager Key → KeyRing → Result AuthError (KeyManager Key)
  unfolding normalize_stored_public_key required
  load_ring km ring = do
    normalized ← normalize_stored_public_key ring.current
    current ← required normalized
    previous ← normalize_stored_public_key ring.previous
    ok (record km {
      current_key = some current;
      previous_key = if same_stored_public_key (some current) previous then none else previous;
    })

  -- An error keeps what was loaded before it.
  unfoldable pub then_refresh :
      KeyManager Key
      → Result AuthError (KeyManager Key)
      → KeyManager Key × Result AuthError (Unit {0})
  then_refresh km (err e) = (km, err e)
  then_refresh km (ok loaded) = refresh_public_keys_locked loaded

  unfoldable pub load_public_keys :
      KeyManager Key → Loaded KeyRing → Loaded Text → KeyManager Key × Result AuthError (Unit {0})
  load_public_keys km missing legacy = then_refresh km do
    current ← load_legacy_public_key_locked legacy
    ok (record km { current_key = some current; previous_key = none })
  load_public_keys km unreadable legacy = (km, err unreadable_ring)
  load_public_keys km undecodable legacy = (km, err malformed_ring)
  load_public_keys km (contents ring) legacy = then_refresh km (load_ring km ring)

  unfoldable pub check_signature : Option Key → Text → Text → Result AuthError (Unit {0})
  check_signature none message signature = err unregistered
  check_signature (some k) message signature = elim (decode_base64 signature) [
    | none ↦ err bad_signature_encoding
    | some sig ↦ guard (verify k message sig) bad_signature
  ]

  unfoldable pub verify_signature :
      KeyManager Key → Text → Text → Text → Result AuthError (Unit {0})
  verify_signature km key_id message signature = do
    normalized ← validate_key_id key_id
    check_signature (get normalized km.public_keys) message signature

unfoldable pub is_initialized : {K : Type 0} → KeyManager K → Bool
is_initialized km = elim km.current_key [ none ↦ false | some k ↦ not (is_empty k.key_id) ]

unfoldable pub has_authorized_principal : {K : Type 0} → KeyManager K → Bool
has_authorized_principal km = elim km.authorized_principal [ none ↦ false | some p ↦ true ]
