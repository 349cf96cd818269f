-- ===== src/Auth/Requests.antt =====
-- route/auth/middleware.go: the canonical form of a request and its authentication. A time is a number of
-- nanoseconds since the Unix epoch. The decoding and the escaping of queries (net/url) are an interface.
pub mod Acceptance
pub mod Replays
pub mod Canonical
use kokorobox_service.Common.{
  ◌||◌, to_lower, ◌>>=◌, guard, ◌>>◌, join, map, to_upper, ℕ, suc, ◌+◌, ◌*◌, Bool, true, false, not,
  ◌&&◌, Option, none, some, List, [], ◌∷◌, ◌++◌, Text, codes, text_eq, is_empty, leb, ◌==◌,
  if◌then◌else◌, Result, ok, err, parse_uint, filter,
}
use kokorobox_service.Common.Ints.{ℤ, pos, negsuc}
use kokorobox_service.Auth.Principals.{verify_request_principal, Peer, AuthError}
use kokorobox_service.Auth.Crypto.{Crypto}
use kokorobox_service.Auth.KeyRing.{
  verify_signature, has_authorized_principal, is_initialized, KeyManager,
}
use kokorobox_service.Auth.Nonce.{remember, NonceStore}

-- `url.ParseQuery`, as the pairs in their order, and `url.QueryEscape`.
pub record Url : Type 0 where
  pub parse_query : Text → Option (List (Text × Text))
  pub query_escape : Text → Text

pub record Request : Type 0 where
  pub version : Text
  pub timestamp : Text
  pub key_id : Text
  pub nonce : Text
  pub content_sha256 : Text
  pub signature : Text
  pub method : Text
  pub escaped_path : Text
  pub raw_query : Text
  -- `none` if the body cannot be read; a request without a body has the empty one.
  pub body : Option Text

pub data Rejection : Type 0 where
  not_initialized : Rejection
  forbidden : AuthError → Rejection
  unsupported_version missing_information bad_timestamp expired : Rejection
  unreadable_body wrong_digest bad_query : Rejection
  bad_credentials : AuthError → Rejection
  replayed : Rejection

abbrev pub max_timestamp_drift : ℕ
max_timestamp_drift = 30000000000

abbrev pub nonce_ttl : ℕ
nonce_ttl = 60000000000

abbrev int64_min : ℕ
int64_min = 9223372036854775808

abbrev int64_max : ℕ
int64_max = 9223372036854775807

unfoldable pub negate : Option ℕ → Option ℤ
negate none = none
negate (some ℕ.zero) = some (pos 0)
negate (some (suc n)) = some (negsuc n)

unfoldable pub keep_sign : Option ℕ → Option ℤ
keep_sign none = none
keep_sign (some n) = some (pos n)

-- strconv.ParseInt, base 10, 64 bits.
unfoldable pub parse_int64 : Text → Option ℤ
parse_int64 [] = none
parse_int64 (sign ∷ digits) =
    if sign == b'-'
    then negate (parse_uint int64_min digits)
    else if sign == b'+'
    then keep_sign (parse_uint int64_max digits)
    else keep_sign (parse_uint int64_max (sign ∷ digits))

-- `!(timeDiff < -maxTimestampDriftV2 || timeDiff > maxTimestampDriftV2)`, for a timestamp in milliseconds.
unfoldable pub within_drift : ℕ → ℤ → Bool
within_drift now (pos ms) =
    leb (ms * 1000000) (now + max_timestamp_drift) && leb now (ms * 1000000 + max_timestamp_drift)
within_drift now (negsuc ms) = leb (now + suc ms * 1000000) max_timestamp_drift

-- sort.Strings orders by bytes.
unfoldable pub text_leb : Text → Text → Bool
text_leb [] t = true
text_leb (a ∷ s) [] = false
text_leb (a ∷ s) (b ∷ t) = if a == b then text_leb s t else leb a b

unfoldable pub insert_text : Text → List Text → List Text
insert_text s [] = s ∷ []
insert_text s (t ∷ ts) = if text_leb s t then s ∷ t ∷ ts else t ∷ insert_text s ts

unfoldable pub sort_texts : List Text → List Text
sort_texts [] = []
sort_texts (s ∷ ts) = insert_text s (sort_texts ts)

-- The keys of the map, and the values of one of them in their order.
unfoldable pub keys_of : List (Text × Text) → List Text
keys_of [] = []
keys_of ((k, v) ∷ pairs) = k ∷ filter (λ j. not (text_eq k j)) (keys_of pairs)

unfoldable pub values_of : Text → List (Text × Text) → List Text
values_of k [] = []
values_of k ((j, v) ∷ pairs) =
    let rest = values_of k pairs in if text_eq j k then v ∷ rest else rest

unfoldable pub canonical_domain : Text → Option Text
canonical_domain version =
    if text_eq version (codes "2")
    then some (codes "SPARKLE-AUTH-V2")
    else if text_eq version (codes "3")
    then some (codes "KOKOROBOX-AUTH-V3")
    else none

unfoldable pub headers_present : Request → Bool
headers_present r =
    not (is_empty r.timestamp)
    && not (is_empty r.key_id)
    && not (is_empty r.nonce)
    && not (is_empty r.content_sha256)
    && not (is_empty r.signature)

unfoldable pub nonce_key : Request → Text
nonce_key r = r.key_id ++ (b':' ∷ (r.timestamp ++ (b':' ∷ r.nonce)))

unfoldable pub require : {A : Type 0} → Option A → Rejection → Result Rejection A
require none e = err e
require (some a) e = ok a

module _ (u : Url) where
  open u use {parse_query, query_escape}

  unfoldable pub query_part : Text → Text → Text
  query_part k v = query_escape k ++ (b'=' ∷ query_escape v)

  -- The parts of the keys, each key with its sorted values.
  unfoldable pub query_parts : List Text → List (Text × Text) → List Text
  query_parts [] pairs = []
  query_parts (k ∷ ks) pairs =
      map (query_part k) (sort_texts (values_of k pairs)) ++ query_parts ks pairs

  unfoldable pub canonicalize_query : Text → Option Text
  canonicalize_query [] = some []
  canonicalize_query (b ∷ raw) = elim (parse_query (b ∷ raw)) [
    | none ↦ none
    | some pairs ↦ some (join b'&' (query_parts (sort_texts (keys_of pairs)) pairs))
  ]

  unfoldable pub canonical_lines : Request → Text → Text → Text → List Text
  canonical_lines r body_hash domain query =
      domain
      ∷ r.timestamp
      ∷ r.nonce
      ∷ r.key_id
      ∷ to_upper r.method
      ∷ (if is_empty r.escaped_path then codes "/" else r.escaped_path)
      ∷ query
      ∷ body_hash
      ∷ []

  unfoldable pub build_canonical_request : Request → Text → Text → Option Text
  build_canonical_request r body_hash version = elim (canonical_domain version) [
    | none ↦ none
    | some domain ↦ elim (canonicalize_query r.raw_query) [
      | none ↦ none
      | some query ↦ some (join b'\n' (canonical_lines r body_hash domain query))
    ]
  ]

unfoldable pub as_unauthorized : Result AuthError (Unit {0}) → Result Rejection (Unit {0})
as_unauthorized (ok _) = ok tt
as_unauthorized (err e) = err (bad_credentials e)

unfoldable pub as_forbidden : Result AuthError (Unit {0}) → Result Rejection (Unit {0})
as_forbidden (ok _) = ok tt
as_forbidden (err e) = err (forbidden e)

module _ (c : Crypto) (u : Url) where
  open c use {Key, sha256_hex}

  -- `authenticateRequest` up to the nonce: what is checked without a change of state.
  unfoldable pub check_request : KeyManager Key → Request → ℕ → Text → Result Rejection (Unit {0})
  check_request km r now version = do
    guard (headers_present r) missing_information
    ms ← require (parse_int64 r.timestamp) bad_timestamp
    guard (within_drift now ms) expired
    body ← require r.body unreadable_body
    guard (text_eq (sha256_hex body) (to_lower r.content_sha256)) wrong_digest
    canonical ← require (build_canonical_request u r (sha256_hex body) version) bad_query
    as_unauthorized (verify_signature c km r.key_id canonical r.signature)

  unfoldable pub authenticate_request :
      NonceStore → KeyManager Key → Request → ℕ → Text → NonceStore × Result Rejection (Unit {0})
  authenticate_request store km r now version = elim (check_request km r now version) [
    | err e ↦ (store, err e)
    | ok _ ↦
        let (store', fresh) = remember store (nonce_key r) now in
        if fresh then (store', ok tt) else (store', err replayed)
  ]

  -- The checks of `AuthMiddleware` before it authenticates.
  unfoldable pub admit : KeyManager Key → Peer → Request → Result Rejection (Unit {0})
  admit km asker r = do
    guard (is_initialized km && has_authorized_principal km) not_initialized
    as_forbidden (verify_request_principal km.authorized_principal asker)
    guard (text_eq r.version (codes "2") || text_eq r.version (codes "3")) unsupported_version

  -- The request goes to the next handler where the result is `ok`.
  unfoldable pub auth_middleware :
      NonceStore → KeyManager Key → Peer → Request → ℕ → NonceStore × Result Rejection (Unit {0})
  auth_middleware store km asker r now = elim (admit km asker r) [
    | err e ↦ (store, err e)
    | ok _ ↦ authenticate_request store km r now r.version
  ]
