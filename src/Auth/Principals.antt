-- ===== src/Auth/Principals.antt =====
-- route/auth/auth.go: the principal that may use the service, and the errors of the package.
use kokorobox_service.Common.{
  ℕ, Bool, true, false, not, ◌&&◌, Option, none, some, Text, codes, text_eq, trim_space, is_empty,
  has_prefix, if◌then◌else◌, Result, ok, err, ◌>>◌, guard, parse_uint, is_none,
}

pub data AuthError : Type 0 where
  empty_key_id long_key_id bad_key_id : AuthError
  empty_public_key bad_base64 bad_pkix not_ed25519 id_mismatch : AuthError
  unreadable_ring malformed_ring no_current_key : AuthError
  no_legacy unreadable_legacy bad_pem : AuthError
  not_saved already_initialized ring_exists principal_exists : AuthError
  unregistered bad_signature_encoding bad_signature : AuthError
  empty_uid bad_uid empty_sid bad_sid unsupported_principal : AuthError
  no_principal_file unreadable_principal malformed_principal : AuthError
  no_key_directory unknown_identity wrong_identity_type wrong_identity peer_lookup_failed :
      AuthError

pub record Principal : Type 0 where
  pub kind : Text
  pub value : Text

abbrev pub uid_kind : Text
uid_kind = codes "uid"

abbrev pub sid_kind : Text
sid_kind = codes "sid"

abbrev pub max_uid : ℕ
max_uid = 4294967295

-- `validateAuthorizedPrincipal` on a principal that is not nil: the trimmed principal, or the error.
unfoldable pub validate_authorized_principal : Principal → Result AuthError Principal
validate_authorized_principal p =
    let kind = trim_space p.kind in
    let value = trim_space p.value in
    if text_eq kind uid_kind
    then (do
      guard (not (is_empty value)) empty_uid
      guard (not (is_none (parse_uint max_uid value))) bad_uid
      ok (record { kind = kind; value = value }))
    else if text_eq kind sid_kind
    then (do
      guard (not (is_empty value)) empty_sid
      guard (has_prefix value (codes "S-")) bad_sid
      ok (record { kind = kind; value = value }))
    else err unsupported_principal

unfoldable pub same_authorized_principal : Option Principal → Option Principal → Bool
same_authorized_principal none none = true
same_authorized_principal (some l) (some r) = text_eq l.kind r.kind && text_eq l.value r.value
same_authorized_principal _ _ = false

-- What `getRequestPrincipal` of the platform answers: an error, no identity, or a type and a value.
pub data Peer : Type 0 where
  peer_failed no_peer : Peer
  peer : Text → Text → Peer

unfoldable pub check_peer : Principal → Peer → Result AuthError (Unit {0})
check_peer p peer_failed = err peer_lookup_failed
check_peer p no_peer = err unknown_identity
check_peer p (peer kind value) = do
  guard (text_eq kind p.kind) wrong_identity_type
  guard (text_eq value p.value) wrong_identity

unfoldable pub verify_request_principal : Option Principal → Peer → Result AuthError (Unit {0})
unfolding check_peer
verify_request_principal none asker = ok tt
verify_request_principal (some p) asker = check_peer p asker

unfoldable pub get_authorized_uid : Option Principal → Option ℕ
get_authorized_uid none = none
get_authorized_uid (some p) = if text_eq p.kind uid_kind then parse_uint max_uid p.value else none

unfoldable pub get_authorized_sid : Option Principal → Option Text
get_authorized_sid none = none
get_authorized_sid (some p) = if text_eq p.kind sid_kind then some p.value else none
