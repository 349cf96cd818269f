-- ===== src/Auth/Binding.antt =====
-- route/auth/auth.go: who may use the service. The one-time bootstrap of a key and a user, the setting and
-- the loading of the principal. Each operation holds the mutex. The files are those of the key ring and of
-- the principal; what the operating system answers is an argument.
pub mod Bootstrap
use kokorobox_service.Common.{
  ◌++◌, ℕ, Bool, true, false, not, ◌&&◌, ◌||◌, Option, none, some, List, [], ◌∷◌, Text,
  if◌then◌else◌, Result, ok, err, ◌>>=◌, ◌>>◌, guard, is_none, format_uint, trim_space, put,
}
use kokorobox_service.Auth.Crypto.{Crypto}
use kokorobox_service.Auth.Principals.{
  no_key_directory, Principal, AuthError, uid_kind, sid_kind, validate_authorized_principal,
  same_authorized_principal, already_initialized, ring_exists, principal_exists, not_saved,
  no_principal_file, unreadable_principal, malformed_principal,
}
use kokorobox_service.Auth.KeyRing.{
  load_public_keys, StoredKey, KeyRing, KeyManager, Loaded, missing, unreadable, undecodable,
  contents, Written, written, failed, stored_key, parse_public_key,
}

pub record Files : Type 0 where
  pub ring : Option KeyRing
  pub principal : Option Principal

-- How the calls of one bootstrap turn out: whether each `os.Lstat` could look, whether each file was
-- written, and whether the key ring could be removed again.
pub record Outcomes : Type 0 where
  pub ring_seen : Bool
  pub principal_seen : Bool
  pub ring_written : Bool
  pub principal_written : Bool
  pub ring_removed : Bool

unfoldable pub uid_principal : ℕ → Principal
uid_principal uid = record { kind = uid_kind; value = format_uint uid }

module _ (c : Crypto) where
  open c use {Key}

  -- The two writes and the assignment of the state.
  unfoldable pub install :
      KeyManager Key
      → Files
      → Outcomes
      → StoredKey
      → Key
      → Principal
      → (KeyManager Key × Files) × Result AuthError (Unit {0})
  install km files out key parsed principal =
      let ring : KeyRing = record { current = some key; previous = none } in
      if not out.ring_written
      then ((km, files), err not_saved)
      else if not out.principal_written
      then (
        (km, record files { ring = if out.ring_removed then none else some ring }),
        err not_saved,
      )
      else (
        (
          record {
            public_keys = (key.key_id, parsed) ∷ [];
            current_key = some key;
            previous_key = none;
            authorized_principal = some principal;
          },
          record { ring = some ring; principal = some principal },
        ),
        ok tt,
      )

  -- The checks under the lock that come before the writes.
  unfoldable pub check_uninitialized :
      KeyManager Key → Files → Outcomes → Result AuthError (Unit {0})
  check_uninitialized km files out = do
    guard (is_none km.current_key && is_none km.authorized_principal) already_initialized
    guard (out.ring_seen && is_none files.ring) ring_exists
    guard (out.principal_seen && is_none files.principal) principal_exists

  -- What is made of the request before the lock is taken.
  unfoldable pub prepare_bootstrap : Text → ℕ → Result AuthError (StoredKey × Key × Principal)
  prepare_bootstrap public_key uid = do
    parsed ← parse_public_key c public_key
    key ← stored_key c public_key
    principal ← validate_authorized_principal (uid_principal uid)
    ok (key, parsed.1, principal)

  unfoldable pub bootstrap_public_key_for_uid :
      KeyManager Key
      → Files
      → Outcomes
      → Text
      → ℕ
      → (KeyManager Key × Files) × Result AuthError (Unit {0})
  bootstrap_public_key_for_uid km files out public_key uid =
      elim (prepare_bootstrap public_key uid) [
        | err e ↦ ((km, files), err e)
        | ok prepared ↦ elim (check_uninitialized km files out) [
          | err e ↦ ((km, files), err e)
          | ok _ ↦ install km files out prepared.0 prepared.1 prepared.2
        ]
      ]

-- The writing of the principal's file and the assignment.
unfoldable pub save_principal :
    {K : Type 0} → KeyManager K → Principal → Written → KeyManager K × Result AuthError Bool
save_principal km p written = (record km { authorized_principal = some p }, ok true)
save_principal km p failed = (km, err not_saved)

unfoldable pub set_authorized_principal :
    {K : Type 0} → KeyManager K → Principal → Written → KeyManager K × Result AuthError Bool
set_authorized_principal km principal saved = elim (validate_authorized_principal principal) [
  | err e ↦ (km, err e)
  | ok p ↦
      if same_authorized_principal km.authorized_principal (some p)
      then (km, ok false)
      else save_principal km p saved
]

unfoldable pub set_authorized_uid :
    {K : Type 0} → KeyManager K → ℕ → Written → KeyManager K × Result AuthError Bool
set_authorized_uid km uid saved = set_authorized_principal km (uid_principal uid) saved

unfoldable pub set_authorized_sid :
    {K : Type 0} → KeyManager K → Text → Written → KeyManager K × Result AuthError Bool
set_authorized_sid km sid saved =
    set_authorized_principal km (record { kind = sid_kind; value = trim_space sid }) saved

unfoldable pub load_authorized_principal :
    {K : Type 0} → KeyManager K → Loaded Principal → KeyManager K × Result AuthError (Unit {0})
load_authorized_principal km missing = (km, err no_principal_file)
load_authorized_principal km unreadable = (km, err unreadable_principal)
load_authorized_principal km undecodable = (km, err malformed_principal)
load_authorized_principal km (contents principal) = elim (validate_authorized_principal principal) [
  | err e ↦ (km, err e)
  | ok p ↦ (record km { authorized_principal = some p }, ok tt)
]

unfoldable pub errors_of : Result AuthError (Unit {0}) → List AuthError
errors_of (ok _) = []
errors_of (err e) = e ∷ []

module _ (c : Crypto) where
  open c use {Key}

  -- The errors that `InitKeyManager` joins; the first argument tells whether the directory could be made.
  unfoldable pub init_key_manager :
      Bool
      → KeyManager Key
      → Loaded KeyRing
      → Loaded Text
      → Loaded Principal
      → KeyManager Key × List AuthError
  init_key_manager false km ring legacy principal = (km, no_key_directory ∷ [])
  init_key_manager true km ring legacy principal =
      let (with_keys, keys) = load_public_keys c km ring legacy in
      let (with_principal, bound) = load_authorized_principal with_keys principal in
      (with_principal, errors_of keys ++ errors_of bound)
