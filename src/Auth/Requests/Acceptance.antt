-- ===== src/Auth/Requests/Acceptance.antt =====
-- What `AuthMiddleware` of route/auth/middleware.go lets through.
use kokorobox_service.Common.{
  ltb→lt, ◌*◌, ◌+◌, ltb, ◌≤◌, subst, get, false, suc, Option-cases, and_split, ◌&&◌, sym,
  text_eq_iff, ℕ, ◌≡◌, refl, true, Option, none, some, Text, Result, ok, err, arith, ◌⊎◌, inl, inr,
  Result-cases, Bool-cases, >>=-eq-ok, guard-eq-ok, text_eq, text_eq→eq, to_lower, codes, guard,
  ◌||◌,
}
use kokorobox_service.Common.Ints.{ℤ}
use kokorobox_service.Auth.Crypto.{Crypto}
use kokorobox_service.Auth.Principals.{
  Principal, Peer, peer, AuthError, check_peer, verify_request_principal,
}
use kokorobox_service.Auth.KeyRing.{StoredKey, KeyManager, is_initialized, has_authorized_principal}
use kokorobox_service.Auth.Nonce.{NonceStore, remember}
use kokorobox_service.Auth.Requests.{
  is_empty, negsuc, pos, Url, Request, Rejection, within_drift, parse_int64, headers_present,
  nonce_key, require, build_canonical_request, as_unauthorized, check_request, authenticate_request,
  as_forbidden, admit, auth_middleware, missing_information, expired, wrong_digest, not_initialized,
  unsupported_version,
}
use kokorobox_service.Auth.Nonce.Replay.{remember_binds, remember_live}
use kokorobox_service.Auth.KeyRing.Rotation.{verify_signature-IsVerified, IsVerified}

require-eq-ok :
    {A : Type 0} (o : Option A) (e : Rejection) {a : A} → require o e ≡ ok a → o ≡ some a
unfolding require
require-eq-ok none e h = cc
require-eq-ok (some a) e h = ground arith

check_peer-eq-ok :
    (p : Principal) (asker : Peer) → check_peer p asker ≡ ok tt → asker ≡ peer p.kind p.value
unfolding check_peer
check_peer-eq-ok p Peer.peer_failed h = cc
check_peer-eq-ok p Peer.no_peer h = cc
check_peer-eq-ok p (peer k v) h = ground (arith, text_eq_iff k p.kind, text_eq_iff v p.value)

as_unauthorized-eq-ok : (m : Result AuthError (Unit {0})) → as_unauthorized m ≡ ok tt → m ≡ ok tt
unfolding as_unauthorized
as_unauthorized-eq-ok (ok tt) h = refl
as_unauthorized-eq-ok (err e) h = cc

as_forbidden-eq-ok : (m : Result AuthError (Unit {0})) → as_forbidden m ≡ ok tt → m ≡ ok tt
unfolding as_forbidden
as_forbidden-eq-ok (ok tt) h = refl
as_forbidden-eq-ok (err e) h = cc

verify_request_principal_sound :
    {K : Type 0} (km : KeyManager K)
    → has_authorized_principal km ≡ true
    → (asker : Peer) → verify_request_principal km.authorized_principal asker ≡ ok tt
    → (owner : Principal) × (km.authorized_principal ≡ some owner)
      × (asker ≡ peer owner.kind owner.value)
unfolding has_authorized_principal verify_request_principal
verify_request_principal_sound km bound asker h = elim (Option-cases km.authorized_principal) [
  | inl e ↦ ground (arith, e)
  | inr (p, e) ↦ (p, e, check_peer-eq-ok p asker (ground (arith, e)))
]

version_cases :
    (v : Text)
    → (text_eq v (codes "2") || text_eq v (codes "3")) ≡ true
    → (v ≡ codes "2") ⊎ (v ≡ codes "3")
version_cases v h = elim (Bool-cases (text_eq v (codes "2"))) [
  | inl two ↦ inl (text_eq→eq v (codes "2") two)
  | inr other ↦ inr (text_eq→eq v (codes "3") (rw other at h))
]

-- A timestamp in milliseconds that is at most thirty seconds away from a clock reading in nanoseconds, on either side.
abbrev pub Recent : ℕ → ℤ → Type 0
Recent now (pos ms) = (ms * 1000000 ≤ now + 30000000000) × (now ≤ ms * 1000000 + 30000000000)
Recent now (negsuc ms) = now + suc ms * 1000000 ≤ 30000000000

within_drift-Recent : (now : ℕ) (ms : ℤ) → within_drift now ms ≡ true → Recent now ms
unfolding within_drift
within_drift-Recent now (pos ms) h = (ground arith, ground arith)
within_drift-Recent now (negsuc ms) h = ground arith

-- The key ring has a current key with an id.
abbrev pub HasKey : {K : Type 0} → KeyManager K → Type 0
HasKey km = (key : StoredKey) × (km.current_key ≡ some key) × (is_empty key.key_id ≡ false)

is_initialized-HasKey : {K : Type 0} (km : KeyManager K) → is_initialized km ≡ true → HasKey km
unfolding is_initialized
is_initialized-HasKey km h = elim (Option-cases km.current_key) [
  | inl e ↦ ground (arith, e)
  | inr (key, e) ↦ (key, e, ground (arith, e))
]

module _ (c : Crypto) (u : Url) where
  open c use {Key, sha256_hex}

  -- What `authenticateRequest` has found of a request before it looks at the nonce.
  pub record IsSigned (km : KeyManager Key) (r : Request) (now : ℕ) (version : Text) : Type 0 where
    pub ms : ℤ
    pub body : Text
    pub canonical : Text
    pub timestamped : parse_int64 r.timestamp ≡ some ms
    pub recent : Recent now ms
    pub read : r.body ≡ some body
    pub digest : to_lower r.content_sha256 ≡ sha256_hex body
    pub form : build_canonical_request u r (sha256_hex body) version ≡ some canonical
    pub signed : IsVerified c km r.key_id canonical r.signature

  pub check_request_sound :
      (km : KeyManager Key) (r : Request) (now : ℕ) (version : Text)
      → check_request c u km r now version ≡ ok tt
      → IsSigned km r now version
  unfolding check_request
  check_request_sound km r now version h =
      let (_, _, h1) = >>=-eq-ok (guard (headers_present r) missing_information) _ h in
      let (ms, e2, h2) =
        >>=-eq-ok (require (parse_int64 r.timestamp) Rejection.bad_timestamp) _ h1 in
      let (_, e3, h3) = >>=-eq-ok (guard (within_drift now ms) expired) _ h2 in
      let (body, e4, h4) = >>=-eq-ok (require r.body Rejection.unreadable_body) _ h3 in
      let (_, e5, h5) =
        >>=-eq-ok (guard (text_eq (sha256_hex body) (to_lower r.content_sha256)) wrong_digest) _
          h4 in
      let (canonical, e6, h6) =
        >>=-eq-ok
          (require (build_canonical_request u r (sha256_hex body) version) Rejection.bad_query) _
          h5 in
      record {
        ms = ms;
        body = body;
        canonical = canonical;
        timestamped = require-eq-ok (parse_int64 r.timestamp) Rejection.bad_timestamp e2;
        recent = within_drift-Recent now ms (guard-eq-ok (within_drift now ms) expired e3);
        read = require-eq-ok r.body Rejection.unreadable_body e4;
        digest = sym (
            text_eq→eq (sha256_hex body) (to_lower r.content_sha256)
              (guard-eq-ok _ wrong_digest e5));
        form = require-eq-ok _ Rejection.bad_query e6;
        signed =
            verify_signature-IsVerified c km r.key_id canonical r.signature
              (as_unauthorized-eq-ok _ h6);
      }

  -- What a request that is let through has shown.
  pub record IsAccepted (store : NonceStore) (km : KeyManager Key) (asker : Peer) (r : Request)
      (now : ℕ) : Type 0 where
    pub initialized : HasKey km
    pub owner : Principal
    pub bound : km.authorized_principal ≡ some owner
    pub asked_by_owner : asker ≡ peer owner.kind owner.value
    pub known_version : (r.version ≡ codes "2") ⊎ (r.version ≡ codes "3")
    pub credentials : IsSigned km r now r.version
    -- The store has the nonce with no time of expiry that is still to come, and keeps it for its time to live.
    pub fresh :
        (get (nonce_key r) store.seen ≡ none)
        ⊎ ((t : ℕ) × (get (nonce_key r) store.seen ≡ some t) × (t ≤ now))
    pub kept :
        get (nonce_key r) (auth_middleware c u store km asker r now).0.seen ≡ some (now + store.ttl)

  admit_sound :
      (km : KeyManager Key) (asker : Peer) (r : Request)
      → admit c u km asker r ≡ ok tt
      → HasKey km
        × ((owner : Principal) × (km.authorized_principal ≡ some owner)
            × (asker ≡ peer owner.kind owner.value))
        × ((r.version ≡ codes "2") ⊎ (r.version ≡ codes "3"))
  unfolding admit
  admit_sound km asker r h =
      let (_, e1, h1) =
        >>=-eq-ok (guard (is_initialized km && has_authorized_principal km) not_initialized) _ h in
      let ready = and_split _ _ (guard-eq-ok _ not_initialized e1) in
      let (_, e2, h1b) =
        >>=-eq-ok (as_forbidden (verify_request_principal km.authorized_principal asker)) _ h1 in
      let (owner, bound, asked) =
        verify_request_principal_sound km ready.1 asker (as_forbidden-eq-ok _ e2) in
      (
        is_initialized-HasKey km ready.0,
        (owner, bound, asked),
        version_cases r.version (guard-eq-ok _ unsupported_version h1b),
      )

  authenticate_request_sound :
      (store : NonceStore) (km : KeyManager Key) (r : Request) (now : ℕ) (version : Text)
      → (authenticate_request c u store km r now version).1 ≡ ok tt
      → (check_request c u km r now version ≡ ok tt) × ((remember store (nonce_key r) now).1 ≡ true)
  unfolding authenticate_request
  authenticate_request_sound store km r now version h = ground arith

  pub accepted_remembers :
      (store : NonceStore) (km : KeyManager Key) (asker : Peer) (r : Request) (now : ℕ)
      → (auth_middleware c u store km asker r now).1 ≡ ok tt
      → ((remember store (nonce_key r) now).1 ≡ true)
        × ((auth_middleware c u store km asker r now).0 ≡ (remember store (nonce_key r) now).0)
  unfolding auth_middleware authenticate_request
  accepted_remembers store km asker r now h = (ground arith, ground arith)

  fresh_nonce :
      (store : NonceStore) (k : Text) (now : ℕ)
      → (remember store k now).1 ≡ true
      → (get k store.seen ≡ none) ⊎ ((t : ℕ) × (get k store.seen ≡ some t) × (t ≤ now))
  fresh_nonce store k now new = elim (Option-cases (get k store.seen)) [
    | inl absent ↦ inl absent
    | inr (t, seen) ↦ elim (Bool-cases (ltb now t)) [
      | inl live ↦ cc (remember_live store k t now seen (ltb→lt now t live), new)
      | inr over ↦ inr (t, seen, ground (arith, over))
    ]
  ]

  -- A request that the middleware lets through comes from the bound principal to a service that has a current key, in a
  -- known version, with a timestamp at most thirty seconds from the clock on either side, the digest of its body, a
  -- signature of its canonical form that the key registered under its key id verifies, and a nonce that the store does
  -- not hold as still to expire, and that it then holds for its time to live.
  pub auth_middleware_sound :
      (store : NonceStore) (km : KeyManager Key) (asker : Peer) (r : Request) (now : ℕ)
      → (auth_middleware c u store km asker r now).1 ≡ ok tt
      → IsAccepted store km asker r now
  unfolding auth_middleware
  auth_middleware_sound store km asker r now h = elim (Result-cases (admit c u km asker r)) [
    | inr (e, refused) ↦ ground (arith, refused)
    | inl (tt, admitted) ↦
        let (ready, (owner, bound, asked), version) = admit_sound km asker r admitted in
        let (signed, new) =
          authenticate_request_sound store km r now r.version (ground (arith, admitted)) in
        let (_, after_it) = accepted_remembers store km asker r now h in
        record {
          initialized = ready;
          owner = owner;
          bound = bound;
          asked_by_owner = asked;
          known_version = version;
          credentials = check_request_sound km r now r.version signed;
          fresh = fresh_nonce store (nonce_key r) now new;
          kept =
              subst (λ t. get (nonce_key r) t.seen ≡ some (now + store.ttl)) (sym after_it)
                (remember_binds store (nonce_key r) now new);
        }
  ]
