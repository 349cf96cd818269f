-- ===== src/Auth/KeyRing/Rotation.antt =====
-- What `SetPublicKey` and `VerifySignature` of route/auth/auth.go promise.
use kokorobox_service.Common.{
  subst, ◌∙◌, text_eq→eq, guard-eq-ok, Option-cases, Result-cases, ◌≡◌, refl, sym, ap, Bool, true,
  false, Option, none, some, List, [], Text, text_eq, ok, err, get, put, get-put, >>=-eq-ok, arith,
  Bool-cases, inl, inr, ◌⊎◌,
}
use kokorobox_service.Auth.Crypto.{Crypto}
use kokorobox_service.Auth.Principals.{AuthError}
use kokorobox_service.Auth.KeyRing.{
  parse_public_key, bad_signature, StoredKey, KeyManager, Written, validate_key_id,
  same_stored_public_key, add_key, registered, refresh_public_keys_locked, stored_key, rotate,
  roll_back, commit_key, set_public_key, check_signature, verify_signature,
}

module _ (c : Crypto) where
  open c use {Key, decode_base64, verify}

  -- The map is what a refresh from the two stored keys gives.
  abbrev pub IsConsistent : KeyManager Key → Type 0
  IsConsistent km = registered c km.current_key km.previous_key ≡ ok km.public_keys

  refresh-IsConsistent :
      (km : KeyManager Key)
      → (refresh_public_keys_locked c km).1 ≡ ok tt
      → IsConsistent (refresh_public_keys_locked c km).0
  unfolding refresh_public_keys_locked
  refresh-IsConsistent km h = elim (Result-cases (registered c km.current_key km.previous_key)) [
    | inl (keys, e) ↦ rw (e, refresh_public_keys_locked) e
    | inr (x, e) ↦ ground (arith, e)
  ]

  roll_back_lem :
      (old km : KeyManager Key)
      → IsConsistent old
      → km.authorized_principal ≡ old.authorized_principal
      → roll_back c old km ≡ old
  unfolding roll_back refresh_public_keys_locked
  roll_back_lem old km v p =
      rw (v, roll_back, refresh_public_keys_locked) (λ i. record old { authorized_principal = p i })

  refresh_principal :
      (km : KeyManager Key)
      → (refresh_public_keys_locked c km).0.authorized_principal ≡ km.authorized_principal
  unfolding refresh_public_keys_locked
  refresh_principal km = ground arith

  commit_key_atomic :
      (km : KeyManager Key) (next : StoredKey) (saved : Written) {e : AuthError}
      → IsConsistent km
      → (commit_key c km next saved).1 ≡ err e
      → (commit_key c km next saved).0 ≡ km
  unfolding commit_key rotate
  commit_key_atomic km next saved v h = ground (
    arith,
    roll_back_lem km (refresh_public_keys_locked c (rotate c km next)).0 v,
    refresh_principal (rotate c km next),
  )

  -- A call of SetPublicKey that fails leaves the key manager as it was: the keys, the map of the keys
  -- that verify, and the principal.
  pub set_public_key_atomic :
      (km : KeyManager Key) (public_key : Text) (saved : Written) {e : AuthError}
      → IsConsistent km
      → (set_public_key c km public_key saved).1 ≡ err e
      → (set_public_key c km public_key saved).0 ≡ km
  unfolding set_public_key
  set_public_key_atomic km public_key saved {e} v h =
      elim (Result-cases (stored_key c public_key)) [
        | inl (next, s) ↦ ground (arith, s, commit_key_atomic km next saved {e = e} v)
        | inr (x, s) ↦ rw (s, set_public_key)
      ]

  -- The outcome of a commit that succeeds.
  commit_key_ok :
      (km : KeyManager Key) (next : StoredKey) (saved : Written) {b : Bool}
      → (commit_key c km next saved).1 ≡ ok b
      → ((commit_key c km next saved).0 ≡ (refresh_public_keys_locked c (rotate c km next)).0)
        × (b ≡ true)
        × ((refresh_public_keys_locked c (rotate c km next)).1 ≡ ok tt)
  unfolding commit_key
  commit_key_ok km next saved h = ground arith

  commit_key-IsConsistent :
      (km : KeyManager Key) (next : StoredKey) (saved : Written)
      → IsConsistent km
      → IsConsistent (commit_key c km next saved).0
  commit_key-IsConsistent km next saved v = elim (Result-cases (commit_key c km next saved).1) [
    | inr (e, refused) ↦ rw (commit_key_atomic km next saved v refused) v
    | inl (b, done) ↦
        let (turned, _, refreshed) = commit_key_ok km next saved done in
        rw turned (refresh-IsConsistent (rotate c km next) refreshed)
  ]

  -- SetPublicKey keeps the map of the keys that verify in step with the two stored keys, whatever it
  -- returns.
  pub set_public_key-IsConsistent :
      (km : KeyManager Key) (public_key : Text) (saved : Written)
      → IsConsistent km
      → IsConsistent (set_public_key c km public_key saved).0
  unfolding set_public_key
  set_public_key-IsConsistent km public_key saved v =
      elim (Result-cases (stored_key c public_key)) [
        | inr (x, s) ↦ rw (s, set_public_key) v
        | inl (next, s) ↦ elim (Bool-cases (same_stored_public_key km.current_key (some next))) [
          | inl same ↦ rw (s, set_public_key) (rw same v)
          | inr other ↦ rw (s, set_public_key) (rw other (commit_key-IsConsistent km next saved v))
        ]
      ]

  check_signature_registered :
      (found : Option Key) (message signature : Text)
      → check_signature c found message signature ≡ ok tt
      → (k : Key) × (sig : Text) × (found ≡ some k)
        × (decode_base64 signature ≡ some sig)
        × (verify k message sig ≡ true)
  unfolding check_signature
  check_signature_registered none message signature h = cc
  check_signature_registered (some k) message signature h =
      elim (Option-cases (decode_base64 signature)) [
        | inl e ↦ ground (arith, e)
        | inr (sig, e) ↦
            (k, sig, refl, e, guard-eq-ok (verify k message sig) bad_signature (ground (arith, e)))
      ]

  -- The stored key has the id, and the key is the one that its text is the encoding of.
  abbrev pub IsKeyOf : Option StoredKey → Text → Key → Type 0
  IsKeyOf stored id k =
      (s : StoredKey) × (raw : Text) × (stored ≡ some s)
      × (s.key_id ≡ id)
      × (parse_public_key c s.public_key ≡ ok (raw, k))

  -- The keys in the map are the two stored ones.
  add_key-get :
      (stored : Option StoredKey) (keys more : List (Text × Key)) (id : Text) (k : Key)
      → add_key c stored keys ≡ ok more
      → get id more ≡ some k
      → IsKeyOf stored id k ⊎ (get id keys ≡ some k)
  unfolding add_key
  add_key-get none keys more id k h g = inr (ground arith)
  add_key-get (some s) keys more id k h g =
      let (parsed, decoded, e) = >>=-eq-ok (parse_public_key c s.public_key) _ h in
      let made : put s.key_id parsed.1 keys ≡ more = ground (arith, e) in
      elim (Bool-cases (text_eq s.key_id id)) [
        | inl same ↦
            let own : parsed.1 ≡ k =
              ground (arith, made, g, ap (get id) made, get-put s.key_id id parsed.1 keys, same) in
            inl (
              s,
              parsed.0,
              refl,
              text_eq→eq s.key_id id same,
              subst (λ x. parse_public_key c s.public_key ≡ ok (parsed.0, x)) own decoded,
            )
        | inr other ↦
            inr (ground (arith, made, ap (get id) made, get-put s.key_id id parsed.1 keys))
      ]

  registered-get :
      (current previous : Option StoredKey) (keys : List (Text × Key)) (id : Text) (k : Key)
      → registered c current previous ≡ ok keys
      → get id keys ≡ some k
      → IsKeyOf current id k ⊎ IsKeyOf previous id k
  unfolding registered get
  registered-get current previous keys id k h g =
      let (first, e, e') = >>=-eq-ok (add_key c current []) _ h in
      elim (add_key-get previous first keys id k e' g) [
        | inl found ↦ inr found
        | inr g' ↦ elim (add_key-get current [] first id k e g') [
          | inl found ↦ inl found
          | inr g'' ↦ cc
        ]
      ]

  -- What VerifySignature has found of a signature, whatever the map of the keys holds.
  abbrev pub IsVerified : KeyManager Key → Text → Text → Text → Type 0
  IsVerified km key_id message signature =
      (id : Text) × (k : Key) × (sig : Text) × (validate_key_id key_id ≡ ok id)
      × (get id km.public_keys ≡ some k)
      × (decode_base64 signature ≡ some sig)
      × (verify k message sig ≡ true)

  pub verify_signature-IsVerified :
      (km : KeyManager Key) (key_id message signature : Text)
      → verify_signature c km key_id message signature ≡ ok tt
      → IsVerified km key_id message signature
  unfolding verify_signature
  verify_signature-IsVerified km key_id message signature h =
      let (id, valid, checked) = >>=-eq-ok (validate_key_id key_id) _ h in
      let (k, sig, found, decoded, good) =
        check_signature_registered (get id km.public_keys) message signature checked in
      (id, k, sig, valid, found, decoded, good)

  -- A signature that VerifySignature accepts carries the id of the current or of the previous key, and the
  -- key that this stored key is the encoding of verifies it for the message, if the map of the keys is in step with
  -- the two stored ones.
  pub verify_signature_sound :
      (km : KeyManager Key) (key_id message signature : Text)
      → IsConsistent km
      → verify_signature c km key_id message signature ≡ ok tt
      → (id : Text) × (k : Key) × (sig : Text) × (validate_key_id key_id ≡ ok id)
        × (IsKeyOf km.current_key id k ⊎ IsKeyOf km.previous_key id k)
        × (decode_base64 signature ≡ some sig)
        × (verify k message sig ≡ true)
  verify_signature_sound km key_id message signature v h =
      let (id, k, sig, valid, found, decoded, good) =
        verify_signature-IsVerified km key_id message signature h in
      (
        id,
        k,
        sig,
        valid,
        registered-get km.current_key km.previous_key km.public_keys id k v found,
        decoded,
        good,
      )

  refresh_keys :
      (km : KeyManager Key)
      → ((refresh_public_keys_locked c km).0.current_key ≡ km.current_key)
        × ((refresh_public_keys_locked c km).0.previous_key ≡ km.previous_key)
  unfolding refresh_public_keys_locked
  refresh_keys km = ground arith

  commit_key_keys :
      (km : KeyManager Key) (next : StoredKey) (saved : Written) {b : Bool}
      → same_stored_public_key km.current_key (some next) ≡ false
      → (commit_key c km next saved).1 ≡ ok b
      → ((commit_key c km next saved).0.current_key ≡ some next)
        × ((commit_key c km next saved).0.previous_key ≡ km.current_key)
  unfolding rotate
  commit_key_keys km next saved other h =
      ground (arith, commit_key_ok km next saved h, refresh_keys (rotate c km next))

  -- The keys after a call that reports a change.
  pub set_public_key_keys :
      (km : KeyManager Key) (public_key : Text) (saved : Written)
      → (set_public_key c km public_key saved).1 ≡ ok true
      → (next : StoredKey) × (stored_key c public_key ≡ ok next)
        × ((set_public_key c km public_key saved).0.current_key ≡ some next)
        × ((set_public_key c km public_key saved).0.previous_key ≡ km.current_key)
  unfolding set_public_key
  set_public_key_keys km public_key saved h = elim (Result-cases (stored_key c public_key)) [
    | inr (x, s) ↦ ground (arith, s)
    | inl (next, s) ↦ elim (Bool-cases (same_stored_public_key km.current_key (some next))) [
      | inl same ↦ ground (arith, s, same)
      | inr other ↦
          let keys = commit_key_keys km next saved {b = true} other (ground (arith, s, other)) in
          (next, s, ground (arith, s, other, keys), ground (arith, s, other, keys))
    ]
  ]

  -- After a call of SetPublicKey that reports a change, a signature is accepted only under the id of the new
  -- key or of the key that was current before the call: the key before that one is revoked.
  pub set_public_key_revokes :
      (km : KeyManager Key) (public_key : Text) (saved : Written) (key_id message signature : Text)
      → IsConsistent km
      → (set_public_key c km public_key saved).1 ≡ ok true
      → verify_signature c (set_public_key c km public_key saved).0 key_id message signature ≡ ok tt
      → (id : Text) × (validate_key_id key_id ≡ ok id)
        × (((next : StoredKey) × (stored_key c public_key ≡ ok next) × (next.key_id ≡ id))
            ⊎ ((old : StoredKey) × (km.current_key ≡ some old) × (old.key_id ≡ id)))
  set_public_key_revokes km public_key saved key_id message signature v changed h =
      let (next, s, current, previous) = set_public_key_keys km public_key saved changed in
      let (id, k, sig, valid, whose, _, _) =
        verify_signature_sound (set_public_key c km public_key saved).0 key_id message signature
          (set_public_key-IsConsistent km public_key saved v) h in
      (
        id,
        valid,
        elim whose [
          | inl (x, raw, e, same, _) ↦ inl (next, s, cc)
          | inr (x, raw, e, same, _) ↦ inr (x, sym previous ∙ e, same)
        ],
      )
