-- ===== src/Auth/KeyRing/Reload.antt =====
-- Loading what `SetPublicKey` of route/auth/auth.go has written.
use kokorobox_service.Common.{
  text_eq_iff, ◌≡◌, refl, sym, subst, ◌∙◌, false, Option, none, some, Text, text_eq_refl,
  trim_space, trim_space_idem, is_empty, Result, ok, err, >>=-eq-ok, arith,
}
use kokorobox_service.Auth.Crypto.{Crypto}
use kokorobox_service.Auth.Principals.{AuthError}
use kokorobox_service.Auth.KeyRing.{
  ring_of, contents, registered, List, true, refresh_public_keys_locked, Loaded, then_refresh,
  Written, required, load_ring, same_stored_public_key, load_public_keys, KeyManager,
  set_public_key, bad_base64, StoredKey, validate_key_id, compute_key_id, parse_public_key,
  settle_key_id, normalize_stored_public_key, stored_key,
}
use kokorobox_service.Auth.KeyRing.Rotation.{
  set_public_key-IsConsistent, set_public_key_keys, IsConsistent,
}

module _ (c : Crypto) where
  open c use {Key, decode_base64, sha256_hex}

  -- The stored key is what `SetPublicKey` makes of its public key.
  abbrev pub IsSettled : Option StoredKey → Type 0
  IsSettled none = Unit {0}
  IsSettled (some k) = stored_key c k.public_key ≡ ok k

  parse_idem : (s : Text) → parse_public_key c (trim_space s) ≡ parse_public_key c s
  unfolding parse_public_key
  parse_idem s = rw (trim_space_idem s) refl

  stored_idem : (s : Text) → stored_key c (trim_space s) ≡ stored_key c s
  unfolding stored_key
  stored_idem s = rw (parse_idem s) refl

  parse_first : (s : Text) (p : Text × Key) → parse_public_key c s ≡ ok p → p.0 ≡ trim_space s
  unfolding parse_public_key
  parse_first s p h = ground arith

  -- The parts of a stored key that was made.
  stored_parts :
      (s : Text) (k : StoredKey)
      → stored_key c s ≡ ok k
      → (key : Key) × (parse_public_key c s ≡ ok (k.public_key, key))
        × (compute_key_id c k.public_key ≡ ok k.key_id)
        × (k.public_key ≡ trim_space s)
  unfolding stored_key
  stored_parts s k h =
      let (p, e1, h1) = >>=-eq-ok (parse_public_key c s) _ h in
      let (id, e2, h2) = >>=-eq-ok (compute_key_id c p.0) _ h1 in
      let made : record { key_id = id; public_key = p.0 } ≡ k = cc h2 in
      subst
        (λ (k : StoredKey).
          (key : Key) × (parse_public_key c s ≡ ok (k.public_key, key))
          × (compute_key_id c k.public_key ≡ ok k.key_id)
          × (k.public_key ≡ trim_space s))
        made (p.1, e1, e2, parse_first s p e1)

  stored_key-IsSettled : (s : Text) (k : StoredKey) → stored_key c s ≡ ok k → IsSettled (some k)
  stored_key-IsSettled s k h =
      let (key, parsed, computed, trimmed) = stored_parts s k h in
      subst (λ t. stored_key c t ≡ ok k) (sym trimmed) (stored_idem s ∙ h)

  computed_hash : (t id : Text) → compute_key_id c t ≡ ok id → (b : Text) × (id ≡ sha256_hex b)
  unfolding compute_key_id
  computed_hash t id h = go (decode_base64 (trim_space t)) h
    where
      go :
          (o : Option Text)
          → ◌≡◌ {A = Result AuthError Text}
              (elim o [ none ↦ err bad_base64 | some bytes ↦ ok (sha256_hex bytes) ])
              (ok id)
          → (b : Text) × (id ≡ sha256_hex b)
      go none h = cc
      go (some bytes) h = (bytes, cc h)

  validated : (t u : Text) → validate_key_id t ≡ ok u → (u ≡ trim_space t) × (is_empty u ≡ false)
  unfolding validate_key_id
  validated t u h = ground arith

  settle_same :
      (id : Text) → validate_key_id id ≡ ok id → settle_key_id c (trim_space id) id ≡ ok id
  unfolding settle_key_id
  settle_same id valid =
      let (trimmed, there) = validated id id valid in
      rw (← trimmed) (rw (there, valid) (rw (text_eq_refl id) refl))

  normalize-settled :
      ((b : Text) → validate_key_id (sha256_hex b) ≡ ok (sha256_hex b))
      → (o : Option StoredKey) → IsSettled o
      → normalize_stored_public_key c o ≡ ok o
  unfolding normalize_stored_public_key
  normalize-settled hash none s = refl
  normalize-settled hash (some k) s =
      let (key, parsed, computed, _) = stored_parts k.public_key k s in
      let (b, e) = computed_hash k.public_key k.key_id computed in
      let valid : validate_key_id k.key_id ≡ ok k.key_id =
        subst (λ id. validate_key_id id ≡ ok id) (sym e) (hash b) in
      rw (parsed, computed) (rw (settle_same k.key_id valid) refl)

  load_ring-settled :
      ((b : Text) → validate_key_id (sha256_hex b) ≡ ok (sha256_hex b))
      → (km : KeyManager Key) (current : StoredKey) (previous : Option StoredKey)
      → IsSettled (some current)
      → IsSettled previous
      → same_stored_public_key (some current) previous ≡ false
      → load_ring c km (record { current = some current; previous = previous })
        ≡ ok (record km { current_key = some current; previous_key = previous })
  unfolding load_ring required
  load_ring-settled hash km current previous s t other =
      rw (normalize-settled hash (some current) s, normalize-settled hash previous t)
        (rw other refl)

  refreshed :
      (km : KeyManager Key) (keys : List (Text × Key))
      → registered c km.current_key km.previous_key ≡ ok keys
      → refresh_public_keys_locked c km ≡ (record km { public_keys = keys }, ok tt)
  unfolding refresh_public_keys_locked
  refreshed km keys h = rw (h, refresh_public_keys_locked) refl

  load_settled :
      ((b : Text) → validate_key_id (sha256_hex b) ≡ ok (sha256_hex b))
      → (fresh : KeyManager Key) (legacy : Loaded Text) (current : StoredKey)
        (previous : Option StoredKey) (keys : List (Text × Key))
      → IsSettled (some current)
      → IsSettled previous
      → same_stored_public_key (some current) previous ≡ false
      → registered c (some current) previous ≡ ok keys
      → load_public_keys c fresh
          (contents (record { current = some current; previous = previous }))
          legacy
        ≡ (
          record fresh { public_keys = keys; current_key = some current; previous_key = previous },
          ok tt,
        )
  unfolding load_public_keys then_refresh
  load_settled hash fresh legacy current previous keys s t other r =
      rw (load_ring-settled hash fresh current previous s t other)
        (refreshed (record fresh { current_key = some current; previous_key = previous }) keys r)

  same_sym :
      (k : Option StoredKey) (next : StoredKey)
      → same_stored_public_key k (some next) ≡ false
      → same_stored_public_key (some next) k ≡ false
  unfolding same_stored_public_key
  same_sym none next h = refl
  same_sym (some k) next h = ground (
    arith,
    text_eq_iff k.key_id next.key_id,
    text_eq_iff next.key_id k.key_id,
    text_eq_iff k.public_key next.public_key,
    text_eq_iff next.public_key k.public_key,
  )

  changed_other :
      (km : KeyManager Key) (public_key : Text) (saved : Written) (next : StoredKey)
      → stored_key c public_key ≡ ok next
      → (set_public_key c km public_key saved).1 ≡ ok true
      → same_stored_public_key km.current_key (some next) ≡ false
  unfolding set_public_key
  changed_other km public_key saved next s h = ground (arith, s)

  -- Loading the key ring that a call of SetPublicKey has written gives back the keys and the map that it left, if the
  -- current key before it was one that SetPublicKey makes, and a hexadecimal hash is a valid key id.
  pub set_public_key_reloads :
      ((b : Text) → validate_key_id (sha256_hex b) ≡ ok (sha256_hex b))
      → (km fresh : KeyManager Key) (public_key : Text) (saved : Written) (legacy : Loaded Text)
      → IsConsistent c km
      → IsSettled km.current_key
      → (set_public_key c km public_key saved).1 ≡ ok true
      → load_public_keys c fresh
          (contents (ring_of c (set_public_key c km public_key saved).0))
          legacy
        ≡ (
          record fresh {
            public_keys = (set_public_key c km public_key saved).0.public_keys;
            current_key = (set_public_key c km public_key saved).0.current_key;
            previous_key = (set_public_key c km public_key saved).0.previous_key;
          },
          ok tt,
        )
  set_public_key_reloads hash km fresh public_key saved legacy consistent settled changed =
      let (next, stored, current, previous) = set_public_key_keys c km public_key saved changed in
      let kept : registered c (set_public_key c km public_key saved).0.current_key
            (set_public_key c km public_key saved).0.previous_key
          ≡ ok (set_public_key c km public_key saved).0.public_keys =
        set_public_key-IsConsistent c km public_key saved consistent in
      rw (current, previous)
        (load_settled hash fresh legacy next km.current_key
          (set_public_key c km public_key saved).0.public_keys
          (stored_key-IsSettled public_key next stored) settled
          (same_sym km.current_key next (changed_other km public_key saved next stored changed))
          (rw (current, previous) at kept))
