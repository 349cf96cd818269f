-- ===== src/Auth/Binding/Bootstrap.antt =====
-- What the one-time bootstrap of route/auth/auth.go promises.
use kokorobox_service.Common.{
  Bool-cases, inr, inl, false, ℕ, ◌≡◌, true, none, Text, ok, err, arith, ◌⊎◌, ◌≢◌,
}
use kokorobox_service.Auth.Crypto.{Crypto}
use kokorobox_service.Auth.Principals.{AuthError}
use kokorobox_service.Auth.KeyRing.{KeyManager}
use kokorobox_service.Auth.Binding.{
  Files, Outcomes, install, check_uninitialized, bootstrap_public_key_for_uid,
}

module _ (c : Crypto) where
  open c use {Key}

  -- Any key, principal or file that is there already makes the bootstrap fail and stay without effect.
  pub bootstrap_never_replaces :
      (km : KeyManager Key) (files : Files) (out : Outcomes) (public_key : Text) (uid : ℕ)
      → (km.current_key ≢ none)
        ⊎ (km.authorized_principal ≢ none)
        ⊎ (files.ring ≢ none)
        ⊎ (files.principal ≢ none)
      → ((bootstrap_public_key_for_uid c km files out public_key uid).0 ≡ (km, files))
        × ((bootstrap_public_key_for_uid c km files out public_key uid).1 ≢ ok tt)
  unfolding bootstrap_public_key_for_uid check_uninitialized
  bootstrap_never_replaces km files out public_key uid h = ground arith

  -- A bootstrap that fails leaves the key manager as it was, whatever call fails, and also the files, unless it wrote
  -- a key ring and could not remove it again.
  pub bootstrap_atomic :
      (km : KeyManager Key) (files : Files) (out : Outcomes) (public_key : Text) (uid : ℕ)
      {e : AuthError}
      → (bootstrap_public_key_for_uid c km files out public_key uid).1 ≡ err e
      → ((bootstrap_public_key_for_uid c km files out public_key uid).0.0 ≡ km)
        × (((bootstrap_public_key_for_uid c km files out public_key uid).0.1 ≡ files)
            ⊎ ((out.ring_written ≡ true) × (out.ring_removed ≡ false)))
  unfolding bootstrap_public_key_for_uid check_uninitialized install
  bootstrap_atomic km files out public_key uid r = (
    ground arith,
    elim (Bool-cases out.ring_written) [
      | inr unwritten ↦ inl (ground arith)
      | inl written ↦ elim (Bool-cases out.ring_removed) [
        | inl removed ↦ inl (ground arith)
        | inr left ↦ inr (written, left)
      ]
    ],
  )
