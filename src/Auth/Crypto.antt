-- ===== src/Auth/Crypto.antt =====
-- The cryptography and the encodings that route/auth calls (crypto/ed25519, crypto/sha256, crypto/x509
-- and encoding/base64), as an interface. A law of them is a hypothesis where it is needed.
use kokorobox_service.Common.{Text, Bool, Option}

-- x509.ParsePKIXPublicKey, and whether the key is an ed25519.PublicKey.
pub data PkixKey (K : Type 0) : Type 0 where
  malformed : PkixKey K
  other_kind : PkixKey K
  ed25519 : K → PkixKey K

pub record Crypto : Type 1 where
  pub Key : Type 0
  pub decode_base64 : Text → Option Text
  pub encode_base64 : Text → Text
  -- hex.EncodeToString of sha256.Sum256.
  pub sha256_hex : Text → Text
  pub parse_pkix : Text → PkixKey Key
  pub verify : Key → Text → Text → Bool
