-- ===== src/Auth/Nonce.antt =====
-- route/auth/middleware.go: the store of request nonces. A time is a number of nanoseconds, and
-- `t.After(now)` is `now < t`. Calls run one at a time (the store's mutex); their clock readings are
-- taken before the lock, so they need not be in order.
pub mod Replay
pub mod Eviction
pub mod Stale
use kokorobox_service.Common.{
  ℕ, ◌+◌, ◌≡◌, Bool, true, false, List, [], ◌∷◌, ◌++◌, Option, none, some, Text, get, put, delete,
  ltb, ◌==◌, if◌then◌else◌,
}

pub record NonceEntry : Type 0 where
  pub key : Text
  pub expires_at : ℕ

pub record NonceStore : Type 0 where
  pub ttl : ℕ
  pub seen : List (Text × ℕ)
  pub order : List NonceEntry

unfoldable pub new_nonce_store : ℕ → NonceStore
new_nonce_store ttl = record { ttl = ttl; seen = []; order = [] }

-- The binding that an evicted entry removes: its own, unless a later call has renewed the key.
unfoldable pub forget : NonceEntry → List (Text × ℕ) → List (Text × ℕ)
forget e seen = elim (get e.key seen) [
  | none ↦ seen
  | some current ↦ if current == e.expires_at then delete e.key seen else seen
]

-- The loop of `evictExpiredLocked`, over the entries that are left and the map.
unfoldable pub evict : ℕ → List NonceEntry → List (Text × ℕ) → List NonceEntry × List (Text × ℕ)
evict now [] seen = ([], seen)
evict now (e ∷ es) seen =
    let rest = evict now es (forget e seen) in if ltb now e.expires_at then (e ∷ es, seen) else rest

unfoldable pub evict_expired_locked : NonceStore → ℕ → NonceStore
evict_expired_locked s now =
    let (order, seen) = evict now s.order s.seen in record s { seen = seen; order = order }

-- The assignment and the append at the end of `Remember`.
unfoldable pub insert_nonce : NonceStore → Text → ℕ → NonceStore
insert_nonce s key expires_at = record s {
  seen = put key expires_at s.seen;
  order = s.order ++ record { key = key; expires_at = expires_at } ∷ [];
}

unfoldable pub is_live : Option ℕ → ℕ → Bool
is_live none now = false
is_live (some expires_at) now = ltb now expires_at

unfoldable pub remember : NonceStore → Text → ℕ → NonceStore × Bool
unfolding evict_expired_locked insert_nonce is_live
remember s key now =
    let t = evict_expired_locked s now in
    if is_live (get key t.seen) now then (t, false) else (insert_nonce t key (now + t.ttl), true)

-- The store after some calls, each a key and its clock reading.
unfoldable pub remember_all : NonceStore → List (Text × ℕ) → NonceStore
remember_all s [] = s
remember_all s ((key, now) ∷ calls) = remember_all (remember s key now).0 calls
