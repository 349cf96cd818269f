-- ===== src/Auth/Nonce/Replay.antt =====
-- What `Remember` of route/auth/middleware.go refuses.
use kokorobox_service.Common.{
  text_eq_refl, All, ℕ, ◌+◌, ◌<◌, ◌≡◌, false, List, [], ◌∷◌, some, Text, get, get-put,
  get-delete_ne, text_eq_iff, ltb, arith,
}
use kokorobox_service.Auth.Nonce.{
  true, remember_all, NonceEntry, NonceStore, forget, evict, remember,
}

-- Evicting an expired entry keeps each binding that is not expired.
get-forget :
    (e : NonceEntry) (seen : List (Text × ℕ)) (k : Text) (t now : ℕ)
    → get k seen ≡ some t
    → now < t
    → ltb now e.expires_at ≡ false
    → get k (forget e seen) ≡ some t
unfolding forget
get-forget e seen k t now g l x = ground (arith, text_eq_iff e.key k, get-delete_ne e.key k seen)

get-evict :
    (es : List NonceEntry) (seen : List (Text × ℕ)) (k : Text) (t now : ℕ)
    → get k seen ≡ some t
    → now < t
    → get k (evict now es seen).1 ≡ some t
unfolding evict
get-evict [] seen k t now g l = g
get-evict (e ∷ es) seen k t now g l =
    ground (arith, get-forget e seen k t now, get-evict es (forget e seen) k t now)

-- A live binding stays, and a call with its key is refused.
get-remember :
    (s : NonceStore) (k j : Text) (t now : ℕ)
    → get k s.seen ≡ some t
    → now < t
    → get k (remember s j now).0.seen ≡ some t
unfolding remember
get-remember s k j t now g l = ground (
  arith,
  get-evict s.order s.seen k t now g l,
  get-put j k (now + s.ttl) (evict now s.order s.seen).1,
  text_eq_iff j k,
)

get-remember_all :
    (s : NonceStore) (k : Text) (t : ℕ) (calls : List (Text × ℕ))
    → get k s.seen ≡ some t
    → All (λ c. c.1 < t) calls
    → get k (remember_all s calls).seen ≡ some t
unfolding remember_all
get-remember_all s k t [] g h = g
get-remember_all s k t ((j, now) ∷ calls) g h =
    get-remember_all (remember s j now).0 k t calls (get-remember s k j t now g h.0) h.1

pub remember_live :
    (s : NonceStore) (k : Text) (t now : ℕ)
    → get k s.seen ≡ some t
    → now < t
    → (remember s k now).1 ≡ false
unfolding remember
remember_live s k t now g l = ground (arith, get-evict s.order s.seen k t now g l)

pub remember_binds :
    (s : NonceStore) (k : Text) (now : ℕ)
    → (remember s k now).1 ≡ true
    → get k (remember s k now).0.seen ≡ some (now + s.ttl)
unfolding remember
remember_binds s k now h =
    ground (arith, get-put k k (now + s.ttl) (evict now s.order s.seen).1, text_eq_refl k)

-- A key that was accepted at a time `start` is refused at every later call whose clock reads less than
-- `start + ttl`, whatever the store held before and whatever calls, in whatever order of their clock
-- readings, came between, as long as those readings also are less than `start + ttl`.
pub remember_replayed :
    (s : NonceStore) (k : Text) (start now : ℕ) (calls : List (Text × ℕ))
    → (remember s k start).1 ≡ true
    → All (λ c. c.1 < start + s.ttl) calls
    → now < start + s.ttl
    → (remember (remember_all (remember s k start).0 calls) k now).1 ≡ false
remember_replayed s k start now calls accepted early l =
    remember_live _ k (start + s.ttl) now
      (get-remember_all (remember s k start).0 k (start + s.ttl) calls
        (remember_binds s k start accepted) early)
      l
