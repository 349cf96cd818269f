-- ===== src/Auth/Nonce/Eviction.antt =====
-- What the eviction of route/auth/middleware.go keeps, where the clock readings come in order.
use kokorobox_service.Common.{
  text_eq→eq, ltb→lt, ap, ℕ, ◌+◌, ◌<◌, ◌≤◌, ◌≡◌, refl, List, [], ◌∷◌, ◌++◌, some, Text, get, delete,
  get-put, get-delete_ne, get-delete_self, text_eq_iff, text_eq, All, ltb, arith, Bool-cases, inl,
  inr, ◌⊎◌,
}
use kokorobox_service.Auth.Nonce.{
  NonceEntry, NonceStore, new_nonce_store, forget, evict, evict_expired_locked, insert_nonce,
  is_live, remember,
}

-- The entries expire in their order, none before `low` and none after `high`.
abbrev pub Queued : ℕ → ℕ → List NonceEntry → Type 0
Queued low high [] = low ≤ high
Queued low high (e ∷ es) = (low ≤ e.expires_at) × Queued e.expires_at high es

-- A binding has an entry that will evict it.
abbrev pub Covered : Text → ℕ → List NonceEntry → Type 0
Covered k t [] = ⊥
Covered k t (e ∷ es) = ((e.key ≡ k) × (e.expires_at ≡ t)) ⊎ Covered k t es

-- What holds of the store when the last clock reading was `now`.
pub record IsTidy (s : NonceStore) (now : ℕ) : Type 0 where
  pub queued : (low : ℕ) × Queued low (now + s.ttl) s.order
  pub covered : (k : Text) (t : ℕ) → get k s.seen ≡ some t → Covered k t s.order

Queued-weaken :
    (low low' high high' : ℕ) (es : List NonceEntry)
    → Queued low high es
    → low' ≤ low
    → high ≤ high'
    → Queued low' high' es
Queued-weaken low low' high high' [] q h k = omega arith
Queued-weaken low low' high high' (e ∷ es) q h k =
    (omega arith, Queued-weaken e.expires_at e.expires_at high high' es q.1 (omega arith) k)

Queued-append :
    (low high t : ℕ) (k : Text) (es : List NonceEntry)
    → Queued low high es
    → high ≤ t
    → Queued low t (es ++ record { key = k; expires_at = t } ∷ [])
Queued-append low high t k [] q h = omega arith
Queued-append low high t k (e ∷ es) q h = (q.0, Queued-append e.expires_at high t k es q.1 h)

Covered-append_left :
    (k : Text) (t : ℕ) (es fs : List NonceEntry) → Covered k t es → Covered k t (es ++ fs)
Covered-append_left k t [] fs c = absurd c
Covered-append_left k t (e ∷ es) fs (inl c) = inl c
Covered-append_left k t (e ∷ es) fs (inr c) = inr (Covered-append_left k t es fs c)

Covered-append_last :
    (k : Text) (t : ℕ) (es : List NonceEntry)
    → Covered k t (es ++ record { key = k; expires_at = t } ∷ [])
Covered-append_last k t [] = inl (refl, refl)
Covered-append_last k t (e ∷ es) = inr (Covered-append_last k t es)

-- What is left of the map once the front entry is forgotten was there, and is not that entry's.
get-forget_left :
    (e : NonceEntry) (seen : List (Text × ℕ)) (k : Text) (t : ℕ)
    → get k (forget e seen) ≡ some t
    → (get k seen ≡ some t) × ((e.key ≡ k) → (e.expires_at ≡ t) → ⊥)
unfolding forget
get-forget_left e seen k t g = (
  ground (arith, text_eq_iff e.key k, get-delete_ne e.key k seen, get-delete_self e.key seen),
  λ same due. ground (
    arith,
    ap (λ x. get x seen) same,
    ap (λ x. get x (delete e.key seen)) same,
    get-delete_self e.key seen,
  ),
)

Covered-rest :
    (e : NonceEntry) (k : Text) (t : ℕ) (es : List NonceEntry)
    → ((e.key ≡ k) → (e.expires_at ≡ t) → ⊥)
    → Covered k t (e ∷ es)
    → Covered k t es
Covered-rest e k t es other (inl (same, due)) = absurd (other same due)
Covered-rest e k t es other (inr c) = c

get-evict-Covered :
    (now : ℕ) (es : List NonceEntry) (seen : List (Text × ℕ))
    → ((k : Text) (t : ℕ) → get k seen ≡ some t → Covered k t es)
    → (k : Text) (t : ℕ) → get k (evict now es seen).1 ≡ some t
    → Covered k t (evict now es seen).0
unfolding evict
get-evict-Covered now [] seen c k t = c k t
get-evict-Covered now (e ∷ es) seen c k t = elim (Bool-cases (ltb now e.expires_at)) [
  | inl live ↦ rw live (λ g. c k t g)
  | inr dead ↦ rw dead (λ g.
      get-evict-Covered now es (forget e seen)
        (λ j u h.
          let left = get-forget_left e seen j u h in Covered-rest e j u es left.1 (c j u left.0))
        k t g)
]

-- Every entry that is left expires after `now`.
evict-Queued :
    (now low high : ℕ) (es : List NonceEntry) (seen : List (Text × ℕ))
    → Queued low high es
    → now ≤ high
    → Queued now high (evict now es seen).0
unfolding evict
evict-Queued now low high [] seen q h = h
evict-Queued now low high (e ∷ es) seen q h =
    ground (arith, evict-Queued now e.expires_at high es (forget e seen) q.1 h)

All-live :
    (now low high : ℕ) (es : List NonceEntry)
    → Queued low high es
    → now < low
    → All (λ e. now < e.expires_at) es
All-live now low high [] q h = tt
All-live now low high (e ∷ es) q h =
    (omega arith, All-live now e.expires_at high es q.1 (omega arith))

evict_live :
    (now low high : ℕ) (es : List NonceEntry) (seen : List (Text × ℕ))
    → Queued low high es
    → All (λ e. now < e.expires_at) (evict now es seen).0
unfolding evict
evict_live now low high [] seen q = tt
evict_live now low high (e ∷ es) seen q = elim (Bool-cases (ltb now e.expires_at)) [
  | inl live ↦ rw live (
    ltb→lt now e.expires_at live,
    All-live now e.expires_at high es q.1 (ltb→lt now e.expires_at live),
  )
  | inr dead ↦ rw dead (evict_live now e.expires_at high es (forget e seen) q.1)
]

Covered-live :
    (now : ℕ) (k : Text) (t : ℕ) (es : List NonceEntry)
    → All (λ e. now < e.expires_at) es
    → Covered k t es
    → now < t
Covered-live now k t [] a c = absurd c
Covered-live now k t (e ∷ es) a (inl (same, due)) = rw due at a.0
Covered-live now k t (e ∷ es) a (inr c) = Covered-live now k t es a.1 c

All-append :
    (now t : ℕ) (k : Text) (es : List NonceEntry)
    → All (λ e. now < e.expires_at) es
    → now < t
    → All (λ e. now < e.expires_at) (es ++ record { key = k; expires_at = t } ∷ [])
All-append now t k [] a h = (h, tt)
All-append now t k (e ∷ es) a h = (a.0, All-append now t k es a.1 h)

-- What holds of the store right after a call at `now`: no expired entry and no expired binding is left.
pub record IsClean (s : NonceStore) (now : ℕ) : Type 0 where
  pub entries_live : All (λ e. now < e.expires_at) s.order
  pub bindings_live : (k : Text) (t : ℕ) → get k s.seen ≡ some t → now < t

evicted-IsTidy :
    (s : NonceStore) (last now : ℕ)
    → IsTidy s last
    → last ≤ now
    → IsTidy (evict_expired_locked s now) now
unfolding evict_expired_locked
evicted-IsTidy s last now tidy h = record {
  queued = (
    now,
    evict-Queued now tidy.queued.0 (now + s.ttl) s.order s.seen
        (Queued-weaken tidy.queued.0 tidy.queued.0 (last + s.ttl) (now + s.ttl) s.order
          tidy.queued.1 (omega arith) (omega arith))
        (omega arith),
  );
  covered = get-evict-Covered now s.order s.seen tidy.covered;
}

evicted-IsClean :
    (s : NonceStore) (last now : ℕ) → IsTidy s last → IsClean (evict_expired_locked s now) now
unfolding evict_expired_locked
evicted-IsClean s last now tidy =
    let live = evict_live now tidy.queued.0 (last + s.ttl) s.order s.seen tidy.queued.1 in
    record {
      entries_live = live;
      bindings_live = λ k t g.
          Covered-live now k t _ live (get-evict-Covered now s.order s.seen tidy.covered k t g);
    }

Covered-put :
    (s : NonceStore) (k j : Text) (due t : ℕ)
    → ((i : Text) (u : ℕ) → get i s.seen ≡ some u → Covered i u s.order)
    → get j (insert_nonce s k due).seen ≡ some t
    → Covered j t (insert_nonce s k due).order
unfolding insert_nonce
Covered-put s k j due t c g = elim (Bool-cases (text_eq k j)) [
  | inl same ↦
      let e : k ≡ j = text_eq→eq k j same in
      let d : due ≡ t = ground (arith, get-put k j due s.seen) in
      rw (← e, ← d) (Covered-append_last k due s.order)
  | inr other ↦ Covered-append_left j t s.order _ (c j t (ground (arith, get-put k j due s.seen)))
]

inserted-IsTidy :
    (s : NonceStore) (k : Text) (now : ℕ)
    → IsTidy s now
    → IsTidy (insert_nonce s k (now + s.ttl)) now
inserted-IsTidy s k now tidy = record {
  queued = (
    tidy.queued.0,
    unfold insert_nonce in
        Queued-append tidy.queued.0 (now + s.ttl) (now + s.ttl) k s.order tidy.queued.1
          (omega arith),
  );
  covered = λ j t g. Covered-put s k j (now + s.ttl) t tidy.covered g;
}

inserted-IsClean :
    (s : NonceStore) (k : Text) (now : ℕ)
    → 0 < s.ttl
    → IsClean s now
    → IsClean (insert_nonce s k (now + s.ttl)) now
unfolding insert_nonce
inserted-IsClean s k now ttl clean = record {
  entries_live = All-append now (now + s.ttl) k s.order clean.entries_live (omega arith);
  bindings_live =
      λ j t g. ground (arith, get-put k j (now + s.ttl) s.seen, clean.bindings_live j t);
}

pub new_nonce_store-IsTidy : (ttl now : ℕ) → IsTidy (new_nonce_store ttl) now
unfolding new_nonce_store get
new_nonce_store-IsTidy ttl now = record { queued = (0, omega arith); covered = λ k t g. cc }

-- A call at a time that is not before the last one keeps the store tidy (its entries in the order in which
-- they expire, each binding with the entry that will remove it), and leaves no expired entry and no
-- expired binding in it, if the time to live is not 0.
pub remember-IsClean :
    (s : NonceStore) (k : Text) (last now : ℕ)
    → 0 < s.ttl
    → IsTidy s last
    → last ≤ now
    → IsTidy (remember s k now).0 now × IsClean (remember s k now).0 now
unfolding remember
remember-IsClean s k last now ttl tidy h =
    let t = evict_expired_locked s now in
    let t_tidy = evicted-IsTidy s last now tidy h in
    let t_clean = evicted-IsClean s last now tidy in
    elim (Bool-cases (is_live (get k t.seen) now)) [
      | inl live ↦ rw live (t_tidy, t_clean)
      | inr fresh ↦ rw fresh (inserted-IsTidy t k now t_tidy, inserted-IsClean t k now ttl t_clean)
    ]
