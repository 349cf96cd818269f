-- ===== src/Auth/Nonce/Stale.antt =====
-- What the nonce store of route/auth/middleware.go forgets when a later clock reading comes before an earlier one.
use kokorobox_service.Common.{
  put, text_eq_refl, get-delete_ne, text_eq→eq, subst, ◌+◌, ◌==◌, ◌++◌, Bool-cases, get-delete_self,
  get-put, Option-cases, ◌∙◌, ◌⊎◌, eq→eqb, arith, ◌≡◌, by_test, text_eq, All, ◌≤◌, ℕ, ◌∷◌, [],
  false, true, inr, inl, some, none, refl,
}
use kokorobox_service.Auth.Nonce.{
  is_live, delete, ltb, get, insert_nonce, evict_expired_locked, List, Text, NonceStore,
  remember_all, forget, remember, evict, NonceEntry,
}

forget-get :
    (e : NonceEntry) (seen : List (Text × ℕ)) (k : Text)
    → (get k (forget e seen) ≡ none) ⊎ (get k (forget e seen) ≡ get k seen)
unfolding forget
forget-get e seen k = elim (Option-cases (get e.key seen)) [
  | inl p ↦ inr (rw (p, forget) refl)
  | inr (x, p) ↦ elim (Bool-cases (x == e.expires_at)) [
    | inr other ↦ inr (rw (p, forget) (rw other refl))
    | inl same ↦ elim (Bool-cases (text_eq e.key k)) [
      | inl own ↦ inl (
          rw (p, forget)
            (rw same (
              subst (λ j. get j (delete e.key seen) ≡ none) (text_eq→eq e.key k own)
                (get-delete_self e.key seen))))
      | inr foreign ↦ inr (rw (p, forget) (rw same (get-delete_ne e.key k seen foreign)))
    ]
  ]
]

forget_own :
    (k : Text) (t : ℕ) (seen : List (Text × ℕ))
    → get k seen ≡ some t
    → get k (forget (record { key = k; expires_at = t }) seen) ≡ none
unfolding forget
forget_own k t seen g = rw (g, forget) (rw (eq→eqb t t refl) (get-delete_self k seen))

absent_stays :
    (now : ℕ) (es : List NonceEntry) (seen : List (Text × ℕ)) (k : Text)
    → get k seen ≡ none
    → get k (evict now es seen).1 ≡ none
unfolding evict
absent_stays now [] seen k g = g
absent_stays now (e ∷ es) seen k g =
    by_test (λ (r : List NonceEntry × List (Text × ℕ)). get k r.1 ≡ none) (ltb now e.expires_at)
      (λ _. g) (λ _. absent_stays now es (forget e seen) k (forgotten (forget-get e seen k)))
  where
    forgotten :
        (get k (forget e seen) ≡ none) ⊎ (get k (forget e seen) ≡ get k seen)
        → get k (forget e seen) ≡ none
    forgotten (inl p) = p
    forgotten (inr p) = p ∙ g

-- The entry has expired at a clock reading.
abbrev pub Over : ℕ → NonceEntry → Type 0
Over late e = e.expires_at ≤ late

forgets_last :
    (late t : ℕ) (k : Text) (es : List NonceEntry) (seen : List (Text × ℕ))
    → All (Over late) es
    → t ≤ late
    → get k seen ≡ some t
    → get k (evict late (es ++ (record { key = k; expires_at = t } ∷ [])) seen).1 ≡ none
unfolding evict
forgets_last late t k [] seen over passed g =
    by_test (λ (r : List NonceEntry × List (Text × ℕ)). get k r.1 ≡ none) (ltb late t)
      (λ early. ground (arith, early, passed)) (λ _. forget_own k t seen g)
forgets_last late t k (e ∷ es) seen over passed g =
    by_test (λ (r : List NonceEntry × List (Text × ℕ)). get k r.1 ≡ none) (ltb late e.expires_at)
      (λ early. ground (arith, early, over.0))
      (λ _.
        go (forget-get e seen k) (λ p. forgets_last late t k es (forget e seen) over.1 passed p))
  where
    go :
        (get k (forget e seen) ≡ none) ⊎ (get k (forget e seen) ≡ get k seen)
        → (get k (forget e seen) ≡ some t
            → get k (evict late (es ++ (record { key = k; expires_at = t } ∷ [])) (forget e seen)).1
              ≡ none)
        → get k (evict late (es ++ (record { key = k; expires_at = t } ∷ [])) (forget e seen)).1
          ≡ none
    go (inl p) kept = absent_stays late _ (forget e seen) k p
    go (inr p) kept = kept (p ∙ g)

evict-Over :
    (late now : ℕ) (es : List NonceEntry) (seen : List (Text × ℕ))
    → All (Over late) es
    → All (Over late) (evict now es seen).0
unfolding evict
evict-Over late now [] seen over = tt
evict-Over late now (e ∷ es) seen over =
    by_test (λ (r : List NonceEntry × List (Text × ℕ)). All (Over late) r.0) (ltb now e.expires_at)
      (λ _. over) (λ _. evict-Over late now es (forget e seen) over.1)

stored_gone :
    (s : NonceStore) (k : Text) (start late : ℕ)
    → All (Over late) s.order
    → (remember s k start).1 ≡ true
    → start + s.ttl ≤ late
    → let t = (remember s k start).0 in get k (evict late t.order t.seen).1 ≡ none
unfolding remember evict_expired_locked insert_nonce
stored_gone s k start late over new passed =
    elim (Bool-cases (is_live (get k (evict start s.order s.seen).1) start)) [
      | inl live ↦ ground (arith, new, live)
      | inr gone ↦
          let kept =
            forgets_last late (start + s.ttl) k (evict start s.order s.seen).0
              (put k (start + s.ttl) (evict start s.order s.seen).1)
              (evict-Over late start s.order s.seen over) passed
              (get-put k k (start + s.ttl) (evict start s.order s.seen).1
                ∙ rw (text_eq_refl k) refl) in
          rw gone kept
    ]

remember_other :
    (s : NonceStore) (k j : Text) (late : ℕ)
    → text_eq j k ≡ false
    → get k (evict late s.order s.seen).1 ≡ none
    → get k (remember s j late).0.seen ≡ none
unfolding remember
remember_other s k j late other gone =
    ground (arith, get-put j k (late + s.ttl) (evict late s.order s.seen).1, other, gone)

remember_forgotten :
    (s : NonceStore) (k : Text) (now : ℕ) → get k s.seen ≡ none → (remember s k now).1 ≡ true
unfolding remember
remember_forgotten s k now g = ground (arith, absent_stays now s.order s.seen k g)

-- A key that was accepted at a clock reading start is accepted again at any clock reading, also an earlier one than its
-- time of expiry, once a call for another key has come with a reading at or after that time, if no entry of the store
-- before expires after that reading.
pub stale_clock_replays :
    (s : NonceStore) (k j : Text) (start late now : ℕ)
    → All (Over late) s.order
    → (remember s k start).1 ≡ true
    → start + s.ttl ≤ late
    → text_eq j k ≡ false
    → (remember (remember_all (remember s k start).0 ((j, late) ∷ [])) k now).1 ≡ true
unfolding remember_all
stale_clock_replays s k j start late now over new passed other = remember_forgotten _ k now (
    remember_other (remember s k start).0 k j late other
      (stored_gone s k start late over new passed))
