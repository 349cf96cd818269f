-- ===== src/Dns/Safety.antt =====
-- The bounds of the lease through the operations of route/dnsapi/lease.go.
use kokorobox_service.Common.{
  ltb, ◌+◌, ap, ◌≡◌, ◌≢◌, refl, Bool, true, false, Option, none, some, List, [], ◌∷◌, length, arith,
  inl, inr, Text, Bool-cases, if◌then◌else◌,
}
use kokorobox_service.Dns.Lease.{
  no_directory, attempt, retry_interval, record_unreadable, stop_timers, consult, Servers,
  servers_eq, Entry, Lease, State, panicked, Outcome, done, failure, M, active_dns_service, get_dns,
}
use kokorobox_service.Dns.Operations.{
  configure, release, acquire, set_over, set, expire_lease, expire, stop, record_valid, adopt,
  recover_from, recover,
}
use kokorobox_service.Dns.Bounds.{
  attempt-Post, Post-bind, Bounded, Good, Quiet-Good, active_dns_service-Quiet, get_dns-Quiet,
  release-Good, renew-Good, install_lease-Good, consult-Post,
}

Good-bind :
    {A B : Type 0} (o : Outcome A) (f : A → M B)
    → Good o
    → ((a : A) (t : State) → Bounded t.lease → Good (f a t))
    → Good (elim o [ done a t ↦ f a t | failure e t ↦ failure e t ])
Good-bind o f =
    Post-bind (λ _ t. Bounded t.lease) (λ e t. Bounded t.lease × (e ≢ panicked))
      (λ _ t. Bounded t.lease) o f

acquire-Good : (servers : Servers) (s : State) → Bounded s.lease → Good (acquire servers s)
unfolding acquire
acquire-Good servers s b =
    Good-bind (active_dns_service s) _ (Quiet-Good s.lease _ b (active_dns_service-Quiet s))
      (λ service t b'.
        Good-bind (get_dns service.name t) _
          (Quiet-Good t.lease _ b' (get_dns-Quiet service.name t))
          (λ original t _. install_lease-Good service original servers t))

set_over-Good :
    (l : Option Lease) (servers : Servers) (s : State)
    → s.lease ≡ l
    → Bounded l
    → Good (set_over l servers s)
unfolding set_over
set_over-Good none servers s e b = acquire-Good servers s (rw e tt)
set_over-Good (some l) servers s e b = go l.entries refl
  where
    go : (es : List Entry) → l.entries ≡ es → Good (set_over (some l) servers s)
    go [] p = absurd (omega (arith, ap length p))
    go (first ∷ rest) p = elim (Bool-cases (servers_eq first.desired servers)) [
      | inl same ↦ rw (p, set_over) (rw same (renew-Good s (rw e b)))
      | inr other ↦
          rw (p, set_over)
            (rw other (
              Good-bind (release s) _ (release-Good s (rw e b))
                (λ _ t b'. acquire-Good servers t b')))
    ]

if-Good : {A : Type 0} (b : Bool) (x y : Outcome A) → Good x → Good y → Good (if b then x else y)
if-Good true x y h k = h
if-Good false x y h k = k

-- `set` keeps the bounds of the lease and does not panic.
pub set-Good : (servers : Servers) (s : State) → Bounded s.lease → Good (set servers s)
unfolding set
set-Good servers s b =
    if-Good s.configured _ _ (set_over-Good s.lease servers s refl b) (b, λ e. cc)

expire_lease-Good :
    (l : Option Lease) (s : State) → s.lease ≡ l → Bounded l → Good (expire_lease l s)
unfolding expire_lease
expire_lease-Good none s e b = rw e tt
expire_lease-Good (some l) s e b =
    if-Good (ltb s.now l.deadline) _ _ (rw e b) (go (release s) (release-Good s (rw e b)))
  where
    go :
        (o : Outcome (Unit {0}))
        → Good o
        → Good {A = Unit {0}} (elim o [
          | done _ t ↦ done tt t
          | failure x t ↦ done tt (record t { timer = some (t.now + retry_interval) })
        ])
    go (done _ t) h = h
    go (failure x t) h = h.0

pub expire-Good : (s : State) → Bounded s.lease → Good (expire s)
unfolding expire
expire-Good s b = expire_lease-Good s.lease s refl b

pub stop-Good : (s : State) → Bounded s.lease → Good (stop s)
unfolding stop stop_timers
stop-Good s b = release-Good (record s { timer = none; watching = false }) b

module _ (is_ip : Text → Bool) where
  adopt-Good : (saved : Lease) (s : State) → Bounded (some saved) → Good (adopt is_ip saved s)
  unfolding adopt
  adopt-Good saved s b = go (release t) (release-Good t b)
    where
      t : State
      t = record s { lease = some saved }

      go :
          (o : Outcome (Unit {0}))
          → Good o
          → Good {A = Unit {0}} (elim o [
            | done _ t ↦ done tt t
            | failure e t ↦ failure e (record t { timer = some (t.now + retry_interval) })
          ])
      go (done _ t) h = h
      go (failure e t) h = h

  record_valid-Bounded : (l : Lease) → record_valid is_ip l ≡ true → Bounded (some l)
  unfolding record_valid
  record_valid-Bounded l h = (ground arith, ground arith)

  recover_from-Good :
      (saved : Option Lease) (s : State) → Bounded s.lease → Good (recover_from is_ip saved s)
  unfolding recover_from
  recover_from-Good none s b = b
  recover_from-Good (some saved) s b = elim (Bool-cases (record_valid is_ip saved)) [
    | inl valid ↦ rw valid (adopt-Good saved s (record_valid-Bounded saved valid))
    | inr invalid ↦ rw invalid (b, λ e. cc)
  ]

  pub recover-Good : (s : State) → Bounded s.lease → Good (recover is_ip s)
  unfolding recover
  recover-Good s b =
      Good-bind (consult (λ s. s.disk) record_unreadable s) _
        (Quiet-Good s.lease _ b (consult-Post _ _ _ _ s refl (refl, λ e. cc)))
        (λ saved t b'. recover_from-Good saved t b')

  -- A directory that cannot be made or protected leaves the lease as it is.
  directory-Good : (s : State) → Bounded s.lease → Good (attempt (λ s. s) no_directory s)
  directory-Good s b = attempt-Post _ _ _ _ s b (b, λ e. cc) (b, λ e. cc)

  pub configure-Good : (s : State) → Bounded s.lease → Good (configure is_ip s)
  unfolding configure
  configure-Good s b =
      Good-bind (attempt (λ s. s) no_directory (record s { configured = true })) _
        (directory-Good (record s { configured = true }) b)
        (λ _ t b'.
          Good-bind (attempt (λ s. s) no_directory t) _ (directory-Good t b')
            (λ _ u b''. recover-Good u b''))
