-- ===== src/Dns/Recovery.antt =====
-- `recover` of route/dnsapi/lease.go after a crash, when no call of the system fails any more.
pub mod Survival
use kokorobox_service.Common.{
  ◌+◌, ◌≡◌, refl, sym, ◌∙◌, ap, subst, Bool, true, false, not, ◌||◌, Option, none, some, List, [],
  ◌∷◌, Text, text_eq, text_eq→eq, is_empty, inl, inr, Bool-cases, if◌then◌else◌, all,
}
use kokorobox_service.Dns.Lease.{
  ◌>>=◌, not_configured, record_invalid, retry_interval, fail, DnsService, Servers, Entry, Lease,
  State, DnsError, Outcome, done, failure, after, attempt, consult, next_fault, later_faults, drawn,
  works, fails, fails_late, Fault, servers_eq, get_dns, set_dns, remove_record, put_lease,
  stop_timers, restore, restore_to, restore_all, keep_failed, active_dns_service, found,
  no_active_service, record_unreadable,
}
use kokorobox_service.Dns.Operations.{
  settle, release_lease, release, install_lease, copy_servers, acquire, set_over, set,
  validate_servers, original_valid, entry_valid, record_valid, adopt, recover_from, recover,
}
use kokorobox_service.Dns.Bounds.{Post, Post-bind, Post-mono, consult-Post}
use kokorobox_service.Dns.Crash.{
  Held, Recoverable, Holding, Throughout, entry_of, restore-Holding, install_lease-Recoverable,
  Throughout-after,
}
use kokorobox_service.Dns.Reach.{restart}

attempt-works :
    (effect : State → State) (e : DnsError) (s : State)
    → s.faults ≡ []
    → attempt effect e s ≡ done tt (effect (drawn s))
unfolding attempt next_fault
attempt-works effect e s none_left = go (next_fault s.faults) (ap next_fault none_left)
  where
    go :
        (f : Fault)
        → f ≡ works
        → ◌≡◌ {A = Outcome (Unit {0})}
            (elim f [
              | Fault.works ↦ done tt (effect (drawn s))
              | Fault.fails ↦ failure e (drawn s)
              | Fault.fails_late ↦ failure e (effect (drawn s))
            ])
            (done tt (effect (drawn s)))
    go works p = refl
    go fails p = cc
    go fails_late p = cc

consult-works :
    {A : Type 0} (read : State → A) (e : DnsError) (s : State)
    → s.faults ≡ []
    → consult read e s ≡ done (read s) (drawn s)
unfolding consult next_fault
consult-works {A} read e s none_left = go (next_fault s.faults) (ap next_fault none_left)
  where
    go :
        (f : Fault)
        → f ≡ works
        → ◌≡◌ {A = Outcome A}
            (elim f [ Fault.works ↦ done (read s) (drawn s) | _ ↦ failure e (drawn s) ])
            (done (read s) (drawn s))
    go works p = refl
    go fails p = cc
    go fails_late p = cc

-- The step succeeds, with no fault left.
abbrev Works : {A : Type 0} → (A → State → Type 0) → Outcome A → Type 0
Works Q = Post (λ a t. Q a t × (t.faults ≡ [])) (λ _ _. ⊥)

drained : (s : State) → s.faults ≡ [] → (drawn s).faults ≡ []
unfolding later_faults
drained s h = ap later_faults h

attempt-Works :
    (P : State → Type 0) (effect : State → State) (e : DnsError) (s : State)
    → s.faults ≡ []
    → (effect (drawn s)).faults ≡ (drawn s).faults
    → P (effect (drawn s))
    → Works (λ _ t. P t) (attempt effect e s)
attempt-Works P effect e s h k p =
    subst (Works (λ _ t. P t)) (sym (attempt-works effect e s h)) (p, k ∙ drained s h)

consult-Works :
    {A : Type 0} (P : A → State → Type 0) (read : State → A) (e : DnsError) (s : State)
    → s.faults ≡ []
    → P (read s) (drawn s)
    → Works P (consult read e s)
consult-Works P read e s h p = subst (Works P) (sym (consult-works read e s h)) (p, drained s h)

restore-Works :
    (item : Entry) (s : State) → s.faults ≡ [] → Works (λ _ _. Unit {0}) (restore item s)
unfolding restore restore_to get_dns set_dns
restore-Works item s h =
    Post-bind (λ _ t. Unit {0} × (t.faults ≡ [])) (λ _ _. ⊥) (λ _ t. Unit {0} × (t.faults ≡ []))
      (get_dns item.service.name s) _ (consult-Works (λ _ _. Unit {0}) _ _ s h tt)
      (λ current t k.
        go (not (servers_eq current item.desired) || servers_eq current item.original) t k.1)
  where
    go :
        (b : Bool) (t : State)
        → t.faults ≡ []
        → Works
            (λ _ _. Unit {0})
            ((if b then (λ s. done tt s) else set_dns item.service.name item.original) t)
    go true t k = (tt, k)
    go false t k = attempt-Works (λ _. Unit {0}) _ _ t k refl tt

Post-and :
    {A : Type 0} (Q Q' : A → State → Type 0) (R R' : DnsError → State → Type 0) (o : Outcome A)
    → Post Q R o
    → Post Q' R' o
    → Post (λ a t. Q a t × Q' a t) (λ e t. R e t × R' e t) o
Post-and Q Q' R R' (done a t) h k = (h, k)
Post-and Q Q' R R' (failure e t) h k = (h, k)

module _ (before : Text → Servers) (service : DnsService) (original servers : Servers) where
  -- Every setting is as it was.
  abbrev Undone : State → Type 0
  Undone t =
      ((n : Text) → text_eq n service.name ≡ false → t.settings n ≡ before n)
      × (t.settings service.name ≡ original)

  restore-Undone :
      (b : Bool) (s : State)
      → Holding before service original servers s
      → s.faults ≡ []
      → Works (λ _ t. Undone t) (restore (entry_of before service original servers b) s)
  restore-Undone b s h k =
      Post-mono _ _ _ _ (restore (entry_of before service original servers b) s)
        (Post-and _ _ _ _ (restore (entry_of before service original servers b) s)
          (restore-Holding before service original servers b s h)
          (restore-Works (entry_of before service original servers b) s k))
        (λ _ t p. ((p.0.0.0.0, p.0.1), p.1.1)) (λ _ t p. p.1)

  one_restored :
      (item : Entry) (o : Outcome (Unit {0}))
      → Works (λ _ t. Undone t) o
      → Works (λ rest t. (rest ≡ []) × Undone t) (keep_failed item o (done [] (after o)))
  unfolding keep_failed
  one_restored item (done _ t) (u, k) = ((refl, u), k)
  one_restored item (failure _ t) h = absurd h

  settle-Undone :
      (l : Lease) (rest : List Entry) (s : State)
      → rest ≡ []
      → Undone s
      → s.faults ≡ []
      → Works (λ _ t. Undone t) (settle l rest s)
  unfolding settle put_lease stop_timers remove_record
  settle-Undone l [] s e u k =
      attempt-Works Undone _ _ (record s { lease = none; timer = none; watching = false }) k refl u
  settle-Undone l (x ∷ xs) s e u k = cc

  release-Undone :
      (s : State)
      → Holding before service original servers s
      → s.faults ≡ []
      → Works (λ _ t. Undone t) (release s)
  unfolding release release_lease restore_all
  release-Undone s (r, d, h) k = go s.lease refl h
    where
      go :
          (l : Option Lease)
          → s.lease ≡ l
          → Held before service original servers l
          → Works (λ _ t. Undone t) (release_lease l s)
      go none p h = absurd h
      go (some l) p (v, (b, e)) =
          Post-bind (λ rest t. ((rest ≡ []) × Undone t) × (t.faults ≡ [])) (λ _ _. ⊥)
            (λ _ t. Undone t × (t.faults ≡ [])) (restore_all l.entries s) _
            (rw e (
              one_restored (entry_of before service original servers b)
                (restore (entry_of before service original servers b) s)
                (restore-Undone b s (r, d, rw p (v, (b, e))) k)))
            (λ rest t q. settle-Undone l rest t q.0.0 q.0.1 q.1)

  module _ (is_ip : Text → Bool) (id_there : is_empty service.id ≡ false)
      (name_there : is_empty service.name ≡ false)
      (desired_good : validate_servers is_ip servers ≡ true)
      (original_good : original_valid is_ip original ≡ true) where
    saved-valid :
        (l : Lease) → Held before service original servers (some l) → record_valid is_ip l ≡ true
    unfolding record_valid entry_valid all
    saved-valid l (v, (b, e)) =
        rw (v, e) (rw (id_there, name_there, desired_good, original_good) refl)

    saved-Held :
        (saved : Lease) (s : State)
        → s.disk ≡ some saved
        → Recoverable before service original servers s
        → Held before service original servers (some saved)
    saved-Held saved s p (away, inl (o, inl nothing)) = cc
    saved-Held saved s p (away, inl (o, inr h)) = subst (Held before service original servers) p h
    saved-Held saved s p (away, inr (w, h)) = subst (Held before service original servers) p h

    adopted-Undone :
        (o : Outcome (Unit {0}))
        → Works (λ _ t. Undone t) o
        → Undone (
            after {A = Unit {0}} (elim o [
              | done _ t ↦ done tt t
              | failure e t ↦ failure e (record t { timer = some (t.now + retry_interval) })
            ]))
    adopted-Undone (done _ t) (u, k) = u
    adopted-Undone (failure _ t) h = absurd h

    recover_from-Undone :
        (saved : Option Lease) (s : State)
        → Recoverable before service original servers s
        → s.disk ≡ saved
        → s.faults ≡ []
        → Undone (after (recover_from is_ip saved s))
    unfolding recover_from adopt
    recover_from-Undone none s (away, inl (o, _)) p k = (away, o)
    recover_from-Undone none s (away, inr (w, h)) p k =
        absurd (subst (Held before service original servers) p h)
    recover_from-Undone (some saved) s r p k =
        let held : Held before service original servers (some saved) = saved-Held saved s p r in
        let t : State = record s { lease = some saved } in
        subst (λ b. Undone (after ((if b then adopt is_ip saved else fail record_invalid) s)))
          (sym (saved-valid saved held))
          (adopted-Undone (release t) (
            release-Undone t (r, subst (Held before service original servers) (sym p) held, held)
              k))

    pub recover-Undone :
        (s : State)
        → Recoverable before service original servers s
        → s.faults ≡ []
        → Undone (after (recover is_ip s))
    unfolding recover
    recover-Undone s r k = go (consult (λ s. s.disk) record_unreadable s) (
        consult-Works (λ saved t. (saved ≡ t.disk) × Recoverable before service original servers t)
          _ _ s k (refl, r))
      where
        go :
            (o : Outcome (Option Lease))
            → Works (λ saved t. (saved ≡ t.disk) × Recoverable before service original servers t) o
            → Undone (
                after {A = Unit {0}} (elim o [
                  | done saved t ↦ recover_from is_ip saved t
                  | failure e t ↦ failure e t
                ]))
        go (done saved t) ((p, q), f) = recover_from-Undone saved t q (sym p) f
        go (failure e t) h = absurd h
