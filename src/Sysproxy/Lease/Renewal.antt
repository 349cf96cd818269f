-- ===== src/Sysproxy/Lease/Renewal.antt =====
-- A lease of the proxy settings holds until its deadline, and ends then (sysproxy_lease.go).
use kokorobox_service.Common.{
  ◌∙◌, ap, eq→eqb, sym, Bool, Option, subst, lt→ltb, ◌==◌, ◌+◌, arith, ltb→lt, ltb, by_test,
  Bool-cases, ◌≤◌, [], ◌<◌, ◌≡◌, false, true, inr, inl, some, none, refl, ℕ,
}
use kokorobox_service.Common.Effects.{
  later_faults, next_fault, attempt_with, Outcome, done, failure,
}
use kokorobox_service.Sysproxy.Snapshot.{guard_matches}
use kokorobox_service.Sysproxy.Lease.{
  lease_retry, ProxySystem, ProxyError, Lease, State, attempt, consult, session_options, stop_guard,
  remove_record, forget_lease, runner_query, runner_disable, release_to, release_of, release_lease,
  set_timer, expire_lease_of, expire_lease, expire_of, renew_lease, lease_duration, armed,
  clear_lease,
}
use kokorobox_service.Sysproxy.Lease.Expiry.{given_up}

module _ {Os : Type 0} (sys : ProxySystem Os) (l : Lease) where
  release_of_lem :
      (u : State Os)
      → u.faults ≡ []
      → release_of sys (some l) u
        ≡ done tt (record u {
          os = given_up sys l.mode l.expected (session_options l.runner l.opts) u.os;
        })
  unfolding release_of release_to runner_query runner_disable consult attempt attempt_with
      next_fault later_faults
  release_of_lem u calm =
      elim (Bool-cases
        (guard_matches l.mode l.expected (sys.query (session_options l.runner l.opts) u.os))) [
          | inl same ↦ rw (calm, release_to, same) refl
          | inr other ↦ rw (calm, release_to, other) refl
        ]

  abbrev Ended : State Os → State Os → Type 0
  Ended s t =
      (t.os ≡ given_up sys l.mode l.expected (session_options l.runner l.opts) s.os)
      × (t.lease ≡ none)
      × (t.disk ≡ none)
      × (t.guard_running ≡ false)

  expire_lease_of-Ended :
      (s : State Os)
      → s.lease ≡ some l
      → s.faults ≡ []
      → s.path_set ≡ true
      → l.deadline ≤ s.now
      → Ended s (expire_lease_of sys l s)
  unfolding expire_lease_of release_lease stop_guard forget_lease remove_record clear_lease attempt
      attempt_with next_fault later_faults
  expire_lease_of-Ended s held calm configured over =
      by_test (Ended s) (ltb s.now l.deadline)
        (λ early. absurd (let lt = ltb→lt s.now l.deadline early in omega arith))
        (λ _.
          subst
            (λ (o : Outcome ProxyError (State Os) (Unit {0})). Ended s (elim o [
              | done _ t ↦ forget_lease t
              | failure e t ↦ set_timer sys l (t.now + lease_retry) t
            ]))
            (sym
              (ap (λ o. release_of sys o (stop_guard s)) held ∙ release_of_lem (stop_guard s) calm))
            (forgotten
              (record (stop_guard s) {
                os = given_up sys l.mode l.expected (session_options l.runner l.opts) s.os;
              })
              calm configured))
    where
      forgotten :
          (u : State Os)
          → u.faults ≡ []
          → u.path_set ≡ true
          → ((forget_lease u).os ≡ u.os)
            × ((forget_lease u).lease ≡ none)
            × ((forget_lease u).disk ≡ none)
            × ((forget_lease u).guard_running ≡ u.guard_running)
      forgotten u still ready = rw (still, ready) (refl, refl, refl, refl)

  renewed-holds :
      (s : State Os) (generation later : ℕ)
      → later < s.now + lease_duration
      → expire_of sys generation
          (some (armed l s.now))
          (record s { now = later; lease = some (armed l s.now) })
        ≡ record s { now = later; lease = some (armed l s.now) }
  unfolding expire_of expire_lease_of set_timer
  renewed-holds s generation later early =
      by_test (λ (t : State Os). t ≡ record s { now = later; lease = some (armed l s.now) })
        (l.generation == generation)
        (λ _.
          by_test (λ (t : State Os). t ≡ record s { now = later; lease = some (armed l s.now) })
            (ltb later (s.now + lease_duration)) (λ _. refl)
            (λ late. absurd (let e = lt→ltb later (s.now + lease_duration) early in cc)))
        (λ _. refl)

-- An expiry of the current lease at its deadline or later ends it, and takes back the proxy if the settings still are
-- those of the lease, and removes the record and stops the guard, if no call fails.
pub expired_lease_ends :
    {Os : Type 0} (sys : ProxySystem Os) (l : Lease) (s : State Os)
    → s.lease ≡ some l
    → s.faults ≡ []
    → s.path_set ≡ true
    → l.deadline ≤ s.now
    → let t = expire_lease sys l.generation s in
      (t.os ≡ given_up sys l.mode l.expected (session_options l.runner l.opts) s.os)
      × (t.lease ≡ none)
      × (t.disk ≡ none)
      × (t.guard_running ≡ false)
unfolding expire_lease expire_of
expired_lease_ends {Os} sys l s held calm configured over =
    subst (λ o. Ended sys l s (expire_of sys l.generation o s)) (sym held)
      (by_test (Ended sys l s) (l.generation == l.generation)
        (λ _. expire_lease_of-Ended sys l s held calm configured over)
        (λ differs. absurd (let e = eq→eqb l.generation l.generation refl in cc)))

-- After a renewal no expiry timer, of whatever lease, changes anything before the time of a lease has passed since.
pub renewed_lease_holds :
    {Os : Type 0} (sys : ProxySystem Os) (l : Lease) (s : State Os) (generation later : ℕ)
    → s.lease ≡ some l
    → later < s.now + lease_duration
    → let t = record (renew_lease s).1 { now = later } in expire_lease sys generation t ≡ t
unfolding expire_lease renew_lease
renewed_lease_holds {Os} sys l s generation later held early =
    subst
      (λ o. let t = record (renewed o) { now = later } in expire_of sys generation t.lease t ≡ t)
      (sym held) (renewed-holds sys l s generation later early)
  where
    renewed : Option Lease → State Os
    renewed o =
        (elim o as (λ _. Bool × State Os) [
          | none ↦ (false, s)
          | some l ↦ (true, record s { lease = some (armed l s.now) })
        ]).1
