-- ===== src/Sysproxy/Lease/Expiry.antt =====
-- How the proxy settings are given up when the lease ends (sysproxy_lease.go).
use kokorobox_service.Common.{
  if◌then◌else◌, ◌==◌, refl, ltb, ◌+◌, ap, sym, subst, ◌≡◌, by_test, false, some, none, ℕ,
}
use kokorobox_service.Common.Effects.{
  works, fails, fails_late, Fault, Outcome, done, failure, Post, Post-bind, Post-after, after,
  attempt_with-Post, next_fault,
}
use kokorobox_service.Sysproxy.Snapshot.{Options, GuardSnapshot, GuardMode, guard_matches}
use kokorobox_service.Sysproxy.Lease.{
  stop_of, expire_of, lease_retry, ProxySystem, ProxyError, Lease, State, attempt, consult,
  session_options, drawn, stop_guard, stop_managed_proxy_recovery, clear_lease, remove_record,
  forget_lease, runner_query, release_to, release_of, release_lease, set_timer, expire_lease_of,
  expire_lease, stop_managed_proxy, query_failed,
}

pub consult-Post :
    {Os A : Type 0} (P : A → State Os → Type 0) (Q : ProxyError → State Os → Type 0)
    (read : State Os → A) (e : ProxyError) (s : State Os)
    → P (read s) (drawn s)
    → Q e (drawn s)
    → Post P Q (consult read e s)
unfolding consult
consult-Post {Os} {A} P Q read e s p q = go (next_fault s.faults)
  where
    go :
        (f : Fault)
        → Post P Q (elim f [ works ↦ done (read s) (drawn s) | _ ↦ failure e (drawn s) ])
    go works = p
    go fails = q
    go fails_late = q

module _ {Os : Type 0} (sys : ProxySystem Os) (l : Lease) (os : Os) where
  -- The settings are not those of the lease.
  abbrev pub Changed : Type 0
  Changed = guard_matches l.mode l.expected (sys.query (session_options l.runner l.opts) os) ≡ false

  abbrev Untouched : State Os → Type 0
  Untouched t = t.os ≡ os

  forget_lease-Untouched : (s : State Os) → Untouched s → Untouched (forget_lease s)
  unfolding forget_lease remove_record clear_lease attempt
  forget_lease-Untouched s same =
      by_test (λ (o : Outcome ProxyError (State Os) (Unit {0})). Untouched (after o)) s.path_set
        (λ _. Post-after Untouched _ (
          attempt_with-Post Untouched Untouched (next_fault s.faults) _ _
            (drawn (record s { lease = none })) same same same))
        (λ _. same)

  release-Untouched :
      (s : State Os)
      → s.lease ≡ some l
      → Changed
      → Untouched s
      → Post (λ _. Untouched) (λ _. Untouched) (release_lease sys s)
  unfolding release_lease release_of release_to runner_query
  release-Untouched s held changed same =
      subst (λ o. Post (λ _. Untouched) (λ _. Untouched) (release_of sys o s)) (sym held)
        (Post-bind (λ c t. (c ≡ sys.query (session_options l.runner l.opts) os) × Untouched t)
          (λ _. Untouched) (λ _. Untouched) (runner_query sys l.runner l.opts s) _
          (consult-Post (λ c t. (c ≡ sys.query (session_options l.runner l.opts) os) × Untouched t)
            (λ _. Untouched) (λ t. sys.query (session_options l.runner l.opts) t.os) query_failed s
            (ap (sys.query (session_options l.runner l.opts)) same, same) same)
          (λ c t p.
            subst (λ c. Post (λ _. Untouched) (λ _. Untouched) (release_to sys l c t)) (sym p.0)
              (rw changed p.1)))

  expire_lease_of-Untouched :
      (s : State Os)
      → s.lease ≡ some l
      → Changed
      → Untouched s
      → Untouched (expire_lease_of sys l s)
  unfolding expire_lease_of set_timer stop_guard
  expire_lease_of-Untouched s held changed same =
      by_test Untouched (ltb s.now l.deadline) (λ _. same)
        (λ _.
          go (release_lease sys (stop_guard s))
            (release-Untouched (stop_guard s) held changed same))
    where
      go :
          (o : Outcome ProxyError (State Os) (Unit {0}))
          → Post (λ _. Untouched) (λ _. Untouched) o
          → Untouched (elim o [
            | done _ t ↦ forget_lease t
            | failure e t ↦ set_timer sys l (t.now + lease_retry) t
          ])
      go (done a t) p = forget_lease-Untouched t p
      go (failure e t) p = p

  stop_of-Untouched :
      (s : State Os)
      → s.lease ≡ some l
      → Changed
      → Untouched s
      → Untouched (after (stop_of sys (some l) s))
  unfolding stop_of clear_lease
  stop_of-Untouched s held changed same =
      go (release_lease sys s) (release-Untouched s held changed same)
    where
      go :
          (o : Outcome ProxyError (State Os) (Unit {0}))
          → Post (λ _. Untouched) (λ _. Untouched) o
          → Untouched (
              after (elim o as (λ _. Outcome ProxyError (State Os) (Unit {0})) [
                | done _ t ↦ done tt (forget_lease t)
                | failure e t ↦ failure e (clear_lease t)
              ]))
      go (done a t) p = forget_lease-Untouched t p
      go (failure e t) p = p

-- Where the settings are no longer those that the lease expects, as they are read for it, neither the end of the lease
-- nor the end of the service changes them, whatever calls fail.
pub changed_settings_stay :
    {Os : Type 0} (sys : ProxySystem Os) (l : Lease) (generation : ℕ) (s : State Os)
    → s.lease ≡ some l
    → Changed sys l s.os
    → ((expire_lease sys generation s).os ≡ s.os) × ((after (stop_managed_proxy sys s)).os ≡ s.os)
unfolding expire_lease expire_of stop_managed_proxy stop_guard stop_managed_proxy_recovery
changed_settings_stay {Os} sys l generation s held changed = (
  subst (λ o. (expire_of sys generation o s).os ≡ s.os) (sym held)
      (by_test (λ (t : State Os). t.os ≡ s.os) (l.generation == generation)
        (λ _. expire_lease_of-Untouched sys l s.os s held changed refl) (λ _. refl)),
  subst (λ o. (after (stop_of sys o stopped)).os ≡ s.os) (sym held)
      (stop_of-Untouched sys l s.os stopped held changed refl),
)
  where
    stopped : State Os
    stopped = stop_guard (stop_managed_proxy_recovery s)

-- The settings that are given back: what was found, without the proxy if it is the one that was taken.
abbrev pub given_up : {Os : Type 0} → ProxySystem Os → GuardMode → GuardSnapshot → Options → Os → Os
given_up sys mode expected options os =
    if guard_matches mode expected (sys.query options os) then sys.disable options os else os
