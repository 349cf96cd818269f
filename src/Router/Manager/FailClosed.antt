-- ===== src/Router/Manager/FailClosed.antt =====
-- What `Reconcile` of processrouter/manager.go leaves in the router process.
use kokorobox_service.Common.{
  ap, All, subst, is_none, ℕ, ◌≡◌, refl, ◌∙◌, Bool, true, false, not, ◌&&◌, ◌||◌, Option, none,
  some, if◌then◌else◌, ok, err, arith,
}
use kokorobox_service.Router.Requests.{RulesRequest}
use kokorobox_service.Router.Commands.{RouterCommand, build_router_command, has_proxy_rules}
use kokorobox_service.Router.Manager.{
  reconcile, not_intact, unsupported, expire_lease_locked, starting, no_firewall,
  lease_active_locked, reconcile_supported, forget_dead, not_started, with_firewall, run_process,
  ensure_firewall_locked, Native, Manager, Answers, Outcome, running, blocked, set_error_locked,
  stop_process_locked, remove_firewall_locked, update_proxy_health_locked, same_policy, send_policy,
  not_sent,
}
use kokorobox_service.Router.Requests.Normal.{IsSettled}
use kokorobox_service.Router.Commands.FailClosed.{normal_fails_closed, NotProxied}

-- A policy that is recorded as active is the one of the current generation, and the process has its rules.
abbrev pub Synced : Option (ℕ × Bool) → Option Native → RulesRequest → ℕ → Type 0
Synced none process rules generation = Unit {0}
Synced (some (g, available)) none rules generation = ⊥
Synced (some (g, available)) (some p) rules generation =
    (p.loaded ≡ some (build_router_command rules available)) × (g ≡ generation)

abbrev pub IsSynced : Manager → Type 0
IsSynced m = Synced m.active_policy m.process m.rules m.generation

available_of : RulesRequest → Bool → Bool
available_of rules probes = not (has_proxy_rules rules) || probes

-- What a success leaves: the process has the rules, as the proxy is available.
abbrev Delivered : RulesRequest → Bool → Outcome → Type 0
Delivered rules probes (m, err e) = Unit {0}
Delivered rules probes (m, ok _) =
    (p : Native) × (m.process ≡ some p)
    × (p.loaded ≡ some (build_router_command rules (available_of rules probes)))
    × (m.state
        ≡ (if has_proxy_rules rules && not (available_of rules probes) then blocked else running))

health_process : (r v : Bool) (m : Manager) → (update_proxy_health_locked r v m).process ≡ m.process
unfolding update_proxy_health_locked
health_process true true m = refl
health_process true false m = refl
health_process false v m = refl

health_state :
    (r v : Bool) (m : Manager)
    → (update_proxy_health_locked r v m).state ≡ (if r && not v then blocked else running)
unfolding update_proxy_health_locked
health_state true true m = refl
health_state true false m = refl
health_state false v m = refl

same_loaded :
    (o : Option (ℕ × Bool)) (p : Native) (rules : RulesRequest) (generation : ℕ) (available : Bool)
    → same_policy o generation available ≡ true
    → Synced o (some p) rules generation
    → p.loaded ≡ some (build_router_command rules available)
unfolding same_policy
same_loaded none p rules generation available h s = cc
same_loaded (some (g, true)) p rules generation true h s = s.0
same_loaded (some (g, true)) p rules generation false h s = ground (arith, h)
same_loaded (some (g, false)) p rules generation true h s = ground (arith, h)
same_loaded (some (g, false)) p rules generation false h s = s.0

send_policy-Delivered :
    (a : Answers) (p : Native) (m : Manager)
    → m.process ≡ some p
    → Synced m.active_policy (some p) m.rules m.generation
    → Delivered m.rules a.probes (send_policy a p m)
unfolding send_policy available_of
send_policy-Delivered a p m e s =
    go (same_policy m.active_policy m.generation (not (has_proxy_rules m.rules) || a.probes)) refl
      a.acknowledges
  where
    r : Bool
    r = has_proxy_rules m.rules

    v : Bool
    v = not (has_proxy_rules m.rules) || a.probes

    m' : Manager
    m' = record m {
      process = some (record p { loaded = some (build_router_command m.rules v) });
      active_policy = some (m.generation, v);
    }

    go :
        (b : Bool)
        → same_policy m.active_policy m.generation v ≡ b
        → (k : Bool)
        → Delivered m.rules a.probes (
            if b
            then (update_proxy_health_locked r v m, ok tt)
            else if k
            then (update_proxy_health_locked r v m', ok tt)
            else (
              set_error_locked not_sent (remove_firewall_locked a (stop_process_locked m)),
              err not_sent,
            ))
    go true q k = (
      p,
      health_process r v m ∙ e,
      same_loaded m.active_policy p m.rules m.generation v q s,
      health_state r v m,
    )
    go false q true = (
      record p { loaded = some (build_router_command m.rules v) },
      health_process r v m',
      refl,
      health_state r v m',
    )
    go false q false = tt

run_process-Delivered :
    (a : Answers) (m : Manager) → IsSynced m → Delivered m.rules a.probes (run_process a m)
unfolding run_process
run_process-Delivered a m s = go m.process refl s a.starts
  where
    fresh_process : Native
    fresh_process = record { alive = true; loaded = none }

    go :
        (o : Option Native)
        → m.process ≡ o
        → Synced m.active_policy o m.rules m.generation
        → (b : Bool)
        → Delivered m.rules a.probes (elim o [
          | some p ↦ send_policy a p m
          | none ↦
              if b
              then send_policy a fresh_process
                  (record m { process = some fresh_process; active_policy = none })
              else (set_error_locked not_started (remove_firewall_locked a m), err not_started)
        ])
    go (some p) e s b = send_policy-Delivered a p m e s
    go none e s true =
        send_policy-Delivered a fresh_process
          (record m { process = some fresh_process; active_policy = none }) refl tt
    go none e s false = tt

-- The firewall is looked after without a change of the process or of the rules.
pub ensure_frame :
    (a : Answers) (force : Bool) (m : Manager)
    → let m' = (ensure_firewall_locked a force m).0 in
      (m'.rules ≡ m.rules) × (IsSynced m → IsSynced m')
unfolding ensure_firewall_locked
ensure_frame a force m = ground arith

with_firewall-Delivered :
    (a : Answers) (m : Manager) → IsSynced m → Delivered m.rules a.probes (with_firewall a m)
unfolding with_firewall
with_firewall-Delivered a m s = go (ensure_firewall_locked a (is_none m.process) m).1
  where
    m' : Manager
    m' = (ensure_firewall_locked a (is_none m.process) m).0

    go :
        (b : Bool)
        → Delivered m.rules a.probes (
            if b
            then run_process a m'
            else (set_error_locked no_firewall (stop_process_locked m'), err no_firewall))
    go true =
        let (same, kept) = ensure_frame a (is_none m.process) m in
        subst (λ rules. Delivered rules a.probes (run_process a m')) same
          (run_process-Delivered a m' (kept s))
    go false = tt

reconcile_supported-Delivered :
    (a : Answers) (m : Manager) → IsSynced m → Delivered m.rules a.probes (reconcile_supported a m)
unfolding reconcile_supported
reconcile_supported-Delivered a m s = go m.process a.intact
  where
    m' : Manager
    m' = record m { state = starting }

    go :
        (o : Option Native) (b : Bool)
        → Delivered m.rules a.probes (elim o [
          | some p ↦ with_firewall a m
          | none ↦
              if b then with_firewall a m' else (set_error_locked not_intact m', err not_intact)
        ])
    go (some p) b = with_firewall-Delivered a m s
    go none true = with_firewall-Delivered a m' s
    go none false = tt

pub forget_dead-IsSynced : (m : Manager) → IsSynced m → IsSynced (forget_dead m)
unfolding forget_dead
forget_dead-IsSynced m s = go m.process refl
  where
    dropped : Manager
    dropped = record m { process = none; active_policy = none }

    test : (b : Bool) → IsSynced (if b then m else dropped)
    test true = s
    test false = tt

    go :
        (o : Option Native)
        → m.process ≡ o
        → IsSynced (elim o [ none ↦ m | some p ↦ if p.alive then m else dropped ])
    go none e = s
    go (some p) e = test p.alive

forget_dead_rules : (m : Manager) → (forget_dead m).rules ≡ m.rules
unfolding forget_dead
forget_dead_rules m = ground arith

Delivered-ok :
    (rules : RulesRequest) (probes : Bool) (o : Outcome)
    → Delivered rules probes o
    → o.1 ≡ ok tt
    → (p : Native) × (o.0.process ≡ some p)
      × (p.loaded ≡ some (build_router_command rules (available_of rules probes)))
      × (o.0.state
          ≡ (if has_proxy_rules rules && not (available_of rules probes) then blocked else running))
Delivered-ok rules probes (m, err e) d h = cc
Delivered-ok rules probes (m, ok _) d h = d

reconcile-Delivered :
    (a : Answers) (m : Manager)
    → m.desired ≡ true
    → lease_active_locked a m ≡ true
    → IsSynced m
    → Delivered m.rules a.probes (reconcile a m)
unfolding reconcile
reconcile-Delivered a m desired active s =
    go m.desired desired (lease_active_locked a m) active a.supported
  where
    go :
        (d : Bool)
        → d ≡ true
        → (l : Bool) → l ≡ true
        → (b : Bool)
        → Delivered m.rules a.probes (
            if not d
            then (m, ok tt)
            else if not l
            then expire_lease_locked a m
            else if not b
            then (set_error_locked unsupported m, err unsupported)
            else reconcile_supported a (forget_dead m))
    go false p l q b = cc
    go true p false q b = cc
    go true p true q false = tt
    go true p true q true =
        subst (λ rules. Delivered rules a.probes (reconcile_supported a (forget_dead m)))
          (forget_dead_rules m)
          (reconcile_supported-Delivered a (forget_dead m) (forget_dead-IsSynced m s))

-- After a Reconcile that succeeds while routing is wanted, the lease is active, the rules are those of an accepted
-- request that has proxy rules, and the probe of the proxy fails, the state is blocked and the router process holds a
-- command in which no rule sends a program to the proxy, if what was recorded as sent before was what it held.
pub reconcile_fails_closed :
    (a : Answers) (m : Manager)
    → m.desired ≡ true
    → lease_active_locked a m ≡ true
    → IsSynced m
    → IsSettled m.rules
    → has_proxy_rules m.rules ≡ true
    → a.probes ≡ false
    → (reconcile a m).1 ≡ ok tt
    → ((reconcile a m).0.state ≡ blocked)
      × ((p : Native) × (c : RouterCommand) × ((reconcile a m).0.process ≡ some p)
          × (p.loaded ≡ some c)
          × All NotProxied c.rules)
unfolding available_of
reconcile_fails_closed a m desired active s normal proxied down success =
    let (p, e, loaded, state) =
      Delivered-ok m.rules a.probes (reconcile a m) (reconcile-Delivered a m desired active s)
        success in
    let away : available_of m.rules a.probes ≡ false = ground (arith, proxied, down) in
    (
      state ∙ ground (arith, proxied, down),
      (
        p,
        build_router_command m.rules false,
        e,
        loaded ∙ ap (λ v. some (build_router_command m.rules v)) away,
        normal_fails_closed m.rules normal,
      ),
    )
