-- ===== src/Router/Manager/Synced.antt =====
-- The recorded policy of processrouter/manager.go through its operations.
use kokorobox_service.Common.{
  ◌&&◌, ◌||◌, not, ◌+◌, ◌%◌, ◌^◌, refl, ◌||◌, Result, ok, not, Text, err, is_none, Bool, true,
  false, Option, none, some, if◌then◌else◌,
}
use kokorobox_service.Router.Manager.{
  stops_process, removes_firewall, not_stopped, set_error_locked, forget_dead, expire_lease_locked,
  reconcile_supported, run_process, send_policy, with_firewall, same_policy, ensure_firewall_locked,
  lease_active_locked, ManagerError, Outcome, reconcile, starting, stopped, not_sent, not_started,
  no_firewall, not_intact, unsupported, no_enabled_rule, not_persisted, invalid_rules, Native,
  Manager, Answers, stop_process_locked, remove_firewall_locked, update_proxy_health_locked,
}
use kokorobox_service.Router.Manager.Lifecycle.{
  cleanup, repair_firewall, repaired, close, default_rules, renew_lease, disable, enable,
  replace_rules, put_rules,
}
use kokorobox_service.Router.Manager.FailClosed.{ensure_frame, forget_dead-IsSynced, IsSynced}
use kokorobox_service.Router.Commands.{build_router_command, has_enabled_rules, has_proxy_rules}
use kokorobox_service.Router.Requests.{normalize_rules_request, RouterError, RulesRequest}

health-IsSynced :
    (r v : Bool) (m : Manager) → IsSynced m → IsSynced (update_proxy_health_locked r v m)
unfolding update_proxy_health_locked
health-IsSynced true true m s = s
health-IsSynced true false m s = s
health-IsSynced false v m s = s

stop-IsSynced : (m : Manager) → IsSynced m → IsSynced (stop_process_locked m)
unfolding stop_process_locked
stop-IsSynced m s = go m.process
  where
    go :
        (o : Option Native)
        → IsSynced
            (elim o [ none ↦ m | some p ↦ record m { process = none; active_policy = none } ])
    go none = s
    go (some p) = tt

remove-IsSynced : (a : Answers) (m : Manager) → IsSynced m → IsSynced (remove_firewall_locked a m)
unfolding remove_firewall_locked
remove-IsSynced a m s = go m.firewall_cleaned
  where
    go :
        (b : Bool)
        → IsSynced (
            if b then m else record m {
              firewall_ready = false;
              last_firewall_check = none;
              firewall_cleaned = a.removes;
            })
    go true = s
    go false = s

error-IsSynced : (e : ManagerError) (m : Manager) → IsSynced m → IsSynced (set_error_locked e m)
unfolding set_error_locked
error-IsSynced e m s = s

send_policy-IsSynced :
    (a : Answers) (p : Native) (m : Manager) → IsSynced m → IsSynced (send_policy a p m).0
unfolding send_policy
send_policy-IsSynced a p m s = go (same_policy m.active_policy m.generation v) a.acknowledges
  where
    r : Bool
    r = has_proxy_rules m.rules

    v : Bool
    v = not (has_proxy_rules m.rules) || a.probes

    m' : Manager
    m' = record m {
      process = some (record p { loaded = some (build_router_command m.rules v) });
      active_policy = some (m.generation, v);
    }

    failed : Outcome
    failed =
        (set_error_locked not_sent (remove_firewall_locked a (stop_process_locked m)), err not_sent)

    go :
        (b k : Bool)
        → IsSynced
            (if b
              then (update_proxy_health_locked r v m, ok tt)
              else if k
              then (update_proxy_health_locked r v m', ok tt)
              else failed).0
    go true k = health-IsSynced r v m s
    go false true = health-IsSynced r v m' (refl, refl)
    go false false =
        error-IsSynced not_sent _ (remove-IsSynced a (stop_process_locked m) (stop-IsSynced m s))

run_process-IsSynced : (a : Answers) (m : Manager) → IsSynced m → IsSynced (run_process a m).0
unfolding run_process
run_process-IsSynced a m s = go m.process a.starts
  where
    fresh_process : Native
    fresh_process = record { alive = true; loaded = none }

    started : Manager
    started = record m { process = some fresh_process; active_policy = none }

    failed : Outcome
    failed = (set_error_locked not_started (remove_firewall_locked a m), err not_started)

    go :
        (o : Option Native) (b : Bool)
        → let result : Outcome = elim o [
          | some p ↦ send_policy a p m
          | none ↦ if b then send_policy a fresh_process started else failed
        ] in
          IsSynced result.0
    go (some p) b = send_policy-IsSynced a p m s
    go none true = send_policy-IsSynced a fresh_process started tt
    go none false = error-IsSynced not_started (remove_firewall_locked a m) (remove-IsSynced a m s)

with_firewall-IsSynced : (a : Answers) (m : Manager) → IsSynced m → IsSynced (with_firewall a m).0
unfolding with_firewall
with_firewall-IsSynced a m s = go (ensure_firewall_locked a (is_none m.process) m).1
  where
    m' : Manager
    m' = (ensure_firewall_locked a (is_none m.process) m).0

    kept : IsSynced m'
    kept = (ensure_frame a (is_none m.process) m).1 s

    failed : Outcome
    failed = (set_error_locked no_firewall (stop_process_locked m'), err no_firewall)

    go : (b : Bool) → IsSynced (if b then run_process a m' else failed).0
    go true = run_process-IsSynced a m' kept
    go false = error-IsSynced no_firewall (stop_process_locked m') (stop-IsSynced m' kept)

reconcile_supported-IsSynced :
    (a : Answers) (m : Manager) → IsSynced m → IsSynced (reconcile_supported a m).0
unfolding reconcile_supported
reconcile_supported-IsSynced a m s = go m.process a.intact
  where
    m' : Manager
    m' = record m { state = starting }

    failed : Outcome
    failed = (set_error_locked not_intact m', err not_intact)

    go :
        (o : Option Native) (b : Bool)
        → let result : Outcome = elim o [
          | some p ↦ with_firewall a m
          | none ↦ if b then with_firewall a m' else failed
        ] in
          IsSynced result.0
    go (some p) b = with_firewall-IsSynced a m s
    go none true = with_firewall-IsSynced a m' s
    go none false = error-IsSynced not_intact m' s

reconcile-IsSynced : (a : Answers) (m : Manager) → IsSynced m → IsSynced (reconcile a m).0
unfolding reconcile expire_lease_locked
reconcile-IsSynced a m s = go m.desired (lease_active_locked a m) a.supported
  where
    ended : Outcome
    ended = expire_lease_locked a m

    failed : Outcome
    failed = (set_error_locked unsupported m, err unsupported)

    quiet : Manager
    quiet = record m { state = stopped; mihomo_ready = false; last_error = none }

    go :
        (d l b : Bool)
        → IsSynced
            (if not d
              then (m, ok tt)
              else if not l
              then ended
              else if not b
              then failed
              else reconcile_supported a (forget_dead m)).0
    go false l b = s
    go true false b = remove-IsSynced a (stop_process_locked quiet) (stop-IsSynced quiet s)
    go true true false = error-IsSynced unsupported m s
    go true true true = reconcile_supported-IsSynced a (forget_dead m) (forget_dead-IsSynced m s)

-- An operation of the manager, with what the system answers.
pub data Operation : Type 0 where
  replacing : Text → RulesRequest → Operation
  cleaning : Text → Operation
  enabling disabling renewing reconciling repairing closing : Operation

unfoldable pub operate : Answers → Operation → Manager → Manager
operate a (replacing goos request) m = (replace_rules a goos request m).0
operate a enabling m = (enable a m).0
operate a disabling m = (disable a m).0
operate a renewing m = renew_lease a m
operate a reconciling m = (reconcile a m).0
operate a (cleaning goos) m = (cleanup a goos m).0
operate a repairing m = (repair_firewall a m).0
operate a closing m = (close a m).0

repaired-IsSynced : (o : Manager × Bool) → IsSynced o.0 → IsSynced (repaired o).0
unfolding repaired
repaired-IsSynced (m, true) s = s
repaired-IsSynced (m, false) s = go m.desired
  where
    go :
        (b : Bool)
        → IsSynced (if b then set_error_locked no_firewall (stop_process_locked m) else m)
    go true = error-IsSynced no_firewall (stop_process_locked m) (stop-IsSynced m s)
    go false = s

repair_firewall-IsSynced :
    (a : Answers) (m : Manager) → IsSynced m → IsSynced (repair_firewall a m).0
unfolding repair_firewall
repair_firewall-IsSynced a m s = go a.supported a.intact
  where
    m' : Manager
    m' = record m { last_contact = some a.now }

    refused : Outcome
    refused = (m', err not_intact)

    go :
        (x y : Bool)
        → IsSynced
            (if not x
              then (m, err unsupported)
              else if not y
              then refused
              else repaired (ensure_firewall_locked a true m')).0
    go false y = s
    go true false = s
    go true true =
        repaired-IsSynced (ensure_firewall_locked a true m') ((ensure_frame a true m').1 s)

close-IsSynced : (a : Answers) (m : Manager) → IsSynced m → IsSynced (close a m).0
unfolding close
close-IsSynced a m s = go (m.desired || not (is_none m.process) || m.firewall_ready)
  where
    m' : Manager
    m' = stop_process_locked m

    idle : Outcome
    idle = (m', (if stops_process a m then ok tt else err not_stopped))

    active : Outcome
    active = (
      remove_firewall_locked a m',
      (if stops_process a m && removes_firewall a m then ok tt else err not_stopped),
    )

    go : (b : Bool) → IsSynced (if not b then idle else active).0
    go false = stop-IsSynced m s
    go true = remove-IsSynced a m' (stop-IsSynced m s)

-- Every operation keeps the recorded policy in step: what is recorded as sent is what the process holds, for the
-- rules and the generation that the manager then has, whatever the system answers.
pub operate-IsSynced :
    (a : Answers) (o : Operation) (m : Manager) → IsSynced m → IsSynced (operate a o m)
unfolding operate replace_rules put_rules enable disable renew_lease cleanup
operate-IsSynced a reconciling m s = reconcile-IsSynced a m s
operate-IsSynced a renewing m s = renewed m.desired
  where
    renewed : (b : Bool) → IsSynced (if b then record m { last_contact = some a.now } else m)
    renewed true = s
    renewed false = s
operate-IsSynced a disabling m s =
    let quiet : Manager = record m {
      desired = false;
      active_policy = none;
      state = stopped;
      mihomo_ready = false;
      last_error = none;
    } in
    remove-IsSynced a (stop_process_locked quiet) (stop-IsSynced quiet tt)
operate-IsSynced a enabling m s = go a.supported (has_enabled_rules m.rules) a.persists
  where
    m' : Manager
    m' = record m { desired = true; firewall_cleaned = false; last_contact = some a.now }

    go :
        (x y z : Bool)
        → let result : Outcome =
            if not x
            then (m, err unsupported)
            else if not y
            then (m, err no_enabled_rule)
            else if z
            then reconcile a m'
            else (m', err not_persisted) in
          IsSynced result.0
    go false y z = s
    go true false z = s
    go true true true = reconcile-IsSynced a m' s
    go true true false = s
operate-IsSynced a (replacing goos request) m s = go (normalize_rules_request goos request)
  where
    go :
        (o : Result RouterError RulesRequest)
        → let result : Outcome = elim o [
          | err e ↦ (m, err (invalid_rules e))
          | ok rules ↦
              if not a.persists
              then (put_rules a rules m, err not_persisted)
              else if m.desired
              then reconcile a (put_rules a rules m)
              else (put_rules a rules m, ok tt)
        ] in
          IsSynced result.0
    go (err e) = s
    go (ok rules) = placed a.persists m.desired
      where
        m' : Manager
        m' = put_rules a rules m

        placed :
            (x y : Bool)
            → let result : Outcome =
                if not x
                then (m', err not_persisted)
                else if y
                then reconcile a m'
                else (m', ok tt) in
              IsSynced result.0
        placed false y = tt
        placed true true = reconcile-IsSynced a m' tt
        placed true false = tt
operate-IsSynced a (cleaning goos) m s =
    let quiet : Manager = record m {
      desired = false;
      rules = default_rules goos;
      generation = (m.generation + 1) % 2 ^ 64;
      active_policy = none;
      state = stopped;
      mihomo_ready = false;
      last_error = none;
    } in
    remove-IsSynced a (stop_process_locked quiet) (stop-IsSynced quiet tt)
operate-IsSynced a repairing m s = repair_firewall-IsSynced a m s
operate-IsSynced a closing m s = close-IsSynced a m s
