-- ===== src/Router/Manager/Lifecycle.antt =====
-- The operations of processrouter/manager.go that its clients call, but for `Reconcile`.
use kokorobox_service.Common.{
  text_eq, [], ◌+◌, ◌%◌, ◌^◌, Bool, true, false, not, ◌&&◌, ◌||◌, none, some, Text, if◌then◌else◌,
  ok, err, is_none,
}
use kokorobox_service.Common.Ints.{pos}
use kokorobox_service.Router.Requests.{linux, windows, RulesRequest, normalize_rules_request}
use kokorobox_service.Router.Commands.{has_enabled_rules}
use kokorobox_service.Router.Manager.{
  Outcome, set_error_locked, stop_process_locked, ensure_firewall_locked, remove_firewall_locked,
  stops_process, removes_firewall, reconcile, Manager, Answers, stopped, invalid_rules, unsupported,
  no_enabled_rule, not_persisted, not_stopped, no_firewall, not_intact,
}

-- `ReplaceRules`, `Enable` and `Disable`. The first two let go of the mutex before they reconcile.
unfoldable pub put_rules : Answers → RulesRequest → Manager → Manager
put_rules a rules m = record m {
  rules = rules;
  last_contact = some a.now;
  generation = (m.generation + 1) % 2 ^ 64;
  active_policy = none;
}

unfoldable pub replace_rules : Answers → Text → RulesRequest → Manager → Outcome
replace_rules a goos request m = elim (normalize_rules_request goos request) [
  | err e ↦ (m, err (invalid_rules e))
  | ok rules ↦
      let m' = put_rules a rules m in
      if not a.persists
      then (m', err not_persisted)
      else if m.desired
      then reconcile a m'
      else (m', ok tt)
]

unfoldable pub enable : Answers → Manager → Outcome
enable a m =
    if not a.supported
    then (m, err unsupported)
    else if not (has_enabled_rules m.rules)
    then (m, err no_enabled_rule)
    else (let m' : Manager = record m {
      desired = true;
      firewall_cleaned = false;
      last_contact = some a.now;
    } in
        if a.persists then reconcile a m' else (m', err not_persisted))

unfoldable pub disable : Answers → Manager → Outcome
disable a m = (
  remove_firewall_locked a (
      stop_process_locked (record m {
        desired = false;
        active_policy = none;
        state = stopped;
        mihomo_ready = false;
        last_error = none;
      })),
  (if a.persists && stops_process a m && removes_firewall a m then ok tt else err not_stopped),
)

unfoldable pub renew_lease : Answers → Manager → Manager
renew_lease a m = if m.desired then record m { last_contact = some a.now } else m

-- The defaults of `newManager` and `Cleanup`, by the operating system.
unfoldable pub default_rules : Text → RulesRequest
default_rules goos = record {
  version = pos 1;
  platform = if text_eq goos linux then linux else windows;
  proxy_port = if text_eq goos linux then pos 7894 else pos 7891;
  fail_closed = true;
  proxy_udp_dns = false;
  diagnostic_logging = false;
  rules = [];
}

unfoldable pub new_manager : Text → Manager
new_manager goos = record {
  firewall_ready = false;
  firewall_cleaned = false;
  last_firewall_check = none;
  process = none;
  rules = default_rules goos;
  desired = false;
  generation = 0;
  active_policy = none;
  state = stopped;
  mihomo_ready = false;
  last_error = none;
  last_contact = none;
}

-- `persists` tells whether the file of the configuration is removed.
unfoldable pub cleanup : Answers → Text → Manager → Outcome
cleanup a goos m = (
  remove_firewall_locked a (
      stop_process_locked (record m {
        desired = false;
        rules = default_rules goos;
        generation = (m.generation + 1) % 2 ^ 64;
        active_policy = none;
        state = stopped;
        mihomo_ready = false;
        last_error = none;
      })),
  (if stops_process a m && removes_firewall a m && a.persists then ok tt else err not_stopped),
)

unfoldable pub repaired : Manager × Bool → Outcome
repaired (m', true) = (m', ok tt)
repaired (m', false) = (
  (if m'.desired then set_error_locked no_firewall (stop_process_locked m') else m'),
  err no_firewall,
)

unfoldable pub repair_firewall : Answers → Manager → Outcome
repair_firewall a m =
    let m' : Manager = record m { last_contact = some a.now } in
    if not a.supported
    then (m, err unsupported)
    else if not a.intact
    then (m', err not_intact)
    else repaired (ensure_firewall_locked a true m')

-- `Close`, but for the monitor.
unfoldable pub close : Answers → Manager → Outcome
close a m =
    let stopped_manager = stop_process_locked m in
    if not (m.desired || not (is_none m.process) || m.firewall_ready)
    then (stopped_manager, (if stops_process a m then ok tt else err not_stopped))
    else (
      remove_firewall_locked a stopped_manager,
      (if stops_process a m && removes_firewall a m then ok tt else err not_stopped),
    )
