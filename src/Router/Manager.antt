-- ===== src/Router/Manager.antt =====
-- processrouter/manager.go and updateProxyHealthLocked of proxy_health.go. The mutex makes an operation one step.
-- What the system answers to one operation is an argument.
pub mod Lifecycle
pub mod FailClosed
pub mod Synced
use kokorobox_service.Common.{
  text_eq, List, [], ℕ, ◌+◌, ◌%◌, ◌^◌, Bool, true, false, not, ◌&&◌, ◌||◌, Option, none, some, Text,
  ltb, leb, ◌==◌, if◌then◌else◌, Result, ok, err, is_none,
}
use kokorobox_service.Common.Ints.{pos}
use kokorobox_service.Router.Requests.{
  linux, windows, RulesRequest, RouterError, normalize_rules_request,
}
use kokorobox_service.Router.Commands.{
  RouterCommand, build_router_command, has_proxy_rules, has_enabled_rules,
}

pub data RunState : Type 0 where
  stopped starting running blocked failed_state : RunState

pub data ManagerError : Type 0 where
  invalid_rules : RouterError → ManagerError
  unsupported no_enabled_rule not_persisted not_intact : ManagerError
  no_firewall not_started not_sent probe_failed not_stopped : ManagerError

-- The router process, and the last rules that it has acknowledged.
pub record Native : Type 0 where
  pub alive : Bool
  pub loaded : Option RouterCommand

pub record Manager : Type 0 where
  pub firewall_ready : Bool
  pub firewall_cleaned : Bool
  pub last_firewall_check : Option ℕ
  pub process : Option Native
  pub rules : RulesRequest
  pub desired : Bool
  pub generation : ℕ
  -- The generation and the availability that the policy was made for.
  pub active_policy : Option (ℕ × Bool)
  pub state : RunState
  pub mihomo_ready : Bool
  pub last_error : Option ManagerError
  pub last_contact : Option ℕ

-- The clock, and whether each call of the system succeeds.
pub record Answers : Type 0 where
  pub now : ℕ
  pub supported : Bool
  pub persists : Bool
  pub intact : Bool
  pub checks : Bool
  pub ensures : Bool
  pub checks_again : Bool
  pub removes : Bool
  pub starts : Bool
  pub acknowledges : Bool
  pub stops : Bool
  pub probes : Bool

abbrev pub client_lease : ℕ
client_lease = 20000000000

abbrev pub firewall_probe_interval : ℕ
firewall_probe_interval = 30000000000

abbrev pub Outcome : Type 0
Outcome = Manager × Result ManagerError (Unit {0})

unfoldable pub lease_active_locked : Answers → Manager → Bool
lease_active_locked a m = elim m.last_contact [
  | none ↦ false
  | some contact ↦ leb a.now (contact + client_lease)
]

unfoldable pub set_error_locked : ManagerError → Manager → Manager
set_error_locked e m = record m { state = failed_state; mihomo_ready = false; last_error = some e }

unfoldable pub stop_process_locked : Manager → Manager
stop_process_locked m = elim m.process [
  | none ↦ m
  | some p ↦ record m { process = none; active_policy = none }
]

unfoldable pub recently_checked : Answers → Manager → Bool
recently_checked a m = elim m.last_firewall_check [
  | none ↦ false
  | some time ↦ ltb a.now (time + firewall_probe_interval)
]

-- Whether the firewall is there, and the manager.
unfoldable pub ensure_firewall_locked : Answers → Bool → Manager → Manager × Bool
ensure_firewall_locked a force m =
    if not force && m.firewall_ready && recently_checked a m
    then (m, true)
    else if a.checks
    then (record m { last_firewall_check = some a.now; firewall_ready = true }, true)
    else if a.ensures && a.checks_again
    then (
      record m {
        last_firewall_check = some a.now;
        firewall_ready = true;
        firewall_cleaned = false;
      },
      true,
    )
    else (record m { last_firewall_check = some a.now; firewall_ready = false }, false)

unfoldable pub remove_firewall_locked : Answers → Manager → Manager
remove_firewall_locked a m = if m.firewall_cleaned then m else record m {
  firewall_ready = false;
  last_firewall_check = none;
  firewall_cleaned = a.removes;
}

unfoldable pub update_proxy_health_locked : Bool → Bool → Manager → Manager
update_proxy_health_locked requires_proxy available m =
    if requires_proxy && not available
    then record m { mihomo_ready = false; last_error = some probe_failed; state = blocked }
    else record m { mihomo_ready = requires_proxy && available; last_error = none; state = running }

unfoldable pub same_policy : Option (ℕ × Bool) → ℕ → Bool → Bool
same_policy none generation available = false
same_policy (some (g, true)) generation available = g == generation && available
same_policy (some (g, false)) generation available = g == generation && not available

-- A process that has died is forgotten.
unfoldable pub forget_dead : Manager → Manager
forget_dead m = elim m.process [
  | none ↦ m
  | some p ↦ if p.alive then m else record m { process = none; active_policy = none }
]

-- The end of `Reconcile`, with a process.
unfoldable pub send_policy : Answers → Native → Manager → Outcome
send_policy a p m =
    let requires_proxy = has_proxy_rules m.rules in
    let available = not requires_proxy || a.probes in
    if same_policy m.active_policy m.generation available
    then (update_proxy_health_locked requires_proxy available m, ok tt)
    else if a.acknowledges
    then (
      update_proxy_health_locked requires_proxy available (record m {
        process = some (record p { loaded = some (build_router_command m.rules available) });
        active_policy = some (m.generation, available);
      }),
      ok tt,
    )
    else (
      set_error_locked not_sent (remove_firewall_locked a (stop_process_locked m)),
      err not_sent,
    )

unfoldable pub run_process : Answers → Manager → Outcome
run_process a m = elim m.process [
  | some p ↦ send_policy a p m
  | none ↦
      if a.starts
      then (let p : Native = record { alive = true; loaded = none } in
          send_policy a p (record m { process = some p; active_policy = none }))
      else (set_error_locked not_started (remove_firewall_locked a m), err not_started)
]

unfoldable pub with_firewall : Answers → Manager → Outcome
with_firewall a m =
    let (m', there) = ensure_firewall_locked a (is_none m.process) m in
    if there
    then run_process a m'
    else (set_error_locked no_firewall (stop_process_locked m'), err no_firewall)

unfoldable pub reconcile_supported : Answers → Manager → Outcome
reconcile_supported a m = elim m.process [
  | some p ↦ with_firewall a m
  | none ↦
      let m' : Manager = record m { state = starting } in
      if a.intact then with_firewall a m' else (set_error_locked not_intact m', err not_intact)
]

-- Whether stopping and removing succeed: there may be nothing to do.
unfoldable pub stops_process : Answers → Manager → Bool
stops_process a m = is_none m.process || a.stops

unfoldable pub removes_firewall : Answers → Manager → Bool
removes_firewall a m = m.firewall_cleaned || a.removes

-- The end of a lease: the error is that of the stop or the removal.
unfoldable pub expire_lease_locked : Answers → Manager → Outcome
expire_lease_locked a m = (
  remove_firewall_locked a
      (stop_process_locked (record m { state = stopped; mihomo_ready = false; last_error = none })),
  (if stops_process a m && removes_firewall a m then ok tt else err not_stopped),
)

unfoldable pub reconcile : Answers → Manager → Outcome
reconcile a m =
    if not m.desired
    then (m, ok tt)
    else if not (lease_active_locked a m)
    then expire_lease_locked a m
    else if not a.supported
    then (set_error_locked unsupported m, err unsupported)
    else reconcile_supported a (forget_dead m)
