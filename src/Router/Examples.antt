-- ===== src/Router/Examples.antt =====
-- Concrete requests of rules for the router.
use kokorobox_service.Router.Manager.{
  Manager, Native, Answers, stopped, blocked, reconcile, lease_active_locked, reconcile_supported,
  forget_dead, with_firewall, ensure_firewall_locked, run_process, send_policy, same_policy,
}
use kokorobox_service.Router.Manager.FailClosed.{IsSynced, reconcile_fails_closed}
use kokorobox_service.Router.Manager.Synced.{operate, replacing, operate-IsSynced}
use kokorobox_service.Router.Commands.{is_proxy_rule, RouterCommand}
use kokorobox_service.Common.{
  none, some, ◌≡◌, refl, true, false, [], ◌∷◌, codes, text_eq, to_lower, lower_char, equal_fold,
  has_prefix, has_suffix, contains_byte, contains_any, any, all, ok, All,
}
use kokorobox_service.Common.Ints.{pos}
use kokorobox_service.Router.Wildcard.{
  wildcard_matches, wildcard_loop, turn, go_back, turns, only_stars, matches,
}
use kokorobox_service.Router.Wildcard.Matching.{wildcard_matches_lem}
use kokorobox_service.Router.Patterns.{
  valid_windows_executable_pattern, windows_base_name, after_last, is_protected_process_pattern,
  valid_windows_path,
}
use kokorobox_service.Router.Requests.{
  valid_protocol, valid_action, windows_name, linux_name, rule_name, validate_rule, identifier,
  path_key, note_rule, check_rule, with_match_kind, number_rules, insert_rule, sort_rules,
  expected_port, is_platform, platform_or, Rule, RulesRequest, normalize_rules_request, windows,
  match_executable_path,
}
use kokorobox_service.Router.Requests.Normal.{
  IsNormal, normalize-IsNormal, normalize-IsSettled, normalize_idempotent,
}
use kokorobox_service.Router.Commands.{has_proxy_rules, build_router_command}
use kokorobox_service.Router.Commands.FailClosed.{NotProxied, command_fails_closed}

abbrev raw_rule : Rule
raw_rule = record {
  id = codes "1";
  match_kind = [];
  executable_path = codes "a*.exe";
  executable_name = codes "A*.exe";
  protocol = codes "tcp";
  action = codes "proxy";
  enabled = true;
  priority = pos 7;
}

abbrev raw_request : RulesRequest
raw_request = record {
  version = pos 1;
  platform = [];
  proxy_port = pos 7891;
  fail_closed = true;
  proxy_udp_dns = false;
  diagnostic_logging = false;
  rules = raw_rule ∷ [];
}

abbrev normal_request : RulesRequest
normal_request = record raw_request {
  platform = windows;
  rules = record raw_rule { match_kind = match_executable_path; priority = pos 1 } ∷ [];
}

request_accepted : normalize_rules_request (codes "darwin") raw_request ≡ ok normal_request
unfolding normalize_rules_request platform_or is_platform expected_port sort_rules insert_rule
    number_rules with_match_kind check_rule note_rule path_key identifier validate_rule rule_name
    linux_name windows_name valid_action valid_protocol valid_windows_executable_pattern
    windows_base_name after_last is_protected_process_pattern valid_windows_path wildcard_matches
    wildcard_loop turn go_back turns only_stars any all text_eq to_lower lower_char equal_fold
    has_prefix has_suffix contains_byte contains_any
request_accepted = refl

wildcard_matches_lem_example :
    wildcard_matches (codes "Kok*.EXE") (codes "kokorobox.exe")
    ≡ matches (to_lower (codes "Kok*.EXE")) (to_lower (codes "kokorobox.exe"))
unfolding to_lower lower_char
wildcard_matches_lem_example = wildcard_matches_lem (codes "Kok*.EXE") (codes "kokorobox.exe") (
  refl,
  (
    refl,
    (refl, (refl, (refl, (refl, (refl, (refl, (refl, (refl, (refl, (refl, (refl, tt))))))))))),
  ),
)

normalize-IsNormal_example : IsNormal normal_request
normalize-IsNormal_example = normalize-IsNormal (codes "darwin") raw_request request_accepted

normalize_idempotent_example :
    normalize_rules_request (codes "linux") normal_request ≡ ok normal_request
normalize_idempotent_example =
    normalize_idempotent (codes "darwin") (codes "linux") raw_request request_accepted

command_fails_closed_example : All NotProxied (build_router_command normal_request false).rules
command_fails_closed_example = command_fails_closed (codes "darwin") raw_request request_accepted

abbrev wanted : Manager
wanted = record {
  firewall_ready = true;
  firewall_cleaned = false;
  last_firewall_check = none;
  process = none;
  rules = normal_request;
  desired = true;
  generation = 1;
  active_policy = none;
  state = stopped;
  mihomo_ready = false;
  last_error = none;
  last_contact = some 5;
}

abbrev proxy_away : Answers
proxy_away = record {
  now = 9;
  supported = true;
  persists = true;
  intact = true;
  checks = true;
  ensures = true;
  checks_again = true;
  removes = true;
  starts = true;
  acknowledges = true;
  stops = true;
  probes = false;
}

reconcile_works : (reconcile proxy_away wanted).1 ≡ ok tt
unfolding reconcile lease_active_locked reconcile_supported forget_dead with_firewall
    ensure_firewall_locked run_process send_policy same_policy
reconcile_works = refl

reconcile_fails_closed_example :
    ((reconcile proxy_away wanted).0.state ≡ blocked)
    × ((p : Native) × (c : RouterCommand) × ((reconcile proxy_away wanted).0.process ≡ some p)
        × (p.loaded ≡ some c)
        × All NotProxied c.rules)
unfolding lease_active_locked has_proxy_rules is_proxy_rule any text_eq
reconcile_fails_closed_example =
    reconcile_fails_closed proxy_away wanted refl refl tt
      (normalize-IsSettled (codes "darwin") raw_request request_accepted) refl refl reconcile_works

operate-IsSynced_example :
    IsSynced (operate proxy_away (replacing (codes "darwin") raw_request) wanted)
operate-IsSynced_example =
    operate-IsSynced proxy_away (replacing (codes "darwin") raw_request) wanted tt
