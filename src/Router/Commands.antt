-- ===== src/Router/Commands.antt =====
-- processrouter/types.go: the command that is sent to the router, and the counts of rules.
pub mod FailClosed
use kokorobox_service.Common.{
  ℕ, suc, Bool, true, not, ◌&&◌, List, [], ◌∷◌, Text, codes, text_eq, to_upper, any, map,
  if◌then◌else◌,
}
use kokorobox_service.Common.Ints.{ℤ}
use kokorobox_service.Router.Requests.{Rule, RulesRequest, match_process_name, identifier}

pub record RouterRule : Type 0 where
  pub process_pattern : Text
  pub match_kind : Text
  pub protocol : Text
  pub action : Text
  pub enabled : Bool
  pub priority : ℤ

pub record RouterCommand : Type 0 where
  pub version : ℕ
  pub command : Text
  pub host : Text
  pub port : ℤ
  pub fail_closed : Bool
  pub proxy_udp_dns : Bool
  pub diagnostic_logging : Bool
  pub rules : List RouterRule

unfoldable pub command_action : Text → Bool → Text
command_action action proxy_available =
    if text_eq action (codes "proxy") && not proxy_available then codes "BLOCK" else to_upper action

unfoldable pub router_rule : Bool → Rule → RouterRule
router_rule proxy_available rule = record {
  process_pattern = identifier rule;
  match_kind = if text_eq rule.match_kind match_process_name then match_process_name else [];
  protocol = to_upper rule.protocol;
  action = command_action rule.action proxy_available;
  enabled = rule.enabled;
  priority = rule.priority;
}

unfoldable pub build_router_command : RulesRequest → Bool → RouterCommand
build_router_command request proxy_available = record {
  version = 1;
  command = codes "replace_rules";
  host = codes "127.0.0.1";
  port = request.proxy_port;
  fail_closed = true;
  proxy_udp_dns = request.proxy_udp_dns;
  diagnostic_logging = request.diagnostic_logging;
  rules = map (router_rule proxy_available) request.rules;
}

unfoldable pub is_proxy_rule : Rule → Bool
is_proxy_rule rule = rule.enabled && text_eq rule.action (codes "proxy")

unfoldable pub has_proxy_rules : RulesRequest → Bool
has_proxy_rules request = any is_proxy_rule request.rules

unfoldable pub has_enabled_rules : RulesRequest → Bool
has_enabled_rules request = any (λ rule. rule.enabled) request.rules

unfoldable pub count_proxy_rules : List Rule → ℕ
count_proxy_rules [] = 0
count_proxy_rules (r ∷ rs) =
    let rest = count_proxy_rules rs in if is_proxy_rule r then suc rest else rest

unfoldable pub protected_rule_count : RulesRequest → ℕ
protected_rule_count request = count_proxy_rules request.rules
