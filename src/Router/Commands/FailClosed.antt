-- ===== src/Router/Commands/FailClosed.antt =====
-- The actions of the command to the router (processrouter/types.go).
use kokorobox_service.Common.{
  ℕ, suc, ◌≡◌, refl, true, false, List, [], ◌∷◌, Text, codes, text_eq, text_eq→eq, to_upper,
  upper_char, map, ok, arith, All, Bool-cases, inl, inr,
}
use kokorobox_service.Router.Requests.{Rule, RulesRequest, valid_action, normalize_rules_request}
use kokorobox_service.Router.Requests.Numbering.{Numbered, validate_rule-IsAllowed}
use kokorobox_service.Router.Requests.Normal.{IsSettled, normalize-IsSettled}
use kokorobox_service.Router.Commands.{
  RouterRule, router_rule, command_action, build_router_command,
}

abbrev pub NotProxied : RouterRule → Type 0
NotProxied r = text_eq r.action (codes "PROXY") ≡ false

block_action :
    (a : Text) → valid_action a ≡ true → text_eq (command_action a false) (codes "PROXY") ≡ false
unfolding valid_action command_action text_eq to_upper upper_char
block_action a h = elim (Bool-cases (text_eq a (codes "proxy"))) [
  | inl p ↦ rw p refl
  | inr np ↦ rw np (elim (Bool-cases (text_eq a (codes "direct"))) [
    | inl d ↦ rw (text_eq→eq a (codes "direct") d) refl
    | inr nd ↦ rw (text_eq→eq a (codes "block") (ground (arith, np, nd))) refl
  ])
]

blocked :
    (platform : Text) (index : ℕ) (ids paths : List Text) (bytes : ℕ) (rs : List Rule)
    → Numbered platform index ids paths bytes rs
    → All NotProxied (map (router_rule false) rs)
unfolding router_rule
blocked platform index ids paths bytes [] n = tt
blocked platform index ids paths bytes (r ∷ rs) (_, _, valid, _, _, _, later) = (
  block_action r.action (validate_rule-IsAllowed r platform valid).action,
  blocked platform (suc index) _ _ _ rs later,
)

pub normal_fails_closed :
    (r : RulesRequest) → IsSettled r → All NotProxied (build_router_command r false).rules
unfolding build_router_command
normal_fails_closed r n = blocked r.platform 0 [] [] 0 r.rules n.numbered

-- While the proxy is not available, no rule of the command of an accepted request sends a program to the proxy.
pub command_fails_closed :
    (goos : Text) (request : RulesRequest) {out : RulesRequest}
    → normalize_rules_request goos request ≡ ok out
    → All NotProxied (build_router_command out false).rules
command_fails_closed goos request {out} h =
    normal_fails_closed out (normalize-IsSettled goos request {out = out} h)
